-- ===== src/Tests/Deliveries.antt =====
-- Purchase orders at concrete requests: 5 mugs are ordered, and 3 come, twice.
use central_backend_e_commer.Prelude.{ℕ, ◌≡◌, refl, none, some, List, [], ◌∷◌, arith, map}
use central_backend_e_commer.Prisma.{list_client, list_client-Laws}
use central_backend_e_commer.Schema.{Db, Env, PurchaseOrderItem, PurchaseOrderStatus}
use central_backend_e_commer.Inventory.Identity.{resolve_for_write}
use central_backend_e_commer.Purchasing.Orders.{find_by_id, find_one, approve}
use central_backend_e_commer.Purchasing.Orders.Lifecycle.{
  StatusCall, run_status_call, outcome, run_status_call_lem,
}
use central_backend_e_commer.Purchasing.Receipts.{
  CreateGoodsReceiptItemDto, CreateGoodsReceiptDto, ReceiptServices, create,
}
use central_backend_e_commer.Purchasing.Receipts.Within.{WithinOrder}
use central_backend_e_commer.Purchasing.Receipts.Calls.{
  PurchaseCall, run_purchase_call, run_purchase_calls, run_purchase_calls-WithinOrder,
}
use central_backend_e_commer.Tests.Shop.{clerk, shop}

abbrev five_mugs : PurchaseOrderItem
five_mugs = record {
  id = 61;
  purchase_order_id = 60;
  product_id = 4;
  stock_item_id = none;
  unit_id = none;
  quantity = 5000;
  base_quantity = some 5000;
  received_quantity = 0;
  unit_cost = 200;
  total_cost = 1000;
}

abbrev ordering_shop : Db
ordering_shop = record shop {
  purchase_orders =
      record {
        id = 60;
        supplier_id = 71;
        status = PurchaseOrderStatus.draft;
        subtotal = 1000;
        tax = 0;
        total = 1000;
      }
      ∷ [];
  purchase_order_items = five_mugs ∷ [];
}

abbrev three_mugs : CreateGoodsReceiptItemDto
three_mugs = record {
  product_id = 4;
  stock_item_id = none;
  unit_id = none;
  quantity = 3000;
  unit_cost = 200;
  batch_code = none;
  expiry_date = none;
  assets = [];
}

abbrev delivery_of : ℕ → List CreateGoodsReceiptItemDto → CreateGoodsReceiptDto
delivery_of key items = record {
  idempotency_key = some key;
  purchase_order_id = 60;
  received_by = 9;
  items = items;
}

abbrev plain_receipts : ReceiptServices
plain_receipts = record { request_hash = λ x. x.purchase_order_id; sort_items = λ x. x }

abbrev calls : List (Env × PurchaseCall)
calls =
    (clerk, PurchaseCall.approval 60)
    ∷ (clerk, PurchaseCall.delivery (delivery_of 1 (three_mugs ∷ [])))
    ∷ (clerk, PurchaseCall.delivery (delivery_of 2 (three_mugs ∷ [])))
    ∷ []

ordering_shop-WithinOrder : WithinOrder ordering_shop.purchase_order_items
ordering_shop-WithinOrder = ((refl, tt), (ground arith, tt))

run_purchase_calls-WithinOrder_example :
    WithinOrder
      (run_purchase_calls list_client plain_receipts calls ordering_shop).purchase_order_items
run_purchase_calls-WithinOrder_example =
    run_purchase_calls-WithinOrder list_client-Laws plain_receipts calls ordering_shop
      ((tt, ((tt, tt), ((tt, tt), tt)))) ordering_shop-WithinOrder

run_status_call_lem_example :
    run_status_call list_client clerk StatusCall.approval 60 ordering_shop
    ≡ outcome clerk StatusCall.approval 60 ordering_shop
        (find_by_id list_client clerk 60 ordering_shop)
run_status_call_lem_example =
    run_status_call_lem list_client-Laws clerk StatusCall.approval 60 ordering_shop

-- The first three came, the others were refused.
came :
    map
      (λ (i : PurchaseOrderItem). i.received_quantity)
      (run_purchase_calls list_client plain_receipts calls ordering_shop).purchase_order_items
    ≡ 3000 ∷ []
unfolding run_purchase_call approve find_one create resolve_for_write
came = refl

-- Two lines of one delivery are each compared with what was open before it, so six of five mugs come.
came_too_many :
    map
      (λ (i : PurchaseOrderItem). i.received_quantity)
      (run_purchase_calls list_client plain_receipts
        ((clerk, PurchaseCall.approval 60)
          ∷ (clerk, PurchaseCall.delivery (delivery_of 1 (three_mugs ∷ three_mugs ∷ [])))
          ∷ [])
        ordering_shop).purchase_order_items
    ≡ 6000 ∷ []
unfolding run_purchase_call approve find_one create resolve_for_write
came_too_many = refl
