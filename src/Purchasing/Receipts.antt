-- ===== src/Purchasing/Receipts.antt =====
-- `GoodsReceiptsService.create`: goods that come for a purchase order, once for a request key.
mod Request
pub mod Within
pub mod Checks
pub mod Bounds
pub mod Calls
pub use Request.*
use central_backend_e_commer.Prelude.{
  ℕ, ◌+◌, ◌*◌, Bool, true, false, not, ◌&&◌, ◌||◌, Option, none, some, List, [], ◌∷◌, ◌++◌, length,
  map, sum_of, any, all, filter, ltb, leb, opt_eq, ◌==◌, if◌then◌else◌,
}
use central_backend_e_commer.Action.{
  Action, Result, ok, err, Error, bad_request, not_found, record_not_found, unique_violation, pure,
  throw, gets, or_throw, throw_if, modify, ◌>>=◌, ◌>>◌,
}
use central_backend_e_commer.Prisma.{Prisma, first}
use central_backend_e_commer.Schema.{
  Db, Env, Event, AuditEntry, PurchaseOrder, PurchaseOrderItem, PurchaseOrderStatus, GoodsReceipt,
  GoodsReceiptItem, PurchaseReceivedPayload,
}
use central_backend_e_commer.EventBus.{publish}
use central_backend_e_commer.Inventory.Identity.{WriteInput, ResolvedIdentity, resolve_for_write}
use central_backend_e_commer.Inventory.Configuration.{assert_receipt_configuration}
use central_backend_e_commer.Purchasing.Orders.{items_of, find_by_id, find_one, update_status}

-- `if (existing) return existing;`
abbrev pub receipt_or : Option GoodsReceipt → Action Db GoodsReceipt → Action Db GoodsReceipt
receipt_or (some r) m d = (ok r, d)
receipt_or none m d = m d

module _ (p : Prisma) (services : ReceiptServices) (env : Env) where
  abbrev pub build_request_key : CreateGoodsReceiptDto → ℕ
  build_request_key dto = services.request_hash (record {
    actor_id = env.actor_id;
    purchase_order_id = dto.purchase_order_id;
    received_by = dto.received_by;
    items = services.sort_items (map key_item dto.items);
  })

  abbrev pub request_key_of : CreateGoodsReceiptDto → ℕ
  request_key_of dto = elim dto.idempotency_key [ none ↦ build_request_key dto | some k ↦ k ]

  abbrev pub find_by_request_key : ℕ → Db → Option GoodsReceipt
  find_by_request_key key d =
      p.find_first GoodsReceipt (λ r. opt_eq r.request_key (some key)) d.goods_receipts

  abbrev pub resolve_item : CreateGoodsReceiptItemDto → Action Db ResolvedItem
  resolve_item item = do
    identity ← resolve_for_write p (write_input_of item)
    assert_receipt_configuration p identity.stock_item_id identity.unit_id item.batch_code
        item.expiry_date
    pure (resolved_of item identity)

  abbrev pub resolve_items : List CreateGoodsReceiptItemDto → Action Db (List ResolvedItem)
  resolve_items [] = pure []
  resolve_items (item ∷ rest) =
      let later = resolve_items rest in resolve_item item >>= λ r. later >>= λ rs. pure (r ∷ rs)

  -- A round of the first loop: the item of the order that a received one is for.
  abbrev pub check_item : List PurchaseOrderItem → ResolvedItem → Action Db Delivery
  check_item items r = do
    i ←
        or_throw (first (is_for r) items)
          (bad_request "Received inventory identity is not on purchase order")
    throw_if (ltb i.quantity (i.received_quantity + r.item.quantity))
        (bad_request "Received quantity exceeds open quantity")
    pure (i, r)

  abbrev pub check_items : List PurchaseOrderItem → List ResolvedItem → Action Db (List Delivery)
  check_items items [] = pure []
  check_items items (r ∷ rest) =
      let later = check_items items rest in
      check_item items r >>= λ l. later >>= λ ls. pure (l ∷ ls)

  abbrev pub receipt_items : ℕ → List Delivery → List GoodsReceiptItem
  receipt_items n [] = []
  receipt_items n ((_, r) ∷ rest) =
      record {
        id = env.uuid n;
        product_id = r.item.product_id;
        stock_item_id = r.stock_item_id;
        unit_id = r.unit_id;
        quantity = r.item.quantity;
        base_quantity = some r.base_quantity;
        unit_cost = r.item.unit_cost;
        batch_code = r.item.batch_code;
        expiry_date = r.item.expiry_date;
      }
      ∷ receipt_items (n + 1) rest

  abbrev pub receipt_of : ℕ → CreateGoodsReceiptDto → List Delivery → GoodsReceipt
  receipt_of n dto lines = record {
    id = env.uuid n;
    request_key = some (request_key_of dto);
    purchase_order_id = dto.purchase_order_id;
    received_at = env.now;
    received_by = dto.received_by;
    items = receipt_items (n + 1) lines;
  }

  -- The unique column `request_key`.
  abbrev pub create_receipt : GoodsReceipt → ℕ → Action Db GoodsReceipt
  create_receipt r items d =
      elim (p.create GoodsReceipt (λ x. is_given_key x.request_key r.request_key) r
        d.goods_receipts) [
          | none ↦ (err unique_violation, d)
          | some t ↦ (ok r, record d { goods_receipts = t; drawn = d.drawn + 1 + items })
        ]

  abbrev pub update_received_quantity : ℕ → ℕ → Action Db PurchaseOrderItem
  update_received_quantity id q d =
      elim (p.update PurchaseOrderItem (λ i. i.id == id) (raised q) d.purchase_order_items) [
        | none ↦ (err record_not_found, d)
        | some (i, t) ↦ (ok i, record d { purchase_order_items = t })
      ]

  -- The second loop; the map of the order's items is as it was in the first.
  abbrev pub raise_items : List Delivery → Action Db (Unit {0})
  raise_items [] = pure tt
  raise_items ((i, r) ∷ rest) =
      let later = raise_items rest in update_received_quantity i.id r.item.quantity >>= λ _. later

  abbrev pub event_items : List GoodsReceiptItem → List Delivery → List (GoodsReceiptItem × List ℕ)
  event_items (x ∷ xs) ((_, r) ∷ rest) = (x, r.item.assets) ∷ event_items xs rest
  event_items _ _ = []

  abbrev pub received_event : GoodsReceipt → List Delivery → Event
  received_event created lines = Event.purchase_received (record {
    receipt = created;
    total = receipt_total lines;
    items = event_items created.items lines;
  })

  -- The receipt, what it adds to the items, the status that follows, and the event.
  abbrev pub record_receipt :
      CreateGoodsReceiptDto
      → PurchaseOrder
      → List PurchaseOrderItem
      → List ResolvedItem
      → List Delivery
      → Action Db GoodsReceipt
  record_receipt dto order items resolved lines = do
    n ← gets (λ d. d.drawn)
    created ← create_receipt (receipt_of n dto lines) (length lines)
    raise_items lines
    update_status p env order.id (status_after resolved items)
    publish p env env.actor_id (received_event created lines)
    pure created

  -- The transaction's callback from the order on.
  abbrev pub receive :
      CreateGoodsReceiptDto → PurchaseOrder → List PurchaseOrderItem → Action Db GoodsReceipt
  receive dto order items = do
    throw_if (not (is_open order.status))
        (bad_request "Only approved purchase orders can receive goods")
    throw_if (has_duplicates [] items) (
        bad_request
          "Purchase order contains duplicate inventory identities and cannot be received safely")
    resolved ← resolve_items dto.items
    lines ← check_items items resolved
    record_receipt dto order items resolved lines

  -- `lockPurchaseOrderWithItems` and what follows; the locks write nothing.
  abbrev pub receive_locked : CreateGoodsReceiptDto → Action Db GoodsReceipt
  receive_locked dto = do
    found ← gets (find_by_id p env dto.purchase_order_id)
    order ← or_throw found (not_found "Purchase order not found")
    items ← gets (items_of p order.id)
    receive dto order items

  abbrev pub receive_in_transaction : CreateGoodsReceiptDto → Action Db GoodsReceipt
  receive_in_transaction dto d =
      receipt_or (find_by_request_key (request_key_of dto) d) (receive_locked dto) d

  -- The `catch` of a key that another request took first.
  abbrev pub after_receive : ℕ → Result GoodsReceipt × Db → Result GoodsReceipt × Db
  after_receive key (ok r, d) =
      (ok r, record d { audit = d.audit ++ (AuditEntry.goods_receipt_logged r ∷ []) })
  after_receive key (err Error.unique_violation, d) = elim (find_by_request_key key d) [
    | none ↦ (err unique_violation, d)
    | some r ↦ (ok r, d)
  ]
  after_receive key r = r

  -- `try { ... } catch`, and the audit line.
  abbrev pub receive_guarded : CreateGoodsReceiptDto → Action Db GoodsReceipt
  receive_guarded dto d =
      after_receive (request_key_of dto)
        (p.transaction Db GoodsReceipt (receive_in_transaction dto) d)

  abbrev pub receive_new : CreateGoodsReceiptDto → Action Db GoodsReceipt
  receive_new dto = do find_one p env dto.purchase_order_id; receive_guarded dto

  unfoldable pub create : CreateGoodsReceiptDto → Action Db GoodsReceipt
  create dto d = receipt_or (find_by_request_key (request_key_of dto) d) (receive_new dto) d
