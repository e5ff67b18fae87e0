-- ===== src/Tests/Shop.antt =====
-- A shop with three orders, their payments, some stock and an outbox, on which the theorems are tried.
use central_backend_e_commer.Prelude.{ℕ, ◌+◌, true, false, Option, none, some, [], ◌∷◌}
use central_backend_e_commer.Prelude.Int.{pos}
use central_backend_e_commer.Action.{ok}
use central_backend_e_commer.Prisma.{OrderBy}
use central_backend_e_commer.Schema.{
  Db, Env, empty_db, Order, OrderStatus, OrderSource, OrderType, Payment, PaymentStatus,
  InventoryItem, InventoryBatch, BatchCode, Product, Event,
}
use central_backend_e_commer.EventBus.{outbox_row}
use central_backend_e_commer.Inventory.Reserve.{StockReservationInput, StockServices}

abbrev pub clerk : Env
clerk = record { uuid = λ n. n + 1000; now = 100; refund_key = λ id. id + 5000; actor_id = some 7 }

abbrev pub order_of : ℕ → OrderStatus → ℕ → Order
order_of id status total = record {
  id = id;
  request_key = none;
  customer_id = some 3;
  type = OrderType.customer;
  status = status;
  source = OrderSource.online;
  subtotal = total;
  discount = 0;
  tax = 0;
  total = total;
  order_notes = none;
  shipping_address = none;
  billing_address = none;
  items = [];
}

abbrev pub first_payment : Payment
first_payment = record {
  id = 51;
  order_id = 2;
  method = 1;
  amount = pos 80;
  status = PaymentStatus.success;
  reference = some 9001;
  idempotency_key = none;
  refund_of_payment_id = none;
}

abbrev pub batch : ℕ → ℕ → Option ℕ → InventoryBatch
batch id left expiry = record {
  id = id;
  product_id = 4;
  stock_item_id = none;
  batch_code = BatchCode.given 9;
  quantity_received = 20;
  quantity_remaining = left;
  unit_cost = 3;
  manufacture_date = none;
  expiry_date = expiry;
  created_at = id;
}

abbrev pub mugs : Product
mugs = record {
  id = 4;
  is_active = true;
  is_stock_tracked = true;
  is_serialized = false;
  variants = [];
}

abbrev pub mugs_item : InventoryItem
mugs_item = record {
  id = 61;
  product_id = 4;
  stock_item_id = none;
  quantity_on_hand = 15;
  reserved_quantity = 2;
}

abbrev pub pending_order : Order
pending_order = order_of 1 OrderStatus.pending 100

abbrev pub paid_order : Order
paid_order = order_of 2 OrderStatus.paid 80

abbrev pub cancelled_order : Order
cancelled_order = order_of 3 OrderStatus.cancelled 5

abbrev pub shop : Db
shop = record empty_db {
  catalog = record { products = mugs ∷ []; stock_items = []; units = [] };
  orders = pending_order ∷ paid_order ∷ cancelled_order ∷ [];
  payments = first_payment ∷ [];
  items = mugs_item ∷ [];
  batches = batch 71 5 (some 200) ∷ batch 72 10 none ∷ [];
  outbox = outbox_row clerk 0 none (Event.order_paid paid_order) ∷ [];
  drawn = 2;
}

abbrev pub as_stored : OrderBy
as_stored row before rows = rows

abbrev pub plain_services : StockServices
plain_services = record {
  effective_configuration =
      λ s d. ok (record { track_reservations = true; track_unique_assets = false });
  assert_receipt =
      λ s u b e d. ok (record { track_reservations = true; track_unique_assets = false });
  validate_receipt_assets = λ s q a d. ok tt;
  register_assets = λ s b q a d. ok tt;
  mark_assets_sold = λ a n d. ok tt;
  restore_assets = λ a d. ok tt;
  resolve_sale_asset_ids = λ i q a b d. ok a;
  reserve_assets = λ a d. ok tt;
  release_reserved_assets = λ a d. ok tt;
}

abbrev pub some_mugs : ℕ → ℕ → StockReservationInput
some_mugs key q = record {
  product_id = 4;
  variant_id = none;
  stock_item_id = none;
  unit_id = none;
  quantity = q;
  reference_id = some 1;
  reservation_key = key;
  asset_ids = [];
  serial_numbers = [];
}
