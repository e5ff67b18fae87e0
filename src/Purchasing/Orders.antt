-- ===== src/Purchasing/Orders.antt =====
-- `PurchaseOrdersService`: what is ordered of a supplier, and the status of the order until the goods come.
pub mod Lifecycle
use central_backend_e_commer.Prelude.{
  ℕ, ◌+◌, ◌*◌, Bool, true, false, not, Option, none, some, List, [], ◌∷◌, ◌++◌, length, sum_of,
  ◌==◌,
}
use central_backend_e_commer.Action.{
  Action, ok, err, bad_request, not_found, record_not_found, pure, gets, or_throw, throw_if, modify,
  ◌>>=◌, ◌>>◌,
}
use central_backend_e_commer.Prisma.{Prisma}
use central_backend_e_commer.Schema.{
  Db, Env, Event, AuditEntry, Product, Supplier, PurchaseOrder, PurchaseOrderItem,
  PurchaseOrderStatus, PurchaseOrderPayload,
}
use central_backend_e_commer.EventBus.{publish}
use central_backend_e_commer.Inventory.Identity.{WriteInput, ResolvedIdentity, resolve_for_write}
use central_backend_e_commer.Inventory.Configuration.{assert_unit_configuration}

pub record CreatePurchaseOrderItemDto : Type 0 where
  pub product_id : ℕ
  pub stock_item_id : Option ℕ
  pub unit_id : Option ℕ
  pub quantity : ℕ
  pub unit_cost : ℕ

pub record CreatePurchaseOrderDto : Type 0 where
  pub supplier_id : ℕ
  pub tax : Option ℕ
  pub items : List CreatePurchaseOrderItemDto

-- `total_cost` is in thousandths of a cent, which the column rounds.
pub record PurchaseOrderLine : Type 0 where
  pub item : CreatePurchaseOrderItemDto
  pub identity : ResolvedIdentity
  pub total_cost : ℕ

abbrev pub is_available : Option Product → Bool
is_available none = false
is_available (some r) = r.is_active

abbrev pub line_of : CreatePurchaseOrderItemDto → ResolvedIdentity → PurchaseOrderLine
line_of item identity = record {
  item = item;
  identity = identity;
  total_cost = item.quantity * item.unit_cost;
}

abbrev pub write_input_of : CreatePurchaseOrderItemDto → WriteInput
write_input_of item = record {
  product_id = item.product_id;
  quantity = item.quantity;
  variant_id = none;
  stock_item_id = item.stock_item_id;
  unit_id = item.unit_id;
}

abbrev pub is_received : PurchaseOrderStatus → Bool
is_received PurchaseOrderStatus.received = true
is_received _ = false

abbrev pub is_draft : PurchaseOrderStatus → Bool
is_draft PurchaseOrderStatus.draft = true
is_draft _ = false

abbrev pub tax_of : Option ℕ → ℕ
tax_of none = 0
tax_of (some t) = t

abbrev pub with_status : PurchaseOrderStatus → PurchaseOrder → PurchaseOrder
with_status status o = record o { status = status }

-- `items: true` of a query: the rows that point to the order.
abbrev pub items_of : Prisma → ℕ → Db → List PurchaseOrderItem
items_of p id d =
    p.find_many PurchaseOrderItem (λ i. i.purchase_order_id == id) d.purchase_order_items

module _ (p : Prisma) (env : Env) where
  abbrev pub find_by_id : ℕ → Db → Option PurchaseOrder
  find_by_id id d = p.find_first PurchaseOrder (λ o. o.id == id) d.purchase_orders

  unfoldable pub find_one : ℕ → Action Db PurchaseOrder
  find_one id = do
    found ← gets (find_by_id id)
    or_throw found (not_found "Purchase order not found")

  abbrev pub update_status : ℕ → PurchaseOrderStatus → Action Db PurchaseOrder
  update_status id status d =
      elim (p.update PurchaseOrder (λ o. o.id == id) (with_status status) d.purchase_orders) [
        | none ↦ (err record_not_found, d)
        | some (o, t) ↦ (ok o, record d { purchase_orders = t })
      ]

  -- The transaction that `approve` and `cancel` make, each with its status and its event.
  abbrev pub move_to :
      ℕ → PurchaseOrderStatus → (PurchaseOrderPayload → Event) → Action Db PurchaseOrder
  move_to id status event = do
    updated ← update_status id status
    items ← gets (items_of p id)
    publish p env env.actor_id (event (record { order = updated; items = items }))
    pure updated

  abbrev pub log_status : ℕ → PurchaseOrderStatus → PurchaseOrder → Action Db PurchaseOrder
  log_status id before o = do
    modify (λ d. record d {
      audit = d.audit ++ (AuditEntry.purchase_order_status_changed id before o.status ∷ []);
    })
    pure o

  unfoldable pub approve : ℕ → Action Db PurchaseOrder
  unfolding find_one
  approve id = do
    before ← find_one id
    throw_if (not (is_draft before.status))
        (bad_request "Only draft purchase orders can be approved")
    updated ←
        p.transaction Db PurchaseOrder
          (move_to id PurchaseOrderStatus.approved Event.purchase_order_approved)
    log_status id before.status updated

  unfoldable pub cancel : ℕ → Action Db PurchaseOrder
  unfolding find_one
  cancel id = do
    before ← find_one id
    throw_if (is_received before.status)
        (bad_request "Received purchase orders cannot be cancelled")
    updated ←
        p.transaction Db PurchaseOrder
          (move_to id PurchaseOrderStatus.cancelled Event.purchase_order_cancelled)
    log_status id before.status updated

  -- `SuppliersService.findOne`
  abbrev pub find_supplier : ℕ → Action Db Supplier
  find_supplier id = do
    found ← gets (λ d. p.find_first Supplier (λ s. s.id == id) d.suppliers)
    or_throw found (not_found "Supplier not found")

  abbrev pub check_products : List CreatePurchaseOrderItemDto → Action Db (Unit {0})
  check_products [] = pure tt
  check_products (item ∷ rest) =
      let later = check_products rest in
      gets (λ d. p.find_first Product (λ r. r.id == item.product_id) d.catalog.products)
      >>= λ found. throw_if (not (is_available found)) (not_found "Product not found") >> later

  abbrev pub resolve_line : CreatePurchaseOrderItemDto → Action Db PurchaseOrderLine
  resolve_line item = do
    identity ← resolve_for_write p (write_input_of item)
    assert_unit_configuration p identity.stock_item_id identity.unit_id
    pure (line_of item identity)

  abbrev pub resolve_lines : List CreatePurchaseOrderItemDto → Action Db (List PurchaseOrderLine)
  resolve_lines [] = pure []
  resolve_lines (item ∷ rest) =
      let later = resolve_lines rest in
      resolve_line item >>= λ line. later >>= λ lines. pure (line ∷ lines)

  module _ (to_cents : ℕ → ℕ) where
    abbrev pub subtotal_of : List PurchaseOrderLine → ℕ
    subtotal_of lines = sum_of (λ l. l.total_cost) lines

    abbrev pub order_of : ℕ → CreatePurchaseOrderDto → List PurchaseOrderLine → PurchaseOrder
    order_of n dto lines = record {
      id = env.uuid n;
      supplier_id = dto.supplier_id;
      status = PurchaseOrderStatus.draft;
      subtotal = to_cents (subtotal_of lines);
      tax = tax_of dto.tax;
      total = to_cents (subtotal_of lines + tax_of dto.tax * 1000);
    }

    abbrev pub item_of : ℕ → ℕ → PurchaseOrderLine → PurchaseOrderItem
    item_of n order l = record {
      id = env.uuid n;
      purchase_order_id = order;
      product_id = l.item.product_id;
      stock_item_id = l.identity.stock_item_id;
      unit_id = l.identity.unit_id;
      quantity = l.item.quantity;
      base_quantity = some l.identity.base_quantity;
      received_quantity = 0;
      unit_cost = l.item.unit_cost;
      total_cost = to_cents l.total_cost;
    }

    -- The nested `items: { create: lines }`.
    abbrev pub insert_items :
        ℕ → ℕ → List PurchaseOrderLine → List PurchaseOrderItem → List PurchaseOrderItem
    insert_items n order [] t = t
    insert_items n order (l ∷ lines) t =
        insert_items (n + 1) order lines (p.insert PurchaseOrderItem (item_of n order l) t)

    abbrev pub create_row : PurchaseOrder → ℕ → List PurchaseOrderLine → Action Db PurchaseOrder
    create_row o n lines d = (
      ok o,
      record d {
        purchase_orders = p.insert PurchaseOrder o d.purchase_orders;
        purchase_order_items = insert_items (n + 1) o.id lines d.purchase_order_items;
        drawn = d.drawn + 1 + length lines;
      },
    )

    abbrev pub persist_purchase :
        CreatePurchaseOrderDto → List PurchaseOrderLine → Action Db PurchaseOrder
    persist_purchase dto lines = do
      n ← gets (λ d. d.drawn)
      created ← create_row (order_of n dto lines) n lines
      items ← gets (items_of p created.id)
      publish p env env.actor_id
          (Event.purchase_order_created (record { order = created; items = items }))
      pure created

    unfoldable pub create : CreatePurchaseOrderDto → Action Db PurchaseOrder
    create dto = do
      supplier ← find_supplier dto.supplier_id
      throw_if (not supplier.is_active) (bad_request "Supplier is inactive")
      check_products dto.items
      lines ← resolve_lines dto.items
      created ← p.transaction Db PurchaseOrder (persist_purchase dto lines)
      modify (λ d. record d { audit = d.audit ++ (AuditEntry.purchase_order_logged created ∷ []) })
      pure created
