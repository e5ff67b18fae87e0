-- ===== src/Orders.antt =====
-- src/modules/orders: the life of an order after it is created (orders.service.ts, with the queries of
-- orders.repository.ts that it makes).
pub mod Lifecycle
pub mod Reach
pub mod Lines
pub mod Create
use central_backend_e_commer.Prelude.{
  ℕ, Option, none, some, [], ◌∷◌, ◌++◌, ◌||◌, ◌&&◌, not, ◌==◌, if◌then◌else◌,
}
use central_backend_e_commer.Action.{
  Action, ok, err, bad_request, not_found, record_not_found, pure, gets, or_throw, throw_if, modify,
  ◌>>=◌, ◌>>◌,
}
use central_backend_e_commer.Prisma.{Prisma}
use central_backend_e_commer.Schema.{
  Db, Env, Order, OrderStatus, same_order_status, Event, AuditEntry, StatusReason,
}
use central_backend_e_commer.EventBus.{publish}

-- A field of an update: left alone (`undefined`) or set, to `null` too.
pub data Change : Type 0 where
  keep : Change
  set : Option ℕ → Change

abbrev pub changed : Change → Option ℕ → Option ℕ
changed keep old = old
changed (set v) old = v

pub record UpdateOrderDto : Type 0 where
  pub order_notes : Change
  pub shipping_address : Change
  pub billing_address : Change

-- `auditService.logAction` and `logUpdate`
abbrev pub log : AuditEntry → Action Db (Unit {0})
log a = modify (λ d. record d { audit = d.audit ++ (a ∷ []) })

module _ (p : Prisma) where
  -- `OrdersRepository.findById`
  abbrev pub find_by_id : ℕ → Db → Option Order
  find_by_id id d = p.find_first Order (λ o. o.id == id) d.orders

  -- `update`, by the primary key
  abbrev update_order : ℕ → (Order → Order) → Action Db Order
  update_order id f d = elim (p.update Order (λ o. o.id == id) f d.orders) [
    | none ↦ (err record_not_found, d)
    | some (o, t) ↦ (ok o, record d { orders = t })
  ]

  abbrev update_status : ℕ → OrderStatus → Action Db Order
  update_status id s = update_order id (λ o. record o { status = s })

  abbrev update_details : ℕ → UpdateOrderDto → Action Db Order
  update_details id dto = update_order id λ o. record o {
    order_notes = changed dto.order_notes o.order_notes;
    shipping_address = changed dto.shipping_address o.shipping_address;
    billing_address = changed dto.billing_address o.billing_address;
  }

  -- `OrdersService.findOne`
  abbrev pub find_one : ℕ → Action Db Order
  find_one id = do or_throw (← gets (find_by_id id)) (not_found "Order not found")

  module _ (env : Env) where
    pub update : ℕ → UpdateOrderDto → Action Db Order
    update id dto = do
      before ← find_one id
      throw_if (not (same_order_status before.status OrderStatus.pending))
          (bad_request "Only pending orders can be updated")
      updated ← update_details id dto
      log (AuditEntry.order_updated id before updated)
      pure updated

    -- The transaction that the status changes share: the row is written and its event published.
    abbrev change_status : ℕ → OrderStatus → (Order → Event) → Action Db Order
    change_status id s event =
        p.transaction Db Order
          do updated ← update_status id s; publish p env env.actor_id (event updated); pure updated

    pub mark_paid : ℕ → Action Db Order
    mark_paid id = do
      order ← find_one id
      if same_order_status order.status OrderStatus.paid
            || same_order_status order.status OrderStatus.completed
          then pure order
          else do
            throw_if
                (same_order_status order.status OrderStatus.cancelled
                  || same_order_status order.status OrderStatus.refunded)
                (bad_request "Order cannot be paid in its current status")
            updated ← change_status id OrderStatus.paid Event.order_paid
            log (
                AuditEntry.order_status_changed id order.status updated.status
                  StatusReason.payment_received)
            pure updated

    pub complete : ℕ → Action Db Order
    complete id = do
      order ← find_one id
      throw_if (not (same_order_status order.status OrderStatus.paid))
          (bad_request "Only paid orders can be completed")
      updated ← change_status id OrderStatus.completed Event.order_completed
      log (
          AuditEntry.order_status_changed id order.status updated.status
            StatusReason.order_completed)
      pure updated

    pub mark_refunded : ℕ → Action Db Order
    mark_refunded id = do
      order ← find_one id
      if same_order_status order.status OrderStatus.refunded then pure order else do
        throw_if
            (not (same_order_status order.status OrderStatus.paid)
              && not (same_order_status order.status OrderStatus.completed))
            (bad_request "Only paid or completed orders can be refunded")
        updated ← change_status id OrderStatus.refunded Event.order_refunded
        log (
            AuditEntry.order_status_changed id order.status updated.status
              StatusReason.payment_refunded)
        pure updated

    pub cancel : ℕ → Action Db Order
    cancel id = do
      order ← find_one id
      if same_order_status order.status OrderStatus.cancelled then pure order else do
        throw_if (not (same_order_status order.status OrderStatus.pending))
            (bad_request "Only pending orders can be cancelled")
        updated ← change_status id OrderStatus.cancelled Event.order_cancelled
        log (
            AuditEntry.order_status_changed id order.status updated.status
              StatusReason.order_cancelled)
        pure updated
