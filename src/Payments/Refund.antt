-- ===== src/Payments/Refund.antt =====
-- `PaymentsService.refundPayment`.
pub mod Books
pub mod Once
use central_backend_e_commer.Prelude.{ℕ, Option, none, some, [], ◌∷◌, not, ◌==◌, if◌then◌else◌}
use central_backend_e_commer.Prelude.Int.{neg}
use central_backend_e_commer.Action.{
  Action, Result, ok, err, bad_request, not_found, unique_violation, pure, gets, or_throw, throw_if,
  ◌>>=◌, ◌>>◌,
}
use central_backend_e_commer.Prisma.{Prisma}
use central_backend_e_commer.Schema.{
  Db, Env, Order, OrderStatus, Payment, PaymentStatus, same_payment_status, Event, AuditEntry,
}
use central_backend_e_commer.EventBus.{publish}
use central_backend_e_commer.Orders.{log}
use central_backend_e_commer.Payments.Queries.{
  find_by_id, find_refund_for_payment, find_order_summary, create, update_order_status_if_current,
}
use central_backend_e_commer.Payments.Record.{publish_if}

-- The row that takes the original payment back.
abbrev pub refund_of : Env → Db → Payment → Payment
refund_of env d r = record {
  id = env.uuid d.drawn;
  order_id = r.order_id;
  method = r.method;
  amount = neg r.amount;
  status = PaymentStatus.success;
  reference = some (env.refund_key r.id);
  idempotency_key = some (env.refund_key r.id);
  refund_of_payment_id = some r.id;
}

module _ (p : Prisma) (env : Env) where
  abbrev create_refund : Payment → Action Db Payment
  create_refund original d = create p (refund_of env d original) d

  -- The rest of the transaction, when no refund is there.
  abbrev refund_anew : Payment → Order → Action Db Payment
  refund_anew original order = do
    refund ← create_refund original
    count ←
        update_order_status_if_current p order.id (OrderStatus.paid ∷ OrderStatus.completed ∷ [])
          OrderStatus.refunded
    refreshed ← (do or_throw (← gets (find_order_summary p order.id)) (not_found "Order not found"))
    log (AuditEntry.payment_refunded original refund)
    publish p env env.actor_id (
        Event.payment_refunded
          (record { original_payment = original; refund_payment = refund; order = refreshed }))
    publish_if p env (count == 1) (Event.order_refunded refreshed)
    pure refund

  pub refund_in_transaction : ℕ → Action Db Payment
  refund_in_transaction payment_id = do
    original ← (do or_throw (← gets (find_by_id p payment_id)) (not_found "Payment not found"))
    order ← (do
      or_throw (← gets (find_order_summary p original.order_id)) (not_found "Order not found"))
    throw_if (not (same_payment_status original.status PaymentStatus.success))
        (bad_request "Only successful payments can be refunded")
    existing ← gets (find_refund_for_payment p payment_id)
    elim existing [ none ↦ refund_anew original order | some r ↦ pure r ]

  -- What follows a refund that another request made first: the payment and its order are read again.
  abbrev reread : ℕ → Payment → Db → Result Payment × Db
  reread payment_id refund d = elim (find_by_id p payment_id d) [
    | none ↦ (err (not_found "Payment not found"), d)
    | some r ↦ elim (find_order_summary p r.order_id d) [
      | none ↦ (err (not_found "Order not found"), d)
      | some _ ↦ (ok refund, d)
    ]
  ]

  abbrev or_existing_refund : ℕ → Result Payment × Db → Result Payment × Db
  or_existing_refund payment_id (err unique_violation, d) =
      elim (find_refund_for_payment p payment_id d) [
        | none ↦ (err unique_violation, d)
        | some r ↦ reread payment_id r d
      ]
  or_existing_refund payment_id r = r

  pub refund_payment : ℕ → Action Db Payment
  unfolding refund_in_transaction
  refund_payment payment_id d =
      or_existing_refund payment_id (p.transaction Db Payment (refund_in_transaction payment_id) d)
