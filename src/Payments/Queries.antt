-- ===== src/Payments/Queries.antt =====
-- `PaymentsRepository`, each query on the tables of the database.
use central_backend_e_commer.Prelude.{
  ℕ, ◌+◌, Bool, false, Option, none, some, List, ◌&&◌, ◌||◌, any, ◌==◌, opt_eq,
}
use central_backend_e_commer.Prelude.Int.{ℤ}
use central_backend_e_commer.Action.{Action, ok, err, unique_violation}
use central_backend_e_commer.Prisma.{Prisma}
use central_backend_e_commer.Schema.{
  Db, Order, OrderStatus, same_order_status, Payment, PaymentStatus, same_payment_status,
}

-- Two values of a unique column that are the same; `null` is unlike any.
abbrev pub clash : Option ℕ → Option ℕ → Bool
clash none _ = false
clash (some a) b = opt_eq (some a) b

-- The unique columns of `payments`.
abbrev pub conflicts : Payment → Payment → Bool
conflicts new r =
    clash new.reference r.reference
    || clash new.idempotency_key r.idempotency_key
    || clash new.refund_of_payment_id r.refund_of_payment_id

-- A successful payment of the order.
abbrev pub counts_for : ℕ → Payment → Bool
counts_for order_id r = r.order_id == order_id && same_payment_status r.status PaymentStatus.success

module _ (p : Prisma) where
  abbrev pub find_by_id : ℕ → Db → Option Payment
  find_by_id id d = p.find_first Payment (λ r. r.id == id) d.payments

  abbrev pub find_by_idempotency_key : ℕ → Db → Option Payment
  find_by_idempotency_key k d =
      p.find_first Payment (λ r. opt_eq r.idempotency_key (some k)) d.payments

  abbrev pub find_by_reference : ℕ → Db → Option Payment
  find_by_reference k d = p.find_first Payment (λ r. opt_eq r.reference (some k)) d.payments

  abbrev pub find_refund_for_payment : ℕ → Db → Option Payment
  find_refund_for_payment id d =
      p.find_first Payment (λ r. opt_eq r.refund_of_payment_id (some id)) d.payments

  -- `findOrderSummary`, and `lockOrderSummary`, whose lock holds other transactions back
  abbrev pub find_order_summary : ℕ → Db → Option Order
  find_order_summary id d = p.find_first Order (λ o. o.id == id) d.orders

  abbrev pub sum_successful_payments : ℕ → Db → ℤ
  sum_successful_payments id d = p.sum Payment (counts_for id) (λ r. r.amount) d.payments

  abbrev pub create : Payment → Action Db Payment
  create r d = elim (p.create Payment (conflicts r) r d.payments) [
    | none ↦ (err unique_violation, d)
    | some t ↦ (ok r, record d { payments = t; drawn = d.drawn + 1 })
  ]

  abbrev pub update_status_if_current : ℕ → PaymentStatus → PaymentStatus → Action Db ℕ
  update_status_if_current id current next d =
      let (count, t) =
        p.update_many Payment (λ r. r.id == id && same_payment_status r.status current)
          (λ r. record r { status = next }) d.payments in
      (ok count, record d { payments = t })

  abbrev pub update_order_status_if_current : ℕ → List OrderStatus → OrderStatus → Action Db ℕ
  update_order_status_if_current id current next d =
      let (count, t) =
        p.update_many Order (λ o. o.id == id && any (same_order_status o.status) current)
          (λ o. record o { status = next }) d.orders in
      (ok count, record d { orders = t })
