-- ===== src/Payments/Record.antt =====
-- `PaymentsService.recordPayment`.
pub mod Transitions
pub mod Guards
pub mod Moves
pub mod Orders
pub mod Paid
pub mod Tests
use central_backend_e_commer.Prelude.{
  ℕ, Bool, true, false, Option, none, some, [], ◌∷◌, ◌||◌, ◌&&◌, not, any, ◌==◌, if◌then◌else◌,
  List,
}
use central_backend_e_commer.Prelude.Text.{template}
use central_backend_e_commer.Prelude.Int.{ℤ, pos, leb_ℤ, eq_ℤ}
use central_backend_e_commer.Action.{
  Action, Result, ok, err, bad_request, not_found, conflict, unique_violation, pure, throw, gets,
  or_throw, throw_if, ◌>>=◌, ◌>>◌,
}
use central_backend_e_commer.Prisma.{Prisma}
use central_backend_e_commer.Schema.{
  Db, Env, Order, OrderStatus, same_order_status, Payment, PaymentStatus, same_payment_status,
  Event, PaymentRecordedPayload, AuditEntry, payment_status_text,
}
use central_backend_e_commer.EventBus.{publish}
use central_backend_e_commer.Orders.{log}
use central_backend_e_commer.Payments.Queries.{
  find_by_id, find_by_idempotency_key, find_by_reference, find_order_summary,
  sum_successful_payments, create, update_status_if_current, update_order_status_if_current,
}

pub record RecordPaymentDto : Type 0 where
  pub order_id : ℕ
  pub method : ℕ
  pub amount : ℤ
  pub status : Option PaymentStatus
  pub reference : Option ℕ
  pub idempotency_key : Option ℕ

-- The flags of `recordPayment` that say what it will publish.
pub record Emits : Type 0 where
  pub payment_recorded : Bool
  pub payment_succeeded : Bool
  pub payment_failed : Bool
  pub order_paid : Bool
  pub order_cancelled : Bool

abbrev no_emits : Emits
no_emits = record {
  payment_recorded = false;
  payment_succeeded = false;
  payment_failed = false;
  order_paid = false;
  order_cancelled = false;
}

abbrev pub publish_if : Prisma → Env → Bool → Event → Action Db (Unit {0})
publish_if p env b e = if b then publish p env env.actor_id e else pure tt

module _ (p : Prisma) where
  abbrev by_reference : Option ℕ → Db → Option Payment
  by_reference none d = none
  by_reference (some k) d = find_by_reference p k d

  abbrev by_idempotency_key : Option ℕ → Db → Option Payment
  by_idempotency_key none d = none
  by_idempotency_key (some k) d = find_by_idempotency_key p k d

  abbrev pub find_existing_payment_for_replay : RecordPaymentDto → Db → Option Payment
  find_existing_payment_for_replay dto d = elim (by_idempotency_key dto.idempotency_key d) [
    | some r ↦ some r
    | none ↦ by_reference dto.reference d
  ]

abbrev pub replay_fits : RecordPaymentDto → Payment → Bool
replay_fits dto r = r.order_id == dto.order_id && r.method == dto.method && eq_ℤ r.amount dto.amount

abbrev ensure_replay_compatibility : Option Payment → RecordPaymentDto → Action Db (Unit {0})
ensure_replay_compatibility none dto = pure tt
ensure_replay_compatibility (some r) dto =
    throw_if (not (replay_fits dto r))
      (conflict "Payment replay keys refer to a different payment request")

-- `status === SUCCESS || status === FAILED`
abbrev is_final : PaymentStatus → Bool
is_final s =
    same_payment_status s PaymentStatus.success || same_payment_status s PaymentStatus.failed

abbrev allowed_current : PaymentStatus → List PaymentStatus
allowed_current desired =
    if is_final desired
    then PaymentStatus.pending ∷ PaymentStatus.awaiting_verification ∷ []
    else PaymentStatus.pending ∷ []

module _ (p : Prisma) (env : Env) where
  -- `if (desiredStatus === SUCCESS) ...` and the two returns that follow it.
  abbrev settle_order : Payment → PaymentStatus → Order → Action Db (Payment × Emits)
  settle_order r PaymentStatus.success order = do
    paid ← gets (sum_successful_payments p order.id)
    count ←
        (if leb_ℤ (pos order.total) paid && same_order_status order.status OrderStatus.pending
          then update_order_status_if_current p order.id (OrderStatus.pending ∷ []) OrderStatus.paid
          else pure 0)
    pure (r, record no_emits { payment_succeeded = true; order_paid = count == 1 })
  settle_order r PaymentStatus.failed order = do
    count ←
        update_order_status_if_current p order.id (OrderStatus.pending ∷ []) OrderStatus.cancelled
    pure (r, record no_emits { payment_failed = true; order_cancelled = count == 1 })
  settle_order r PaymentStatus.awaiting_verification order = pure (r, no_emits)
  settle_order r PaymentStatus.pending order =
      throw (bad_request "Unsupported payment status transition")

  -- What follows `updateStatusIfCurrent`.
  abbrev settle_updated : Payment → PaymentStatus → Order → ℕ → Action Db (Payment × Emits)
  settle_updated r desired order count = do
    throw_if (not (count == 1)) (conflict "Payment status was updated concurrently")
    updated ← (do or_throw (← gets (find_by_id p r.id)) (not_found "Payment not found"))
    settle_order updated desired order

  abbrev finalize_payment_status : Payment → PaymentStatus → Order → Action Db (Payment × Emits)
  finalize_payment_status r desired order =
      if same_payment_status r.status desired then pure (r, no_emits) else do
        throw_if (not (any (same_payment_status r.status) (allowed_current desired))) (
            conflict (
              template "Payment cannot transition from " (payment_status_text r.status) " to "
                (payment_status_text desired)))
        count ← update_status_if_current p r.id r.status desired
        settle_updated r desired order count

-- The flags that an existing payment sets.
abbrev replay_emits : Option Payment → Emits
replay_emits none = no_emits
replay_emits (some r) =
    let won = same_payment_status r.status PaymentStatus.success in
    let lost = same_payment_status r.status PaymentStatus.failed in
    record {
      payment_recorded = true;
      payment_succeeded = won;
      payment_failed = lost;
      order_paid = won;
      order_cancelled = lost;
    }

abbrev has_succeeded : Option Payment → Bool
has_succeeded none = false
has_succeeded (some r) = same_payment_status r.status PaymentStatus.success

abbrev pub desired_status : RecordPaymentDto → PaymentStatus
desired_status dto = elim dto.status [ none ↦ PaymentStatus.success | some s ↦ s ]

-- The row that a first request creates.
abbrev pub new_payment : Env → Db → RecordPaymentDto → Payment
new_payment env d dto = record {
  id = env.uuid d.drawn;
  order_id = dto.order_id;
  method = dto.method;
  amount = dto.amount;
  status = PaymentStatus.pending;
  reference = dto.reference;
  idempotency_key = dto.idempotency_key;
  refund_of_payment_id = none;
}

module _ (p : Prisma) (env : Env) where
  -- `if (!paymentRecord) ... create`
  abbrev create_unless : Option Payment → RecordPaymentDto → Action Db Payment
  create_unless (some r) dto d = (ok r, d)
  create_unless none dto d = create p (new_payment env d dto) d

  abbrev finalize_unless_pending :
      Payment → PaymentStatus → Order → Emits → Action Db (Payment × Emits)
  finalize_unless_pending r desired order emits =
      if same_payment_status desired PaymentStatus.pending then pure (r, emits) else do
        (r', e) ← finalize_payment_status p env r desired order
        pure (r', record e { payment_recorded = true })

  -- The audit line of a new payment, and the events that the flags ask for, in their order.
  abbrev announce : Bool → Emits → PaymentRecordedPayload → Action Db (Unit {0})
  announce fresh emits payload = do
    (if fresh then log (AuditEntry.payment_created payload.payment) else pure tt)
    publish_if p env emits.payment_recorded (Event.payment_recorded payload)
    publish_if p env emits.payment_succeeded (Event.payment_succeeded payload)
    publish_if p env emits.payment_failed (Event.payment_failed payload)
    publish_if p env emits.order_paid (Event.order_paid payload.order)
    publish_if p env emits.order_cancelled (Event.order_cancelled payload.order)

  -- The payload with the order read again, and all that is published.
  abbrev conclude : Option Payment → RecordPaymentDto → Payment → Emits → Action Db Payment
  conclude existing dto r emits = do
    refreshed ← (do
      or_throw (← gets (find_order_summary p dto.order_id)) (not_found "Order not found"))
    paid ← gets (sum_successful_payments p dto.order_id)
    announce (elim existing [ none ↦ true | some _ ↦ false ]) emits
        (record {
          payment = r;
          order = refreshed;
          order_fully_paid =
              same_payment_status r.status PaymentStatus.success
              && leb_ℤ (pos refreshed.total) paid;
        })
    pure r

  -- The rest of `persist`, when the order is open to payments.
  pub settle : Option Payment → RecordPaymentDto → Order → Action Db Payment
  settle existing dto order = do
    r ← create_unless existing dto
    settled ←
        finalize_unless_pending r (desired_status dto) order
          (record (replay_emits existing) { payment_recorded = true })
    conclude existing dto settled.0 settled.1

  pub persist : RecordPaymentDto → Action Db Payment
  persist dto = do
    existing ← gets (find_existing_payment_for_replay p dto)
    ensure_replay_compatibility existing dto
    order ← (do or_throw (← gets (find_order_summary p dto.order_id)) (not_found "Order not found"))
    throw_if
        (same_order_status order.status OrderStatus.cancelled
          || same_order_status order.status OrderStatus.refunded)
        (bad_request "Payments are not allowed for this order")
    throw_if
        (same_payment_status (desired_status dto) PaymentStatus.success
          && (same_order_status order.status OrderStatus.paid
              || same_order_status order.status OrderStatus.completed)
          && not (has_succeeded existing))
        (conflict "Order already has a successful payment")
    settle existing dto order

  -- The `catch`: a unique column that another request took first means a replay.
  abbrev or_replay : RecordPaymentDto → Result Payment × Db → Result Payment × Db
  or_replay dto (err unique_violation, d) = elim (find_existing_payment_for_replay p dto d) [
    | none ↦ (err unique_violation, d)
    | some r ↦ elim (find_order_summary p dto.order_id d) [
      | none ↦ (err (not_found "Order not found"), d)
      | some _ ↦ (ok r, d)
    ]
  ]
  or_replay dto r = r

  pub record_payment : RecordPaymentDto → Action Db Payment
  unfolding persist
  record_payment dto d = or_replay dto (p.transaction Db Payment (persist dto) d)
