-- ===== src/Payments/Record/Moves.antt =====
-- What `recordPayment` does to the payments that are there.
use central_backend_e_commer.Prelude.{
  ℕ, ◌≡◌, refl, true, false, Option, none, some, arith, any, ap, inl, inr, Bool-cases,
}
use central_backend_e_commer.Action.{Result, ok, err, Error}
use central_backend_e_commer.Action.Keeps.{
  Keeps, Keeps-pure, Keeps-bind, Keeps-if, Keeps-guard, Keeps-commit,
}
use central_backend_e_commer.Prisma.{Prisma, Laws, commit, list_client, client-eq}
use central_backend_e_commer.Schema.{Db, Env, Order, Payment, PaymentStatus, same_payment_status}
use central_backend_e_commer.Payments.Record.{
  settle_order, settle_updated, finalize_payment_status, allowed_current, Emits, RecordPaymentDto,
  new_payment, create_unless, ensure_replay_compatibility, finalize_unless_pending, conclude,
  settle, find_existing_payment_for_replay, persist, record_payment, or_replay, desired_status,
}
use central_backend_e_commer.Payments.Queries.{find_by_id, find_order_summary}
use central_backend_e_commer.Payments.Record.Transitions.{
  PaymentReaches, PaymentTransition, submits, succeeds, fails, verifies, rejects, PaymentsKept,
  PaymentsKept-IsPreorder, same_payments, create-Kept, update_status-Kept,
}
use central_backend_e_commer.Payments.Record.Guards.{
  passes, persist-passes, persist_stops, persist_missing,
}

-- The guard of `finalizePaymentStatus` lets transitions through alone.
allowed_Transition :
    (from to : PaymentStatus)
    → same_payment_status from to ≡ false
    → any (same_payment_status from) (allowed_current to) ≡ true
    → PaymentTransition from to
allowed_Transition PaymentStatus.pending PaymentStatus.awaiting_verification h g = submits
allowed_Transition PaymentStatus.pending PaymentStatus.success h g = succeeds
allowed_Transition PaymentStatus.pending PaymentStatus.failed h g = fails
allowed_Transition PaymentStatus.awaiting_verification PaymentStatus.success h g = verifies
allowed_Transition PaymentStatus.awaiting_verification PaymentStatus.failed h g = rejects
allowed_Transition from to h g = absurd (ground arith)

settle_order-Kept :
    (env : Env) (r : Payment) (s : PaymentStatus) (o : Order)
    → Keeps PaymentsKept (settle_order list_client env r s o)
settle_order-Kept env r s o = record {
  holds = λ d. same_payments d (settle_order list_client env r s o d).1 (ground arith);
}

settle_updated-Kept :
    (env : Env) (r : Payment) (s : PaymentStatus) (o : Order) (count : ℕ)
    → Keeps PaymentsKept (settle_updated list_client env r s o count)
settle_updated-Kept env r s o count = record {
  holds = λ d. same_payments d (settle_updated list_client env r s o count d).1 (ground arith);
}

finalize-Kept :
    (env : Env) (r : Payment) (s : PaymentStatus) (o : Order)
    → Keeps PaymentsKept (finalize_payment_status list_client env r s o)
finalize-Kept env r s o =
    let pre = PaymentsKept-IsPreorder in
    Keeps-if PaymentsKept pre (same_payment_status r.status s) _ _
      (λ h. Keeps-pure PaymentsKept pre _)
      λ differs. Keeps-guard PaymentsKept pre _ _ _ λ allowed.
        Keeps-bind PaymentsKept pre _ _
          (update_status-Kept r.id r.status s (allowed_Transition r.status s differs allowed))
          (settle_updated-Kept env r s o)

create_unless-Kept :
    (env : Env) (existing : Option Payment) (dto : RecordPaymentDto)
    → Keeps PaymentsKept (create_unless list_client env existing dto)
create_unless-Kept env none dto = record {
  holds = λ d. (create-Kept (new_payment env d dto)).holds d;
}
create_unless-Kept env (some r) dto = record { holds = PaymentsKept-IsPreorder.stays }

compatible-Kept :
    (existing : Option Payment) (dto : RecordPaymentDto)
    → Keeps PaymentsKept (ensure_replay_compatibility existing dto)
compatible-Kept none dto = record { holds = PaymentsKept-IsPreorder.stays }
compatible-Kept (some r) dto = record { holds = PaymentsKept-IsPreorder.stays }

finalize_unless-Kept :
    (env : Env) (r : Payment) (s : PaymentStatus) (o : Order) (e : Emits)
    → Keeps PaymentsKept (finalize_unless_pending list_client env r s o e)
finalize_unless-Kept env r s o e =
    let pre = PaymentsKept-IsPreorder in
    Keeps-if PaymentsKept pre (same_payment_status s PaymentStatus.pending) _ _
      (λ h. Keeps-pure PaymentsKept pre _)
      λ h.
        Keeps-bind PaymentsKept pre _ _ (finalize-Kept env r s o) λ p. Keeps-pure PaymentsKept pre _

conclude-Kept :
    (env : Env) (existing : Option Payment) (dto : RecordPaymentDto) (r : Payment) (e : Emits)
    → Keeps PaymentsKept (conclude list_client env existing dto r e)
conclude-Kept env existing dto r e = record {
  holds = λ d. same_payments d (conclude list_client env existing dto r e d).1 (ground arith);
}

settle-Kept :
    (env : Env) (existing : Option Payment) (dto : RecordPaymentDto) (o : Order)
    → Keeps PaymentsKept (settle list_client env existing dto o)
unfolding settle
settle-Kept env existing dto o =
    let pre = PaymentsKept-IsPreorder in
    Keeps-bind PaymentsKept pre _ _ (create_unless-Kept env existing dto) λ r.
      Keeps-bind PaymentsKept pre _ _ (finalize_unless-Kept env r (desired_status dto) o _)
        λ p. conclude-Kept env existing dto p.0 p.1

persist_kept :
    (env : Env) (dto : RecordPaymentDto) (d : Db) (existing : Option Payment) (found : Option Order)
    → find_existing_payment_for_replay list_client dto d ≡ existing
    → find_order_summary list_client dto.order_id d ≡ found
    → PaymentsKept d (persist list_client env dto d).1
persist_kept env dto d existing none ex eo =
    same_payments d (persist list_client env dto d).1
      (ap (λ x. x.payments) (persist_missing env dto d existing ex eo).0)
persist_kept env dto d existing (some o) ex eo = elim (Bool-cases (passes existing dto o)) [
  | inl go ↦
      rw (persist-passes env dto d o existing ex eo go) ((settle-Kept env existing dto o).holds d)
  | inr stop ↦
      same_payments d (persist list_client env dto d).1
        (ap (λ x. x.payments) (persist_stops env dto d o existing ex eo stop).0)
]

persist-Kept :
    (env : Env) (dto : RecordPaymentDto) → Keeps PaymentsKept (persist list_client env dto)
persist-Kept env dto = record { holds = λ d. persist_kept env dto d _ _ refl refl }

-- The handler of an exception writes nothing.
pub or_replay-same :
    (env : Env) (dto : RecordPaymentDto) (r : Result Payment × Db)
    → (or_replay list_client env dto r).1 ≡ r.1
or_replay-same env dto (ok r, d) = refl
or_replay-same env dto (err (Error.bad_request m), d) = refl
or_replay-same env dto (err (Error.not_found m), d) = refl
or_replay-same env dto (err (Error.conflict m), d) = refl
or_replay-same env dto (err Error.unique_violation, d) = ground arith
or_replay-same env dto (err Error.record_not_found, d) = refl

record_kept :
    (env : Env) (dto : RecordPaymentDto) (d : Db)
    → PaymentsKept d (record_payment list_client env dto d).1
unfolding record_payment
record_kept env dto d = rw (or_replay-same env dto (commit d (persist list_client env dto d))) (
    Keeps-commit PaymentsKept PaymentsKept-IsPreorder (persist list_client env dto)
      (persist-Kept env dto) d)

-- No request to record a payment removes a payment or changes anything of one but its status, and
-- that only along the transitions: from pending or awaiting verification to success or failure, and
-- from pending to awaiting verification.
pub record_payment_keeps :
    {p : Prisma}
    → Laws p
    → (env : Env) (dto : RecordPaymentDto) (d : Db) (id : ℕ) (r : Payment)
    → find_by_id p id d ≡ some r
    → (r' : Payment) × (find_by_id p id (record_payment p env dto d).1 ≡ some r')
      × PaymentReaches r.status r'.status
      × (r' ≡ record r { status = r'.status })
record_payment_keeps laws env dto d id r e =
    rw (client-eq laws) (record_kept env dto d id r (rw (client-eq laws) at e))
