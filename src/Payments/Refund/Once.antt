-- ===== src/Payments/Refund/Once.antt =====
-- `refundPayment`, asked for again.
use central_backend_e_commer.Prelude.{
  ℕ, ◌≡◌, true, none, some, List, [], ◌∷◌, ◌++◌, arith, any, ◌==◌, inl, inr, Option-cases,
  Bool-cases, opt_eq,
}
use central_backend_e_commer.Action.{ok}
use central_backend_e_commer.Prisma.{Prisma, Laws, list_client, client-eq}
use central_backend_e_commer.Prisma.Keys.{first_has_key, first-append}
use central_backend_e_commer.Schema.{Db, Env, Order, Payment, PaymentStatus}
use central_backend_e_commer.Payments.Queries.{
  find_by_id, find_refund_for_payment, find_order_summary, conflicts,
}
use central_backend_e_commer.Payments.Refund.{refund_payment, refund_of}
use central_backend_e_commer.Payments.Refund.Books.{refund_list}

-- With a refund in the table the call gives it back and writes nothing.
existing_list :
    (env : Env) (id : ℕ) (d : Db) (r : Payment) (o : Order) (again : Payment)
    → find_by_id list_client id d ≡ some r
    → r.status ≡ PaymentStatus.success
    → find_order_summary list_client r.order_id d ≡ some o
    → find_refund_for_payment list_client id d ≡ some again
    → refund_payment list_client env id d ≡ (ok again, d)
unfolding refund_payment
existing_list env id d r o again er es eo en = ground arith

-- What a call that succeeded has met: the payment, its order, and a refund that was there or could be made.
data Met (env : Env) (id : ℕ) (d : Db) : Type 0 where
  met :
      (r : Payment) (o : Order)
      → find_by_id list_client id d ≡ some r
      → r.status ≡ PaymentStatus.success
      → find_order_summary list_client r.order_id d ≡ some o
      → Met env id d

success_Met :
    (env : Env) (id : ℕ) (d : Db) {refund : Payment}
    → (refund_payment list_client env id d).0 ≡ ok refund
    → Met env id d
unfolding refund_payment
success_Met env id d h = elim (Option-cases (find_by_id list_client id d)) [
  | inl missing ↦ ground arith
  | inr (r, er) ↦ elim (Option-cases (find_order_summary list_client r.order_id d)) [
    | inl missing ↦ ground arith
    | inr (o, eo) ↦ met r o er (ground arith) eo
  ]
]

blocked_list :
    (env : Env) (id : ℕ) (d : Db) (r : Payment) (o : Order) {refund : Payment}
    → find_by_id list_client id d ≡ some r
    → r.status ≡ PaymentStatus.success
    → find_order_summary list_client r.order_id d ≡ some o
    → find_refund_for_payment list_client id d ≡ none
    → any (conflicts (refund_of env d r)) d.payments ≡ true
    → (refund_payment list_client env id d).0 ≡ ok refund
    → ⊥
unfolding refund_payment
blocked_list env id d r o er es eo en ef h = ground arith

-- The refund that was made is found by the next call.
anew_again :
    (env : Env) (id : ℕ) (d d' : Db) (r : Payment) (o : Order)
    → find_by_id list_client id d ≡ some r
    → r.status ≡ PaymentStatus.success
    → find_refund_for_payment list_client id d ≡ none
    → d'.payments ≡ d.payments ++ (refund_of env d r ∷ [])
    → find_order_summary list_client r.order_id d' ≡ some o
    → refund_payment list_client env id d' ≡ (ok (refund_of env d r), d')
anew_again env id d d' r o er es en ep eo =
    let new : List Payment = refund_of env d r ∷ [] in
    let own = first_has_key (λ (x : Payment). x.id) id d.payments r er in
    existing_list env id d' r o (refund_of env d r)
      (ground (arith, first-append (λ (x : Payment). x.id == id) d.payments new)) es eo
      (ground (
        arith,
        own,
        first-append (λ (x : Payment). opt_eq x.refund_of_payment_id (some id)) d.payments new,
      ))

once_list :
    (env : Env) (id : ℕ) (d : Db) {refund : Payment}
    → (refund_payment list_client env id d).0 ≡ ok refund
    → Met env id d
    → let d' = (refund_payment list_client env id d).1 in
      refund_payment list_client env id d' ≡ (ok refund, d')
once_list env id d h (met r o er es eo) =
    elim (Option-cases (find_refund_for_payment list_client id d)) [
      | inr (again, en) ↦
          let same = existing_list env id d r o again er es eo en in ground (arith, same)
      | inl en ↦ elim (Bool-cases (any (conflicts (refund_of env d r)) d.payments)) [
        | inl blocked ↦ absurd (blocked_list env id d r o er es eo en blocked h)
        | inr free ↦
            let (a, b, c) = refund_list env id d r o er es eo en free in
            let next =
              anew_again env id d (refund_payment list_client env id d).1 r _ er es en b c in
            ground (arith, a, next)
      ]
    ]

-- A refund that succeeded is made once: to ask for it again gives the same refund back and changes
-- nothing, in the payments, in the orders or in the outbox.
pub refund_once :
    {p : Prisma}
    → Laws p
    → (env : Env) (id : ℕ) (d : Db) (refund : Payment) → (refund_payment p env id d).0 ≡ ok refund
    → let d' = (refund_payment p env id d).1 in refund_payment p env id d' ≡ (ok refund, d')
refund_once laws env id d refund h =
    let h' = rw (client-eq laws) at h in
    rw (client-eq laws) (once_list env id d h' (success_Met env id d h'))
