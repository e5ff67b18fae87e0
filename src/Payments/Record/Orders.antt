-- ===== src/Payments/Record/Orders.antt =====
-- What recording a payment does to the orders.
use central_backend_e_commer.Prelude.{
  ℕ, ◌≡◌, refl, true, ◌⊎◌, inl, inr, Option, List, [], ◌∷◌, arith, ◌&&◌, ◌==◌, any, Bool-cases,
}
use central_backend_e_commer.Prelude.Int.{pos, leb_ℤ}
use central_backend_e_commer.Action.{Action, Result, ok, err, pure, ◌>>=◌}
use central_backend_e_commer.Action.Keeps.{Keeps}
use central_backend_e_commer.Prisma.{list_client, update_where}
use central_backend_e_commer.Schema.{
  Db, Env, Order, OrderStatus, same_order_status, Payment, PaymentStatus, same_payment_status,
}
use central_backend_e_commer.Payments.Queries.{sum_successful_payments}
use central_backend_e_commer.Payments.Record.{
  RecordPaymentDto, Emits, settle_order, settle_updated, finalize_payment_status,
  finalize_unless_pending, settle, conclude, create_unless, desired_status,
}

abbrev pub set_pending : ℕ → OrderStatus → List Order → List Order
set_pending id next t =
    update_where (λ o. o.id == id && any (same_order_status o.status) (OrderStatus.pending ∷ []))
      (λ o. record o { status = next }) t

-- The orders stay, or the order's pending row is paid by payments that cover it, or it is cancelled.
abbrev pub Covered : Order → Db → Db → Type 0
Covered o d d' =
    (d'.orders ≡ d.orders)
    ⊎ ((leb_ℤ (pos o.total) (sum_successful_payments list_client o.id d') ≡ true)
        × (d'.orders ≡ set_pending o.id OrderStatus.paid d.orders))
    ⊎ (d'.orders ≡ set_pending o.id OrderStatus.cancelled d.orders)

settle_order-Covered :
    (env : Env) (r : Payment) (s : PaymentStatus) (o : Order) (d : Db)
    → Covered o d (settle_order list_client env r s o d).1
settle_order-Covered env r s o d = ground arith

same_before : (o : Order) (d d1 d' : Db) → d1.orders ≡ d.orders → Covered o d1 d' → Covered o d d'
same_before o d d1 d' e c = rw e at c

same_after :
    (o : Order) (d d1 d' : Db)
    → Covered o d d1
    → d'.orders ≡ d1.orders
    → d'.payments ≡ d1.payments
    → Covered o d d'
same_after o d d1 d' c e f = rw (e, f) c

abbrev SameOrders : Db → Db → Type 0
SameOrders d d' = d'.orders ≡ d.orders

abbrev SameBooks : Db → Db → Type 0
SameBooks d d' = (d'.orders ≡ d.orders) × (d'.payments ≡ d.payments)

-- An action that leaves the orders alone may come before what covers them, and one that leaves the
-- payments alone too may come after.
before-Covered :
    {A B : Type 0} (o : Order) (m : Action Db A) (f : A → Action Db B)
    → Keeps SameOrders m
    → ((a : A) → Keeps (Covered o) (f a))
    → Keeps (Covered o) (m >>= f)
before-Covered {A} {B} o m f hm hf = record { holds = λ d. go d (m d).0 (m d).1 (hm.holds d) }
  where
    go :
        (d : Db) (r : Result A) (d1 : Db)
        → d1.orders ≡ d.orders
        → Covered o d (elim r as (λ _. Result B × Db) [ ok a ↦ f a d1 | err e ↦ (err e, d1) ]).1
    go d (ok a) d1 e = same_before o d d1 (f a d1).1 e ((hf a).holds d1)
    go d (err x) d1 e = inl e

after-Covered :
    {A B : Type 0} (o : Order) (m : Action Db A) (f : A → Action Db B)
    → Keeps (Covered o) m
    → ((a : A) → Keeps SameBooks (f a))
    → Keeps (Covered o) (m >>= f)
after-Covered {A} {B} o m f hm hf = record { holds = λ d. go d (m d).0 (m d).1 (hm.holds d) }
  where
    go :
        (d : Db) (r : Result A) (d1 : Db)
        → Covered o d d1
        → Covered o d (elim r as (λ _. Result B × Db) [ ok a ↦ f a d1 | err e ↦ (err e, d1) ]).1
    go d (ok a) d1 c = let h = (hf a).holds d1 in same_after o d d1 (f a d1).1 c h.0 h.1
    go d (err x) d1 c = c

settle_updated-Covered :
    (env : Env) (r : Payment) (s : PaymentStatus) (o : Order) (count : ℕ)
    → Keeps (Covered o) (settle_updated list_client env r s o count)
settle_updated-Covered env r s o count = record { holds = λ d. ground arith }

finalize-Covered :
    (env : Env) (r : Payment) (s : PaymentStatus) (o : Order)
    → Keeps (Covered o) (finalize_payment_status list_client env r s o)
finalize-Covered env r s o = record { holds = λ d. ground arith }

create_unless-Same :
    (env : Env) (existing : Option Payment) (dto : RecordPaymentDto)
    → Keeps SameOrders (create_unless list_client env existing dto)
create_unless-Same env existing dto = record { holds = λ d. ground arith }

conclude-Same :
    (env : Env) (existing : Option Payment) (dto : RecordPaymentDto) (r : Payment) (e : Emits)
    → Keeps SameBooks (conclude list_client env existing dto r e)
conclude-Same env existing dto r e = record { holds = λ d. ground arith }

pure-Same : {A : Type 0} (a : A) → Keeps SameBooks (pure a)
pure-Same a = record { holds = λ d. (refl, refl) }

finalize_unless-Covered :
    (env : Env) (r : Payment) (s : PaymentStatus) (o : Order) (e : Emits)
    → Keeps (Covered o) (finalize_unless_pending list_client env r s o e)
finalize_unless-Covered env r s o e =
    elim (Bool-cases (same_payment_status s PaymentStatus.pending)) [
      | inl h ↦ rw (finalize_unless_pending, h) (record { holds = λ d. inl refl })
      | inr h ↦
          rw (finalize_unless_pending, h)
            (after-Covered o _ _ (finalize-Covered env r s o) (λ x. pure-Same _))
    ]

pub settle-Covered :
    (env : Env) (existing : Option Payment) (dto : RecordPaymentDto) (o : Order)
    → Keeps (Covered o) (settle list_client env existing dto o)
unfolding settle
settle-Covered env existing dto o = before-Covered o _ _ (create_unless-Same env existing dto) λ r.
    after-Covered o _ _ (finalize_unless-Covered env r (desired_status dto) o _)
      λ x. conclude-Same env existing dto x.0 x.1
