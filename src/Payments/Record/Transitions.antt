-- ===== src/Payments/Record/Transitions.antt =====
-- The statuses that a payment can pass through, and the writes to `payments` seen as such passages.
use central_backend_e_commer.Prelude.{
  ℕ, ◌≡◌, refl, Bool, true, some, List, [], ◌∷◌, arith, sym, ◌==◌, inl, inr, Bool-cases, ◌&&◌,
}
use mathlib.Core.Path.{subst}
use central_backend_e_commer.Action.Keeps.{Keeps, IsPreorder}
use central_backend_e_commer.Prisma.{list_client, first}
use central_backend_e_commer.Prisma.Keys.{first-update, first-append}
use central_backend_e_commer.Schema.{Db, Payment, PaymentStatus, same_payment_status}
use central_backend_e_commer.Payments.Queries.{create, update_status_if_current}

pub data PaymentTransition : PaymentStatus → PaymentStatus → Type 0 where
  submits : PaymentTransition PaymentStatus.pending PaymentStatus.awaiting_verification
  succeeds : PaymentTransition PaymentStatus.pending PaymentStatus.success
  fails : PaymentTransition PaymentStatus.pending PaymentStatus.failed
  verifies : PaymentTransition PaymentStatus.awaiting_verification PaymentStatus.success
  rejects : PaymentTransition PaymentStatus.awaiting_verification PaymentStatus.failed

pub data PaymentReaches (s : PaymentStatus) : PaymentStatus → Type 0 where
  here : PaymentReaches s s
  next : {t u : PaymentStatus} → PaymentReaches s t → PaymentTransition t u → PaymentReaches s u

PaymentReaches-trans :
    {s t u : PaymentStatus} → PaymentReaches s t → PaymentReaches t u → PaymentReaches s u
PaymentReaches-trans r here = r
PaymentReaches-trans r (next q step) = next (PaymentReaches-trans r q) step

-- The payment is still there, with all but its status, and its status went along transitions.
abbrev pub Kept : (id : ℕ) → Payment → List Payment → Type 0
Kept id r t =
    (r' : Payment) × (first (λ x. x.id == id) t ≡ some r')
    × PaymentReaches r.status r'.status
    × (r' ≡ record r { status = r'.status })

abbrev pub PaymentsKept : Db → Db → Type 0
PaymentsKept d d' =
    (id : ℕ) (r : Payment) → first (λ x. x.id == id) d.payments ≡ some r → Kept id r d'.payments

kept_chain : (s t u : Db) → PaymentsKept s t → PaymentsKept t u → PaymentsKept s u
kept_chain s t u h k id r e =
    let (r1, e1, p1, q1) = h id r e in
    let (r2, e2, p2, q2) = k id r1 e1 in
    (r2, e2, PaymentReaches-trans p1 p2, ground (arith, q1, q2))

pub PaymentsKept-IsPreorder : IsPreorder PaymentsKept
PaymentsKept-IsPreorder = record { stays = λ s id r e. (r, e, here, refl); chains = kept_chain }

-- What leaves the payments alone.
pub same_payments : (d d' : Db) → d'.payments ≡ d.payments → PaymentsKept d d'
same_payments d d' same id r e = (r, ground arith, here, refl)

pub create-Kept : (r : Payment) → Keeps PaymentsKept (create list_client r)
create-Kept r = record {
  holds = λ d id x e. (
    x,
    ground (arith, first-append (λ (y : Payment). y.id == id) d.payments (r ∷ [])),
    here,
    refl,
  );
}

same_status-eq : (a b : PaymentStatus) → same_payment_status a b ≡ true → a ≡ b
same_status-eq a b h = ground arith

abbrev pub current : ℕ → PaymentStatus → Payment → Bool
current k from r = r.id == k && same_payment_status r.status from

update_status-Kept' :
    (k : ℕ) (from to : PaymentStatus) (d : Db) (id : ℕ) (x : Payment)
    → PaymentTransition from to
    → first (λ y. y.id == id) d.payments ≡ some x
    → Kept id x (update_status_if_current list_client k from to d).1.payments
update_status-Kept' k from to d id x step e =
    let set = λ (r : Payment). record r { status = to } in
    let law = first-update (λ (y : Payment). y.id) (current k from) set (λ y. refl) id d.payments in
    elim (Bool-cases (current k from x)) [
      | inl hit ↦
          let from_eq = same_status-eq x.status from (ground arith) in
          (set x, ground (arith, law), next here (rw from_eq step), refl)
      | inr miss ↦ (x, ground (arith, law), here, refl)
    ]

pub update_status-Kept :
    (k : ℕ) (from to : PaymentStatus)
    → PaymentTransition from to
    → Keeps PaymentsKept (update_status_if_current list_client k from to)
update_status-Kept k from to step = record {
  holds = λ d id x e. update_status-Kept' k from to d id x step e;
}

-- A payment that succeeded or failed is final.
abbrev pub IsSettled : PaymentStatus → Type 0
IsSettled PaymentStatus.success = Unit
IsSettled PaymentStatus.failed = Unit
IsSettled _ = ⊥

no_exit : {s t : PaymentStatus} → PaymentTransition s t → IsSettled s → ⊥
no_exit submits f = f
no_exit succeeds f = f
no_exit fails f = f
no_exit verifies f = f
no_exit rejects f = f

pub settled_stays : {s t : PaymentStatus} → PaymentReaches s t → IsSettled s → t ≡ s
settled_stays here f = refl
settled_stays (next r step) f = absurd (no_exit step (subst IsSettled (sym (settled_stays r f)) f))
