-- ===== src/Orders/Reach.antt =====
-- Histories of the four status calls, and the statuses that an order passes through in them.
use central_backend_e_commer.Prelude.{
  ℕ, ◌≡◌, refl, ◌⊎◌, inl, inr, Option, none, some, List, [], ◌∷◌, arith, ◌==◌, Bool-cases, sym, ap,
  ◌∙◌,
}
use mathlib.Core.Path.{subst}
use central_backend_e_commer.Prisma.{Prisma, Laws, list_client, client-eq, first, update_where}
use central_backend_e_commer.Prisma.Keys.{first-update_where}
use central_backend_e_commer.Schema.{Db, Env, Order, OrderStatus}
use central_backend_e_commer.Orders.{find_by_id}
use central_backend_e_commer.Orders.Lifecycle.{
  Call, run_call, run_call_list, Verdict, verdict, target, moved, outcome, by_verdict,
}

-- The transitions that the shop means to allow.
pub data Transition : OrderStatus → OrderStatus → Type 0 where
  pays : Transition OrderStatus.pending OrderStatus.paid
  cancels : Transition OrderStatus.pending OrderStatus.cancelled
  completes : Transition OrderStatus.paid OrderStatus.completed
  refunds_paid : Transition OrderStatus.paid OrderStatus.refunded
  refunds_completed : Transition OrderStatus.completed OrderStatus.refunded

pub data Reaches (s : OrderStatus) : OrderStatus → Type 0 where
  here : Reaches s s
  next : {t u : OrderStatus} → Reaches s t → Transition t u → Reaches s u

verdict_sound :
    (c : Call) (s : OrderStatus) → verdict c s ≡ Verdict.advance → Transition s (target c)
verdict_sound Call.pay OrderStatus.pending h = pays
verdict_sound Call.finish OrderStatus.paid h = completes
verdict_sound Call.refund OrderStatus.paid h = refunds_paid
verdict_sound Call.refund OrderStatus.completed h = refunds_completed
verdict_sound Call.drop OrderStatus.pending h = cancels
verdict_sound _ _ h = cc

-- An order is as it was, or made one transition and kept all else.
abbrev Moves : Order → Order → Type 0
Moves o o' = (o' ≡ o) ⊎ (Transition o.status o'.status × (o' ≡ record o { status = o'.status }))

-- The order that is read under `id` after the orders became `t`.
abbrev Read : ℕ → Order → List Order → Type 0
Read id o t = (o' : Order) × (first (λ x. x.id == id) t ≡ some o') × Moves o o'

advance_Read :
    (c : Call) (k id : ℕ) (t : List Order) (x o : Order)
    → Transition x.status (target c)
    → first (λ y. y.id == k) t ≡ some x
    → first (λ y. y.id == id) t ≡ some o
    → Read id o (update_where (λ y. y.id == k) (moved c) t)
advance_Read c k id t x o step ek e =
    let law = first-update_where (λ (y : Order). y.id) id k (moved c) (λ y. refl) t in
    elim (Bool-cases (id == k)) [
      | inl m ↦
          let same : id ≡ k = ground arith in
          let one : x ≡ o = ground arith in
          (moved c o, ground (arith, law), inr (rw one at step, refl))
      | inr m ↦ (o, ground (arith, law), inl refl)
    ]

by_verdict-Read :
    (env : Env) (c : Call) (k id : ℕ) (d : Db) (x o : Order) (v : Verdict)
    → verdict c x.status ≡ v
    → first (λ y. y.id == k) d.orders ≡ some x
    → first (λ y. y.id == id) d.orders ≡ some o
    → Read id o (by_verdict env c k x d v).1.orders
by_verdict-Read env c k id d x o Verdict.advance h ek e =
    advance_Read c k id d.orders x o (verdict_sound c x.status h) ek e
by_verdict-Read env c k id d x o _ h ek e = (o, e, inl refl)

outcome-Read :
    (env : Env) (c : Call) (k id : ℕ) (d : Db) (o : Order) (found : Option Order)
    → first (λ y. y.id == k) d.orders ≡ found
    → first (λ y. y.id == id) d.orders ≡ some o
    → Read id o (outcome env c k d found).1.orders
outcome-Read env c k id d o none ek e = (o, e, inl refl)
outcome-Read env c k id d o (some x) ek e =
    by_verdict-Read env c k id d x o (verdict c x.status) refl ek e

Moves-Reaches :
    (s : OrderStatus) (o o' : Order) → Reaches s o.status → Moves o o' → Reaches s o'.status
Moves-Reaches s o o' r (inl e) = rw e r
Moves-Reaches s o o' r (inr (step, _)) = next r step

Moves-same : (o o' : Order) → Moves o o' → o' ≡ record o { status = o'.status }
Moves-same o o' (inl e) = ground arith
Moves-same o o' (inr (_, e)) = e

-- A history of calls, of which any may fail: a failed call is answered with its exception.
abbrev pub run_history : Prisma → Env → List (Call × ℕ) → Db → Db
run_history p env [] d = d
run_history p env ((c, k) ∷ h) d = run_history p env h (run_call p env c k d).1

history_list :
    (env : Env) (h : List (Call × ℕ)) (d : Db) (id : ℕ) (o : Order) (s : OrderStatus)
    → Reaches s o.status
    → find_by_id list_client id d ≡ some o
    → (o' : Order) × (find_by_id list_client id (run_history list_client env h d) ≡ some o')
      × Reaches s o'.status
      × (o' ≡ record o { status = o'.status })
history_list env [] d id o s r e = (o, e, r, refl)
history_list env ((c, k) ∷ h) d id o s r e =
    let d1 = (run_call list_client env c k d).1 in
    let step : Read id o d1.orders =
      rw (run_call_list env c k d)
        (outcome-Read env c k id d o (find_by_id list_client k d) refl e) in
    let (o1, e1, m) = step in
    let (o2, e2, r2, same) = history_list env h d1 id o1 s (Moves-Reaches s o o1 r m) e1 in
    (o2, e2, r2, ground (arith, Moves-same o o1 m, same))

-- Whatever is called, in whatever order and however often, an order stays in the table, its status
-- goes along allowed transitions only, and nothing but the status changes.
pub history_Reaches :
    {p : Prisma}
    → Laws p
    → (env : Env) (h : List (Call × ℕ)) (d : Db) (id : ℕ) (o : Order) → find_by_id p id d ≡ some o
    → (o' : Order) × (find_by_id p id (run_history p env h d) ≡ some o')
      × Reaches o.status o'.status
      × (o' ≡ record o { status = o'.status })
history_Reaches laws env h d id o e =
    rw (client-eq laws) (history_list env h d id o o.status here (rw (client-eq laws) at e))

-- A cancelled and a refunded order are final.
abbrev pub IsFinal : OrderStatus → Type 0
IsFinal OrderStatus.cancelled = Unit
IsFinal OrderStatus.refunded = Unit
IsFinal _ = ⊥

no_exit : {s t : OrderStatus} → Transition s t → IsFinal s → ⊥
no_exit pays f = f
no_exit cancels f = f
no_exit completes f = f
no_exit refunds_paid f = f
no_exit refunds_completed f = f

Reaches-final : {s t : OrderStatus} → Reaches s t → IsFinal s → t ≡ s
Reaches-final here f = refl
Reaches-final (next r step) f = absurd (no_exit step (subst IsFinal (sym (Reaches-final r f)) f))

-- No history of calls changes a cancelled or a refunded order.
pub final_stays :
    {p : Prisma}
    → Laws p
    → (env : Env) (h : List (Call × ℕ)) (d : Db) (id : ℕ) (o : Order) → find_by_id p id d ≡ some o
    → IsFinal o.status
    → find_by_id p id (run_history p env h d) ≡ some o
final_stays laws env h d id o e f =
    let (o', e', r, same) = history_Reaches laws env h d id o e in
    let still = Reaches-final r f in e' ∙ ap some (ground (arith, same, still))

twice_found :
    (env : Env) (c : Call) (k : ℕ) (d : Db) (x : Order) (v : Verdict)
    → verdict c x.status ≡ v
    → first (λ y. y.id == k) d.orders ≡ some x
    → let d1 = (by_verdict env c k x d v).1 in
      (outcome env c k d1 (first (λ y. y.id == k) d1.orders)).1 ≡ d1
twice_found env Call.pay k d x Verdict.advance h e =
    ground
      (arith, first-update_where (λ (y : Order). y.id) k k (moved Call.pay) (λ y. refl) d.orders)
twice_found env c k d x Verdict.advance h e =
    ground (arith, first-update_where (λ (y : Order). y.id) k k (moved c) (λ y. refl) d.orders)
twice_found env c k d x _ h e = ground arith

twice_outcome :
    (env : Env) (c : Call) (k : ℕ) (d : Db) (found : Option Order)
    → first (λ y. y.id == k) d.orders ≡ found
    → let d1 = (outcome env c k d found).1 in
      (outcome env c k d1 (first (λ y. y.id == k) d1.orders)).1 ≡ d1
twice_outcome env c k d none e = rw e
twice_outcome env c k d (some x) e = twice_found env c k d x (verdict c x.status) refl e

-- A call that is delivered again, as a retried event handler delivers it, changes nothing more and
-- publishes nothing more.
pub run_call_twice :
    {p : Prisma}
    → Laws p
    → (env : Env) (c : Call) (k : ℕ) (d : Db)
    → (run_call p env c k (run_call p env c k d).1).1 ≡ (run_call p env c k d).1
run_call_twice laws env c k d =
    rw (client-eq laws, run_call_list env c k d, run_call_list env c k _)
      (twice_outcome env c k d (find_by_id list_client k d) refl)
