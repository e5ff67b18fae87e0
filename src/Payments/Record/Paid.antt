-- ===== src/Payments/Record/Paid.antt =====
-- The step of an order to paid in `recordPayment`, and the payments that it rests on.
use central_backend_e_commer.Prelude.{
  ℕ, ◌≢◌, ◌≡◌, refl, sym, true, ◌⊎◌, inl, inr, Option, none, some, List, [], ◌∷◌, arith, ◌&&◌, ◌==◌,
  any, Bool-cases,
}
use central_backend_e_commer.Prelude.Int.{pos, leb_ℤ}
use central_backend_e_commer.Action.{Result, ok, err}
use central_backend_e_commer.Prisma.{Prisma, Laws, list_client, client-eq, commit, first}
use central_backend_e_commer.Prisma.Keys.{first-update, first_has_key}
use central_backend_e_commer.Schema.{Db, Env, Order, OrderStatus, same_order_status, Payment}
use central_backend_e_commer.Payments.Queries.{find_order_summary, sum_successful_payments}
use central_backend_e_commer.Payments.Record.{
  RecordPaymentDto, find_existing_payment_for_replay, persist, settle, record_payment,
}
use central_backend_e_commer.Payments.Record.Guards.{
  passes, persist-passes, persist_stops, persist_missing,
}
use central_backend_e_commer.Payments.Record.Moves.{or_replay-same}
use central_backend_e_commer.Payments.Record.Orders.{Covered, set_pending, settle-Covered}

-- The order under `id`, that was not paid and is, is covered by its successful payments.
abbrev PaidBy : ℕ → Order → Order → Db → Db → Type 0
PaidBy id o o' d d' =
    find_order_summary list_client id d' ≡ some o'
    → o'.status ≡ OrderStatus.paid
    → leb_ℤ (pos o'.total) (sum_successful_payments list_client id d') ≡ true

-- The read of an order after the pending one under another identifier was set.
read_set :
    (id k : ℕ) (s : OrderStatus) (o o' : Order) (t : List Order)
    → first (λ x. x.id == id) t ≡ some o
    → first (λ x. x.id == id) (set_pending k s t) ≡ some o'
    → (o' ≡ o) ⊎ ((id ≡ k) × (o' ≡ record o { status = s }))
read_set id k s o o' t e e' =
    let law =
      first-update (λ (x : Order). x.id)
        (λ x. x.id == k && any (same_order_status x.status) (OrderStatus.pending ∷ []))
        (λ x. record x { status = s }) (λ x. refl) id t in
    let own = first_has_key (λ (x : Order). x.id) id t o e in ground (arith, law, own)

stays_PaidBy :
    (id : ℕ) (o o' : Order) (d : Db)
    → find_order_summary list_client id d ≡ some o
    → o.status ≢ OrderStatus.paid
    → PaidBy id o o' d d
stays_PaidBy id o o' d e n e' paid = absurd (n (ground arith))

Covered-PaidBy :
    (id : ℕ) (o o' x : Order) (d d' : Db) (k : ℕ)
    → find_order_summary list_client k d ≡ some x
    → find_order_summary list_client id d ≡ some o
    → o.status ≢ OrderStatus.paid
    → Covered x d d'
    → PaidBy id o o' d d'
Covered-PaidBy id o o' x d d' k ex e n (inl same) e' paid =
    let before : find_order_summary list_client id d ≡ some o' = rw (sym same) e' in
    absurd (n (ground arith))
Covered-PaidBy id o o' x d d' k ex e n (inr (inl (c, new))) e' paid =
    let own = first_has_key (λ (y : Order). y.id) k d.orders x ex in
    elim (read_set id x.id OrderStatus.paid o o' d.orders e (rw (new) at e')) [
      | inl still ↦ absurd (n (ground arith))
      | inr (at, set) ↦ let one : x ≡ o = ground arith in ground arith
    ]
Covered-PaidBy id o o' x d d' k ex e n (inr (inr new)) e' paid =
    elim (read_set id x.id OrderStatus.cancelled o o' d.orders e (rw (new) at e')) [
      | inl still ↦ absurd (n (ground arith))
      | inr (at, set) ↦ absurd (ground arith)
    ]

persist-paid :
    (env : Env) (dto : RecordPaymentDto) (d : Db) (id : ℕ) (o o' : Order)
    (existing : Option Payment) (found : Option Order)
    → find_existing_payment_for_replay list_client dto d ≡ existing
    → find_order_summary list_client dto.order_id d ≡ found
    → find_order_summary list_client id d ≡ some o
    → o.status ≢ OrderStatus.paid
    → PaidBy id o o' d (persist list_client env dto d).1
persist-paid env dto d id o o' existing none ex eo e n =
    rw ((persist_missing env dto d existing ex eo).0) (stays_PaidBy id o o' d e n)
persist-paid env dto d id o o' existing (some x) ex eo e n =
    elim (Bool-cases (passes existing dto x)) [
      | inl go ↦ rw (persist-passes env dto d x existing ex eo go) (
          Covered-PaidBy id o o' x d (settle list_client env existing dto x d).1 dto.order_id eo e n
            ((settle-Covered env existing dto x).holds d))
      | inr stop ↦
          rw ((persist_stops env dto d x existing ex eo stop).0) (stays_PaidBy id o o' d e n)
    ]

committed :
    (id : ℕ) (o o' : Order) (d : Db)
    → find_order_summary list_client id d ≡ some o
    → o.status ≢ OrderStatus.paid
    → (r : Result Payment) (d' : Db) → PaidBy id o o' d d'
    → PaidBy id o o' d (commit d (r, d')).1
committed id o o' d e n (ok r) d' h = h
committed id o o' d e n (err x) d' h = stays_PaidBy id o o' d e n

record_paid :
    (env : Env) (dto : RecordPaymentDto) (d : Db) (id : ℕ) (o o' : Order)
    → find_order_summary list_client id d ≡ some o
    → o.status ≢ OrderStatus.paid
    → PaidBy id o o' d (record_payment list_client env dto d).1
unfolding record_payment
record_paid env dto d id o o' e n =
    rw (or_replay-same env dto (commit d (persist list_client env dto d))) (
      committed id o o' d e n (persist list_client env dto d).0 (persist list_client env dto d).1
        (persist-paid env dto d id o o' _ _ refl refl e n))

-- If an order that was not paid is paid after a request to record a payment, whatever the request
-- and whether it succeeded, then the successful payments of the order, with the one that was
-- recorded, are at least its total.
pub record_payment_covers :
    {p : Prisma}
    → Laws p
    → (env : Env) (dto : RecordPaymentDto) (d : Db) (id : ℕ) (o o' : Order)
    → find_order_summary p id d ≡ some o
    → o.status ≢ OrderStatus.paid
    → let d' = (record_payment p env dto d).1 in
      find_order_summary p id d' ≡ some o'
      → o'.status ≡ OrderStatus.paid
      → leb_ℤ (pos o'.total) (sum_successful_payments p id d') ≡ true
record_payment_covers laws env dto d id o o' e n e' paid =
    let same = client-eq laws in
    rw same (record_paid env dto d id o o' (rw same at e) n (rw same at e') paid)
