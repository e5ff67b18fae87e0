-- ===== src/Inventory/Reserve/Again.antt =====
-- `reserveStock`, asked for again under the same key.
use central_backend_e_commer.Prelude.{
  ℕ, ◌≡◌, ◌⊎◌, ap, inl, inr, Option, none, some, List, [], ◌∷◌, arith, Option-cases, Bool-cases,
  leb, ◌==◌,
}
use central_backend_e_commer.Action.{Action, Result, ok, err, Result-cases, ◌>>=◌}
use central_backend_e_commer.Action.Keeps.{Keeps}
use central_backend_e_commer.Prisma.{Prisma, Laws, list_client, client-eq}
use central_backend_e_commer.Prisma.Keys.{first-append}
use central_backend_e_commer.Schema.{Db, Env, InventoryReservation}
use central_backend_e_commer.Inventory.Identity.{ResolvedIdentity, resolve_for_write}
use central_backend_e_commer.Inventory.Identity.Reads.{resolve-same}
use central_backend_e_commer.Inventory.Queries.{upsert_item, find_reservation_by_key}
use central_backend_e_commer.Inventory.Reserve.{
  StockReservationInput, StockServices, ReservationResult, identity_lookup, write_input,
  reservation_of, check_tracked, resolve_outbound_asset_ids, reserve_resolved, reserve_anew,
  reserve_in_transaction, reserve_stock,
}

-- A reservation has the key.
abbrev IsHeld : Env → ℕ → Db → Type 0
IsHeld env k d = (r : InventoryReservation) × (find_reservation_by_key list_client env k d ≡ some r)

resolved-IsHeld :
    (s : StockServices) (env : Env) (input : StockReservationInput) (n : ℕ) (r : ResolvedIdentity)
    (assets : List ℕ) (d : Db) (res : ReservationResult)
    → find_reservation_by_key list_client env input.reservation_key d ≡ none
    → (reserve_resolved list_client s env input n r assets d).0 ≡ ok res
    → IsHeld env input.reservation_key (reserve_resolved list_client s env input n r assets d).1
unfolding reserve_resolved
resolved-IsHeld s env input n r assets d res new h =
    let drawn = (upsert_item list_client env (identity_lookup r) d).1.drawn in
    let row = reservation_of env drawn input n r assets in
    let law =
      first-append (λ (x : InventoryReservation). x.reservation_key == input.reservation_key)
        d.reservations (row ∷ []) in
    (row, ground (arith, law))

abbrev Same : Db → Db → Type 0
Same d d' = d' ≡ d

-- If no reservation has the key and the action does not throw, one has it after.
record Reserving {A : Type 0} (env : Env) (k : ℕ) (m : Action Db A) : Type 0 where
  reserves :
      (d : Db) (a : A)
      → find_reservation_by_key list_client env k d ≡ none
      → (m d).0 ≡ ok a
      → IsHeld env k (m d).1

bind-Reserving :
    {A B : Type 0} (env : Env) (k : ℕ) (m : Action Db A) (f : A → Action Db B)
    → Keeps Same m
    → ((a : A) → Reserving env k (f a))
    → Reserving env k (m >>= f)
bind-Reserving {A} {B} env k m f hm hf = record {
  reserves = λ d b new h. go d b new (m d).0 (m d).1 (hm.holds d) h;
}
  where
    go :
        (d : Db) (b : B)
        → find_reservation_by_key list_client env k d ≡ none
        → (r : Result A) (d1 : Db) → d1 ≡ d
        → (elim r as (λ _. Result B × Db) [ ok a ↦ f a d1 | err e ↦ (err e, d1) ]).0 ≡ ok b
        → IsHeld env k (elim r as (λ _. Result B × Db) [ ok a ↦ f a d1 | err e ↦ (err e, d1) ]).1
    go d b new (ok a) d1 e h = (hf a).reserves d1 b (rw e new) h
    go d b new (err x) d1 e h = absurd (ground arith)

resolve-Same :
    (s : StockServices) (input : StockReservationInput)
    → Keeps Same (resolve_for_write list_client (write_input input))
resolve-Same s input = record { holds = λ d. resolve-same (write_input input) d }

tracked-Same :
    (s : StockServices) (env : Env) (k : Option ℕ) → Keeps Same (check_tracked list_client s env k)
tracked-Same s env k = record { holds = λ d. ground arith }

assets-Same :
    (s : StockServices) (env : Env) (r : ResolvedIdentity) (q : ℕ) (a b : List ℕ)
    → Keeps Same (resolve_outbound_asset_ids list_client s env r q a b)
assets-Same s env r q a b = record { holds = λ d. ground arith }

resolved-Reserving :
    (s : StockServices) (env : Env) (input : StockReservationInput) (n : ℕ) (r : ResolvedIdentity)
    (assets : List ℕ)
    → Reserving env input.reservation_key (reserve_resolved list_client s env input n r assets)
resolved-Reserving s env input n r assets = record {
  reserves = λ d a new h. resolved-IsHeld s env input n r assets d a new h;
}

anew-Reserving :
    (s : StockServices) (env : Env) (input : StockReservationInput) (n : ℕ)
    → Reserving env input.reservation_key (reserve_anew list_client s env input n)
unfolding reserve_anew
anew-Reserving s env input n =
    bind-Reserving env input.reservation_key _ _ (resolve-Same s input) λ r.
      bind-Reserving env input.reservation_key _ _ (tracked-Same s env r.stock_item_id) λ u.
        bind-Reserving env input.reservation_key _ _
          (assets-Same s env r input.quantity input.asset_ids input.serial_numbers)
          (resolved-Reserving s env input n r)

transaction-IsHeld :
    (s : StockServices) (env : Env) (input : StockReservationInput) (n : ℕ) (d : Db)
    (res : ReservationResult)
    → (reserve_in_transaction list_client s env input n d).0 ≡ ok res
    → IsHeld env input.reservation_key (reserve_in_transaction list_client s env input n d).1
transaction-IsHeld s env input n d res h =
    elim (Option-cases (find_reservation_by_key list_client env input.reservation_key d)) [
      | inr (held, there) ↦ (held, ground arith)
      | inl new ↦
          let made : (reserve_anew list_client s env input n d).0 ≡ ok res = ground arith in
          let (held, there) = (anew-Reserving s env input n).reserves d res new made in
          (held, ground arith)
    ]

-- A request under a key that is held writes to the audit trail at most.
held_again :
    (s : StockServices) (env : Env) (input : StockReservationInput) (d : Db)
    → IsHeld env input.reservation_key d
    → let d' = (reserve_stock list_client s env input d).1 in
      (d'.items ≡ d.items) × (d'.reservations ≡ d.reservations) × (d'.outbox ≡ d.outbox)
unfolding reserve_stock
held_again s env input d (held, there) = ground arith

-- A request that passes the first checks holds its key after, or leaves the database as it was.
reserve_or_stay :
    (s : StockServices) (env : Env) (input : StockReservationInput) (d : Db)
    → IsHeld env input.reservation_key (reserve_stock list_client s env input d).1
      ⊎ ((reserve_stock list_client s env input d).1 ≡ d)
unfolding reserve_stock
reserve_or_stay s env input d = elim (Option-cases input.reference_id) [
  | inl missing ↦ inr (ground arith)
  | inr (n, given) ↦ elim (Bool-cases (leb input.quantity 0)) [
    | inl nothing ↦ inr (ground arith)
    | inr some_q ↦ elim (Result-cases (reserve_in_transaction list_client s env input n d).0) [
      | inl (res, done) ↦
          let (held, there) = transaction-IsHeld s env input n d res done in
          inl (held, ground arith)
      | inr (x, failed) ↦ inr (ground arith)
    ]
  ]
]

again_list :
    (s : StockServices) (env : Env) (input : StockReservationInput) (d : Db)
    → let d1 = (reserve_stock list_client s env input d).1 in
      let d2 = (reserve_stock list_client s env input d1).1 in
      (d2.items ≡ d1.items) × (d2.reservations ≡ d1.reservations) × (d2.outbox ≡ d1.outbox)
again_list s env input d =
    let d1 = (reserve_stock list_client s env input d).1 in
    elim (reserve_or_stay s env input d) [
      | inl held ↦ held_again s env input d1 held
      | inr stay ↦
          let twice : (reserve_stock list_client s env input d1).1 ≡ d1 =
            ap (λ x. (reserve_stock list_client s env input x).1) stay in
          (ap (λ x. x.items) twice, ap (λ x. x.reservations) twice, ap (λ x. x.outbox) twice)
    ]

-- A request to reserve stock that is made again, whether the first succeeded or failed, changes no
-- item, makes no reservation and publishes nothing.
pub reserve_again :
    {p : Prisma}
    → Laws p
    → (s : StockServices) (env : Env) (input : StockReservationInput) (d : Db)
    → let d1 = (reserve_stock p s env input d).1 in
      let d2 = (reserve_stock p s env input d1).1 in
      (d2.items ≡ d1.items) × (d2.reservations ≡ d1.reservations) × (d2.outbox ≡ d1.outbox)
reserve_again laws s env input d = rw (client-eq laws) (again_list s env input d)
