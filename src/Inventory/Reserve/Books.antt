-- ===== src/Inventory/Reserve/Books.antt =====
-- What the transactions of `reserveStock` and `releaseReservedStock` do to the balance of the books.
use central_backend_e_commer.Prelude.{ℕ, ◌≡◌, refl, if◌then◌else◌, Option, List, arith}
use central_backend_e_commer.Action.{Action, ok}
use central_backend_e_commer.Action.Leads.{Leads, Leads-bind, Leads-found, Leads-branch}
use central_backend_e_commer.Prisma.{list_client}
use central_backend_e_commer.Schema.{Db, Env, InventoryReservation}
use central_backend_e_commer.Inventory.Identity.{ResolvedIdentity}
use central_backend_e_commer.Inventory.Queries.{
  upsert_item, find_item_by_identity, find_reservation_by_key, is_active,
}
use central_backend_e_commer.Inventory.Reserve.{
  StockReservationInput, StockServices, write_input, check_tracked, reserve_resolved,
  release_resolved, released_from, released_quantity, identity_lookup, reserve_anew, release_held,
  reserve_in_transaction, release_in_transaction, asked, unchanged, ReservationResult,
}
use central_backend_e_commer.Inventory.Reserve.Within.{
  has_available, has_reserved, reserve_more, reserve_less, reserve_items, release_items,
}
use central_backend_e_commer.Inventory.Books.{Off, reserved_update-Off}
use central_backend_e_commer.Inventory.Books.Steps.{
  Aside, Aside-Off, resolve-Aside, assets-Aside, upserted-OffAt, returned,
}

module _ (s : StockServices) (env : Env) where
  reserve_batches :
      (input : StockReservationInput) (n : ℕ) (r : ResolvedIdentity) (assets : List ℕ) (d : Db)
      → (reserve_resolved list_client s env input n r assets d).1.batches
        ≡ (upsert_item list_client env (identity_lookup r) d).1.batches
  unfolding reserve_resolved
  reserve_batches input n r assets d = ground arith

  release_batches :
      (input : StockReservationInput) (n : ℕ) (held : InventoryReservation) (r : ResolvedIdentity)
      (d : Db)
      → (release_resolved list_client s env input n held r d).1.batches
        ≡ (upsert_item list_client env (identity_lookup r) d).1.batches
  unfolding release_resolved
  release_batches input n held r d = ground arith

  reserve_resolved-Off :
      (input : StockReservationInput) (n : ℕ) (r : ResolvedIdentity) (assets : List ℕ)
      → Leads (Off 0 0) (reserve_resolved list_client s env input n r assets) (λ _. Off 0 0)
  reserve_resolved-Off input n r assets = record {
    holds = λ d h. returned (Off 0 0) (reserve_resolved list_client s env input n r assets d) (
        reserved_update-Off (has_available (identity_lookup r) r.base_quantity)
          (reserve_more r.base_quantity) (upsert_item list_client env (identity_lookup r) d).1 _
          (λ x. refl) (λ i x. refl) (reserve_items s env input n r assets d)
          (reserve_batches input n r assets d)
          (upserted-OffAt env (identity_lookup r) 0 0 d h).off);
  }

  release_resolved-Off :
      (input : StockReservationInput) (n : ℕ) (held : InventoryReservation) (r : ResolvedIdentity)
      → Leads (Off 0 0) (release_resolved list_client s env input n held r) (λ _. Off 0 0)
  release_resolved-Off input n held r = record {
    holds = λ d h. returned (Off 0 0) (release_resolved list_client s env input n held r d) (
        reserved_update-Off (has_reserved (released_from input held r) (released_quantity held r))
          (reserve_less (released_quantity held r))
          (upsert_item list_client env (identity_lookup r) d).1 _ (λ x. refl) (λ i x. refl)
          (release_items s env input n held r d) (release_batches input n held r d)
          (upserted-OffAt env (identity_lookup r) 0 0 d h).off);
  }

  tracked-Aside : (k : Option ℕ) → Aside (check_tracked list_client s env k)
  tracked-Aside k = record { items = λ d. ground arith; batches = λ d. ground arith }

  reserve_anew-Off :
      (input : StockReservationInput) (n : ℕ)
      → Leads (Off 0 0) (reserve_anew list_client s env input n) (λ _. Off 0 0)
  unfolding reserve_anew
  reserve_anew-Off input n =
      Leads-bind _ _ _ (Aside-Off 0 0 _ (resolve-Aside (write_input input))) λ r.
        Leads-bind _ _ _ (Aside-Off 0 0 _ (tracked-Aside r.stock_item_id)) λ u.
          Leads-bind _ _ _
            (Aside-Off 0 0 _
              (assets-Aside s env r input.quantity input.asset_ids input.serial_numbers))
            λ assets. reserve_resolved-Off input n r assets

  release_held-Off :
      (input : StockReservationInput) (n : ℕ) (held : InventoryReservation)
      → Leads (Off 0 0) (release_held list_client s env input n held) (λ _. Off 0 0)
  unfolding release_held
  release_held-Off input n held =
      Leads-bind _ _ _ (Aside-Off 0 0 _ (resolve-Aside (write_input input)))
        λ r. release_resolved-Off input n held r

  abbrev answers : StockReservationInput → Action Db ReservationResult
  answers input d =
      (ok (unchanged list_client s env (find_item_by_identity list_client env (asked input) d)), d)

  pub reserve_transaction-Off :
      (input : StockReservationInput) (n : ℕ)
      → Leads (Off 0 0) (reserve_in_transaction list_client s env input n) (λ _. Off 0 0)
  reserve_transaction-Off input n =
      Leads-found (find_reservation_by_key list_client env input.reservation_key)
        (λ held. answers input) _ (λ held. record { holds = λ d h. h }) (reserve_anew-Off input n)

  pub release_transaction-Off :
      (input : StockReservationInput) (n : ℕ)
      → Leads (Off 0 0) (release_in_transaction list_client s env input n) (λ _. Off 0 0)
  release_transaction-Off input n =
      Leads-found (find_reservation_by_key list_client env input.reservation_key)
        (λ held d.
          if is_active held.status
          then release_held list_client s env input n held d
          else answers input d)
        (answers input)
        (λ held.
          Leads-branch (is_active held.status) _ (answers input) (release_held-Off input n held)
            (record { holds = λ d h. h }))
        (record { holds = λ d h. h })
