-- ===== src/Inventory/StockOut/Books.antt =====
-- What the transactions of `stockOut` do to the balance of the books.
use central_backend_e_commer.Prelude.{
  ℕ, ◌-◌, ◌&&◌, ◌⊎◌, ◌≡◌, refl, Bool, List, arith, leb, not, if◌then◌else◌,
}
use central_backend_e_commer.Action.{Result, ok, bad_request, conflict, pure}
use central_backend_e_commer.Action.Leads.{
  Leads, Leads-bind, Leads-pure, Leads-test, Leads-or_throw, Leads-weaken, Leads-found,
  Leads-branch,
}
use central_backend_e_commer.Prisma.{list_client, update_where, OrderBy}
use central_backend_e_commer.Schema.{Db, Env, InventoryItem, InventoryReservation}
use central_backend_e_commer.Inventory.Identity.{ResolvedIdentity}
use central_backend_e_commer.Inventory.Services.{StockServices, identity_lookup, serial_count_fits}
use central_backend_e_commer.Inventory.Queries.{item_where, find_reservation_by_key, is_active}
use central_backend_e_commer.Inventory.Fifo.{FifoAllocation}
use central_backend_e_commer.Inventory.Fifo.Books.{consume-Off}
use central_backend_e_commer.Inventory.Moves.{StockOutInput, StockOutResult, processed_movement}
use central_backend_e_commer.Inventory.Reserve.{StockReservationInput}
use central_backend_e_commer.Inventory.StockOut.{
  write_of_out, draw_stock, record_outflow, stock_out_anew, stock_out_checked,
  stock_out_in_transaction, stock_out_outcome, replayed_out, release_after, release_if_held,
  held_identity, held_quantity,
}
use central_backend_e_commer.Inventory.Books.{Off, reserved_update-Off}
use central_backend_e_commer.Inventory.Books.Steps.{
  Aside, Aside-Off, upsert-OffAt, decrement-Off, resolve-Aside, returned, assets-Aside,
}

module _ (s : StockServices) (sort : OrderBy) (env : Env) where
  pub draw_stock-Off :
      (product_id : ℕ) (r : ResolvedIdentity)
      → Leads (Off 0 0) (draw_stock list_client s sort env product_id r) (λ _. Off 0 0)
  unfolding draw_stock
  draw_stock-Off product_id r =
      Leads-bind _ _ _ (consume-Off sort env product_id r.stock_item_id r.base_quantity)
        λ allocations.
          Leads-bind _ _ _
            (decrement-Off env (identity_lookup r) r.base_quantity
              (conflict "Inventory summary is out of sync"))
            λ u. Leads-pure allocations

  record_outflow-Aside :
      (input : StockOutInput) (n : ℕ) (r : ResolvedIdentity) (assets : List ℕ)
      (before : InventoryItem) (allocations : List FifoAllocation)
      → Aside (record_outflow list_client s sort env input n r assets before allocations)
  unfolding record_outflow
  record_outflow-Aside input n r assets before allocations = record {
    items = λ d. ground arith;
    batches = λ d. ground arith;
  }

  stock_out_anew-Off :
      (input : StockOutInput) (n : ℕ)
      → Leads (Off 0 0) (stock_out_anew list_client s sort env input n) (λ _. Off 0 0)
  unfolding stock_out_anew
  stock_out_anew-Off input n =
      Leads-bind _ _ _ (Aside-Off 0 0 _ (resolve-Aside (write_of_out input))) λ r.
        Leads-bind _ _ _
          (Aside-Off 0 0 _
            (assets-Aside s env r input.quantity input.asset_ids input.serial_numbers))
          λ assets. Leads-bind _ _ _ (upsert-OffAt env (identity_lookup r) 0 0) λ before.
            Leads-bind _ _ _ (Leads-weaken _ (λ d h. h.off) (draw_stock-Off input.product_id r))
              λ allocations.
                Aside-Off 0 0 _ (record_outflow-Aside input n r assets before allocations)

  checked-Off :
      (input : StockOutInput) (n : ℕ)
      → Leads (Off 0 0) (stock_out_checked list_client s sort env input n) (λ _. Off 0 0)
  checked-Off input n =
      Leads-found (processed_movement list_client s env input.event_key)
        (λ m d. (ok (replayed_out list_client s sort env input m d), d)) _
        (λ m. record { holds = λ d h. h }) (stock_out_anew-Off input n)

  pub stock_out_transaction-Off :
      (input : StockOutInput)
      → Leads (Off 0 0) (stock_out_in_transaction list_client s sort env input) (λ _. Off 0 0)
  unfolding stock_out_in_transaction
  stock_out_transaction-Off input =
      Leads-bind _ _ _ (Leads-or_throw input.reference_id (bad_request "Reference ID is required"))
        λ n.
          Leads-bind (λ _. Off 0 0) _ _
            (Leads-test (leb input.quantity 0) (bad_request "Quantity must be greater than zero"))
            λ u.
              Leads-bind (λ _. Off 0 0) _ _
                (Leads-test (not (serial_count_fits input.serial_numbers input.quantity))
                  (bad_request "Serial number count must match quantity"))
                λ v. checked-Off input n

  abbrev has_held : StockReservationInput → InventoryReservation → InventoryItem → Bool
  has_held input held r =
      item_where (held_identity list_client s sort env input held) r
      && leb (held_quantity list_client s sort env held) r.reserved_quantity

  abbrev less_held : InventoryReservation → InventoryItem → InventoryItem
  less_held held r = record r {
    reserved_quantity = r.reserved_quantity - held_quantity list_client s sort env held;
  }

  released_items :
      (input : StockReservationInput) (reference : ℕ) (held : InventoryReservation)
      (out : StockOutResult) (d : Db)
      → let d' = (release_after list_client s sort env input reference held out d).1 in
        ((d'.items ≡ d.items)
          ⊎ (d'.items ≡ update_where (has_held input held) (less_held held) d.items))
        × (d'.batches ≡ d.batches)
  unfolding release_after
  released_items input reference held out d = ground arith

  release_after-Off :
      (input : StockReservationInput) (reference : ℕ) (held : InventoryReservation)
      (out : StockOutResult)
      → Leads
          (Off 0 0)
          (release_after list_client s sort env input reference held out)
          (λ _. Off 0 0)
  release_after-Off input reference held out = record {
    holds = λ d h.
        let after = released_items input reference held out d in
        returned (Off 0 0) (release_after list_client s sort env input reference held out d) (
          reserved_update-Off (has_held input held) (less_held held) d _ (λ r. refl) (λ i r. refl)
            after.0 after.1 h);
  }

  pub release-Off :
      (input : StockReservationInput) (reference : ℕ) (out : StockOutResult)
      → Leads (Off 0 0) (release_if_held list_client s sort env input reference out) (λ _. Off 0 0)
  release-Off input reference out =
      Leads-found (find_reservation_by_key list_client env input.reservation_key)
        (λ held d.
          if is_active held.status
          then release_after list_client s sort env input reference held out d
          else (ok out, d))
        (pure out)
        (λ held.
          Leads-branch (is_active held.status) _ (pure out)
            (release_after-Off input reference held out) (Leads-pure out))
        (Leads-pure out)

  pub stock_out_outcome_same :
      (input : StockOutInput) (r : Result StockOutResult × Db)
      → let d' = (stock_out_outcome list_client s sort env input r).1 in
        (d'.items ≡ r.1.items) × (d'.batches ≡ r.1.batches)
  stock_out_outcome_same input r = ground arith
