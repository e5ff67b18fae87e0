-- ===== src/Inventory/StockOut/Again.antt =====
-- `stockOut` that is asked for again with the same event key.
use central_backend_e_commer.Prelude.{
  ℕ, ◌≡◌, refl, Bool, true, false, none, some, List, leb, if◌then◌else◌,
}
use central_backend_e_commer.Action.{
  Result, Error, ok, err, bad_request, unique_violation, throw, throw_if, gets,
}
use central_backend_e_commer.Action.Leads.{
  Leads, Returns, Leads-bind, Leads-return, Leads-or_throw, Leads-any, Leads-found_as,
  committed_returns,
}
use central_backend_e_commer.Prisma.{Prisma, Laws, OrderBy, list_client, client-eq, commit}
use central_backend_e_commer.Schema.{Db, Env, Event, InventoryMovement, InventoryItem}
use central_backend_e_commer.EventBus.{publish}
use central_backend_e_commer.Inventory.Queries.{upsert_item, find_item_by_identity}
use central_backend_e_commer.Inventory.Services.{
  StockServices, reads, identity_lookup, user_none, ensure_serial_count, resolve_outbound_asset_ids,
}
use central_backend_e_commer.Inventory.Identity.{ResolvedIdentity, resolve_for_write}
use central_backend_e_commer.Inventory.Fifo.{FifoAllocation}
use central_backend_e_commer.Inventory.Moves.{
  StockOutInput, StockOutResult, movement_out, moved_payload, processed_movement,
}
use central_backend_e_commer.Inventory.Moves.Again.{Recorded, recorded, kept, returned_with}
use central_backend_e_commer.Inventory.StockOut.{
  write_of_out, sell_serials, draw_stock, record_outflow, stock_out_anew, stock_out_checked,
  stock_out_in_transaction, stock_out_outcome, stock_out, replayed_out,
}

module _ (s : StockServices) (sort : OrderBy) (env : Env) where
  outflow-Recorded :
      (input : StockOutInput) (n k : ℕ) (r : ResolvedIdentity) (assets : List ℕ)
      (before : InventoryItem) (allocations : List FifoAllocation)
      → input.event_key ≡ some k
      → Leads
          (λ _. Unit {0})
          (record_outflow list_client s sort env input n r assets before allocations)
          (λ result. Recorded s env k result.movement)
  unfolding record_outflow
  outflow-Recorded input n k r assets before allocations e =
      Leads-bind _ _ _ (Leads-any (reads (s.mark_assets_sold assets n))) λ u.
        Leads-bind _ _ _ (Leads-any (sell_serials list_client s sort env input n r)) λ v.
          Leads-bind _ _ _
            (Leads-any (gets (find_item_by_identity list_client env (identity_lookup r))))
            λ item. Leads-bind _ _ _ (Leads-any (gets (λ d. d.drawn))) λ drawn.
              Leads-bind _ _ _ (recorded s env k (movement_out env drawn input n r allocations) e _)
                λ m.
                  Leads-bind _ _ _
                    (kept s env k m
                      (publish list_client env user_none
                        (Event.inventory_stock_out (moved_payload m item none allocations none)))
                      (λ d. refl))
                    λ w.
                      Leads-return
                        (record {
                          before_item = some before;
                          item = item;
                          allocations = allocations;
                          movement = m;
                          already_processed = false;
                        })
                        (λ d h. h)

  checked-Recorded :
      (input : StockOutInput) (n k : ℕ)
      → input.event_key ≡ some k
      → Leads
          (λ _. Unit {0})
          (stock_out_checked list_client s sort env input n)
          (λ result. Recorded s env k result.movement)
  unfolding stock_out_anew
  checked-Recorded input n k e =
      Leads-found_as (processed_movement list_client s env input.event_key)
        (λ m d. (ok (replayed_out list_client s sort env input m d), d))
        (stock_out_anew list_client s sort env input n) (λ m d found h. rw e at found)
        (Leads-bind _ _ _ (Leads-any (resolve_for_write list_client (write_of_out input))) λ r.
          Leads-bind _ _ _
            (Leads-any (
              resolve_outbound_asset_ids list_client s env r input.quantity input.asset_ids
                input.serial_numbers))
            λ assets.
              Leads-bind _ _ _ (Leads-any (upsert_item list_client env (identity_lookup r)))
                λ before.
                  Leads-bind _ _ _
                    (Leads-any (draw_stock list_client s sort env input.product_id r))
                    λ allocations. outflow-Recorded input n k r assets before allocations e)

  transaction-Recorded :
      (input : StockOutInput) (k : ℕ)
      → input.event_key ≡ some k
      → Leads
          (λ _. Unit {0})
          (stock_out_in_transaction list_client s sort env input)
          (λ result. Recorded s env k result.movement)
  unfolding stock_out_in_transaction
  transaction-Recorded input k e =
      Leads-bind _ _ _ (Leads-or_throw input.reference_id (bad_request "Reference ID is required"))
        λ n.
          Leads-bind _ _ _
            (Leads-any
              (throw_if (leb input.quantity 0) (bad_request "Quantity must be greater than zero")))
            λ u.
              Leads-bind _ _ _ (Leads-any (ensure_serial_count input.serial_numbers input.quantity))
                λ v. checked-Recorded input n k e

  either :
      (k : ℕ) (c : Bool) (result : StockOutResult) (d d' : Db)
      → d'.movements ≡ d.movements
      → Recorded s env k result.movement d
      → Returns
          (λ result. Recorded s env k result.movement)
          (if c then (ok result, d) else (ok result, d'))
  either k true result d d' same h = h
  either k false result d d' same h = rw same h

  outcome-Recorded :
      (input : StockOutInput) (k : ℕ)
      → input.event_key ≡ some k
      → (r : Result StockOutResult × Db) → Returns (λ result. Recorded s env k result.movement) r
      → Returns
          (λ result. Recorded s env k result.movement)
          (stock_out_outcome list_client s sort env input r)
  outcome-Recorded input k e (ok result, d) h = either k result.already_processed result d _ refl h
  outcome-Recorded input k e (err Error.unique_violation, d) h =
      (Leads-found_as {P = λ _. Unit {0}} (processed_movement list_client s env input.event_key)
          (λ m d. (ok (replayed_out list_client s sort env input m d), d)) (throw unique_violation)
          (λ m d found h. rw e at found) (record { holds = λ d h. tt })).holds
        d tt
  outcome-Recorded input k e (err x, d) h = tt

  -- What `stockOut` returned with is recorded under its key.
  returned-Recorded :
      (input : StockOutInput) (k : ℕ)
      → input.event_key ≡ some k
      → Leads
          (λ _. Unit {0})
          (stock_out list_client s sort env input)
          (λ result. Recorded s env k result.movement)
  unfolding stock_out
  returned-Recorded input k e =
      Leads-bind _ _ _ (Leads-or_throw input.reference_id (bad_request "Reference ID is required"))
        λ n.
          Leads-found_as (processed_movement list_client s env input.event_key)
            (λ m d. (ok (replayed_out list_client s sort env input m d), d))
            (λ d.
              stock_out_outcome list_client s sort env input
                (commit d (stock_out_in_transaction list_client s sort env input d)))
            (λ m d found h. rw e at found)
            (record {
              holds = λ d h. outcome-Recorded input k e _ (
                  committed_returns (stock_out_in_transaction list_client s sort env input)
                    (transaction-Recorded input k e) d h);
            })

  -- And a recorded key is answered from the record.
  answered :
      (input : StockOutInput) (n k : ℕ) (m : InventoryMovement) (d : Db)
      → input.event_key ≡ some k
      → input.reference_id ≡ some n
      → Recorded s env k m d
      → stock_out list_client s sort env input d
        ≡ (ok (replayed_out list_client s sort env input m d), d)
  unfolding stock_out
  answered input n k m d e reference h = rw (reference, e, h) refl

-- If a request to take stock out with an event key returned, a request with the same key and a
-- reference that is made at any later time returns the movement of the first, marked as already
-- processed, and changes nothing.
pub stock_out_again :
    {p : Prisma}
    → Laws p
    → (s : StockServices) (sort : OrderBy) (env later : Env) (input again : StockOutInput) (k n : ℕ)
      (d : Db) (result : StockOutResult)
    → input.event_key ≡ some k
    → again.event_key ≡ some k
    → again.reference_id ≡ some n
    → (stock_out p s sort env input d).0 ≡ ok result
    → let d' = (stock_out p s sort env input d).1 in
      stock_out p s sort later again d'
      ≡ (ok (replayed_out p s sort later again result.movement d'), d')
stock_out_again laws s sort env later input again k n d result e e' reference done =
    rw (client-eq laws) (
      let first_time = rw (client-eq laws) at done in
      answered s sort later again n k result.movement (stock_out list_client s sort env input d).1
        e' reference
        (returned_with (λ result. Recorded s env k result.movement)
          (stock_out list_client s sort env input d) result first_time
          ((returned-Recorded s sort env input k e).holds d tt)))
