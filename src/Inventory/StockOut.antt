-- ===== src/Inventory/StockOut.antt =====
-- `InventoryService.stockOut` and `stockOutAndReleaseReservation`.
pub mod Books
pub mod Again
use central_backend_e_commer.Prelude.{
  ℕ, Bool, true, false, not, Option, none, some, List, [], ◌∷◌, ◌++◌, length, ◌==◌, leb,
  if◌then◌else◌,
}
use central_backend_e_commer.Action.{
  Action, Result, ok, err, Error, bad_request, conflict, unique_violation, pure, gets, or_throw,
  throw_if, modify, ◌>>=◌, ◌>>◌,
}
use central_backend_e_commer.Prisma.{Prisma, OrderBy}
use central_backend_e_commer.Schema.{
  Db, Env, InventoryItem, InventoryMovement, InventoryReservation, Event, AuditEntry,
}
use central_backend_e_commer.EventBus.{publish}
use central_backend_e_commer.Inventory.Identity.{WriteInput, ResolvedIdentity, resolve_for_write}
use central_backend_e_commer.Inventory.Queries.{
  Identity, find_item_by_identity, upsert_item, decrement_item_quantity, release_reserved_quantity,
  create_movement, mark_serials_sold, find_reservation_by_key, release_reservation, is_active,
}
use central_backend_e_commer.Inventory.Services.{
  StockServices, reads, identity_lookup, user_none, ensure_serial_count, is_empty,
  resolve_outbound_asset_ids,
}
use central_backend_e_commer.Inventory.Fifo.{FifoAllocation, consume}
use central_backend_e_commer.Inventory.Moves.{
  StockOutInput, StockOutResult, movement_out, moved_payload, processed_movement, asked_identity,
}
use central_backend_e_commer.Inventory.Reserve.{StockReservationInput}

abbrev pub write_of_out : StockOutInput → WriteInput
write_of_out input = record {
  product_id = input.product_id;
  quantity = input.quantity;
  variant_id = input.variant_id;
  stock_item_id = input.stock_item_id;
  unit_id = input.unit_id;
}

module _ (p : Prisma) (services : StockServices) (sort : OrderBy) (env : Env) where
  abbrev pub sell_serials : StockOutInput → ℕ → ResolvedIdentity → Action Db (Unit {0})
  sell_serials input reference r = if is_empty input.serial_numbers then pure tt else do
    count ← mark_serials_sold p env input.product_id input.serial_numbers reference r.stock_item_id
    throw_if (not (count == length input.serial_numbers))
        (conflict "One or more serial numbers are unavailable")

  -- The batches and the item, which lose the same quantity.
  unfoldable pub draw_stock : ℕ → ResolvedIdentity → Action Db (List FifoAllocation)
  draw_stock product_id r = do
    allocations ← consume p env sort product_id r.stock_item_id r.base_quantity
    count ← decrement_item_quantity p env (identity_lookup r) r.base_quantity
    throw_if (not (count == 1)) (conflict "Inventory summary is out of sync")
    pure allocations

  -- What is written after the batches and the item: assets, serial numbers, the movement, the event.
  unfoldable pub record_outflow :
      StockOutInput
      → ℕ
      → ResolvedIdentity
      → List ℕ
      → InventoryItem
      → List FifoAllocation
      → Action Db StockOutResult
  record_outflow input reference r assets before allocations = do
    reads (services.mark_assets_sold assets reference)
    sell_serials input reference r
    item ← gets (find_item_by_identity p env (identity_lookup r))
    drawn ← gets (λ d. d.drawn)
    movement ← create_movement p env (movement_out env drawn input reference r allocations)
    publish p env user_none
        (Event.inventory_stock_out (moved_payload movement item none allocations none))
    pure (record {
      before_item = some before;
      item = item;
      allocations = allocations;
      movement = movement;
      already_processed = false;
    })

  unfoldable pub stock_out_anew : StockOutInput → ℕ → Action Db StockOutResult
  stock_out_anew input reference = do
    r ← resolve_for_write p (write_of_out input)
    assets ←
        resolve_outbound_asset_ids p services env r input.quantity input.asset_ids
          input.serial_numbers
    before ← upsert_item p env (identity_lookup r)
    allocations ← draw_stock input.product_id r
    record_outflow input reference r assets before allocations

  abbrev pub replayed_out : StockOutInput → InventoryMovement → Db → StockOutResult
  replayed_out input m d = record {
    before_item = none;
    item =
        find_item_by_identity p env
          (asked_identity p services env input.product_id input.stock_item_id) d;
    allocations = [];
    movement = m;
    already_processed = true;
  }

  abbrev pub stock_out_checked : StockOutInput → ℕ → Action Db StockOutResult
  stock_out_checked input reference d = elim (processed_movement p services env input.event_key d) [
    | some m ↦ (ok (replayed_out input m d), d)
    | none ↦ stock_out_anew input reference d
  ]

  unfoldable pub stock_out_in_transaction : StockOutInput → Action Db StockOutResult
  stock_out_in_transaction input = do
    reference ← or_throw input.reference_id (bad_request "Reference ID is required")
    throw_if (leb input.quantity 0) (bad_request "Quantity must be greater than zero")
    ensure_serial_count input.serial_numbers input.quantity
    stock_out_checked input reference

  -- What follows the transaction of `stockOut`.
  abbrev pub stock_out_outcome :
      StockOutInput → Result StockOutResult × Db → Result StockOutResult × Db
  stock_out_outcome input (ok result, d) =
      if result.already_processed
      then (ok result, d)
      else (do
        modify (λ x. record x {
          audit =
              x.audit
              ++ (AuditEntry.stock_moved input.product_id result.before_item
                    (moved_payload result.movement result.item none result.allocations none)
                  ∷ []);
        })
        pure result)
          d
  stock_out_outcome input (err Error.unique_violation, d) =
      elim (processed_movement p services env input.event_key d) [
        | none ↦ (err unique_violation, d)
        | some m ↦ (ok (replayed_out input m d), d)
      ]
  stock_out_outcome input (err e, d) = (err e, d)

  unfoldable pub stock_out : StockOutInput → Action Db StockOutResult
  stock_out input = do
    reference ← or_throw input.reference_id (bad_request "Reference ID is required")
    λ d. elim (processed_movement p services env input.event_key d) [
      | some m ↦ (ok (replayed_out input m d), d)
      | none ↦
          stock_out_outcome input
            (p.transaction Db StockOutResult (stock_out_in_transaction input) d)
    ]

  abbrev pub held_identity : StockReservationInput → InventoryReservation → Identity
  held_identity input held = record {
    product_id = input.product_id;
    stock_item_id = held.stock_item_id;
  }

  -- `reservation.baseQuantity ?? reservation.quantity`
  abbrev pub held_quantity : InventoryReservation → ℕ
  held_quantity held = elim held.base_quantity [ none ↦ held.quantity | some q ↦ q ]

  abbrev pub outflow_released_event :
      StockReservationInput → ℕ → InventoryReservation → Option InventoryItem → Event
  outflow_released_event input reference held item = Event.inventory_reservation_released (record {
    product_id = input.product_id;
    stock_item_id = held.stock_item_id;
    unit_id = held.unit_id;
    reference_id = reference;
    quantity = input.quantity;
    base_quantity = held_quantity held;
    item = item;
  })

  -- The release of an active reservation after the stock went out.
  pub release_after :
      StockReservationInput → ℕ → InventoryReservation → StockOutResult → Action Db StockOutResult
  release_after input reference held out = do
    released ← release_reservation p env input.reservation_key
    throw_if (not (released == 1)) (conflict "Inventory reservation was updated concurrently")
    count ← release_reserved_quantity p env (held_identity input held) (held_quantity held)
    throw_if (not (count == 1)) (conflict "Reserved stock is out of sync")
    reads (services.release_reserved_assets held.asset_ids)
    publish p env user_none (outflow_released_event input reference held out.item)
    pure out

  abbrev pub release_if_held : StockReservationInput → ℕ → StockOutResult → Action Db StockOutResult
  release_if_held input reference out d =
      elim (find_reservation_by_key p env input.reservation_key d) [
        | none ↦ (ok out, d)
        | some held ↦
            if is_active held.status then release_after input reference held out d else (ok out, d)
      ]

  -- `reference` is the reservation's `referenceId`, which the event repeats.
  unfoldable pub stock_out_and_release_reservation :
      StockOutInput → StockReservationInput → ℕ → Action Db StockOutResult
  stock_out_and_release_reservation input reservation reference = do
    result ←
        p.transaction Db StockOutResult
          (do out ← stock_out_in_transaction input; release_if_held reservation reference out)
    modify (λ x. record x {
      audit = x.audit ++ (AuditEntry.stock_released_for input.reference_id ∷ []);
    })
    pure result
