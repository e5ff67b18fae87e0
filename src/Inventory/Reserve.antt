-- ===== src/Inventory/Reserve.antt =====
-- `InventoryService.reserveStock` and `releaseReservedStock`, over the identity resolver and the
-- queries; what they call of the stock item configuration and of the assets is an interface.
pub mod Within
pub mod History
pub mod Books
pub mod Again
use central_backend_e_commer.Prelude.{
  ℕ, ◌+◌, ◌-◌, Bool, true, false, not, Option, none, some, List, [], ◌∷◌, ◌++◌, ◌==◌, ltb, leb,
  if◌then◌else◌,
}
use central_backend_e_commer.Action.{
  Action, Result, ok, err, Error, bad_request, conflict, unique_violation, pure, gets, or_throw,
  throw_if, modify, ◌>>=◌, ◌>>◌,
}
use central_backend_e_commer.Prisma.{Prisma}
use central_backend_e_commer.Schema.{
  Db, Env, InventoryItem, InventoryReservation, ReservationStatus, Event, AuditEntry,
}
use central_backend_e_commer.EventBus.{publish}
pub use central_backend_e_commer.Inventory.Services.{
  Configuration, StockServices, reads, identity_lookup, user_none, resolve_outbound_asset_ids,
}
use central_backend_e_commer.Inventory.Identity.{WriteInput, ResolvedIdentity, resolve_for_write}
use central_backend_e_commer.Inventory.Queries.{
  Identity, find_item_by_identity, upsert_item, reserve_item_quantity, release_reserved_quantity,
  find_reservation_by_key, create_reservation, release_reservation, is_active,
}

pub record StockReservationInput : Type 0 where
  pub product_id : ℕ
  pub variant_id : Option ℕ
  pub stock_item_id : Option ℕ
  pub unit_id : Option ℕ
  pub quantity : ℕ
  pub reference_id : Option ℕ
  pub reservation_key : ℕ
  -- `none` and the empty list ask for nothing
  pub asset_ids : List ℕ
  pub serial_numbers : List ℕ

pub record ReservationResult : Type 0 where
  pub before_item : Option InventoryItem
  pub item : Option InventoryItem

-- The input's own identity, before it is resolved.
abbrev pub asked : StockReservationInput → Identity
asked input = record { product_id = input.product_id; stock_item_id = input.stock_item_id }

abbrev pub write_input : StockReservationInput → WriteInput
write_input input = record {
  product_id = input.product_id;
  quantity = input.quantity;
  variant_id = input.variant_id;
  stock_item_id = input.stock_item_id;
  unit_id = input.unit_id;
}

abbrev pub reservation_of :
    Env → ℕ → StockReservationInput → ℕ → ResolvedIdentity → List ℕ → InventoryReservation
reservation_of env n input reference r assets = record {
  id = env.uuid n;
  product_id = input.product_id;
  stock_item_id = r.stock_item_id;
  unit_id = r.unit_id;
  reference_id = reference;
  reservation_key = input.reservation_key;
  quantity = r.base_quantity;
  base_quantity = some r.base_quantity;
  asset_ids = assets;
  status = ReservationStatus.active;
  released_at = none;
}

abbrev pub reserved_event :
    StockReservationInput → ℕ → ResolvedIdentity → Option InventoryItem → Event
reserved_event input reference r item = Event.inventory_reserved (record {
  product_id = input.product_id;
  stock_item_id = r.stock_item_id;
  unit_id = r.unit_id;
  reference_id = reference;
  quantity = input.quantity;
  base_quantity = r.base_quantity;
  item = item;
})

-- `reservation?.stockItemId ?? resolvedIdentity.stockItemId`
abbrev pub or_else : {A : Type 0} → Option A → Option A → Option A
or_else none b = b
or_else (some a) b = some a

abbrev pub released_from :
    StockReservationInput → InventoryReservation → ResolvedIdentity → Identity
released_from input held r = record {
  product_id = input.product_id;
  stock_item_id = or_else held.stock_item_id r.stock_item_id;
}

-- `reservation?.baseQuantity ?? resolvedIdentity.baseQuantity`
abbrev pub released_quantity : InventoryReservation → ResolvedIdentity → ℕ
released_quantity held r = elim held.base_quantity [ none ↦ r.base_quantity | some q ↦ q ]

abbrev pub released_event :
    StockReservationInput
    → ℕ
    → InventoryReservation
    → ResolvedIdentity
    → Option InventoryItem
    → Event
released_event input reference held r item = Event.inventory_reservation_released (record {
  product_id = input.product_id;
  stock_item_id = or_else held.stock_item_id r.stock_item_id;
  unit_id = or_else held.unit_id r.unit_id;
  reference_id = reference;
  quantity = input.quantity;
  base_quantity = released_quantity held r;
  item = item;
})

module _ (p : Prisma) (services : StockServices) (env : Env) where
  -- Whether reservations are enabled; a product without a stock item has no configuration.
  abbrev pub check_tracked : Option ℕ → Action Db (Unit {0})
  check_tracked none = pure tt
  check_tracked (some s) = do
    config ← reads (services.effective_configuration s)
    throw_if (not config.track_reservations)
        (bad_request "Reservations are not enabled for this stock item")

  -- What remains of the transaction once the identity and the assets are known.
  pub reserve_resolved :
      StockReservationInput → ℕ → ResolvedIdentity → List ℕ → Action Db ReservationResult
  reserve_resolved input reference r assets = do
    before ← upsert_item p env (identity_lookup r)
    drawn ← gets (λ d. d.drawn)
    create_reservation p env (reservation_of env drawn input reference r assets)
    throw_if (ltb before.quantity_on_hand (r.base_quantity + before.reserved_quantity))
        (conflict "Insufficient available stock to reserve")
    count ← reserve_item_quantity p env (identity_lookup r) r.base_quantity
    throw_if (not (count == 1)) (conflict "Insufficient available stock to reserve")
    reads (services.reserve_assets assets)
    item ← gets (find_item_by_identity p env (identity_lookup r))
    publish p env user_none (reserved_event input reference r item)
    pure (record { before_item = some before; item = item })

  -- The transaction's callback where no reservation has the key.
  pub reserve_anew : StockReservationInput → ℕ → Action Db ReservationResult
  reserve_anew input reference = do
    r ← resolve_for_write p (write_input input)
    check_tracked r.stock_item_id
    assets ←
        resolve_outbound_asset_ids p services env r input.quantity input.asset_ids
          input.serial_numbers
    reserve_resolved input reference r assets

  abbrev pub unchanged : Option InventoryItem → ReservationResult
  unchanged item = record { before_item = item; item = item }

  -- The transaction's callback.
  abbrev pub reserve_in_transaction : StockReservationInput → ℕ → Action Db ReservationResult
  reserve_in_transaction input reference d =
      elim (find_reservation_by_key p env input.reservation_key d) [
        | some held ↦ (ok (unchanged (find_item_by_identity p env (asked input) d)), d)
        | none ↦ reserve_anew input reference d
      ]

  abbrev pub log_stock :
      (Option InventoryItem → Option InventoryItem → AuditEntry)
      → ReservationResult
      → Action Db ReservationResult
  log_stock entry result = do
    modify (λ d. record d { audit = d.audit ++ (entry result.before_item result.item ∷ []) })
    pure result

  -- What the caller gets: the audit line after the transaction, and the answer to a key that
  -- another request took meanwhile.
  abbrev pub reserve_outcome :
      StockReservationInput → Result ReservationResult × Db → Result ReservationResult × Db
  reserve_outcome input (ok result, d) =
      log_stock (AuditEntry.stock_reserved input.product_id) result d
  reserve_outcome input (err Error.unique_violation, d) =
      let i : Identity = record { product_id = input.product_id; stock_item_id = none } in
      (ok (unchanged (find_item_by_identity p env i d)), d)
  reserve_outcome input (err e, d) = (err e, d)

  unfoldable pub reserve_stock : StockReservationInput → Action Db ReservationResult
  reserve_stock input = do
    reference ← or_throw input.reference_id (bad_request "Reference ID is required")
    throw_if (leb input.quantity 0) (bad_request "Quantity must be greater than zero")
    λ d.
        reserve_outcome input
          (p.transaction Db ReservationResult (reserve_in_transaction input reference) d)

  -- What remains of the transaction once the identity is known.
  pub release_resolved :
      StockReservationInput
      → ℕ
      → InventoryReservation
      → ResolvedIdentity
      → Action Db ReservationResult
  release_resolved input reference held r = do
    before ← upsert_item p env (identity_lookup r)
    released ← release_reservation p env input.reservation_key
    throw_if (not (released == 1)) (conflict "Inventory reservation was updated concurrently")
    count ← release_reserved_quantity p env (released_from input held r) (released_quantity held r)
    throw_if (not (count == 1)) (conflict "Reserved stock is out of sync")
    reads (
        services.release_reserved_assets
          (elim input.asset_ids [ [] ↦ held.asset_ids | a ∷ rest ↦ a ∷ rest ]))
    item ← gets (find_item_by_identity p env (released_from input held r))
    publish p env user_none (released_event input reference held r item)
    pure (record { before_item = some before; item = item })

  -- The transaction's callback where an active reservation has the key.
  pub release_held : StockReservationInput → ℕ → InventoryReservation → Action Db ReservationResult
  release_held input reference held =
      resolve_for_write p (write_input input) >>= release_resolved input reference held

  abbrev pub release_in_transaction : StockReservationInput → ℕ → Action Db ReservationResult
  release_in_transaction input reference d =
      elim (find_reservation_by_key p env input.reservation_key d) [
        | none ↦ (ok (unchanged (find_item_by_identity p env (asked input) d)), d)
        | some held ↦
            if is_active held.status
            then release_held input reference held d
            else (ok (unchanged (find_item_by_identity p env (asked input) d)), d)
      ]

  unfoldable pub release_reserved_stock : StockReservationInput → Action Db ReservationResult
  release_reserved_stock input = do
    reference ← or_throw input.reference_id (bad_request "Reference ID is required")
    throw_if (leb input.quantity 0) (bad_request "Quantity must be greater than zero")
    result ← p.transaction Db ReservationResult (release_in_transaction input reference)
    log_stock (AuditEntry.stock_released input.product_id) result
