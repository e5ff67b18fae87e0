-- ===== src/Inventory/Moves.antt =====
-- `InventoryService.stockIn` and `stockOut`: a batch comes, or batches are drawn, and the item's
-- quantity on hand follows.
pub mod Books
pub mod Again
use central_backend_e_commer.Prelude.{
  ℕ, ◌+◌, ◌*◌, Bool, true, false, not, Option, none, some, List, [], ◌∷◌, ◌++◌, map, length, sum_of,
  ◌==◌, leb, ◌&&◌, ◌||◌, if◌then◌else◌,
}
use central_backend_e_commer.Prelude.Int.{ℤ, pos}
use central_backend_e_commer.Action.{
  Action, Result, ok, err, Error, bad_request, conflict, unique_violation, pure, gets, or_throw,
  throw_if, modify, ◌>>=◌, ◌>>◌,
}
use central_backend_e_commer.Prisma.{Prisma, OrderBy}
use central_backend_e_commer.Schema.{
  Db, Env, InventoryItem, InventoryBatch, BatchCode, InventoryMovement, MovementType, ReferenceType,
  UnitCost, InventorySerial, SerialStatus, Event, MovementPayload, AuditEntry,
}
use central_backend_e_commer.EventBus.{publish}
use central_backend_e_commer.Inventory.Identity.{WriteInput, ResolvedIdentity, resolve_for_write}
use central_backend_e_commer.Inventory.Queries.{
  Identity, find_item_by_identity, upsert_item, increment_item_quantity, decrement_item_quantity,
  create_batch, create_movement, find_movement_by_event_key, create_serials, mark_serials_sold,
}
use central_backend_e_commer.Inventory.Services.{
  Configuration, StockServices, reads, identity_lookup, user_none, ensure_serial_count,
  to_non_negative_decimal, is_empty, resolve_outbound_asset_ids,
}
use central_backend_e_commer.Inventory.Fifo.{FifoAllocation, consume}

pub record StockInInput : Type 0 where
  pub product_id : ℕ
  pub variant_id : Option ℕ
  pub stock_item_id : Option ℕ
  pub unit_id : Option ℕ
  pub batch_code : BatchCode
  pub quantity : ℕ
  pub unit_cost : ℤ
  pub event_key : Option ℕ
  pub manufacture_date : Option ℕ
  pub expiry_date : Option ℕ
  pub reference_type : Option ReferenceType
  pub reference_id : Option ℕ
  pub serial_numbers : List ℕ
  pub assets : List ℕ

pub record StockOutInput : Type 0 where
  pub product_id : ℕ
  pub variant_id : Option ℕ
  pub stock_item_id : Option ℕ
  pub unit_id : Option ℕ
  pub quantity : ℕ
  pub event_key : Option ℕ
  pub reference_type : Option ReferenceType
  pub reference_id : Option ℕ
  pub serial_numbers : List ℕ
  pub asset_ids : List ℕ

pub record StockInResult : Type 0 where
  pub before_item : Option InventoryItem
  pub item : Option InventoryItem
  pub batch : Option InventoryBatch
  pub movement : InventoryMovement
  pub already_processed : Bool

pub record StockOutResult : Type 0 where
  pub before_item : Option InventoryItem
  pub item : Option InventoryItem
  pub allocations : List FifoAllocation
  pub movement : InventoryMovement
  pub already_processed : Bool

abbrev pub reference_type_or : ReferenceType → Option ReferenceType → ReferenceType
reference_type_or default none = default
reference_type_or default (some t) = t

abbrev pub batch_of : Env → ℕ → StockInInput → ResolvedIdentity → ℕ → InventoryBatch
batch_of env n input r cost = record {
  id = env.uuid n;
  product_id = input.product_id;
  stock_item_id = r.stock_item_id;
  batch_code = input.batch_code;
  quantity_received = r.base_quantity;
  quantity_remaining = r.base_quantity;
  unit_cost = cost;
  manufacture_date = input.manufacture_date;
  expiry_date = input.expiry_date;
  created_at = env.now;
}

abbrev pub movement_in : Env → ℕ → StockInInput → ℕ → ResolvedIdentity → ℕ → InventoryMovement
movement_in env n input reference r cost = record {
  id = env.uuid n;
  product_id = input.product_id;
  stock_item_id = r.stock_item_id;
  unit_id = r.unit_id;
  type = MovementType.stock_in;
  event_key = input.event_key;
  quantity = pos input.quantity;
  base_quantity = pos r.base_quantity;
  unit_cost = some (record { cost = cost; quantity = 1 });
  reference_type = reference_type_or ReferenceType.purchase input.reference_type;
  reference_id = reference;
  created_at = env.now;
}

-- `allocationCost`: the average, exactly
abbrev pub allocation_cost : List FifoAllocation → Option UnitCost
allocation_cost [] = none
allocation_cost (a ∷ rest) =
    let quantity = sum_of (λ x. x.quantity) (a ∷ rest) in
    let cost = sum_of (λ x. x.quantity * x.unit_cost) (a ∷ rest) in
    if quantity == 0 then none else some (record { cost = cost; quantity = quantity })

abbrev pub movement_out :
    Env → ℕ → StockOutInput → ℕ → ResolvedIdentity → List FifoAllocation → InventoryMovement
movement_out env n input reference r allocations = record {
  id = env.uuid n;
  product_id = input.product_id;
  stock_item_id = r.stock_item_id;
  unit_id = r.unit_id;
  type = MovementType.stock_out;
  event_key = input.event_key;
  quantity = pos input.quantity;
  base_quantity = pos r.base_quantity;
  unit_cost = allocation_cost allocations;
  reference_type = reference_type_or ReferenceType.order input.reference_type;
  reference_id = reference;
  created_at = env.now;
}

-- `allocationSnapshots`
abbrev pub allocation_snapshots : List FifoAllocation → List (ℕ × ℕ)
allocation_snapshots allocations = map (λ a. (a.batch_id, a.quantity)) allocations

abbrev pub moved_payload :
    InventoryMovement
    → Option InventoryItem
    → Option ℕ
    → List FifoAllocation
    → Option ℕ
    → MovementPayload
moved_payload m item batch_id allocations reason = record {
  movement = m;
  item = item;
  batch_id = batch_id;
  allocated = allocation_snapshots allocations;
  reason = reason;
}

abbrev pub serial_of : ℕ → Option ℕ → ℕ → InventorySerial
serial_of product_id s number = record {
  product_id = product_id;
  stock_item_id = s;
  serial_number = number;
  status = SerialStatus.available;
  reference_id = none;
}

abbrev pub is_return : Option ReferenceType → Bool
is_return (some ReferenceType.returned) = true
is_return _ = false

module _ (p : Prisma) (services : StockServices) (env : Env) where
  -- The part of `assertInboundConfiguration` after the receipt's configuration is known.
  abbrev pub check_inbound :
      ℕ → ℕ → Option ReferenceType → List ℕ → List ℕ → Configuration → Action Db (Unit {0})
  check_inbound s quantity type serials assets config =
      if config.track_unique_assets
      then (do
        throw_if (not (is_return type) && is_empty serials && is_empty assets)
            (bad_request "Unique asset tracked stock items require asset details on inbound stock")
        reads (services.validate_receipt_assets s quantity assets))
      else pure tt

  -- `assertInboundConfiguration`
  abbrev pub assert_inbound_configuration :
      ResolvedIdentity
      → ℕ
      → Option ℕ
      → Option BatchCode
      → Option ℕ
      → Option ReferenceType
      → List ℕ
      → List ℕ
      → Action Db (Unit {0})
  assert_inbound_configuration r quantity unit_id code expiry type serials assets =
      elim r.stock_item_id [
        | none ↦ pure tt
        | some s ↦
            reads (
              services.assert_receipt s (elim r.unit_id [ none ↦ unit_id | some u ↦ some u ]) code
                expiry)
            >>= check_inbound s quantity type serials assets
      ]

  -- `registerAssetsIfProvided`
  abbrev pub register_assets_if_provided : ResolvedIdentity → ℕ → ℕ → List ℕ → Action Db (Unit {0})
  register_assets_if_provided r batch_id quantity assets = elim r.stock_item_id [
    | none ↦ pure tt
    | some s ↦ reads (services.register_assets s batch_id quantity assets)
  ]

  -- `createSerialsIfProvided`
  abbrev pub create_serials_if_provided : StockInInput → ResolvedIdentity → Action Db (Unit {0})
  create_serials_if_provided input r =
      if is_empty input.serial_numbers || not (is_empty input.assets)
      then pure tt
      else create_serials p env
          (map (serial_of input.product_id r.stock_item_id) input.serial_numbers)

  -- What is written once the input is checked: the batch, the item, the movement.
  unfoldable pub stock_in_resolved :
      StockInInput → ℕ → ℕ → ResolvedIdentity → Action Db StockInResult
  stock_in_resolved input reference cost r = do
    before ← upsert_item p env (identity_lookup r)
    drawn ← gets (λ d. d.drawn)
    batch ← create_batch p env (batch_of env drawn input r cost)
    increment_item_quantity p env (identity_lookup r) r.base_quantity
    register_assets_if_provided r batch.id input.quantity input.assets
    next ← gets (λ d. d.drawn)
    movement ← create_movement p env (movement_in env next input reference r cost)
    item ← gets (find_item_by_identity p env (identity_lookup r))
    create_serials_if_provided input r
    publish p env user_none
        (Event.inventory_stock_in (moved_payload movement item (some batch.id) [] none))
    pure (record {
      before_item = some before;
      item = item;
      batch = some batch;
      movement = movement;
      already_processed = false;
    })

  abbrev pub write_of_in : StockInInput → WriteInput
  write_of_in input = record {
    product_id = input.product_id;
    quantity = input.quantity;
    variant_id = input.variant_id;
    stock_item_id = input.stock_item_id;
    unit_id = input.unit_id;
  }

  unfoldable pub stock_in_anew : StockInInput → ℕ → ℕ → Action Db StockInResult
  stock_in_anew input reference cost = do
    r ← resolve_for_write p (write_of_in input)
    assert_inbound_configuration r input.quantity input.unit_id (some input.batch_code)
        input.expiry_date input.reference_type input.serial_numbers input.assets
    stock_in_resolved input reference cost r

  -- The movement that an event key names.
  abbrev pub processed_movement : Option ℕ → Db → Option InventoryMovement
  processed_movement none d = none
  processed_movement (some k) d = find_movement_by_event_key p env k d

  abbrev pub asked_identity : ℕ → Option ℕ → Identity
  asked_identity product_id s = record { product_id = product_id; stock_item_id = s }

  abbrev pub replayed_in : StockInInput → InventoryMovement → Db → StockInResult
  replayed_in input m d = record {
    before_item = none;
    item = find_item_by_identity p env (asked_identity input.product_id input.stock_item_id) d;
    batch = none;
    movement = m;
    already_processed = true;
  }

  abbrev pub stock_in_checked : StockInInput → ℕ → ℕ → Action Db StockInResult
  stock_in_checked input reference cost d = elim (processed_movement input.event_key d) [
    | some m ↦ (ok (replayed_in input m d), d)
    | none ↦ stock_in_anew input reference cost d
  ]

  unfoldable pub stock_in_in_transaction : StockInInput → Action Db StockInResult
  stock_in_in_transaction input = do
    reference ← or_throw input.reference_id (bad_request "Reference ID is required")
    throw_if (leb input.quantity 0) (bad_request "Quantity must be greater than zero")
    cost ← to_non_negative_decimal input.unit_cost
    ensure_serial_count input.serial_numbers input.quantity
    stock_in_checked input reference cost

  abbrev log_movement :
      (ℕ → Option InventoryItem → MovementPayload → AuditEntry)
      → ℕ
      → Option InventoryItem
      → MovementPayload
      → Action Db (Unit {0})
  log_movement entry product_id before payload =
      modify (λ d. record d { audit = d.audit ++ (entry product_id before payload ∷ []) })

  -- What follows the transaction of `stockIn`: an event key that another request took first, the
  -- audit line of one that was not processed before.
  abbrev pub stock_in_outcome : StockInInput → Result StockInResult × Db → Result StockInResult × Db
  stock_in_outcome input (ok result, d) =
      if result.already_processed
      then (ok result, d)
      else (do
        log_movement AuditEntry.stock_moved input.product_id result.before_item (
            moved_payload result.movement result.item
              (elim result.batch [ none ↦ none | some b ↦ some b.id ]) [] none)
        pure result)
          d
  stock_in_outcome input (err Error.unique_violation, d) =
      elim (processed_movement input.event_key d) [
        | none ↦ (err unique_violation, d)
        | some m ↦ (ok (replayed_in input m d), d)
      ]
  stock_in_outcome input (err e, d) = (err e, d)

  unfoldable pub stock_in : StockInInput → Action Db StockInResult
  stock_in input = do
    reference ← or_throw input.reference_id (bad_request "Reference ID is required")
    λ d. elim (processed_movement input.event_key d) [
      | some m ↦ (ok (replayed_in input m d), d)
      | none ↦
          stock_in_outcome input (p.transaction Db StockInResult (stock_in_in_transaction input) d)
    ]
