-- ===== src/Inventory/Adjust.antt =====
-- `InventoryService.adjustStock`: a correction of the stock, up with a batch of its own or down
-- through the batches.
pub mod Books
use central_backend_e_commer.Prelude.{
  ℕ, Bool, true, false, not, Option, none, some, List, [], ◌∷◌, ◌++◌, ◌==◌, if◌then◌else◌,
}
use central_backend_e_commer.Prelude.Int.{ℤ, pos, negsuc, neg, pos_part, neg_part}
use central_backend_e_commer.Action.{
  Action, Result, ok, err, bad_request, conflict, pure, gets, or_throw, throw_if, modify, ◌>>=◌,
  ◌>>◌,
}
use central_backend_e_commer.Prisma.{Prisma, OrderBy}
use central_backend_e_commer.Schema.{
  Db, Env, InventoryItem, InventoryBatch, BatchCode, InventoryMovement, MovementType, ReferenceType,
  UnitCost, Event, AuditEntry,
}
use central_backend_e_commer.EventBus.{publish}
use central_backend_e_commer.Inventory.Identity.{WriteInput, ResolvedIdentity, resolve_for_write}
use central_backend_e_commer.Inventory.Queries.{
  find_item_by_identity, upsert_item, increment_item_quantity, create_batch, create_movement,
}
use central_backend_e_commer.Inventory.Services.{
  StockServices, reads, identity_lookup, user_none, to_non_negative_decimal,
  resolve_outbound_asset_ids,
}
use central_backend_e_commer.Inventory.Fifo.{FifoAllocation}
use central_backend_e_commer.Inventory.Moves.{
  moved_payload, assert_inbound_configuration, register_assets_if_provided,
}
use central_backend_e_commer.Inventory.StockOut.{draw_stock}

pub record StockAdjustmentInput : Type 0 where
  pub product_id : ℕ
  pub variant_id : Option ℕ
  pub stock_item_id : Option ℕ
  pub unit_id : Option ℕ
  pub quantity_delta : ℤ
  pub reference_id : Option ℕ
  pub batch_code : Option BatchCode
  pub unit_cost : Option ℤ
  pub reason : Option ℕ
  pub serial_numbers : List ℕ
  pub asset_ids : List ℕ
  pub assets : List ℕ

pub record AdjustmentResult : Type 0 where
  pub before_item : InventoryItem
  pub item : Option InventoryItem
  pub allocations : List FifoAllocation
  pub batch : Option InventoryBatch
  pub movement : InventoryMovement

-- `quantityDelta.abs()`
abbrev pub magnitude : ℤ → ℕ
magnitude (pos n) = n
magnitude (negsuc n) = neg_part (negsuc n)

abbrev pub is_negative : ℤ → Bool
is_negative (pos n) = false
is_negative (negsuc n) = true

abbrev pub is_zero : ℤ → Bool
is_zero (pos n) = n == 0
is_zero (negsuc n) = false

abbrev pub cost_or_zero : Option ℤ → ℤ
cost_or_zero none = pos 0
cost_or_zero (some c) = c

abbrev pub write_of_adjustment : StockAdjustmentInput → WriteInput
write_of_adjustment input = record {
  product_id = input.product_id;
  quantity = magnitude input.quantity_delta;
  variant_id = input.variant_id;
  stock_item_id = input.stock_item_id;
  unit_id = input.unit_id;
}

abbrev pub code_of_adjustment : StockAdjustmentInput → ℕ → BatchCode
code_of_adjustment input reference = elim input.batch_code [
  | none ↦ BatchCode.of_adjustment reference
  | some c ↦ c
]

abbrev pub batch_of_adjustment :
    Env → ℕ → StockAdjustmentInput → ℕ → ResolvedIdentity → ℕ → InventoryBatch
batch_of_adjustment env n input reference r cost = record {
  id = env.uuid n;
  product_id = input.product_id;
  stock_item_id = r.stock_item_id;
  batch_code = code_of_adjustment input reference;
  quantity_received = r.base_quantity;
  quantity_remaining = r.base_quantity;
  unit_cost = cost;
  manufacture_date = none;
  expiry_date = none;
  created_at = env.now;
}

-- `input.unitCost ? this.toNonNegativeDecimal(...) : undefined`, where the cost is no text
abbrev pub cost_of_movement : Option ℤ → Action Db (Option UnitCost)
cost_of_movement none = pure none
cost_of_movement (some c) =
    if is_zero c
    then pure none
    else to_non_negative_decimal c >>= λ n. pure (some (record { cost = n; quantity = 1 }))

abbrev pub signed_base : StockAdjustmentInput → ResolvedIdentity → ℤ
signed_base input r = elim (is_negative input.quantity_delta) [
  | true ↦ neg (pos r.base_quantity)
  | false ↦ pos r.base_quantity
]

abbrev pub movement_of_adjustment :
    Env → ℕ → StockAdjustmentInput → ℕ → ResolvedIdentity → Option UnitCost → InventoryMovement
movement_of_adjustment env n input reference r cost = record {
  id = env.uuid n;
  product_id = input.product_id;
  stock_item_id = r.stock_item_id;
  unit_id = r.unit_id;
  type = MovementType.adjustment;
  event_key = none;
  quantity = input.quantity_delta;
  base_quantity = signed_base input r;
  unit_cost = cost;
  reference_type = ReferenceType.adjustment;
  reference_id = reference;
  created_at = env.now;
}

module _ (p : Prisma) (services : StockServices) (sort : OrderBy) (env : Env) where
  -- Up: a batch of its own, and the item's quantity with it.
  pub adjust_up : StockAdjustmentInput → ℕ → ResolvedIdentity → Action Db (Option InventoryBatch)
  adjust_up input reference r = do
    cost ← to_non_negative_decimal (cost_or_zero input.unit_cost)
    drawn ← gets (λ d. d.drawn)
    batch ← create_batch p env (batch_of_adjustment env drawn input reference r cost)
    increment_item_quantity p env (identity_lookup r) r.base_quantity
    register_assets_if_provided p services env r batch.id (magnitude input.quantity_delta)
        input.assets
    pure (some batch)

  -- The movement and the event, whichever way the stock went.
  pub record_adjustment :
      StockAdjustmentInput
      → ℕ
      → ResolvedIdentity
      → InventoryItem
      → Option InventoryBatch
      → List FifoAllocation
      → Action Db AdjustmentResult
  record_adjustment input reference r before batch allocations = do
    item ← gets (find_item_by_identity p env (identity_lookup r))
    cost ← cost_of_movement input.unit_cost
    drawn ← gets (λ d. d.drawn)
    movement ← create_movement p env (movement_of_adjustment env drawn input reference r cost)
    publish p env user_none (
        Event.inventory_adjusted (
          moved_payload movement item (elim batch [ none ↦ none | some b ↦ some b.id ]) allocations
            input.reason))
    pure (record {
      before_item = before;
      item = item;
      allocations = allocations;
      batch = batch;
      movement = movement;
    })

  abbrev pub adjust_resolved_up :
      StockAdjustmentInput → ℕ → ResolvedIdentity → Action Db AdjustmentResult
  adjust_resolved_up input reference r = do
    assert_inbound_configuration p services env r (magnitude input.quantity_delta) input.unit_id
        input.batch_code none none input.serial_numbers input.assets
    before ← upsert_item p env (identity_lookup r)
    batch ← adjust_up input reference r
    record_adjustment input reference r before batch []

  abbrev pub adjust_resolved_down :
      StockAdjustmentInput → ℕ → ResolvedIdentity → Action Db AdjustmentResult
  adjust_resolved_down input reference r = do
    assets ←
        resolve_outbound_asset_ids p services env r (magnitude input.quantity_delta) input.asset_ids
          input.serial_numbers
    before ← upsert_item p env (identity_lookup r)
    allocations ← draw_stock p services sort env input.product_id r
    reads (services.mark_assets_sold assets reference)
    record_adjustment input reference r before none allocations

  pub adjust_in_transaction : StockAdjustmentInput → ℕ → Action Db AdjustmentResult
  adjust_in_transaction input reference = do
    r ← resolve_for_write p (write_of_adjustment input)
    if is_negative input.quantity_delta
        then adjust_resolved_down input reference r
        else adjust_resolved_up input reference r

  abbrev pub log_adjustment : StockAdjustmentInput → AdjustmentResult → Action Db AdjustmentResult
  log_adjustment input result = do
    modify (λ d. record d {
      audit =
          d.audit
          ++ (AuditEntry.stock_moved input.product_id (some result.before_item) (
                moved_payload result.movement result.item
                  (elim result.batch [ none ↦ none | some b ↦ some b.id ]) result.allocations
                  input.reason)
              ∷ []);
    })
    pure result

  unfoldable pub adjust_stock : StockAdjustmentInput → Action Db AdjustmentResult
  adjust_stock input = do
    reference ← or_throw input.reference_id (bad_request "Reference ID is required")
    throw_if (is_zero input.quantity_delta) (bad_request "Quantity delta must not be zero")
    result ← p.transaction Db AdjustmentResult (adjust_in_transaction input reference)
    log_adjustment input result
