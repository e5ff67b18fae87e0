-- ===== src/Inventory/Fifo.antt =====
-- `FifoService.consume` over the batches that `BatchService.findFifoBatches` finds.
pub mod Draw
pub mod Consume
pub mod Books
use central_backend_e_commer.Prelude.{
  ℕ, ◌-◌, Bool, true, false, Option, none, some, List, [], ◌∷◌, ◌++◌, not, ltb, leb, ◌==◌,
  if◌then◌else◌,
}
use central_backend_e_commer.Action.{
  Action, Result, ok, err, bad_request, conflict, pure, gets, throw_if, ◌>>=◌, ◌>>◌,
}
use central_backend_e_commer.Prisma.{Prisma, OrderBy}
use central_backend_e_commer.Schema.{Db, Env, InventoryBatch}
use central_backend_e_commer.Inventory.Queries.{
  decrement_batch_quantity, find_expiring_batches, find_non_expiring_batches,
}

pub record FifoAllocation : Type 0 where
  pub batch_id : ℕ
  pub quantity : ℕ
  pub unit_cost : ℕ

abbrev pub expiry : InventoryBatch → ℕ
expiry b = elim b.expiry_date [ none ↦ 0 | some t ↦ t ]

-- `[{ expiryDate: 'asc' }, { createdAt: 'asc' }]`
abbrev pub expires_first : InventoryBatch → InventoryBatch → Bool
expires_first a b =
    if expiry a == expiry b then leb a.created_at b.created_at else leb (expiry a) (expiry b)

abbrev pub older : InventoryBatch → InventoryBatch → Bool
older a b = leb a.created_at b.created_at

abbrev pub consumed_from : InventoryBatch → ℕ → ℕ
consumed_from b remaining =
    if ltb b.quantity_remaining remaining then b.quantity_remaining else remaining

abbrev pub allocation : InventoryBatch → ℕ → FifoAllocation
allocation b q = record { batch_id = b.id; quantity = q; unit_cost = b.unit_cost }

module _ (p : Prisma) (env : Env) where
  abbrev pub find_fifo_batches : OrderBy → ℕ → Option (Option ℕ) → Db → List InventoryBatch
  find_fifo_batches sort product_id s d =
      let expiring =
        sort InventoryBatch expires_first (find_expiring_batches p env product_id s d) in
      let others = sort InventoryBatch older (find_non_expiring_batches p env product_id s d) in
      elim expiring [ [] ↦ others | b ∷ rest ↦ (b ∷ rest) ++ others ]

  -- `findCandidateBatches`: a missing stock item is passed on as `undefined`.
  abbrev pub find_candidate_batches : OrderBy → ℕ → Option ℕ → Db → List InventoryBatch
  find_candidate_batches sort product_id none = find_fifo_batches sort product_id none
  find_candidate_batches sort product_id (some s) =
      find_fifo_batches sort product_id (some (some s))

  -- One round of the loop.
  abbrev take_from : InventoryBatch → ℕ → Action Db (Unit {0})
  take_from b q = do
    count ← decrement_batch_quantity p env b.id q
    throw_if (not (count == 1)) (conflict "Inventory batch was updated concurrently")

  -- The loop from a batch on, with the quantity that remains, and the check after it.
  unfoldable pub consume_from : List InventoryBatch → ℕ → Action Db (List FifoAllocation)
  consume_from [] remaining = do
    throw_if (ltb 0 remaining) (bad_request "Insufficient inventory")
    pure []
  consume_from (b ∷ rest) remaining =
      let q = consumed_from b remaining in
      let later = consume_from rest (remaining - q) in
      elim (leb remaining 0) [
        | true ↦ pure []
        | false ↦
            take_from b q >>= λ _. later >>= λ allocations. pure (allocation b q ∷ allocations)
      ]

  unfoldable pub consume : OrderBy → ℕ → Option ℕ → ℕ → Action Db (List FifoAllocation)
  unfolding consume_from
  consume sort product_id stock_item_id quantity = do
    throw_if (leb quantity 0) (bad_request "Quantity must be greater than zero")
    batches ← gets (find_candidate_batches sort product_id stock_item_id)
    consume_from batches quantity
