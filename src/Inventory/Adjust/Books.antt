-- ===== src/Inventory/Adjust/Books.antt =====
-- What the transaction of `adjustStock` does to the balance of the books.
use central_backend_e_commer.Prelude.{ℕ, refl, Option, none, some, List, [], arith}
use central_backend_e_commer.Action.Leads.{
  Leads, Leads-bind, Leads-pure, Leads-gets, Leads-if, Leads-weaken,
}
use central_backend_e_commer.Prisma.{list_client, OrderBy}
use central_backend_e_commer.Schema.{Env, InventoryBatch, InventoryItem}
use central_backend_e_commer.Inventory.Identity.{ResolvedIdentity}
use central_backend_e_commer.Inventory.Services.{StockServices, reads, identity_lookup}
use central_backend_e_commer.Inventory.Fifo.{FifoAllocation}
use central_backend_e_commer.Inventory.Moves.Books.{inbound-Aside, register-Aside, to_decimal-Aside}
use central_backend_e_commer.Inventory.StockOut.Books.{draw_stock-Off}
use central_backend_e_commer.Inventory.Adjust.{
  StockAdjustmentInput, magnitude, is_negative, cost_or_zero, write_of_adjustment,
  batch_of_adjustment, adjust_up, record_adjustment, adjust_resolved_up, adjust_resolved_down,
  adjust_in_transaction,
}
use central_backend_e_commer.Inventory.Books.{Off, OffAt}
use central_backend_e_commer.Inventory.Books.Steps.{
  Aside, Aside-Off, upsert-OffAt, Aside-OffAt, create_batch-OffAt, increment-OffAt, resolve-Aside,
  assets-Aside,
}

module _ (s : StockServices) (sort : OrderBy) (env : Env) where
  adjust_up-Off :
      (input : StockAdjustmentInput) (n : ℕ) (r : ResolvedIdentity)
      → Leads
          (OffAt (identity_lookup r) 0 0)
          (adjust_up list_client s sort env input n r)
          (λ _. Off 0 0)
  unfolding adjust_up
  adjust_up-Off input n r =
      Leads-bind _ _ _ (Aside-OffAt _ 0 0 _ (to_decimal-Aside s env (cost_or_zero input.unit_cost)))
        λ cost. Leads-bind _ _ _ (Leads-gets (λ d. d.drawn)) λ drawn.
          Leads-bind _ _ _
            (create_batch-OffAt env (batch_of_adjustment env drawn input n r cost)
              (identity_lookup r))
            λ batch. Leads-bind _ _ _ (increment-OffAt env (identity_lookup r) r.base_quantity) λ u.
              Leads-bind _ _ _
                (Aside-Off 0 0 _
                  (register-Aside s env r batch.id (magnitude input.quantity_delta) input.assets))
                λ v. Leads-pure (some batch)

  record_adjustment-Aside :
      (input : StockAdjustmentInput) (n : ℕ) (r : ResolvedIdentity) (before : InventoryItem)
      (batch : Option InventoryBatch) (allocations : List FifoAllocation)
      → Aside (record_adjustment list_client s sort env input n r before batch allocations)
  unfolding record_adjustment
  record_adjustment-Aside input n r before batch allocations = record {
    items = λ d. ground arith;
    batches = λ d. ground arith;
  }

  up-Off :
      (input : StockAdjustmentInput) (n : ℕ) (r : ResolvedIdentity)
      → Leads (Off 0 0) (adjust_resolved_up list_client s sort env input n r) (λ _. Off 0 0)
  up-Off input n r =
      Leads-bind _ _ _
        (Aside-Off 0 0 _ (
          inbound-Aside s env r (magnitude input.quantity_delta) input.unit_id input.batch_code none
            none input.serial_numbers input.assets))
        λ u. Leads-bind _ _ _ (upsert-OffAt env (identity_lookup r) 0 0) λ before.
          Leads-bind _ _ _ (adjust_up-Off input n r)
            λ batch. Aside-Off 0 0 _ (record_adjustment-Aside input n r before batch [])

  down-Off :
      (input : StockAdjustmentInput) (n : ℕ) (r : ResolvedIdentity)
      → Leads (Off 0 0) (adjust_resolved_down list_client s sort env input n r) (λ _. Off 0 0)
  down-Off input n r =
      Leads-bind _ _ _
        (Aside-Off 0 0 _ (
          assets-Aside s env r (magnitude input.quantity_delta) input.asset_ids
            input.serial_numbers))
        λ assets. Leads-bind _ _ _ (upsert-OffAt env (identity_lookup r) 0 0) λ before.
          Leads-bind _ _ _
            (Leads-weaken _ (λ d h. h.off) (draw_stock-Off s sort env input.product_id r))
            λ allocations.
              Leads-bind _ _ _
                (Aside-Off 0 0 (reads (s.mark_assets_sold assets n))
                  (record { items = λ d. refl; batches = λ d. refl }))
                λ u. Aside-Off 0 0 _ (record_adjustment-Aside input n r before none allocations)

  pub adjust_transaction-Off :
      (input : StockAdjustmentInput) (n : ℕ)
      → Leads (Off 0 0) (adjust_in_transaction list_client s sort env input n) (λ _. Off 0 0)
  unfolding adjust_in_transaction
  adjust_transaction-Off input n =
      Leads-bind _ _ _ (Aside-Off 0 0 _ (resolve-Aside (write_of_adjustment input)))
        λ r. Leads-if (is_negative input.quantity_delta) _ _ (down-Off input n r) (up-Off input n r)
