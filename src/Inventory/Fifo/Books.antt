-- ===== src/Inventory/Fifo/Books.antt =====
-- What `FifoService.consume` does to the balance of the books, whichever batches it draws from.
use central_backend_e_commer.Prelude.{
  ℕ, ◌+◌, ◌-◌, ◌≡◌, Option, List, [], ◌∷◌, arith, leb, ltb, inl, inr, Bool-cases,
}
use central_backend_e_commer.Action.{bad_request, conflict}
use central_backend_e_commer.Action.Leads.{
  Leads, Leads-bind, Leads-pure, Leads-gets, Leads-throw_if, Leads-test, Leads-shift,
}
use central_backend_e_commer.Prisma.{list_client, OrderBy}
use central_backend_e_commer.Schema.{Env, InventoryBatch}
use central_backend_e_commer.Inventory.Fifo.{
  consumed_from, consume_from, consume, find_candidate_batches,
}
use central_backend_e_commer.Inventory.Books.{Off}
use central_backend_e_commer.Inventory.Books.Steps.{decrement_batch-Off}

-- The loop that draws `q` leaves the items over by as much more.
consume_from-Off :
    (env : Env) (bs : List InventoryBatch) (q over : ℕ)
    → Leads (Off 0 over) (consume_from list_client env bs q) (λ _. Off 0 (over + q))
unfolding consume_from
consume_from-Off env [] q over =
    Leads-bind _ _ _ (Leads-throw_if (ltb 0 q) (bad_request "Insufficient inventory")) λ u. record {
      holds = λ d h. let none_left : over + q ≡ over = ground (arith, h.1) in rw none_left h.0;
    }
consume_from-Off env (b ∷ bs) q over = elim (Bool-cases (leb q 0)) [
  | inl m ↦ let same : over + q ≡ over = ground arith in rw (m, consume_from, same) (Leads-pure [])
  | inr m ↦
      let taken = consumed_from b q in
      let all : over + q ≡ over + taken + (q - taken) = ground arith in
      rw (m, consume_from, all)
        (Leads-bind _ _ _
          (decrement_batch-Off env b.id taken over
            (conflict "Inventory batch was updated concurrently"))
          λ u.
            Leads-bind _ _ _ (consume_from-Off env bs (q - taken) (over + taken)) λ x. Leads-pure _)
]

pub consume-Off :
    (sort : OrderBy) (env : Env) (product_id : ℕ) (s : Option ℕ) (q : ℕ)
    → Leads (Off 0 0) (consume list_client env sort product_id s q) (λ _. Off 0 q)
unfolding consume
consume-Off sort env product_id s q =
    Leads-bind _ _ _ (Leads-test (leb q 0) (bad_request "Quantity must be greater than zero")) λ u.
      Leads-bind _ _ _ (Leads-gets (find_candidate_batches list_client env sort product_id s)) λ bs.
        Leads-shift _ (λ x d h. record { tally = omega (arith, h.tally); one_each = h.one_each })
          (consume_from-Off env bs q 0)
