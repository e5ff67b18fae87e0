-- ===== src/Inventory/Fifo/Consume.antt =====
-- What `FifoService.consume` promises its callers.
use central_backend_e_commer.Prelude.{
  ℕ, ◌+◌, ◌≤◌, ◌<◌, ◌≡◌, Option, List, false, leb, arith, All, sum_of,
}
use central_backend_e_commer.Action.{ok, err, bad_request}
use central_backend_e_commer.Prisma.{Prisma, Laws, list_client, client-eq, OrderBy}
use central_backend_e_commer.Prisma.Keys.{Keyed}
use central_backend_e_commer.Schema.{Db, Env, InventoryBatch}
use central_backend_e_commer.Inventory.Fifo.{FifoAllocation, find_candidate_batches, consume}
use central_backend_e_commer.Inventory.Fifo.Draw.{
  id_of, remaining_of, plan, plan-sum, Stands, consume_from-enough, consume_from-short,
}

-- The candidates are rows of the table, each of them once: what a query gives, in any order.
abbrev pub AreRows : List InventoryBatch → List InventoryBatch → Type 0
AreRows t bs = Keyed id_of t × Keyed id_of bs × All (Stands t) bs

-- The two outcomes with the client that runs, from what the loop does.
enough_list :
    (env : Env) (sort : OrderBy) (product_id : ℕ) (s : Option ℕ) (q : ℕ) (d : Db)
    → 1 ≤ q
    → AreRows d.batches (find_candidate_batches list_client env sort product_id s d)
    → q ≤ sum_of remaining_of (find_candidate_batches list_client env sort product_id s d)
    → let (r, d') = consume list_client env sort product_id s q d in
      let drawn = plan (find_candidate_batches list_client env sort product_id s d) q in
      (r ≡ ok drawn)
      × (sum_of (λ a. a.quantity) drawn ≡ q)
      × (sum_of remaining_of d'.batches + q ≡ sum_of remaining_of d.batches)
      × (d' ≡ record d { batches = d'.batches })
unfolding consume
enough_list env sort product_id s q d some_q rows enough =
    let bs = find_candidate_batches list_client env sort product_id s d in
    let sums = plan-sum bs q enough in
    let loop = consume_from-enough env bs q d rows.0 rows.1 rows.2 enough in
    let positive : leb q 0 ≡ false = ground arith in rw positive (loop.0, sums, loop.1, loop.2)

short_list :
    (env : Env) (sort : OrderBy) (product_id : ℕ) (s : Option ℕ) (q : ℕ) (d : Db)
    → AreRows d.batches (find_candidate_batches list_client env sort product_id s d)
    → sum_of remaining_of (find_candidate_batches list_client env sort product_id s d) < q
    → (consume list_client env sort product_id s q d).0 ≡ err (bad_request "Insufficient inventory")
unfolding consume
short_list env sort product_id s q d rows short =
    let bs = find_candidate_batches list_client env sort product_id s d in
    let loop = consume_from-short env bs q d rows.0 rows.1 rows.2 short in
    let positive : leb q 0 ≡ false = ground arith in rw positive loop

-- If at least one unit is asked for and the candidate batches, which are rows of the table and
-- each of them once, hold that many, `consume` returns the plan of drawing each batch in the
-- query's order as far as it is needed; the allocations add up to the quantity, the remaining
-- quantities of the table together go down by it, and no other table changes.
pub consume-enough :
    {p : Prisma}
    → Laws p
    → (env : Env) (sort : OrderBy) (product_id : ℕ) (s : Option ℕ) (q : ℕ) (d : Db) → 1 ≤ q
    → AreRows d.batches (find_candidate_batches p env sort product_id s d)
    → q ≤ sum_of remaining_of (find_candidate_batches p env sort product_id s d)
    → let (r, d') = consume p env sort product_id s q d in
      let drawn = plan (find_candidate_batches p env sort product_id s d) q in
      (r ≡ ok drawn)
      × (sum_of (λ a. a.quantity) drawn ≡ q)
      × (sum_of remaining_of d'.batches + q ≡ sum_of remaining_of d.batches)
      × (d' ≡ record d { batches = d'.batches })
consume-enough laws env sort product_id s q d some_q rows enough = rw (client-eq laws) (
    let same = client-eq laws in
    enough_list env sort product_id s q d some_q (rw same at rows) (rw same at enough))

-- If the candidate batches, which are rows of the table and each of them once, hold less than what
-- is asked for, `consume` fails with "Insufficient inventory", and the transaction around it
-- leaves the database as it was, the batches that the loop had drawn from included.
pub consume-short :
    {p : Prisma}
    → Laws p
    → (env : Env) (sort : OrderBy) (product_id : ℕ) (s : Option ℕ) (q : ℕ) (d : Db)
    → AreRows d.batches (find_candidate_batches p env sort product_id s d)
    → sum_of remaining_of (find_candidate_batches p env sort product_id s d) < q
    → p.transaction Db (List FifoAllocation) (consume p env sort product_id s q) d
      ≡ (err (bad_request "Insufficient inventory"), d)
consume-short {p} laws env sort product_id s q d rows short = rw (client-eq laws) (
    let same = client-eq laws in
    let e = short_list env sort product_id s q d (rw same at rows) (rw same at short) in
    ground arith)
