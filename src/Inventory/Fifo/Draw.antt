-- ===== src/Inventory/Fifo/Draw.antt =====
-- The loop of `consume` against the plan of what it means to draw.
use central_backend_e_commer.Prelude.{
  ℕ, ◌+◌, ◌-◌, ◌≤◌, ◌<◌, ◌≡◌, refl, Bool, true, false, none, some, List, [], ◌∷◌, arith, leb, ◌==◌,
  ◌&&◌, All, sum_of, inl, inr, Bool-cases,
}
use central_backend_e_commer.Action.{ok, err, bad_request}
use central_backend_e_commer.Prisma.{list_client, first, count_where, update_where}
use central_backend_e_commer.Prisma.Keys.{
  Keyed, first-update, update_where-Keyed, count_where-one, sum_of-update_where,
}
use central_backend_e_commer.Schema.{Db, Env, InventoryBatch}
use central_backend_e_commer.Inventory.Fifo.{
  FifoAllocation, allocation, consumed_from, consume_from,
}

abbrev pub id_of : InventoryBatch → ℕ
id_of b = b.id

abbrev pub remaining_of : InventoryBatch → ℕ
remaining_of b = b.quantity_remaining

-- What the loop means to draw: from each batch as much as is left to draw, while anything is.
abbrev pub plan : List InventoryBatch → ℕ → List FifoAllocation
plan [] q = []
plan (b ∷ bs) q =
    let rest = plan bs (q - consumed_from b q) in
    elim (leb q 0) [ true ↦ [] | false ↦ allocation b (consumed_from b q) ∷ rest ]

-- The batch stands in the table as it was read.
abbrev pub Stands : List InventoryBatch → InventoryBatch → Type 0
Stands t b = first (λ x. x.id == b.id) t ≡ some b

abbrev covers : ℕ → InventoryBatch → Bool
covers q b = leb q b.quantity_remaining

abbrev less : ℕ → InventoryBatch → InventoryBatch
less q b = record b { quantity_remaining = b.quantity_remaining - q }

abbrev drawn_from : ℕ → ℕ → List InventoryBatch → List InventoryBatch
drawn_from k q t = update_where (λ b. b.id == k && covers q b) (less q) t

others_stand :
    (k q : ℕ) (t rest : List InventoryBatch)
    → first (λ x. x.id == k) rest ≡ none
    → All (Stands t) rest
    → All (Stands (drawn_from k q t)) rest
others_stand k q t [] e h = tt
others_stand k q t (b ∷ rest) e h = ground (
  arith,
  first-update id_of (λ x. x.id == k && covers q x) (less q) (λ x. refl) b.id t,
  others_stand k q t rest,
)

abbrev drawn_db : InventoryBatch → ℕ → Db → Db
drawn_db b q d = record d { batches = drawn_from b.id q d.batches }

-- One round that meets its batch, and what the rounds after it make of the rest.
round :
    (env : Env) (b : InventoryBatch) (bs : List InventoryBatch) (q : ℕ) (d : Db)
    → leb q 0 ≡ false
    → count_where (λ x. x.id == b.id && covers (consumed_from b q) x) d.batches ≡ 1
    → consume_from list_client env (b ∷ bs) q d ≡ (
        let (r, d') =
          consume_from list_client env bs
            (q - consumed_from b q)
            (drawn_db b (consumed_from b q) d) in
        (elim r [ ok a ↦ ok (allocation b (consumed_from b q) ∷ a) | err e ↦ err e ], d'))
unfolding consume_from
round env b bs q d more one = ground arith

-- With enough in the batches the loop draws the plan, and the table has as much less in it.
pub consume_from-enough :
    (env : Env) (bs : List InventoryBatch) (q : ℕ) (d : Db)
    → Keyed id_of d.batches
    → Keyed id_of bs
    → All (Stands d.batches) bs
    → q ≤ sum_of remaining_of bs
    → let (r, d') = consume_from list_client env bs q d in
      (r ≡ ok (plan bs q))
      × (sum_of remaining_of d'.batches + q ≡ sum_of remaining_of d.batches)
      × (d' ≡ record d { batches = d'.batches })
unfolding consume_from
consume_from-enough env [] q d u v h enough = ground arith
consume_from-enough env (b ∷ bs) q d u v h enough = elim (Bool-cases (leb q 0)) [
  | inl zero_left ↦ ground arith
  | inr more ↦
      let q' = consumed_from b q in
      let fits : covers q' b ≡ true = ground arith in
      let one = count_where-one id_of b.id (covers q') d.batches b u h.0 fits in
      let lost =
        sum_of-update_where id_of remaining_of q' b.id (covers q') (less q') d.batches b u h.0 fits
          (ground arith) in
      let d1 = drawn_db b q' d in
      let later =
        consume_from-enough env bs (q - q') d1
          (update_where-Keyed id_of (λ x. x.id == b.id && covers q' x) (less q') (λ x. refl)
            d.batches u)
          v.1 (others_stand b.id q' d.batches bs v.0 h.1) (ground arith) in
      rw (round env b bs q d more one, later.0) (ground arith)
]

pub plan-sum :
    (bs : List InventoryBatch) (q : ℕ)
    → q ≤ sum_of remaining_of bs
    → sum_of (λ a. a.quantity) (plan bs q) ≡ q
plan-sum [] q enough = ground arith
plan-sum (b ∷ bs) q enough = ground (arith, plan-sum bs (q - consumed_from b q))

-- With too little in the batches the loop fails.
pub consume_from-short :
    (env : Env) (bs : List InventoryBatch) (q : ℕ) (d : Db)
    → Keyed id_of d.batches
    → Keyed id_of bs
    → All (Stands d.batches) bs
    → sum_of remaining_of bs < q
    → (consume_from list_client env bs q d).0 ≡ err (bad_request "Insufficient inventory")
unfolding consume_from
consume_from-short env [] q d u v h short = ground arith
consume_from-short env (b ∷ bs) q d u v h short =
    let q' = consumed_from b q in
    let one = count_where-one id_of b.id (covers q') d.batches b u h.0 (ground arith) in
    let later =
      consume_from-short env bs (q - q') (drawn_db b q' d)
        (update_where-Keyed id_of (λ x. x.id == b.id && covers q' x) (less q') (λ x. refl) d.batches
          u)
        v.1 (others_stand b.id q' d.batches bs v.0 h.1) (ground arith) in
    rw (round env b bs q d (ground arith) one, later) refl
