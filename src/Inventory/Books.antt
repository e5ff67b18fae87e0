-- ===== src/Inventory/Books.antt =====
-- The stock on hand against the batches it is made of.
pub mod Steps
use central_backend_e_commer.Prelude.{
  ℕ, ◌+◌, ◌-◌, ◌⊎◌, ◌≤◌, ◌≡◌, refl, sym, inl, inr, Bool, true, false, Option, none, some, List, [],
  ◌∷◌, ◌++◌, arith, sum_of, opt_eq, ◌==◌, ◌&&◌, Bool-cases,
}
use central_backend_e_commer.Prisma.{first, count_where, update_where}
use central_backend_e_commer.Prisma.Totals.{sum_of-kept, count_where-kept, count_where-append}
use central_backend_e_commer.Prisma.Keys.{count_where-none}
use central_backend_e_commer.Schema.{Db, InventoryItem, InventoryBatch}
use central_backend_e_commer.Inventory.Queries.{Identity, item_where}

abbrev pub on_hand : List InventoryItem → ℕ
on_hand t = sum_of (λ r. r.quantity_on_hand) t

abbrev pub in_batches : List InventoryBatch → ℕ
in_batches t = sum_of (λ b. b.quantity_remaining) t

-- No two rows are of the same identity.
abbrev pub OneEach : List InventoryItem → Type 0
OneEach t = (i : Identity) → count_where (item_where i) t ≤ 1

-- The stock on hand is short by one number and over by another against the batches.
pub record Off (short over : ℕ) (d : Db) : Type 0 where
  pub tally : on_hand d.items + short ≡ in_batches d.batches + over
  pub one_each : OneEach d.items

-- The stock on hand is what the batches hold, and each identity has one row at most.
abbrev pub Balanced : Db → Type 0
Balanced d = Off 0 0 d

-- As `Off`, where the identity has its row.
pub record OffAt (i : Identity) (short over : ℕ) (d : Db) : Type 0 where
  pub off : Off short over d
  pub one : count_where (item_where i) d.items ≡ 1

-- A write on the quantities keeps the identities apart.
pub update-OneEach :
    (c : InventoryItem → Bool) (f : InventoryItem → InventoryItem)
    → ((i : Identity) (r : InventoryItem) → item_where i (f r) ≡ item_where i r)
    → (t : List InventoryItem) → OneEach t
    → OneEach (update_where c f t)
update-OneEach c f h t one i =
    let e = count_where-kept (λ r. r.quantity_on_hand) c f (item_where i) (h i) t in rw e (one i)

-- An identity that a row meets is met by no other row, if the row's own is not.
clash :
    (i j : Identity) (t : List InventoryItem) (r : InventoryItem)
    → r.product_id ≡ i.product_id
    → r.stock_item_id ≡ i.stock_item_id
    → item_where j r ≡ true
    → (x : InventoryItem) → item_where j x ≡ item_where i x
clash i j t r p s m x = ground arith

pub append-OneEach :
    (i : Identity) (t : List InventoryItem) (r : InventoryItem)
    → first (item_where i) t ≡ none
    → r.product_id ≡ i.product_id
    → r.stock_item_id ≡ i.stock_item_id
    → OneEach t
    → OneEach (t ++ (r ∷ []))
append-OneEach i t r miss p s one j = elim (Bool-cases (item_where j r)) [
  | inl m ↦
      let same : item_where j ≡ item_where i = λ k x. clash i j t r p s m x k in
      let none_there : count_where (item_where j) t ≡ 0 =
        rw same (count_where-none (item_where i) t miss) in
      ground (arith, count_where-append (item_where j) t (r ∷ []))
  | inr m ↦ ground (arith, count_where-append (item_where j) t (r ∷ []), one j)
]

-- A write on what is reserved, if there is one, leaves the books as they were.
pub reserved_update-Off :
    (c : InventoryItem → Bool) (f : InventoryItem → InventoryItem) (d d' : Db)
    → ((r : InventoryItem) → (f r).quantity_on_hand ≡ r.quantity_on_hand)
    → ((i : Identity) (r : InventoryItem) → item_where i (f r) ≡ item_where i r)
    → (d'.items ≡ d.items) ⊎ (d'.items ≡ update_where c f d.items)
    → d'.batches ≡ d.batches
    → Off 0 0 d
    → Off 0 0 d'
reserved_update-Off c f d d' n w (inl e) b h = record {
  tally = rw (e, b) h.tally;
  one_each = rw e h.one_each;
}
reserved_update-Off c f d d' n w (inr e) b h = record {
  tally = rw (e, b, sum_of-kept (λ r. r.quantity_on_hand) c f n d.items) h.tally;
  one_each = rw e (update-OneEach c f w d.items h.one_each);
}
