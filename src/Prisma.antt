-- ===== src/Prisma.antt =====
-- The database client (`@prisma/client`), which the sources call and do not hold: a parameter of
-- the model. A table is the list of its rows in the order of insertion.
mod Rows
pub mod Keys
pub mod Sums
pub mod Found
pub mod Totals
pub use Rows.{first, matching, count_where, update_where, updated, sum_where}
use central_backend_e_commer.Prelude.{
  ℕ, ◌≡◌, refl, Bool, Option, none, some, List, [], ◌∷◌, ◌++◌, any, if◌then◌else◌,
}
use central_backend_e_commer.Prelude.Int.{ℤ}
use central_backend_e_commer.Action.{Action, Result, ok, err}

-- The `orderBy` of a query, which the database does: rows by an order that it is given.
abbrev pub OrderBy : Type 1
OrderBy = (Row : Type 0) → (Row → Row → Bool) → List Row → List Row

-- What the repositories call, each on one table, and `$transaction`.
pub record Prisma : Type 1 where
  -- `findUnique` and `findFirst`
  pub find_first : (Row : Type 0) → (Row → Bool) → List Row → Option Row
  -- `findMany`, with no `orderBy`
  pub find_many : (Row : Type 0) → (Row → Bool) → List Row → List Row
  -- `updateMany`: how many rows met the condition, and the table after
  pub update_many : (Row : Type 0) → (Row → Bool) → (Row → Row) → List Row → ℕ × List Row
  -- `update`, on a unique column: the row after and the table after; `none` is P2025, no such row
  pub update : (Row : Type 0) → (Row → Bool) → (Row → Row) → List Row → Option (Row × List Row)
  -- `create`; `none` is P2002, that a row of the table conflicts on a unique column
  pub create : (Row : Type 0) → (Row → Bool) → Row → List Row → Option (List Row)
  -- `create`, where every unique column holds a value that no row has
  pub insert : (Row : Type 0) → Row → List Row → List Row
  -- `aggregate` with `_sum`, with zero for `null`
  pub sum : (Row : Type 0) → (Row → Bool) → (Row → ℤ) → List Row → ℤ
  -- `$transaction(callback)`
  pub transaction : (S A : Type 0) → Action S A → Action S A

-- The outcome of a transaction: what the callback wrote is kept if it returns, and rolled back if
-- it throws.
abbrev pub commit : {S A : Type 0} → S → Result A × S → Result A × S
commit s (ok a, s') = (ok a, s')
commit s (err e, s') = (err e, s)

-- The documented behaviour of the client.
pub record Laws (p : Prisma) : Type 1 where
  pub finds_first : (R : Type 0) (c : R → Bool) (t : List R) → p.find_first R c t ≡ first c t
  pub finds_many : (R : Type 0) (c : R → Bool) (t : List R) → p.find_many R c t ≡ matching c t
  pub updates_many :
      (R : Type 0) (c : R → Bool) (f : R → R) (t : List R)
      → p.update_many R c f t ≡ (count_where c t, update_where c f t)
  pub updates :
      (R : Type 0) (c : R → Bool) (f : R → R) (t : List R) → p.update R c f t ≡ updated c f t
  pub creates :
      (R : Type 0) (c : R → Bool) (r : R) (t : List R)
      → p.create R c r t ≡ (if any c t then none else some (t ++ (r ∷ [])))
  pub inserts : (R : Type 0) (r : R) (t : List R) → p.insert R r t ≡ t ++ (r ∷ [])
  pub sums : (R : Type 0) (c : R → Bool) (f : R → ℤ) (t : List R) → p.sum R c f t ≡ sum_where c f t
  pub commits : (S A : Type 0) (m : Action S A) (s : S) → p.transaction S A m s ≡ commit s (m s)

-- The client that runs: the laws read as definitions.
abbrev pub list_client : Prisma
list_client = record {
  find_first = λ R c t. first c t;
  find_many = λ R c t. matching c t;
  update_many = λ R c f t. (count_where c t, update_where c f t);
  update = λ R c f t. updated c f t;
  create = λ R c r t. if any c t then none else some (t ++ (r ∷ []));
  insert = λ R r t. t ++ (r ∷ []);
  sum = λ R c f t. sum_where c f t;
  transaction = λ S A m s. commit s (m s);
}

abbrev pub list_client-Laws : Laws list_client
list_client-Laws = record {
  finds_first = λ R c t. refl;
  finds_many = λ R c t. refl;
  updates_many = λ R c f t. refl;
  updates = λ R c f t. refl;
  creates = λ R c r t. refl;
  inserts = λ R r t. refl;
  sums = λ R c f t. refl;
  commits = λ S A m s. refl;
}

-- A client that behaves as documented is the one above, so a proof may compute with that one.
pub client-eq : {p : Prisma} → Laws p → p ≡ list_client
client-eq {p} l = λ i. record {
  find_first = λ R c t. l.finds_first R c t i;
  find_many = λ R c t. l.finds_many R c t i;
  update_many = λ R c f t. l.updates_many R c f t i;
  update = λ R c f t. l.updates R c f t i;
  create = λ R c r t. l.creates R c r t i;
  insert = λ R r t. l.inserts R r t i;
  sum = λ R c f t. l.sums R c f t i;
  transaction = λ S A m s. l.commits S A m s i;
}
