-- ===== src/Prisma/Keys.antt =====
-- Tables with a primary key, and writes through the key.
use central_backend_e_commer.Prelude.{
  ℕ, ◌≡◌, refl, inl, inr, Bool, true, false, none, some, List, [], ◌∷◌, ◌++◌, arith, ◌==◌,
  Bool-cases, if◌then◌else◌, ◌&&◌, ◌+◌, sum_of,
}
use mathlib.Core.Option.{map as map_option}
use central_backend_e_commer.Prisma.Rows.{first, count_where, update_where}

module _ {Row : Type 0} where
  -- The rows of two tables are related one by one.
  abbrev pub Pointwise : (Row → Row → Type 0) → List Row → List Row → Type 0
  Pointwise R [] [] = Unit
  Pointwise R (x ∷ xs) (y ∷ ys) = R x y × Pointwise R xs ys
  Pointwise R _ _ = ⊥

  pub Pointwise-refl :
      (R : Row → Row → Type 0) → ((x : Row) → R x x) → (t : List Row) → Pointwise R t t
  Pointwise-refl R h [] = tt
  Pointwise-refl R h (x ∷ t) = (h x, Pointwise-refl R h t)

  -- What an update does to the rows that meet its condition, it does to the table.
  pub Pointwise-update :
      (R : Row → Row → Type 0)
      → ((x : Row) → R x x)
      → (c : Row → Bool) (f : Row → Row) → ((x : Row) → c x ≡ true → R x (f x))
      → (t : List Row) → Pointwise R t (update_where c f t)
  Pointwise-update R h c f k [] = tt
  Pointwise-update R h c f k (x ∷ t) = elim (Bool-cases (c x)) [
    | inl m ↦ rw m (k x m, Pointwise-update R h c f k t)
    | inr m ↦ rw m (h x, Pointwise-update R h c f k t)
  ]

  pub Pointwise-chain :
      (R : Row → Row → Type 0)
      → ((x y z : Row) → R x y → R y z → R x z)
      → (t u v : List Row) → Pointwise R t u
      → Pointwise R u v
      → Pointwise R t v
  Pointwise-chain R h [] [] [] a b = tt
  Pointwise-chain R h (x ∷ t) (y ∷ u) (z ∷ v) a b =
      (h x y z a.0 b.0, Pointwise-chain R h t u v a.1 b.1)
  Pointwise-chain R h [] [] (z ∷ v) a b = elim b [ ]
  Pointwise-chain R h [] (y ∷ u) v a b = elim a [ ]
  Pointwise-chain R h (x ∷ t) [] v a b = elim a [ ]
  Pointwise-chain R h (x ∷ t) (y ∷ u) [] a b = elim b [ ]

  -- What no row meets, changes no row.
  pub update_where-none :
      (c : Row → Bool) (f : Row → Row) (t : List Row) → first c t ≡ none → update_where c f t ≡ t
  update_where-none c f [] h = refl
  update_where-none c f (r ∷ t) h = ground (arith, update_where-none c f t)

  pub count_where-none : (c : Row → Bool) (t : List Row) → first c t ≡ none → count_where c t ≡ 0
  count_where-none c [] h = refl
  count_where-none c (r ∷ t) h = ground (arith, count_where-none c t)

  -- What is found before a row was appended is found after.
  pub first-append :
      (c : Row → Bool) (t u : List Row)
      → first c (t ++ u) ≡ elim (first c t) [ none ↦ first c u | some r ↦ some r ]
  first-append c [] u = refl
  first-append c (r ∷ t) u = ground (arith, first-append c t u)

  -- The row that is found meets the condition.
  pub first_meets : (c : Row → Bool) (t : List Row) (r : Row) → first c t ≡ some r → c r ≡ true
  first_meets c [] r h = cc
  first_meets c (x ∷ t) r h = ground (arith, first_meets c t r)

module _ {Row : Type 0} (key : Row → ℕ) where
  -- No two rows have the same key.
  abbrev pub Keyed : List Row → Type 0
  Keyed [] = Unit
  Keyed (r ∷ t) = (first (λ x. key x == key r) t ≡ none) × Keyed t

  -- A row that is read through a key has that key.
  pub first_has_key :
      (k : ℕ) (t : List Row) (r : Row) → first (λ x. key x == k) t ≡ some r → key r ≡ k
  first_has_key k t r e = let m = first_meets (λ x. key x == k) t r e in ground arith

  -- So it is read through its own key.
  pub first_own :
      (k : ℕ) (t : List Row) (r : Row)
      → first (λ x. key x == k) t ≡ some r
      → first (λ x. key x == key r) t ≡ some r
  first_own k t r e = rw (first_has_key k t r e) e

  -- Behind the row that has the key, no row has it.
  tail-none :
      (k : ℕ) (x : Row) (t : List Row)
      → Keyed (x ∷ t)
      → (key x == k) ≡ true
      → first (λ y. key y == k) t ≡ none
  tail-none k x t u m = let same : key x ≡ k = ground arith in rw (same) at u.0

  weaker-none :
      (k : ℕ) (g : Row → Bool) (t : List Row)
      → first (λ y. key y == k) t ≡ none
      → first (λ y. key y == k && g y) t ≡ none
  weaker-none k g [] e = refl
  weaker-none k g (x ∷ t) e = ground (arith, weaker-none k g t)

  -- A write through the key changes the row that a read through it finds, and no other.
  pub update_where-Pointwise :
      (R : Row → Row → Type 0)
      → ((x : Row) → R x x)
      → (k : ℕ) (f : Row → Row) (t : List Row) (r : Row) → Keyed t
      → first (λ x. key x == k) t ≡ some r
      → R r (f r)
      → Pointwise R t (update_where (λ x. key x == k) f t)
  update_where-Pointwise R h k f [] r u e s = cc
  update_where-Pointwise R h k f (x ∷ t) r u e s = elim (Bool-cases (key x == k)) [
    | inl m ↦
        let same : x ≡ r = ground arith in
        rw (m, update_where-none _ f t (tail-none k x t u m), same) (s, Pointwise-refl R h t)
    | inr m ↦ rw m (h x, update_where-Pointwise R h k f t r u.1 (ground arith) s)
  ]

  -- A write that asks for a key and for more meets exactly one row, if the row with the key is
  -- as it asks.
  pub count_where-one :
      (k : ℕ) (g : Row → Bool) (t : List Row) (r : Row)
      → Keyed t
      → first (λ x. key x == k) t ≡ some r
      → g r ≡ true
      → count_where (λ x. key x == k && g x) t ≡ 1
  count_where-one k g [] r u e m = cc
  count_where-one k g (x ∷ t) r u e m = elim (Bool-cases (key x == k)) [
    | inl hit ↦ ground (
      arith,
      count_where-none (λ y. key y == k && g y) t (weaker-none k g t (tail-none k x t u hit)),
    )
    | inr miss ↦ ground (arith, count_where-one k g t r u.1)
  ]

  -- A number summed over the rows goes down by what the one row loses.
  pub sum_of-update_where :
      (n : Row → ℕ) (lost : ℕ) (k : ℕ) (g : Row → Bool) (f : Row → Row) (t : List Row) (r : Row)
      → Keyed t
      → first (λ x. key x == k) t ≡ some r
      → g r ≡ true
      → n (f r) + lost ≡ n r
      → sum_of n (update_where (λ x. key x == k && g x) f t) + lost ≡ sum_of n t
  sum_of-update_where n lost k g f [] r u e m h = cc
  sum_of-update_where n lost k g f (x ∷ t) r u e m h = elim (Bool-cases (key x == k)) [
    | inl hit ↦ ground (
      arith,
      update_where-none (λ y. key y == k && g y) f t (weaker-none k g t (tail-none k x t u hit)),
    )
    | inr miss ↦ ground (arith, sum_of-update_where n lost k g f t r u.1)
  ]

  -- A read through a key after a write through a key, where the write leaves the key alone.
  pub first-update_where :
      (j k : ℕ) (f : Row → Row)
      → ((x : Row) → key (f x) ≡ key x)
      → (t : List Row)
      → first (λ x. key x == j) (update_where (λ x. key x == k) f t)
        ≡ (if j == k then map_option f (first (λ x. key x == j) t) else first (λ x. key x == j) t)
  first-update_where j k f h [] = ground arith
  first-update_where j k f h (x ∷ t) = ground (arith, h x, first-update_where j k f h t)

  -- Any write that leaves the keys alone shows in a read through a key as it does on the row.
  pub first-update :
      (c : Row → Bool) (f : Row → Row)
      → ((x : Row) → key (f x) ≡ key x)
      → (j : ℕ) (t : List Row)
      → first (λ x. key x == j) (update_where c f t)
        ≡ map_option (λ x. elim (c x) [ true ↦ f x | false ↦ x ]) (first (λ x. key x == j) t)
  first-update c f h j [] = refl
  first-update c f h j (x ∷ t) = ground (arith, h x, first-update c f h j t)

  first-none :
      (c : Row → Bool) (f : Row → Row)
      → ((x : Row) → key (f x) ≡ key x)
      → (j : ℕ) (t : List Row) → first (λ x. key x == j) t ≡ none
      → first (λ x. key x == j) (update_where c f t) ≡ none
  first-none c f h j [] e = refl
  first-none c f h j (x ∷ t) e = ground (arith, h x, first-none c f h j t)

  -- Such a write keeps the keys apart.
  pub update_where-Keyed :
      (c : Row → Bool) (f : Row → Row)
      → ((x : Row) → key (f x) ≡ key x)
      → (t : List Row) → Keyed t
      → Keyed (update_where c f t)
  update_where-Keyed c f h [] u = tt
  update_where-Keyed c f h (x ∷ t) u =
      ground (arith, h x, first-none c f h (key x) t, update_where-Keyed c f h t)
