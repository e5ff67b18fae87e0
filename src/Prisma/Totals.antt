-- ===== src/Prisma/Totals.antt =====
-- A number summed over the rows of a table, and a write that meets exactly one of them.
use central_backend_e_commer.Prelude.{
  ℕ, ◌+◌, ◌≡◌, refl, Bool, true, List, [], ◌∷◌, ◌++◌, arith, sum_of, some, ◌≤◌,
}
use central_backend_e_commer.Prisma.Rows.{first, count_where, update_where}

module _ {Row : Type 0} (n : Row → ℕ) (c : Row → Bool) (f : Row → Row) where
  untouched : (t : List Row) → count_where c t ≡ 0 → sum_of n (update_where c f t) ≡ sum_of n t
  untouched [] e = refl
  untouched (r ∷ t) e = ground (arith, untouched t)

  -- Of the one row that a write meets, the sum loses what the row loses.
  pub sum_of-lowered :
      (q : ℕ)
      → ((r : Row) → c r ≡ true → n (f r) + q ≡ n r)
      → (t : List Row) → count_where c t ≡ 1
      → sum_of n (update_where c f t) + q ≡ sum_of n t
  sum_of-lowered q h [] e = ground arith
  sum_of-lowered q h (r ∷ t) e = ground (arith, h r, untouched t, sum_of-lowered q h t)

  pub sum_of-raised :
      (q : ℕ)
      → ((r : Row) → c r ≡ true → n (f r) ≡ n r + q)
      → (t : List Row) → count_where c t ≡ 1
      → sum_of n (update_where c f t) ≡ sum_of n t + q
  sum_of-raised q h [] e = ground arith
  sum_of-raised q h (r ∷ t) e = ground (arith, h r, untouched t, sum_of-raised q h t)

  -- A write that leaves the number of each row alone.
  pub sum_of-kept :
      ((r : Row) → n (f r) ≡ n r) → (t : List Row) → sum_of n (update_where c f t) ≡ sum_of n t
  sum_of-kept h [] = refl
  sum_of-kept h (r ∷ t) = ground (arith, h r, sum_of-kept h t)

  -- A write that does not touch what a condition reads does not change how many rows meet it.
  pub count_where-kept :
      (k : Row → Bool)
      → ((r : Row) → k (f r) ≡ k r)
      → (t : List Row) → count_where k (update_where c f t) ≡ count_where k t
  count_where-kept k h [] = refl
  count_where-kept k h (r ∷ t) = ground (arith, h r, count_where-kept k h t)

module _ {Row : Type 0} (c : Row → Bool) where
  pub count_where-append :
      (t u : List Row) → count_where c (t ++ u) ≡ count_where c t + count_where c u
  count_where-append [] u = omega arith
  count_where-append (r ∷ t) u = ground (arith, count_where-append t u)

  pub count_where-found : (t : List Row) (r : Row) → first c t ≡ some r → 1 ≤ count_where c t
  count_where-found [] r e = cc
  count_where-found (x ∷ t) r e = ground (arith, count_where-found t r)
