-- ===== src/Prisma/Sums.antt =====
-- Sums over the rows of a table that meet a condition.
use central_backend_e_commer.Prelude.{◌≡◌, Bool, List, [], ◌∷◌, ◌++◌, arith, sym}
use central_backend_e_commer.Prelude.Int.{ℤ, ◌+ℤ◌, zero-+ℤ, +ℤ_assoc}
use central_backend_e_commer.Prisma.Rows.{sum_where}

module _ {Row : Type 0} (c : Row → Bool) (f : Row → ℤ) where
  pub sum_where-append :
      (t u : List Row) → sum_where c f (t ++ u) ≡ sum_where c f t +ℤ sum_where c f u
  sum_where-append [] u = sym (zero-+ℤ (sum_where c f u))
  sum_where-append (r ∷ t) u =
      ground (arith, sum_where-append t u, +ℤ_assoc (f r) (sum_where c f t) (sum_where c f u))
