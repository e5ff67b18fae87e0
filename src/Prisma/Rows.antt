-- ===== src/Prisma/Rows.antt =====
-- Conditions and updates over the rows of a table.
use central_backend_e_commer.Prelude.{ℕ, suc, Bool, true, false, Option, none, some, List, [], ◌∷◌}
use central_backend_e_commer.Prelude.Int.{ℤ, pos, ◌+ℤ◌}

module _ {Row : Type 0} where
  abbrev pub first : (Row → Bool) → List Row → Option Row
  first p [] = none
  first p (r ∷ t) = let rest = first p t in elim (p r) [ true ↦ some r | false ↦ rest ]

  abbrev pub matching : (Row → Bool) → List Row → List Row
  matching p [] = []
  matching p (r ∷ t) = let rest = matching p t in elim (p r) [ true ↦ r ∷ rest | false ↦ rest ]

  abbrev pub count_where : (Row → Bool) → List Row → ℕ
  count_where p [] = 0
  count_where p (r ∷ t) =
      let rest = count_where p t in elim (p r) [ true ↦ suc rest | false ↦ rest ]

  abbrev pub update_where : (Row → Bool) → (Row → Row) → List Row → List Row
  update_where p f [] = []
  update_where p f (r ∷ t) = elim (p r) [ true ↦ f r | false ↦ r ] ∷ update_where p f t

  abbrev pub sum_where : (Row → Bool) → (Row → ℤ) → List Row → ℤ
  sum_where p f [] = pos 0
  sum_where p f (r ∷ t) =
      let rest = sum_where p f t in elim (p r) [ true ↦ f r +ℤ rest | false ↦ rest ]

  abbrev pub updated : (Row → Bool) → (Row → Row) → List Row → Option (Row × List Row)
  updated p f t = elim (first p t) [ none ↦ none | some r ↦ some (f r, update_where p f t) ]
