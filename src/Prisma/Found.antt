-- ===== src/Prisma/Found.antt =====
-- What a query over a table with a primary key gives: rows that are read through their own keys.
use central_backend_e_commer.Prelude.{
  ℕ, zero, suc, ◌≡◌, refl, inl, inr, Bool, true, false, none, some, List, [], ◌∷◌, arith, ◌==◌,
  Bool-cases, All, take, any, ◌||◌, ◌++◌, subst,
}
use central_backend_e_commer.Prisma.Rows.{first, matching}
use central_backend_e_commer.Prisma.Keys.{Keyed}

module _ {Row : Type 0} where
  pub All-take : (P : Row → Type 0) (n : ℕ) (t : List Row) → All P t → All P (take n t)
  All-take P zero t h = tt
  All-take P (suc n) [] h = tt
  All-take P (suc n) (x ∷ t) h = (h.0, All-take P n t h.1)

  pub All-map : (P Q : Row → Type 0) → ((x : Row) → P x → Q x) → (t : List Row) → All P t → All Q t
  All-map P Q f [] h = tt
  All-map P Q f (x ∷ t) h = (f x h.0, All-map P Q f t h.1)

  pub All-if :
      (P : Row → Type 0) (b : Bool) (x : Row) (t : List Row)
      → (b ≡ true → P x)
      → All P t
      → All P (elim b [ true ↦ x ∷ t | false ↦ t ])
  All-if P true x t h k = (h refl, k)
  All-if P false x t h k = k

  -- The rows of a query meet its condition.
  pub All-matching : (c : Row → Bool) (t : List Row) → All (λ x. c x ≡ true) (matching c t)
  All-matching c [] = tt
  All-matching c (x ∷ t) =
      All-if (λ y. c y ≡ true) (c x) x (matching c t) (λ m. m) (All-matching c t)

  -- What holds of all rows, holds of the one that is found.
  pub first-All :
      (P : Row → Type 0) (c : Row → Bool) (t : List Row) (r : Row)
      → All P t
      → first c t ≡ some r
      → P r × (c r ≡ true)
  first-All P c [] r h e = cc
  first-All P c (x ∷ t) r h e = elim (Bool-cases (c x)) [
    | inl m ↦
        let same : x ≡ r = ground arith in subst (λ (y : Row). P y × (c y ≡ true)) same (h.0, m)
    | inr m ↦ first-All P c t r h.1 (ground arith)
  ]

module _ {Row : Type 0} (key : Row → ℕ) where
  -- The row is what a read through its key gives.
  abbrev pub Stored : List Row → Row → Type 0
  Stored t r = first (λ x. key x == key r) t ≡ some r

  behind : (x : Row) (t : List Row) (r : Row) → Keyed key (x ∷ t) → Stored t r → Stored (x ∷ t) r
  behind x t r u s = elim (Bool-cases (key x == key r)) [
    | inl m ↦
        let same : key x ≡ key r = ground arith in
        let gone : first (λ y. key y == key r) t ≡ none = rw (same) at u.0 in ground arith
    | inr m ↦ ground arith
  ]

  pub matching-Stored :
      (c : Row → Bool) (t : List Row)
      → Keyed key t
      → All (λ r. Stored t r × (c r ≡ true)) (matching c t)
  matching-Stored c [] u = tt
  matching-Stored c (x ∷ t) u =
      let rest =
        All-map (λ r. Stored t r × (c r ≡ true)) (λ r. Stored (x ∷ t) r × (c r ≡ true))
          (λ r h. (behind x t r u h.0, h.1)) (matching c t) (matching-Stored c t u.1) in
      All-if (λ r. Stored (x ∷ t) r × (c r ≡ true)) (c x) x (matching c t) (λ m. (ground arith, m))
        rest

  -- So is the first row that meets a condition.
  pub first-Stored :
      (c : Row → Bool) (t : List Row) (r : Row) → Keyed key t → first c t ≡ some r → Stored t r
  first-Stored c [] r u e = cc
  first-Stored c (x ∷ t) r u e = elim (Bool-cases (c x)) [
    | inl m ↦ let same : x ≡ r = ground arith in rw same (ground arith)
    | inr m ↦ behind x t r u (first-Stored c t r u.1 (ground arith))
  ]

  -- No row of the table conflicts with the new one, so none has its key.
  pub unclaimed :
      (k : ℕ) (g : Row → Bool) (t : List Row)
      → any (λ x. key x == k || g x) t ≡ false
      → first (λ x. key x == k) t ≡ none
  unclaimed k g [] h = refl
  unclaimed k g (x ∷ t) h = ground (arith, unclaimed k g t)

  last-none :
      (k : ℕ) (t : List Row) (r : Row)
      → first (λ x. key x == k) t ≡ none
      → (key r == k) ≡ false
      → first (λ x. key x == k) (t ++ (r ∷ [])) ≡ none
  last-none k [] r h m = ground arith
  last-none k (x ∷ t) r h m = ground (arith, last-none k t r)

  pub Keyed-append :
      (t : List Row) (r : Row)
      → Keyed key t
      → first (λ x. key x == key r) t ≡ none
      → Keyed key (t ++ (r ∷ []))
  Keyed-append [] r u h = (refl, tt)
  Keyed-append (x ∷ t) r u h =
      (last-none (key x) t r u.0 (ground arith), Keyed-append t r u.1 (ground arith))

  absent :
      (k : ℕ) (t : List Row) → first (λ x. key x == k) t ≡ none → All (λ x. (key x == k) ≡ false) t
  absent k [] e = tt
  absent k (x ∷ t) e = (ground arith, absent k t (ground arith))

  -- No other row has the key of a row that is read through its key.
  pub Stored-only :
      (t : List Row) (r : Row)
      → Keyed key t
      → Stored t r
      → All (λ x. (key x == key r) ≡ true → x ≡ r) t
  Stored-only [] r u s = tt
  Stored-only (x ∷ t) r u s = elim (Bool-cases (key x == key r)) [
    | inl m ↦
        let same : key x ≡ key r = ground arith in
        let gone : first (λ y. key y == key r) t ≡ none = rw (same) at u.0 in
        (
          λ _. ground arith,
          All-map (λ y. (key y == key r) ≡ false) (λ y. (key y == key r) ≡ true → y ≡ r)
              (λ y a b. cc) t (absent (key r) t gone),
        )
    | inr m ↦ (λ b. cc, Stored-only t r u.1 (ground arith))
  ]
