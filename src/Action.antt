-- ===== src/Action.antt =====
-- The outcome of a service call: an exception of NestJS or of the database client, or a value; and
-- the state and exception monad in which the services are written. A state that was written
-- before an exception stays written; what a transaction rolls back is said in `Prisma`.
pub mod Keeps
pub mod Leads
use central_backend_e_commer.Prelude.{
  ◌≡◌, refl, ◌⊎◌, inl, inr, Bool, true, false, Option, none, some, String, if◌then◌else◌,
}

-- The exceptions, with the message that the sources give them.
pub data Error : Type 0 where
  bad_request not_found conflict : String → Error
  -- `PrismaClientKnownRequestError`: P2002, a unique column, and P2025, no such row
  unique_violation record_not_found : Error

pub data Result (A : Type 0) : Type 0 where
  ok : A → Result A
  err : Error → Result A

abbrev pub is_ok : {A : Type 0} → Result A → Bool
is_ok (ok a) = true
is_ok (err e) = false

pub Result-cases :
    {A : Type 0} (r : Result A) → ((a : A) × (r ≡ ok a)) ⊎ ((e : Error) × (r ≡ err e))
Result-cases (ok a) = inl (a, refl)
Result-cases (err e) = inr (e, refl)

abbrev pub Action : Type 0 → Type 0 → Type 0
Action S A = S → Result A × S

module _ {S A : Type 0} where
  abbrev pub pure : A → Action S A
  pure a s = (ok a, s)

  abbrev pub throw : Error → Action S A
  throw e s = (err e, s)

  abbrev pub gets : (S → A) → Action S A
  gets f s = (ok (f s), s)

  -- `if (!row) throw e`
  abbrev pub or_throw : Option A → Error → Action S A
  or_throw o e s = (elim o [ none ↦ err e | some a ↦ ok a ], s)

infixl 5 ◌>>=◌ ◌>>◌
abbrev pub ◌>>=◌ : {S A B : Type 0} → Action S A → (A → Action S B) → Action S B
◌>>=◌ m f s = let (r, s') = m s in elim r [ ok a ↦ f a s' | err e ↦ (err e, s') ]

abbrev pub ◌>>◌ : {S A B : Type 0} → Action S A → Action S B → Action S B
m >> k = m >>= λ _. k

abbrev pub throw_if : {S : Type 0} → Bool → Error → Action S (Unit {0})
throw_if c e s = (if c then err e else ok tt, s)

abbrev pub modify : {S : Type 0} → (S → S) → Action S (Unit {0})
modify f s = (ok tt, f s)

bound :
    {S A B : Type 0} (q : Result A × S) (f : A → Action S B) (a : A)
    → q.0 ≡ ok a
    → (elim q.0 as (λ _. Result B × S) [ ok x ↦ f x q.1 | err e ↦ (err e, q.1) ]) ≡ f a q.1
bound (r, s) f a h = rw h refl

-- What follows an action that returned.
pub bind_ok :
    {S A B : Type 0} (m : Action S A) (f : A → Action S B) (s : S) (a : A)
    → (m s).0 ≡ ok a
    → (m >>= f) s ≡ f a (m s).1
bind_ok m f s a h = bound (m s) f a h
