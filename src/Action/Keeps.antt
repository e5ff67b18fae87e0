-- ===== src/Action/Keeps.antt =====
-- Relations between the state before and after an action, by the parts of a `do` block. They hold of
-- the state that an exception leaves too.
use central_backend_e_commer.Prelude.{◌≡◌, refl, Bool, true, false, not, Option, if◌then◌else◌}
use central_backend_e_commer.Action.{
  Action, Result, ok, err, Error, pure, gets, or_throw, throw_if, ◌>>=◌, ◌>>◌,
}
use central_backend_e_commer.Prisma.{commit}

-- Whatever the action does, its state before and after are related.
pub record Keeps {S A : Type 0} (R : S → S → Type 0) (m : Action S A) : Type 0 where
  pub holds : (s : S) → R s (m s).1

-- A relation that a step that changes nothing meets, and that steps in a row meet.
pub record IsPreorder {S : Type 0} (R : S → S → Type 0) : Type 0 where
  pub stays : (s : S) → R s s
  pub chains : (s t u : S) → R s t → R t u → R s u

module _ {S : Type 0} (R : S → S → Type 0) (pre : IsPreorder R) where
  open pre use {stays, chains}

  pub Keeps-pure : {A : Type 0} (a : A) → Keeps R (pure {S = S} a)
  Keeps-pure a = record { holds = stays }

  pub Keeps-gets : {A : Type 0} (f : S → A) → Keeps R (gets f)
  Keeps-gets f = record { holds = stays }

  pub Keeps-or_throw : {A : Type 0} (o : Option A) (e : Error) → Keeps R (or_throw {S = S} o e)
  Keeps-or_throw o e = record { holds = stays }

  pub Keeps-throw_if : (c : Bool) (e : Error) → Keeps R (throw_if {S = S} c e)
  Keeps-throw_if c e = record { holds = stays }

  after :
      {A B : Type 0} (f : A → Action S B) (s : S) (r : Result A) (s' : S)
      → ((a : A) → Keeps R (f a))
      → R s s'
      → R s (elim r as (λ _. Result B × S) [ ok a ↦ f a s' | err e ↦ (err e, s') ]).1
  after f s (ok a) s' hf h = chains s s' (f a s').1 h ((hf a).holds s')
  after f s (err e) s' hf h = h

  pub Keeps-bind :
      {A B : Type 0} (m : Action S A) (f : A → Action S B)
      → Keeps R m
      → ((a : A) → Keeps R (f a))
      → Keeps R (m >>= f)
  Keeps-bind m f hm hf = record { holds = λ s. after f s (m s).0 (m s).1 hf (hm.holds s) }

  -- Each branch may use the outcome of its test.
  pub Keeps-if :
      {A : Type 0} (c : Bool) (m k : Action S A)
      → (c ≡ true → Keeps R m)
      → (c ≡ false → Keeps R k)
      → Keeps R (if c then m else k)
  Keeps-if true m k hm hk = hm refl
  Keeps-if false m k hm hk = hk refl

  -- What follows a guard may use it.
  pub Keeps-guard :
      {A : Type 0} (c : Bool) (e : Error) (m : Action S A)
      → (c ≡ true → Keeps R m)
      → Keeps R (throw_if (not c) e >> m)
  Keeps-guard true e m h = record { holds = (h refl).holds }
  Keeps-guard false e m h = record { holds = stays }

  -- A transaction keeps what its callback keeps.
  pub Keeps-commit : {A : Type 0} (m : Action S A) → Keeps R m → (s : S) → R s (commit s (m s)).1
  Keeps-commit m h s = committed s (m s).0 (m s).1 (h.holds s)
    where
      committed : {A : Type 0} (s : S) (r : Result A) (s' : S) → R s s' → R s (commit s (r, s')).1
      committed s (ok a) s' k = k
      committed s (err e) s' k = stays s
