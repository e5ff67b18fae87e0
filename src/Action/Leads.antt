-- ===== src/Action/Leads.antt =====
-- What holds of the state and the value that an action returns with, by the parts of a `do` block. An
-- action that throws owes nothing: a transaction around it puts the state back.
use central_backend_e_commer.Prelude.{
  ◌≡◌, refl, sym, subst, Bool, true, false, Option, none, some, if◌then◌else◌,
}
use central_backend_e_commer.Action.{
  Action, Result, ok, err, Error, pure, gets, or_throw, throw_if, ◌>>=◌,
}
use central_backend_e_commer.Prisma.{commit}

abbrev pub Returns : {S A : Type 0} → (A → S → Type 0) → Result A × S → Type 0
Returns Q (ok a, s) = Q a s
Returns Q (err e, s) = Unit

-- From a state in which P holds the action returns, if it does, to one in which Q holds.
pub record Leads {S A : Type 0} (P : S → Type 0) (m : Action S A) (Q : A → S → Type 0)
    : Type 0 where
  pub holds : (s : S) → P s → Returns Q (m s)

after :
    {S A B : Type 0} {Q : A → S → Type 0} {R : B → S → Type 0} (f : A → Action S B) (r : Result A)
    (s : S)
    → ((a : A) → Leads (Q a) (f a) R)
    → Returns Q (r, s)
    → Returns R (elim r as (λ _. Result B × S) [ ok a ↦ f a s | err e ↦ (err e, s) ])
after f (ok a) s hf h = (hf a).holds s h
after f (err e) s hf h = tt

shifted :
    {S A : Type 0} {Q R : A → S → Type 0}
    → ((a : A) (s : S) → Q a s → R a s)
    → (r : Result A × S) → Returns Q r
    → Returns R r
shifted w (ok a, s) k = w a s k
shifted w (err e, s) k = tt

anything : {S A : Type 0} (r : Result A × S) → Returns (λ _ _. Unit {0}) r
anything (ok a, s) = tt
anything (err e, s) = tt

by_found :
    {S A B : Type 0} {P : S → Type 0} {Q : A → S → Type 0} (o : Option B) (k : B → Action S A)
    (m : Action S A)
    → ((b : B) → Leads P (k b) Q)
    → Leads P m Q
    → (s : S) → P s
    → Returns Q (elim o as (λ _. Result A × S) [ none ↦ m s | some b ↦ k b s ])
by_found none k m hk hm s h = hm.holds s h
by_found (some b) k m hk hm s h = (hk b).holds s h

by_found_as :
    {S A B : Type 0} (Q : A → S → Type 0) (o : Option B) (k : B → Action S A) (m : Action S A)
    (s : S)
    → ((b : B) → o ≡ some b → Returns Q (k b s))
    → Returns Q (m s)
    → Returns Q (elim o as (λ _. Result A × S) [ none ↦ m s | some b ↦ k b s ])
by_found_as Q none k m s hk hm = hm
by_found_as Q (some b) k m s hk hm = hk b refl

as_returned :
    {S A : Type 0} (Q : A → S → Type 0) (s : S) (r : Result A × S)
    → Returns Q r
    → Returns Q (commit s r)
as_returned Q s (ok a, s') h = h
as_returned Q s (err e, s') h = tt

by_test :
    {S A : Type 0} (Q : A → S → Type 0) (c : Bool) (r r' : Result A × S)
    → Returns Q r
    → Returns Q r'
    → Returns Q (if c then r else r')
by_test Q true r r' h h' = h
by_test Q false r r' h h' = h'

stays_so :
    {S A : Type 0} (P : S → Type 0) (r : Result A) (s s' : S)
    → s' ≡ s
    → P s
    → Returns (λ _. P) (r, s')
stays_so P (ok a) s s' e h = subst P (sym e) h
stays_so P (err x) s s' e h = tt

module _ {S : Type 0} {P : S → Type 0} where
  pub Leads-bind :
      {A B : Type 0} {R : B → S → Type 0} (Q : A → S → Type 0) (m : Action S A) (f : A → Action S B)
      → Leads P m Q
      → ((a : A) → Leads (Q a) (f a) R)
      → Leads P (m >>= f) R
  Leads-bind Q m f hm hf = record { holds = λ s h. after f (m s).0 (m s).1 hf (hm.holds s h) }

  pub Leads-pure : {A : Type 0} (a : A) → Leads P (pure a) (λ _. P)
  Leads-pure a = record { holds = λ s h. h }

  pub Leads-return :
      {A : Type 0} {Q : A → S → Type 0} (a : A) → ((s : S) → P s → Q a s) → Leads P (pure a) Q
  Leads-return a h = record { holds = h }

  pub Leads-gets : {A : Type 0} (f : S → A) → Leads P (gets f) (λ _. P)
  Leads-gets f = record { holds = λ s h. h }

  pub Leads-throw_if : (c : Bool) (e : Error) → Leads P (throw_if c e) (λ _ s. P s × (c ≡ false))
  Leads-throw_if true e = record { holds = λ s h. tt }
  Leads-throw_if false e = record { holds = λ s h. (h, refl) }

  pub Leads-test : (c : Bool) (e : Error) → Leads P (throw_if c e) (λ _. P)
  Leads-test true e = record { holds = λ s h. tt }
  Leads-test false e = record { holds = λ s h. h }

  pub Leads-or_throw : {A : Type 0} (o : Option A) (e : Error) → Leads P (or_throw o e) (λ _. P)
  Leads-or_throw none e = record { holds = λ s h. tt }
  Leads-or_throw (some a) e = record { holds = λ s h. h }

  pub Leads-if :
      {A : Type 0} {Q : A → S → Type 0} (c : Bool) (m k : Action S A)
      → Leads P m Q
      → Leads P k Q
      → Leads P (if c then m else k) Q
  Leads-if true m k hm hk = hm
  Leads-if false m k hm hk = hk

  -- Of an action that comes before what matters, nothing need be known.
  pub Leads-any : {A : Type 0} (m : Action S A) → Leads P m (λ _ _. Unit {0})
  Leads-any m = record { holds = λ s h. anything (m s) }

  -- A case on what is read of the state.
  pub Leads-found :
      {A B : Type 0} {Q : A → S → Type 0} (find : S → Option B) (k : B → Action S A)
      (m : Action S A)
      → ((b : B) → Leads P (k b) Q)
      → Leads P m Q
      → Leads P (λ s. elim (find s) as (λ _. Result A × S) [ none ↦ m s | some b ↦ k b s ]) Q
  Leads-found find k m hk hm = record { holds = λ s h. by_found (find s) k m hk hm s h }

  -- The same, where the case may use what was read.
  pub Leads-found_as :
      {A B : Type 0} {Q : A → S → Type 0} (find : S → Option B) (k : B → Action S A)
      (m : Action S A)
      → ((b : B) (s : S) → find s ≡ some b → P s → Returns Q (k b s))
      → Leads P m Q
      → Leads P (λ s. elim (find s) as (λ _. Result A × S) [ none ↦ m s | some b ↦ k b s ]) Q
  Leads-found_as find k m hk hm = record {
    holds = λ s h. by_found_as _ (find s) k m s (λ b e. hk b s e h) (hm.holds s h);
  }

  pub Leads-branch :
      {A : Type 0} {Q : A → S → Type 0} (c : Bool) (m k : Action S A)
      → Leads P m Q
      → Leads P k Q
      → Leads P (λ s. if c then m s else k s) Q
  Leads-branch c m k hm hk = record {
    holds = λ s h. by_test _ c (m s) (k s) (hm.holds s h) (hk.holds s h);
  }

  -- A stronger condition before, a weaker one after.
  pub Leads-weaken :
      {A : Type 0} {P' : S → Type 0} {Q : A → S → Type 0} (m : Action S A)
      → ((s : S) → P' s → P s)
      → Leads P m Q
      → Leads P' m Q
  Leads-weaken m w h = record { holds = λ s x. h.holds s (w s x) }

  pub Leads-shift :
      {A : Type 0} {Q R : A → S → Type 0} (m : Action S A)
      → ((a : A) (s : S) → Q a s → R a s)
      → Leads P m Q
      → Leads P m R
  Leads-shift m w h = record { holds = λ s x. shifted w (m s) (h.holds s x) }

  -- What a callback leads to again, its transaction keeps.
  pub commit_keeps :
      {A : Type 0} (m : Action S A) → Leads P m (λ _. P) → (s : S) → P s → P (commit s (m s)).1
  commit_keeps m h s x = committed (m s).0 (m s).1 (h.holds s x)
    where
      committed :
          {A : Type 0} (r : Result A) (s' : S)
          → Returns {A = A} (λ _. P) (r, s')
          → P (commit s (r, s')).1
      committed (ok a) s' k = k
      committed (err e) s' k = x

  -- A transaction returns what its callback returns.
  pub committed_returns :
      {A : Type 0} {Q : A → S → Type 0} (m : Action S A)
      → Leads P m Q
      → (s : S) → P s
      → Returns Q (commit s (m s))
  committed_returns m h s x = as_returned _ s (m s) (h.holds s x)

  -- An action that only reads leaves what holds.
  pub Leads-same : {A : Type 0} (m : Action S A) → ((s : S) → (m s).1 ≡ s) → Leads P m (λ _. P)
  Leads-same m e = record { holds = λ s h. stays_so P (m s).0 s (m s).1 (e s) h }

  pub Leads-or_throw_as :
      {A : Type 0} (o : Option A) (e : Error) → Leads P (or_throw o e) (λ a s. P s × (o ≡ some a))
  Leads-or_throw_as none e = record { holds = λ s h. tt }
  Leads-or_throw_as (some a) e = record { holds = λ s h. (h, refl) }

  -- What is known beside the state is known after.
  pub Leads-fact :
      {A F : Type 0} {Q : A → S → Type 0} (m : Action S A)
      → (F → Leads P m Q)
      → Leads (λ s. P s × F) m (λ a s. Q a s × F)
  Leads-fact m f = record { holds = λ s h. shifted (λ a t q. (q, h.1)) (m s) ((f h.1).holds s h.0) }

  -- What is known beside the state may be used for the rest.
  pub Leads-given :
      {A F : Type 0} {Q : A → S → Type 0} (m : Action S A)
      → (F → Leads P m Q)
      → Leads (λ s. P s × F) m Q
  Leads-given m f = record { holds = λ s h. (f h.1).holds s h.0 }
