-- ===== src/EventBus/Names.antt =====
-- The names of events (src/common/constants/event.constants.ts): one that is canonical, and others that
-- older workflows still use.
use text.Mathlib.Text.{◌==◌}
use text.Mathlib.TextEquality.{eq_iff}
use central_backend_e_commer.Prelude.{
  ◌≡◌, refl, ap, subst, ◌∙◌, inl, inr, Bool, true, false, Option, none, some, List, [], ◌∷◌, String,
  All, Bool-cases, Option-cases, if◌then◌else◌, arith,
}

pub record EventName : Type 0 where
  pub name : String
  pub aliases : List String

-- `SystemEvents` and `LegacyEventAliases`
abbrev pub system_events : List EventName
system_events =
    record { name = "order.created"; aliases = "OrderCreated" ∷ "ORDER_CREATED" ∷ [] }
    ∷ record { name = "order.paid"; aliases = "OrderPaid" ∷ "ORDER_PAID" ∷ [] }
    ∷ record { name = "order.completed"; aliases = "OrderCompleted" ∷ "ORDER_COMPLETED" ∷ [] }
    ∷ record { name = "order.cancelled"; aliases = "OrderCancelled" ∷ "ORDER_CANCELLED" ∷ [] }
    ∷ record { name = "order.refunded"; aliases = [] }
    ∷ record { name = "payment.recorded"; aliases = [] }
    ∷ record { name = "payment.succeeded"; aliases = "PAYMENT_RECEIVED" ∷ [] }
    ∷ record { name = "payment.failed"; aliases = "PAYMENT_FAILED" ∷ [] }
    ∷ record { name = "payment.refunded"; aliases = [] }
    ∷ record { name = "inventory.stock-in"; aliases = "INVENTORY_STOCK_IN" ∷ [] }
    ∷ record {
      name = "inventory.stock-out-recorded";
      aliases = "INVENTORY_STOCK_OUT" ∷ "inventory.stock-out" ∷ [];
    }
    ∷ record { name = "inventory.adjusted"; aliases = "INVENTORY_ADJUSTED" ∷ [] }
    ∷ record { name = "inventory.reserved"; aliases = [] }
    ∷ record { name = "inventory.reservation-released"; aliases = [] }
    ∷ record { name = "purchase.received"; aliases = "PurchaseReceived" ∷ "GOODS_RECEIVED" ∷ [] }
    ∷ record { name = "journal.entry-created"; aliases = "ACCOUNTING_ENTRY_CREATED" ∷ [] }
    ∷ record { name = "customer.activity-recorded"; aliases = [] }
    ∷ record { name = "purchase-order.created"; aliases = [] }
    ∷ record { name = "purchase-order.approved"; aliases = [] }
    ∷ record { name = "purchase-order.cancelled"; aliases = [] }
    ∷ record { name = "supplier-invoice.created"; aliases = [] }
    ∷ record { name = "supplier-payment.created"; aliases = [] }
    ∷ []

abbrev pub is_among : String → List String → Bool
is_among s [] = false
is_among s (x ∷ xs) = let rest = is_among s xs in if x == s then true else rest

-- The row of a canonical name: `canonicalNames.has`, and `LegacyEventAliases[name]`.
abbrev pub row_named : String → List EventName → Option EventName
row_named s [] = none
row_named s (r ∷ rs) = let rest = row_named s rs in if r.name == s then some r else rest

-- `legacyToCanonical.get`; of two entries the later one stays in the map.
abbrev pub row_with_alias : String → List EventName → Option EventName
row_with_alias s [] = none
row_with_alias s (r ∷ rs) = elim (row_with_alias s rs) [
  | some found ↦ some found
  | none ↦ if is_among s r.aliases then some r else none
]

canonical_from : String → Option EventName → Option EventName → String
canonical_from s (some r) found = s
canonical_from s none (some r) = r.name
canonical_from s none none = s

abbrev canonical_in : List EventName → String → String
canonical_in rows s = canonical_from s (row_named s rows) (row_with_alias s rows)

candidates_from : String → String → Option EventName → List String
candidates_from s canonical none = s ∷ []
candidates_from s canonical (some r) = canonical ∷ r.aliases

abbrev candidates_in : List EventName → String → List String
candidates_in rows s =
    candidates_from s (canonical_in rows s) (row_named (canonical_in rows s) rows)

unfoldable pub canonicalize_event_name : String → String
unfolding canonical_from
canonicalize_event_name = canonical_in system_events

unfoldable pub event_name_candidates : String → List String
unfolding candidates_from canonical_from
event_name_candidates = candidates_in system_events

abbrev names_of : EventName → List String
names_of r = r.name ∷ r.aliases

-- The row that has the name, as its own or as an alias.
abbrev pub row_of : String → List EventName → Option EventName
row_of s [] = none
row_of s (r ∷ rs) =
    let rest = row_of s rs in if is_among s (r.name ∷ r.aliases) then some r else rest

-- All names of the event that the name is one of, the canonical one first; a name of no event is alone.
abbrev pub names_in : List EventName → String → List String
names_in rows s = elim (row_of s rows) [ none ↦ s ∷ [] | some r ↦ r.name ∷ r.aliases ]

All-among :
    (P : String → Type 0) (s : String) (xs : List String) → All P xs → is_among s xs ≡ true → P s
All-among P s [] h m = cc
All-among P s (x ∷ xs) h m = elim (Bool-cases (x == s)) [
  | inl hit ↦ subst P ((eq_iff x s).0 hit) h.0
  | inr miss ↦ All-among P s xs h.1 (ground arith)
]

-- What holds of each name of each row, holds of a name with the row that it leads to.
row_of-All :
    (P : EventName → String → Type 0) (s : String) (rs : List EventName) (r : EventName)
    → All (λ x. All (P x) (names_of x)) rs
    → row_of s rs ≡ some r
    → P r s
row_of-All P s [] r h e = cc
row_of-All P s (x ∷ rs) r h e = elim (Bool-cases (is_among s (names_of x))) [
  | inl m ↦
      let same : x ≡ r = ground arith in
      subst (λ (y : EventName). P y s) same (All-among (P x) s (names_of x) h.0 m)
  | inr m ↦ row_of-All P s rs r h.1 (ground arith)
]

row_named-none : (s : String) (rs : List EventName) → row_of s rs ≡ none → row_named s rs ≡ none
row_named-none s [] e = refl
row_named-none s (x ∷ rs) e = ground (arith, row_named-none s rs)

row_with_alias-none :
    (s : String) (rs : List EventName) → row_of s rs ≡ none → row_with_alias s rs ≡ none
row_with_alias-none s [] e = refl
row_with_alias-none s (x ∷ rs) e = ground (arith, row_with_alias-none s rs)

module _ (rows : List EventName) where
  -- Every name of the event leads to its row.
  abbrev LeadsHere : EventName → Type 0
  LeadsHere r = All (λ s. candidates_in rows s ≡ names_of r) (names_of r)

  -- A name of no event.
  alone :
      (s : String)
      → row_named s rows ≡ none
      → row_with_alias s rows ≡ none
      → candidates_in rows s ≡ s ∷ []
  unfolding candidates_from canonical_from
  alone s e a =
      let c : canonical_in rows s ≡ s = rw (e, a) refl in
      ap (λ k. candidates_from s k (row_named k rows)) c ∙ rw e refl

  candidates_in_lem : All LeadsHere rows → (s : String) → candidates_in rows s ≡ names_in rows s
  candidates_in_lem table s = elim (Option-cases (row_of s rows)) [
    | inl e ↦ rw (names_in, e) (alone s (row_named-none s rows e) (row_with_alias-none s rows e))
    | inr (r, e) ↦
        rw (names_in, e) (row_of-All (λ x c. candidates_in rows c ≡ names_of x) s rows r table e)
  ]

-- The candidates of a name, which are found through its canonical name, are all names of the event that
-- the table has it for, the canonical one first, whether it is the canonical one or an alias; a name
-- that the table lacks has itself alone.
pub event_name_candidates_lem : (s : String) → event_name_candidates s ≡ names_in system_events s
unfolding event_name_candidates
event_name_candidates_lem s = candidates_in_lem system_events (ground arith) s
