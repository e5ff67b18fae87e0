-- ===== src/Accounting/Posting/Effects.antt =====
-- What a posting does to the journal and to the balance of an account.
use central_backend_e_commer.Prelude.{
  ℕ, ◌≡◌, refl, sym, ap, subst, ◌∙◌, ◌⊎◌, inl, inr, true, false, not, Option, none, some, List, [],
  ◌∷◌, ◌++◌, arith, ◌==◌, if◌then◌else◌, opt_eq, Option-cases, any, String,
}
use central_backend_e_commer.Prelude.Text.{template}
use central_backend_e_commer.Prelude.Int.{ℤ, pos, ◌+ℤ◌, ◌-ℤ◌, leb_ℤ, zero-+ℤ, +ℤ-zero, +ℤ_assoc}
use central_backend_e_commer.Action.{
  Result, Error, ok, err, bind_ok, or_throw, throw_if, bad_request, ◌>>=◌, ◌>>◌,
}
use central_backend_e_commer.Action.Leads.{
  Leads, Returns, Leads-bind, Leads-return, Leads-test, Leads-throw_if,
}
use central_backend_e_commer.Prisma.{list_client, first}
use central_backend_e_commer.Schema.{Db, Env, Account, JournalLine, JournalEntry}
use central_backend_e_commer.Accounting.Journal.{
  JournalLineInput, CreateJournalEntryInput, normalize_and_validate_lines, entry_of,
  create_journal_entry, same_event,
}
use central_backend_e_commer.Accounting.Posting.{
  journal_reference_type_code, AccountCode, PostingInput, JournalReferenceType, find_by_code,
  get_required_account, debit_line, credit_line, emit_journal_created, post, is_unusable,
  required_error, to_decimal, to_positive_decimal,
}

-- What lines and entries put on the debit side of an account, less its credit side.
abbrev pub line_balance : ℕ → List JournalLine → ℤ
line_balance a [] = pos 0
line_balance a (l ∷ ls) =
    (if l.account_id == a then l.debit -ℤ l.credit else pos 0) +ℤ line_balance a ls

abbrev pub balance : ℕ → List JournalEntry → ℤ
balance a [] = pos 0
balance a (e ∷ es) = line_balance a e.lines +ℤ balance a es

pub balance-append :
    (a : ℕ) (es : List JournalEntry) (e : JournalEntry)
    → balance a (es ++ (e ∷ [])) ≡ balance a es +ℤ line_balance a e.lines
balance-append a [] e = +ℤ-zero (line_balance a e.lines) ∙ sym (zero-+ℤ (line_balance a e.lines))
balance-append a (x ∷ es) e =
    ap (λ b. line_balance a x.lines +ℤ b) (balance-append a es e)
    ∙ sym (+ℤ_assoc (line_balance a x.lines) (balance a es) (line_balance a e.lines))

-- The two lines of a posting.
abbrev pub two_lines : ℕ → ℕ → ℤ → List JournalLine
two_lines x y v =
    record { account_id = x; debit = v; credit = pos 0 }
    ∷ record { account_id = y; debit = pos 0; credit = v }
    ∷ []

lines_fit :
    (x y : Account) (v : ℤ)
    → leb_ℤ v (pos 0) ≡ false
    → normalize_and_validate_lines (debit_line x v ∷ credit_line y v ∷ [])
      ≡ ok (two_lines x.id y.id v)
unfolding normalize_and_validate_lines
lines_fit x y v h = ground (arith, zero-+ℤ (v +ℤ pos 0), +ℤ-zero v, +ℤ-zero (pos 0))

-- The key is not taken.
abbrev pub IsFresh : Option ℕ → List JournalEntry → Type 0
IsFresh none t = Unit
IsFresh (some k) t = first (λ (e : JournalEntry). opt_eq e.event_key (some k)) t ≡ none

-- What an operation posted between two accounts, of which the first is debited.
pub record Posted (x y : Account) (v : ℤ) (d s : Db) : Type 0 where
  pub entry : JournalEntry
  pub added : s.journal ≡ d.journal ++ (entry ∷ [])
  pub lines : entry.lines ≡ two_lines x.id y.id v
  pub same_accounts : s.accounts ≡ d.accounts

unclaimed :
    (key : Option ℕ) (t : List JournalEntry)
    → IsFresh key t
    → any (λ e. same_event key e.event_key) t ≡ false
unclaimed none [] h = refl
unclaimed none (e ∷ t) h = unclaimed none t tt
unclaimed (some k) [] h = refl
unclaimed (some k) (e ∷ t) h = ground (arith, unclaimed (some k) t)

checked :
    (o : Option Account) (e : Error) (s : Db) (Q : Account → Db → Type 0)
    → ((a : Account) → o ≡ some a → Q a s)
    → Returns Q ((throw_if (is_unusable o) e >> or_throw o e) s)
checked none e s Q h = tt
checked (some a) e s Q h =
    (Leads-bind _ (throw_if (not a.is_active) e) (λ u. or_throw (some a) e)
        (Leads-test {P = λ z. z ≡ s} (not a.is_active) e)
        (λ u. record { holds = λ z same. subst (Q a) (sym same) (h a refl) })).holds
      s refl

pub given :
    (amount : Option ℤ) (name : String) (d : Db)
    → Leads (λ s. s ≡ d) (to_decimal amount name) (λ v s. (s ≡ d) × (amount ≡ some v))
given none name d = record { holds = λ s h. tt }
given (some v) name d = record { holds = λ s h. (h, refl) }

shifted_returns :
    {A : Type 0} {Q R : A → Db → Type 0} (r : Result A × Db)
    → ((a : A) (s : Db) → Q a s → R a s)
    → Returns Q r
    → Returns R r
shifted_returns (ok a, s) w h = w a s h
shifted_returns (err e, s) w h = tt

module _ (env : Env) where
  -- An entry with a fresh key, or without one, is made and added.
  created :
      (input : CreateJournalEntryInput) (n : ℕ) (x y : Account) (v : ℤ) (d : Db)
      → input.reference_id ≡ some n
      → input.lines ≡ debit_line x v ∷ credit_line y v ∷ []
      → leb_ℤ v (pos 0) ≡ false
      → IsFresh input.event_key d.journal
      → ((create_journal_entry list_client env input d).0
          ≡ ok (entry_of env d.drawn input n (two_lines x.id y.id v)))
        × ((create_journal_entry list_client env input d).1.journal
            ≡ d.journal ++ (entry_of env d.drawn input n (two_lines x.id y.id v) ∷ []))
        × ((create_journal_entry list_client env input d).1.accounts ≡ d.accounts)
  unfolding create_journal_entry
  created input n x y v d e lines h fresh =
      let fit = lines_fit x y v h in
      let free = unclaimed input.event_key d.journal fresh in
      elim (Option-cases input.event_key) [
        | inl none_given ↦
            let free' = rw none_given at free in
            rw (e, none_given, lines, fit, create_journal_entry) (ground (arith, free'))
        | inr (k, given) ↦
            let fresh' = rw given at fresh in
            let free' = rw given at free in
            rw (e, given, lines, fit, create_journal_entry) (ground (arith, free', fresh'))
      ]

  abbrev entry_input :
      JournalReferenceType → PostingInput → List JournalLineInput → CreateJournalEntryInput
  entry_input type input lines = record {
    reference_type = journal_reference_type_code type;
    reference_id = input.reference_id;
    event_key = input.event_key;
    description = input.description;
    lines = lines;
  }

  without_reference :
      (trigger : String) (type : JournalReferenceType) (input : PostingInput)
      (lines : List JournalLineInput) (d : Db)
      → input.reference_id ≡ none
      → (Q : JournalEntry → Db → Type 0)
      → Returns Q (post list_client env trigger type input lines d)
  unfolding post create_journal_entry
  without_reference trigger type input lines d missing Q = rw (missing, Returns) tt

  post-Posted :
      (trigger : String) (type : JournalReferenceType) (input : PostingInput) (x y : Account)
      (v : ℤ) (d : Db)
      → leb_ℤ v (pos 0) ≡ false
      → IsFresh input.event_key d.journal
      → Returns
          (λ e s. Posted x y v d s)
          (post list_client env trigger type input (debit_line x v ∷ credit_line y v ∷ []) d)
  unfolding post
  post-Posted trigger type input x y v d h fresh = elim (Option-cases input.reference_id) [
    | inl missing ↦
        without_reference trigger type input (debit_line x v ∷ credit_line y v ∷ []) d missing
          (λ e s. Posted x y v d s)
    | inr (n, given) ↦
        let asked = entry_input type input (debit_line x v ∷ credit_line y v ∷ []) in
        let done = created asked n x y v d given refl h fresh in
        let entry = entry_of env d.drawn asked n (two_lines x.id y.id v) in
        let d1 = (create_journal_entry list_client env asked d).1 in
        let posted : Posted x y v d (emit_journal_created list_client env trigger entry d1).1 =
          record { entry = entry; added = done.1; lines = refl; same_accounts = done.2 } in
        subst (Returns (λ e s. Posted x y v d s))
          (sym (
            bind_ok (create_journal_entry list_client env asked)
              (emit_journal_created list_client env trigger) d entry done.0))
          posted
  ]

  -- What an operation on an amount does: nothing, where it is not positive, or it posts it.
  pub record Moves (debit credit : AccountCode) (amount : Option ℤ) (d s : Db) : Type 0 where
    pub x : Account
    pub y : Account
    pub v : ℤ
    pub debited : find_by_code list_client env debit d ≡ some x
    pub credited : find_by_code list_client env credit d ≡ some y
    pub asked : (amount ≡ some v) × (leb_ℤ v (pos 0) ≡ false)
    pub posted : Posted x y v d s

  abbrev pub Idles : Option ℤ → Db → Db → Type 0
  Idles amount d s = (v : ℤ) × ((amount ≡ some v) × (leb_ℤ v (pos 0) ≡ true)) × (s ≡ d)

  abbrev pub Effect : AccountCode → AccountCode → Option ℤ → Db → Db → Type 0
  Effect debit credit amount d s = Idles amount d s ⊎ Moves debit credit amount d s

  pub required :
      (code : AccountCode) (d : Db) (F : Type 0)
      → Leads
          (λ s. (s ≡ d) × F)
          (get_required_account list_client env code)
          (λ a s. (s ≡ d) × (F × (find_by_code list_client env code d ≡ some a)))
  required code d F = record {
    holds = λ s h.
        checked (find_by_code list_client env code s) (required_error list_client env code) s _
          λ a e. (h.0, (h.1, subst (λ z. find_by_code list_client env code z ≡ some a) h.0 e));
  }

  positive :
      (amount : Option ℤ) (name : String) (d : Db)
      → Leads
          (λ s. s ≡ d)
          (to_positive_decimal amount name)
          (λ v s. (s ≡ d) × ((amount ≡ some v) × (leb_ℤ v (pos 0) ≡ false)))
  positive amount name d =
      Leads-bind (λ v s. (s ≡ d) × (amount ≡ some v)) (to_decimal amount name) _
        (given amount name d)
        λ v.
          Leads-bind _ _ _
            (Leads-throw_if (leb_ℤ v (pos 0))
              (bad_request (template name " must be greater than zero" "" "")))
            λ u. Leads-return v (λ s h. (h.0.0, (h.0.1, h.1)))

  pub posts :
      (debit credit : AccountCode) (trigger : String) (type : JournalReferenceType)
      (input : PostingInput) (x y : Account) (v : ℤ) (d s : Db)
      → s ≡ d
      → IsFresh input.event_key d.journal
      → find_by_code list_client env debit d ≡ some x
      → find_by_code list_client env credit d ≡ some y
      → (input.amount ≡ some v) × (leb_ℤ v (pos 0) ≡ false)
      → Returns
          (λ e s. Effect debit credit input.amount d s)
          (post list_client env trigger type input (debit_line x v ∷ credit_line y v ∷ []) s)
  posts debit credit trigger type input x y v d s same fresh debited credited asked =
      subst
        (λ z.
          Returns (λ e s. Effect debit credit input.amount d s)
            (post list_client env trigger type input (debit_line x v ∷ credit_line y v ∷ []) z))
        (sym same)
        (shifted_returns _
          (λ e s posted. inr (record {
            x = x;
            y = y;
            v = v;
            debited = debited;
            credited = credited;
            asked = asked;
            posted = posted;
          }))
          (post-Posted trigger type input x y v d asked.1 fresh))

  -- The account that is debited is looked up first.
  pub debit_first :
      (debit credit : AccountCode) (name trigger : String) (type : JournalReferenceType)
      (input : PostingInput) (d : Db)
      → IsFresh input.event_key d.journal
      → Leads
          (λ s. s ≡ d)
          (to_positive_decimal input.amount name >>= λ v.
            get_required_account list_client env debit >>= λ x.
            get_required_account list_client env credit >>= λ y.
            post list_client env trigger type input (debit_line x v ∷ credit_line y v ∷ []))
          (λ e s. Effect debit credit input.amount d s)
  debit_first debit credit name trigger type input d fresh =
      Leads-bind _ _ _ (positive input.amount name d) λ v.
        Leads-bind _ _ _ (required debit d _) λ x. Leads-bind _ _ _ (required credit d _) λ y.
          record {
            holds = λ s h.
                posts debit credit trigger type input x y v d s h.0 fresh h.1.0.1 h.1.1 h.1.0.0;
          }

  pub credit_first :
      (debit credit : AccountCode) (name trigger : String) (type : JournalReferenceType)
      (input : PostingInput) (d : Db)
      → IsFresh input.event_key d.journal
      → Leads
          (λ s. s ≡ d)
          (to_positive_decimal input.amount name >>= λ v.
            get_required_account list_client env credit >>= λ y.
            get_required_account list_client env debit >>= λ x.
            post list_client env trigger type input (debit_line x v ∷ credit_line y v ∷ []))
          (λ e s. Effect debit credit input.amount d s)
  credit_first debit credit name trigger type input d fresh =
      Leads-bind _ _ _ (positive input.amount name d) λ v.
        Leads-bind _ _ _ (required credit d _) λ y. Leads-bind _ _ _ (required debit d _) λ x.
          record {
            holds = λ s h.
                posts debit credit trigger type input x y v d s h.0 fresh h.1.1 h.1.0.1 h.1.0.0;
          }
