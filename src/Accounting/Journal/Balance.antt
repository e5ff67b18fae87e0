-- ===== src/Accounting/Journal/Balance.antt =====
-- The checks of `createJournalEntry` and the entries that they let into the journal.
use central_backend_e_commer.Prelude.{
  ℕ, ◌≤◌, ◌≡◌, ◌⊎◌, inl, inr, refl, sym, subst, Option, none, some, true, false, Option-cases, List,
  [], ◌∷◌, ◌++◌, length, arith, All, ltb,
}
use central_backend_e_commer.Prelude.Int.{ℤ, pos, ltb_ℤ, eq_ℤ→eq}
use central_backend_e_commer.Action.{
  Result, ok, err, Error, Result-cases, bad_request, or_throw, pure, ◌>>=◌, ◌>>◌,
}
use central_backend_e_commer.Prisma.{Prisma, Laws, list_client, client-eq}
use central_backend_e_commer.Schema.{Db, Env, JournalLine, JournalEntry, AuditEntry}
use central_backend_e_commer.Orders.{log}
use central_backend_e_commer.Accounting.Journal.{
  JournalLineInput, CreateJournalEntryInput, and_then, check_line, normalize_line, normalize_lines,
  check_totals, total_debit, total_credit, normalize_and_validate_lines, entry_of, persist_entry,
  create_journal_entry, create_kept_entry, kept_lines, to_decimal,
}

-- The line has a positive amount on one side and nothing on the other.
abbrev pub IsOneSided : JournalLine → Type 0
IsOneSided l =
    ((ltb_ℤ (pos 0) l.debit ≡ true) × (l.credit ≡ pos 0))
    ⊎ ((ltb_ℤ (pos 0) l.credit ≡ true) × (l.debit ≡ pos 0))

-- At least two lines, each on one side, with equal totals.
abbrev pub IsBalanced : List JournalLine → Type 0
IsBalanced ls = (2 ≤ length ls) × All IsOneSided ls × (total_debit ls ≡ total_credit ls)

check-IsOneSided :
    (a : ℕ) (debit credit : ℤ) (l : JournalLine) → check_line a debit credit ≡ ok l → IsOneSided l
check-IsOneSided a debit credit l e = ground arith

normalize-IsOneSided :
    (i : JournalLineInput) (l : JournalLine) → normalize_line i ≡ ok l → IsOneSided l
normalize-IsOneSided i l e = ground arith

lines-IsOneSided :
    (is : List JournalLineInput) (ls : List JournalLine)
    → normalize_lines is ≡ ok ls
    → All IsOneSided ls × (length ls ≡ length is)
lines-IsOneSided [] ls e = let empty : ls ≡ [] = ground arith in rw empty (tt, refl)
lines-IsOneSided (i ∷ is) ls e =
    go (λ xs. lines-IsOneSided is xs) (normalize_line i) (normalize_lines is) refl refl e
  where
    go :
        ((xs : List JournalLine)
          → normalize_lines is ≡ ok xs
          → All IsOneSided xs × (length xs ≡ length is))
        → (r : Result JournalLine) (rs : Result (List JournalLine)) → normalize_line i ≡ r
        → normalize_lines is ≡ rs
        → and_then r (λ line. and_then rs (λ lines. ok (line ∷ lines))) ≡ ok ls
        → All IsOneSided ls × (length ls ≡ length (i ∷ is))
    go later (ok x) (ok xs) ex exs h =
        let same : ls ≡ x ∷ xs = ground arith in
        let rest = later xs exs in
        rw same ((normalize-IsOneSided i x ex, rest.0), ground (arith, rest.1))
    go later (ok x) (err y) ex exs h = absurd (ground arith)
    go later (err y) rs ex exs h = absurd (ground arith)

pub validate-IsBalanced :
    (is : List JournalLineInput) (ls : List JournalLine)
    → normalize_and_validate_lines is ≡ ok ls
    → IsBalanced ls
unfolding normalize_and_validate_lines
validate-IsBalanced is ls e = go (normalize_lines is) refl (ground arith)
  where
    go :
        (r : Result (List JournalLine))
        → normalize_lines is ≡ r
        → (ltb (length is) 2 ≡ false) × (and_then r check_totals ≡ ok ls)
        → IsBalanced ls
    go (ok xs) exs h =
        let same : ls ≡ xs = ground arith in
        let (sided, count) = lines-IsOneSided is xs exs in
        rw same (ground arith, sided, eq_ℤ→eq (total_debit xs) (total_credit xs) (ground arith))
    go (err y) exs h = absurd (ground arith)

-- Every entry of the journal balances.
abbrev pub BooksBalance : List JournalEntry → Type 0
BooksBalance t = All (λ e. IsBalanced e.lines) t

append-BooksBalance :
    (t : List JournalEntry) (e : JournalEntry)
    → IsBalanced e.lines
    → BooksBalance t
    → BooksBalance (t ++ (e ∷ []))
append-BooksBalance [] e h b = (h, tt)
append-BooksBalance (x ∷ t) e h b = (b.0, append-BooksBalance t e h b.1)

-- The journal after an entry was written: as it was, or longer by the entry.
persist_journal :
    (env : Env) (input : CreateJournalEntryInput) (n : ℕ) (ls : List JournalLine) (d : Db)
    → let after = (persist_entry list_client env input n ls d).1.journal in
      (after ≡ d.journal) ⊎ (after ≡ d.journal ++ (entry_of env d.drawn input n ls ∷ []))
persist_journal env input n ls d = ground arith

-- The journal after a request: as it was, or longer by an entry with lines that passed the checks.
create_journal :
    (env : Env) (input : CreateJournalEntryInput) (d : Db) (r : Result (List JournalLine))
    → normalize_and_validate_lines input.lines ≡ r
    → let after = (create_journal_entry list_client env input d).1.journal in
      (after ≡ d.journal)
      ⊎ ((e : JournalEntry) × (r ≡ ok e.lines) × (after ≡ d.journal ++ (e ∷ [])))
unfolding create_journal_entry
create_journal env input d (err x) h = inl (ground arith)
create_journal env input d (ok ls) h = elim (Option-cases input.reference_id) [
  | inl missing ↦ inl (ground arith)
  | inr (n, given) ↦ elim (persist_journal env input n ls d) [
    | inl same ↦ inl (ground arith)
    | inr longer ↦ elim (Result-cases (persist_entry list_client env input n ls d).0) [
      | inl (a, done) ↦ inr (entry_of env d.drawn input n ls, refl, ground arith)
      | inr (x, failed) ↦ inl (ground arith)
    ]
  ]
]

create-BooksBalance :
    (env : Env) (input : CreateJournalEntryInput) (d : Db)
    → BooksBalance d.journal
    → BooksBalance (create_journal_entry list_client env input d).1.journal
create-BooksBalance env input d b =
    elim (create_journal env input d (normalize_and_validate_lines input.lines) refl) [
      | inl same ↦ rw same b
      | inr (e, fit, longer) ↦
          rw longer
            (append-BooksBalance d.journal e (validate-IsBalanced input.lines e.lines fit) b)
    ]

-- The column keeps the amount as it is: it has no more than two decimals.
abbrev pub IsKept : (ℤ → ℤ) → Option (Option ℤ) → Type 0
IsKept to_column none = to_column (pos 0) ≡ pos 0
IsKept to_column (some none) = Unit
IsKept to_column (some (some a)) = to_column a ≡ a

abbrev pub AreKept : (ℤ → ℤ) → List JournalLineInput → Type 0
AreKept to_column ls = All (λ l. IsKept to_column l.debit × IsKept to_column l.credit) ls

module _ (to_column : ℤ → ℤ) where
  amount-IsKept :
      (a : Option (Option ℤ)) (e : Error) (v : ℤ)
      → IsKept to_column a
      → to_decimal a e ≡ ok v
      → to_column v ≡ v
  amount-IsKept none e v k h = let same : v ≡ pos 0 = ground arith in rw same k
  amount-IsKept (some none) e v k h = absurd (ground arith)
  amount-IsKept (some (some a)) e v k h = let same : v ≡ a = ground arith in rw same k

  line-IsKept :
      (i : JournalLineInput) (l : JournalLine)
      → IsKept to_column i.debit
      → IsKept to_column i.credit
      → normalize_line i ≡ ok l
      → (to_column l.debit ≡ l.debit) × (to_column l.credit ≡ l.credit)
  line-IsKept i l kd kc e =
      go (to_decimal i.debit (bad_request "Debit must be a valid number"))
        (to_decimal i.credit (bad_request "Credit must be a valid number")) refl refl e
    where
      go :
          (rd rc : Result ℤ)
          → to_decimal i.debit (bad_request "Debit must be a valid number") ≡ rd
          → to_decimal i.credit (bad_request "Credit must be a valid number") ≡ rc
          → and_then rd (λ debit. and_then rc (λ credit. check_line i.account_id debit credit))
            ≡ ok l
          → (to_column l.debit ≡ l.debit) × (to_column l.credit ≡ l.credit)
      go (ok a) (ok b) ed ec h =
          let same : (l.debit ≡ a) × (l.credit ≡ b) = ground arith in
          rw (same.0, same.1)
            (
              amount-IsKept i.debit (bad_request "Debit must be a valid number") a kd ed,
              amount-IsKept i.credit (bad_request "Credit must be a valid number") b kc ec,
            )
      go (ok a) (err y) ed ec h = absurd (ground arith)
      go (err y) rc ed ec h = absurd (ground arith)

  lines-AreKept :
      (is : List JournalLineInput) (ls : List JournalLine)
      → AreKept to_column is
      → normalize_lines is ≡ ok ls
      → kept_lines to_column ls ≡ ls
  lines-AreKept [] ls k e = let empty : ls ≡ [] = ground arith in rw empty refl
  lines-AreKept (i ∷ is) ls k e =
      go (λ xs. lines-AreKept is xs k.1) (normalize_line i) (normalize_lines is) refl refl e
    where
      go :
          ((xs : List JournalLine) → normalize_lines is ≡ ok xs → kept_lines to_column xs ≡ xs)
          → (r : Result JournalLine) (rs : Result (List JournalLine)) → normalize_line i ≡ r
          → normalize_lines is ≡ rs
          → and_then r (λ line. and_then rs (λ lines. ok (line ∷ lines))) ≡ ok ls
          → kept_lines to_column ls ≡ ls
      go later (ok x) (ok xs) ex exs h =
          let same : ls ≡ x ∷ xs = ground arith in
          let (debit, credit) = line-IsKept i x k.0.0 k.0.1 ex in
          let rest = later xs exs in rw same (ground (arith, debit, credit, rest))
      go later (ok x) (err y) ex exs h = absurd (ground arith)
      go later (err y) rs ex exs h = absurd (ground arith)

  validated-AreKept :
      (is : List JournalLineInput) (ls : List JournalLine)
      → AreKept to_column is
      → normalize_and_validate_lines is ≡ ok ls
      → kept_lines to_column ls ≡ ls
  unfolding normalize_and_validate_lines
  validated-AreKept is ls k e = go (normalize_lines is) refl (ground arith)
    where
      go :
          (r : Result (List JournalLine))
          → normalize_lines is ≡ r
          → and_then r check_totals ≡ ok ls
          → kept_lines to_column ls ≡ ls
      go (ok xs) exs h = let same : ls ≡ xs = ground arith in rw same (lines-AreKept is xs k exs)
      go (err y) exs h = absurd (ground arith)

  -- A request whose amounts the columns keep is stored as it is.
  create_kept_entry_lem :
      (env : Env) (input : CreateJournalEntryInput) (d : Db)
      → AreKept to_column input.lines
      → create_kept_entry list_client env (kept_lines to_column) input d
        ≡ create_journal_entry list_client env input d
  unfolding create_journal_entry
  create_kept_entry_lem env input d k =
      go input.reference_id (normalize_and_validate_lines input.lines)
        (λ ls e. validated-AreKept input.lines ls k e)
    where
      go :
          (o : Option ℕ) (r : Result (List JournalLine))
          → ((ls : List JournalLine) → r ≡ ok ls → kept_lines to_column ls ≡ ls)
          → (let run = λ (kept : List JournalLine → List JournalLine).
                ((or_throw o (bad_request "Journal reference ID is required") >>= λ n.
                (λ (s : Db). (r, s)) >>= λ lines.
                list_client.transaction Db JournalEntry
                  (persist_entry list_client env input n (kept lines))
                >>= λ entry. log (AuditEntry.journal_created entry) >> pure entry)
                  d) in
              run (kept_lines to_column) ≡ run (λ ls. ls))
      go none r h = refl
      go (some n) (err x) h = refl
      go (some n) (ok ls) h = rw (h ls refl) refl

-- Requests one after the other, of whose amounts `to_column` is what a column keeps.
abbrev pub post_all : Prisma → (ℤ → ℤ) → List (Env × CreateJournalEntryInput) → Db → Db
post_all p to_column [] d = d
post_all p to_column ((env, input) ∷ rest) d =
    post_all p to_column rest (create_kept_entry p env (kept_lines to_column) input d).1

-- All amounts that are asked for are of no more than two decimals.
abbrev pub AllKept : (ℤ → ℤ) → List (Env × CreateJournalEntryInput) → Type 0
AllKept to_column [] = Unit
AllKept to_column ((env, input) ∷ rest) = AreKept to_column input.lines × AllKept to_column rest

post_list :
    (to_column : ℤ → ℤ) (requests : List (Env × CreateJournalEntryInput)) (d : Db)
    → AllKept to_column requests
    → BooksBalance d.journal
    → BooksBalance (post_all list_client to_column requests d).journal
post_list to_column [] d k b = b
post_list to_column ((env, input) ∷ rest) d k b =
    post_list to_column rest (create_kept_entry list_client env (kept_lines to_column) input d).1
      k.1
      (subst (λ (q : Result JournalEntry × Db). BooksBalance q.1.journal)
        (sym (create_kept_entry_lem to_column env input d k.0)) (create-BooksBalance env input d b))

-- If every entry of the journal has at least two lines, each with a positive amount on one side and
-- nothing on the other, and equal debits and credits, then so has every entry after any requests to
-- create entries that ask for amounts of no more than two decimals, which the columns keep as they are,
-- whatever lines they ask for and whether they succeed.
pub post_all-BooksBalance :
    {p : Prisma}
    → Laws p
    → (to_column : ℤ → ℤ) (requests : List (Env × CreateJournalEntryInput)) (d : Db)
    → AllKept to_column requests
    → BooksBalance d.journal
    → BooksBalance (post_all p to_column requests d).journal
post_all-BooksBalance laws to_column requests d k b =
    rw (client-eq laws) (post_list to_column requests d k b)
