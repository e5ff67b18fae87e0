-- ===== src/Accounting/Journal.antt =====
-- `JournalService.createJournalEntry`, with the queries of journal.repository.ts that it makes.
pub mod Balance
pub mod Again
pub mod Tests
use central_backend_e_commer.Prelude.{
  ℕ, ◌+◌, Bool, true, false, not, Option, none, some, List, [], ◌∷◌, ◌++◌, length, ltb, opt_eq, map,
  if◌then◌else◌,
}
use central_backend_e_commer.Prelude.Int.{ℤ, pos, ◌+ℤ◌, ltb_ℤ, eq_ℤ}
use central_backend_e_commer.Action.{
  Action, Result, ok, err, Error, bad_request, unique_violation, pure, or_throw, ◌>>=◌, ◌>>◌,
}
use central_backend_e_commer.Prisma.{Prisma}
use central_backend_e_commer.Schema.{Db, Env, JournalLine, JournalEntry, AuditEntry}
use central_backend_e_commer.Orders.{log}

-- A line as it is asked for: an amount may be missing, and it may be no number.
pub record JournalLineInput : Type 0 where
  pub account_id : ℕ
  pub debit : Option (Option ℤ)
  pub credit : Option (Option ℤ)

pub record CreateJournalEntryInput : Type 0 where
  pub reference_type : ℕ
  pub reference_id : Option ℕ
  pub event_key : Option ℕ
  pub description : ℕ
  pub lines : List JournalLineInput

abbrev pub and_then : {A B : Type 0} → Result A → (A → Result B) → Result B
and_then (ok a) f = f a
and_then (err e) f = err e

-- `toDecimal(value ?? 0, fieldName)`
abbrev pub to_decimal : Option (Option ℤ) → Error → Result ℤ
to_decimal none e = ok (pos 0)
to_decimal (some none) e = err e
to_decimal (some (some a)) e = ok a

abbrev pub same_truth : Bool → Bool → Bool
same_truth true b = b
same_truth false b = not b

-- What is checked of a line's amounts.
abbrev pub check_line : ℕ → ℤ → ℤ → Result JournalLine
check_line account debit credit =
    if ltb_ℤ debit (pos 0)
    then err (bad_request "Debit and credit must be non-negative")
    else if ltb_ℤ credit (pos 0)
    then err (bad_request "Debit and credit must be non-negative")
    else if same_truth (ltb_ℤ (pos 0) debit) (ltb_ℤ (pos 0) credit)
    then err (bad_request "Each journal line must contain either debit or credit")
    else ok (record { account_id = account; debit = debit; credit = credit })

abbrev pub normalize_line : JournalLineInput → Result JournalLine
normalize_line l =
    and_then (to_decimal l.debit (bad_request "Debit must be a valid number")) λ debit.
      and_then (to_decimal l.credit (bad_request "Credit must be a valid number"))
        λ credit. check_line l.account_id debit credit

abbrev pub normalize_lines : List JournalLineInput → Result (List JournalLine)
normalize_lines [] = ok []
normalize_lines (l ∷ ls) =
    let rest = normalize_lines ls in
    and_then (normalize_line l) λ line. and_then rest λ lines. ok (line ∷ lines)

abbrev pub total_of : (JournalLine → ℤ) → List JournalLine → ℤ
total_of f [] = pos 0
total_of f (l ∷ ls) = f l +ℤ total_of f ls

abbrev pub total_debit : List JournalLine → ℤ
total_debit ls = total_of (λ l. l.debit) ls

abbrev pub total_credit : List JournalLine → ℤ
total_credit ls = total_of (λ l. l.credit) ls

abbrev pub check_totals : List JournalLine → Result (List JournalLine)
check_totals ls =
    if eq_ℤ (total_debit ls) (total_credit ls)
    then ok ls
    else err (bad_request "Journal entry debits must equal credits")

unfoldable pub normalize_and_validate_lines : List JournalLineInput → Result (List JournalLine)
normalize_and_validate_lines lines =
    if ltb (length lines) 2
    then err (bad_request "Journal entry requires at least two lines")
    else and_then (normalize_lines lines) check_totals

abbrev pub entry_of : Env → ℕ → CreateJournalEntryInput → ℕ → List JournalLine → JournalEntry
entry_of env n input reference lines = record {
  id = env.uuid n;
  reference_type = input.reference_type;
  reference_id = reference;
  event_key = input.event_key;
  description = input.description;
  created_at = env.now;
  lines = lines;
}

-- Two entries that the unique column `event_key` keeps apart; `null` is unlike any.
abbrev pub same_event : Option ℕ → Option ℕ → Bool
same_event none k = false
same_event (some a) k = opt_eq (some a) k

-- What a column keeps of each amount of the lines.
abbrev pub kept_lines : (ℤ → ℤ) → List JournalLine → List JournalLine
kept_lines to_column lines =
    map (λ (l : JournalLine). record l { debit = to_column l.debit; credit = to_column l.credit })
      lines

module _ (p : Prisma) (env : Env) where
  abbrev pub find_by_event_key : ℕ → Db → Option JournalEntry
  find_by_event_key k d = p.find_first JournalEntry (λ e. opt_eq e.event_key (some k)) d.journal

  abbrev pub create_entry : CreateJournalEntryInput → ℕ → List JournalLine → Action Db JournalEntry
  create_entry input reference lines d =
      let entry = entry_of env d.drawn input reference lines in
      elim (p.create JournalEntry (λ e. same_event entry.event_key e.event_key) entry d.journal) [
        | none ↦ (err unique_violation, d)
        | some t ↦ (ok entry, record d { journal = t; drawn = d.drawn + 1 })
      ]

  -- The `catch`: an event key that another request took first means that the entry is there.
  abbrev pub or_existing_entry : ℕ → Result JournalEntry × Db → Result JournalEntry × Db
  or_existing_entry k (err Error.unique_violation, d) = elim (find_by_event_key k d) [
    | none ↦ (err unique_violation, d)
    | some e ↦ (ok e, d)
  ]
  or_existing_entry k r = r

  abbrev pub persist_entry : CreateJournalEntryInput → ℕ → List JournalLine → Action Db JournalEntry
  persist_entry input reference lines d = elim input.event_key [
    | none ↦ create_entry input reference lines d
    | some k ↦ elim (find_by_event_key k d) [
      | some e ↦ (ok e, d)
      | none ↦ or_existing_entry k (create_entry input reference lines d)
    ]
  ]

  -- With no transaction of the caller's, in one of its own; `kept` is what the columns of two decimals
  -- keep of the lines, which are checked before.
  abbrev pub create_kept_entry :
      (List JournalLine → List JournalLine) → CreateJournalEntryInput → Action Db JournalEntry
  create_kept_entry kept input = do
    reference ← or_throw input.reference_id (bad_request "Journal reference ID is required")
    lines ← (λ d. (normalize_and_validate_lines input.lines, d))
    entry ← p.transaction Db JournalEntry (persist_entry input reference (kept lines))
    log (AuditEntry.journal_created entry)
    pure entry

  -- On whole cents, of which the columns keep all.
  unfoldable pub create_journal_entry : CreateJournalEntryInput → Action Db JournalEntry
  create_journal_entry input = create_kept_entry (λ lines. lines) input
