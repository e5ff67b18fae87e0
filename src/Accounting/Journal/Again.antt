-- ===== src/Accounting/Journal/Again.antt =====
-- `createJournalEntry`, asked for again under the same event key.
use central_backend_e_commer.Prelude.{
  ℕ, ◌≡◌, inl, inr, some, List, [], ◌∷◌, arith, Option-cases, opt_eq,
}
use central_backend_e_commer.Action.{ok, Result-cases}
use central_backend_e_commer.Prisma.{Prisma, Laws, list_client, client-eq}
use central_backend_e_commer.Prisma.Keys.{first-append}
use central_backend_e_commer.Schema.{Db, Env, JournalLine, JournalEntry}
use central_backend_e_commer.Accounting.Journal.{
  CreateJournalEntryInput, entry_of, find_by_event_key, persist_entry, normalize_and_validate_lines,
  create_journal_entry,
}

-- After an entry was written or found, it is found.
persist_found :
    (env : Env) (input : CreateJournalEntryInput) (n k : ℕ) (ls : List JournalLine) (d : Db)
    (e : JournalEntry)
    → input.event_key ≡ some k
    → (persist_entry list_client env input n ls d).0 ≡ ok e
    → find_by_event_key list_client env k (persist_entry list_client env input n ls d).1 ≡ some e
persist_found env input n k ls d e key h =
    elim (Option-cases (find_by_event_key list_client env k d)) [
      | inr (x, found) ↦ ground arith
      | inl new ↦
          let law =
            first-append (λ (x : JournalEntry). opt_eq x.event_key (some k)) d.journal
              (entry_of env d.drawn input n ls ∷ []) in
          ground (arith, law)
    ]

-- So a request that finds it gives it back and leaves the journal alone.
found_again :
    (env : Env) (input : CreateJournalEntryInput) (n k : ℕ) (ls : List JournalLine) (d : Db)
    (e : JournalEntry)
    → input.event_key ≡ some k
    → input.reference_id ≡ some n
    → normalize_and_validate_lines input.lines ≡ ok ls
    → find_by_event_key list_client env k d ≡ some e
    → ((create_journal_entry list_client env input d).0 ≡ ok e)
      × ((create_journal_entry list_client env input d).1.journal ≡ d.journal)
unfolding create_journal_entry
found_again env input n k ls d e key given fit found = ground arith

again_list :
    (env : Env) (input : CreateJournalEntryInput) (k : ℕ) (d : Db) (e : JournalEntry)
    → input.event_key ≡ some k
    → (create_journal_entry list_client env input d).0 ≡ ok e
    → let d' = (create_journal_entry list_client env input d).1 in
      ((create_journal_entry list_client env input d').0 ≡ ok e)
      × ((create_journal_entry list_client env input d').1.journal ≡ d'.journal)
unfolding create_journal_entry
again_list env input k d e key h = elim (Option-cases input.reference_id) [
  | inl missing ↦ absurd (ground arith)
  | inr (n, given) ↦ elim (Result-cases (normalize_and_validate_lines input.lines)) [
    | inr (x, unfit) ↦ absurd (ground arith)
    | inl (ls, fit) ↦
        let d' = (create_journal_entry list_client env input d).1 in
        let done : (persist_entry list_client env input n ls d).0 ≡ ok e = ground arith in
        let there = persist_found env input n k ls d e key done in
        found_again env input n k ls d' e key given fit (ground (arith, there))
  ]
]

-- If a request with an event key gives an entry, the same request made again gives that entry and
-- leaves the journal as it is.
pub post_again :
    {p : Prisma}
    → Laws p
    → (env : Env) (input : CreateJournalEntryInput) (k : ℕ) (d : Db) (e : JournalEntry)
    → input.event_key ≡ some k
    → (create_journal_entry p env input d).0 ≡ ok e
    → let d' = (create_journal_entry p env input d).1 in
      ((create_journal_entry p env input d').0 ≡ ok e)
      × ((create_journal_entry p env input d').1.journal ≡ d'.journal)
post_again laws env input k d e key h =
    let same = client-eq laws in rw same (again_list env input k d e key (rw same at h))
