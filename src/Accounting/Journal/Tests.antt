-- ===== src/Accounting/Journal/Tests.antt =====
-- Requests to post entries: a sale, one that does not balance, and the sale again.
use central_backend_e_commer.Prelude.{ℕ, ◌+◌, ◌*◌, ◌/◌, map, ◌≡◌, refl, none, some, List, [], ◌∷◌}
use central_backend_e_commer.Prelude.Int.{ℤ, pos, negsuc, ◌+ℤ◌}
use central_backend_e_commer.Action.{ok}
use central_backend_e_commer.Prisma.{list_client, list_client-Laws}
use central_backend_e_commer.Schema.{Env, empty_db, JournalLine, JournalEntry}
use central_backend_e_commer.Accounting.Journal.{
  JournalLineInput, CreateJournalEntryInput, normalize_and_validate_lines, entry_of,
  create_journal_entry, total_debit, total_credit,
}
use central_backend_e_commer.Accounting.Journal.Balance.{
  BooksBalance, post_all, post_all-BooksBalance,
}
use central_backend_e_commer.Accounting.Journal.Again.{post_again}

abbrev clerk : Env
clerk = record { uuid = λ n. n + 1000; now = 9; refund_key = λ id. id; actor_id = none }

abbrev debit : ℕ → ℕ → JournalLineInput
debit account n = record { account_id = account; debit = some (some (pos n)); credit = none }

abbrev credit : ℕ → ℕ → JournalLineInput
credit account n = record { account_id = account; debit = none; credit = some (some (pos n)) }

abbrev posting : ℕ → List JournalLineInput → CreateJournalEntryInput
posting key lines = record {
  reference_type = 1;
  reference_id = some 4;
  event_key = some key;
  description = 6;
  lines = lines;
}

abbrev sale : CreateJournalEntryInput
sale = posting 11 (debit 101 80 ∷ credit 401 50 ∷ credit 402 30 ∷ [])

abbrev slip : CreateJournalEntryInput
slip = posting 12 (debit 101 80 ∷ credit 401 50 ∷ [])

abbrev sale_lines : List JournalLine
sale_lines =
    record { account_id = 101; debit = pos 80; credit = pos 0 }
    ∷ record { account_id = 401; debit = pos 0; credit = pos 50 }
    ∷ record { account_id = 402; debit = pos 0; credit = pos 30 }
    ∷ []

abbrev postings : List (Env × CreateJournalEntryInput)
postings = (clerk, sale) ∷ (clerk, slip) ∷ (clerk, sale) ∷ []

-- A column that counts in tens, and rounds a half up; the amounts of the postings are tens.
abbrev to_tens : ℤ → ℤ
to_tens (pos n) = pos ((n + 5) / 10 * 10)
to_tens (negsuc n) = negsuc n

post_all-BooksBalance_example :
    BooksBalance (post_all list_client to_tens postings empty_db).journal
post_all-BooksBalance_example =
    post_all-BooksBalance list_client-Laws to_tens postings empty_db
      (
        ((refl, refl), ((refl, refl), ((refl, refl), tt))),
        (
          ((refl, refl), ((refl, refl), tt)),
          (((refl, refl), ((refl, refl), ((refl, refl), tt))), tt),
        ),
      )
      tt

-- Amounts that the column does not keep: fives against a ten, which pass the checks, are stored as tens.
abbrev fives : CreateJournalEntryInput
fives = posting 13 (debit 101 5 ∷ debit 102 5 ∷ credit 401 10 ∷ [])

abbrev totals : JournalEntry → ℤ × ℤ
totals e = (total_debit e.lines, total_credit e.lines)

parted :
    map totals (post_all list_client to_tens ((clerk, fives) ∷ []) empty_db).journal
    ≡ (pos 20, pos 10) ∷ []
unfolding normalize_and_validate_lines ◌+ℤ◌
parted = refl

post_again_example :
    let d' = (create_journal_entry list_client clerk sale empty_db).1 in
    ((create_journal_entry list_client clerk sale d').0 ≡ ok (entry_of clerk 0 sale 4 sale_lines))
    × ((create_journal_entry list_client clerk sale d').1.journal ≡ d'.journal)
unfolding create_journal_entry normalize_and_validate_lines ◌+ℤ◌
post_again_example =
    post_again list_client-Laws clerk sale 11 empty_db (entry_of clerk 0 sale 4 sale_lines) refl
      refl
