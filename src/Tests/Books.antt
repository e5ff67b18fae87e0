-- ===== src/Tests/Books.antt =====
-- The theorem on postings at concrete inputs.
use central_backend_e_commer.Prelude.{ℕ, ◌≡◌, refl, true, some, List, [], ◌∷◌}
use central_backend_e_commer.Prelude.Int.{pos, ◌+ℤ◌}
use central_backend_e_commer.Prisma.{list_client, list_client-Laws}
use central_backend_e_commer.Schema.{Db, Account}
use central_backend_e_commer.Accounting.Journal.{
  CreateJournalEntryInput, entry_of, normalize_and_validate_lines, create_journal_entry,
}
use central_backend_e_commer.Accounting.Posting.{PostingInput, post}
use central_backend_e_commer.Accounting.Posting.Effects.{balance, two_lines}
use central_backend_e_commer.Accounting.Posting.Reversal.{
  Reversible, record_posting, reverse_posting, reversal_restores,
}
use central_backend_e_commer.Tests.Shop.{clerk, shop}

abbrev accounts : List Account
accounts =
    record { id = 81; code = 1100; is_active = true }
    ∷ record { id = 82; code = 4000; is_active = true }
    ∷ []

abbrev open_shop : Db
open_shop = record shop { accounts = accounts }

abbrev sale_of : ℕ → PostingInput
sale_of key = record {
  reference_id = some 2;
  amount = some (pos 80);
  event_key = some key;
  description = 3;
}

abbrev entry_input : ℕ → CreateJournalEntryInput
entry_input key = record {
  reference_type = 0;
  reference_id = some 2;
  event_key = some key;
  description = 3;
  lines = [];
}

reversal_restores_example :
    balance 81
      (reverse_posting list_client clerk Reversible.order_sale
        (sale_of 91)
        (record_posting list_client clerk Reversible.order_sale (sale_of 90) open_shop).1).1.journal
    ≡ pos 0
unfolding post create_journal_entry normalize_and_validate_lines ◌+ℤ◌
reversal_restores_example =
    reversal_restores list_client-Laws clerk clerk Reversible.order_sale (sale_of 90) (sale_of 91)
      open_shop (some (entry_of clerk 2 (entry_input 90) 2 (two_lines 81 82 (pos 80))))
      (some (entry_of clerk 3 (entry_input 91) 2 (two_lines 82 81 (pos 80)))) 81 refl refl refl refl
      refl
