-- ===== src/Schema/Books.antt =====
-- The accounts and their journal (models `Account`, `JournalEntry` and `JournalLine` of prisma/schema.prisma). Amounts
-- are whole cents, the columns' scale; a line's own identifier is left out.
use central_backend_e_commer.Prelude.{ℕ, Bool, Option, List, String}
use central_backend_e_commer.Prelude.Int.{ℤ}

pub record JournalLine : Type 0 where
  pub account_id : ℕ
  pub debit : ℤ
  pub credit : ℤ

pub record JournalEntry : Type 0 where
  pub id : ℕ
  pub reference_type : ℕ
  pub reference_id : ℕ
  pub event_key : Option ℕ
  pub description : ℕ
  pub created_at : ℕ
  pub lines : List JournalLine

pub record Account : Type 0 where
  pub id : ℕ
  pub code : ℕ
  pub is_active : Bool

-- What is emitted when an entry was created: why, and of which entry. It goes to handlers at once and
-- does not wait in the outbox.
pub record JournalCreated : Type 0 where
  pub trigger : String
  pub entry_id : ℕ
  pub reference_type : ℕ
  pub reference_id : ℕ
