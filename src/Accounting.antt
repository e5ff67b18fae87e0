-- ===== src/Accounting.antt =====
-- src/modules/accounting: the journal, and what is posted to it.
pub mod Journal
pub mod Posting
