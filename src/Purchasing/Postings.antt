-- ===== src/Purchasing/Postings.antt =====
-- The posting of a supplier payment writes no invoice and no payment.
use central_backend_e_commer.Prelude.{ℕ, Option, none, some, List, [], ◌∷◌, arith, String}
use central_backend_e_commer.Prelude.Int.{ℤ, pos, leb_ℤ}
use central_backend_e_commer.Prelude.Text.{template}
use central_backend_e_commer.Action.{
  Result, ok, err, bad_request, pure, gets, or_throw, throw_if, ◌>>◌,
}
use central_backend_e_commer.Action.Leads.{
  Leads, Leads-bind, Leads-gets, Leads-or_throw, Leads-test, Leads-pure, committed_returns,
}
use central_backend_e_commer.Prisma.{list_client}
use central_backend_e_commer.Schema.{Db, Env, AuditEntry, JournalEntry, JournalLine}
use central_backend_e_commer.Orders.{log}
use central_backend_e_commer.Accounting.Journal.{
  JournalLineInput, CreateJournalEntryInput, normalize_and_validate_lines, persist_entry,
  create_journal_entry,
}
use central_backend_e_commer.Accounting.Posting.{
  PostingInput, PaymentMethod, AccountCode, JournalReferenceType, get_required_account,
  find_by_code, required_error, is_unusable, emit_journal_created, to_decimal, to_positive_decimal,
  debit_line, credit_line, account_code_for_payment_method, post, record_supplier_payment,
}
use central_backend_e_commer.Purchasing.Budget.{Holds}

module _ (env : Env) where
  persist_keeps :
      (input : CreateJournalEntryInput) (n : ℕ) (lines : List JournalLine)
      → Leads Holds (persist_entry list_client env input n lines) (λ _. Holds)
  persist_keeps input n lines = record { holds = λ s h. ground arith }

  steady : {A : Type 0} (r : Result A) → Leads Holds (λ d. (r, d)) (λ _. Holds)
  steady (ok a) = record { holds = λ s h. h }
  steady (err e) = record { holds = λ s h. tt }

  journal_keeps :
      (input : CreateJournalEntryInput)
      → Leads Holds (create_journal_entry list_client env input) (λ _. Holds)
  unfolding create_journal_entry
  journal_keeps input =
      Leads-bind _ (or_throw input.reference_id (bad_request "Journal reference ID is required")) _
        (Leads-or_throw input.reference_id (bad_request "Journal reference ID is required"))
        λ n.
          Leads-bind (λ _. Holds) (λ d. (normalize_and_validate_lines input.lines, d)) _
            (steady (normalize_and_validate_lines input.lines))
            λ lines.
              Leads-bind (λ _. Holds)
                (list_client.transaction Db JournalEntry
                  (persist_entry list_client env input n lines))
                (λ e. log (AuditEntry.journal_created e) >> pure e)
                (record { holds = λ s h. committed_returns _ (persist_keeps input n lines) s h })
                λ e. record { holds = λ s h. h }

  required_keeps :
      (code : AccountCode) → Leads Holds (get_required_account list_client env code) (λ _. Holds)
  required_keeps code =
      Leads-bind (λ _. Holds) (gets (find_by_code list_client env code)) _
        (Leads-gets (find_by_code list_client env code))
        λ found.
          Leads-bind (λ _. Holds)
            (throw_if (is_unusable found) (required_error list_client env code)) _
            (Leads-test (is_unusable found) (required_error list_client env code))
            λ u. Leads-or_throw found (required_error list_client env code)

  post_keeps :
      (trigger : String) (type : JournalReferenceType) (input : PostingInput)
      (lines : List JournalLineInput)
      → Leads Holds (post list_client env trigger type input lines) (λ _. Holds)
  unfolding post
  post_keeps trigger type input lines =
      Leads-bind (λ _. Holds) _ (emit_journal_created list_client env trigger) (journal_keeps _)
        λ e. record { holds = λ s h. h }

  positive_keeps :
      (amount : Option ℤ) (name : String)
      → Leads Holds (to_positive_decimal amount name) (λ _. Holds)
  positive_keeps none name = record { holds = λ s h. tt }
  positive_keeps (some v) name =
      Leads-bind (λ _. Holds) (to_decimal (some v) name) _ (record { holds = λ s h. h })
        λ w.
          Leads-bind (λ _. Holds)
            (throw_if (leb_ℤ w (pos 0))
              (bad_request (template name " must be greater than zero" "" "")))
            _
            (Leads-test (leb_ℤ w (pos 0))
              (bad_request (template name " must be greater than zero" "" "")))
            λ u. Leads-pure w

  pub payment_keeps :
      (method : PaymentMethod) (input : PostingInput)
      → Leads Holds (record_supplier_payment list_client env method input) (λ _. Holds)
  payment_keeps method input =
      Leads-bind (λ _. Holds) (to_positive_decimal input.amount "Supplier payment amount") _
        (positive_keeps input.amount "Supplier payment amount")
        λ v.
          Leads-bind (λ _. Holds)
            (get_required_account list_client env AccountCode.accounts_payable) _
            (required_keeps AccountCode.accounts_payable)
            λ x.
              Leads-bind (λ _. Holds)
                (get_required_account list_client env (account_code_for_payment_method method)) _
                (required_keeps (account_code_for_payment_method method))
                λ y.
                  post_keeps "SUPPLIER_PAYMENT" JournalReferenceType.payment input
                    (debit_line x v ∷ credit_line y v ∷ [])
