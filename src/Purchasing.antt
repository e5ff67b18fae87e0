-- ===== src/Purchasing.antt =====
-- `SupplierPaymentsService.create`: a payment of an invoice, which it brings closer to paid, and which it
-- posts to the journal.
pub mod Orders
pub mod Receipts
pub mod Invoices
pub mod Budget
pub mod Postings
pub mod Paid
use central_backend_e_commer.Prelude.{
  ℕ, ◌+◌, Bool, true, false, Option, none, some, List, [], ◌∷◌, ◌++◌, ◌==◌, if◌then◌else◌,
}
use central_backend_e_commer.Prelude.Int.{ℤ, ◌+ℤ◌, leb_ℤ, ltb_ℤ}
use central_backend_e_commer.Action.{
  Action, Result, ok, err, bad_request, not_found, record_not_found, pure, gets, or_throw, throw_if,
  modify, ◌>>=◌, ◌>>◌,
}
use central_backend_e_commer.Prisma.{Prisma}
use central_backend_e_commer.Schema.{
  Db, Env, Event, AuditEntry, SupplierInvoice, SupplierInvoiceStatus, SupplierPayment,
}
use central_backend_e_commer.EventBus.{publish}
use central_backend_e_commer.Accounting.Posting.{
  PaymentMethod, PostingInput, record_supplier_payment,
}

-- `amount` is `new Prisma.Decimal(dto.amount)`.
pub record CreateSupplierPaymentDto : Type 0 where
  pub supplier_invoice_id : ℕ
  pub amount : ℤ
  pub payment_method : PaymentMethod
  pub payment_date : Option ℕ

abbrev pub payment_method_code : PaymentMethod → ℕ
payment_method_code PaymentMethod.cash = 0
payment_method_code PaymentMethod.card = 1
payment_method_code PaymentMethod.transfer = 2
payment_method_code PaymentMethod.online = 3
payment_method_code PaymentMethod.qr_manual = 4

abbrev pub payment_of : Env → ℕ → ℕ → CreateSupplierPaymentDto → SupplierPayment
payment_of env n invoice dto = record {
  id = env.uuid n;
  supplier_invoice_id = invoice;
  amount = dto.amount;
  payment_method = payment_method_code dto.payment_method;
  payment_date = elim dto.payment_date [ none ↦ env.now | some t ↦ t ];
}

-- `paidAfter.gte(totalAmount) ? PAID : PARTIAL`
abbrev pub next_status : ℤ → ℤ → SupplierInvoiceStatus
next_status paid_after total =
    if leb_ℤ total paid_after then SupplierInvoiceStatus.paid else SupplierInvoiceStatus.partial

-- The event key `supplier-payment-created:<id>:cash` and the description's text, as the numbers
-- that stand for them, are `key_of` and `text_of`.
module _ (p : Prisma) (env : Env) (key_of text_of : ℕ → ℕ) where
  -- `SupplierInvoicesService.findOne`
  abbrev pub find_invoice : ℕ → Action Db SupplierInvoice
  find_invoice id = do
    found ← gets (λ d. p.find_first SupplierInvoice (λ i. i.id == id) d.supplier_invoices)
    or_throw found (not_found "Supplier invoice not found")

  abbrev pub paid_amount : ℕ → Db → ℤ
  paid_amount id d =
      p.sum SupplierPayment (λ x. x.supplier_invoice_id == id) (λ x. x.amount) d.supplier_payments

  abbrev pub create_payment : SupplierPayment → Action Db SupplierPayment
  create_payment x d = (
    ok x,
    record d {
      supplier_payments = p.insert SupplierPayment x d.supplier_payments;
      drawn = d.drawn + 1;
    },
  )

  abbrev pub update_invoice_status : ℕ → SupplierInvoiceStatus → Action Db SupplierInvoice
  update_invoice_status id s d =
      elim (p.update SupplierInvoice (λ i. i.id == id) (λ i. record i { status = s })
        d.supplier_invoices) [
          | none ↦ (err record_not_found, d)
          | some (i, t) ↦ (ok i, record d { supplier_invoices = t })
        ]

  abbrev pub posting_of : SupplierPayment → PostingInput
  posting_of x = record {
    reference_id = some x.id;
    amount = some x.amount;
    event_key = some (key_of x.id);
    description = text_of x.id;
  }

  -- The transaction's callback, on `invoice.id`; the lock `FOR UPDATE` reads nothing.
  unfoldable pub pay_in_transaction : ℕ → CreateSupplierPaymentDto → Action Db SupplierPayment
  pay_in_transaction invoice dto = do
    locked ← find_invoice invoice
    paid_before ← gets (paid_amount invoice)
    throw_if (ltb_ℤ locked.total_amount (paid_before +ℤ dto.amount))
        (bad_request "Supplier payment exceeds invoice balance")
    drawn ← gets (λ d. d.drawn)
    payment ← create_payment (payment_of env drawn invoice dto)
    update_invoice_status invoice (next_status (paid_before +ℤ dto.amount) locked.total_amount)
    record_supplier_payment p env dto.payment_method (posting_of payment)
    publish p env env.actor_id (Event.supplier_payment_created payment)
    pure payment

  abbrev pub log_payment : SupplierPayment → Action Db SupplierPayment
  log_payment payment = do
    modify (λ d. record d { audit = d.audit ++ (AuditEntry.supplier_payment_logged payment ∷ []) })
    pure payment

  unfoldable pub create : CreateSupplierPaymentDto → Action Db SupplierPayment
  create dto = do
    invoice ← find_invoice dto.supplier_invoice_id
    payment ← p.transaction Db SupplierPayment (pay_in_transaction invoice.id dto)
    log_payment payment
