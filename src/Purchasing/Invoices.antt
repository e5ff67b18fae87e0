-- ===== src/Purchasing/Invoices.antt =====
-- `SupplierInvoicesService.create`: an invoice of a supplier, which it posts to the journal.
use central_backend_e_commer.Prelude.{ℕ, ◌+◌, some, [], ◌∷◌, ◌++◌}
use central_backend_e_commer.Prelude.Int.{ℤ}
use central_backend_e_commer.Action.{Action, ok, pure, gets, modify, ◌>>=◌, ◌>>◌}
use central_backend_e_commer.Prisma.{Prisma}
use central_backend_e_commer.Schema.{
  Db, Env, Event, AuditEntry, SupplierInvoice, SupplierInvoiceStatus,
}
use central_backend_e_commer.EventBus.{publish}
use central_backend_e_commer.Accounting.Posting.{PostingInput, record_supplier_invoice}
use central_backend_e_commer.Purchasing.Orders.{find_supplier, find_one}

-- `total_amount` is `new Prisma.Decimal(dto.totalAmount)`.
pub record CreateSupplierInvoiceDto : Type 0 where
  pub supplier_id : ℕ
  pub purchase_order_id : ℕ
  pub total_amount : ℤ

-- The event key `supplier-invoice-created:<id>:ap` and the description's text, as the numbers that stand
-- for them, are `key_of` and `text_of`.
module _ (p : Prisma) (env : Env) (key_of text_of : ℕ → ℕ) where
  abbrev pub invoice_of : ℕ → CreateSupplierInvoiceDto → SupplierInvoice
  invoice_of n dto = record {
    id = env.uuid n;
    supplier_id = dto.supplier_id;
    purchase_order_id = dto.purchase_order_id;
    total_amount = dto.total_amount;
    status = SupplierInvoiceStatus.unpaid;
  }

  abbrev pub create_invoice : SupplierInvoice → Action Db SupplierInvoice
  create_invoice x d = (
    ok x,
    record d {
      supplier_invoices = p.insert SupplierInvoice x d.supplier_invoices;
      drawn = d.drawn + 1;
    },
  )

  abbrev pub invoice_posting : SupplierInvoice → PostingInput
  invoice_posting x = record {
    reference_id = some x.id;
    amount = some x.total_amount;
    event_key = some (key_of x.id);
    description = text_of x.id;
  }

  abbrev pub invoice_in_transaction : CreateSupplierInvoiceDto → Action Db SupplierInvoice
  invoice_in_transaction dto = do
    n ← gets (λ d. d.drawn)
    created ← create_invoice (invoice_of n dto)
    record_supplier_invoice p env (invoice_posting created)
    publish p env env.actor_id (Event.supplier_invoice_created created)
    pure created

  unfoldable pub create : CreateSupplierInvoiceDto → Action Db SupplierInvoice
  create dto = do
    find_supplier p env dto.supplier_id
    find_one p env dto.purchase_order_id
    created ← p.transaction Db SupplierInvoice (invoice_in_transaction dto)
    modify (λ d. record d { audit = d.audit ++ (AuditEntry.supplier_invoice_logged created ∷ []) })
    pure created
