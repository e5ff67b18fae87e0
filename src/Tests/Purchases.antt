-- ===== src/Tests/Purchases.antt =====
-- The theorem on supplier payments at concrete requests: 60 of an invoice of 100, and 60 again.
use central_backend_e_commer.Prelude.{◌≡◌, refl, true, none, List, [], ◌∷◌, arith}
use central_backend_e_commer.Prelude.Int.{pos, ◌+ℤ◌}
use central_backend_e_commer.Prisma.{list_client, list_client-Laws}
use central_backend_e_commer.Schema.{Db, Env, SupplierInvoice, SupplierInvoiceStatus}
use central_backend_e_commer.Accounting.Journal.{create_journal_entry, normalize_and_validate_lines}
use central_backend_e_commer.Accounting.Posting.{PaymentMethod, post}
use central_backend_e_commer.Purchasing.{CreateSupplierPaymentDto, create, pay_in_transaction}
use central_backend_e_commer.Purchasing.Budget.{InBudget}
use central_backend_e_commer.Purchasing.Paid.{serve_all, serve_all-InBudget}
use central_backend_e_commer.Tests.Shop.{clerk, shop}

abbrev invoice : SupplierInvoice
invoice = record {
  id = 70;
  supplier_id = 71;
  purchase_order_id = 72;
  total_amount = pos 100;
  status = SupplierInvoiceStatus.unpaid;
}

abbrev owing_shop : Db
owing_shop = record shop {
  accounts =
      record { id = 81; code = 1000; is_active = true }
      ∷ record { id = 82; code = 2000; is_active = true }
      ∷ [];
  supplier_invoices = invoice ∷ [];
}

abbrev sixty : CreateSupplierPaymentDto
sixty = record {
  supplier_invoice_id = 70;
  amount = pos 60;
  payment_method = PaymentMethod.cash;
  payment_date = none;
}

abbrev requests : List (Env × CreateSupplierPaymentDto)
requests = (clerk, sixty) ∷ (clerk, sixty) ∷ []

owing_shop-InBudget : InBudget owing_shop.supplier_invoices owing_shop.supplier_payments
owing_shop-InBudget id i e = ground arith

serve_all-InBudget_example :
    InBudget
      (serve_all list_client (λ n. n) (λ n. n) requests owing_shop).supplier_invoices
      (serve_all list_client (λ n. n) (λ n. n) requests owing_shop).supplier_payments
serve_all-InBudget_example =
    serve_all-InBudget list_client list_client-Laws (λ n. n) (λ n. n) requests owing_shop
      owing_shop-InBudget

one_payment :
    (serve_all list_client (λ n. n) (λ n. n) requests owing_shop).supplier_payments
    ≡ record {
      id = 1002;
      supplier_invoice_id = 70;
      amount = pos 60;
      payment_method = 0;
      payment_date = 100;
    }
      ∷ []
unfolding create pay_in_transaction post create_journal_entry normalize_and_validate_lines ◌+ℤ◌
one_payment = refl
