-- ===== src/Purchasing/Budget.antt =====
-- Invoices against the payments of them, and what one more payment or a new status does to them.
use central_backend_e_commer.Prelude.{
  ℕ, ◌≡◌, refl, sym, subst, ◌∙◌, inl, inr, true, false, Option, none, some, List, [], ◌∷◌, ◌++◌,
  arith, ◌==◌, Bool-cases,
}
use central_backend_e_commer.Prelude.Int.{ℤ, pos, ◌+ℤ◌, ◌≤ℤ◌, ltb_ℤ, +ℤ-zero}
use mathlib.Core.Option.{map as map_option}
use central_backend_e_commer.Prisma.{first, sum_where, update_where}
use central_backend_e_commer.Prisma.Keys.{first-update_where}
use central_backend_e_commer.Prisma.Sums.{sum_where-append}
use central_backend_e_commer.Schema.{Db, SupplierInvoice, SupplierInvoiceStatus, SupplierPayment}

-- What was paid of an invoice.
abbrev pub paid_of : ℕ → List SupplierPayment → ℤ
paid_of id t = sum_where (λ x. x.supplier_invoice_id == id) (λ x. x.amount) t

-- No invoice is paid more than its total.
abbrev pub InBudget : List SupplierInvoice → List SupplierPayment → Type 0
InBudget invoices payments =
    (id : ℕ) (i : SupplierInvoice)
    → first (λ (x : SupplierInvoice). x.id == id) invoices ≡ some i
    → paid_of id payments ≤ℤ i.total_amount

-- One more payment of one invoice.
paid-append :
    (id : ℕ) (t : List SupplierPayment) (x : SupplierPayment)
    → paid_of id (t ++ (x ∷ []))
      ≡ paid_of id t +ℤ sum_where (λ y. y.supplier_invoice_id == id) (λ y. y.amount) (x ∷ [])
paid-append id t x = sum_where-append (λ y. y.supplier_invoice_id == id) (λ y. y.amount) t (x ∷ [])

counted :
    (x : SupplierPayment) (id : ℕ)
    → (x.supplier_invoice_id == id) ≡ true
    → sum_where (λ (y : SupplierPayment). y.supplier_invoice_id == id) (λ y. y.amount) (x ∷ [])
      ≡ x.amount
counted x id m = rw (sum_where, m) (+ℤ-zero x.amount)

skipped :
    (x : SupplierPayment) (id : ℕ)
    → (x.supplier_invoice_id == id) ≡ false
    → sum_where (λ (y : SupplierPayment). y.supplier_invoice_id == id) (λ y. y.amount) (x ∷ [])
      ≡ pos 0
skipped x id m = rw (sum_where, m) refl

pub one_more :
    (d : Db) (x : SupplierPayment) (i : SupplierInvoice)
    → InBudget d.supplier_invoices d.supplier_payments
    → first (λ (y : SupplierInvoice). y.id == x.supplier_invoice_id) d.supplier_invoices ≡ some i
    → ltb_ℤ i.total_amount (paid_of x.supplier_invoice_id d.supplier_payments +ℤ x.amount) ≡ false
    → InBudget d.supplier_invoices (d.supplier_payments ++ (x ∷ []))
one_more d x i h found fits id j e = elim (Bool-cases (x.supplier_invoice_id == id)) [
  | inl m ↦
      let same : x.supplier_invoice_id ≡ id = ground arith in
      let found' = rw same at found in
      let fits' = rw same at fits in
      let alike : i ≡ j = cc in
      let more = paid-append id d.supplier_payments x in
      let one = counted x id m in rw (more, one, sym alike) (ground arith)
  | inr m ↦
      let more = paid-append id d.supplier_payments x in
      rw (more, skipped x id m, +ℤ-zero (paid_of id d.supplier_payments)) (h id j e)
]

abbrev pub with_status : SupplierInvoiceStatus → SupplierInvoice → SupplierInvoice
with_status s i = record i { status = s }

total_kept :
    (s : SupplierInvoiceStatus) (o : Option SupplierInvoice) (i : SupplierInvoice)
    → map_option (with_status s) o ≡ some i
    → (k : SupplierInvoice) × (o ≡ some k) × (k.total_amount ≡ i.total_amount)
total_kept s none i e = cc
total_kept s (some k) i e = (k, refl, ground arith)

pub status_only :
    (id : ℕ) (s : SupplierInvoiceStatus) (invoices : List SupplierInvoice)
    (payments : List SupplierPayment)
    → InBudget invoices payments
    → InBudget (update_where (λ i. i.id == id) (with_status s) invoices) payments
status_only id s invoices payments h j i e =
    let moved =
      first-update_where (λ (i : SupplierInvoice). i.id) j id (with_status s) (λ x. refl)
        invoices in
    elim (Bool-cases (j == id)) [
      | inl m ↦
          let moved' = rw m at moved in
          let kept = total_kept s (first (λ x. x.id == j) invoices) i (sym moved' ∙ e) in
          subst (λ t. paid_of j payments ≤ℤ t) kept.2 (h j kept.0 kept.1)
      | inr m ↦ let moved' = rw m at moved in h j i (sym moved' ∙ e)
    ]

abbrev pub Holds : Db → Type 0
Holds d = InBudget d.supplier_invoices d.supplier_payments
