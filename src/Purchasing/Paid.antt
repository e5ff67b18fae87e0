-- ===== src/Purchasing/Paid.antt =====
-- What suppliers are paid, against what their invoices ask for: `create`, request after request.
use central_backend_e_commer.Prelude.{
  ℕ, ◌≡◌, refl, sym, subst, false, Option, none, some, List, [], ◌∷◌, ◌==◌,
}
use central_backend_e_commer.Prelude.Int.{ℤ, ◌+ℤ◌, ltb_ℤ}
use central_backend_e_commer.Action.{
  Result, ok, err, record_not_found, bad_request, not_found, gets, or_throw, throw_if,
}
use central_backend_e_commer.Action.Keeps.{IsPreorder, Keeps-bind}
use central_backend_e_commer.Action.Leads.{
  Leads, Returns, Leads-bind, Leads-gets, Leads-throw_if, Leads-pure, Leads-shift, commit_keeps,
}
use central_backend_e_commer.Prisma.{Prisma, Laws, list_client, client-eq, first, update_where}
use central_backend_e_commer.Schema.{
  Db, Env, Event, SupplierInvoice, SupplierInvoiceStatus, SupplierPayment,
}
use central_backend_e_commer.EventBus.{publish}
use central_backend_e_commer.Purchasing.{
  CreateSupplierPaymentDto, payment_of, next_status, find_invoice, paid_amount, create_payment,
  update_invoice_status, posting_of, pay_in_transaction, log_payment, create,
}
use central_backend_e_commer.Purchasing.Budget.{
  paid_of, InBudget, one_more, with_status, status_only, Holds,
}
use central_backend_e_commer.Purchasing.Postings.{payment_keeps}

abbrev Stays : Db → Db → Type 0
Stays s t = Holds s → Holds t

Stays-IsPreorder : IsPreorder Stays
Stays-IsPreorder = record { stays = λ s h. h; chains = λ s t u f g h. g (f h) }

or_throw-Holds :
    (d : Db) (o : Option SupplierInvoice)
    → Holds d
    → Holds (or_throw o (not_found "Supplier invoice not found") d).1
or_throw-Holds d none h = h
or_throw-Holds d (some i) h = h

module _ (env : Env) (key_of text_of : ℕ → ℕ) where
  -- What the request read in its transaction.
  record Read (k : ℕ) (i : SupplierInvoice) (s : Db) : Type 0 where
    pub fits : Holds s
    pub found : first (λ (x : SupplierInvoice). x.id == k) s.supplier_invoices ≡ some i

  read : (k : ℕ) → Leads Holds (find_invoice list_client env key_of text_of k) (λ i. Read k i)
  read k = record {
    holds = λ s h. go s h (first (λ (x : SupplierInvoice). x.id == k) s.supplier_invoices) refl;
  }
    where
      go :
          (s : Db)
          → Holds s
          → (o : Option SupplierInvoice)
          → first (λ (x : SupplierInvoice). x.id == k) s.supplier_invoices ≡ o
          → Returns (λ i. Read k i) (or_throw o (not_found "Supplier invoice not found") s)
      go s h none e = tt
      go s h (some i) e = record { fits = h; found = e }

  -- It did not throw, so the payment fits.
  Fits : ℕ → CreateSupplierPaymentDto → SupplierInvoice → Db → Type 0
  Fits k dto i s =
      Read k i s × (ltb_ℤ i.total_amount (paid_of k s.supplier_payments +ℤ dto.amount) ≡ false)

  pays :
      (k : ℕ) (dto : CreateSupplierPaymentDto) (i : SupplierInvoice) (n : ℕ)
      → Leads
          (Fits k dto i)
          (create_payment list_client env key_of text_of (payment_of env n k dto))
          (λ _. Holds)
  unfolding Fits
  pays k dto i n = record {
    holds = λ s h. one_more s (payment_of env n k dto) i h.0.fits h.0.found h.1;
  }

  restates :
      (id : ℕ) (t : SupplierInvoiceStatus)
      → Leads Holds (update_invoice_status list_client env key_of text_of id t) (λ _. Holds)
  restates id t = record {
    holds = λ s h. go s h (first (λ (x : SupplierInvoice). x.id == id) s.supplier_invoices);
  }
    where
      go :
          (s : Db)
          → Holds s
          → (o : Option SupplierInvoice)
          → Returns
              (λ _. Holds)
              (elim (elim o as (λ _. Option (SupplierInvoice × List SupplierInvoice)) [
                | none ↦ none
                | some r ↦ some (
                  with_status t r,
                  update_where (λ i. i.id == id) (with_status t) s.supplier_invoices,
                )
              ])
                as (λ _. Result SupplierInvoice × Db) [
                  | none ↦ (err record_not_found, s)
                  | some (i, u) ↦ (ok i, record s { supplier_invoices = u })
                ])
      go s h none = tt
      go s h (some r) = status_only id t s.supplier_invoices s.supplier_payments h

  checks :
      (k : ℕ) (dto : CreateSupplierPaymentDto) (i : SupplierInvoice) (b : ℤ)
      → Leads
          (λ s. Read k i s × (b ≡ paid_of k s.supplier_payments))
          (throw_if
            (ltb_ℤ i.total_amount (b +ℤ dto.amount))
            (bad_request "Supplier payment exceeds invoice balance"))
          (λ _. Fits k dto i)
  unfolding Fits
  checks k dto i b =
      Leads-shift _
        (λ u s h. (h.0.0, subst (λ z. ltb_ℤ i.total_amount (z +ℤ dto.amount) ≡ false) h.0.1 h.1))
        (Leads-throw_if (ltb_ℤ i.total_amount (b +ℤ dto.amount))
          (bad_request "Supplier payment exceeds invoice balance"))

  pay_keeps :
      (k : ℕ) (dto : CreateSupplierPaymentDto)
      → Leads Holds (pay_in_transaction list_client env key_of text_of k dto) (λ _. Holds)
  unfolding pay_in_transaction
  pay_keeps k dto =
      Leads-bind (λ i. Read k i) (find_invoice list_client env key_of text_of k) _ (read k)
        λ i.
          Leads-bind (λ b s. Read k i s × (b ≡ paid_of k s.supplier_payments))
            (gets (paid_amount list_client env key_of text_of k)) _
            (record { holds = λ s h. (h, refl) })
            λ b. Leads-bind _ _ _ (checks k dto i b) λ u.
              Leads-bind (λ _. Fits k dto i) (gets (λ d. d.drawn)) _ (Leads-gets (λ d. d.drawn))
                λ n. Leads-bind _ _ _ (pays k dto i n) λ x.
                  Leads-bind _ _ _ (restates k (next_status (b +ℤ dto.amount) i.total_amount)) λ i'.
                    Leads-bind _ _ _
                      (payment_keeps env dto.payment_method
                        (posting_of list_client env key_of text_of x))
                      λ e.
                        Leads-bind (λ _. Holds)
                          (publish list_client env env.actor_id (Event.supplier_payment_created x))
                          _ (record { holds = λ s h. h }) λ u. Leads-pure x

  -- Whether it returns or throws, a request keeps the invoices in budget.
  create_keeps :
      (dto : CreateSupplierPaymentDto) (d : Db)
      → Holds d
      → Holds (create list_client env key_of text_of dto d).1
  unfolding create
  create_keeps dto d =
      (Keeps-bind Stays Stays-IsPreorder
          (find_invoice list_client env key_of text_of dto.supplier_invoice_id) _
          (record {
            holds = λ s. or_throw-Holds s (
                first (λ (x : SupplierInvoice). x.id == dto.supplier_invoice_id)
                  s.supplier_invoices);
          })
          λ i.
            Keeps-bind Stays Stays-IsPreorder
              (list_client.transaction Db SupplierPayment
                (pay_in_transaction list_client env key_of text_of i.id dto))
              (log_payment list_client env key_of text_of)
              (record {
                holds =
                    commit_keeps (pay_in_transaction list_client env key_of text_of i.id dto)
                      (pay_keeps i.id dto);
              })
              λ x. record { holds = λ s h. h }).holds
        d

-- Requests, one after another, each with its own clock and identities.
abbrev pub serve_all : Prisma → (ℕ → ℕ) → (ℕ → ℕ) → List (Env × CreateSupplierPaymentDto) → Db → Db
serve_all p key_of text_of [] d = d
serve_all p key_of text_of ((env, dto) ∷ rest) d =
    serve_all p key_of text_of rest (create p env key_of text_of dto d).1

list_serve_all :
    (key_of text_of : ℕ → ℕ) (requests : List (Env × CreateSupplierPaymentDto)) (d : Db)
    → Holds d
    → Holds (serve_all list_client key_of text_of requests d)
list_serve_all key_of text_of [] d h = h
list_serve_all key_of text_of ((env, dto) ∷ rest) d h =
    list_serve_all key_of text_of rest _ (create_keeps env key_of text_of dto d h)

-- No sequence of payment requests, refused ones among them, pays any invoice more than its total: if
-- the payments on record keep within the totals of the invoices they pay, they still do after it.
pub serve_all-InBudget :
    (p : Prisma)
    → Laws p
    → (key_of text_of : ℕ → ℕ) (requests : List (Env × CreateSupplierPaymentDto)) (d : Db)
    → InBudget d.supplier_invoices d.supplier_payments
    → InBudget
        (serve_all p key_of text_of requests d).supplier_invoices
        (serve_all p key_of text_of requests d).supplier_payments
serve_all-InBudget p l key_of text_of requests d h =
    subst
      (λ q.
        InBudget (serve_all q key_of text_of requests d).supplier_invoices
          (serve_all q key_of text_of requests d).supplier_payments)
      (sym (client-eq l)) (list_serve_all key_of text_of requests d h)
