-- ===== src/Accounting/Posting/Reversal.antt =====
-- Postings and their reversals.
use central_backend_e_commer.Prelude.{
  ℕ, ◌≡◌, refl, ap, subst, ◌∙◌, inl, inr, true, false, Option, none, some, arith, ◌==◌, Bool-cases,
  String,
}
use central_backend_e_commer.Prelude.Int.{ℤ, pos, ◌+ℤ◌, leb_ℤ, int_laws}
use central_backend_e_commer.Action.{Action, Result, ok}
use central_backend_e_commer.Action.Leads.{Leads, Returns, Leads-bind, Leads-return}
use central_backend_e_commer.Prisma.{Prisma, Laws, list_client, client-eq}
use central_backend_e_commer.Schema.{Db, Env, JournalEntry, Account}
use central_backend_e_commer.Accounting.Posting.{
  AccountCode, PaymentMethod, PostingInput, JournalReferenceType, account_code_for_payment_method,
  find_by_code, some_entry, record_order_sale, reverse_order_sale, record_payment_received,
  reverse_payment_received, record_inventory_cogs, reverse_inventory_cogs,
  record_inventory_adjustment_decrease, record_inventory_adjustment_increase,
  record_cogs_and_inventory, cost, return_of_cost,
}
use central_backend_e_commer.Accounting.Posting.Effects.{
  line_balance, balance, balance-append, two_lines, IsFresh, Posted, Effect, debit_first,
  credit_first, given, required, posts,
}

-- An operation that has a reversal.
pub data Reversible : Type 0 where
  order_sale inventory_cogs inventory_adjustment : Reversible
  payment : PaymentMethod → Reversible

module _ (p : Prisma) (env : Env) where
  abbrev pub record_posting : Reversible → PostingInput → Action Db (Option JournalEntry)
  record_posting order_sale input = some_entry p env (record_order_sale p env input)
  record_posting inventory_cogs input = record_inventory_cogs p env input
  record_posting inventory_adjustment input = record_inventory_adjustment_decrease p env input
  record_posting (payment method) input =
      some_entry p env (record_payment_received p env method input)

  abbrev pub reverse_posting : Reversible → PostingInput → Action Db (Option JournalEntry)
  reverse_posting order_sale input = some_entry p env (reverse_order_sale p env input)
  reverse_posting inventory_cogs input = reverse_inventory_cogs p env input
  reverse_posting inventory_adjustment input = record_inventory_adjustment_increase p env input
  reverse_posting (payment method) input =
      some_entry p env (reverse_payment_received p env method input)

-- The accounts that an operation debits and credits.
abbrev debit_of : Reversible → AccountCode
debit_of order_sale = AccountCode.accounts_receivable
debit_of inventory_cogs = AccountCode.cost_of_goods_sold
debit_of inventory_adjustment = AccountCode.cost_of_goods_sold
debit_of (payment method) = account_code_for_payment_method method

abbrev credit_of : Reversible → AccountCode
credit_of order_sale = AccountCode.sales_revenue
credit_of inventory_cogs = AccountCode.inventory
credit_of inventory_adjustment = AccountCode.inventory
credit_of (payment method) = AccountCode.accounts_receivable

module _ (env : Env) where
  some_lem :
      (m : Action Db JournalEntry) (P E : Db → Type 0)
      → Leads P m (λ e. E)
      → Leads P (some_entry list_client env m) (λ e. E)
  some_lem m P E h = Leads-bind _ _ _ h λ e. Leads-return (some e) (λ s x. x)

  cost_lem :
      (name trigger : String) (type : JournalReferenceType) (input : PostingInput) (d : Db)
      → IsFresh input.event_key d.journal
      → Leads
          (λ s. s ≡ d)
          (record_cogs_and_inventory list_client env name trigger type (cost list_client env) input)
          (λ e s. Effect env AccountCode.cost_of_goods_sold AccountCode.inventory input.amount d s)
  cost_lem name trigger type input d fresh = Leads-bind _ _ _ (given input.amount name d) λ v.
      elim (Bool-cases (leb_ℤ v (pos 0))) [
        | inl m ↦ rw m (Leads-return none (λ s h. inl (v, (h.1, m), h.0)))
        | inr m ↦ rw m (
            Leads-bind _ _ _ (required env AccountCode.cost_of_goods_sold d _) λ x.
              Leads-bind _ _ _ (required env AccountCode.inventory d _) λ y.
                some_lem _ _ _ (record {
                  holds = λ s h.
                      posts env AccountCode.cost_of_goods_sold AccountCode.inventory trigger type
                        input x y v d s h.0 fresh h.1.0.1 h.1.1 (h.1.0.0, m);
                }))
      ]

  return_lem :
      (name trigger : String) (type : JournalReferenceType) (input : PostingInput) (d : Db)
      → IsFresh input.event_key d.journal
      → Leads
          (λ s. s ≡ d)
          (record_cogs_and_inventory list_client env name trigger type
            (return_of_cost list_client env)
            input)
          (λ e s. Effect env AccountCode.inventory AccountCode.cost_of_goods_sold input.amount d s)
  return_lem name trigger type input d fresh = Leads-bind _ _ _ (given input.amount name d) λ v.
      elim (Bool-cases (leb_ℤ v (pos 0))) [
        | inl m ↦ rw m (Leads-return none (λ s h. inl (v, (h.1, m), h.0)))
        | inr m ↦ rw m (
            Leads-bind _ _ _ (required env AccountCode.cost_of_goods_sold d _) λ x.
              Leads-bind _ _ _ (required env AccountCode.inventory d _) λ y.
                some_lem _ _ _ (record {
                  holds = λ s h.
                      posts env AccountCode.inventory AccountCode.cost_of_goods_sold trigger type
                        input y x v d s h.0 fresh h.1.1 h.1.0.1 (h.1.0.0, m);
                }))
      ]

  forward-Effect :
      (r : Reversible) (input : PostingInput) (d : Db)
      → IsFresh input.event_key d.journal
      → Leads
          (λ s. s ≡ d)
          (record_posting list_client env r input)
          (λ e s. Effect env (debit_of r) (credit_of r) input.amount d s)
  forward-Effect order_sale input d fresh = some_lem _ _ _ (
      debit_first env AccountCode.accounts_receivable AccountCode.sales_revenue "Order amount"
        "ORDER_SALE" JournalReferenceType.order input d fresh)
  forward-Effect inventory_cogs input d fresh =
      cost_lem "COGS amount" "INVENTORY_COGS" JournalReferenceType.inventory input d fresh
  forward-Effect inventory_adjustment input d fresh =
      cost_lem "Inventory adjustment amount" "INVENTORY_ADJUSTMENT_DECREASE"
        JournalReferenceType.adjustment input d fresh
  forward-Effect (payment method) input d fresh = some_lem _ _ _ (
      debit_first env (account_code_for_payment_method method) AccountCode.accounts_receivable
        "Payment amount" "PAYMENT_RECEIVED" JournalReferenceType.payment input d fresh)

  backward-Effect :
      (r : Reversible) (input : PostingInput) (d : Db)
      → IsFresh input.event_key d.journal
      → Leads
          (λ s. s ≡ d)
          (reverse_posting list_client env r input)
          (λ e s. Effect env (credit_of r) (debit_of r) input.amount d s)
  backward-Effect order_sale input d fresh = some_lem _ _ _ (
      credit_first env AccountCode.sales_revenue AccountCode.accounts_receivable "Refund amount"
        "ORDER_REFUNDED" JournalReferenceType.order input d fresh)
  backward-Effect inventory_cogs input d fresh =
      return_lem "Inventory return amount" "INVENTORY_RETURN" JournalReferenceType.inventory input d
        fresh
  backward-Effect inventory_adjustment input d fresh =
      return_lem "Inventory adjustment amount" "INVENTORY_ADJUSTMENT_INCREASE"
        JournalReferenceType.adjustment input d fresh
  backward-Effect (payment method) input d fresh = some_lem _ _ _ (
      credit_first env AccountCode.accounts_receivable (account_code_for_payment_method method)
        "Refund amount" "PAYMENT_REFUNDED" JournalReferenceType.payment input d fresh)

-- Two lines and the same two lines the other way round.
cancels :
    (a x y : ℕ) (b v : ℤ)
    → b +ℤ line_balance a (two_lines x y v) +ℤ line_balance a (two_lines y x v) ≡ b
cancels a x y b v = elim (Bool-cases (x == a)) [
  | inl m ↦ elim (Bool-cases (y == a)) [
    | inl n ↦ rw (m, n) (omega int_laws)
    | inr n ↦ rw (m, n) (omega int_laws)
  ]
  | inr m ↦ elim (Bool-cases (y == a)) [
    | inl n ↦ rw (m, n) (omega int_laws)
    | inr n ↦ rw (m, n) (omega int_laws)
  ]
]

same_value : {A : Type 0} (o : Option A) (x y : A) → o ≡ some x → o ≡ some y → x ≡ y
same_value none x y h k = cc
same_value (some a) x y h k = cc

disagree :
    (amount : Option ℤ) (v w : ℤ)
    → (amount ≡ some v) × (leb_ℤ v (pos 0) ≡ true)
    → (amount ≡ some w) × (leb_ℤ w (pos 0) ≡ false)
    → ⊥
disagree amount v w h k =
    let same = same_value amount v w h.0 k.0 in let positive = rw same at h.1 in ground arith

-- What an entry of two lines adds to a balance.
added_balance :
    (a : ℕ) (x y : Account) (v : ℤ) (d s : Db)
    → Posted x y v d s
    → balance a s.journal ≡ balance a d.journal +ℤ line_balance a (two_lines x.id y.id v)
added_balance a x y v d s h =
    ap (balance a) h.added
    ∙ balance-append a d.journal h.entry
    ∙ ap (λ ls. balance a d.journal +ℤ line_balance a ls) h.lines

undone :
    (env later : Env) (debit credit : AccountCode) (amount : Option ℤ) (d s t : Db) (a : ℕ)
    → Effect env debit credit amount d s
    → Effect later credit debit amount s t
    → balance a t.journal ≡ balance a d.journal
undone env later debit credit amount d s t a (inl (v, h, e)) (inl (w, k, f)) = rw (f, e) refl
undone env later debit credit amount d s t a (inl (v, h, e)) (inr m) =
    elim (disagree amount v m.v h m.asked) [ ]
undone env later debit credit amount d s t a (inr m) (inl (v, h, e)) =
    elim (disagree amount v m.v h m.asked) [ ]
undone env later debit credit amount d s t a (inr m) (inr n) =
    let accounts = m.posted.same_accounts in
    let credited : find_by_code list_client env credit d ≡ some n.x = rw⁻¹ accounts n.debited in
    let debited : find_by_code list_client env debit d ≡ some n.y = rw⁻¹ accounts n.credited in
    let x' = same_value (find_by_code list_client env credit d) n.x m.y credited m.credited in
    let y' = same_value (find_by_code list_client env debit d) n.y m.x debited m.debited in
    let v' = same_value amount n.v m.v n.asked.0 m.asked.0 in
    let first_time = added_balance a m.x m.y m.v d s m.posted in
    let back = added_balance a n.x n.y n.v s t n.posted in
    let second_time = rw (x', y', v') at back in
    second_time
    ∙ ap (λ b. b +ℤ line_balance a (two_lines m.y.id m.x.id m.v)) first_time
    ∙ cancels a m.x.id m.y.id (balance a d.journal) m.v

with_result :
    {A : Type 0} (Q : Db → Type 0) (r : Result A × Db) (a : A)
    → r.0 ≡ ok a
    → Returns (λ _. Q) r
    → Q r.1
with_result Q (r, d) a e h = rw (e, Returns) at h

restores_list :
    (env later : Env) (r : Reversible) (input back : PostingInput) (d : Db)
    (e e' : Option JournalEntry) (a : ℕ)
    → back.amount ≡ input.amount
    → IsFresh input.event_key d.journal
    → (record_posting list_client env r input d).0 ≡ ok e
    → let d1 = (record_posting list_client env r input d).1 in
      IsFresh back.event_key d1.journal
      → (reverse_posting list_client later r back d1).0 ≡ ok e'
      → balance a (reverse_posting list_client later r back d1).1.journal ≡ balance a d.journal
restores_list env later r input back d e e' a same fresh done fresh' done' =
    let d1 = (record_posting list_client env r input d).1 in
    let forward =
      with_result (λ s. Effect env (debit_of r) (credit_of r) input.amount d s)
        (record_posting list_client env r input d) e done
        ((forward-Effect env r input d fresh).holds d refl) in
    let backward =
      with_result (λ s. Effect later (credit_of r) (debit_of r) back.amount d1 s)
        (reverse_posting list_client later r back d1) e' done'
        ((backward-Effect later r back d1 fresh').holds d1 refl) in
    undone env later (debit_of r) (credit_of r) input.amount d d1 _ a forward (
      subst
        (λ z.
          Effect later (credit_of r) (debit_of r) z d1
            (reverse_posting list_client later r back d1).1)
        same backward)

-- If a sale, a payment received, the cost of goods sold or a decrease of the inventory is recorded and then
-- reversed with the same amount, at any later time, each under an event key that no entry has or
-- under none, and both return, then the balance of every account is what it was before.
pub reversal_restores :
    {p : Prisma}
    → Laws p
    → (env later : Env) (r : Reversible) (input back : PostingInput) (d : Db)
      (e e' : Option JournalEntry) (a : ℕ)
    → back.amount ≡ input.amount
    → IsFresh input.event_key d.journal
    → (record_posting p env r input d).0 ≡ ok e
    → let d1 = (record_posting p env r input d).1 in
      IsFresh back.event_key d1.journal
      → (reverse_posting p later r back d1).0 ≡ ok e'
      → balance a (reverse_posting p later r back d1).1.journal ≡ balance a d.journal
reversal_restores laws env later r input back d e e' a same fresh done fresh' done' =
    rw (client-eq laws) (
      let c = client-eq laws in
      restores_list env later r input back d e e' a same fresh (rw c at done) (rw c at fresh')
        (rw c at done'))
