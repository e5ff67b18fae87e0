-- ===== src/Accounting/Posting.antt =====
-- `AccountingService`: what happened in the shop, as entries of the journal.
pub mod Effects
pub mod Reversal
use central_backend_e_commer.Prelude.{
  ℕ, Bool, true, false, not, Option, none, some, List, [], ◌∷◌, ◌++◌, String, ◌==◌, if◌then◌else◌,
}
use central_backend_e_commer.Prelude.Text.{template}
use central_backend_e_commer.Prelude.Int.{ℤ, pos, leb_ℤ}
use central_backend_e_commer.Action.{
  Action, Error, ok, bad_request, pure, gets, or_throw, throw_if, modify, ◌>>=◌, ◌>>◌,
}
use central_backend_e_commer.Prisma.{Prisma}
use central_backend_e_commer.Schema.{Db, Env, Account, JournalEntry, JournalCreated}
use central_backend_e_commer.Accounting.Journal.{
  JournalLineInput, CreateJournalEntryInput, create_journal_entry,
}

-- `DEFAULT_ACCOUNT_CODES`, of which the retained earnings are not posted to here
pub data AccountCode : Type 0 where
  cash card_clearing transfer_clearing online_clearing accounts_receivable inventory
        accounts_payable goods_received_clearing sales_revenue cost_of_goods_sold :
      AccountCode

pub data PaymentMethod : Type 0 where
  cash card transfer online qr_manual : PaymentMethod

abbrev pub account_code : AccountCode → ℕ
account_code AccountCode.cash = 1000
account_code AccountCode.card_clearing = 1010
account_code AccountCode.transfer_clearing = 1020
account_code AccountCode.online_clearing = 1030
account_code AccountCode.accounts_receivable = 1100
account_code AccountCode.inventory = 1200
account_code AccountCode.accounts_payable = 2000
account_code AccountCode.goods_received_clearing = 2100
account_code AccountCode.sales_revenue = 4000
account_code AccountCode.cost_of_goods_sold = 5000

abbrev pub account_code_text : AccountCode → String
account_code_text AccountCode.cash = "1000"
account_code_text AccountCode.card_clearing = "1010"
account_code_text AccountCode.transfer_clearing = "1020"
account_code_text AccountCode.online_clearing = "1030"
account_code_text AccountCode.accounts_receivable = "1100"
account_code_text AccountCode.inventory = "1200"
account_code_text AccountCode.accounts_payable = "2000"
account_code_text AccountCode.goods_received_clearing = "2100"
account_code_text AccountCode.sales_revenue = "4000"
account_code_text AccountCode.cost_of_goods_sold = "5000"

-- `accountCodeForPaymentMethod`
abbrev pub account_code_for_payment_method : PaymentMethod → AccountCode
account_code_for_payment_method PaymentMethod.cash = AccountCode.cash
account_code_for_payment_method PaymentMethod.card = AccountCode.card_clearing
account_code_for_payment_method PaymentMethod.transfer = AccountCode.transfer_clearing
account_code_for_payment_method PaymentMethod.online = AccountCode.online_clearing
account_code_for_payment_method PaymentMethod.qr_manual = AccountCode.transfer_clearing

-- `JournalReferenceType`
pub data JournalReferenceType : Type 0 where
  order purchase inventory adjustment payment : JournalReferenceType

abbrev pub journal_reference_type_code : JournalReferenceType → ℕ
journal_reference_type_code JournalReferenceType.order = 0
journal_reference_type_code JournalReferenceType.purchase = 1
journal_reference_type_code JournalReferenceType.inventory = 2
journal_reference_type_code JournalReferenceType.adjustment = 3
journal_reference_type_code JournalReferenceType.payment = 4

-- What is posted: of which row, how much (`none` is no number), under which event key, and the
-- description, which is the caller's or else the operation's own text.
pub record PostingInput : Type 0 where
  pub reference_id : Option ℕ
  pub amount : Option ℤ
  pub event_key : Option ℕ
  pub description : ℕ

abbrev pub is_unusable : Option Account → Bool
is_unusable none = true
is_unusable (some a) = not a.is_active

abbrev pub debit_line : Account → ℤ → JournalLineInput
debit_line a amount = record { account_id = a.id; debit = some (some amount); credit = none }

abbrev pub credit_line : Account → ℤ → JournalLineInput
credit_line a amount = record { account_id = a.id; debit = none; credit = some (some amount) }

-- `toDecimal` and `toPositiveDecimal`
abbrev pub to_decimal : Option ℤ → String → Action Db ℤ
to_decimal amount name =
    or_throw amount (bad_request (template name " must be a valid number" "" ""))

abbrev pub to_positive_decimal : Option ℤ → String → Action Db ℤ
to_positive_decimal amount name = do
  value ← to_decimal amount name
  throw_if (leb_ℤ value (pos 0)) (bad_request (template name " must be greater than zero" "" ""))
  pure value

module _ (p : Prisma) (env : Env) where
  abbrev pub required_error : AccountCode → Error
  required_error code =
      bad_request
        (template "Required accounting account " (account_code_text code) " is not configured" "")

  abbrev pub find_by_code : AccountCode → Db → Option Account
  find_by_code code d = p.find_first Account (λ a. a.code == account_code code) d.accounts

  -- `getRequiredAccount`
  abbrev pub get_required_account : AccountCode → Action Db Account
  get_required_account code = do
    found ← gets (find_by_code code)
    throw_if (is_unusable found) (required_error code)
    or_throw found (required_error code)

  -- `emitJournalCreated`, and the entry is returned.
  abbrev pub emit_journal_created : String → JournalEntry → Action Db JournalEntry
  emit_journal_created trigger entry = do
    modify (λ d. record d {
      emitted =
          d.emitted
          ++ (record {
            trigger = trigger;
            entry_id = entry.id;
            reference_type = entry.reference_type;
            reference_id = entry.reference_id;
          }
              ∷ []);
    })
    pure entry

  -- The entry and what is emitted of it, which all operations end with.
  unfoldable pub post :
      String → JournalReferenceType → PostingInput → List JournalLineInput → Action Db JournalEntry
  post trigger type input lines = do
    entry ← create_journal_entry p env (record {
      reference_type = journal_reference_type_code type;
      reference_id = input.reference_id;
      event_key = input.event_key;
      description = input.description;
      lines = lines;
    })
    emit_journal_created trigger entry

  abbrev pub some_entry : Action Db JournalEntry → Action Db (Option JournalEntry)
  some_entry m = m >>= λ e. pure (some e)

  abbrev pub record_order_sale : PostingInput → Action Db JournalEntry
  record_order_sale input = do
    amount ← to_positive_decimal input.amount "Order amount"
    receivable ← get_required_account AccountCode.accounts_receivable
    revenue ← get_required_account AccountCode.sales_revenue
    post "ORDER_SALE" JournalReferenceType.order input
        (debit_line receivable amount ∷ credit_line revenue amount ∷ [])

  abbrev pub record_payment_received : PaymentMethod → PostingInput → Action Db JournalEntry
  record_payment_received method input = do
    amount ← to_positive_decimal input.amount "Payment amount"
    cash_account ← get_required_account (account_code_for_payment_method method)
    receivable ← get_required_account AccountCode.accounts_receivable
    post "PAYMENT_RECEIVED" JournalReferenceType.payment input
        (debit_line cash_account amount ∷ credit_line receivable amount ∷ [])

  abbrev pub reverse_order_sale : PostingInput → Action Db JournalEntry
  reverse_order_sale input = do
    amount ← to_positive_decimal input.amount "Refund amount"
    receivable ← get_required_account AccountCode.accounts_receivable
    revenue ← get_required_account AccountCode.sales_revenue
    post "ORDER_REFUNDED" JournalReferenceType.order input
        (debit_line revenue amount ∷ credit_line receivable amount ∷ [])

  abbrev pub reverse_payment_received : PaymentMethod → PostingInput → Action Db JournalEntry
  reverse_payment_received method input = do
    amount ← to_positive_decimal input.amount "Refund amount"
    cash_account ← get_required_account (account_code_for_payment_method method)
    receivable ← get_required_account AccountCode.accounts_receivable
    post "PAYMENT_REFUNDED" JournalReferenceType.payment input
        (debit_line receivable amount ∷ credit_line cash_account amount ∷ [])

  abbrev pub record_cogs_and_inventory :
      String
      → String
      → JournalReferenceType
      → (Account → Account → ℤ → List JournalLineInput)
      → PostingInput
      → Action Db (Option JournalEntry)
  record_cogs_and_inventory name trigger type lines input = do
    amount ← to_decimal input.amount name
    if leb_ℤ amount (pos 0) then pure none else do
      cogs ← get_required_account AccountCode.cost_of_goods_sold
      inventory_account ← get_required_account AccountCode.inventory
      some_entry (post trigger type input (lines cogs inventory_account amount))

  abbrev pub cost : Account → Account → ℤ → List JournalLineInput
  cost cogs stock amount = debit_line cogs amount ∷ credit_line stock amount ∷ []

  abbrev pub return_of_cost : Account → Account → ℤ → List JournalLineInput
  return_of_cost cogs stock amount = debit_line stock amount ∷ credit_line cogs amount ∷ []

  abbrev pub record_inventory_cogs : PostingInput → Action Db (Option JournalEntry)
  record_inventory_cogs =
      record_cogs_and_inventory "COGS amount" "INVENTORY_COGS" JournalReferenceType.inventory cost

  abbrev pub reverse_inventory_cogs : PostingInput → Action Db (Option JournalEntry)
  reverse_inventory_cogs =
      record_cogs_and_inventory "Inventory return amount" "INVENTORY_RETURN"
        JournalReferenceType.inventory return_of_cost

  abbrev pub record_inventory_adjustment_decrease : PostingInput → Action Db (Option JournalEntry)
  record_inventory_adjustment_decrease =
      record_cogs_and_inventory "Inventory adjustment amount" "INVENTORY_ADJUSTMENT_DECREASE"
        JournalReferenceType.adjustment cost

  abbrev pub record_inventory_adjustment_increase : PostingInput → Action Db (Option JournalEntry)
  record_inventory_adjustment_increase =
      record_cogs_and_inventory "Inventory adjustment amount" "INVENTORY_ADJUSTMENT_INCREASE"
        JournalReferenceType.adjustment return_of_cost

  abbrev pub record_goods_received : PostingInput → Action Db JournalEntry
  record_goods_received input = do
    amount ← to_positive_decimal input.amount "Goods receipt amount"
    inventory_account ← get_required_account AccountCode.inventory
    clearing ← get_required_account AccountCode.goods_received_clearing
    post "GOODS_RECEIVED" JournalReferenceType.purchase input
        (debit_line inventory_account amount ∷ credit_line clearing amount ∷ [])

  abbrev pub record_supplier_invoice : PostingInput → Action Db JournalEntry
  record_supplier_invoice input = do
    amount ← to_positive_decimal input.amount "Supplier invoice amount"
    clearing ← get_required_account AccountCode.goods_received_clearing
    payable ← get_required_account AccountCode.accounts_payable
    post "SUPPLIER_INVOICE" JournalReferenceType.purchase input
        (debit_line clearing amount ∷ credit_line payable amount ∷ [])

  abbrev pub record_supplier_payment : PaymentMethod → PostingInput → Action Db JournalEntry
  record_supplier_payment method input = do
    amount ← to_positive_decimal input.amount "Supplier payment amount"
    payable ← get_required_account AccountCode.accounts_payable
    cash_account ← get_required_account (account_code_for_payment_method method)
    post "SUPPLIER_PAYMENT" JournalReferenceType.payment input
        (debit_line payable amount ∷ credit_line cash_account amount ∷ [])
