-- ===== src/Purchasing/Receipts/Checks.antt =====
-- What a delivery is resolved to, and what its checks let through; the items of the orders stay.
use central_backend_e_commer.Prelude.{
  ℕ, ◌+◌, ◌≡◌, ◌≢◌, refl, Option, none, some, List, [], ◌∷◌, arith, ltb, All,
}
use central_backend_e_commer.Action.{bad_request, or_throw, throw_if}
use central_backend_e_commer.Action.Leads.{
  Leads, Leads-bind, Leads-throw_if, Leads-return, Leads-same, Leads-fact, Leads-or_throw_as,
}
use central_backend_e_commer.Prisma.{list_client, first}
use central_backend_e_commer.Prisma.Found.{Stored, first-All}
use central_backend_e_commer.Schema.{Db, Env, PurchaseOrderItem}
use central_backend_e_commer.Inventory.Identity.{resolve_for_write}
use central_backend_e_commer.Inventory.Identity.Reads.{resolve-same}
use central_backend_e_commer.Inventory.Configuration.{assert_receipt_configuration}
use central_backend_e_commer.Purchasing.Receipts.{
  CreateGoodsReceiptItemDto, ReceiptServices, ResolvedItem, is_for, write_input_of, resolved_of,
  resolve_item, resolve_items, check_item, check_items,
}
use central_backend_e_commer.Purchasing.Receipts.Within.{
  WithinOrder, Different, DifferentItems, Good, resolved,
}

-- The table of items is still this one.
abbrev pub At : List PurchaseOrderItem → Db → Type 0
At t s = s.purchase_order_items ≡ t

abbrev pub ItemsResolved : List ResolvedItem → List CreateGoodsReceiptItemDto → Type 0
ItemsResolved [] [] = Unit
ItemsResolved (r ∷ rs) (i ∷ is) = (r.item ≡ i) × ItemsResolved rs is
ItemsResolved _ _ = ⊥

module _ (services : ReceiptServices) (env : Env) where
  assert-same :
      (s u b e : Option ℕ) (d : Db) → (assert_receipt_configuration list_client s u b e d).1 ≡ d
  assert-same none u b e d = refl
  assert-same (some s) none b e d = ground arith
  assert-same (some s) (some u) b e d = ground arith

  resolve_item-Leads :
      (t : List PurchaseOrderItem) (i : CreateGoodsReceiptItemDto)
      → Leads (At t) (resolve_item list_client services env i) (λ r s. At t s × (r.item ≡ i))
  resolve_item-Leads t i =
      Leads-bind (λ _. At t) (resolve_for_write list_client (write_input_of i)) _
        (Leads-same _ (resolve-same (write_input_of i)))
        λ identity.
          Leads-bind (λ _. At t)
            (assert_receipt_configuration list_client identity.stock_item_id identity.unit_id
              i.batch_code i.expiry_date)
            _
            (Leads-same _
              (assert-same identity.stock_item_id identity.unit_id i.batch_code i.expiry_date))
            λ _. Leads-return (resolved_of i identity) λ s h. (h, refl)

  pub resolve_each :
      (t : List PurchaseOrderItem) (is : List CreateGoodsReceiptItemDto)
      → Leads
          (At t)
          (resolve_items list_client services env is)
          (λ rs s. At t s × ItemsResolved rs is)
  resolve_each t [] = record { holds = λ s h. (h, tt) }
  resolve_each t (i ∷ is) =
      Leads-bind (λ r s. At t s × (r.item ≡ i)) (resolve_item list_client services env i) _
        (resolve_item-Leads t i)
        λ r.
          Leads-bind (λ rs s. (At t s × ItemsResolved rs is) × (r.item ≡ i))
            (resolve_items list_client services env is) _ (Leads-fact _ λ e. resolve_each t is)
            λ rs. Leads-return (r ∷ rs) λ s h. (h.0.0, (h.1, h.0.1))

  -- What the checks let through.
  check_one :
      (t : List PurchaseOrderItem) (items : List PurchaseOrderItem) (r : ResolvedItem)
      → WithinOrder t
      → All (λ i. Stored (λ (x : PurchaseOrderItem). x.id) t i) items
      → Leads
          (At t)
          (check_item list_client services env items r)
          (λ l s. At t s × (Good t l × (l.1 ≡ r)))
  check_one t items r u all =
      Leads-bind (λ i s. At t s × (first (is_for r) items ≡ some i))
        (or_throw (first (is_for r) items)
          (bad_request "Received inventory identity is not on purchase order"))
        _
        (Leads-or_throw_as (first (is_for r) items)
          (bad_request "Received inventory identity is not on purchase order"))
        λ i.
          Leads-bind _
            (throw_if (ltb i.quantity (i.received_quantity + r.item.quantity))
              (bad_request "Received quantity exceeds open quantity"))
            _
            (Leads-throw_if (ltb i.quantity (i.received_quantity + r.item.quantity))
              (bad_request "Received quantity exceeds open quantity"))
            λ _.
              Leads-return (i, r)
                λ s h.
                  let (stored, met) =
                    first-All (λ x. Stored (λ (y : PurchaseOrderItem). y.id) t x) (is_for r) items i
                      all h.0.1 in
                  (h.0.0, ((stored, met, ground arith), refl))

  pub check_each :
      (t : List PurchaseOrderItem) (items : List PurchaseOrderItem) (rs : List ResolvedItem)
      → WithinOrder t
      → All (λ i. Stored (λ (x : PurchaseOrderItem). x.id) t i) items
      → Leads
          (At t)
          (check_items list_client services env items rs)
          (λ ls s. At t s × All (Good t) ls × (resolved ls ≡ rs))
  check_each t items [] u all = record { holds = λ s h. (h, tt, refl) }
  check_each t items (r ∷ rs) u all =
      Leads-bind (λ l s. At t s × (Good t l × (l.1 ≡ r)))
        (check_item list_client services env items r) _ (check_one t items r u all)
        λ l.
          Leads-bind
            (λ ls s. (At t s × All (Good t) ls × (resolved ls ≡ rs)) × (Good t l × (l.1 ≡ r)))
            (check_items list_client services env items rs) _
            (Leads-fact _ λ e. check_each t items rs u all)
            λ ls. Leads-return (l ∷ ls) λ s h. (h.0.0, (h.1.0, h.0.1), ground (arith, h.0.2, h.1.1))

  pub Different-resolved :
      (rs : List ResolvedItem) (is : List CreateGoodsReceiptItemDto)
      → ItemsResolved rs is
      → Different is
      → DifferentItems rs
  Different-resolved [] is e d = tt
  Different-resolved (r ∷ rs) [] e d = elim e [ ]
  Different-resolved (r ∷ rs) (i ∷ is) e d =
      (apart rs is e.0 e.1 d.0, Different-resolved rs is e.1 d.1)
    where
      apart :
          (ss : List ResolvedItem) (js : List CreateGoodsReceiptItemDto)
          → r.item ≡ i
          → ItemsResolved ss js
          → All (λ j. i.product_id ≢ j.product_id) js
          → All (λ (s : ResolvedItem). r.item.product_id ≢ s.item.product_id) ss
      apart [] js m e d = tt
      apart (s ∷ ss) [] m e d = elim e [ ]
      apart (s ∷ ss) (j ∷ js) m e d = (λ q. d.0 (ground arith), apart ss js m e.1 d.1)
