-- ===== src/Purchasing/Receipts/Bounds.antt =====
-- Deliveries, approvals and cancellations, one after another, and the bound on what has come of an item.
use central_backend_e_commer.Prelude.{
  ℕ, ◌≡◌, refl, sym, subst, true, not, Option, none, some, List, [], ◌∷◌, arith, ◌==◌, All, length,
}
use central_backend_e_commer.Action.{
  Result, ok, err, bad_request, not_found, record_not_found, or_throw, gets, throw_if,
}
use central_backend_e_commer.Action.Leads.{
  Leads, Returns, Leads-bind, Leads-gets, Leads-test, Leads-pure, Leads-weaken, Leads-fact,
  Leads-or_throw,
}
use central_backend_e_commer.Prisma.{list_client, first, update_where}
use central_backend_e_commer.Prisma.Keys.{update_where-Keyed}
use central_backend_e_commer.Prisma.Found.{Stored, matching-Stored, All-map}
use central_backend_e_commer.Schema.{
  Db, Env, PurchaseOrder, PurchaseOrderItem, PurchaseOrderStatus, GoodsReceipt,
}
use central_backend_e_commer.EventBus.{publish}
use central_backend_e_commer.Purchasing.Orders.{items_of, with_status, find_by_id, update_status}
use central_backend_e_commer.Purchasing.Receipts.{
  CreateGoodsReceiptDto, ReceiptServices, ResolvedItem, Delivery, raised, resolve_items,
  check_items, is_open, has_duplicates, status_after, receipt_of, received_event, record_receipt,
  create_receipt, update_received_quantity, raise_items, receive, receive_locked,
}
use central_backend_e_commer.Purchasing.Receipts.Within.{
  WithinOrder, Different, DifferentItems, Ready, Good, resolved, Goods-Ready, raised-Within,
  raised-Ready,
}
use central_backend_e_commer.Purchasing.Receipts.Checks.{
  At, ItemsResolved, resolve_each, check_each, Different-resolved,
}

abbrev pub Held : Db → Type 0
Held s = WithinOrder s.purchase_order_items

module _ (services : ReceiptServices) (env : Env) where
  create_At :
      (t : List PurchaseOrderItem) (r : GoodsReceipt) (n : ℕ)
      → Leads (At t) (create_receipt list_client services env r n) (λ _. At t)
  create_At t r n = record { holds = λ s h. ground (arith, h) }

  raise_one :
      (i : PurchaseOrderItem) (r : ResolvedItem) (ls : List Delivery)
      → Leads
          (λ s. Held s × Ready ((i, r) ∷ ls) s.purchase_order_items)
          (update_received_quantity list_client services env i.id r.item.quantity)
          (λ _ s. Held s × Ready ls s.purchase_order_items)
  raise_one i r ls = record {
    holds = λ s h. go s h (first (λ (x : PurchaseOrderItem). x.id == i.id) s.purchase_order_items);
  }
    where
      go :
          (s : Db)
          → Held s × Ready ((i, r) ∷ ls) s.purchase_order_items
          → (o : Option PurchaseOrderItem)
          → Returns
              (λ _ s. Held s × Ready ls s.purchase_order_items)
              (elim (elim o as (λ _. Option (PurchaseOrderItem × List PurchaseOrderItem)) [
                | none ↦ none
                | some x ↦ some (
                  raised r.item.quantity x,
                  update_where (λ x. x.id == i.id) (raised r.item.quantity) s.purchase_order_items,
                )
              ])
                as (λ _. Result PurchaseOrderItem × Db) [
                  | none ↦ (err record_not_found, s)
                  | some (x, t) ↦ (ok x, record s { purchase_order_items = t })
                ])
      go s h none = tt
      go s h (some x) = (
        (
          update_where-Keyed (λ (x : PurchaseOrderItem). x.id) (λ x. x.id == i.id)
              (raised r.item.quantity) (λ x. refl) s.purchase_order_items h.0.0,
          raised-Within i.id r.item.quantity s.purchase_order_items h.0.1 h.1.0,
        ),
        raised-Ready i r r.item.quantity ls s.purchase_order_items h.1.1 h.1.2,
      )

  raise_each :
      (ls : List Delivery)
      → Leads
          (λ s. Held s × Ready ls s.purchase_order_items)
          (raise_items list_client services env ls)
          (λ _. Held)
  raise_each [] = record { holds = λ s h. h.0 }
  raise_each ((i, r) ∷ ls) =
      Leads-bind (λ _ s. Held s × Ready ls s.purchase_order_items)
        (update_received_quantity list_client services env i.id r.item.quantity) _
        (raise_one i r ls) λ _. raise_each ls

  pub status_Held :
      (id : ℕ) (status : PurchaseOrderStatus)
      → Leads Held (update_status list_client env id status) (λ _. Held)
  status_Held id status = record {
    holds = λ s h. go s h (first (λ (x : PurchaseOrder). x.id == id) s.purchase_orders);
  }
    where
      go :
          (s : Db)
          → Held s
          → (found : Option PurchaseOrder)
          → Returns
              (λ _. Held)
              (elim (elim found as (λ _. Option (PurchaseOrder × List PurchaseOrder)) [
                | none ↦ none
                | some x ↦ some (
                  with_status status x,
                  update_where (λ x. x.id == id) (with_status status) s.purchase_orders,
                )
              ])
                as (λ _. Result PurchaseOrder × Db) [
                  | none ↦ (err record_not_found, s)
                  | some (x, t) ↦ (ok x, record s { purchase_orders = t })
                ])
      go s h none = tt
      go s h (some x) = h

  -- From the receipt on.
  record_keeps :
      (dto : CreateGoodsReceiptDto) (order : PurchaseOrder) (t items : List PurchaseOrderItem)
      (rs : List ResolvedItem) (ls : List Delivery)
      → WithinOrder t
      → Ready ls t
      → Leads (At t) (record_receipt list_client services env dto order items rs ls) (λ _. Held)
  record_keeps dto order t items rs ls u ready =
      Leads-bind (λ _. At t) (gets (λ d. d.drawn)) _ (Leads-gets (λ d. d.drawn))
        λ n.
          Leads-bind (λ _. At t)
            (create_receipt list_client services env (receipt_of list_client services env n dto ls)
              (length ls))
            _ (create_At t (receipt_of list_client services env n dto ls) (length ls))
            λ created.
              Leads-bind (λ _. Held) (raise_items list_client services env ls) _
                (Leads-weaken (raise_items list_client services env ls)
                  (λ s e. subst (λ x. WithinOrder x × Ready ls x) (sym e) (u, ready))
                  (raise_each ls))
                λ _.
                  Leads-bind (λ _. Held)
                    (update_status list_client env order.id (status_after rs items)) _
                    (status_Held order.id (status_after rs items))
                    λ _.
                      Leads-bind (λ _. Held)
                        (publish list_client env env.actor_id
                          (received_event list_client services env created ls))
                        _ (record { holds = λ s h. h }) λ _. Leads-pure created

  receive_keeps :
      (dto : CreateGoodsReceiptDto) (order : PurchaseOrder) (t items : List PurchaseOrderItem)
      → Different dto.items
      → WithinOrder t
      → All (λ i. Stored (λ (x : PurchaseOrderItem). x.id) t i) items
      → Leads (At t) (receive list_client services env dto order items) (λ _. Held)
  receive_keeps dto order t items d u all =
      Leads-bind (λ _. At t)
        (throw_if (not (is_open order.status))
          (bad_request "Only approved purchase orders can receive goods"))
        _ (Leads-test (not (is_open order.status)) _)
        λ _.
          Leads-bind (λ _. At t)
            (throw_if (has_duplicates [] items) (
              bad_request
                "Purchase order contains duplicate inventory identities and cannot be received safely"))
            _ (Leads-test (has_duplicates [] items) _)
            λ _.
              Leads-bind _ (resolve_items list_client services env dto.items) _
                (resolve_each services env t dto.items)
                λ rs.
                  Leads-bind
                    (λ ls s.
                      (At t s × All (Good t) ls × (resolved ls ≡ rs)) × ItemsResolved rs dto.items)
                    (check_items list_client services env items rs) _
                    (Leads-fact _ λ e. check_each services env t items rs u all)
                    λ ls. record {
                      holds = λ s h.
                          let differ = Different-resolved services env rs dto.items h.1 d in
                          let ready =
                            Goods-Ready t ls u.0 h.0.1 (subst DifferentItems (sym h.0.2) differ) in
                          (record_keeps dto order t items rs ls u ready).holds s h.0.0;
                    }

  pub locked_keeps :
      (dto : CreateGoodsReceiptDto)
      → Different dto.items
      → Leads Held (receive_locked list_client services env dto) (λ _. Held)
  locked_keeps dto d =
      Leads-bind (λ _. Held) (gets (find_by_id list_client env dto.purchase_order_id)) _
        (Leads-gets (find_by_id list_client env dto.purchase_order_id))
        λ found.
          Leads-bind (λ _. Held) (or_throw found (not_found "Purchase order not found")) _
            (Leads-or_throw found (not_found "Purchase order not found"))
            λ order.
              Leads-bind (λ items s. Held s × (items ≡ items_of list_client order.id s))
                (gets (items_of list_client order.id)) _ (record { holds = λ s h. (h, refl) })
                λ items. record {
                  holds = λ s h.
                      (receive_keeps dto order s.purchase_order_items items d h.0 (
                          subst
                            (All (λ i.
                              Stored (λ (x : PurchaseOrderItem). x.id) s.purchase_order_items i))
                            (sym h.1)
                            (All-map
                              (λ i.
                                Stored (λ (x : PurchaseOrderItem). x.id) s.purchase_order_items i
                                × ((i.purchase_order_id == order.id) ≡ true))
                              (Stored (λ (x : PurchaseOrderItem). x.id) s.purchase_order_items)
                              (λ i k. k.0) (items_of list_client order.id s)
                              (matching-Stored (λ (x : PurchaseOrderItem). x.id)
                                (λ i. i.purchase_order_id == order.id) s.purchase_order_items
                                h.0.0)))).holds
                        s refl;
                }
