-- ===== src/Purchasing/Receipts/Calls.antt =====
-- Approvals, cancellations and deliveries, one after another: nothing comes that was not ordered.
use central_backend_e_commer.Prelude.{ℕ, sym, subst, Bool, not, Option, none, some, List, [], ◌∷◌}
use central_backend_e_commer.Action.{
  Action, Result, ok, err, Error, bad_request, unique_violation, throw_if, gets, ◌>>=◌, ◌>>◌,
}
use central_backend_e_commer.Action.Keeps.{IsPreorder, Keeps, Keeps-bind}
use central_backend_e_commer.Action.Leads.{
  Leads, Returns, Leads-bind, Leads-gets, Leads-pure, commit_keeps,
}
use central_backend_e_commer.Prisma.{Prisma, Laws, list_client, client-eq, commit}
use central_backend_e_commer.Schema.{
  Db, Env, Event, PurchaseOrder, PurchaseOrderStatus, PurchaseOrderPayload, GoodsReceipt,
}
use central_backend_e_commer.EventBus.{publish}
use central_backend_e_commer.Purchasing.Orders.{
  items_of, is_draft, is_received, find_one, update_status, move_to, log_status, approve, cancel,
}
use central_backend_e_commer.Purchasing.Receipts.{
  CreateGoodsReceiptDto, ReceiptServices, receipt_or, request_key_of, find_by_request_key,
  receive_locked, receive_in_transaction, after_receive, receive_guarded, receive_new, create,
}
use central_backend_e_commer.Purchasing.Receipts.Within.{WithinOrder, Different}
use central_backend_e_commer.Purchasing.Receipts.Bounds.{Held, locked_keeps, status_Held}

pub data PurchaseCall : Type 0 where
  approval cancellation : ℕ → PurchaseCall
  delivery : CreateGoodsReceiptDto → PurchaseCall

-- A delivery names no product twice.
abbrev pub NamesOnce : PurchaseCall → Type 0
NamesOnce (PurchaseCall.delivery dto) = Different dto.items
NamesOnce _ = Unit

-- The database after a call, whether it succeeds or fails.
unfoldable pub run_purchase_call : Prisma → ReceiptServices → Env → PurchaseCall → Db → Db
run_purchase_call p services env (PurchaseCall.approval id) d = (approve p env id d).1
run_purchase_call p services env (PurchaseCall.cancellation id) d = (cancel p env id d).1
run_purchase_call p services env (PurchaseCall.delivery dto) d = (create p services env dto d).1

abbrev pub run_purchase_calls : Prisma → ReceiptServices → List (Env × PurchaseCall) → Db → Db
run_purchase_calls p services [] d = d
run_purchase_calls p services ((env, c) ∷ rest) d =
    run_purchase_calls p services rest (run_purchase_call p services env c d)

abbrev pub AllNameOnce : List (Env × PurchaseCall) → Type 0
AllNameOnce [] = Unit
AllNameOnce ((env, c) ∷ rest) = NamesOnce c × AllNameOnce rest

abbrev Stays : Db → Db → Type 0
Stays s t = Held s → Held t

Stays-IsPreorder : IsPreorder Stays
Stays-IsPreorder = record { stays = λ s h. h; chains = λ s t u f g h. g (f h) }

receipt_or-Held :
    (o : Option GoodsReceipt) (m : Action Db GoodsReceipt) (d : Db)
    → Held d
    → Held (m d).1
    → Held (receipt_or o m d).1
receipt_or-Held none m d h g = g
receipt_or-Held (some r) m d h g = h

receipt_or-Returns :
    (o : Option GoodsReceipt) (m : Action Db GoodsReceipt) (d : Db)
    → Held d
    → Returns (λ _. Held) (m d)
    → Returns (λ _. Held) (receipt_or o m d)
receipt_or-Returns none m d h g = g
receipt_or-Returns (some r) m d h g = h

module _ (services : ReceiptServices) (env : Env) where
  moves_Held :
      (id : ℕ) (status : PurchaseOrderStatus) (event : PurchaseOrderPayload → Event)
      → Leads Held (move_to list_client env id status event) (λ _. Held)
  moves_Held id status event =
      Leads-bind (λ _. Held) (update_status list_client env id status) _
        (status_Held services env id status)
        λ updated.
          Leads-bind (λ _. Held) (gets (items_of list_client id)) _
            (Leads-gets (items_of list_client id))
            λ items.
              Leads-bind (λ _. Held)
                (publish list_client env env.actor_id
                  (event (record { order = updated; items = items })))
                _ (record { holds = λ s h. h }) λ _. Leads-pure updated

  after_Held :
      (key : ℕ) (r : Result GoodsReceipt) (s : Db)
      → Held s
      → Held (after_receive list_client services env key (r, s)).1
  after_Held key (ok r) s h = h
  after_Held key (err Error.unique_violation) s h =
      go (find_by_request_key list_client services env key s)
    where
      go :
          (o : Option GoodsReceipt)
          → Held
              (elim o as (λ _. Result GoodsReceipt × Db) [
                | none ↦ (err unique_violation, s)
                | some r ↦ (ok r, s)
              ]).1
      go none = h
      go (some r) = h
  after_Held key (err e) s h = h

  transaction_Held :
      (dto : CreateGoodsReceiptDto)
      → Different dto.items
      → Leads Held (receive_in_transaction list_client services env dto) (λ _. Held)
  transaction_Held dto d = record {
    holds = λ s h.
        receipt_or-Returns
          (find_by_request_key list_client services env
            (request_key_of list_client services env dto) s)
          (receive_locked list_client services env dto) s h
          ((locked_keeps services env dto d).holds s h);
  }

  found_one : (id : ℕ) → Keeps Stays (find_one list_client env id)
  unfolding find_one
  found_one id = record { holds = λ s h. h }

  new_Held :
      (dto : CreateGoodsReceiptDto)
      → Different dto.items
      → Keeps Stays (receive_new list_client services env dto)
  new_Held dto d =
      Keeps-bind Stays Stays-IsPreorder (find_one list_client env dto.purchase_order_id)
        (λ _. receive_guarded list_client services env dto) (found_one dto.purchase_order_id)
        λ _. record {
          holds = λ s h.
              after_Held (request_key_of list_client services env dto)
                (commit s (receive_in_transaction list_client services env dto s)).0
                (commit s (receive_in_transaction list_client services env dto s)).1
                (commit_keeps (receive_in_transaction list_client services env dto)
                  (transaction_Held dto d) s h);
        }

  -- What `approve` and `cancel` do, with their guards.
  moved_Held :
      (id : ℕ) (refused : PurchaseOrderStatus → Bool) (why : Error) (status : PurchaseOrderStatus)
      (event : PurchaseOrderPayload → Event)
      → Keeps Stays (
          find_one list_client env id >>= λ before.
          throw_if (refused before.status) why
          >> (list_client.transaction Db PurchaseOrder (move_to list_client env id status event)
              >>= λ updated. log_status list_client env id before.status updated))
  moved_Held id refused why status event =
      Keeps-bind Stays Stays-IsPreorder (find_one list_client env id) _ (found_one id) λ before.
        Keeps-bind Stays Stays-IsPreorder (throw_if (refused before.status) why) _
          (record { holds = λ s h. h })
          λ _.
            Keeps-bind Stays Stays-IsPreorder
              (list_client.transaction Db PurchaseOrder (move_to list_client env id status event))
              (log_status list_client env id before.status)
              (record {
                holds =
                    commit_keeps (move_to list_client env id status event)
                      (moves_Held id status event);
              })
              λ updated. record { holds = λ s h. h }

  call_Held :
      (c : PurchaseCall) (d : Db)
      → NamesOnce c
      → Held d
      → Held (run_purchase_call list_client services env c d)
  unfolding run_purchase_call approve cancel create
  call_Held (PurchaseCall.approval id) d n h =
      (moved_Held id (λ s. not (is_draft s))
          (bad_request "Only draft purchase orders can be approved") PurchaseOrderStatus.approved
          Event.purchase_order_approved).holds
        d h
  call_Held (PurchaseCall.cancellation id) d n h =
      (moved_Held id is_received (bad_request "Received purchase orders cannot be cancelled")
          PurchaseOrderStatus.cancelled Event.purchase_order_cancelled).holds
        d h
  call_Held (PurchaseCall.delivery dto) d n h =
      receipt_or-Held
        (find_by_request_key list_client services env (request_key_of list_client services env dto)
          d)
        (receive_new list_client services env dto) d h ((new_Held dto n).holds d h)

calls_Held :
    (services : ReceiptServices) (cs : List (Env × PurchaseCall)) (d : Db)
    → AllNameOnce cs
    → Held d
    → Held (run_purchase_calls list_client services cs d)
calls_Held services [] d n h = h
calls_Held services ((env, c) ∷ cs) d n h =
    calls_Held services cs (run_purchase_call list_client services env c d) n.1
      (call_Held services env c d n.0 h)

-- If the items of purchase orders have different identities and no item has received more than was
-- ordered, both hold after any approvals, cancellations and deliveries in which no delivery names a
-- product twice, whether each succeeds or fails.
pub run_purchase_calls-WithinOrder :
    {p : Prisma}
    → Laws p
    → (services : ReceiptServices) (cs : List (Env × PurchaseCall)) (d : Db) → AllNameOnce cs
    → WithinOrder d.purchase_order_items
    → WithinOrder (run_purchase_calls p services cs d).purchase_order_items
run_purchase_calls-WithinOrder l services cs d n h =
    subst (λ q. WithinOrder (run_purchase_calls q services cs d).purchase_order_items)
      (sym (client-eq l)) (calls_Held services cs d n h)
