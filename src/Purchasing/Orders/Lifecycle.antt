-- ===== src/Purchasing/Orders/Lifecycle.antt =====
-- The status of a purchase order as a table of what `approve` and `cancel` allow, and the two as its
-- implementation.
use central_backend_e_commer.Prelude.{
  ℕ, ◌+◌, ◌≡◌, Option, none, some, [], ◌∷◌, ◌++◌, arith, ◌==◌, String,
}
use central_backend_e_commer.Action.{Action, Result, ok, err, bad_request, not_found}
use central_backend_e_commer.Prisma.{Prisma, Laws, list_client, client-eq, update_where}
use central_backend_e_commer.Schema.{
  Db, Env, Event, AuditEntry, PurchaseOrder, PurchaseOrderStatus, PurchaseOrderPayload,
}
use central_backend_e_commer.EventBus.{outbox_row}
use central_backend_e_commer.Purchasing.Orders.{
  items_of, with_status, find_by_id, find_one, approve, cancel,
}

pub data StatusCall : Type 0 where
  approval cancellation : StatusCall

pub run_status_call : Prisma → Env → StatusCall → ℕ → Action Db PurchaseOrder
unfolding approve cancel find_one
run_status_call p env StatusCall.approval = approve p env
run_status_call p env StatusCall.cancellation = cancel p env

-- Why a call on an order of a status is refused, where it is.
abbrev pub refusal : StatusCall → PurchaseOrderStatus → Option String
refusal StatusCall.approval PurchaseOrderStatus.draft = none
refusal StatusCall.approval _ = some "Only draft purchase orders can be approved"
refusal StatusCall.cancellation PurchaseOrderStatus.received =
    some "Received purchase orders cannot be cancelled"
refusal StatusCall.cancellation _ = none

abbrev pub target : StatusCall → PurchaseOrderStatus
target StatusCall.approval = PurchaseOrderStatus.approved
target StatusCall.cancellation = PurchaseOrderStatus.cancelled

abbrev pub event_of : StatusCall → PurchaseOrderPayload → Event
event_of StatusCall.approval = Event.purchase_order_approved
event_of StatusCall.cancellation = Event.purchase_order_cancelled

-- The database after an order moved: its row, one event with the order's items, one line of the trail.
abbrev pub moved_db : Env → StatusCall → ℕ → PurchaseOrder → Db → Db
moved_db env c id o d = record d {
  purchase_orders = update_where (λ x. x.id == id) (with_status (target c)) d.purchase_orders;
  outbox =
      d.outbox
      ++ (outbox_row env d.drawn env.actor_id (
            event_of c
              (record { order = with_status (target c) o; items = items_of list_client id d }))
          ∷ []);
  drawn = d.drawn + 2;
  audit = d.audit ++ (AuditEntry.purchase_order_status_changed id o.status (target c) ∷ []);
}

abbrev pub by_refusal :
    Env → StatusCall → ℕ → PurchaseOrder → Db → Option String → Result PurchaseOrder × Db
by_refusal env c id o d none = (ok (with_status (target c) o), moved_db env c id o d)
by_refusal env c id o d (some why) = (err (bad_request why), d)

abbrev pub outcome : Env → StatusCall → ℕ → Db → Option PurchaseOrder → Result PurchaseOrder × Db
outcome env c id d none = (err (not_found "Purchase order not found"), d)
outcome env c id d (some o) = by_refusal env c id o d (refusal c o.status)

status_call_list :
    (env : Env) (c : StatusCall) (id : ℕ) (d : Db)
    → run_status_call list_client env c id d ≡ outcome env c id d (find_by_id list_client env id d)
unfolding run_status_call
status_call_list env StatusCall.approval id d = ground arith
status_call_list env StatusCall.cancellation id d = ground arith

-- `approve` and `cancel` do what the table says, on every status and on a missing order: only a draft is
-- approved and all but a received order cancelled; the order moves, its event is published and the
-- change logged, or nothing changes.
pub run_status_call_lem :
    {p : Prisma}
    → Laws p
    → (env : Env) (c : StatusCall) (id : ℕ) (d : Db)
    → run_status_call p env c id d ≡ outcome env c id d (find_by_id p env id d)
run_status_call_lem laws env c id d = rw (client-eq laws) (status_call_list env c id d)
