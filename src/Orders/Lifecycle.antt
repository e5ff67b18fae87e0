-- ===== src/Orders/Lifecycle.antt =====
-- The transitions of an order's status as a table, and the four methods of `OrdersService` that change
-- the status as its implementation.
use central_backend_e_commer.Prelude.{
  ℕ, ◌+◌, ◌≡◌, Option, none, some, [], ◌∷◌, ◌++◌, arith, ◌==◌, String,
}
use central_backend_e_commer.Action.{Action, Result, ok, err, bad_request, not_found}
use central_backend_e_commer.Prisma.{Prisma, Laws, list_client, client-eq, update_where}
use central_backend_e_commer.Schema.{Db, Env, Order, OrderStatus, Event, AuditEntry, StatusReason}
use central_backend_e_commer.EventBus.{outbox_row}
use central_backend_e_commer.Orders.{find_by_id, mark_paid, complete, mark_refunded, cancel}

pub data Call : Type 0 where
  pay finish refund drop : Call

pub run_call : Prisma → Env → Call → ℕ → Action Db Order
unfolding mark_paid complete mark_refunded cancel
run_call p env Call.pay = mark_paid p env
run_call p env Call.finish = complete p env
run_call p env Call.refund = mark_refunded p env
run_call p env Call.drop = cancel p env

-- What a call does to an order: it moves to the call's status, stays, or the call is refused.
pub data Verdict : Type 0 where
  advance stay : Verdict
  refuse : String → Verdict

abbrev pub verdict : Call → OrderStatus → Verdict
verdict Call.pay OrderStatus.pending = Verdict.advance
verdict Call.pay OrderStatus.paid = Verdict.stay
verdict Call.pay OrderStatus.completed = Verdict.stay
verdict Call.pay _ = Verdict.refuse "Order cannot be paid in its current status"
verdict Call.finish OrderStatus.paid = Verdict.advance
verdict Call.finish _ = Verdict.refuse "Only paid orders can be completed"
verdict Call.refund OrderStatus.paid = Verdict.advance
verdict Call.refund OrderStatus.completed = Verdict.advance
verdict Call.refund OrderStatus.refunded = Verdict.stay
verdict Call.refund _ = Verdict.refuse "Only paid or completed orders can be refunded"
verdict Call.drop OrderStatus.pending = Verdict.advance
verdict Call.drop OrderStatus.cancelled = Verdict.stay
verdict Call.drop _ = Verdict.refuse "Only pending orders can be cancelled"

abbrev pub target : Call → OrderStatus
target Call.pay = OrderStatus.paid
target Call.finish = OrderStatus.completed
target Call.refund = OrderStatus.refunded
target Call.drop = OrderStatus.cancelled

abbrev pub event_of : Call → Order → Event
event_of Call.pay = Event.order_paid
event_of Call.finish = Event.order_completed
event_of Call.refund = Event.order_refunded
event_of Call.drop = Event.order_cancelled

abbrev pub reason_of : Call → StatusReason
reason_of Call.pay = StatusReason.payment_received
reason_of Call.finish = StatusReason.order_completed
reason_of Call.refund = StatusReason.payment_refunded
reason_of Call.drop = StatusReason.order_cancelled

-- The order moved to the call's status.
abbrev pub moved : Call → Order → Order
moved c o = record o { status = target c }

-- The database after an order moved: its row, one event, one line of the audit trail.
abbrev pub moved_db : Env → Call → ℕ → Order → Db → Db
moved_db env c id o d = record d {
  orders = update_where (λ x. x.id == id) (moved c) d.orders;
  outbox = d.outbox ++ (outbox_row env d.drawn env.actor_id (event_of c (moved c o)) ∷ []);
  drawn = d.drawn + 2;
  audit = d.audit ++ (AuditEntry.order_status_changed id o.status (target c) (reason_of c) ∷ []);
}

abbrev pub by_verdict : Env → Call → ℕ → Order → Db → Verdict → Result Order × Db
by_verdict env c id o d Verdict.advance = (ok (moved c o), moved_db env c id o d)
by_verdict env c id o d Verdict.stay = (ok o, d)
by_verdict env c id o d (Verdict.refuse why) = (err (bad_request why), d)

abbrev pub outcome : Env → Call → ℕ → Db → Option Order → Result Order × Db
outcome env c id d none = (err (not_found "Order not found"), d)
outcome env c id d (some o) = by_verdict env c id o d (verdict c o.status)

pub run_call_list :
    (env : Env) (c : Call) (id : ℕ) (d : Db)
    → run_call list_client env c id d ≡ outcome env c id d (find_by_id list_client id d)
unfolding run_call
run_call_list env Call.pay id d = ground arith
run_call_list env c id d = ground arith

-- Each of the four methods does what the table says, on every status and on a missing order: it
-- moves the order, publishes the call's event and logs the change, or it changes nothing.
pub run_call_lem :
    {p : Prisma}
    → Laws p
    → (env : Env) (c : Call) (id : ℕ) (d : Db)
    → run_call p env c id d ≡ outcome env c id d (find_by_id p id d)
run_call_lem laws env c id d = rw (client-eq laws) (run_call_list env c id d)
