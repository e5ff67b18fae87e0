-- ===== src/EventBus/Outbox/Tests.antt =====
-- Two workers at an outbox with two rows, one at a time.
use central_backend_e_commer.Prelude.{ℕ, ◌+◌, ◌≡◌, refl, false, none, [], ◌∷◌, All}
use central_backend_e_commer.Prisma.{OrderBy, list_client-Laws}
use central_backend_e_commer.Schema.{
  Db, Env, empty_db, Order, OrderStatus, OrderSource, OrderType, Event, OutboxEvent,
}
use central_backend_e_commer.EventBus.{outbox_row}
use central_backend_e_commer.EventBus.Outbox.{is_among, claimed, claim_pending_batch}
use central_backend_e_commer.EventBus.Outbox.Once.{Selects, claim_once}

abbrev worker : ℕ → Env
worker t = record { uuid = λ n. n + 1000; now = t; refund_key = λ id. id; actor_id = none }

abbrev order : Order
order = record {
  id = 1;
  request_key = none;
  customer_id = none;
  type = OrderType.customer;
  status = OrderStatus.paid;
  source = OrderSource.pos;
  subtotal = 100;
  discount = 0;
  tax = 0;
  total = 100;
  order_notes = none;
  shipping_address = none;
  billing_address = none;
  items = [];
}

abbrev paid_row : OutboxEvent
paid_row = outbox_row (worker 1) 0 none (Event.order_paid order)

abbrev completed_row : OutboxEvent
completed_row = outbox_row (worker 2) 2 none (Event.order_completed order)

abbrev two_rows : Db
two_rows = record empty_db { outbox = paid_row ∷ completed_row ∷ [] }

abbrev as_stored : OrderBy
as_stored row before rows = rows

as_stored-Selects : Selects as_stored
as_stored-Selects row before P t h = h

claim_once_example :
    All (λ r. is_among (claimed 5 paid_row ∷ []) r ≡ false) (claimed 6 completed_row ∷ [])
unfolding claim_pending_batch
claim_once_example =
    claim_once list_client-Laws (worker 5) (worker 6) as_stored 1 1 two_rows
      (claimed 5 paid_row ∷ []) (claimed 6 completed_row ∷ []) as_stored-Selects (refl, (refl, tt))
      refl refl
