-- ===== src/Tests.antt =====
-- The theorems at concrete inputs: a shop with three orders, their payments, some stock and an outbox.
pub mod Shop
pub mod Stock
pub mod Books
pub mod Purchases
pub mod Deliveries
pub mod Workflows
pub mod Sales
use central_backend_e_commer.Tests.Shop.{
  clerk, order_of, first_payment, batch, mugs, mugs_item, pending_order, paid_order,
  cancelled_order, shop, as_stored, plain_services, some_mugs,
}
use central_backend_e_commer.Prelude.{
  ℕ, ◌+◌, ◌≡◌, refl, true, false, Option, none, some, List, [], ◌∷◌, ◌++◌, arith, sum_of,
}
use central_backend_e_commer.Prelude.Int.{pos, ◌+ℤ◌}
use central_backend_e_commer.Action.{ok, err, bad_request}
use central_backend_e_commer.Prisma.{OrderBy, list_client, list_client-Laws}
use central_backend_e_commer.Schema.{
  Db, Env, empty_db, Order, OrderStatus, OrderSource, Payment, PaymentStatus, InventoryItem,
  InventoryBatch, BatchCode, Product, Event,
}
use central_backend_e_commer.EventBus.{outbox_row, published}
use central_backend_e_commer.EventBus.Outbox.Claims.{OutboxCall, run_outbox_calls, calls_published}
use central_backend_e_commer.Orders.{find_by_id}
use central_backend_e_commer.Orders.Lifecycle.{Call, run_call, outcome, run_call_lem}
use central_backend_e_commer.Orders.Reach.{
  Reaches, run_history, history_Reaches, final_stays, run_call_twice,
}
use central_backend_e_commer.Payments.Queries.{find_order_summary, sum_successful_payments}
use central_backend_e_commer.Payments.Queries
use central_backend_e_commer.Payments.Record.{RecordPaymentDto, record_payment}
use central_backend_e_commer.Payments.Record.Transitions.{PaymentReaches}
use central_backend_e_commer.Payments.Record.Moves.{record_payment_keeps}
use central_backend_e_commer.Payments.Refund.{refund_payment, refund_of}
use central_backend_e_commer.Payments.Refund.Books.{refunded_order, refund_books}
use central_backend_e_commer.Payments.Refund.Once.{refund_once}
use central_backend_e_commer.Inventory.Fifo.{FifoAllocation, find_candidate_batches, consume}
use central_backend_e_commer.Inventory.Fifo.Draw.{remaining_of, plan}
use central_backend_e_commer.Inventory.Fifo.Consume.{consume-enough, consume-short}
use central_backend_e_commer.Inventory.Reserve.{reserve_stock, StockReservationInput, StockServices}
use central_backend_e_commer.Inventory.Reserve.Within.{Within, on_hand}
use central_backend_e_commer.Inventory.Reserve.Again.{reserve_again}
use central_backend_e_commer.Inventory.Reserve.History.{Request, run_requests, history-Within}

run_call_lem_example :
    run_call list_client clerk Call.pay 1 shop ≡ outcome clerk Call.pay 1 shop (some pending_order)
run_call_lem_example = run_call_lem list_client-Laws clerk Call.pay 1 shop

abbrev busy_day : List (Call × ℕ)
busy_day = (Call.pay, 1) ∷ (Call.drop, 2) ∷ (Call.finish, 1) ∷ (Call.refund, 1) ∷ (Call.pay, 3) ∷ []

history_Reaches_example :
    (o' : Order) × (find_by_id list_client 1 (run_history list_client clerk busy_day shop)
      ≡ some o')
    × Reaches OrderStatus.pending o'.status
    × (o' ≡ record pending_order { status = o'.status })
history_Reaches_example = history_Reaches list_client-Laws clerk busy_day shop 1 pending_order refl

final_stays_example :
    find_by_id list_client 3 (run_history list_client clerk busy_day shop) ≡ some cancelled_order
final_stays_example = final_stays list_client-Laws clerk busy_day shop 3 cancelled_order refl tt

run_call_twice_example :
    (run_call list_client clerk Call.refund 2 (run_call list_client clerk Call.refund 2 shop).1).1
    ≡ (run_call list_client clerk Call.refund 2 shop).1
run_call_twice_example = run_call_twice list_client-Laws clerk Call.refund 2 shop

abbrev part_payment : RecordPaymentDto
part_payment = record {
  order_id = 1;
  method = 1;
  amount = pos 40;
  status = none;
  reference = none;
  idempotency_key = some 8;
}

record_payment_keeps_example :
    (r' : Payment) × (central_backend_e_commer.Payments.Queries.find_by_id list_client 51
        (record_payment list_client clerk part_payment shop).1
      ≡ some r')
    × PaymentReaches PaymentStatus.success r'.status
    × (r' ≡ record first_payment { status = r'.status })
record_payment_keeps_example =
    record_payment_keeps list_client-Laws clerk part_payment shop 51 first_payment refl

refund_books_example :
    let (result, d') = refund_payment list_client clerk 51 shop in
    (result ≡ ok (refund_of clerk shop first_payment))
    × (d'.payments ≡ shop.payments ++ (refund_of clerk shop first_payment ∷ []))
    × (sum_successful_payments list_client 2 d' +ℤ pos 80
        ≡ sum_successful_payments list_client 2 shop)
    × (find_order_summary list_client 2 d' ≡ some (refunded_order paid_order))
refund_books_example =
    refund_books list_client-Laws clerk 51 shop first_payment paid_order refl refl refl refl refl

refund_once_example :
    let d' = (refund_payment list_client clerk 51 shop).1 in
    refund_payment list_client clerk 51 d' ≡ (ok (refund_of clerk shop first_payment), d')
refund_once_example =
    refund_once list_client-Laws clerk 51 shop (refund_of clerk shop first_payment)
      (refund_books list_client-Laws clerk 51 shop first_payment paid_order refl refl refl refl
        refl).0

consume-enough_example :
    let (r, d') = consume list_client clerk as_stored 4 none 8 shop in
    let drawn = plan (find_candidate_batches list_client clerk as_stored 4 none shop) 8 in
    (r ≡ ok drawn)
    × (sum_of (λ a. a.quantity) drawn ≡ 8)
    × (sum_of remaining_of d'.batches + 8 ≡ 15)
    × (d' ≡ record shop { batches = d'.batches })
consume-enough_example =
    consume-enough list_client-Laws clerk as_stored 4 none 8 shop (ground arith) (ground arith)
      (ground arith)

consume-short_example :
    list_client.transaction Db
      (List FifoAllocation)
      (consume list_client clerk as_stored 4 none 16)
      shop
    ≡ (err (bad_request "Insufficient inventory"), shop)
consume-short_example =
    consume-short list_client-Laws clerk as_stored 4 none 16 shop (ground arith) (ground arith)

abbrev requests : List Request
requests =
    Request.reserve clerk (some_mugs 31 6)
    ∷ Request.reserve clerk (some_mugs 32 9)
    ∷ Request.release clerk (some_mugs 31 6)
    ∷ []

history-Within_example :
    Within (run_requests list_client plain_services requests shop).items
    × (on_hand (run_requests list_client plain_services requests shop).items ≡ 15)
history-Within_example = history-Within list_client-Laws plain_services requests shop (ground arith)

reserve_again_example :
    let d1 = (reserve_stock list_client plain_services clerk (some_mugs 31 6) shop).1 in
    let d2 = (reserve_stock list_client plain_services clerk (some_mugs 31 6) d1).1 in
    (d2.items ≡ d1.items) × (d2.reservations ≡ d1.reservations) × (d2.outbox ≡ d1.outbox)
reserve_again_example = reserve_again list_client-Laws plain_services clerk (some_mugs 31 6) shop

abbrev rounds : List (Env × OutboxCall)
rounds =
    (clerk, OutboxCall.claim 10)
    ∷ (clerk, OutboxCall.failed 1001 77)
    ∷ (clerk, OutboxCall.retry 10)
    ∷ (clerk, OutboxCall.claim 10)
    ∷ (clerk, OutboxCall.processed 1001)
    ∷ []

calls_published_example :
    published (run_outbox_calls list_client as_stored rounds shop)
    ≡ Event.order_paid paid_order ∷ []
calls_published_example = calls_published list_client-Laws as_stored rounds shop
