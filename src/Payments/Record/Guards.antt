-- ===== src/Payments/Record/Guards.antt =====
-- The guards of `recordPayment`: a request stops at one with nothing written, or it goes on to settle.
use central_backend_e_commer.Prelude.{
  ◌≡◌, Bool, true, false, Option, none, some, arith, ◌&&◌, ◌||◌, not,
}
use central_backend_e_commer.Action.{is_ok}
use central_backend_e_commer.Prisma.{list_client}
use central_backend_e_commer.Schema.{
  Db, Env, Order, OrderStatus, same_order_status, Payment, PaymentStatus, same_payment_status,
}
use central_backend_e_commer.Payments.Record.{
  RecordPaymentDto, settle, find_existing_payment_for_replay, persist, desired_status,
  has_succeeded, replay_fits,
}
use central_backend_e_commer.Payments.Queries.{find_order_summary}

-- What lets `persist` go on to `settle`.
abbrev pub fits : Option Payment → RecordPaymentDto → Bool
fits none dto = true
fits (some r) dto = replay_fits dto r

abbrev pub passes : Option Payment → RecordPaymentDto → Order → Bool
passes existing dto o =
    fits existing dto
    && not (
        same_order_status o.status OrderStatus.cancelled
        || same_order_status o.status OrderStatus.refunded)
    && not (
        same_payment_status (desired_status dto) PaymentStatus.success
        && (same_order_status o.status OrderStatus.paid
            || same_order_status o.status OrderStatus.completed)
        && not (has_succeeded existing))

pub persist-passes :
    (env : Env) (dto : RecordPaymentDto) (d : Db) (o : Order) (existing : Option Payment)
    → find_existing_payment_for_replay list_client dto d ≡ existing
    → find_order_summary list_client dto.order_id d ≡ some o
    → passes existing dto o ≡ true
    → persist list_client env dto d ≡ settle list_client env existing dto o d
unfolding persist
persist-passes env dto d o none ex eo h = rw ex (ground arith)
persist-passes env dto d o (some r) ex eo h = rw ex (ground arith)

pub persist_stops :
    (env : Env) (dto : RecordPaymentDto) (d : Db) (o : Order) (existing : Option Payment)
    → find_existing_payment_for_replay list_client dto d ≡ existing
    → find_order_summary list_client dto.order_id d ≡ some o
    → passes existing dto o ≡ false
    → ((persist list_client env dto d).1 ≡ d) × (is_ok (persist list_client env dto d).0 ≡ false)
unfolding persist
persist_stops env dto d o none ex eo h = rw ex (ground arith)
persist_stops env dto d o (some r) ex eo h = rw ex (ground arith)

pub persist_missing :
    (env : Env) (dto : RecordPaymentDto) (d : Db) (existing : Option Payment)
    → find_existing_payment_for_replay list_client dto d ≡ existing
    → find_order_summary list_client dto.order_id d ≡ none
    → ((persist list_client env dto d).1 ≡ d) × (is_ok (persist list_client env dto d).0 ≡ false)
unfolding persist
persist_missing env dto d none ex eo = rw ex (ground arith)
persist_missing env dto d (some r) ex eo = rw ex (ground arith)
