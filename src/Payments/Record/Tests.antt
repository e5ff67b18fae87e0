-- ===== src/Payments/Record/Tests.antt =====
-- Recording a payment at a concrete input: the second half of what an order costs.
use central_backend_e_commer.Prelude.{◌+◌, ◌≡◌, refl, true, none, some, [], ◌∷◌, arith}
use central_backend_e_commer.Prelude.Int.{pos, leb_ℤ, ◌+ℤ◌}
use central_backend_e_commer.Prisma.{list_client, list_client-Laws}
use central_backend_e_commer.Schema.{
  Db, Env, empty_db, Order, OrderStatus, OrderSource, OrderType, Payment, PaymentStatus,
}
use central_backend_e_commer.Payments.Queries.{sum_successful_payments}
use central_backend_e_commer.Payments.Record.{RecordPaymentDto, persist, settle, record_payment}
use central_backend_e_commer.Payments.Record.Paid.{record_payment_covers}

abbrev till : Env
till = record { uuid = λ n. n + 1000; now = 5; refund_key = λ id. id + 5000; actor_id = none }

abbrev order : Order
order = record {
  id = 1;
  request_key = none;
  customer_id = none;
  type = OrderType.customer;
  status = OrderStatus.pending;
  source = OrderSource.pos;
  subtotal = 100;
  discount = 0;
  tax = 0;
  total = 100;
  order_notes = none;
  shipping_address = none;
  billing_address = none;
  items = [];
}

abbrev first_half : Payment
first_half = record {
  id = 51;
  order_id = 1;
  method = 1;
  amount = pos 50;
  status = PaymentStatus.success;
  reference = none;
  idempotency_key = some 7;
  refund_of_payment_id = none;
}

abbrev half_paid : Db
half_paid = record empty_db { orders = order ∷ []; payments = first_half ∷ [] }

abbrev second_half : RecordPaymentDto
second_half = record {
  order_id = 1;
  method = 1;
  amount = pos 50;
  status = none;
  reference = none;
  idempotency_key = some 8;
}

record_payment_covers_example :
    leb_ℤ (pos 100) (
      sum_successful_payments list_client 1
        (record_payment list_client till second_half half_paid).1)
    ≡ true
unfolding record_payment persist settle ◌+ℤ◌
record_payment_covers_example =
    record_payment_covers list_client-Laws till second_half half_paid 1 order
      (record order { status = OrderStatus.paid }) refl (λ h. ground arith) refl refl
