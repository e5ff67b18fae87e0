-- ===== src/Payments/Refund/Books.antt =====
-- What a refund does to the books: the rows it writes and the sum that is left.
use central_backend_e_commer.Prelude.{
  ℕ, ◌≡◌, refl, Bool, false, none, some, List, [], ◌∷◌, ◌++◌, arith, any, ◌==◌, ◌&&◌, ◌||◌,
  if◌then◌else◌,
}
use central_backend_e_commer.Prelude.Int.{◌+ℤ◌, neg, +ℤ-zero, +ℤ-neg_cancel}
use central_backend_e_commer.Action.{ok}
use central_backend_e_commer.Prisma.{
  Prisma, Laws, list_client, client-eq, first, update_where, sum_where,
}
use central_backend_e_commer.Prisma.Keys.{first-update, first_own, first_has_key}
use central_backend_e_commer.Prisma.Sums.{sum_where-append}
use central_backend_e_commer.Schema.{
  Db, Env, Order, OrderStatus, same_order_status, Payment, PaymentStatus,
}
use central_backend_e_commer.Payments.Queries.{
  find_by_id, find_refund_for_payment, find_order_summary, sum_successful_payments, conflicts,
  counts_for,
}
use central_backend_e_commer.Payments.Refund.{refund_payment, refund_of}

-- The order after the refund of a payment of it.
abbrev pub refunded_order : Order → Order
refunded_order o =
    if same_order_status o.status OrderStatus.paid
      || same_order_status o.status OrderStatus.completed
    then record o { status = OrderStatus.refunded }
    else o

abbrev refundable : ℕ → Order → Bool
refundable id x =
    x.id == id && any (same_order_status x.status) (OrderStatus.paid ∷ OrderStatus.completed ∷ [])

-- The rows of `orders` after it.
abbrev refunded_orders : ℕ → List Order → List Order
refunded_orders id t =
    update_where (refundable id) (λ x. record x { status = OrderStatus.refunded }) t

order_refreshed :
    (k : ℕ) (t : List Order) (o : Order)
    → first (λ x. x.id == k) t ≡ some o
    → first (λ x. x.id == o.id) (refunded_orders o.id t) ≡ some (refunded_order o)
order_refreshed k t o e = ground (
  arith,
  first-update (λ (x : Order). x.id) (refundable o.id)
      (λ x. record x { status = OrderStatus.refunded }) (λ x. refl) o.id t,
  first_own (λ (x : Order). x.id) k t o e,
)

pub refund_list :
    (env : Env) (id : ℕ) (d : Db) (r : Payment) (o : Order)
    → find_by_id list_client id d ≡ some r
    → r.status ≡ PaymentStatus.success
    → find_order_summary list_client r.order_id d ≡ some o
    → find_refund_for_payment list_client id d ≡ none
    → any (conflicts (refund_of env d r)) d.payments ≡ false
    → let (result, d') = refund_payment list_client env id d in
      (result ≡ ok (refund_of env d r))
      × (d'.payments ≡ d.payments ++ (refund_of env d r ∷ []))
      × (find_order_summary list_client r.order_id d' ≡ some (refunded_order o))
unfolding refund_payment
refund_list env id d r o er es eo en ef = ground (
  arith,
  order_refreshed r.order_id d.orders o eo,
  first_has_key (λ (x : Order). x.id) r.order_id d.orders o eo,
)

-- The sum of the successful payments falls by what the refunded payment had added.
sum_after :
    (env : Env) (d : Db) (r : Payment)
    → sum_where (counts_for r.order_id) (λ x. x.amount) (d.payments ++ (refund_of env d r ∷ []))
        +ℤ r.amount
      ≡ sum_where (counts_for r.order_id) (λ x. x.amount) d.payments
sum_after env d r =
    let law =
      sum_where-append (counts_for r.order_id) (λ x. x.amount) d.payments
        (refund_of env d r ∷ []) in
    ground (
      arith,
      law,
      +ℤ-zero (neg r.amount),
      +ℤ-neg_cancel (sum_where (counts_for r.order_id) (λ x. x.amount) d.payments) r.amount,
    )

-- The first refund of a successful payment, whose refund key no payment has taken, succeeds: it adds
-- one payment with the opposite amount, the successful payments of the order add up to less by the
-- amount, and the order, if it was paid or completed, is refunded.
pub refund_books :
    {p : Prisma}
    → Laws p
    → (env : Env) (id : ℕ) (d : Db) (r : Payment) (o : Order) → find_by_id p id d ≡ some r
    → r.status ≡ PaymentStatus.success
    → find_order_summary p r.order_id d ≡ some o
    → find_refund_for_payment p id d ≡ none
    → any (conflicts (refund_of env d r)) d.payments ≡ false
    → let (result, d') = refund_payment p env id d in
      (result ≡ ok (refund_of env d r))
      × (d'.payments ≡ d.payments ++ (refund_of env d r ∷ []))
      × (sum_successful_payments p r.order_id d' +ℤ r.amount
          ≡ sum_successful_payments p r.order_id d)
      × (find_order_summary p r.order_id d' ≡ some (refunded_order o))
refund_books {p} laws env id d r o er es eo en ef = rw (client-eq laws) (
    let same = client-eq laws in
    let (a, b, c) =
      refund_list env id d r o (rw same at er) es (rw same at eo) (rw same at en) ef in
    (a, b, rw b (sum_after env d r), c))
