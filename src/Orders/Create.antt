-- ===== src/Orders/Create.antt =====
-- `OrdersService.createWithSource` (`create` and `createPOSOrder` name the source): an order of priced
-- lines, made once for a request key. A caller's transaction has it rolled back with the caller.
pub mod Priced
pub mod Placed
use central_backend_e_commer.Prelude.{
  ℕ, ◌+◌, ◌-◌, ◌*◌, Bool, true, false, ◌&&◌, Option, none, some, List, [], ◌∷◌, ◌++◌, length,
  sum_of, map, ltb, opt_eq, if◌then◌else◌,
}
use central_backend_e_commer.Prelude.Int.{ℤ, pos}
use central_backend_e_commer.Action.{
  Action, Result, ok, err, Error, bad_request, unique_violation, pure, gets, throw_if, ◌>>=◌, ◌>>◌,
}
use central_backend_e_commer.Prisma.{Prisma, OrderBy}
use central_backend_e_commer.Schema.{
  Db, Env, Event, AuditEntry, Order, OrderStatus, OrderSource, OrderType,
}
use central_backend_e_commer.EventBus.{publish}
use central_backend_e_commer.Orders.{log}
use central_backend_e_commer.Orders.Lines.{
  CreateOrderItemDto, CreateOrderDto, CreateOrderOptions, LineItem, OrderKeyInput, SalesServices,
  given_or, or_else, to_non_negative_decimal, build_line_items, items_of,
}
use central_backend_e_commer.Pricing.{PricingCustomerType}

-- `total_price` of a line is in thousandths of a cent, as is the subtotal.
abbrev pub subtotal_of : List LineItem → ℕ
subtotal_of lines = sum_of (λ l. l.total_price) lines

abbrev pub is_given_key : Option ℕ → Option ℕ → Bool
is_given_key (some a) (some b) = opt_eq (some a) (some b)
is_given_key _ _ = false

-- `if (existing) return existing;`
abbrev pub existing_or : Option Order → Action Db Order → Action Db Order
existing_or (some o) m d = (ok o, d)
existing_or none m d = m d

abbrev pub type_of : CreateOrderOptions → CreateOrderDto → OrderType
type_of options dto =
    given_or options.order_type
      (elim dto.customer_id [ some c ↦ OrderType.customer | none ↦ OrderType.guest ])

module _ (p : Prisma) (services : SalesServices) (sort : OrderBy) (env : Env) where
  abbrev pub sorted_ids : LineItem → LineItem
  sorted_ids line = record line {
    asset_ids = services.sort_texts line.asset_ids;
    serial_numbers = services.sort_texts line.serial_numbers;
  }

  -- `buildOrderRequestKey`
  abbrev pub build_order_request_key :
      CreateOrderDto → OrderSource → CreateOrderOptions → ℕ → ℕ → List LineItem → ℕ
  build_order_request_key dto source options discount tax lines = services.request_hash (record {
    source = source;
    actor_id = env.actor_id;
    customer_id = dto.customer_id;
    order_type = type_of options dto;
    discount = discount;
    tax = tax;
    items = map sorted_ids lines;
  })

  abbrev pub request_key_of :
      CreateOrderDto → OrderSource → CreateOrderOptions → ℕ → ℕ → List LineItem → ℕ
  request_key_of dto source options discount tax lines =
      given_or (or_else options.request_key dto.idempotency_key)
        (build_order_request_key dto source options discount tax lines)

  abbrev pub find_by_request_key : ℕ → Db → Option Order
  find_by_request_key key d = p.find_first Order (λ o. opt_eq o.request_key (some key)) d.orders

  abbrev pub order_of :
      ℕ → CreateOrderDto → OrderSource → CreateOrderOptions → ℕ → ℕ → ℕ → List LineItem → Order
  order_of n dto source options key discount tax lines = record {
    id = env.uuid n;
    request_key = some key;
    customer_id = dto.customer_id;
    type = type_of options dto;
    status = OrderStatus.pending;
    source = source;
    subtotal = services.to_cents (subtotal_of lines);
    discount = discount;
    tax = tax;
    total = services.to_cents (subtotal_of lines + tax * 1000 - discount * 1000);
    order_notes = options.order_notes;
    shipping_address = options.shipping_address;
    billing_address = options.billing_address;
    items = items_of p services sort env (n + 1) lines;
  }

  -- The unique column `request_key`.
  abbrev pub create_row : Order → ℕ → Action Db Order
  create_row o items d =
      elim (p.create Order (λ x. is_given_key x.request_key o.request_key) o d.orders) [
        | none ↦ (err unique_violation, d)
        | some t ↦ (ok o, record d { orders = t; drawn = d.drawn + 1 + items })
      ]

  -- The transaction's callback is `persist_order`; this is what it does when no order has the key.
  abbrev pub persist_new_order :
      CreateOrderDto
      → OrderSource
      → CreateOrderOptions
      → ℕ
      → ℕ
      → ℕ
      → List LineItem
      → Action Db Order
  persist_new_order dto source options key discount tax lines = do
    n ← gets (λ d. d.drawn)
    created ← create_row (order_of n dto source options key discount tax lines) (length lines)
    publish p env env.actor_id (Event.order_created created)
    pure created

  abbrev pub persist_order :
      CreateOrderDto
      → OrderSource
      → CreateOrderOptions
      → ℕ
      → ℕ
      → ℕ
      → List LineItem
      → Action Db Order
  persist_order dto source options key discount tax lines d =
      existing_or (find_by_request_key key d)
        (persist_new_order dto source options key discount tax lines) d

  -- The `catch` of a key that another request took first, and the audit line of what is returned else.
  abbrev pub after_persist : ℕ → Result Order × Db → Result Order × Db
  after_persist key (ok o, d) = (log (AuditEntry.order_created o) >> pure o) d
  after_persist key (err Error.unique_violation, d) = elim (find_by_request_key key d) [
    | none ↦ (err unique_violation, d)
    | some o ↦ (ok o, d)
  ]
  after_persist key r = r

  abbrev pub place :
      CreateOrderDto
      → OrderSource
      → CreateOrderOptions
      → ℕ
      → ℕ
      → ℕ
      → List LineItem
      → Action Db Order
  place dto source options key discount tax lines d =
      existing_or (find_by_request_key key d)
        (λ s.
          after_persist key
            (p.transaction Db Order (persist_order dto source options key discount tax lines) s))
        d

  unfoldable pub create_with_source :
      CreateOrderDto → OrderSource → CreateOrderOptions → Action Db Order
  create_with_source dto source options = do
    lines ←
        build_line_items p services sort env dto.items
          (given_or dto.customer_type PricingCustomerType.retail)
    discount ← to_non_negative_decimal (given_or dto.discount (pos 0)) "Discount"
    tax ← to_non_negative_decimal (given_or dto.tax (pos 0)) "Tax"
    throw_if (ltb (subtotal_of lines + tax * 1000) (discount * 1000))
        (bad_request "Order total cannot be negative")
    place dto source options (request_key_of dto source options discount tax lines) discount tax
        lines

  unfoldable pub calculate_subtotal : List CreateOrderItemDto → PricingCustomerType → Action Db ℕ
  calculate_subtotal items customer_type =
      build_line_items p services sort env items customer_type >>= λ lines. pure (subtotal_of lines)

  pub create : CreateOrderDto → CreateOrderOptions → Action Db Order
  create dto options = create_with_source dto OrderSource.online options

  pub create_pos_order : CreateOrderDto → CreateOrderOptions → Action Db Order
  create_pos_order dto options = create_with_source dto OrderSource.pos (record {
    order_type = some OrderType.pos;
    request_key = options.request_key;
    shipping_address = none;
    billing_address = none;
    order_notes = none;
  })
