-- ===== src/Orders/Create/Placed.antt =====
-- What `createWithSource` returns: the order of the request key, or a new one whose amounts agree.
use central_backend_e_commer.Prelude.{
  ℕ, ◌+◌, ◌*◌, ◌≡◌, ◌⊎◌, Option, none, some, List, [], ◌∷◌, ◌++◌, sum_of, map, opt_eq,
}
use central_backend_e_commer.Prelude.Int.{pos}
use central_backend_e_commer.Action.Leads.{Leads}
use central_backend_e_commer.Prisma.{Prisma, list_client, first, OrderBy}
use central_backend_e_commer.Schema.{Db, Env, Event, Order, OrderItem, OrderStatus, OrderSource}
use central_backend_e_commer.EventBus.{published}
use central_backend_e_commer.Orders.Lines.{
  CreateOrderDto, CreateOrderOptions, LineItem, SalesServices, given_or,
}
use central_backend_e_commer.Orders.Create.{type_of, sorted_ids}
use central_backend_e_commer.Orders.Create.Priced.{LineFor, Each}
use central_backend_e_commer.Pricing.{PricingCustomerType}

-- A column rounds an amount to cents, whatever whole cents are added to it.
abbrev pub Rounds : (ℕ → ℕ) → Type 0
Rounds to_cents = (x n : ℕ) → to_cents (x + n * 1000) ≡ to_cents x + n

-- The item of an order that a line became.
abbrev pub IsItemOf : LineItem → OrderItem → Type 0
IsItemOf line i =
    (i.product_id ≡ line.product_id)
    × (i.variant_id ≡ line.variant_id)
    × (i.stock_item_id ≡ line.stock_item_id)
    × (i.unit_id ≡ line.unit_id)
    × (i.quantity ≡ line.quantity)
    × (i.base_quantity ≡ line.base_quantity)
    × (i.unit_price ≡ line.unit_price)
    × (i.serial_numbers ≡ line.serial_numbers)
    × (i.asset_ids ≡ line.asset_ids)

-- A new order: it has the request key and the lines that were asked for, waits for its payment, its
-- amounts agree with one another and with its items, and it is announced.
pub record Placed (services : SalesServices) (dto : CreateOrderDto) (source : OrderSource)
    (lines : List LineItem) (discount tax key : ℕ) (d : Db) (o : Order) (s : Db) : Type 0 where
  pub unasked : first (λ (x : Order). opt_eq x.request_key (some key)) d.orders ≡ none
  pub added : s.orders ≡ d.orders ++ (o ∷ [])
  pub keyed : o.request_key ≡ some key
  pub customer : o.customer_id ≡ dto.customer_id
  pub sold_by : o.source ≡ source
  pub pending : o.status ≡ OrderStatus.pending
  pub items : Each IsItemOf lines o.items
  pub discounted : o.discount ≡ discount
  pub taxed : o.tax ≡ tax
  pub totals : o.total + o.discount ≡ o.subtotal + o.tax
  pub subtotal : o.subtotal ≡ services.to_cents (sum_of (λ i. i.unit_price * i.quantity) o.items)
  pub announced : published s ≡ published d ++ (Event.order_created o ∷ [])

-- The key of a request: the one that is given with it, else the one in it, else its hash.
abbrev pub IsKey : Option ℕ → Option ℕ → ℕ → ℕ → Type 0
IsKey (some k) inner hash key = key ≡ k
IsKey none (some k) hash key = key ≡ k
IsKey none none hash key = key ≡ hash

-- A request that returned: what was asked for became lines, discount and tax; the order is the one of the
-- request's key, and nothing changed, or a new one.
pub record Outcome (services : SalesServices) (sort : OrderBy) (env : Env) (dto : CreateOrderDto)
    (source : OrderSource) (options : CreateOrderOptions) (d : Db) (o : Order) (s : Db)
    : Type 0 where
  pub lines : List LineItem
  pub discount : ℕ
  pub tax : ℕ
  pub asked :
      Each
        (LineFor services sort env.now (given_or dto.customer_type PricingCustomerType.retail) d)
        dto.items
        lines
  pub asked_discount : given_or dto.discount (pos 0) ≡ pos discount
  pub asked_tax : given_or dto.tax (pos 0) ≡ pos tax
  pub key : ℕ
  pub request_key :
      IsKey options.request_key dto.idempotency_key
        (services.request_hash (record {
          source = source;
          actor_id = env.actor_id;
          customer_id = dto.customer_id;
          order_type = type_of options dto;
          discount = discount;
          tax = tax;
          items = map (sorted_ids list_client services sort env) lines;
        }))
        key
  pub order :
      ((s ≡ d) × (first (λ (x : Order). opt_eq x.request_key (some key)) d.orders ≡ some o))
      ⊎ Placed services dto source lines discount tax key d o s

module _ (services : SalesServices) (rounds : Rounds services.to_cents) (sort : OrderBy)
    (env : Env) where
  module _ (dto : CreateOrderDto) (source : OrderSource) (options : CreateOrderOptions) where
    -- What `place` leads to, once the lines and the amounts are known.
    abbrev Ordered : ℕ → ℕ → List LineItem → ℕ → Db → Order → Db → Type 0
    Ordered discount tax lines key d o s =
        ((s ≡ d) × (first (λ (x : Order). opt_eq x.request_key (some key)) d.orders ≡ some o))
        ⊎ Placed services dto source lines discount tax key d o s
