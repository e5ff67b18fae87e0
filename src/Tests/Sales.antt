-- ===== src/Tests/Sales.antt =====
-- The theorem on new orders at a concrete request: two mugs at a member's price, and a discount.
use central_backend_e_commer.Prelude.{ℕ, ◌+◌, ◌/◌, ◌≡◌, refl, none, some, [], ◌∷◌, map}
use central_backend_e_commer.Prelude.Int.{pos}
use central_backend_e_commer.Action.{ok}
use central_backend_e_commer.Prisma.{list_client, OrderBy}
use central_backend_e_commer.Schema.{Db, OrderSource, ProductPricing, Order}
use central_backend_e_commer.Inventory.Identity.{resolve_for_write}
use central_backend_e_commer.Orders.Lines.{
  CreateOrderItemDto, CreateOrderDto, CreateOrderOptions, SalesServices, build_line_items,
  build_line_item,
}
use central_backend_e_commer.Orders.Create.{create_with_source}
use central_backend_e_commer.Pricing.{PricingCustomerType, resolve_price, resolved_price}
use central_backend_e_commer.Tests.Shop.{clerk, shop}

abbrev mug_price : ProductPricing
mug_price = record {
  id = 1;
  product_id = 4;
  variant_id = none;
  cost_price = 300;
  selling_price = 1000;
  wholesale_price = none;
  member_price = some 900;
  promotion_price = some 500;
  promotion_start_at = some 200;
  promotion_end_at = none;
}

abbrev pub priced_shop : Db
priced_shop = record shop { pricing = mug_price ∷ [] }

abbrev half_up : ℕ → ℕ
half_up n = (n + 500) / 1000

abbrev as_stored : OrderBy
as_stored = λ Row before t. t

abbrev counter : SalesServices
counter = record {
  resolve_product_selection = λ code d. ok none;
  assert_sales_configuration = λ s u assets serials d. ok none;
  resolve_sale_asset_ids = λ i q assets serials d. ok [];
  request_hash = λ k. k.discount + 7000;
  sort_texts = λ t. t;
  to_cents = half_up;
}

abbrev two_mugs : CreateOrderItemDto
two_mugs = record {
  product_id = some 4;
  barcode = none;
  stock_item_id = none;
  unit_id = none;
  variant_id = none;
  quantity = pos 2000;
  asset_ids = [];
  serial_numbers = [];
}

abbrev basket : CreateOrderDto
basket = record {
  items = two_mugs ∷ [];
  customer_id = some 3;
  customer_type = some PricingCustomerType.member;
  discount = some (pos 100);
  tax = some (pos 70);
  idempotency_key = none;
}

abbrev no_options : CreateOrderOptions
no_options = record {
  order_type = none;
  request_key = none;
  shipping_address = none;
  billing_address = none;
  order_notes = none;
}

-- Made twice, the order is there once.
abbrev after_orders : Db
after_orders =
    (create_with_source list_client counter as_stored clerk basket OrderSource.online no_options
      (create_with_source list_client counter as_stored clerk basket OrderSource.online no_options
        priced_shop).1).1

totals : map (λ (o : Order). o.total) after_orders.orders ≡ 100 ∷ 80 ∷ 5 ∷ 1770 ∷ []
unfolding create_with_source build_line_items build_line_item resolve_for_write resolve_price
    resolved_price
totals = refl
