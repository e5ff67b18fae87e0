-- ===== src/Orders/Lines.antt =====
-- The lines of an order that is being made (`buildLineItem` of orders.service.ts): what is sold, checked
-- and priced.
use central_backend_e_commer.Prelude.{
  ℕ, ◌+◌, ◌*◌, Bool, true, false, not, ◌&&◌, ◌||◌, Option, none, some, List, [], ◌∷◌, String,
  length, any, ◌==◌, opt_eq, if◌then◌else◌,
}
use central_backend_e_commer.Prelude.Int.{ℤ, pos, negsuc}
use central_backend_e_commer.Prelude.Text.{template}
use central_backend_e_commer.Action.{
  Action, Result, bad_request, not_found, pure, throw, gets, or_throw, throw_if, ◌>>=◌, ◌>>◌,
}
use central_backend_e_commer.Prisma.{Prisma, OrderBy}
use central_backend_e_commer.Schema.{
  Db, Env, OrderItem, OrderSource, OrderType, Product, InventorySerial, SerialStatus,
}
use central_backend_e_commer.Inventory.Identity.{WriteInput, ResolvedIdentity, resolve_for_write}
use central_backend_e_commer.Inventory.Queries.{Identity}
use central_backend_e_commer.Inventory.Services.{Configuration, reads, is_empty, quantity_scale}
use central_backend_e_commer.Pricing.{PricingCustomerType, ResolvedPrice, resolve_price}

-- A quantity is in thousandths, `discount` and `tax` in cents.
pub record CreateOrderItemDto : Type 0 where
  pub product_id : Option ℕ
  pub barcode : Option ℕ
  pub stock_item_id : Option ℕ
  pub unit_id : Option ℕ
  pub variant_id : Option ℕ
  pub quantity : ℤ
  pub asset_ids : List ℕ
  pub serial_numbers : List ℕ

pub record CreateOrderDto : Type 0 where
  pub items : List CreateOrderItemDto
  pub customer_id : Option ℕ
  pub customer_type : Option PricingCustomerType
  pub discount : Option ℤ
  pub tax : Option ℤ
  pub idempotency_key : Option ℕ

-- The guest's and the contact's names, which are only copied, are left out.
pub record CreateOrderOptions : Type 0 where
  pub order_type : Option OrderType
  pub request_key : Option ℕ
  pub shipping_address : Option ℕ
  pub billing_address : Option ℕ
  pub order_notes : Option ℕ

-- `total_price` is in thousandths of a cent.
pub record LineItem : Type 0 where
  pub product_id : ℕ
  pub stock_item_id : Option ℕ
  pub variant_id : Option ℕ
  pub unit_id : Option ℕ
  pub is_stock_tracked : Bool
  pub is_serialized : Bool
  pub asset_ids : List ℕ
  pub serial_numbers : List ℕ
  pub quantity : ℕ
  pub base_quantity : ℕ
  pub unit_price : ℕ
  pub total_price : ℕ

-- What a barcode stands for.
pub record Selection : Type 0 where
  pub product_id : ℕ
  pub variant_id : Option ℕ
  pub stock_item_id : Option ℕ
  pub unit_id : Option ℕ

-- What the text is made of, whose hash is the request key.
pub record OrderKeyInput : Type 0 where
  pub source : OrderSource
  pub actor_id : Option ℕ
  pub customer_id : Option ℕ
  pub order_type : OrderType
  pub discount : ℕ
  pub tax : ℕ
  pub items : List LineItem

-- What is called of the barcode registry, the stock item configuration and the unique assets; the hash
-- of a request (`createHash`); `Array.sort` on texts; and how many cents a column keeps of an amount in
-- thousandths of a cent.
pub record SalesServices : Type 0 where
  pub resolve_product_selection : ℕ → Db → Result (Option Selection)
  pub assert_sales_configuration :
      Option ℕ → Option ℕ → List ℕ → List ℕ → Db → Result (Option Configuration)
  pub resolve_sale_asset_ids : Identity → ℕ → List ℕ → List ℕ → Db → Result (List ℕ)
  pub request_hash : OrderKeyInput → ℕ
  pub sort_texts : List ℕ → List ℕ
  pub to_cents : ℕ → ℕ

abbrev pub or_else : {A : Type 0} → Option A → Option A → Option A
or_else (some a) other = some a
or_else none other = other

abbrev pub given_or : {A : Type 0} → Option A → A → A
given_or (some a) other = a
given_or none other = other

-- `toNonNegativeDecimal` and `toPositiveDecimal`
abbrev pub to_non_negative_decimal : ℤ → String → Action Db ℕ
to_non_negative_decimal (pos n) name = pure n
to_non_negative_decimal (negsuc n) name =
    throw (bad_request (template name " must be zero or greater" "" ""))

abbrev pub to_positive_decimal : ℤ → String → Action Db ℕ
to_positive_decimal value name = do
  n ← to_non_negative_decimal value name
  throw_if (n == 0) (bad_request (template name " must be greater than zero" "" ""))
  pure n

abbrev pub is_available : SerialStatus → Bool
is_available SerialStatus.available = true
is_available _ = false

-- `stockItemId ? { OR: [{ stockItemId }, { stockItemId: null }] } : {}`
abbrev pub is_in_stock_of : Option ℕ → InventorySerial → Bool
is_in_stock_of none r = true
is_in_stock_of (some s) r = opt_eq r.stock_item_id (some s) || opt_eq r.stock_item_id none

-- `variantId && product.variants.length === 0`, of the variants that `findProductForOrderItem` selects
abbrev pub lacks_active_variant : Product → Option ℕ → Bool
lacks_active_variant r none = false
lacks_active_variant r (some v) = not (any (λ x. x.id == v && x.is_active) r.variants)

module _ (p : Prisma) (services : SalesServices) (sort : OrderBy) (env : Env) where
  abbrev pub count_available_serial_numbers : ℕ → List ℕ → Option ℕ → Db → ℕ
  count_available_serial_numbers product [] stock_item d = 0
  count_available_serial_numbers product (s ∷ serials) stock_item d = length (
      p.find_many InventorySerial
        (λ r.
          r.product_id == product
          && is_in_stock_of stock_item r
          && is_available r.status
          && any (λ x. x == r.serial_number) (s ∷ serials))
        d.serials)

  abbrev pub ensure_serialized_item : ℕ → ℕ → List ℕ → Option ℕ → Action Db (Unit {0})
  ensure_serialized_item product quantity serials stock_item = do
    throw_if (not (quantity == length serials * quantity_scale))
        (bad_request "Serial number count must match quantity")
    count ← gets (count_available_serial_numbers product serials stock_item)
    throw_if (not (count == length serials))
        (bad_request "One or more serial numbers are unavailable")

  abbrev pub resolve_item_identity : CreateOrderItemDto → Action Db Selection
  resolve_item_identity item = elim item.product_id [
    | some id ↦ pure (record {
      product_id = id;
      variant_id = item.variant_id;
      stock_item_id = item.stock_item_id;
      unit_id = item.unit_id;
    })
    | none ↦ elim item.barcode [
      | none ↦ throw (bad_request "Order item product or barcode is required")
      | some code ↦ reads (services.resolve_product_selection code) >>= λ found.
          or_throw found (not_found "Barcode not found")
    ]
  ]

  abbrev pub write_input_of : CreateOrderItemDto → Selection → ℕ → WriteInput
  write_input_of item identity quantity = record {
    product_id = identity.product_id;
    quantity = quantity;
    variant_id = identity.variant_id;
    stock_item_id = or_else item.stock_item_id identity.stock_item_id;
    unit_id = or_else item.unit_id identity.unit_id;
  }

  abbrev pub tracks_assets : Option Configuration → Bool
  tracks_assets none = false
  tracks_assets (some c) = c.track_unique_assets

  abbrev pub sale_assets :
      Option Configuration
      → Selection
      → ResolvedIdentity
      → ℕ
      → CreateOrderItemDto
      → Action Db (List ℕ)
  sale_assets config identity resolved quantity item = elim resolved.stock_item_id [
    | none ↦ pure []
    | some s ↦
        if tracks_assets config
        then reads (
            services.resolve_sale_asset_ids
              (record { product_id = identity.product_id; stock_item_id = some s }) quantity
              item.asset_ids item.serial_numbers)
        else pure []
  ]

  abbrev pub check_serials : Product → List ℕ → ℕ → List ℕ → ResolvedIdentity → Action Db (Unit {0})
  check_serials product assets quantity serials resolved =
      if product.is_serialized && is_empty assets
      then ensure_serialized_item product.id quantity serials resolved.stock_item_id
      else throw_if (not (is_empty serials))
          (bad_request "Serial numbers can only be provided for serialized products")

  abbrev pub line_of :
      CreateOrderItemDto
      → Selection
      → Product
      → ℕ
      → ResolvedIdentity
      → List ℕ
      → ResolvedPrice
      → LineItem
  line_of item identity product quantity resolved assets price = record {
    product_id = identity.product_id;
    stock_item_id = resolved.stock_item_id;
    variant_id = identity.variant_id;
    unit_id = or_else (or_else item.unit_id identity.unit_id) resolved.unit_id;
    is_stock_tracked = product.is_stock_tracked;
    is_serialized = product.is_serialized;
    asset_ids = assets;
    serial_numbers = item.serial_numbers;
    quantity = quantity;
    base_quantity = resolved.base_quantity;
    unit_price = price.final_price;
    total_price = price.final_price * quantity;
  }

  -- `buildLineItem` from the quantity on.
  abbrev pub finish_line :
      CreateOrderItemDto → PricingCustomerType → Selection → Product → Action Db LineItem
  finish_line item customer_type identity product = do
    quantity ← to_positive_decimal item.quantity "Quantity"
    resolved ← resolve_for_write p (write_input_of item identity quantity)
    config ← reads (
        services.assert_sales_configuration resolved.stock_item_id resolved.unit_id item.asset_ids
          item.serial_numbers)
    assets ← sale_assets config identity resolved quantity item
    check_serials product assets quantity item.serial_numbers resolved
    price ← resolve_price p sort (record {
      product_id = identity.product_id;
      variant_id = identity.variant_id;
      customer_type = customer_type;
      current_date = env.now;
    })
    pure (line_of item identity product quantity resolved assets price)

  unfoldable pub build_line_item : CreateOrderItemDto → PricingCustomerType → Action Db LineItem
  build_line_item item customer_type = do
    identity ← resolve_item_identity item
    found ← gets (λ d. p.find_first Product (λ r. r.id == identity.product_id) d.catalog.products)
    product ← or_throw found (not_found "Product not found")
    throw_if (not product.is_active) (not_found "Product not found")
    throw_if (lacks_active_variant product identity.variant_id)
        (not_found "Product variant not found")
    finish_line item customer_type identity product

  unfoldable pub build_line_items :
      List CreateOrderItemDto → PricingCustomerType → Action Db (List LineItem)
  build_line_items [] customer_type = pure []
  build_line_items (item ∷ items) customer_type = build_line_item item customer_type >>= λ line.
      build_line_items items customer_type >>= λ lines. pure (line ∷ lines)

  abbrev pub item_of : ℕ → LineItem → OrderItem
  item_of id line = record {
    id = id;
    product_id = line.product_id;
    stock_item_id = line.stock_item_id;
    unit_id = line.unit_id;
    variant_id = line.variant_id;
    is_stock_tracked = line.is_stock_tracked;
    is_serialized = line.is_serialized;
    asset_ids = line.asset_ids;
    serial_numbers = line.serial_numbers;
    quantity = line.quantity;
    base_quantity = line.base_quantity;
    unit_price = line.unit_price;
    total_price = services.to_cents line.total_price;
  }

  -- Each item has a fresh identity.
  abbrev pub items_of : ℕ → List LineItem → List OrderItem
  items_of n [] = []
  items_of n (line ∷ lines) = item_of (env.uuid n) line ∷ items_of (n + 1) lines
