-- ===== src/Inventory/Identity.antt =====
-- `InventoryIdentityResolverService`: which stock a product, a variant and a unit stand for.
pub mod Reads
use central_backend_e_commer.Prelude.{
  ℕ, ◌*◌, Bool, true, false, not, Option, none, some, any, ◌&&◌, ◌||◌, ◌==◌, opt_eq, leb,
  if◌then◌else◌,
}
use central_backend_e_commer.Action.{
  Action, bad_request, not_found, pure, gets, or_throw, throw_if, ◌>>=◌, ◌>>◌,
}
use central_backend_e_commer.Prisma.{Prisma}
use central_backend_e_commer.Schema.{Db, Product, StockItem, StockItemUnit, TrackingMode}

pub record WriteInput : Type 0 where
  pub product_id : ℕ
  pub quantity : ℕ
  pub variant_id : Option ℕ
  pub stock_item_id : Option ℕ
  pub unit_id : Option ℕ

pub record ResolvedIdentity : Type 0 where
  pub product_id : ℕ
  pub variant_id : Option ℕ
  pub stock_item_id : Option ℕ
  pub unit_id : Option ℕ
  pub quantity : ℕ
  pub base_quantity : ℕ
  pub is_stock_tracked : Bool
  pub is_serialized : Bool
  pub tracking_mode : Option TrackingMode

abbrev pub is_usable : StockItem → Bool
is_usable s = s.is_active && s.track_inventory

-- `input.variantId && product.variants.length === 0`, of the variants that the query selects
abbrev pub lacks_variant : Product → Option ℕ → Bool
lacks_variant r none = false
lacks_variant r (some v) = not (any (λ x. x.id == v) r.variants)

module _ (p : Prisma) where
  abbrev pub stock_item_of : ℕ → Option ℕ → Db → Option StockItem
  stock_item_of product_id variant_id d =
      p.find_first StockItem
        (λ s. s.product_id == product_id && opt_eq s.variant_id variant_id && is_usable s)
        d.catalog.stock_items

  -- A stock item that the caller names.
  abbrev pub named_stock_item : WriteInput → ℕ → Action Db (Option StockItem)
  named_stock_item input id = do
    found ← gets (λ d. p.find_first StockItem (λ s. s.id == id) d.catalog.stock_items)
    s ← or_throw found (not_found "Stock item not found")
    throw_if (not (s.product_id == input.product_id))
        (bad_request "Stock item does not belong to the provided product")
    throw_if (not (opt_eq s.variant_id input.variant_id))
        (bad_request "Stock item does not belong to the provided variant")
    throw_if (not s.is_active || not s.track_inventory)
        (bad_request "Stock item is inactive or not tracked")
    pure (some s)

  -- The variant's stock item where it has one, and else the product's own.
  abbrev pub default_stock_item : WriteInput → Db → Option StockItem
  default_stock_item input d = elim input.variant_id [
    | none ↦ stock_item_of input.product_id none d
    | some v ↦ elim (stock_item_of input.product_id (some v) d) [
      | none ↦ stock_item_of input.product_id none d
      | some s ↦ some s
    ]
  ]

  abbrev pub resolve_stock_item : WriteInput → Action Db (Option StockItem)
  resolve_stock_item input = elim input.stock_item_id [
    | some id ↦ named_stock_item input id
    | none ↦ gets (default_stock_item input)
  ]

  abbrev pub resolve_unit : Option ℕ → Option ℕ → Db → Option StockItemUnit
  resolve_unit (some s) (some u) d =
      p.find_first StockItemUnit (λ r. r.stock_item_id == s && r.unit_id == u) d.catalog.units
  resolve_unit _ _ d = none

  abbrev pub id_of_stock_item : Option StockItem → Option ℕ
  id_of_stock_item none = none
  id_of_stock_item (some s) = some s.id

  abbrev pub resolved_of :
      WriteInput → Product → Option StockItem → Option StockItemUnit → ResolvedIdentity
  resolved_of input r s u = record {
    product_id = input.product_id;
    variant_id = input.variant_id;
    stock_item_id = id_of_stock_item s;
    unit_id = elim u [ none ↦ none | some x ↦ some x.unit_id ];
    quantity = input.quantity;
    base_quantity = elim u [
      | none ↦ input.quantity
      | some x ↦ input.quantity * x.conversion_to_base
    ];
    is_stock_tracked = r.is_stock_tracked;
    is_serialized = r.is_serialized;
    tracking_mode = elim s [ none ↦ none | some x ↦ some x.tracking_mode ];
  }

  abbrev pub is_missing : Option ℕ → Option StockItemUnit → Bool
  is_missing (some u) none = true
  is_missing _ _ = false

  unfoldable pub resolve_for_write : WriteInput → Action Db ResolvedIdentity
  resolve_for_write input = do
    found ← gets (λ d. p.find_first Product (λ r. r.id == input.product_id) d.catalog.products)
    product ← or_throw found (not_found "Product not found")
    throw_if (not product.is_active) (bad_request "Product is inactive")
    throw_if (lacks_variant product input.variant_id) (not_found "Product variant not found")
    throw_if (leb input.quantity 0) (bad_request "Quantity must be greater than zero")
    stock_item ← resolve_stock_item input
    unit ← gets (resolve_unit (id_of_stock_item stock_item) input.unit_id)
    throw_if (is_missing input.unit_id unit)
        (bad_request "Unit is not valid for the resolved stock item")
    pure (resolved_of input product stock_item unit)
