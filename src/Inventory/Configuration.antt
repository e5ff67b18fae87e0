-- ===== src/Inventory/Configuration.antt =====
-- `StockItemConfigurationService`: how a stock item is tracked, and what a receipt or a sale must say of it.
use central_backend_e_commer.Prelude.{
  ℕ, Bool, true, false, not, ◌&&◌, ◌||◌, Option, none, some, List, ◌==◌,
}
use central_backend_e_commer.Action.{
  Action, bad_request, not_found, pure, gets, or_throw, throw_if, ◌>>=◌, ◌>>◌,
}
use central_backend_e_commer.Prisma.{Prisma}
use central_backend_e_commer.Schema.{Db, Product, StockItem, StockItemConfiguration, TrackingMode}
use central_backend_e_commer.Inventory.Services.{is_empty}

-- Without the rules on identifiers.
pub record EffectiveStockItemConfiguration : Type 0 where
  pub stock_item_id : ℕ
  pub product_id : ℕ
  pub variant_id : Option ℕ
  pub base_unit_id : Option ℕ
  pub track_inventory : Bool
  pub track_batches : Bool
  pub track_expiry : Bool
  pub track_unique_assets : Bool
  pub track_reservations : Bool
  pub allow_unit_conversions : Bool
  pub allow_pack_breaking : Bool
  pub allow_multiple_barcodes : Bool
  pub tracking_mode : TrackingMode

-- `config?.field ?? other`
abbrev configured : Option StockItemConfiguration → (StockItemConfiguration → Bool) → Bool → Bool
configured none field other = other
configured (some c) field other = field c

abbrev is_batch : TrackingMode → Bool
is_batch TrackingMode.batch = true
is_batch _ = false

abbrev is_asset : TrackingMode → Bool
is_asset TrackingMode.asset = true
is_asset _ = false

abbrev pub effective_of : StockItem → Product → EffectiveStockItemConfiguration
effective_of s r = record {
  stock_item_id = s.id;
  product_id = s.product_id;
  variant_id = s.variant_id;
  base_unit_id = s.base_unit_id;
  track_inventory = s.track_inventory && r.is_stock_tracked;
  track_batches = configured s.configuration (λ c. c.track_batches) (is_batch s.tracking_mode);
  track_expiry = configured s.configuration (λ c. c.track_expiry) false;
  track_unique_assets =
      configured s.configuration (λ c. c.track_unique_assets)
        (is_asset s.tracking_mode || r.is_serialized);
  track_reservations = configured s.configuration (λ c. c.track_reservations) true;
  allow_unit_conversions = configured s.configuration (λ c. c.allow_unit_conversions) false;
  allow_pack_breaking = configured s.configuration (λ c. c.allow_pack_breaking) false;
  allow_multiple_barcodes = configured s.configuration (λ c. c.allow_multiple_barcodes) false;
  tracking_mode = s.tracking_mode;
}

-- `config.baseUnitId && input.unitId !== config.baseUnitId`
abbrev pub is_other_unit : Option ℕ → ℕ → Bool
is_other_unit none u = false
is_other_unit (some b) u = not (u == b)

abbrev pub is_missing_text : Option ℕ → Bool
is_missing_text none = true
is_missing_text (some t) = false

-- `config?.field`
abbrev pub asks :
    (EffectiveStockItemConfiguration → Bool) → Option EffectiveStockItemConfiguration → Bool
asks field none = false
asks field (some c) = field c

module _ (p : Prisma) where
  -- The product of a stock item is there by the foreign key.
  abbrev pub find_stock_item : ℕ → Db → Option (StockItem × Product)
  find_stock_item id d = elim (p.find_first StockItem (λ s. s.id == id) d.catalog.stock_items) [
    | none ↦ none
    | some s ↦ elim (p.find_first Product (λ r. r.id == s.product_id) d.catalog.products) [
      | none ↦ none
      | some r ↦ some (s, r)
    ]
  ]

  abbrev pub get_effective_configuration : ℕ → Action Db EffectiveStockItemConfiguration
  get_effective_configuration id = do
    found ← gets (find_stock_item id)
    (s, r) ← or_throw found (not_found "Stock item not found")
    pure (effective_of s r)

  abbrev pub unit_checked : ℕ → ℕ → Action Db (Option EffectiveStockItemConfiguration)
  unit_checked s u = do
    config ← get_effective_configuration s
    throw_if (not config.allow_unit_conversions && is_other_unit config.base_unit_id u)
        (bad_request "Unit conversions are not enabled for this stock item")
    pure (some config)

  abbrev pub assert_unit_configuration :
      Option ℕ → Option ℕ → Action Db (Option EffectiveStockItemConfiguration)
  assert_unit_configuration (some s) (some u) = unit_checked s u
  assert_unit_configuration _ _ = pure none

  abbrev pub assert_sales_configuration :
      Option ℕ → Option ℕ → List ℕ → List ℕ → Action Db (Option EffectiveStockItemConfiguration)
  assert_sales_configuration none unit_id asset_ids serial_numbers = pure none
  assert_sales_configuration (some s) unit_id asset_ids serial_numbers = do
    config ← assert_unit_configuration (some s) unit_id
    throw_if
        (asks (λ c. c.track_unique_assets) config && is_empty serial_numbers && is_empty asset_ids)
        (bad_request "Unique asset tracked stock items require asset selection")
    pure config

  abbrev pub assert_receipt_configuration :
      Option ℕ → Option ℕ → Option ℕ → Option ℕ → Action Db (Option EffectiveStockItemConfiguration)
  assert_receipt_configuration none unit_id batch_code expiry_date = pure none
  assert_receipt_configuration (some s) unit_id batch_code expiry_date = do
    config ← assert_unit_configuration (some s) unit_id
    throw_if (asks (λ c. c.track_batches) config && is_missing_text batch_code)
        (bad_request "Batch code is required for this stock item")
    throw_if (asks (λ c. c.track_expiry) config && is_missing_text expiry_date)
        (bad_request "Expiry date is required for this stock item")
    pure config
