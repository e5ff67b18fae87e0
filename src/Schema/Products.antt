-- ===== src/Schema/Products.antt =====
-- Products, stock items and units (models `Product`, `ProductVariant`, `StockItem` and `StockItemUnit` of
-- prisma/schema.prisma). A unit's conversion to the base unit is a whole number. A stock item's
-- configuration (`StockItemConfiguration`) stands with it.
use central_backend_e_commer.Prelude.{ℕ, Bool, Option, List, []}

pub record ProductVariant : Type 0 where
  pub id : ℕ
  pub is_active : Bool

pub record Product : Type 0 where
  pub id : ℕ
  pub is_active : Bool
  pub is_stock_tracked : Bool
  pub is_serialized : Bool
  pub variants : List ProductVariant

pub data TrackingMode : Type 0 where
  simple batch asset : TrackingMode

pub record StockItemConfiguration : Type 0 where
  pub track_batches : Bool
  pub track_expiry : Bool
  pub track_unique_assets : Bool
  pub track_reservations : Bool
  pub allow_unit_conversions : Bool
  pub allow_pack_breaking : Bool
  pub allow_multiple_barcodes : Bool

pub record StockItem : Type 0 where
  pub id : ℕ
  pub product_id : ℕ
  pub variant_id : Option ℕ
  pub tracking_mode : TrackingMode
  pub base_unit_id : Option ℕ
  pub configuration : Option StockItemConfiguration
  pub is_active : Bool
  pub track_inventory : Bool

pub record StockItemUnit : Type 0 where
  pub stock_item_id : ℕ
  pub unit_id : ℕ
  pub conversion_to_base : ℕ

pub record Catalog : Type 0 where
  pub products : List Product
  pub stock_items : List StockItem
  pub units : List StockItemUnit

abbrev pub empty_catalog : Catalog
empty_catalog = record { products = []; stock_items = []; units = [] }
