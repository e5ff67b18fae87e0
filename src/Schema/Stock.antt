-- ===== src/Schema/Stock.antt =====
-- Stock on hand, its batches and its reservations (models `InventoryItem`, `InventoryBatch` and
-- `InventoryReservation` of prisma/schema.prisma). Quantities count the smallest unit of the columns.
use central_backend_e_commer.Prelude.{ℕ, Option, List}
use central_backend_e_commer.Prelude.Int.{ℤ}

pub data ReservationStatus : Type 0 where
  active released : ReservationStatus

pub data MovementType : Type 0 where
  stock_in stock_out adjustment returned : MovementType

pub data ReferenceType : Type 0 where
  order purchase adjustment returned : ReferenceType

pub data SerialStatus : Type 0 where
  available sold returned : SerialStatus

-- A batch's code: as it was given, `ADJUSTMENT-<reference>` or `RETURN-<order>-<product>`.
pub data BatchCode : Type 0 where
  given of_adjustment : ℕ → BatchCode
  of_return : ℕ → ℕ → BatchCode

-- A unit cost, exactly: a whole cost over a whole quantity.
pub record UnitCost : Type 0 where
  pub cost : ℕ
  pub quantity : ℕ

pub record InventoryItem : Type 0 where
  pub id : ℕ
  pub product_id : ℕ
  pub stock_item_id : Option ℕ
  pub quantity_on_hand : ℕ
  pub reserved_quantity : ℕ

pub record InventoryBatch : Type 0 where
  pub id : ℕ
  pub product_id : ℕ
  pub stock_item_id : Option ℕ
  pub batch_code : BatchCode
  pub quantity_received : ℕ
  pub quantity_remaining : ℕ
  pub unit_cost : ℕ
  pub manufacture_date : Option ℕ
  pub expiry_date : Option ℕ
  pub created_at : ℕ

pub record InventoryReservation : Type 0 where
  pub id : ℕ
  pub product_id : ℕ
  pub stock_item_id : Option ℕ
  pub unit_id : Option ℕ
  pub reference_id : ℕ
  pub reservation_key : ℕ
  pub quantity : ℕ
  -- `null` in rows written before the column was there
  pub base_quantity : Option ℕ
  pub asset_ids : List ℕ
  pub status : ReservationStatus
  pub released_at : Option ℕ

pub record InventoryMovement : Type 0 where
  pub id : ℕ
  pub product_id : ℕ
  pub stock_item_id : Option ℕ
  pub unit_id : Option ℕ
  pub type : MovementType
  pub event_key : Option ℕ
  pub quantity : ℤ
  pub base_quantity : ℤ
  pub unit_cost : Option UnitCost
  pub reference_type : ReferenceType
  pub reference_id : ℕ
  pub created_at : ℕ

pub record InventorySerial : Type 0 where
  pub product_id : ℕ
  pub stock_item_id : Option ℕ
  pub serial_number : ℕ
  pub status : SerialStatus
  pub reference_id : Option ℕ
