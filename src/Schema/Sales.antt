-- ===== src/Schema/Sales.antt =====
-- Orders and payments (models `Order`, `OrderItem` and `Payment` of prisma/schema.prisma). Amounts
-- are whole cents, the columns' scale; an order's total is not negative.
use central_backend_e_commer.Prelude.{ℕ, Bool, Option, List, String, ◌==◌}
use central_backend_e_commer.Prelude.Int.{ℤ}

pub data OrderStatus : Type 0 where
  pending paid cancelled refunded completed : OrderStatus

pub data OrderSource : Type 0 where
  pos online : OrderSource

pub data OrderType : Type 0 where
  customer guest pos : OrderType

pub data PaymentStatus : Type 0 where
  pending awaiting_verification success failed : PaymentStatus

abbrev pub order_status_code : OrderStatus → ℕ
order_status_code OrderStatus.pending = 0
order_status_code OrderStatus.paid = 1
order_status_code OrderStatus.cancelled = 2
order_status_code OrderStatus.refunded = 3
order_status_code OrderStatus.completed = 4

abbrev pub payment_status_code : PaymentStatus → ℕ
payment_status_code PaymentStatus.pending = 0
payment_status_code PaymentStatus.awaiting_verification = 1
payment_status_code PaymentStatus.success = 2
payment_status_code PaymentStatus.failed = 3

-- The name that the enumeration has in a text.
abbrev pub payment_status_text : PaymentStatus → String
payment_status_text PaymentStatus.pending = "PENDING"
payment_status_text PaymentStatus.awaiting_verification = "AWAITING_VERIFICATION"
payment_status_text PaymentStatus.success = "SUCCESS"
payment_status_text PaymentStatus.failed = "FAILED"

-- `===` on the enumerations.
abbrev pub same_order_status : OrderStatus → OrderStatus → Bool
same_order_status a b = order_status_code a == order_status_code b

abbrev pub same_payment_status : PaymentStatus → PaymentStatus → Bool
same_payment_status a b = payment_status_code a == payment_status_code b

pub record OrderItem : Type 0 where
  pub id : ℕ
  pub product_id : ℕ
  pub stock_item_id : Option ℕ
  pub unit_id : Option ℕ
  pub variant_id : Option ℕ
  pub is_stock_tracked : Bool
  pub is_serialized : Bool
  pub asset_ids : List ℕ
  pub serial_numbers : List ℕ
  pub quantity : ℕ
  pub base_quantity : ℕ
  pub unit_price : ℕ
  pub total_price : ℕ

pub record Order : Type 0 where
  pub id : ℕ
  -- `null` for an order that was made without one
  pub request_key : Option ℕ
  pub customer_id : Option ℕ
  pub type : OrderType
  pub status : OrderStatus
  pub source : OrderSource
  pub subtotal : ℕ
  pub discount : ℕ
  pub tax : ℕ
  pub total : ℕ
  pub order_notes : Option ℕ
  pub shipping_address : Option ℕ
  pub billing_address : Option ℕ
  pub items : List OrderItem

pub record Payment : Type 0 where
  pub id : ℕ
  pub order_id : ℕ
  pub method : ℕ
  pub amount : ℤ
  pub status : PaymentStatus
  pub reference : Option ℕ
  pub idempotency_key : Option ℕ
  pub refund_of_payment_id : Option ℕ
