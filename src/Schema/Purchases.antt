-- ===== src/Schema/Purchases.antt =====
-- What is ordered of suppliers, what came of it, and what they are owed and were paid (models `Supplier`,
-- `PurchaseOrder`, `GoodsReceipt`, `SupplierInvoice` and `SupplierPayment` of prisma/schema.prisma).
-- Amounts are whole cents, the columns' scale, and quantities the smallest unit of theirs.
use central_backend_e_commer.Prelude.{ℕ, Bool, Option, List}
use central_backend_e_commer.Prelude.Int.{ℤ}

pub data SupplierInvoiceStatus : Type 0 where
  unpaid partial paid : SupplierInvoiceStatus

pub record SupplierInvoice : Type 0 where
  pub id : ℕ
  pub supplier_id : ℕ
  pub purchase_order_id : ℕ
  pub total_amount : ℤ
  pub status : SupplierInvoiceStatus

pub record SupplierPayment : Type 0 where
  pub id : ℕ
  pub supplier_invoice_id : ℕ
  pub amount : ℤ
  pub payment_method : ℕ
  pub payment_date : ℕ

pub record Supplier : Type 0 where
  pub id : ℕ
  pub is_active : Bool

pub data PurchaseOrderStatus : Type 0 where
  draft approved partially_received received cancelled : PurchaseOrderStatus

pub record PurchaseOrder : Type 0 where
  pub id : ℕ
  pub supplier_id : ℕ
  pub status : PurchaseOrderStatus
  pub subtotal : ℕ
  pub tax : ℕ
  pub total : ℕ

pub record PurchaseOrderItem : Type 0 where
  pub id : ℕ
  pub purchase_order_id : ℕ
  pub product_id : ℕ
  pub stock_item_id : Option ℕ
  pub unit_id : Option ℕ
  pub quantity : ℕ
  pub base_quantity : Option ℕ
  pub received_quantity : ℕ
  pub unit_cost : ℕ
  pub total_cost : ℕ

pub record GoodsReceiptItem : Type 0 where
  pub id : ℕ
  pub product_id : ℕ
  pub stock_item_id : Option ℕ
  pub unit_id : Option ℕ
  pub quantity : ℕ
  pub base_quantity : Option ℕ
  pub unit_cost : ℕ
  pub batch_code : Option ℕ
  pub expiry_date : Option ℕ

pub record GoodsReceipt : Type 0 where
  pub id : ℕ
  pub request_key : Option ℕ
  pub purchase_order_id : ℕ
  pub received_at : ℕ
  pub received_by : ℕ
  pub items : List GoodsReceiptItem
