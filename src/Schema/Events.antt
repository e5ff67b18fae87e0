-- ===== src/Schema/Events.antt =====
-- Domain events with their payloads (infrastructure/event-bus/events), the outbox in which they wait
-- (model `OutboxEvent` of prisma/schema.prisma), and the audit trail.
use central_backend_e_commer.Prelude.{ℕ, Bool, Option, List}
use central_backend_e_commer.Schema.Sales.{Order, OrderStatus, Payment}
use central_backend_e_commer.Schema.Books.{JournalEntry}
use central_backend_e_commer.Schema.Stock.{InventoryItem, InventoryMovement}
use central_backend_e_commer.Schema.Purchases.{
  SupplierPayment, SupplierInvoice, PurchaseOrder, PurchaseOrderItem, PurchaseOrderStatus,
  GoodsReceipt, GoodsReceiptItem,
}

pub data OutboxStatus : Type 0 where
  pending processing processed failed : OutboxStatus

pub record PaymentRecordedPayload : Type 0 where
  pub payment : Payment
  pub order : Order
  pub order_fully_paid : Bool

pub record PaymentRefundedPayload : Type 0 where
  pub original_payment : Payment
  pub refund_payment : Payment
  pub order : Order

pub record StockPayload : Type 0 where
  pub product_id : ℕ
  pub stock_item_id : Option ℕ
  pub unit_id : Option ℕ
  pub reference_id : ℕ
  pub quantity : ℕ
  pub base_quantity : ℕ
  pub item : Option InventoryItem

-- What a movement of stock tells: the movement with its quantities and reference, the item after it.
pub record MovementPayload : Type 0 where
  pub movement : InventoryMovement
  pub item : Option InventoryItem
  pub batch_id : Option ℕ
  pub allocated : List (ℕ × ℕ)
  pub reason : Option ℕ

-- A purchase order with its items.
pub record PurchaseOrderPayload : Type 0 where
  pub order : PurchaseOrder
  pub items : List PurchaseOrderItem

-- The items come with the descriptions of their unique assets; the total is in thousandths of a cent.
pub record PurchaseReceivedPayload : Type 0 where
  pub receipt : GoodsReceipt
  pub total : ℕ
  pub items : List (GoodsReceiptItem × List ℕ)

-- The event's name and its payload.
pub data Event : Type 0 where
  order_created order_paid order_completed order_refunded order_cancelled : Order → Event
  payment_recorded payment_succeeded payment_failed : PaymentRecordedPayload → Event
  payment_refunded : PaymentRefundedPayload → Event
  inventory_stock_in inventory_stock_out inventory_adjusted : MovementPayload → Event
  inventory_reserved inventory_reservation_released : StockPayload → Event
  supplier_payment_created : SupplierPayment → Event
  supplier_invoice_created : SupplierInvoice → Event
  purchase_order_created purchase_order_approved purchase_order_cancelled :
      PurchaseOrderPayload → Event
  purchase_received : PurchaseReceivedPayload → Event

pub record OutboxEvent : Type 0 where
  pub id : ℕ
  pub event_id : ℕ
  pub event : Event
  pub user_id : Option ℕ
  pub status : OutboxStatus
  pub attempts : ℕ
  pub available_at : ℕ
  pub locked_at : Option ℕ
  pub processed_at : Option ℕ
  pub last_error : Option ℕ
  pub occurred_at : ℕ
  pub created_at : ℕ
  pub updated_at : ℕ

pub data StatusReason : Type 0 where
  payment_received order_completed payment_refunded order_cancelled : StatusReason

-- One line of the audit trail: what was logged, about which row.
pub data AuditEntry : Type 0 where
  order_created : Order → AuditEntry
  order_updated : ℕ → Order → Order → AuditEntry
  order_status_changed : ℕ → OrderStatus → OrderStatus → StatusReason → AuditEntry
  payment_created : Payment → AuditEntry
  payment_refunded : Payment → Payment → AuditEntry
  stock_reserved stock_released : ℕ → Option InventoryItem → Option InventoryItem → AuditEntry
  stock_released_for : Option ℕ → AuditEntry
  stock_moved : ℕ → Option InventoryItem → MovementPayload → AuditEntry
  journal_created : JournalEntry → AuditEntry
  supplier_payment_logged : SupplierPayment → AuditEntry
  supplier_invoice_logged : SupplierInvoice → AuditEntry
  purchase_order_logged : PurchaseOrder → AuditEntry
  purchase_order_status_changed : ℕ → PurchaseOrderStatus → PurchaseOrderStatus → AuditEntry
  goods_receipt_logged : GoodsReceipt → AuditEntry
