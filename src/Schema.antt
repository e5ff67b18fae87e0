-- ===== src/Schema.antt =====
-- The tables of prisma/schema.prisma that the modelled services read and write, and the database
-- as one state. Identifiers, and the texts that are only compared, are numbers; an optional text
-- that is missing, `null` or empty is `none`.
mod Sales
mod Stock
mod Events
mod Products
mod Books
mod Purchases
mod Prices
pub use Sales.*
pub use Stock.*
pub use Events.*
pub use Products.*
pub use Books.*
pub use Purchases.*
pub use Prices.*
use central_backend_e_commer.Prelude.{ℕ, Option, List, []}

pub record Db : Type 0 where
  pub catalog : Catalog
  pub pricing : List ProductPricing
  pub orders : List Order
  pub payments : List Payment
  pub items : List InventoryItem
  pub batches : List InventoryBatch
  pub movements : List InventoryMovement
  pub serials : List InventorySerial
  pub reservations : List InventoryReservation
  pub accounts : List Account
  pub journal : List JournalEntry
  pub suppliers : List Supplier
  pub purchase_orders : List PurchaseOrder
  pub purchase_order_items : List PurchaseOrderItem
  pub goods_receipts : List GoodsReceipt
  pub supplier_invoices : List SupplierInvoice
  pub supplier_payments : List SupplierPayment
  pub emitted : List JournalCreated
  pub outbox : List OutboxEvent
  pub audit : List AuditEntry
  -- how many values `randomUUID` has given
  pub drawn : ℕ

-- What a request brings along: the supply of `randomUUID`, the clock, and the identity of the actor, if there is one.
pub record Env : Type 0 where
  pub uuid : ℕ → ℕ
  pub now : ℕ
  -- the text `refund:<payment id>`, as the number that stands for it
  pub refund_key : ℕ → ℕ
  pub actor_id : Option ℕ

abbrev pub empty_db : Db
empty_db = record {
  catalog = empty_catalog;
  pricing = [];
  orders = [];
  payments = [];
  items = [];
  batches = [];
  movements = [];
  serials = [];
  reservations = [];
  accounts = [];
  journal = [];
  suppliers = [];
  purchase_orders = [];
  purchase_order_items = [];
  goods_receipts = [];
  supplier_invoices = [];
  supplier_payments = [];
  emitted = [];
  outbox = [];
  audit = [];
  drawn = 0;
}
