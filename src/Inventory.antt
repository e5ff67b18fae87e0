-- ===== src/Inventory.antt =====
-- src/modules/inventory, src/modules/inventory-batch and src/modules/inventory-fifo: stock on hand, its
-- batches and its reservations.
pub mod Queries
pub mod Fifo
pub mod Identity
pub mod Configuration
pub mod Services
pub mod Reserve
pub mod Moves
pub mod StockOut
pub mod Adjust
pub mod Books
pub mod Ledger
