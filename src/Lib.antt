-- ===== src/Lib.antt =====
-- The back end of a shop (central-backend-e-commerce), written on NestJS and the Prisma client. Services
-- hold the rules, repositories the queries; what happens is published as events, which wait in a
-- table, the outbox, until workers deliver them.
--
-- Parts of the program and where they are modelled:
--   Action     the outcome of a call (a value or an exception) and the state monad of the services
--   Prisma     the database client, a parameter with its documented laws; a table is a list of rows
--   Schema     the tables (prisma/schema.prisma) and the database as one state
--   EventBus   src/infrastructure/event-bus/event-bus.service.ts, outbox.repository.ts and
--              outbox-processor.service.ts: publication, the outbox, the dispatch to handlers
--   Orders     src/modules/orders/orders.service.ts: update, markPaid, complete, markRefunded, cancel;
--              buildLineItem (Lines), createWithSource and calculateSubtotal (Create)
--   Pricing    src/modules/pricing/pricing.service.ts: setPrice and resolvePrice
--   Payments   src/modules/payments/payments.service.ts: recordPayment and refundPayment, with the
--              queries of payments.repository.ts
--   Inventory  src/modules/inventory/inventory.service.ts: stockIn (Moves), stockOut and
--              stockOutAndReleaseReservation (StockOut), adjustStock (Adjust), reserveStock and
--              releaseReservedStock (Reserve), with inventory-identity-resolver.service.ts and
--              inventory.repository.ts; Ledger puts the calls together; Configuration is
--              src/modules/inventory/stock-item-configuration.service.ts;
--              src/modules/inventory-fifo/fifo.service.ts and src/modules/inventory-batch/batch.service.ts
--   Accounting src/modules/accounting/journal/journal.service.ts: createJournalEntry (Journal), and
--              src/modules/accounting/accounting.service.ts: the operations that post (Posting)
--   Purchasing src/modules/supplier-payments/supplier-payments.service.ts: create, with the queries of
--              src/modules/supplier-invoices/supplier-invoices.repository.ts;
--              src/modules/purchase-orders/purchase-orders.service.ts: create, approve and cancel (Orders),
--              src/modules/goods-receipts/goods-receipts.service.ts: create (Receipts), and
--              src/modules/supplier-invoices/supplier-invoices.service.ts: create (Invoices)
--   Workflow   src/modules/rules/workflow-rules.service.ts (Rules),
--              src/modules/engine/workflow-engine.service.ts (Engine, with the progress that an execution
--              keeps in Checkpoint) and src/modules/triggers/trigger.service.ts (Triggers), on their own
--              tables; the names of events, src/common/constants/event.constants.ts, are EventBus/Names
-- A payment writes the status of its order and publishes events in the same transaction; so does a
-- reservation with its item. A new order takes its prices from the pricing, and an event that is delivered
-- runs the workflows that one of its names triggers. The names of the model are those of the methods, in
-- snake case.
--
-- How the model stands to the code:
--   * Every call is a function from the database to a result and the database after it. A transaction
--     that throws is rolled back (`commit`); what the code writes outside of one stays.
--   * Calls run one after the other: a row lock (`FOR UPDATE`) holds other transactions back, so it
--     writes nothing here. Interleavings within a call are not modelled; where the code takes no lock, as
--     when a failed execution of a workflow is taken up again or an order changes its status, calls that
--     interleave are not covered.
--   * A journal entry is checked before its columns round to cents: `create_kept_entry` takes what they
--     keep of the lines. The entries that AccountingService posts are in whole cents, which they keep.
--   * Theorems hold for any client that meets `Prisma.Laws`, any clock and any supply of UUIDs.
--   * Identifiers and texts that are only compared are numbers; an optional text that is missing,
--     `null` or empty is `none`. Amounts are whole cents, quantities whole smallest units of a
--     column, and a unit converts to the base unit by a whole number.
--   * The lines and the subtotal of a new order are in thousandths of a cent, which the columns round to
--     cents by a parameter. A text in JSON is a text, a number in JSON is whole, and text that is read as
--     a number, the message of an error and the effect of a workflow's action are parameters (`Runtime`).
--     The rules of a workflow run in turn, and so do the items of an order, which the code starts at once.
--   * A sort in a query (`orderBy`) is a parameter.
--   * The loops run over lists, so they end with the list; the retries of a handler are counted down.
--     The event loop takes a number of turns, and as many as there are calls and retries are enough.
--   * What a handler of events does is a parameter; the processor of the outbox runs alone.
--   * The audit trail, which the code writes without waiting, is a list in the database.
--
-- Not modelled: controllers, input validation by decorators, read-only lists and their pagination, the
-- discovery of handlers and the timer, restocking from a refund, the handlers of events, vouchers, the
-- executors of workflow actions, point of sale, storefront and messaging. The configuration of stock items
-- and the unique assets are an interface (`StockServices`) of the stock operations, and what the assets
-- write, serial numbers among it, is left out; the bar codes, the configuration of stock items, the unique
-- assets, the hash of a request and the sort of texts are one (`SalesServices`) of a new order, and the
-- hash and the sort one (`ReceiptServices`) of a goods receipt.
pub mod Prelude
pub mod Action
pub mod Prisma
pub mod Schema
pub mod EventBus
pub mod Orders
pub mod Payments
pub mod Inventory
pub mod Accounting
pub mod Pricing
pub mod Purchasing
pub mod Workflow
pub mod Tests
