-- ===== src/Inventory/Identity/Reads.antt =====
-- What `resolveForWrite` leaves of the database.
use central_backend_e_commer.Prelude.{◌≡◌, arith}
use central_backend_e_commer.Prisma.{list_client}
use central_backend_e_commer.Schema.{Db}
use central_backend_e_commer.Inventory.Identity.{WriteInput, resolve_stock_item, resolve_for_write}

stock_item-same : (input : WriteInput) (d : Db) → (resolve_stock_item list_client input d).1 ≡ d
stock_item-same input d = ground arith

pub resolve-same : (input : WriteInput) (d : Db) → (resolve_for_write list_client input d).1 ≡ d
unfolding resolve_for_write
resolve-same input d = ground (arith, stock_item-same input d)
