-- ===== src/Tests/Stock.antt =====
-- The theorems on moves of stock and on the dispatch of events at concrete inputs.
use central_backend_e_commer.Prelude.{
  ℕ, ◌+◌, ◌≤◌, ◌≡◌, refl, sym, true, false, none, some, List, [], ◌∷◌, All, length, arith,
  Bool-cases, inl, inr,
}
use mathlib.Core.List.{append-nil}
use central_backend_e_commer.Prelude.Int.{pos, negsuc}
use central_backend_e_commer.Action.{ok, err, conflict}
use central_backend_e_commer.Prisma.{list_client, list_client-Laws}
use central_backend_e_commer.Schema.{BatchCode, OutboxEvent, Event}
use central_backend_e_commer.EventBus.{outbox_row}
use central_backend_e_commer.EventBus.Outbox.{claim_pending_batch, claimed}
use central_backend_e_commer.EventBus.Dispatch.{
  Handler, Mode, Bus, invoke, drain, process_outbox_batch,
}
use central_backend_e_commer.EventBus.Dispatch.Retries.{
  WithinRetries, work, invoke-WithinRetries, drain_ends,
}
use central_backend_e_commer.EventBus.Dispatch.Delivery.{
  Shows, IsSettled, process_outbox_batch_settles,
}
use central_backend_e_commer.Inventory.Queries.{item_where}
use central_backend_e_commer.Inventory.Moves.{
  StockInInput, StockInResult, StockOutInput, StockOutResult, batch_of, movement_in, movement_out,
  stock_in, stock_in_in_transaction, stock_in_anew, stock_in_resolved, replayed_in,
}
use central_backend_e_commer.Inventory.Moves.Again.{stock_in_again}
use central_backend_e_commer.Inventory.StockOut.{
  stock_out, stock_out_in_transaction, stock_out_anew, draw_stock, record_outflow, replayed_out,
}
use central_backend_e_commer.Inventory.Fifo.{FifoAllocation, consume, consume_from}
use central_backend_e_commer.Inventory.StockOut.Again.{stock_out_again}
use central_backend_e_commer.Inventory.Adjust.{StockAdjustmentInput}
use central_backend_e_commer.Inventory.Books.{on_hand, in_batches, OneEach}
use central_backend_e_commer.Inventory.Ledger.{StockCall, run_stock_calls, stock_calls-Balanced}
use central_backend_e_commer.Inventory.Identity.{ResolvedIdentity, resolve_for_write}
use central_backend_e_commer.Tests.Shop.{
  clerk, paid_order, shop, mugs_item, as_stored, plain_services, some_mugs,
}

abbrev mugs_in : StockInInput
mugs_in = record {
  product_id = 4;
  variant_id = none;
  stock_item_id = none;
  unit_id = none;
  batch_code = BatchCode.given 10;
  quantity = 7;
  unit_cost = pos 2;
  event_key = some 600;
  manufacture_date = none;
  expiry_date = none;
  reference_type = none;
  reference_id = some 12;
  serial_numbers = [];
  assets = [];
}

abbrev mugs_out : StockOutInput
mugs_out = record {
  product_id = 4;
  variant_id = none;
  stock_item_id = none;
  unit_id = none;
  quantity = 6;
  event_key = some 601;
  reference_type = none;
  reference_id = some 1;
  serial_numbers = [];
  asset_ids = [];
}

abbrev broken_mug : StockAdjustmentInput
broken_mug = record {
  product_id = 4;
  variant_id = none;
  stock_item_id = none;
  unit_id = none;
  quantity_delta = negsuc 0;
  reference_id = some 13;
  batch_code = none;
  unit_cost = none;
  reason = none;
  serial_numbers = [];
  asset_ids = [];
  assets = [];
}

abbrev moves : List StockCall
moves =
    StockCall.come_in clerk mugs_in
    ∷ StockCall.go_out clerk mugs_out
    ∷ StockCall.adjust clerk broken_mug
    ∷ StockCall.reserve clerk (some_mugs 31 6)
    ∷ []

shop-OneEach : OneEach shop.items
shop-OneEach i = elim (Bool-cases (item_where i mugs_item)) [
  | inl m ↦ ground arith
  | inr m ↦ ground arith
]

stock_calls-Balanced_example :
    let d' = run_stock_calls list_client plain_services as_stored moves shop in
    (on_hand d'.items ≡ in_batches d'.batches) × OneEach d'.items
stock_calls-Balanced_example =
    stock_calls-Balanced list_client-Laws plain_services as_stored moves shop refl shop-OneEach

abbrev resolved : ℕ → ResolvedIdentity
resolved q = record {
  product_id = 4;
  variant_id = none;
  stock_item_id = none;
  unit_id = none;
  quantity = q;
  base_quantity = q;
  is_stock_tracked = true;
  is_serialized = false;
  tracking_mode = none;
}

abbrev came_in : StockInResult
came_in = record {
  before_item = some mugs_item;
  item = some (record mugs_item { quantity_on_hand = 22 });
  batch = some (batch_of clerk 2 mugs_in (resolved 7) 2);
  movement = movement_in clerk 3 mugs_in 12 (resolved 7) 2;
  already_processed = false;
}

stock_in_again_example :
    let d' = (stock_in list_client plain_services clerk mugs_in shop).1 in
    stock_in list_client plain_services clerk mugs_in d'
    ≡ (ok (replayed_in list_client plain_services clerk mugs_in came_in.movement d'), d')
unfolding stock_in stock_in_in_transaction stock_in_anew stock_in_resolved resolve_for_write
stock_in_again_example =
    stock_in_again list_client-Laws plain_services clerk clerk mugs_in mugs_in 600 12 shop came_in
      refl refl refl refl

abbrev drawn : List FifoAllocation
drawn =
    record { batch_id = 71; quantity = 5; unit_cost = 3 }
    ∷ record { batch_id = 72; quantity = 1; unit_cost = 3 }
    ∷ []

abbrev went_out : StockOutResult
went_out = record {
  before_item = some mugs_item;
  item = some (record mugs_item { quantity_on_hand = 9 });
  allocations = drawn;
  movement = movement_out clerk 2 mugs_out 1 (resolved 6) drawn;
  already_processed = false;
}

stock_out_again_example :
    let d' = (stock_out list_client plain_services as_stored clerk mugs_out shop).1 in
    stock_out list_client plain_services as_stored clerk mugs_out d' ≡ (
      ok (replayed_out list_client plain_services as_stored clerk mugs_out went_out.movement d'),
      d',
    )
unfolding stock_out stock_out_in_transaction stock_out_anew draw_stock record_outflow consume
    consume_from resolve_for_write
stock_out_again_example =
    stock_out_again list_client-Laws plain_services as_stored clerk clerk mugs_out mugs_out 601 1
      shop went_out refl refl refl refl

-- A handler that never succeeds.
abbrev broken_handler : Handler
broken_handler = record {
  id = 5;
  event_name = some 0;
  mode = Mode.sync;
  retries = 2;
  priority = 0;
  handle = λ e d. (err (conflict "down"), d);
}

abbrev idle_handler : Handler
idle_handler = record {
  id = 6;
  event_name = none;
  mode = Mode.async;
  retries = 1;
  priority = 0;
  handle = λ e d. (err (conflict "busy"), d);
}

abbrev an_event : OutboxEvent
an_event = outbox_row clerk 0 none (Event.order_paid paid_order)

abbrev quiet_bus : Bus
quiet_bus = record {
  db = shop;
  jobs = record { handler = idle_handler; event = an_event; left = 1 } ∷ [];
  failures = [];
}

invoke-WithinRetries_example : WithinRetries 2 0 (invoke broken_handler an_event 2 quiet_bus)
invoke-WithinRetries_example = invoke-WithinRetries broken_handler an_event 2 quiet_bus

drain_ends_example :
    ((drain 2 quiet_bus).jobs ≡ [])
    × (length (drain 2 quiet_bus).failures ≤ 0 + work quiet_bus.jobs)
drain_ends_example = drain_ends 2 quiet_bus (ground arith)

process_outbox_batch_settles_example :
    let (r, b') =
      process_outbox_batch list_client clerk
        (λ e. 9)
        (broken_handler ∷ idle_handler ∷ [])
        as_stored
        10
        quiet_bus in
    (r ≡ ok 1) × All (λ e. Shows IsSettled e.id b'.db.outbox) (claimed 100 an_event ∷ [])
unfolding claim_pending_batch
process_outbox_batch_settles_example =
    process_outbox_batch_settles list_client-Laws clerk (λ e. 9)
      (broken_handler ∷ idle_handler ∷ []) as_stored 10 quiet_bus (claimed 100 an_event ∷ [])
      (λ Row before P t h. h) (refl, tt)
      ((λ e d. ([], sym (append-nil d.outbox))), ((λ e d. ([], sym (append-nil d.outbox))), tt))
      refl
