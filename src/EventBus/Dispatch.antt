-- ===== src/EventBus/Dispatch.antt =====
-- `EventBusService`: handlers, their order and their retries, and a batch of the outbox that is
-- dispatched; `OutboxProcessorService.runCycle`. What a handler does is a function of its own; a
-- call that `setImmediate` puts off waits in a list.
pub mod Retries
pub mod Delivery
use central_backend_e_commer.Prelude.{
  ℕ, zero, suc, ◌+◌, ◌*◌, ◌-◌, Bool, true, false, not, Option, none, some, List, [], ◌∷◌, ◌++◌,
  filter, length, map, sum_of, leb, opt_eq, if◌then◌else◌,
}
use central_backend_e_commer.Action.{Action, Result, ok, err, Error, pure, ◌>>=◌, ◌>>◌}
use central_backend_e_commer.Prisma.{Prisma, OrderBy}
use central_backend_e_commer.Schema.{Db, Env, Event, OutboxEvent}
use central_backend_e_commer.EventBus.Outbox.{
  claim_pending_batch, release_stuck_processing, mark_processed, mark_failed, retry_failed,
}

-- `EventProcessingMode`
pub data Mode : Type 0 where
  sync async : Mode

-- `RegisteredEventHandler`; the wildcard's name is `none`.
pub record Handler : Type 0 where
  pub id : ℕ
  pub event_name : Option ℕ
  pub mode : Mode
  pub retries : ℕ
  pub priority : ℕ
  pub handle : OutboxEvent → Action Db (Unit {0})

-- An invocation that was put off: the handler, the event, and how many retries are left.
pub record Job : Type 0 where
  pub handler : Handler
  pub event : OutboxEvent
  pub left : ℕ

-- The bus: the database, on which handlers work; what is put off; the handlers that the log says failed.
pub record Bus : Type 0 where
  pub db : Db
  pub jobs : List Job
  pub failures : List ℕ

abbrev pub event_name : Event → ℕ
event_name (Event.order_paid o) = 0
event_name (Event.order_completed o) = 1
event_name (Event.order_refunded o) = 2
event_name (Event.order_cancelled o) = 3
event_name (Event.payment_recorded x) = 4
event_name (Event.payment_succeeded x) = 5
event_name (Event.payment_failed x) = 6
event_name (Event.payment_refunded x) = 7
event_name (Event.inventory_stock_in x) = 8
event_name (Event.inventory_stock_out x) = 9
event_name (Event.inventory_adjusted x) = 10
event_name (Event.inventory_reserved x) = 11
event_name (Event.inventory_reservation_released x) = 12
event_name (Event.supplier_payment_created x) = 13
event_name (Event.order_created o) = 14
event_name (Event.supplier_invoice_created x) = 15
event_name (Event.purchase_order_created x) = 16
event_name (Event.purchase_order_approved x) = 17
event_name (Event.purchase_order_cancelled x) = 18
event_name (Event.purchase_received x) = 19

abbrev pub is_sync : Handler → Bool
is_sync h = elim h.mode [ Mode.sync ↦ true | Mode.async ↦ false ]

-- `register`: the handlers in the order in which they came.
abbrev pub register : Handler → List Handler → List Handler
register h registered = registered ++ (h ∷ [])

abbrev pub insert_by_priority : Handler → List Handler → List Handler
insert_by_priority h [] = h ∷ []
insert_by_priority h (x ∷ rest) =
    let later = insert_by_priority h rest in
    if leb h.priority x.priority then h ∷ x ∷ rest else x ∷ later

-- `sort`, which keeps the order of equal ones.
abbrev pub by_priority : List Handler → List Handler
by_priority [] = []
by_priority (h ∷ rest) = insert_by_priority h (by_priority rest)

-- The handlers of a name and then those of the wildcard, by priority.
abbrev pub handlers_of : List Handler → OutboxEvent → List Handler
handlers_of registered e = by_priority (
    filter (λ h. opt_eq h.event_name (some (event_name e.event))) registered
    ++ filter (λ h. opt_eq h.event_name none) registered)

-- `handler.handle(event)`, and the log's line if it throws.
abbrev pub handled : Handler → OutboxEvent → Action Bus (Unit {0})
handled h e b =
    let (r, d) = h.handle e b.db in
    elim r [
      | ok u ↦ (ok tt, record b { db = d })
      | err x ↦ (err x, record b { db = d; failures = b.failures ++ (h.id ∷ []) })
    ]

-- `invoke`, where errors are passed on: at once again while retries are left.
unfoldable pub invoke : Handler → OutboxEvent → ℕ → Action Bus (Unit {0})
invoke h e zero b = handled h e b
invoke h e (suc left) b =
    let again = invoke h e left (handled h e b).1 in
    elim (handled h e b).0 [ ok u ↦ handled h e b | err x ↦ again ]

abbrev pub put_off : Job → Bus → Bus
put_off j b = record b { jobs = b.jobs ++ (j ∷ []) }

-- `invoke`, where errors are suppressed: later again while retries are left.
abbrev pub retry_later : Job → Result (Unit {0}) → Bus → Bus
retry_later j (ok u) b = b
retry_later j (err x) b = elim j.left [ zero ↦ b | suc n ↦ put_off (record j { left = n }) b ]

unfoldable pub run_job : Job → Bus → Bus
run_job j b = let (r, b') = handled j.handler j.event b in retry_later j r b'

-- One turn of the event loop after another, while calls wait.
abbrev pub drain : ℕ → Bus → Bus
drain zero b = b
drain (suc n) b = elim b.jobs [ [] ↦ b | j ∷ rest ↦ drain n (run_job j (record b { jobs = rest })) ]

-- `dispatch`: the loop over the synchronous handlers, and the one over the others.
unfoldable pub dispatch_sync : List Handler → OutboxEvent → Action Bus (Unit {0})
dispatch_sync [] e b = (ok tt, b)
dispatch_sync (h ∷ rest) e b =
    let rest_of = dispatch_sync rest e in
    if is_sync h then (invoke h e h.retries >> rest_of) b else rest_of b

abbrev pub enqueue : List Handler → OutboxEvent → List Job
enqueue handlers e =
    map (λ h. record { handler = h; event = e; left = h.retries })
      (filter (λ h. not (is_sync h)) handlers)

abbrev pub enqueue_all : List Handler → OutboxEvent → Action Bus (Unit {0})
enqueue_all handlers e b = (ok tt, record b { jobs = b.jobs ++ enqueue handlers e })

unfoldable pub dispatch : List Handler → OutboxEvent → Action Bus (Unit {0})
dispatch registered e = do
  dispatch_sync (handlers_of registered e) e
  enqueue_all (handlers_of registered e) e

module _ (p : Prisma) (env : Env) (describe : Error → ℕ) (registered : List Handler) where
  abbrev pub on_db : {A : Type 0} → Action Db A → Action Bus A
  on_db m b = let (r, d) = m b.db in (r, record b { db = d })

  -- What is thrown in a round of the loop of `processOutboxBatch` is written to the row.
  abbrev pub caught : OutboxEvent → Result OutboxEvent × Bus → Result (Unit {0}) × Bus
  caught e (ok row, b) = (ok tt, b)
  caught e (err x, b) = (on_db (mark_failed p env e.id (describe x)) >> pure tt) b

  unfoldable pub settle : OutboxEvent → Action Bus (Unit {0})
  settle e b = caught e ((dispatch registered e >> on_db (mark_processed p env e.id)) b)

  abbrev pub settle_all : List OutboxEvent → Action Bus (Unit {0})
  settle_all [] = pure tt
  settle_all (e ∷ rest) = settle e >>= λ u. settle_all rest

  unfoldable pub process_outbox_batch : OrderBy → ℕ → Action Bus ℕ
  process_outbox_batch sort limit = do
    events ← on_db (claim_pending_batch p env sort limit)
    settle_all events
    pure (length events)

  -- `runCycle`; `running` is whether another cycle runs.
  abbrev pub run_cycle : OrderBy → Bool → Action Bus (Unit {0})
  run_cycle sort running = if running then pure tt else do
    on_db (release_stuck_processing p env (env.now - 5000 * 12))
    on_db (retry_failed p env sort 100)
    process_outbox_batch sort 100
    pure tt
