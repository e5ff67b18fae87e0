-- ===== src/EventBus.antt =====
-- src/infrastructure/event-bus: what a service publishes waits in the outbox table.
pub mod Outbox
pub mod Dispatch
pub mod Names
use central_backend_e_commer.Prelude.{ℕ, ◌+◌, Option, none, List, map}
use central_backend_e_commer.Action.{Action, ok}
use central_backend_e_commer.Prisma.{Prisma}
use central_backend_e_commer.Schema.{Db, Env, Event, OutboxEvent, OutboxStatus}

-- `new DomainEvent` with the row that `publish` writes: its identity is a fresh `randomUUID`,
-- as is the row's own.
abbrev pub outbox_row : Env → ℕ → Option ℕ → Event → OutboxEvent
outbox_row env n user e = record {
  id = env.uuid (n + 1);
  event_id = env.uuid n;
  event = e;
  user_id = user;
  status = OutboxStatus.pending;
  attempts = 0;
  available_at = env.now;
  locked_at = none;
  processed_at = none;
  last_error = none;
  occurred_at = env.now;
  created_at = env.now;
  updated_at = env.now;
}

module _ (p : Prisma) (env : Env) where
  -- `EventBusService.publish` and `OutboxRepository.create`. The unique column `event_id` holds a
  -- random UUID, which meets no other.
  -- `user` is `metadata.userId`.
  abbrev pub publish : Option ℕ → Event → Action Db (Unit {0})
  publish user e d =
      let t = p.insert OutboxEvent (outbox_row env d.drawn user e) d.outbox in
      (ok tt, record d { outbox = t; drawn = d.drawn + 2 })

-- The events of the outbox, in the order in which they were published.
abbrev pub published : Db → List Event
published d = map (λ r. r.event) d.outbox
