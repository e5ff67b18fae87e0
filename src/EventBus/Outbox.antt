-- ===== src/EventBus/Outbox.antt =====
-- `OutboxRepository`: the life of a row of the outbox, from its publication to its delivery. The
-- locks that skip rows hold them from other workers until the transaction ends.
pub mod Claims
pub mod Once
pub mod Tests
use central_backend_e_commer.Prelude.{
  ℕ, ◌+◌, Bool, true, false, Option, none, some, List, [], ◌∷◌, any, map, ◌&&◌, ◌==◌, opt_eq, ltb,
  leb, take, if◌then◌else◌,
}
use central_backend_e_commer.Action.{Action, ok, err, record_not_found}
use central_backend_e_commer.Prisma.{Prisma, OrderBy}
use central_backend_e_commer.Schema.{Db, Env, OutboxEvent, OutboxStatus}

abbrev pub max_event_attempts : ℕ
max_event_attempts = 10

abbrev pub outbox_status_code : OutboxStatus → ℕ
outbox_status_code OutboxStatus.pending = 0
outbox_status_code OutboxStatus.processing = 1
outbox_status_code OutboxStatus.processed = 2
outbox_status_code OutboxStatus.failed = 3

abbrev pub same_outbox_status : OutboxStatus → OutboxStatus → Bool
same_outbox_status a b = outbox_status_code a == outbox_status_code b

abbrev pub has_status : OutboxStatus → OutboxEvent → Bool
has_status s r = same_outbox_status r.status s

-- `id: { in: events.map((event) => event.id) }`
abbrev pub is_among : List OutboxEvent → OutboxEvent → Bool
is_among events r = any (λ e. e.id == r.id) events

abbrev pub created_first : OutboxEvent → OutboxEvent → Bool
created_first a b = leb a.created_at b.created_at

abbrev pub updated_first : OutboxEvent → OutboxEvent → Bool
updated_first a b = leb a.updated_at b.updated_at

abbrev pub locked_before : ℕ → Option ℕ → Bool
locked_before t none = false
locked_before t (some at) = ltb at t

abbrev pub claimed : ℕ → OutboxEvent → OutboxEvent
claimed now r = record r {
  status = OutboxStatus.processing;
  locked_at = some now;
  attempts = r.attempts + 1;
  updated_at = now;
}

abbrev pub freed : ℕ → OutboxEvent → OutboxEvent
freed now r = record r {
  status = OutboxStatus.pending;
  locked_at = none;
  available_at = now;
  updated_at = now;
}

abbrev pub done : ℕ → OutboxEvent → OutboxEvent
done now r = record r {
  status = OutboxStatus.processed;
  processed_at = some now;
  locked_at = none;
  last_error = none;
  updated_at = now;
}

abbrev pub broken : ℕ → ℕ → OutboxEvent → OutboxEvent
broken now message r = record r {
  status = OutboxStatus.failed;
  locked_at = none;
  available_at = now;
  last_error = some message;
  updated_at = now;
}

abbrev pub revived : ℕ → OutboxEvent → OutboxEvent
revived now r = record r { status = OutboxStatus.pending; available_at = now; updated_at = now }

module _ (p : Prisma) (env : Env) where
  -- The rows that are due, oldest first, as many as the limit allows.
  abbrev pub due : OrderBy → ℕ → Db → List OutboxEvent
  due sort limit d = take limit (
      sort OutboxEvent created_first (
        p.find_many OutboxEvent
          (λ r. has_status OutboxStatus.pending r && leb r.available_at env.now) d.outbox))

  abbrev update_outbox : (OutboxEvent → Bool) → (OutboxEvent → OutboxEvent) → Action Db ℕ
  update_outbox c f d =
      let (count, t) = p.update_many OutboxEvent c f d.outbox in (ok count, record d { outbox = t })

  -- The write of `claimPendingBatch`, where rows are due.
  abbrev pub claim : List OutboxEvent → Action Db ℕ
  claim events =
      update_outbox (λ r. is_among events r && has_status OutboxStatus.pending r) (claimed env.now)

  -- The rows that the claim gives out.
  abbrev pub claimed_rows : OrderBy → List OutboxEvent → Db → List OutboxEvent
  claimed_rows sort events d = sort OutboxEvent created_first (
      p.find_many OutboxEvent
        (λ r.
          is_among events r
          && has_status OutboxStatus.processing r
          && opt_eq r.locked_at (some env.now))
        d.outbox)

  abbrev pub claim_due : OrderBy → List OutboxEvent → Action Db (List OutboxEvent)
  claim_due sort [] d = (ok [], d)
  claim_due sort (e ∷ events) d =
      let (count, d') = claim (e ∷ events) d in (ok (claimed_rows sort (e ∷ events) d'), d')

  unfoldable pub claim_pending_batch : OrderBy → ℕ → Action Db (List OutboxEvent)
  claim_pending_batch sort limit =
      p.transaction Db (List OutboxEvent) (λ d. claim_due sort (due sort limit d) d)

  abbrev pub release_stuck_processing : ℕ → Action Db ℕ
  release_stuck_processing before =
      update_outbox (λ r. has_status OutboxStatus.processing r && locked_before before r.locked_at)
        (freed env.now)

  abbrev pub update_one : ℕ → (OutboxEvent → OutboxEvent) → Action Db OutboxEvent
  update_one id f d = elim (p.update OutboxEvent (λ r. r.id == id) f d.outbox) [
    | none ↦ (err record_not_found, d)
    | some (r, t) ↦ (ok r, record d { outbox = t })
  ]

  abbrev pub mark_processed : ℕ → Action Db OutboxEvent
  mark_processed id = update_one id (done env.now)

  -- `message` stands for its first thousand characters.
  abbrev pub mark_failed : ℕ → ℕ → Action Db OutboxEvent
  mark_failed id message = update_one id (broken env.now message)

  abbrev pub failed_rows : OrderBy → ℕ → Db → List OutboxEvent
  failed_rows sort limit d = take limit (
      sort OutboxEvent updated_first (
        p.find_many OutboxEvent
          (λ r. has_status OutboxStatus.failed r && ltb r.attempts max_event_attempts) d.outbox))

  abbrev pub revive : List OutboxEvent → Action Db ℕ
  revive [] d = (ok 0, d)
  revive (e ∷ events) d =
      update_outbox (λ r. is_among (e ∷ events) r && has_status OutboxStatus.failed r)
        (revived env.now) d

  pub retry_failed : OrderBy → ℕ → Action Db ℕ
  retry_failed sort limit = p.transaction Db ℕ (λ d. revive (failed_rows sort limit d) d)
