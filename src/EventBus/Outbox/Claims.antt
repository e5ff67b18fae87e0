-- ===== src/EventBus/Outbox/Claims.antt =====
-- Histories of the outbox: what its workers can do to a row, in any order.
use central_backend_e_commer.Prelude.{
  ℕ, ◌+◌, ◌≤◌, ◌≡◌, ◌⊎◌, inl, inr, none, some, refl, ◌∙◌, Bool, true, Option, ◌==◌, List, [], ◌∷◌,
  map, arith, ◌&&◌,
}
use central_backend_e_commer.Action.{Result, ok, err}
use central_backend_e_commer.Prisma.{
  Prisma, OrderBy, Laws, list_client, client-eq, commit, first, update_where,
}
use central_backend_e_commer.Prisma.Keys.{
  Pointwise, Pointwise-refl, Pointwise-update, Pointwise-chain,
}
use central_backend_e_commer.Schema.{Db, Env, OutboxEvent, OutboxStatus}
use central_backend_e_commer.EventBus.{published}
use central_backend_e_commer.EventBus.Outbox.{
  claimed, freed, done, broken, revived, claim_due, revive, due, failed_rows, update_one,
  claim_pending_batch, release_stuck_processing, mark_processed, mark_failed, retry_failed,
  is_among, has_status, locked_before,
}

-- The row is still of the same event, published by the same user at the same time.
abbrev pub SameEvent : OutboxEvent → OutboxEvent → Type 0
SameEvent r r' =
    (r'.id ≡ r.id)
    × (r'.event_id ≡ r.event_id)
    × (r'.event ≡ r.event)
    × (r'.user_id ≡ r.user_id)
    × (r'.occurred_at ≡ r.occurred_at)
    × (r'.created_at ≡ r.created_at)

-- A worker takes the row: it counts an attempt and notes the time of the lock.
pub record Claim (r r' : OutboxEvent) : Type 0 where
  pub same : SameEvent r r'
  pub was : r.status ≡ OutboxStatus.pending
  pub is : r'.status ≡ OutboxStatus.processing
  pub attempt : r'.attempts ≡ r.attempts + 1
  pub locked : (now : ℕ) × (r'.locked_at ≡ some now)
  pub processed : r'.processed_at ≡ r.processed_at

-- The row goes back to those that wait, from a worker that is stuck or from those that failed; the
-- attempts stay counted, and no worker holds it who did.
pub record Return (from : OutboxStatus) (r r' : OutboxEvent) : Type 0 where
  pub same : SameEvent r r'
  pub was : r.status ≡ from
  pub is : r'.status ≡ OutboxStatus.pending
  pub attempt : r'.attempts ≡ r.attempts
  pub locked : (r'.locked_at ≡ none) ⊎ (r'.locked_at ≡ r.locked_at)
  pub processed : r'.processed_at ≡ r.processed_at
  pub told : r'.last_error ≡ r.last_error

-- The row is settled: processed, with the time and no error, or failed, with an error.
pub record Settled (r r' : OutboxEvent) : Type 0 where
  pub same : SameEvent r r'
  pub attempt : r'.attempts ≡ r.attempts
  pub unlocked : r'.locked_at ≡ none
  pub is :
      ((r'.status ≡ OutboxStatus.processed)
        × (r'.last_error ≡ none)
        × ((now : ℕ) × (r'.processed_at ≡ some now)))
      ⊎ ((r'.status ≡ OutboxStatus.failed)
          × ((message : ℕ) × (r'.last_error ≡ some message))
          × (r'.processed_at ≡ r.processed_at))

pub data Step (r r' : OutboxEvent) : Type 0 where
  claims : Claim r r' → Step r r'
  frees : Return OutboxStatus.processing r r' → (r'.locked_at ≡ none) → Step r r'
  revives : Return OutboxStatus.failed r r' → Step r r'
  settles : Settled r r' → Step r r'

pub data Steps (r : OutboxEvent) : OutboxEvent → Type 0 where
  here : Steps r r
  next : {s t : OutboxEvent} → Steps r s → Step s t → Steps r t

one : (r s : OutboxEvent) → Step r s → Steps r s
one r s step = next here step

chain : (r s t : OutboxEvent) → Steps r s → Steps s t → Steps r t
chain r s _ a here = a
chain r s t a (next b step) = next (chain r s _ a b) step

-- What a worker asks of the outbox.
pub data OutboxCall : Type 0 where
  claim : ℕ → OutboxCall
  release_stuck : ℕ → OutboxCall
  processed : ℕ → OutboxCall
  failed : ℕ → ℕ → OutboxCall
  retry : ℕ → OutboxCall

abbrev pub run_outbox : Prisma → OrderBy → Env → OutboxCall → Db → Db
run_outbox p sort env (OutboxCall.claim limit) d = (claim_pending_batch p env sort limit d).1
run_outbox p sort env (OutboxCall.release_stuck before) d =
    (release_stuck_processing p env before d).1
run_outbox p sort env (OutboxCall.processed id) d = (mark_processed p env id d).1
run_outbox p sort env (OutboxCall.failed id message) d = (mark_failed p env id message d).1
run_outbox p sort env (OutboxCall.retry limit) d = (retry_failed p env sort limit d).1

-- Calls one after the other, each at its own time.
abbrev pub run_outbox_calls : Prisma → OrderBy → List (Env × OutboxCall) → Db → Db
run_outbox_calls p sort [] d = d
run_outbox_calls p sort ((env, c) ∷ rest) d =
    run_outbox_calls p sort rest (run_outbox p sort env c d)

abbrev Later : List OutboxEvent → List OutboxEvent → Type 0
Later = Pointwise Steps

stays : (t : List OutboxEvent) → Later t t
stays = Pointwise-refl Steps (λ r. here)

-- An update is a step on each row that it meets.
update-Later :
    (c : OutboxEvent → Bool) (f : OutboxEvent → OutboxEvent) (t : List OutboxEvent)
    → ((r : OutboxEvent) → c r ≡ true → Step r (f r))
    → Later t (update_where c f t)
update-Later c f t h = Pointwise-update Steps (λ r. here) c f (λ r m. one r (f r) (h r m)) t

claim-Later :
    (env : Env) (sort : OrderBy) (events : List OutboxEvent) (d : Db)
    → Later d.outbox (claim_due list_client env sort events d).1.outbox
claim-Later env sort [] d = stays d.outbox
claim-Later env sort (e ∷ events) d =
    update-Later (λ r. is_among (e ∷ events) r && has_status OutboxStatus.pending r)
      (claimed env.now) d.outbox
      (λ r m. claims (record {
        same = (refl, refl, refl, refl, refl, refl);
        was = ground arith;
        is = refl;
        attempt = refl;
        locked = (env.now, refl);
        processed = refl;
      }))

retry-Later :
    (env : Env) (events : List OutboxEvent) (d : Db)
    → Later d.outbox (revive list_client env events d).1.outbox
retry-Later env [] d = stays d.outbox
retry-Later env (e ∷ events) d =
    update-Later (λ r. is_among (e ∷ events) r && has_status OutboxStatus.failed r)
      (revived env.now) d.outbox
      (λ r m. revives (record {
        same = (refl, refl, refl, refl, refl, refl);
        was = ground arith;
        is = refl;
        attempt = refl;
        locked = inr refl;
        processed = refl;
        told = refl;
      }))

one-Later :
    (env : Env) (id : ℕ) (f : OutboxEvent → OutboxEvent) (d : Db)
    → ((r : OutboxEvent) → Step r (f r))
    → Later d.outbox (update_one list_client env id f d).1.outbox
one-Later env id f d h = found (first (λ r. r.id == id) d.outbox) refl
  where
    found :
        (o : Option OutboxEvent)
        → first (λ r. r.id == id) d.outbox ≡ o
        → Later d.outbox (update_one list_client env id f d).1.outbox
    found none e = rw (update_one, e) (stays d.outbox)
    found (some x) e = rw (update_one, e) (update-Later (λ r. r.id == id) f d.outbox (λ r m. h r))

commit-Later :
    {A : Type 0} (d d' : Db) (r : Result A)
    → Later d.outbox d'.outbox
    → Later d.outbox (commit d (r, d')).1.outbox
commit-Later d d' (ok a) h = h
commit-Later d d' (err e) h = stays d.outbox

call-Later :
    (env : Env) (sort : OrderBy) (c : OutboxCall) (d : Db)
    → Later d.outbox (run_outbox list_client sort env c d).outbox
unfolding claim_pending_batch retry_failed
call-Later env sort (OutboxCall.claim limit) d =
    commit-Later d _ (claim_due list_client env sort (due list_client env sort limit d) d).0
      (claim-Later env sort (due list_client env sort limit d) d)
call-Later env sort (OutboxCall.release_stuck before) d =
    update-Later (λ r. has_status OutboxStatus.processing r && locked_before before r.locked_at)
      (freed env.now) d.outbox
      (λ r m.
        frees
          (record {
            same = (refl, refl, refl, refl, refl, refl);
            was = ground arith;
            is = refl;
            attempt = refl;
            locked = inl refl;
            processed = refl;
            told = refl;
          })
          refl)
call-Later env sort (OutboxCall.processed id) d = one-Later env id (done env.now) d (λ r.
    settles (record {
      same = (refl, refl, refl, refl, refl, refl);
      attempt = refl;
      unlocked = refl;
      is = inl (refl, refl, (env.now, refl));
    }))
call-Later env sort (OutboxCall.failed id message) d =
    one-Later env id (broken env.now message) d (λ r. settles (record {
      same = (refl, refl, refl, refl, refl, refl);
      attempt = refl;
      unlocked = refl;
      is = inr (refl, (message, refl), refl);
    }))
call-Later env sort (OutboxCall.retry limit) d =
    commit-Later d _ (revive list_client env (failed_rows list_client env sort limit d) d).0
      (retry-Later env (failed_rows list_client env sort limit d) d)

calls_list :
    (sort : OrderBy) (calls : List (Env × OutboxCall)) (d : Db)
    → Pointwise Steps d.outbox (run_outbox_calls list_client sort calls d).outbox
calls_list sort [] d = stays d.outbox
calls_list sort ((env, c) ∷ rest) d =
    let d' = run_outbox list_client sort env c d in
    Pointwise-chain Steps chain d.outbox d'.outbox
      (run_outbox_calls list_client sort rest d').outbox (call-Later env sort c d)
      (calls_list sort rest d')

pub calls_Steps :
    {p : Prisma}
    → Laws p
    → (sort : OrderBy) (calls : List (Env × OutboxCall)) (d : Db)
    → Pointwise Steps d.outbox (run_outbox_calls p sort calls d).outbox
calls_Steps laws sort calls d = rw (client-eq laws) (calls_list sort calls d)

Step-event :
    (r s : OutboxEvent)
    → Step r s
    → (s.event ≡ r.event) × (s.event_id ≡ r.event_id) × (r.attempts ≤ s.attempts)
Step-event r s (claims c) = (c.same.2, c.same.1, ground (arith, c.attempt))
Step-event r s (frees c e) = (c.same.2, c.same.1, ground (arith, c.attempt))
Step-event r s (revives c) = (c.same.2, c.same.1, ground (arith, c.attempt))
Step-event r s (settles c) = (c.same.2, c.same.1, ground (arith, c.attempt))

-- Over any steps a row keeps its event and the event's identity, by which a subscriber knows it
-- again, and never forgets an attempt.
pub Steps-event :
    (r s : OutboxEvent)
    → Steps r s
    → (s.event ≡ r.event) × (s.event_id ≡ r.event_id) × (r.attempts ≤ s.attempts)
Steps-event r _ here = (refl, refl, ground arith)
Steps-event r s (next {s = m} before step) =
    let a = Steps-event r m before in
    let b = Step-event m s step in (b.0 ∙ a.0, b.1 ∙ a.1, ground arith)

Steps-published :
    (t u : List OutboxEvent) → Pointwise Steps t u → map (λ r. r.event) u ≡ map (λ r. r.event) t
Steps-published [] [] h = refl
Steps-published (r ∷ t) (s ∷ u) h =
    let e = (Steps-event r s h.0).0 in ground (arith, Steps-published t u)
Steps-published [] (s ∷ u) h = elim h [ ]
Steps-published (r ∷ t) [] h = elim h [ ]

-- No call of a worker loses, alters or reorders a published event.
pub calls_published :
    {p : Prisma}
    → Laws p
    → (sort : OrderBy) (calls : List (Env × OutboxCall)) (d : Db)
    → published (run_outbox_calls p sort calls d) ≡ published d
calls_published laws sort calls d =
    Steps-published d.outbox (run_outbox_calls _ sort calls d).outbox
      (calls_Steps laws sort calls d)
