-- ===== src/EventBus/Dispatch/Delivery.antt =====
-- What a batch leaves of the rows that it claimed.
use central_backend_e_commer.Prelude.{
  ℕ, zero, suc, ◌≡◌, refl, sym, ap, subst, ◌∙◌, ◌==◌, Bool, true, false, none, some, List, [], ◌∷◌,
  ◌++◌, length, All, filter, leb, arith, inl, inr, ◌⊎◌, Bool-cases, if◌then◌else◌, opt_eq,
}
use mathlib.Core.List.{append-nil, append_assoc}
use central_backend_e_commer.Action.{Action, Result, Error, ok, err, ◌>>◌, pure, bind_ok}
use central_backend_e_commer.Action.Keeps.{Keeps, IsPreorder, Keeps-pure, Keeps-bind}
use central_backend_e_commer.Prisma.{
  Prisma, Laws, OrderBy, list_client, client-eq, first, update_where,
}
use central_backend_e_commer.Prisma.Keys.{Keyed, first-append, first-update_where}
use central_backend_e_commer.Prisma.Found.{All-map}
use central_backend_e_commer.Schema.{Db, Env, OutboxEvent, OutboxStatus}
use central_backend_e_commer.EventBus.Outbox.{
  due, update_one, done, broken, mark_processed, claim_pending_batch,
}
use central_backend_e_commer.EventBus.Outbox.Once.{Selects, id_of, given-Processing, claim-commit}
use central_backend_e_commer.EventBus.Dispatch.{
  Handler, Bus, handled, invoke, insert_by_priority, by_priority, handlers_of, is_sync, event_name,
  dispatch_sync, dispatch, enqueue_all, on_db, caught, settle, settle_all, process_outbox_batch,
}

-- The row that a read by its identifier finds is one for which P holds.
abbrev pub Shows : (OutboxEvent → Type 0) → ℕ → List OutboxEvent → Type 0
Shows P k t = (r : OutboxEvent) × (first (λ x. x.id == k) t ≡ some r) × P r

abbrev pub IsThere : OutboxEvent → Type 0
IsThere r = Unit

-- The row is delivered or known not to be.
abbrev pub IsSettled : OutboxEvent → Type 0
IsSettled r = (r.status ≡ OutboxStatus.processed) ⊎ (r.status ≡ OutboxStatus.failed)

-- A handler that only adds rows to the outbox, by publishing events.
abbrev pub OnlyPublishes : Handler → Type 0
OnlyPublishes h =
    (e : OutboxEvent) (d : Db)
    → (new : List OutboxEvent) × ((h.handle e d).1.outbox ≡ d.outbox ++ new)

-- What such handlers do to the outbox.
record Grew (b b' : Bus) : Type 0 where
  pub new : List OutboxEvent
  pub same : b'.db.outbox ≡ b.db.outbox ++ new

Grew-IsPreorder : IsPreorder Grew
Grew-IsPreorder = record {
  stays = λ b. record { new = []; same = sym (append-nil b.db.outbox) };
  chains = λ a b c h k. record {
    new = h.new ++ k.new;
    same = k.same ∙ ap (λ t. t ++ k.new) h.same ∙ append_assoc a.db.outbox h.new k.new;
  };
}

Shows-after :
    (P : OutboxEvent → Type 0) (k : ℕ) (b b' : Bus)
    → Grew b b'
    → Shows P k b.db.outbox
    → Shows P k b'.db.outbox
Shows-after P k b b' g h =
    (h.0, rw (g.same, first-append (λ x. x.id == k) b.db.outbox g.new, h.1) refl, h.2)

handled-Grew : (h : Handler) (e : OutboxEvent) → OnlyPublishes h → Keeps Grew (handled h e)
handled-Grew h e only = record {
  holds = λ b. record { new = (only e b.db).0; same = let same = (only e b.db).1 in ground arith };
}

chosen :
    (b : Bus) (c : Result (Unit {0})) (q again : Result (Unit {0}) × Bus)
    → Grew b q.1
    → Grew b again.1
    → Grew b (elim c as (λ _. Result (Unit {0}) × Bus) [ ok u ↦ q | err x ↦ again ]).1
chosen b (ok u) q again h k = h
chosen b (err x) q again h k = k

invoke-Grew :
    (h : Handler) (e : OutboxEvent) (left : ℕ) → OnlyPublishes h → Keeps Grew (invoke h e left)
unfolding invoke
invoke-Grew h e zero only = handled-Grew h e only
invoke-Grew h e (suc left) only = record {
  holds = λ b.
      let once = (handled-Grew h e only).holds b in
      chosen b (handled h e b).0 (handled h e b) (invoke h e left (handled h e b).1) once
        (Grew-IsPreorder.chains _ _ _ once ((invoke-Grew h e left only).holds (handled h e b).1));
}

by_mode :
    (c : Bool) (m k : Action Bus (Unit {0}))
    → Keeps Grew m
    → Keeps Grew k
    → Keeps Grew (λ b. if c then m b else k b)
by_mode true m k hm hk = hm
by_mode false m k hm hk = hk

sync-Grew :
    (handlers : List Handler) (e : OutboxEvent)
    → All OnlyPublishes handlers
    → Keeps Grew (dispatch_sync handlers e)
unfolding dispatch_sync
sync-Grew [] e only = Keeps-pure Grew Grew-IsPreorder tt
sync-Grew (h ∷ rest) e only =
    let later = sync-Grew rest e only.1 in
    by_mode (is_sync h) (invoke h e h.retries >> dispatch_sync rest e) (dispatch_sync rest e)
      (Keeps-bind Grew Grew-IsPreorder _ _ (invoke-Grew h e h.retries only.0) (λ u. later)) later

-- The handlers of an event are among those that are registered.
All-filter :
    (P : Handler → Type 0) (c : Handler → Bool) (t : List Handler) → All P t → All P (filter c t)
All-filter P c [] h = tt
All-filter P c (x ∷ t) h = ground (arith, All-filter P c t)

All-append : (P : Handler → Type 0) (t u : List Handler) → All P t → All P u → All P (t ++ u)
All-append P [] u h k = k
All-append P (x ∷ t) u h k = (h.0, All-append P t u h.1 k)

All-insert :
    (P : Handler → Type 0) (x : Handler) (t : List Handler)
    → P x
    → All P t
    → All P (insert_by_priority x t)
All-insert P x [] h k = (h, tt)
All-insert P x (y ∷ t) h k = elim (Bool-cases (leb x.priority y.priority)) [
  | inl m ↦ rw m (h, k)
  | inr m ↦ rw m (k.0, All-insert P x t h k.1)
]

All-by_priority : (P : Handler → Type 0) (t : List Handler) → All P t → All P (by_priority t)
All-by_priority P [] h = tt
All-by_priority P (x ∷ t) h = All-insert P x (by_priority t) h.0 (All-by_priority P t h.1)

All-handlers_of :
    (P : Handler → Type 0) (registered : List Handler) (e : OutboxEvent)
    → All P registered
    → All P (handlers_of registered e)
All-handlers_of P registered e h =
    let named = λ (x : Handler). opt_eq x.event_name (some (event_name e.event)) in
    let wild = λ (x : Handler). opt_eq x.event_name none in
    All-by_priority P (filter named registered ++ filter wild registered) (
      All-append P (filter named registered) (filter wild registered)
        (All-filter P named registered h) (All-filter P wild registered h))

dispatch-Grew :
    (registered : List Handler) (e : OutboxEvent)
    → All OnlyPublishes registered
    → Keeps Grew (dispatch registered e)
unfolding dispatch
dispatch-Grew registered e only =
    Keeps-bind Grew Grew-IsPreorder _ (λ u. enqueue_all (handlers_of registered e) e)
      (sync-Grew (handlers_of registered e) e (All-handlers_of OnlyPublishes registered e only))
      (λ u. record { holds = λ b. record { new = []; same = sym (append-nil b.db.outbox) } })

-- A write to the row of an identifier, as it shows in that row and in any other.
written :
    (P Q : OutboxEvent → Type 0) (f : OutboxEvent → OutboxEvent) (k : ℕ) (t : List OutboxEvent)
    → ((r : OutboxEvent) → (f r).id ≡ r.id)
    → ((r : OutboxEvent) → P r → Q (f r))
    → Shows P k t
    → Shows Q k (update_where (λ x. x.id == k) f t)
written P Q f k t same h (r, found, holds) =
    let after = first-update_where (λ x. x.id) k k f same t in
    let here : (k == k) ≡ true = ground arith in (f r, ground arith, h r holds)

beside :
    (P : OutboxEvent → Type 0) (f : OutboxEvent → OutboxEvent) (j k : ℕ) (t : List OutboxEvent)
    → ((r : OutboxEvent) → (f r).id ≡ r.id)
    → ((r : OutboxEvent) → P r → P (f r))
    → Shows P j t
    → Shows P j (update_where (λ x. x.id == k) f t)
beside P f j k t same h (r, found, holds) = elim (Bool-cases (j == k)) [
  | inl m ↦
      let after = first-update_where (λ x. x.id) j k f same t in (f r, ground arith, h r holds)
  | inr m ↦ let after = first-update_where (λ x. x.id) j k f same t in (r, ground arith, holds)
]

module _ (env : Env) (describe : Error → ℕ) (registered : List Handler) where
  abbrev wrote : (OutboxEvent → OutboxEvent) → ℕ → Bus → Bus
  wrote f k b = record b {
    db = record b.db { outbox = update_where (λ x. x.id == k) f b.db.outbox };
  }

  marked :
      (f : OutboxEvent → OutboxEvent) (k : ℕ) (b : Bus) (r : OutboxEvent)
      → first (λ x. x.id == k) b.db.outbox ≡ some r
      → on_db list_client env describe registered (update_one list_client env k f) b
        ≡ (ok (f r), wrote f k b)
  marked f k b r e = rw (e, update_one) refl

  -- What a round does to its own row and to the others.
  record SettlesRow (k : ℕ) (b : Bus) (q : Result (Unit {0}) × Bus) : Type 0 where
    pub returns : q.0 ≡ ok tt
    pub settled : Shows IsSettled k q.1.db.outbox
    pub keeps_there : (j : ℕ) → Shows IsThere j b.db.outbox → Shows IsThere j q.1.db.outbox
    pub keeps_settled : (j : ℕ) → Shows IsSettled j b.db.outbox → Shows IsSettled j q.1.db.outbox

  -- What a write of `done` or `broken` to a row does.
  wrote-SettlesRow :
      (f : OutboxEvent → OutboxEvent) (k : ℕ) (b b' : Bus)
      → ((r : OutboxEvent) → (f r).id ≡ r.id)
      → ((r : OutboxEvent) → IsSettled (f r))
      → Grew b b'
      → Shows IsThere k b'.db.outbox
      → SettlesRow k b (ok tt, wrote f k b')
  wrote-SettlesRow f k b b' same settles grew h = record {
    returns = refl;
    settled = written IsThere IsSettled f k b'.db.outbox same (λ r u. settles r) h;
    keeps_there = λ j x.
        beside IsThere f j k b'.db.outbox same (λ r u. tt) (Shows-after IsThere j b b' grew x);
    keeps_settled = λ j x.
        beside IsSettled f j k b'.db.outbox same (λ r u. settles r)
          (Shows-after IsSettled j b b' grew x);
  }

  from_outcome :
      (e : OutboxEvent) (b : Bus) (q : Result (Unit {0}) × Bus)
      → Grew b q.1
      → Shows IsThere e.id b.db.outbox
      → SettlesRow e.id b (
          caught list_client env describe registered e
            (elim q.0 as (λ _. Result OutboxEvent × Bus) [
              | ok u ↦
                  on_db list_client env describe registered
                    (mark_processed list_client env e.id)
                    q.1
              | err x ↦ (err x, q.1)
            ]))
  from_outcome e b (ok u, b1) grew h =
      let there = Shows-after IsThere e.id b b1 grew h in
      subst (λ z. SettlesRow e.id b (caught list_client env describe registered e z))
        (sym (marked (done env.now) e.id b1 there.0 there.1))
        (wrote-SettlesRow (done env.now) e.id b b1 (λ r. refl) (λ r. inl refl) grew there)
  from_outcome e b (err x, b1) grew h =
      let there = Shows-after IsThere e.id b b1 grew h in
      subst
        (λ z. SettlesRow e.id b (elim z.0 as (λ _. Result (Unit {0}) × Bus) [
          | ok r ↦ (ok tt, z.1)
          | err y ↦ (err y, z.1)
        ]))
        (sym (marked (broken env.now (describe x)) e.id b1 there.0 there.1))
        (wrote-SettlesRow (broken env.now (describe x)) e.id b b1 (λ r. refl) (λ r. inr refl) grew
          there)

  settle-SettlesRow :
      (e : OutboxEvent) (b : Bus)
      → All OnlyPublishes registered
      → Shows IsThere e.id b.db.outbox
      → SettlesRow e.id b (settle list_client env describe registered e b)
  unfolding settle
  settle-SettlesRow e b only h =
      from_outcome e b (dispatch registered e b) ((dispatch-Grew registered e only).holds b) h

  abbrev AllThere : List OutboxEvent → Bus → Type 0
  AllThere es b = All (λ e. Shows IsThere e.id b.db.outbox) es

  abbrev AllSettled : List OutboxEvent → Bus → Type 0
  AllSettled es b = All (λ e. Shows IsSettled e.id b.db.outbox) es

  -- The loop settles all its rows, and keeps the settled ones so.
  rounds_settle :
      (es : List OutboxEvent) (b : Bus)
      → All OnlyPublishes registered
      → AllThere es b
      → let q = settle_all list_client env describe registered es b in
        (q.0 ≡ ok tt)
        × AllSettled es q.1
        × ((j : ℕ) → Shows IsSettled j b.db.outbox → Shows IsSettled j q.1.db.outbox)
  rounds_settle [] b only h = (refl, tt, λ j x. x)
  rounds_settle (e ∷ es) b only h =
      let first_row = settle-SettlesRow e b only h.0 in
      let b1 = (settle list_client env describe registered e b).1 in
      let rest =
        rounds_settle es b1 only (All-map _ _ (λ r x. first_row.keeps_there r.id x) es h.1) in
      subst
        (λ q.
          (q.0 ≡ ok tt)
          × AllSettled (e ∷ es) q.1
          × ((j : ℕ) → Shows IsSettled j b.db.outbox → Shows IsSettled j q.1.db.outbox))
        (sym (
          bind_ok (settle list_client env describe registered e)
            (λ u. settle_all list_client env describe registered es) b tt first_row.returns))
        (
          rest.0,
          (rest.2 e.id first_row.settled, rest.1),
          λ j x. rest.2 j (first_row.keeps_settled j x),
        )

batch_list :
    (env : Env) (describe : Error → ℕ) (registered : List Handler) (sort : OrderBy) (limit : ℕ)
    (b : Bus) (es : List OutboxEvent)
    → Selects sort
    → Keyed id_of b.db.outbox
    → All OnlyPublishes registered
    → (claim_pending_batch list_client env sort limit b.db).0 ≡ ok es
    → let (r, b') = process_outbox_batch list_client env describe registered sort limit b in
      (r ≡ ok (length es)) × All (λ e. Shows IsSettled e.id b'.db.outbox) es
unfolding process_outbox_batch
batch_list env describe registered sort limit b es selects u only e =
    let same = claim-commit env sort limit b.db in
    let (keyed, held) =
      given-Processing env sort (due list_client env sort limit b.db) b.db selects u es
        (rw same at e) in
    let b1 : Bus = record b { db = (claim_pending_batch list_client env sort limit b.db).1 } in
    let there : All (λ x. Shows IsThere x.id b1.db.outbox) es =
      All-map _ _ (λ r h. (r, rw same h.0, tt)) es held in
    let all = rounds_settle env describe registered es b1 only there in
    let loop =
      bind_ok (settle_all list_client env describe registered es) (λ u. pure (length es)) b1 tt
        all.0 in
    let batch =
      bind_ok
        (on_db list_client env describe registered (claim_pending_batch list_client env sort limit))
        (λ events. settle_all list_client env describe registered events >> pure (length events)) b
        es e in
    subst (λ q. (q.0 ≡ ok (length es)) × All (λ e. Shows IsSettled e.id q.1.db.outbox) es)
      (sym (batch ∙ loop)) (refl, all.1)

-- If the rows of the outbox have different identifiers, a query's order only rearranges, and handlers
-- add rows to the outbox but do not change any, then a batch returns the number of rows that it
-- claimed, and each of them is processed or failed, however the handlers fail: none is left in processing.
pub process_outbox_batch_settles :
    {p : Prisma}
    → Laws p
    → (env : Env) (describe : Error → ℕ) (registered : List Handler) (sort : OrderBy) (limit : ℕ)
      (b : Bus) (es : List OutboxEvent)
    → Selects sort
    → Keyed id_of b.db.outbox
    → All OnlyPublishes registered
    → (claim_pending_batch p env sort limit b.db).0 ≡ ok es
    → let (r, b') = process_outbox_batch p env describe registered sort limit b in
      (r ≡ ok (length es)) × All (λ e. Shows IsSettled e.id b'.db.outbox) es
process_outbox_batch_settles laws env describe registered sort limit b es selects u only e =
    rw (client-eq laws)
      (batch_list env describe registered sort limit b es selects u only (rw (client-eq laws) at e))
