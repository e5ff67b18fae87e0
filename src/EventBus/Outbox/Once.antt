-- ===== src/EventBus/Outbox/Once.antt =====
-- `claimPendingBatch`, called by one worker after another.
use central_backend_e_commer.Prelude.{
  ℕ, ◌≡◌, refl, Bool, true, false, inl, inr, some, List, [], ◌∷◌, arith, All, ◌&&◌, ◌==◌, leb,
  opt_eq, Bool-cases,
}
use central_backend_e_commer.Action.{ok}
use central_backend_e_commer.Prisma.{
  Prisma, OrderBy, Laws, list_client, client-eq, commit, first, matching,
}
use central_backend_e_commer.Prisma.Keys.{Keyed, update_where-Keyed}
use central_backend_e_commer.Prisma.Found.{All-take, All-map, All-matching, Stored, matching-Stored}
use central_backend_e_commer.Schema.{Db, Env, OutboxEvent, OutboxStatus}
use central_backend_e_commer.EventBus.Outbox.{
  is_among, has_status, created_first, claimed, due, claim_due, claimed_rows, claim_pending_batch,
}

abbrev pub id_of : OutboxEvent → ℕ
id_of r = r.id

-- A query's order gives rows of what it orders, and no others.
abbrev pub Selects : OrderBy → Type 1
Selects sort =
    (Row : Type 0) (before : Row → Row → Bool) (P : Row → Type 0) (t : List Row)
    → All P t
    → All P (sort Row before t)

-- A row of the table that has the status.
abbrev Holds : OutboxStatus → Db → OutboxEvent → Type 0
Holds s d r = Stored id_of d.outbox r × (has_status s r ≡ true)

among_has :
    (P : OutboxEvent → Type 0) (es : List OutboxEvent) (r : OutboxEvent)
    → All P es
    → is_among es r ≡ true
    → (e : OutboxEvent) × ((e.id == r.id) ≡ true) × P e
among_has P [] r h m = absurd (ground arith)
among_has P (e ∷ es) r h m = elim (Bool-cases (e.id == r.id)) [
  | inl same ↦ (e, same, h.0)
  | inr other ↦ among_has P es r h.1 (ground arith)
]

-- No row is in two statuses.
apart :
    (d : Db) (es fs : List OutboxEvent) (r : OutboxEvent)
    → All (Holds OutboxStatus.processing d) es
    → All (Holds OutboxStatus.pending d) fs
    → is_among fs r ≡ true
    → is_among es r ≡ false
apart d es fs r h k m = elim (Bool-cases (is_among es r)) [
  | inr out ↦ out
  | inl both ↦
      let (e, se, he) = among_has (Holds OutboxStatus.processing d) es r h both in
      let (f, sf, hf) = among_has (Holds OutboxStatus.pending d) fs r k m in
      let ids : e.id ≡ f.id = ground arith in
      let one : first (λ x. x.id == f.id) d.outbox ≡ some e = rw ids at he.0 in
      absurd (ground arith)
]

due-Pending :
    (env : Env) (sort : OrderBy) (limit : ℕ) (d : Db)
    → Selects sort
    → Keyed id_of d.outbox
    → All (Holds OutboxStatus.pending d) (due list_client env sort limit d)
due-Pending env sort limit d selects u =
    let c : OutboxEvent → Bool =
      λ r. has_status OutboxStatus.pending r && leb r.available_at env.now in
    All-take (Holds OutboxStatus.pending d) limit
      (sort OutboxEvent created_first (matching c d.outbox))
      (selects OutboxEvent created_first (Holds OutboxStatus.pending d) (matching c d.outbox) (
        All-map (λ r. Stored id_of d.outbox r × (c r ≡ true)) (Holds OutboxStatus.pending d)
          (λ r h. (h.0, ground arith)) (matching c d.outbox) (matching-Stored id_of c d.outbox u)))

claimed-Processing :
    (env : Env) (sort : OrderBy) (events : List OutboxEvent) (d : Db)
    → Selects sort
    → Keyed id_of d.outbox
    → All (Holds OutboxStatus.processing d) (claimed_rows list_client env sort events d)
claimed-Processing env sort events d selects u =
    let c : OutboxEvent → Bool = λ r.
      is_among events r
      && has_status OutboxStatus.processing r
      && opt_eq r.locked_at (some env.now) in
    selects OutboxEvent created_first (Holds OutboxStatus.processing d) (matching c d.outbox) (
      All-map (λ r. Stored id_of d.outbox r × (c r ≡ true)) (Holds OutboxStatus.processing d)
        (λ r h. (h.0, ground arith)) (matching c d.outbox) (matching-Stored id_of c d.outbox u))

claimed-Among :
    (env : Env) (sort : OrderBy) (events : List OutboxEvent) (d : Db)
    → Selects sort
    → All (λ r. is_among events r ≡ true) (claimed_rows list_client env sort events d)
claimed-Among env sort events d selects =
    let c : OutboxEvent → Bool = λ r.
      is_among events r
      && has_status OutboxStatus.processing r
      && opt_eq r.locked_at (some env.now) in
    selects OutboxEvent created_first (λ r. is_among events r ≡ true) (matching c d.outbox)
      (All-map (λ r. c r ≡ true) (λ r. is_among events r ≡ true) (λ r h. ground arith)
        (matching c d.outbox) (All-matching c d.outbox))

pair-Apart :
    (d : Db) (es fs gs : List OutboxEvent)
    → All (Holds OutboxStatus.processing d) es
    → All (Holds OutboxStatus.pending d) fs
    → All (λ r. is_among fs r ≡ true) gs
    → All (λ r. is_among es r ≡ false) gs
pair-Apart d es fs gs h k m =
    All-map (λ r. is_among fs r ≡ true) (λ r. is_among es r ≡ false) (λ r. apart d es fs r h k) gs m

-- What a claim gives, by what was due.
pub given-Processing :
    (env : Env) (sort : OrderBy) (events : List OutboxEvent) (d : Db)
    → Selects sort
    → Keyed id_of d.outbox
    → (es : List OutboxEvent) → (claim_due list_client env sort events d).0 ≡ ok es
    → let d1 = (claim_due list_client env sort events d).1 in
      Keyed id_of d1.outbox × All (Holds OutboxStatus.processing d1) es
given-Processing env sort [] d selects u es e =
    let empty : es ≡ [] = ground arith in (u, rw empty tt)
given-Processing env sort (x ∷ events) d selects u es e =
    let d1 = (claim_due list_client env sort (x ∷ events) d).1 in
    let keyed =
      update_where-Keyed id_of (λ r. is_among (x ∷ events) r && has_status OutboxStatus.pending r)
        (claimed env.now) (λ r. refl) d.outbox u in
    let rows = claimed-Processing env sort (x ∷ events) d1 selects keyed in
    let same : claimed_rows list_client env sort (x ∷ events) d1 ≡ es = ground arith in
    (keyed, rw same at rows)

given-Among :
    (env : Env) (sort : OrderBy) (events : List OutboxEvent) (d : Db)
    → Selects sort
    → (es : List OutboxEvent) → (claim_due list_client env sort events d).0 ≡ ok es
    → All (λ r. is_among events r ≡ true) es
given-Among env sort [] d selects es e = let empty : es ≡ [] = ground arith in rw empty tt
given-Among env sort (x ∷ events) d selects es e =
    let d1 = (claim_due list_client env sort (x ∷ events) d).1 in
    let rows = claimed-Among env sort (x ∷ events) d1 selects in
    let same : claimed_rows list_client env sort (x ∷ events) d1 ≡ es = ground arith in
    rw same at rows

-- A claim does not throw.
pub claim-commit :
    (env : Env) (sort : OrderBy) (limit : ℕ) (d : Db)
    → claim_pending_batch list_client env sort limit d
      ≡ claim_due list_client env sort (due list_client env sort limit d) d
unfolding claim_pending_batch
claim-commit env sort limit d = keeps (due list_client env sort limit d)
  where
    keeps :
        (events : List OutboxEvent)
        → commit d (claim_due list_client env sort events d)
          ≡ claim_due list_client env sort events d
    keeps [] = refl
    keeps (e ∷ events) = refl

once_list :
    (env env' : Env) (sort : OrderBy) (limit limit' : ℕ) (d : Db) (es gs : List OutboxEvent)
    → Selects sort
    → Keyed id_of d.outbox
    → (claim_pending_batch list_client env sort limit d).0 ≡ ok es
    → let d1 = (claim_pending_batch list_client env sort limit d).1 in
      (claim_pending_batch list_client env' sort limit' d1).0 ≡ ok gs
      → All (λ r. is_among es r ≡ false) gs
once_list env env' sort limit limit' d es gs selects u e f =
    let first_due = due list_client env sort limit d in
    let d1 = (claim_due list_client env sort first_due d).1 in
    let e' = rw (claim-commit env sort limit d) at e in
    let f' : (claim_due list_client env' sort (due list_client env' sort limit' d1) d1).0 ≡ ok gs =
      rw (claim-commit env sort limit d, claim-commit env' sort limit' d1) at f in
    let (keyed, held) = given-Processing env sort first_due d selects u es e' in
    pair-Apart d1 es (due list_client env' sort limit' d1) gs held
      (due-Pending env' sort limit' d1 selects keyed)
      (given-Among env' sort (due list_client env' sort limit' d1) d1 selects gs f')

-- If the rows of the outbox have different identifiers and a query's order only rearranges, then of
-- two workers that claim one after the other, at any times and with any limits, the second gets no
-- row that the first got.
pub claim_once :
    {p : Prisma}
    → Laws p
    → (env env' : Env) (sort : OrderBy) (limit limit' : ℕ) (d : Db) (es gs : List OutboxEvent)
    → Selects sort
    → Keyed id_of d.outbox
    → (claim_pending_batch p env sort limit d).0 ≡ ok es
    → let d1 = (claim_pending_batch p env sort limit d).1 in
      (claim_pending_batch p env' sort limit' d1).0 ≡ ok gs → All (λ r. is_among es r ≡ false) gs
claim_once laws env env' sort limit limit' d es gs selects u e f =
    let same = client-eq laws in
    once_list env env' sort limit limit' d es gs selects u (rw same at e) (rw same at f)
