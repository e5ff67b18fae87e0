-- ===== src/Inventory/Ledger.antt =====
-- Any calls of `InventoryService` that move or hold stock, one after the other, and what they leave of
-- the balance of the books.
use central_backend_e_commer.Prelude.{
  ℕ, ◌≡◌, refl, arith, Option, none, some, List, [], ◌∷◌, leb, ◌++◌,
}
use central_backend_e_commer.Action.{
  Action, Result, ok, bad_request, or_throw, throw_if, modify, pure, ◌>>=◌, ◌>>◌,
}
use central_backend_e_commer.Action.Keeps.{
  Keeps, IsPreorder, Keeps-bind, Keeps-or_throw, Keeps-throw_if,
}
use central_backend_e_commer.Action.Leads.{Leads, Leads-bind, commit_keeps}
use central_backend_e_commer.Prisma.{Prisma, Laws, OrderBy, list_client, client-eq, commit}
use central_backend_e_commer.Schema.{Db, Env, AuditEntry}
use central_backend_e_commer.Inventory.Services.{StockServices}
use central_backend_e_commer.Inventory.Reserve.{
  StockReservationInput, reserve_stock, release_reserved_stock, reserve_in_transaction,
  reserve_outcome, release_in_transaction, log_stock,
}
use central_backend_e_commer.Inventory.Reserve.Books.{
  reserve_transaction-Off, release_transaction-Off,
}
use central_backend_e_commer.Inventory.Moves.{
  StockInInput, StockOutInput, stock_in, stock_in_in_transaction, stock_in_outcome,
  processed_movement, replayed_in,
}
use central_backend_e_commer.Inventory.StockOut.{
  stock_out, stock_out_in_transaction, stock_out_outcome, replayed_out,
  stock_out_and_release_reservation, release_if_held,
}
use central_backend_e_commer.Inventory.Adjust.{
  StockAdjustmentInput, is_zero, log_adjustment, adjust_stock, adjust_in_transaction,
}
use central_backend_e_commer.Inventory.Moves.Books.{stock_in_transaction-Off, stock_in_outcome_same}
use central_backend_e_commer.Inventory.StockOut.Books.{
  stock_out_transaction-Off, stock_out_outcome_same, release-Off,
}
use central_backend_e_commer.Inventory.Adjust.Books.{adjust_transaction-Off}
use central_backend_e_commer.Inventory.Books.{on_hand, in_batches, OneEach, Off, Balanced}

-- A call: what it is of, when and for whom, and what it asks.
pub data StockCall : Type 0 where
  come_in : Env → StockInInput → StockCall
  go_out : Env → StockOutInput → StockCall
  go_out_and_release : Env → StockOutInput → StockReservationInput → ℕ → StockCall
  adjust : Env → StockAdjustmentInput → StockCall
  reserve release : Env → StockReservationInput → StockCall

module _ (p : Prisma) (s : StockServices) (sort : OrderBy) where
  abbrev pub run_stock_call : StockCall → Db → Db
  run_stock_call (come_in env input) d = (stock_in p s env input d).1
  run_stock_call (go_out env input) d = (stock_out p s sort env input d).1
  run_stock_call (go_out_and_release env input held n) d =
      (stock_out_and_release_reservation p s sort env input held n d).1
  run_stock_call (adjust env input) d = (adjust_stock p s sort env input d).1
  run_stock_call (reserve env input) d = (reserve_stock p s env input d).1
  run_stock_call (release env input) d = (release_reserved_stock p s env input d).1

  abbrev pub run_stock_calls : List StockCall → Db → Db
  run_stock_calls [] d = d
  run_stock_calls (c ∷ rest) d = run_stock_calls rest (run_stock_call c d)

-- What each of them does: it keeps the books balanced, whether it returns or throws.
record BooksKept (d d' : Db) : Type 0 where
  pub kept : Balanced d → Balanced d'

BooksKept-IsPreorder : IsPreorder BooksKept
BooksKept-IsPreorder = record {
  stays = λ d. record { kept = λ h. h };
  chains = λ a b c h k. record { kept = λ x. k.kept (h.kept x) };
}

same_books : (d d' : Db) → (d'.items ≡ d.items) × (d'.batches ≡ d.batches) → BooksKept d d'
same_books d d' (e, f) = record {
  kept = λ h. record { tally = rw (e, f) h.tally; one_each = rw e h.one_each };
}

committed :
    {A : Type 0} (m : Action Db A)
    → Leads (Off 0 0) m (λ _. Off 0 0)
    → Keeps BooksKept (λ d. commit d (m d))
committed m h = record { holds = λ d. record { kept = commit_keeps m h d } }

-- A transaction, and what follows it, which leaves the stock alone.
concluded :
    {A B : Type 0} (m : Action Db A) (after : Result A × Db → Result B × Db)
    → ((r : Result A × Db) → ((after r).1.items ≡ r.1.items) × ((after r).1.batches ≡ r.1.batches))
    → Leads (Off 0 0) m (λ _. Off 0 0)
    → Keeps BooksKept (λ d. after (commit d (m d)))
concluded m after same h = record {
  holds = λ d.
      BooksKept-IsPreorder.chains d (commit d (m d)).1 (after (commit d (m d))).1
        ((committed m h).holds d) (same_books _ _ (same (commit d (m d))));
}

answered :
    {A B : Type 0} (o : Option B) (answer : B → Db → Result A) (m : Action Db A) (d : Db)
    → Keeps BooksKept m
    → BooksKept d (elim o as (λ _. Result A × Db) [ none ↦ m d | some b ↦ (answer b d, d) ]).1
answered none answer m d h = h.holds d
answered (some b) answer m d h = BooksKept-IsPreorder.stays d

-- As above, unless the call is answered from a row that is there.
unless_there :
    {A B : Type 0} (find : Db → Option B) (answer : B → Db → Result A) (m : Action Db A)
    → Keeps BooksKept m
    → Keeps BooksKept
        (λ d. elim (find d) as (λ _. Result A × Db) [ none ↦ m d | some b ↦ (answer b d, d) ])
unless_there find answer m h = record { holds = λ d. answered (find d) answer m d h }

abbrev kept_bind :
    {A B : Type 0} (m : Action Db A) (f : A → Action Db B)
    → Keeps BooksKept m
    → ((a : A) → Keeps BooksKept (f a))
    → Keeps BooksKept (m >>= f)
kept_bind = Keeps-bind BooksKept BooksKept-IsPreorder

with_reference :
    (o : Option ℕ) → Keeps BooksKept (or_throw o (bad_request "Reference ID is required"))
with_reference o = Keeps-or_throw BooksKept BooksKept-IsPreorder o _

some_quantity :
    (q : ℕ)
    → Keeps BooksKept (throw_if (leb q 0) (bad_request "Quantity must be greater than zero"))
some_quantity q = Keeps-throw_if BooksKept BooksKept-IsPreorder (leb q 0) _

logged :
    {A : Type 0} (f : Db → Db) (a : A)
    → ((d : Db) → ((f d).items ≡ d.items) × ((f d).batches ≡ d.batches))
    → Keeps BooksKept (modify f >> pure a)
logged f a same = record { holds = λ d. same_books d (f d) (same d) }

module _ (s : StockServices) (sort : OrderBy) (env : Env) where
  stock_in-Kept : (input : StockInInput) → Keeps BooksKept (stock_in list_client s env input)
  unfolding stock_in
  stock_in-Kept input = kept_bind _ _ (with_reference input.reference_id) λ n.
      unless_there (processed_movement list_client s env input.event_key)
        (λ m d. ok (replayed_in list_client s env input m d)) _
        (concluded (stock_in_in_transaction list_client s env input)
          (stock_in_outcome list_client s env input) (stock_in_outcome_same s env input)
          (stock_in_transaction-Off s env input))

  stock_out-Kept :
      (input : StockOutInput) → Keeps BooksKept (stock_out list_client s sort env input)
  unfolding stock_out
  stock_out-Kept input = kept_bind _ _ (with_reference input.reference_id) λ n.
      unless_there (processed_movement list_client s env input.event_key)
        (λ m d. ok (replayed_out list_client s sort env input m d)) _
        (concluded (stock_out_in_transaction list_client s sort env input)
          (stock_out_outcome list_client s sort env input) (stock_out_outcome_same s sort env input)
          (stock_out_transaction-Off s sort env input))

  stock_out_and_release-Kept :
      (input : StockOutInput) (held : StockReservationInput) (n : ℕ)
      → Keeps BooksKept (stock_out_and_release_reservation list_client s sort env input held n)
  unfolding stock_out_and_release_reservation
  stock_out_and_release-Kept input held n =
      kept_bind _ _
        (committed
          (stock_out_in_transaction list_client s sort env input
            >>= release_if_held list_client s sort env held n)
          (Leads-bind _ _ _ (stock_out_transaction-Off s sort env input)
            (release-Off s sort env held n)))
        λ result.
          logged
            (λ d. record d {
              audit = d.audit ++ (AuditEntry.stock_released_for input.reference_id ∷ []);
            })
            result (λ d. (refl, refl))

  adjust_stock-Kept :
      (input : StockAdjustmentInput) → Keeps BooksKept (adjust_stock list_client s sort env input)
  unfolding adjust_stock
  adjust_stock-Kept input = kept_bind _ _ (with_reference input.reference_id) λ n.
      kept_bind _ _
        (Keeps-throw_if BooksKept BooksKept-IsPreorder (is_zero input.quantity_delta)
          (bad_request "Quantity delta must not be zero"))
        λ u.
          kept_bind _ (log_adjustment list_client s sort env input)
            (committed (adjust_in_transaction list_client s sort env input n)
              (adjust_transaction-Off s sort env input n))
            λ result. record {
              holds = λ d.
                  same_books d (log_adjustment list_client s sort env input result d).1
                    (refl, refl);
            }

  reserve_stock-Kept :
      (input : StockReservationInput) → Keeps BooksKept (reserve_stock list_client s env input)
  unfolding reserve_stock
  reserve_stock-Kept input = kept_bind _ _ (with_reference input.reference_id) λ n.
      kept_bind _ _ (some_quantity input.quantity) λ u.
        concluded (reserve_in_transaction list_client s env input n)
          (reserve_outcome list_client s env input) (λ r. ground arith)
          (reserve_transaction-Off s env input n)

  release_stock-Kept :
      (input : StockReservationInput)
      → Keeps BooksKept (release_reserved_stock list_client s env input)
  unfolding release_reserved_stock
  release_stock-Kept input = kept_bind _ _ (with_reference input.reference_id) λ n.
      kept_bind _ _ (some_quantity input.quantity) λ u.
        kept_bind _ (log_stock list_client s env (AuditEntry.stock_released input.product_id))
          (committed (release_in_transaction list_client s env input n)
            (release_transaction-Off s env input n))
          λ result. record {
            holds = λ d.
                same_books d
                  (log_stock list_client s env (AuditEntry.stock_released input.product_id) result
                    d).1
                  (refl, refl);
          }

calls_kept :
    (s : StockServices) (sort : OrderBy) (calls : List StockCall) (d : Db)
    → Balanced d
    → Balanced (run_stock_calls list_client s sort calls d)
calls_kept s sort [] d h = h
calls_kept s sort (come_in env input ∷ rest) d h =
    calls_kept s sort rest _ (((stock_in-Kept s sort env input).holds d).kept h)
calls_kept s sort (go_out env input ∷ rest) d h =
    calls_kept s sort rest _ (((stock_out-Kept s sort env input).holds d).kept h)
calls_kept s sort (go_out_and_release env input held n ∷ rest) d h =
    calls_kept s sort rest _ (((stock_out_and_release-Kept s sort env input held n).holds d).kept h)
calls_kept s sort (adjust env input ∷ rest) d h =
    calls_kept s sort rest _ (((adjust_stock-Kept s sort env input).holds d).kept h)
calls_kept s sort (reserve env input ∷ rest) d h =
    calls_kept s sort rest _ (((reserve_stock-Kept s sort env input).holds d).kept h)
calls_kept s sort (release env input ∷ rest) d h =
    calls_kept s sort rest _ (((release_stock-Kept s sort env input).holds d).kept h)

-- If the stock on hand is what the batches hold, all products together, and no two rows are of the
-- same stock item or are the own rows of the same product, then both hold after any sequence of calls to bring stock
-- in, take it out, take it out and release its reservation, adjust it, reserve it and release it, whether each succeeds or fails,
-- whatever order the database sorts batches in.
pub stock_calls-Balanced :
    {p : Prisma}
    → Laws p
    → (s : StockServices) (sort : OrderBy) (calls : List StockCall) (d : Db)
    → on_hand d.items ≡ in_batches d.batches
    → OneEach d.items
    → let d' = run_stock_calls p s sort calls d in
      (on_hand d'.items ≡ in_batches d'.batches) × OneEach d'.items
stock_calls-Balanced laws s sort calls d h one =
    let kept = calls_kept s sort calls d (record { tally = omega (arith, h); one_each = one }) in
    rw (client-eq laws) (omega (arith, kept.tally), kept.one_each)
