-- ===== src/Inventory/Reserve/History.antt =====
-- Any requests to reserve and to release, one after the other.
use central_backend_e_commer.Prelude.{ℕ, ◌≡◌, refl, Option, none, some, List, [], ◌∷◌, arith, leb}
use central_backend_e_commer.Action.{Result, ok, err, Error, bad_request}
use central_backend_e_commer.Action.Keeps.{
  Keeps, Keeps-if, Keeps-bind, Keeps-or_throw, Keeps-throw_if, Keeps-commit,
}
use central_backend_e_commer.Prisma.{Prisma, Laws, list_client, client-eq, commit}
use central_backend_e_commer.Schema.{Db, Env, InventoryItem, AuditEntry, InventoryReservation}
use central_backend_e_commer.Inventory.Queries.{
  find_item_by_identity, find_reservation_by_key, is_active,
}
use central_backend_e_commer.Inventory.Reserve.{
  StockReservationInput, StockServices, ReservationResult, reserve_in_transaction, reserve_outcome,
  reserve_stock, log_stock, asked, unchanged, release_held, release_in_transaction,
  release_reserved_stock,
}
use central_backend_e_commer.Inventory.Reserve.Within.{
  Within, on_hand, StockKept, StockKept-IsPreorder, same_items, reserve_anew-Kept,
  release_held-Kept,
}

-- A request: what it asks for, and what it brings along.
pub data Request : Type 0 where
  reserve release : Env → StockReservationInput → Request

abbrev pub run_request : Prisma → StockServices → Request → Db → Db
run_request p s (reserve env input) d = (reserve_stock p s env input d).1
run_request p s (release env input) d = (release_reserved_stock p s env input d).1

abbrev pub run_requests : Prisma → StockServices → List Request → Db → Db
run_requests p s [] d = d
run_requests p s (r ∷ rest) d = run_requests p s rest (run_request p s r d)

reserve_transaction-Kept :
    (s : StockServices) (env : Env) (input : StockReservationInput) (n : ℕ)
    → Keeps StockKept (reserve_in_transaction list_client s env input n)
reserve_transaction-Kept s env input n = record {
  holds = λ d. kept d (find_reservation_by_key list_client env input.reservation_key d) refl;
}
  where
    kept :
        (d : Db) (o : Option InventoryReservation)
        → find_reservation_by_key list_client env input.reservation_key d ≡ o
        → StockKept d (reserve_in_transaction list_client s env input n d).1
    kept d none e = rw (e, reserve_in_transaction) ((reserve_anew-Kept s env input n).holds d)
    kept d (some held) e = rw (e, reserve_in_transaction) (StockKept-IsPreorder.stays d)

release_transaction-Kept :
    (s : StockServices) (env : Env) (input : StockReservationInput) (n : ℕ)
    → Keeps StockKept (release_in_transaction list_client s env input n)
release_transaction-Kept s env input n = record {
  holds = λ d. kept d (find_reservation_by_key list_client env input.reservation_key d) refl;
}
  where
    kept :
        (d : Db) (o : Option InventoryReservation)
        → find_reservation_by_key list_client env input.reservation_key d ≡ o
        → StockKept d (release_in_transaction list_client s env input n d).1
    kept d none e = rw (e, release_in_transaction) (StockKept-IsPreorder.stays d)
    kept d (some held) e =
        let kept_if =
          Keeps-if StockKept StockKept-IsPreorder (is_active held.status)
            (release_held list_client s env input n held)
            (λ x. (
              ok (
                  unchanged list_client s env
                    (find_item_by_identity list_client env (asked input) x)),
              x,
            ))
            (λ h. release_held-Kept s env input n held)
            (λ h. record { holds = StockKept-IsPreorder.stays }) in
        rw (e, release_in_transaction) (ground (arith, kept_if.holds d))

-- Past the transaction no item changes.
outcome-items :
    (s : StockServices) (env : Env) (input : StockReservationInput)
    (r : Result ReservationResult × Db)
    → (reserve_outcome list_client s env input r).1.items ≡ r.1.items
outcome-items s env input (ok r, d) = refl
outcome-items s env input (err (Error.bad_request m), d) = refl
outcome-items s env input (err (Error.not_found m), d) = refl
outcome-items s env input (err (Error.conflict m), d) = refl
outcome-items s env input (err Error.unique_violation, d) = refl
outcome-items s env input (err Error.record_not_found, d) = refl

after_reserve-Kept :
    (s : StockServices) (env : Env) (input : StockReservationInput) (n : ℕ)
    → Keeps StockKept (λ d.
      reserve_outcome list_client s env input
        (commit d (reserve_in_transaction list_client s env input n d)))
after_reserve-Kept s env input n = record {
  holds = λ d.
      let after = commit d (reserve_in_transaction list_client s env input n d) in
      StockKept-IsPreorder.chains d after.1 (reserve_outcome list_client s env input after).1
        (Keeps-commit StockKept StockKept-IsPreorder
          (reserve_in_transaction list_client s env input n)
          (reserve_transaction-Kept s env input n) d)
        (same_items after.1 _ (outcome-items s env input after));
}

after_release-Kept :
    (s : StockServices) (env : Env) (input : StockReservationInput) (n : ℕ)
    → Keeps StockKept (λ d. commit d (release_in_transaction list_client s env input n d))
after_release-Kept s env input n = record {
  holds =
      Keeps-commit StockKept StockKept-IsPreorder (release_in_transaction list_client s env input n)
        (release_transaction-Kept s env input n);
}

log-Kept :
    (s : StockServices) (env : Env)
    (entry : Option InventoryItem → Option InventoryItem → AuditEntry) (r : ReservationResult)
    → Keeps StockKept (log_stock list_client s env entry r)
log-Kept s env entry r = record {
  holds = λ d. same_items d (log_stock list_client s env entry r d).1 refl;
}

reserve-Kept :
    (s : StockServices) (env : Env) (input : StockReservationInput)
    → Keeps StockKept (reserve_stock list_client s env input)
unfolding reserve_stock
reserve-Kept s env input =
    let pre = StockKept-IsPreorder in
    Keeps-bind StockKept pre _ _
      (Keeps-or_throw StockKept pre input.reference_id (bad_request "Reference ID is required"))
      λ n.
        Keeps-bind StockKept pre _ _
          (Keeps-throw_if StockKept pre (leb input.quantity 0)
            (bad_request "Quantity must be greater than zero"))
          λ u. after_reserve-Kept s env input n

release-Kept :
    (s : StockServices) (env : Env) (input : StockReservationInput)
    → Keeps StockKept (release_reserved_stock list_client s env input)
unfolding release_reserved_stock
release-Kept s env input =
    let pre = StockKept-IsPreorder in
    Keeps-bind StockKept pre _ _
      (Keeps-or_throw StockKept pre input.reference_id (bad_request "Reference ID is required"))
      λ n.
        Keeps-bind StockKept pre _ _
          (Keeps-throw_if StockKept pre (leb input.quantity 0)
            (bad_request "Quantity must be greater than zero"))
          λ u.
            Keeps-bind StockKept pre _ _ (after_release-Kept s env input n)
              (log-Kept s env (AuditEntry.stock_released input.product_id))

history_kept :
    (s : StockServices) (requests : List Request) (d : Db)
    → StockKept d (run_requests list_client s requests d)
history_kept s [] d = StockKept-IsPreorder.stays d
history_kept s (reserve env input ∷ rest) d =
    let next = (reserve_stock list_client s env input d).1 in
    StockKept-IsPreorder.chains d next (run_requests list_client s rest next)
      ((reserve-Kept s env input).holds d) (history_kept s rest next)
history_kept s (release env input ∷ rest) d =
    let next = (release_reserved_stock list_client s env input d).1 in
    StockKept-IsPreorder.chains d next (run_requests list_client s rest next)
      ((release-Kept s env input).holds d) (history_kept s rest next)

-- From a table in which no item has more reserved than is on hand, no sequence of requests to
-- reserve and to release, whether they succeed or fail, leads to one where an item has; and the
-- stock on hand stays what it was.
pub history-Within :
    {p : Prisma}
    → Laws p
    → (s : StockServices) (requests : List Request) (d : Db) → Within d.items
    → Within (run_requests p s requests d).items
      × (on_hand (run_requests p s requests d).items ≡ on_hand d.items)
history-Within laws s requests d w =
    let kept = history_kept s requests d in rw (client-eq laws) (kept.within w, kept.same_stock)
