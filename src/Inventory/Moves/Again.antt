-- ===== src/Inventory/Moves/Again.antt =====
-- `stockIn` that is asked for again with the same event key.
use central_backend_e_commer.Prelude.{
  ℕ, ◌≡◌, ◌⊎◌, if◌then◌else◌, ◌==◌, ◌||◌, map, refl, Bool, true, false, none, some, List, [], ◌∷◌,
  ◌++◌, arith, leb, not, inl, inr, any, opt_eq, Bool-cases,
}
use central_backend_e_commer.Action.{
  throw, unique_violation, throw_if, gets, Action, Result, Error, ok, err, bad_request,
}
use central_backend_e_commer.Action.Leads.{
  Leads, Returns, Leads-bind, Leads-return, Leads-gets, Leads-or_throw, Leads-any, Leads-found_as,
  committed_returns,
}
use central_backend_e_commer.Prisma.{Prisma, Laws, list_client, client-eq, commit, first}
use central_backend_e_commer.Prisma.Keys.{first-append}
use central_backend_e_commer.Schema.{Event, InventorySerial, Db, Env, InventoryMovement}
use central_backend_e_commer.EventBus.{publish}
use central_backend_e_commer.Inventory.Books.Steps.{returned}
use central_backend_e_commer.Inventory.Queries.{
  create_serials, upsert_item, create_batch, increment_item_quantity, find_item_by_identity,
  create_movement, find_movement_by_event_key, shares_key,
}
use central_backend_e_commer.Inventory.Services.{
  to_non_negative_decimal, ensure_serial_count, is_empty, user_none, identity_lookup, StockServices,
}
use central_backend_e_commer.Inventory.Identity.{ResolvedIdentity, resolve_for_write}
use central_backend_e_commer.Inventory.Moves.{
  write_of_in, assert_inbound_configuration, serial_of, batch_of, movement_in, moved_payload,
  create_serials_if_provided, register_assets_if_provided, StockInInput, StockInResult, stock_in,
  stock_in_in_transaction, stock_in_anew, stock_in_resolved, stock_in_checked, stock_in_outcome,
  processed_movement, replayed_in,
}

unclaimed :
    (k : ℕ) (t : List InventoryMovement)
    → any (λ x. shares_key (some k) x.event_key) t ≡ false
    → first (λ x. opt_eq x.event_key (some k)) t ≡ none
unclaimed k [] h = refl
unclaimed k (x ∷ t) h = ground (arith, unclaimed k t)

create_serials_same :
    (env : Env) (rows : List InventorySerial) (d : Db)
    → (create_serials list_client env rows d).1.movements ≡ d.movements
create_serials_same env [] d = refl
create_serials_same env (r ∷ rest) d =
    elim (Bool-cases (any (λ x. x.serial_number == r.serial_number) d.serials)) [
      | inl m ↦ rw (m, create_serials) refl
      | inr m ↦
          rw (m, create_serials)
            (create_serials_same env rest (record d { serials = d.serials ++ (r ∷ []) }))
    ]

module _ (s : StockServices) (env : Env) where
  -- The movement that the key names.
  abbrev pub Recorded : ℕ → InventoryMovement → Db → Type 0
  Recorded k m d = find_movement_by_event_key list_client env k d ≡ some m

  pub recorded :
      (k : ℕ) (m : InventoryMovement)
      → m.event_key ≡ some k
      → (P : Db → Type 0) → Leads P (create_movement list_client env m) (λ m' d. Recorded k m' d)
  recorded k m e P = record {
    holds = λ d h. made d (Bool-cases (any (λ x. shares_key m.event_key x.event_key) d.movements));
  }
    where
      made :
          (d : Db)
          → (any (λ x. shares_key m.event_key x.event_key) d.movements ≡ true)
            ⊎ (any (λ x. shares_key m.event_key x.event_key) d.movements ≡ false)
          → Returns (Recorded k) (create_movement list_client env m d)
      made d (inl x) = rw (x, Returns) tt
      made d (inr x) =
          rw (x, Returns)
            (let fresh = unclaimed k d.movements (rw e at x) in
              ground (arith, first-append (λ y. opt_eq y.event_key (some k)) d.movements (m ∷ [])))

  -- What leaves the movements alone keeps a recorded one.
  pub kept :
      {A : Type 0} (k : ℕ) (m : InventoryMovement) (action : Action Db A)
      → ((d : Db) → (action d).1.movements ≡ d.movements)
      → Leads (Recorded k m) action (λ _. Recorded k m)
  kept k m action same = record {
    holds = λ d h. returned (Recorded k m) (action d) (rw (same d) h);
  }

  serials-same :
      (input : StockInInput) (r : ResolvedIdentity) (d : Db)
      → (create_serials_if_provided list_client s env input r d).1.movements ≡ d.movements
  serials-same input r d =
      elim (Bool-cases (is_empty input.serial_numbers || not (is_empty input.assets))) [
        | inl m ↦ rw m refl
        | inr m ↦ rw m (
            create_serials_same env
              (map (serial_of input.product_id r.stock_item_id) input.serial_numbers) d)
      ]

  resolved-Recorded :
      (input : StockInInput) (n cost k : ℕ) (r : ResolvedIdentity)
      → input.event_key ≡ some k
      → Leads
          (λ _. Unit {0})
          (stock_in_resolved list_client s env input n cost r)
          (λ result. Recorded k result.movement)
  unfolding stock_in_resolved
  resolved-Recorded input n cost k r e =
      Leads-bind _ _ _ (Leads-any (upsert_item list_client env (identity_lookup r))) λ before.
        Leads-bind _ _ _ (Leads-any (gets (λ d. d.drawn))) λ drawn.
          Leads-bind _ _ _
            (Leads-any (create_batch list_client env (batch_of env drawn input r cost)))
            λ batch.
              Leads-bind _ _ _
                (Leads-any
                  (increment_item_quantity list_client env (identity_lookup r) r.base_quantity))
                λ u.
                  Leads-bind _ _ _
                    (Leads-any (
                      register_assets_if_provided list_client s env r batch.id input.quantity
                        input.assets))
                    λ v. Leads-bind _ _ _ (Leads-any (gets (λ d. d.drawn))) λ next.
                      Leads-bind _ _ _ (recorded k (movement_in env next input n r cost) e _) λ m.
                        Leads-bind _ _ _
                          (Leads-gets (find_item_by_identity list_client env (identity_lookup r)))
                          λ item.
                            Leads-bind _ _ _
                              (kept k m (create_serials_if_provided list_client s env input r)
                                (serials-same input r))
                              λ w.
                                Leads-bind _ _ _
                                  (kept k m
                                    (publish list_client env user_none (
                                      Event.inventory_stock_in
                                        (moved_payload m item (some batch.id) [] none)))
                                    (λ d. refl))
                                  λ x.
                                    Leads-return
                                      (record {
                                        before_item = some before;
                                        item = item;
                                        batch = some batch;
                                        movement = m;
                                        already_processed = false;
                                      })
                                      (λ d h. h)

  checked-Recorded :
      (input : StockInInput) (n cost k : ℕ)
      → input.event_key ≡ some k
      → Leads
          (λ _. Unit {0})
          (stock_in_checked list_client s env input n cost)
          (λ result. Recorded k result.movement)
  unfolding stock_in_anew
  checked-Recorded input n cost k e =
      Leads-found_as (processed_movement list_client s env input.event_key)
        (λ m d. (ok (replayed_in list_client s env input m d), d))
        (stock_in_anew list_client s env input n cost) (λ m d found h. rw e at found)
        (Leads-bind _ _ _
          (Leads-any (resolve_for_write list_client (write_of_in list_client s env input)))
          λ r.
            Leads-bind _ _ _
              (Leads-any (
                assert_inbound_configuration list_client s env r input.quantity input.unit_id
                  (some input.batch_code) input.expiry_date input.reference_type
                  input.serial_numbers input.assets))
              λ u. resolved-Recorded input n cost k r e)

  transaction-Recorded :
      (input : StockInInput) (k : ℕ)
      → input.event_key ≡ some k
      → Leads
          (λ _. Unit {0})
          (stock_in_in_transaction list_client s env input)
          (λ result. Recorded k result.movement)
  unfolding stock_in_in_transaction
  transaction-Recorded input k e =
      Leads-bind _ _ _ (Leads-or_throw input.reference_id (bad_request "Reference ID is required"))
        λ n.
          Leads-bind _ _ _
            (Leads-any
              (throw_if (leb input.quantity 0) (bad_request "Quantity must be greater than zero")))
            λ u. Leads-bind _ _ _ (Leads-any (to_non_negative_decimal input.unit_cost)) λ cost.
              Leads-bind _ _ _ (Leads-any (ensure_serial_count input.serial_numbers input.quantity))
                λ v. checked-Recorded input n cost k e

  either :
      (k : ℕ) (c : Bool) (result : StockInResult) (d d' : Db)
      → d'.movements ≡ d.movements
      → Recorded k result.movement d
      → Returns
          (λ result. Recorded k result.movement)
          (if c then (ok result, d) else (ok result, d'))
  either k true result d d' same h = h
  either k false result d d' same h = rw same h

  outcome-Recorded :
      (input : StockInInput) (k : ℕ)
      → input.event_key ≡ some k
      → (r : Result StockInResult × Db) → Returns (λ result. Recorded k result.movement) r
      → Returns (λ result. Recorded k result.movement) (stock_in_outcome list_client s env input r)
  outcome-Recorded input k e (ok result, d) h = either k result.already_processed result d _ refl h
  outcome-Recorded input k e (err Error.unique_violation, d) h =
      (Leads-found_as {P = λ _. Unit {0}} (processed_movement list_client s env input.event_key)
          (λ m d. (ok (replayed_in list_client s env input m d), d)) (throw unique_violation)
          (λ m d found h. rw e at found) (record { holds = λ d h. tt })).holds
        d tt
  outcome-Recorded input k e (err x, d) h = tt

  -- What `stockIn` returned with is recorded under its key.
  returned-Recorded :
      (input : StockInInput) (k : ℕ)
      → input.event_key ≡ some k
      → Leads
          (λ _. Unit {0})
          (stock_in list_client s env input)
          (λ result. Recorded k result.movement)
  unfolding stock_in
  returned-Recorded input k e =
      Leads-bind _ _ _ (Leads-or_throw input.reference_id (bad_request "Reference ID is required"))
        λ n.
          Leads-found_as (processed_movement list_client s env input.event_key)
            (λ m d. (ok (replayed_in list_client s env input m d), d))
            (λ d.
              stock_in_outcome list_client s env input
                (commit d (stock_in_in_transaction list_client s env input d)))
            (λ m d found h. rw e at found)
            (record {
              holds = λ d h. outcome-Recorded input k e _ (
                  committed_returns (stock_in_in_transaction list_client s env input)
                    (transaction-Recorded input k e) d h);
            })

  -- And a recorded key is answered from the record.
  answered :
      (input : StockInInput) (n k : ℕ) (m : InventoryMovement) (d : Db)
      → input.event_key ≡ some k
      → input.reference_id ≡ some n
      → Recorded k m d
      → stock_in list_client s env input d ≡ (ok (replayed_in list_client s env input m d), d)
  unfolding stock_in
  answered input n k m d e reference h = rw (reference, e, h) refl

pub returned_with :
    {A : Type 0} (Q : A → Db → Type 0) (r : Result A × Db) (a : A)
    → r.0 ≡ ok a
    → Returns Q r
    → Q a r.1
returned_with Q (r, d) a e h = rw (e, Returns) at h

-- If a request to bring stock in with an event key returned, a request with the same key and a
-- reference that is made at any later time returns the movement of the first, marked as already processed, and
-- changes nothing.
pub stock_in_again :
    {p : Prisma}
    → Laws p
    → (s : StockServices) (env later : Env) (input again : StockInInput) (k n : ℕ) (d : Db)
      (result : StockInResult)
    → input.event_key ≡ some k
    → again.event_key ≡ some k
    → again.reference_id ≡ some n
    → (stock_in p s env input d).0 ≡ ok result
    → let d' = (stock_in p s env input d).1 in
      stock_in p s later again d' ≡ (ok (replayed_in p s later again result.movement d'), d')
stock_in_again laws s env later input again k n d result e e' reference done = rw (client-eq laws) (
    let first_time = rw (client-eq laws) at done in
    answered s later again n k result.movement (stock_in list_client s env input d).1 e' reference (
      returned_with (λ result. Recorded s env k result.movement)
        (stock_in list_client s env input d) result first_time
        ((returned-Recorded s env input k e).holds d tt)))
