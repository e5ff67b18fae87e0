-- ===== src/Inventory/Moves/Books.antt =====
-- What the transaction of `stockIn` does to the balance of the books.
use central_backend_e_commer.Prelude.{
  ℕ, ◌≡◌, refl, ◌==◌, ◌++◌, ◌||◌, any, inl, inr, Bool-cases, false, Option, none, some, List, [],
  ◌∷◌, arith, leb, not, map,
}
use central_backend_e_commer.Prelude.Int.{ℤ, pos, negsuc}
use central_backend_e_commer.Action.{Action, Result, ok, bad_request}
use central_backend_e_commer.Action.Leads.{
  Leads, Leads-bind, Leads-pure, Leads-gets, Leads-test, Leads-or_throw, Leads-found,
}
use central_backend_e_commer.Prisma.{list_client}
use central_backend_e_commer.Schema.{
  Event, Db, Env, InventorySerial, InventoryMovement, ReferenceType, BatchCode,
}
use central_backend_e_commer.EventBus.{publish}
use central_backend_e_commer.Inventory.Queries.{
  create_serials, create_movement, find_item_by_identity,
}
use central_backend_e_commer.Inventory.Identity.{ResolvedIdentity}
use central_backend_e_commer.Inventory.Services.{
  StockServices, identity_lookup, serial_count_fits, to_non_negative_decimal, is_empty, user_none,
}
use central_backend_e_commer.Inventory.Moves.{
  serial_of, moved_payload, StockInInput, StockInResult, write_of_in, batch_of, movement_in,
  create_serials_if_provided, register_assets_if_provided, assert_inbound_configuration,
  stock_in_resolved, stock_in_anew, stock_in_checked, stock_in_in_transaction, stock_in_outcome,
  processed_movement, replayed_in,
}
use central_backend_e_commer.Inventory.Books.{Off}
use central_backend_e_commer.Inventory.Books.Steps.{
  Aside, Aside-Off, upsert-OffAt, create_batch-OffAt, increment-OffAt, resolve-Aside,
}

create_serials_same :
    (env : Env) (rows : List InventorySerial) (d : Db)
    → let d' = (create_serials list_client env rows d).1 in
      (d'.items ≡ d.items) × (d'.batches ≡ d.batches)
create_serials_same env [] d = (refl, refl)
create_serials_same env (r ∷ rest) d =
    elim (Bool-cases (any (λ x. x.serial_number == r.serial_number) d.serials)) [
      | inl m ↦ rw (m, create_serials) (refl, refl)
      | inr m ↦
          rw (m, create_serials)
            (create_serials_same env rest (record d { serials = d.serials ++ (r ∷ []) }))
    ]

module _ (s : StockServices) (env : Env) where
  abbrev pub aside_of :
      {A : Type 0} (m : Action Db A)
      → ((d : Db) → ((m d).1.items ≡ d.items) × ((m d).1.batches ≡ d.batches))
      → Aside m
  aside_of m h = record { items = λ d. (h d).0; batches = λ d. (h d).1 }

  pub inbound-Aside :
      (r : ResolvedIdentity) (q : ℕ) (unit : Option ℕ) (code : Option BatchCode) (expiry : Option ℕ)
      (type : Option ReferenceType) (serials assets : List ℕ)
      → Aside
          (assert_inbound_configuration list_client s env r q unit code expiry type serials assets)
  inbound-Aside r q unit code expiry type serials assets = aside_of _ (λ d. ground arith)

  pub register-Aside :
      (r : ResolvedIdentity) (batch_id q : ℕ) (assets : List ℕ)
      → Aside (register_assets_if_provided list_client s env r batch_id q assets)
  register-Aside r batch_id q assets = aside_of _ (λ d. ground arith)

  serials-Aside :
      (input : StockInInput) (r : ResolvedIdentity)
      → Aside (create_serials_if_provided list_client s env input r)
  serials-Aside input r = aside_of _ (λ d.
      elim (Bool-cases (is_empty input.serial_numbers || not (is_empty input.assets))) [
        | inl m ↦ rw m (refl, refl)
        | inr m ↦ rw m (
            create_serials_same env
              (map (serial_of input.product_id r.stock_item_id) input.serial_numbers) d)
      ])

  pub movement-Aside : (m : InventoryMovement) → Aside (create_movement list_client env m)
  movement-Aside m = aside_of _ (λ d. ground arith)

  publish-Aside : (e : Event) → Aside (publish list_client env user_none e)
  publish-Aside e = aside_of _ (λ d. (refl, refl))

  pub to_decimal-Aside : (c : ℤ) → Aside (to_non_negative_decimal c)
  to_decimal-Aside (pos n) = aside_of _ (λ d. (refl, refl))
  to_decimal-Aside (negsuc n) = aside_of _ (λ d. (refl, refl))

  stock_in_resolved-Off :
      (input : StockInInput) (n cost : ℕ) (r : ResolvedIdentity)
      → Leads (Off 0 0) (stock_in_resolved list_client s env input n cost r) (λ _. Off 0 0)
  unfolding stock_in_resolved
  stock_in_resolved-Off input n cost r =
      Leads-bind _ _ _ (upsert-OffAt env (identity_lookup r) 0 0) λ before.
        Leads-bind _ _ _ (Leads-gets (λ d. d.drawn)) λ drawn.
          Leads-bind _ _ _
            (create_batch-OffAt env (batch_of env drawn input r cost) (identity_lookup r))
            λ batch. Leads-bind _ _ _ (increment-OffAt env (identity_lookup r) r.base_quantity) λ u.
              Leads-bind _ _ _
                (Aside-Off 0 0 _ (register-Aside r batch.id input.quantity input.assets))
                λ v. Leads-bind _ _ _ (Leads-gets (λ d. d.drawn)) λ next.
                  Leads-bind _ _ _
                    (Aside-Off 0 0 _ (movement-Aside (movement_in env next input n r cost)))
                    λ m.
                      Leads-bind _ _ _
                        (Leads-gets (find_item_by_identity list_client env (identity_lookup r)))
                        λ item. Leads-bind _ _ _ (Aside-Off 0 0 _ (serials-Aside input r)) λ w.
                          Leads-bind _ _ _
                            (Aside-Off 0 0 _ (
                              publish-Aside (
                                Event.inventory_stock_in
                                  (moved_payload m item (some batch.id) [] none))))
                            λ x. Leads-pure (record {
                              before_item = some before;
                              item = item;
                              batch = some batch;
                              movement = m;
                              already_processed = false;
                            })

  stock_in_anew-Off :
      (input : StockInInput) (n cost : ℕ)
      → Leads (Off 0 0) (stock_in_anew list_client s env input n cost) (λ _. Off 0 0)
  unfolding stock_in_anew
  stock_in_anew-Off input n cost =
      Leads-bind _ _ _ (Aside-Off 0 0 _ (resolve-Aside (write_of_in list_client s env input))) λ r.
        Leads-bind _ _ _
          (Aside-Off 0 0 _ (
            inbound-Aside r input.quantity input.unit_id (some input.batch_code) input.expiry_date
              input.reference_type input.serial_numbers input.assets))
          λ u. stock_in_resolved-Off input n cost r

  checked-Off :
      (input : StockInInput) (n cost : ℕ)
      → Leads (Off 0 0) (stock_in_checked list_client s env input n cost) (λ _. Off 0 0)
  checked-Off input n cost =
      Leads-found (processed_movement list_client s env input.event_key)
        (λ m d. (ok (replayed_in list_client s env input m d), d)) _
        (λ m. record { holds = λ d h. h }) (stock_in_anew-Off input n cost)

  pub stock_in_transaction-Off :
      (input : StockInInput)
      → Leads (Off 0 0) (stock_in_in_transaction list_client s env input) (λ _. Off 0 0)
  unfolding stock_in_in_transaction
  stock_in_transaction-Off input =
      Leads-bind _ _ _ (Leads-or_throw input.reference_id (bad_request "Reference ID is required"))
        λ n.
          Leads-bind (λ _. Off 0 0) _ _
            (Leads-test (leb input.quantity 0) (bad_request "Quantity must be greater than zero"))
            λ u. Leads-bind _ _ _ (Aside-Off 0 0 _ (to_decimal-Aside input.unit_cost)) λ cost.
              Leads-bind (λ _. Off 0 0) _ _
                (Leads-test (not (serial_count_fits input.serial_numbers input.quantity))
                  (bad_request "Serial number count must match quantity"))
                λ v. checked-Off input n cost

  pub stock_in_outcome_same :
      (input : StockInInput) (r : Result StockInResult × Db)
      → let d' = (stock_in_outcome list_client s env input r).1 in
        (d'.items ≡ r.1.items) × (d'.batches ≡ r.1.batches)
  stock_in_outcome_same input r = ground arith
