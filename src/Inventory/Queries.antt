-- ===== src/Inventory/Queries.antt =====
-- `InventoryRepository`, each query on the tables of the database.
use central_backend_e_commer.Prelude.{
  ℕ, ◌+◌, ◌-◌, Bool, true, false, Option, none, some, List, [], ◌∷◌, any, ◌&&◌, ltb, leb, ◌==◌,
  opt_eq,
}
use central_backend_e_commer.Action.{Action, ok, err, unique_violation, record_not_found}
use central_backend_e_commer.Prisma.{Prisma, OrderBy}
use central_backend_e_commer.Schema.{
  Db, Env, InventoryItem, InventoryBatch, InventoryMovement, InventorySerial, SerialStatus,
  ReferenceType, InventoryReservation, ReservationStatus,
}

-- `InventoryIdentityLookup`: a stock item where there is one, and else the product's own row.
pub record Identity : Type 0 where
  pub product_id : ℕ
  pub stock_item_id : Option ℕ

-- `itemWhereInput`
abbrev pub item_where : Identity → InventoryItem → Bool
item_where i r = elim i.stock_item_id [
  | some s ↦ opt_eq r.stock_item_id (some s)
  | none ↦ r.product_id == i.product_id && opt_eq r.stock_item_id none
]

-- `stockItemFilter`: `undefined` asks for nothing, `null` and an identifier for themselves.
abbrev pub stock_item_filter : Option (Option ℕ) → Option ℕ → Bool
stock_item_filter none s = true
stock_item_filter (some wanted) s = opt_eq s wanted

abbrev pub is_active : ReservationStatus → Bool
is_active ReservationStatus.active = true
is_active ReservationStatus.released = false

-- Two values of a unique column that are the same; `null` is unlike any.
abbrev pub shares_key : Option ℕ → Option ℕ → Bool
shares_key none _ = false
shares_key (some a) b = opt_eq (some a) b

abbrev pub reference_type_code : ReferenceType → ℕ
reference_type_code ReferenceType.order = 0
reference_type_code ReferenceType.purchase = 1
reference_type_code ReferenceType.adjustment = 2
reference_type_code ReferenceType.returned = 3

abbrev pub same_reference_type : ReferenceType → ReferenceType → Bool
same_reference_type a b = reference_type_code a == reference_type_code b

abbrev pub serial_status_code : SerialStatus → ℕ
serial_status_code SerialStatus.available = 0
serial_status_code SerialStatus.sold = 1
serial_status_code SerialStatus.returned = 2

abbrev pub same_serial_status : SerialStatus → SerialStatus → Bool
same_serial_status a b = serial_status_code a == serial_status_code b

abbrev pub head_of : {A : Type 0} → List A → Option A
head_of [] = none
head_of (x ∷ xs) = some x

abbrev pub is_expiring : ℕ → Option ℕ → Bool
is_expiring now none = false
is_expiring now (some t) = ltb now t

abbrev pub never_expires : Option ℕ → Bool
never_expires none = true
never_expires (some t) = false

module _ (p : Prisma) (env : Env) where
  abbrev pub find_item_by_identity : Identity → Db → Option InventoryItem
  find_item_by_identity i d = p.find_first InventoryItem (item_where i) d.items

  -- `upsertItem`: the row, made with nothing on hand where there is none. The lock on the product
  -- holds other transactions back.
  abbrev pub upsert_item : Identity → Action Db InventoryItem
  upsert_item i d = elim (find_item_by_identity i d) [
    | some r ↦ (ok r, d)
    | none ↦
        let new : InventoryItem = record {
          id = env.uuid d.drawn;
          product_id = i.product_id;
          stock_item_id = i.stock_item_id;
          quantity_on_hand = 0;
          reserved_quantity = 0;
        } in
        (ok new, record d { items = p.insert InventoryItem new d.items; drawn = d.drawn + 1 })
  ]

  abbrev update_items : (InventoryItem → Bool) → (InventoryItem → InventoryItem) → Action Db ℕ
  update_items c f d =
      let (count, t) = p.update_many InventoryItem c f d.items in (ok count, record d { items = t })

  -- By the unique stock item where there is one, and else on the product's own rows.
  abbrev pub increment_item_quantity : Identity → ℕ → Action Db (Unit {0})
  increment_item_quantity i q d = elim i.stock_item_id [
    | some s ↦
        elim (p.update InventoryItem (λ r. opt_eq r.stock_item_id (some s))
          (λ r. record r { quantity_on_hand = r.quantity_on_hand + q }) d.items) [
            | none ↦ (err record_not_found, d)
            | some (r, t) ↦ (ok tt, record d { items = t })
          ]
    | none ↦
        let (count, t) =
          p.update_many InventoryItem
            (λ r. r.product_id == i.product_id && opt_eq r.stock_item_id none)
            (λ r. record r { quantity_on_hand = r.quantity_on_hand + q }) d.items in
        (ok tt, record d { items = t })
  ]

  abbrev pub decrement_item_quantity : Identity → ℕ → Action Db ℕ
  decrement_item_quantity i q =
      update_items (λ r. item_where i r && leb q r.quantity_on_hand)
        (λ r. record r { quantity_on_hand = r.quantity_on_hand - q })

  -- `(quantity_on_hand - reserved_quantity) >= q`, in a column that has negative numbers
  abbrev pub reserve_item_quantity : Identity → ℕ → Action Db ℕ
  reserve_item_quantity i q =
      update_items (λ r. item_where i r && leb (q + r.reserved_quantity) r.quantity_on_hand)
        (λ r. record r { reserved_quantity = r.reserved_quantity + q })

  abbrev pub release_reserved_quantity : Identity → ℕ → Action Db ℕ
  release_reserved_quantity i q =
      update_items (λ r. item_where i r && leb q r.reserved_quantity)
        (λ r. record r { reserved_quantity = r.reserved_quantity - q })

  abbrev pub decrement_batch_quantity : ℕ → ℕ → Action Db ℕ
  decrement_batch_quantity id q d =
      let (count, t) =
        p.update_many InventoryBatch (λ b. b.id == id && leb q b.quantity_remaining)
          (λ b. record b { quantity_remaining = b.quantity_remaining - q }) d.batches in
      (ok count, record d { batches = t })

  abbrev pub find_expiring_batches : ℕ → Option (Option ℕ) → Db → List InventoryBatch
  find_expiring_batches product_id s d =
      p.find_many InventoryBatch
        (λ b.
          b.product_id == product_id
          && stock_item_filter s b.stock_item_id
          && is_expiring env.now b.expiry_date
          && ltb 0 b.quantity_remaining)
        d.batches

  abbrev pub find_non_expiring_batches : ℕ → Option (Option ℕ) → Db → List InventoryBatch
  find_non_expiring_batches product_id s d =
      p.find_many InventoryBatch
        (λ b.
          b.product_id == product_id
          && stock_item_filter s b.stock_item_id
          && never_expires b.expiry_date
          && ltb 0 b.quantity_remaining)
        d.batches

  abbrev pub create_batch : InventoryBatch → Action Db InventoryBatch
  create_batch b d =
      (ok b, record d { batches = p.insert InventoryBatch b d.batches; drawn = d.drawn + 1 })

  abbrev pub create_movement : InventoryMovement → Action Db InventoryMovement
  create_movement m d =
      elim (p.create InventoryMovement (λ x. shares_key m.event_key x.event_key) m d.movements) [
        | none ↦ (err unique_violation, d)
        | some t ↦ (ok m, record d { movements = t; drawn = d.drawn + 1 })
      ]

  abbrev pub find_movement_by_event_key : ℕ → Db → Option InventoryMovement
  find_movement_by_event_key k d =
      p.find_first InventoryMovement (λ m. opt_eq m.event_key (some k)) d.movements

  abbrev pub find_latest_movement_by_reference :
      OrderBy → ℕ → ReferenceType → ℕ → Option ℕ → Db → Option InventoryMovement
  find_latest_movement_by_reference sort product_id type reference_id s d = head_of (
      sort InventoryMovement (λ a b. leb b.created_at a.created_at)
        (p.find_many InventoryMovement
          (λ m.
            m.product_id == product_id
            && stock_item_filter (some s) m.stock_item_id
            && same_reference_type m.reference_type type
            && m.reference_id == reference_id)
          d.movements))

  abbrev pub find_latest_batch_with_cost : OrderBy → ℕ → Option ℕ → Db → Option InventoryBatch
  find_latest_batch_with_cost sort product_id s d = head_of (
      sort InventoryBatch (λ a b. leb b.created_at a.created_at)
        (p.find_many InventoryBatch
          (λ b. b.product_id == product_id && stock_item_filter (some s) b.stock_item_id)
          d.batches))

  -- `createMany`, row by row; it throws, and its transaction rolls back, at a number that is there.
  abbrev pub create_serials : List InventorySerial → Action Db (Unit {0})
  create_serials [] d = (ok tt, d)
  create_serials (r ∷ rest) d =
      elim (p.create InventorySerial (λ x. x.serial_number == r.serial_number) r d.serials) [
        | none ↦ (err unique_violation, d)
        | some t ↦ create_serials rest (record d { serials = t })
      ]

  -- The rows of a product, and of its stock item if there is one, with one of the numbers.
  abbrev serial_where : ℕ → List ℕ → Option ℕ → InventorySerial → Bool
  serial_where product_id numbers s r =
      r.product_id == product_id
      && elim s [ none ↦ true | some x ↦ opt_eq r.stock_item_id (some x) ]
      && any (λ n. n == r.serial_number) numbers

  abbrev pub mark_serials_sold : ℕ → List ℕ → ℕ → Option ℕ → Action Db ℕ
  mark_serials_sold product_id numbers reference_id s d =
      let (count, t) =
        p.update_many InventorySerial
          (λ r.
            serial_where product_id numbers s r
            && same_serial_status r.status SerialStatus.available)
          (λ r. record r { status = SerialStatus.sold; reference_id = some reference_id })
          d.serials in
      (ok count, record d { serials = t })

  abbrev pub mark_serials_available : ℕ → List ℕ → Option ℕ → Action Db ℕ
  mark_serials_available product_id numbers s d =
      let (count, t) =
        p.update_many InventorySerial
          (λ r.
            serial_where product_id numbers s r && same_serial_status r.status SerialStatus.sold)
          (λ r. record r { status = SerialStatus.available; reference_id = none }) d.serials in
      (ok count, record d { serials = t })

  abbrev pub find_reservation_by_key : ℕ → Db → Option InventoryReservation
  find_reservation_by_key k d =
      p.find_first InventoryReservation (λ r. r.reservation_key == k) d.reservations

  abbrev pub create_reservation : InventoryReservation → Action Db (Unit {0})
  create_reservation r d =
      elim (p.create InventoryReservation (λ x. x.reservation_key == r.reservation_key) r
        d.reservations) [
          | none ↦ (err unique_violation, d)
          | some t ↦ (ok tt, record d { reservations = t; drawn = d.drawn + 1 })
        ]

  abbrev pub release_reservation : ℕ → Action Db ℕ
  release_reservation k d =
      let (count, t) =
        p.update_many InventoryReservation (λ r. r.reservation_key == k && is_active r.status)
          (λ r. record r { status = ReservationStatus.released; released_at = some env.now })
          d.reservations in
      (ok count, record d { reservations = t })
