-- ===== src/Inventory/Books/Steps.antt =====
-- What the queries of the stock do to the balance of the books.
use central_backend_e_commer.Prelude.{
  ap, ℕ, ◌+◌, ◌-◌, ◌≤◌, ◌≡◌, refl, inl, inr, Bool, true, false, Option, none, some, List, [], ◌∷◌,
  arith, sum_of-append, leb, not, ◌==◌, ◌&&◌, opt_eq, Option-cases,
}
use central_backend_e_commer.Action.{Action, Result, Error, ok, err, throw_if, ◌>>=◌}
use central_backend_e_commer.Action.Leads.{Leads, Returns}
use central_backend_e_commer.Prisma.{list_client, first, count_where, update_where}
use central_backend_e_commer.Prisma.Totals.{
  count_where-found, count_where-append, sum_of-lowered, sum_of-raised,
}
use central_backend_e_commer.Prisma.Keys.{count_where-none}
use central_backend_e_commer.Schema.{Db, Env, InventoryItem, InventoryBatch}
use central_backend_e_commer.Inventory.Queries.{
  Identity, item_where, find_item_by_identity, upsert_item, increment_item_quantity,
  decrement_item_quantity, create_batch, decrement_batch_quantity,
}
use central_backend_e_commer.Inventory.Identity.{WriteInput, ResolvedIdentity, resolve_for_write}
use central_backend_e_commer.Inventory.Identity.Reads.{resolve-same}
use central_backend_e_commer.Inventory.Services.{StockServices, resolve_outbound_asset_ids}
use central_backend_e_commer.Inventory.Books.{Off, OffAt, update-OneEach, append-OneEach}

-- An action that leaves the items and the batches alone.
pub record Aside {A : Type 0} (m : Action Db A) : Type 0 where
  pub items : (d : Db) → (m d).1.items ≡ d.items
  pub batches : (d : Db) → (m d).1.batches ≡ d.batches

pub returned : {A : Type 0} (P : Db → Type 0) (r : Result A × Db) → P r.1 → Returns (λ _. P) r
returned P (ok a, d) h = h
returned P (err e, d) h = tt

pub Aside-Off :
    {A : Type 0} (short over : ℕ) (m : Action Db A)
    → Aside m
    → Leads (Off short over) m (λ _. Off short over)
Aside-Off short over m a = record {
  holds = λ d h. returned _ (m d) (record {
    tally = rw (a.items d, a.batches d) h.tally;
    one_each = rw (a.items d) h.one_each;
  });
}

pub Aside-OffAt :
    {A : Type 0} (i : Identity) (short over : ℕ) (m : Action Db A)
    → Aside m
    → Leads (OffAt i short over) m (λ _. OffAt i short over)
Aside-OffAt i short over m a = record {
  holds = λ d h. returned _ (m d) (record {
    off = record {
      tally = rw (a.items d, a.batches d) h.off.tally;
      one_each = rw (a.items d) h.off.one_each;
    };
    one = rw (a.items d) h.one;
  });
}

abbrev new_row : Env → Identity → Db → InventoryItem
new_row env i d = record {
  id = env.uuid d.drawn;
  product_id = i.product_id;
  stock_item_id = i.stock_item_id;
  quantity_on_hand = 0;
  reserved_quantity = 0;
}

item_where-own :
    (i : Identity) (r : InventoryItem)
    → r.product_id ≡ i.product_id
    → r.stock_item_id ≡ i.stock_item_id
    → item_where i r ≡ true
item_where-own i r p s = ground arith

-- `upsertItem` leaves one row of the identity, and the books as they were.
pub upserted-OffAt :
    (env : Env) (i : Identity) (short over : ℕ) (d : Db)
    → Off short over d
    → OffAt i short over (upsert_item list_client env i d).1
upserted-OffAt env i short over d h = found d h (find_item_by_identity list_client env i d) refl
  where
    found :
        (d : Db)
        → Off short over d
        → (o : Option InventoryItem) → find_item_by_identity list_client env i d ≡ o
        → OffAt i short over (upsert_item list_client env i d).1
    found d h (some r) e =
        rw (e, upsert_item)
          (record {
            off = h;
            one = omega (arith, h.one_each i, count_where-found (item_where i) d.items r e);
          })
    found d h none e =
        let row = new_row env i d in
        rw (e, upsert_item)
          (record {
            off = record {
              tally =
                  ground
                    (arith, h.tally, sum_of-append (λ r. r.quantity_on_hand) d.items (row ∷ []));
              one_each = append-OneEach i d.items row e refl refl h.one_each;
            };
            one = ground (
              arith,
              count_where-append (item_where i) d.items (row ∷ []),
              count_where-none (item_where i) d.items e,
              item_where-own i row,
            );
          })

pub upsert-OffAt :
    (env : Env) (i : Identity) (short over : ℕ)
    → Leads (Off short over) (upsert_item list_client env i) (λ _. OffAt i short over)
upsert-OffAt env i short over = record {
  holds = λ d h. returned _ (upsert_item list_client env i d) (upserted-OffAt env i short over d h);
}

pub create_batch-OffAt :
    (env : Env) (b : InventoryBatch) (i : Identity)
    → Leads (OffAt i 0 0) (create_batch list_client env b) (λ _. OffAt i b.quantity_remaining 0)
create_batch-OffAt env b i = record {
  holds = λ d h. record {
    off = record {
      tally =
          omega (arith, h.off.tally, sum_of-append (λ x. x.quantity_remaining) d.batches (b ∷ []));
      one_each = h.off.one_each;
    };
    one = h.one;
  };
}

abbrev more : ℕ → InventoryItem → InventoryItem
more q r = record r { quantity_on_hand = r.quantity_on_hand + q }

-- The one row of the identity has as much more.
raised :
    (i : Identity) (q : ℕ) (d : Db)
    → OffAt i q 0 d
    → Off 0 0 (record d { items = update_where (item_where i) (more q) d.items })
raised i q d h = record {
  tally = omega (
    arith,
    h.off.tally,
    sum_of-raised (λ r. r.quantity_on_hand) (item_where i) (more q) q (λ r _. refl) d.items h.one,
  );
  one_each = update-OneEach (item_where i) (more q) (λ _ _. refl) d.items h.off.one_each;
}

pub increment-OffAt :
    (env : Env) (i : Identity) (q : ℕ)
    → Leads (OffAt i q 0) (increment_item_quantity list_client env i q) (λ _. Off 0 0)
increment-OffAt env i q = record { holds = by_identity i.product_id i.stock_item_id }
  where
    by_identity :
        (product_id : ℕ) (s : Option ℕ) (d : Db)
        → let i : Identity = record { product_id = product_id; stock_item_id = s } in
          OffAt i q 0 d → Returns (λ _. Off 0 0) (increment_item_quantity list_client env i q d)
    by_identity product_id none d h = raised _ q d h
    by_identity product_id (some s) d h =
        elim (Option-cases (first (λ r. opt_eq r.stock_item_id (some s)) d.items)) [
          | inl e ↦ rw (e, Returns, increment_item_quantity) tt
          | inr e ↦ rw (e.1, Returns, increment_item_quantity) (raised _ q d h)
        ]

abbrev fewer : ℕ → InventoryItem → InventoryItem
fewer q r = record r { quantity_on_hand = r.quantity_on_hand - q }

-- What a guard on a count that is one lets through.
only_if :
    (P : Db → Type 0) (c : Bool) (e : Error) (d : Db)
    → (c ≡ true → P d)
    → Returns (λ _. P) (throw_if (not c) e d)
only_if P true e d h = h refl
only_if P false e d h = tt

-- The one row that is met has as much less, or the count is another.
lowered :
    (c : InventoryItem → Bool) (q : ℕ) (d : Db)
    → ((r : InventoryItem) → c r ≡ true → q ≤ r.quantity_on_hand)
    → Off 0 q d
    → count_where c d.items ≡ 1
    → Off 0 0 (record d { items = update_where c (fewer q) d.items })
lowered c q d fits h one = record {
  tally = omega (
    arith,
    h.tally,
    sum_of-lowered (λ r. r.quantity_on_hand) c (fewer q) q (λ r m. omega (arith, fits r m)) d.items
        one,
  );
  one_each = update-OneEach c (fewer q) (λ _ _. refl) d.items h.one_each;
}

pub decrement-Off :
    (env : Env) (i : Identity) (q : ℕ) (e : Error)
    → Leads
        (Off 0 q)
        (decrement_item_quantity list_client env i q >>= λ count. throw_if (not (count == 1)) e)
        (λ _. Off 0 0)
decrement-Off env i q e = record {
  holds = λ d h.
      let c : InventoryItem → Bool = λ r. item_where i r && leb q r.quantity_on_hand in
      only_if _ (count_where c d.items == 1) e _
        (λ m. lowered c q d (λ r n. ground arith) h (ground arith));
}

pub decrement_batch-Off :
    (env : Env) (k q over : ℕ) (e : Error)
    → Leads
        (Off 0 over)
        (decrement_batch_quantity list_client env k q >>= λ count. throw_if (not (count == 1)) e)
        (λ _. Off 0 (over + q))
decrement_batch-Off env k q over e = record {
  holds = λ d h.
      let c : InventoryBatch → Bool = λ b. b.id == k && leb q b.quantity_remaining in
      only_if _ (count_where c d.batches == 1) e _ (λ m. record {
        tally =
            let n =
              sum_of-lowered (λ b. b.quantity_remaining) c
                (λ b. record b { quantity_remaining = b.quantity_remaining - q }) q
                (λ b n. ground arith) d.batches (ground arith) in
            omega (arith, h.tally, n);
        one_each = h.one_each;
      });
}

pub resolve-Aside : (input : WriteInput) → Aside (resolve_for_write list_client input)
resolve-Aside input = record {
  items = λ d. ap (λ x. x.items) (resolve-same input d);
  batches = λ d. ap (λ x. x.batches) (resolve-same input d);
}

pub assets-Aside :
    (s : StockServices) (env : Env) (r : ResolvedIdentity) (q : ℕ) (a b : List ℕ)
    → Aside (resolve_outbound_asset_ids list_client s env r q a b)
assets-Aside s env r q a b = record { items = λ d. ground arith; batches = λ d. ground arith }
