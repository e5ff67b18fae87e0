-- ===== src/Inventory/Reserve/Within.antt =====
-- What the steps of `reserveStock` and `releaseReservedStock` do to the items.
use central_backend_e_commer.Prelude.{
  ap, ◌⊎◌, inl, inr, ℕ, ◌+◌, ◌-◌, ◌≤◌, ◌≡◌, refl, ◌∙◌, Bool, true, Option, none, some, List, [],
  ◌∷◌, ◌++◌, arith, All, sum_of, leb, ◌&&◌,
}
use central_backend_e_commer.Action.Keeps.{Keeps, IsPreorder, Keeps-bind}
use central_backend_e_commer.Prisma.{list_client, update_where}
use central_backend_e_commer.Schema.{Db, Env, InventoryItem, InventoryReservation}
use central_backend_e_commer.Inventory.Identity.{WriteInput, ResolvedIdentity, resolve_for_write}
use central_backend_e_commer.Inventory.Identity.Reads.{resolve-same}
use central_backend_e_commer.Inventory.Queries.{
  Identity, item_where, find_item_by_identity, upsert_item,
}
use central_backend_e_commer.Inventory.Reserve.{
  StockReservationInput, StockServices, write_input, check_tracked, resolve_outbound_asset_ids,
  reserve_anew, release_held, reserve_resolved, release_resolved, released_from, released_quantity,
  identity_lookup,
}

-- No item has more reserved than is on hand.
abbrev pub Within : List InventoryItem → Type 0
Within t = All (λ r. r.reserved_quantity ≤ r.quantity_on_hand) t

abbrev pub on_hand : List InventoryItem → ℕ
on_hand t = sum_of (λ r. r.quantity_on_hand) t

-- What every step does to the items: it keeps them within what is on hand, and that as it was.
pub record StockKept (d d' : Db) : Type 0 where
  pub within : Within d.items → Within d'.items
  pub same_stock : on_hand d'.items ≡ on_hand d.items

pub StockKept-IsPreorder : IsPreorder StockKept
StockKept-IsPreorder = record {
  stays = λ d. record { within = λ h. h; same_stock = refl };
  chains = λ a b c h k. record {
    within = λ w. k.within (h.within w);
    same_stock = k.same_stock ∙ h.same_stock;
  };
}

-- An update of the reserved quantities, each of them to at most what is on hand.
update-Within :
    (c : InventoryItem → Bool) (f : InventoryItem → InventoryItem) (t : List InventoryItem)
    → ((r : InventoryItem)
        → c r ≡ true
        → r.reserved_quantity ≤ r.quantity_on_hand
        → (f r).reserved_quantity ≤ (f r).quantity_on_hand)
    → Within t
    → Within (update_where c f t)
update-Within c f [] h w = tt
update-Within c f (r ∷ t) h w = ground (arith, h r, update-Within c f t h)

update-on_hand :
    (c : InventoryItem → Bool) (f : InventoryItem → InventoryItem) (t : List InventoryItem)
    → ((r : InventoryItem) → (f r).quantity_on_hand ≡ r.quantity_on_hand)
    → on_hand (update_where c f t) ≡ on_hand t
update-on_hand c f [] h = refl
update-on_hand c f (r ∷ t) h = ground (arith, h r, update-on_hand c f t h)

append-Within :
    (t : List InventoryItem) (r : InventoryItem)
    → r.reserved_quantity ≤ r.quantity_on_hand
    → Within t
    → Within (t ++ (r ∷ []))
append-Within [] r h w = (h, tt)
append-Within (x ∷ t) r h w = (w.0, append-Within t r h w.1)

append-on_hand :
    (t : List InventoryItem) (r : InventoryItem)
    → on_hand (t ++ (r ∷ [])) ≡ on_hand t + r.quantity_on_hand
append-on_hand [] r = ground arith
append-on_hand (x ∷ t) r = ground (arith, append-on_hand t r)

update-Kept :
    (c : InventoryItem → Bool) (f : InventoryItem → InventoryItem) (d d' : Db)
    → d'.items ≡ update_where c f d.items
    → ((r : InventoryItem)
        → c r ≡ true
        → r.reserved_quantity ≤ r.quantity_on_hand
        → (f r).reserved_quantity ≤ (f r).quantity_on_hand)
    → ((r : InventoryItem) → (f r).quantity_on_hand ≡ r.quantity_on_hand)
    → StockKept d d'
update-Kept c f d d' e h k = record {
  within = λ w. rw e (update-Within c f d.items h w);
  same_stock = rw e (update-on_hand c f d.items k);
}

-- A step that leaves the items alone.
pub same_items : (d d' : Db) → d'.items ≡ d.items → StockKept d d'
same_items d d' e = record { within = λ w. rw e w; same_stock = ap on_hand e }

upsert-Kept : (env : Env) (i : Identity) → Keeps StockKept (upsert_item list_client env i)
upsert-Kept env i = record { holds = λ d. kept d (find_item_by_identity list_client env i d) refl }
  where
    kept :
        (d : Db) (o : Option InventoryItem)
        → find_item_by_identity list_client env i d ≡ o
        → StockKept d (upsert_item list_client env i d).1
    kept d none e =
        rw (e, upsert_item)
          (record {
            within = append-Within d.items _ (ground arith);
            same_stock = append-on_hand d.items _ ∙ (ground arith);
          })
    kept d (some r) e = rw (e, upsert_item) (StockKept-IsPreorder.stays d)

abbrev pub has_available : Identity → ℕ → InventoryItem → Bool
has_available i q x = item_where i x && leb (q + x.reserved_quantity) x.quantity_on_hand

abbrev pub reserve_more : ℕ → InventoryItem → InventoryItem
reserve_more q x = record x { reserved_quantity = x.reserved_quantity + q }

abbrev pub has_reserved : Identity → ℕ → InventoryItem → Bool
has_reserved i q x = item_where i x && leb q x.reserved_quantity

abbrev pub reserve_less : ℕ → InventoryItem → InventoryItem
reserve_less q x = record x { reserved_quantity = x.reserved_quantity - q }

-- The items after the write of a reservation: as `upsertItem` left them, or reserved from.
pub reserve_items :
    (s : StockServices) (env : Env) (input : StockReservationInput) (n : ℕ) (r : ResolvedIdentity)
    (assets : List ℕ) (d : Db)
    → let up = (upsert_item list_client env (identity_lookup r) d).1.items in
      let after = (reserve_resolved list_client s env input n r assets d).1.items in
      (after ≡ up)
      ⊎ (after
          ≡ update_where
              (has_available (identity_lookup r) r.base_quantity)
              (reserve_more r.base_quantity)
              up)
unfolding reserve_resolved
reserve_items s env input n r assets d = ground arith

-- The items after a release: as `upsertItem` left them, or released from.
pub release_items :
    (s : StockServices) (env : Env) (input : StockReservationInput) (n : ℕ)
    (held : InventoryReservation) (r : ResolvedIdentity) (d : Db)
    → let up = (upsert_item list_client env (identity_lookup r) d).1.items in
      let after = (release_resolved list_client s env input n held r d).1.items in
      (after ≡ up)
      ⊎ (after
          ≡ update_where
              (has_reserved (released_from input held r) (released_quantity held r))
              (reserve_less (released_quantity held r))
              up)
unfolding release_resolved
release_items s env input n held r d = ground arith

-- Either way they are kept.
either_way :
    (c : InventoryItem → Bool) (f : InventoryItem → InventoryItem) (d u d' : Db)
    → StockKept d u
    → ((r : InventoryItem)
        → c r ≡ true
        → r.reserved_quantity ≤ r.quantity_on_hand
        → (f r).reserved_quantity ≤ (f r).quantity_on_hand)
    → ((r : InventoryItem) → (f r).quantity_on_hand ≡ r.quantity_on_hand)
    → (d'.items ≡ u.items) ⊎ (d'.items ≡ update_where c f u.items)
    → StockKept d d'
either_way c f d u d' up h k (inl e) = StockKept-IsPreorder.chains d u d' up (same_items u d' e)
either_way c f d u d' up h k (inr e) =
    StockKept-IsPreorder.chains d u d' up (update-Kept c f u d' e h k)

reserve_resolved-Kept :
    (s : StockServices) (env : Env) (input : StockReservationInput) (n : ℕ) (r : ResolvedIdentity)
    (assets : List ℕ)
    → Keeps StockKept (reserve_resolved list_client s env input n r assets)
reserve_resolved-Kept s env input n r assets = record {
  holds = λ d.
      either_way (has_available (identity_lookup r) r.base_quantity) (reserve_more r.base_quantity)
        d (upsert_item list_client env (identity_lookup r) d).1
        (reserve_resolved list_client s env input n r assets d).1
        ((upsert-Kept env (identity_lookup r)).holds d) (λ x c h. ground arith) (λ x. refl)
        (reserve_items s env input n r assets d);
}

release_resolved-Kept :
    (s : StockServices) (env : Env) (input : StockReservationInput) (n : ℕ)
    (held : InventoryReservation) (r : ResolvedIdentity)
    → Keeps StockKept (release_resolved list_client s env input n held r)
release_resolved-Kept s env input n held r = record {
  holds = λ d.
      either_way (has_reserved (released_from input held r) (released_quantity held r))
        (reserve_less (released_quantity held r)) d
        (upsert_item list_client env (identity_lookup r) d).1
        (release_resolved list_client s env input n held r d).1
        ((upsert-Kept env (identity_lookup r)).holds d) (λ x c h. ground arith) (λ x. refl)
        (release_items s env input n held r d);
}

resolve-Kept : (input : WriteInput) → Keeps StockKept (resolve_for_write list_client input)
resolve-Kept input = record {
  holds = λ d.
      same_items d (resolve_for_write list_client input d).1
        (ap (λ x. x.items) (resolve-same input d));
}

tracked-Kept :
    (s : StockServices) (env : Env) (k : Option ℕ)
    → Keeps StockKept (check_tracked list_client s env k)
tracked-Kept s env k = record {
  holds = λ d. same_items d (check_tracked list_client s env k d).1 (ground arith);
}

assets-Kept :
    (s : StockServices) (env : Env) (r : ResolvedIdentity) (q : ℕ) (a b : List ℕ)
    → Keeps StockKept (resolve_outbound_asset_ids list_client s env r q a b)
assets-Kept s env r q a b = record {
  holds =
      λ d. same_items d (resolve_outbound_asset_ids list_client s env r q a b d).1 (ground arith);
}

pub reserve_anew-Kept :
    (s : StockServices) (env : Env) (input : StockReservationInput) (n : ℕ)
    → Keeps StockKept (reserve_anew list_client s env input n)
unfolding reserve_anew
reserve_anew-Kept s env input n =
    let pre = StockKept-IsPreorder in
    Keeps-bind StockKept pre _ _ (resolve-Kept (write_input input)) λ r.
      Keeps-bind StockKept pre _ _ (tracked-Kept s env r.stock_item_id) λ u.
        Keeps-bind StockKept pre _ _
          (assets-Kept s env r input.quantity input.asset_ids input.serial_numbers)
          (reserve_resolved-Kept s env input n r)

pub release_held-Kept :
    (s : StockServices) (env : Env) (input : StockReservationInput) (n : ℕ)
    (held : InventoryReservation)
    → Keeps StockKept (release_held list_client s env input n held)
unfolding release_held
release_held-Kept s env input n held =
    Keeps-bind StockKept StockKept-IsPreorder _ _ (resolve-Kept (write_input input))
      (release_resolved-Kept s env input n held)
