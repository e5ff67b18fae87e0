-- ===== src/Orders/Create/Priced.antt =====
-- The lines of an order have positive quantities and the prices that the price list gives.
use central_backend_e_commer.Prelude.{
  ℕ, zero, suc, ◌*◌, ◌<◌, ◌≡◌, refl, sym, ap, subst, ◌∙◌, true, false, not, ◌&&◌, ◌⊎◌, any, Option,
  none, some, List, [], ◌∷◌, arith, ◌==◌, String,
}
use central_backend_e_commer.Prelude.Int.{ℤ, pos, negsuc}
use central_backend_e_commer.Action.{
  Action, Result, ok, err, bad_request, not_found, pure, throw, gets, or_throw, throw_if, ◌>>=◌,
}
use central_backend_e_commer.Action.Leads.{
  Leads, Returns, Leads-bind, Leads-return, Leads-or_throw_as, Leads-throw_if, Leads-given,
  Leads-shift,
}
use central_backend_e_commer.Prisma.{list_client, OrderBy, first}
use central_backend_e_commer.Schema.{Db, Env, Product, ProductVariant, ProductPricing}
use central_backend_e_commer.Inventory.Identity.{ResolvedIdentity, resolve_for_write}
use central_backend_e_commer.Inventory.Identity.Reads.{resolve-same}
use central_backend_e_commer.Inventory.Services.{Configuration, reads}
use central_backend_e_commer.Orders.Lines.{
  CreateOrderItemDto, LineItem, Selection, SalesServices, to_positive_decimal,
  resolve_item_identity, write_input_of, sale_assets, check_serials, line_of, build_line_item,
  build_line_items, finish_line, lacks_active_variant,
}
use central_backend_e_commer.Pricing.{
  PricingCustomerType, ResolvedPrice, ResolvePriceInput, resolved_price, find_by_product,
  resolve_price,
}

-- An action that writes nothing.
abbrev Reads : {A : Type 0} → Action Db A → Type 0
Reads m = (s : Db) → (m s).1 ≡ s

stays : {A : Type 0} {P : Db → Type 0} (m : Action Db A) → Reads m → Leads P m (λ _. P)
stays {A} {P} m h = record { holds = λ s k. go (m s).0 (m s).1 (h s) k }
  where
    go : {s : Db} (r : Result A) (s' : Db) → s' ≡ s → P s → Returns (λ _. P) (r, s')
    go (ok a) s' e k = subst P (sym e) k
    go (err x) s' e k = tt

-- A fact that is known before is known after.
pub also :
    {A : Type 0} {P : Db → Type 0} {Q : A → Db → Type 0} (F : Type 0) (m : Action Db A)
    → Leads P m Q
    → Leads (λ s. P s × F) m (λ a s. Q a s × F)
also {A} {P} {Q} F m h = record { holds = λ s k. go (m s).0 (m s).1 (h.holds s k.0) k.1 }
  where
    go : (r : Result A) (s' : Db) → Returns Q (r, s') → F → Returns (λ a s. Q a s × F) (r, s')
    go (ok a) s' k f = (k, f)
    go (err x) s' k f = tt

-- What the product and the variant of a line are asked for by: their identifiers, or a bar code.
abbrev pub Identified : SalesServices → Db → CreateOrderItemDto → Option ℕ → ℕ → Option ℕ → Type 0
Identified services d asked (some id) product variant =
    (product ≡ id) × (variant ≡ asked.variant_id)
Identified services d asked none product variant =
    (code : ℕ) × (chosen : Selection) × (asked.barcode ≡ some code)
    × (services.resolve_product_selection code d ≡ ok (some chosen))
    × (product ≡ chosen.product_id)
    × (variant ≡ chosen.variant_id)

-- An active variant has this identifier.
abbrev pub Offers : List ProductVariant → ℕ → Type 0
Offers [] v = ⊥
Offers (x ∷ xs) v = ((x.id ≡ v) × (x.is_active ≡ true)) ⊎ Offers xs v

abbrev pub OnSale : List ProductVariant → Option ℕ → Type 0
OnSale variants none = Unit
OnSale variants (some v) = Offers variants v

-- The line is of what was asked for, which is sold, and in the quantity that was asked for; it stands at
-- the price of the price list, as it was in the database.
pub record LineFor (services : SalesServices) (sort : OrderBy) (now : ℕ)
    (type : PricingCustomerType) (d : Db) (asked : CreateOrderItemDto) (line : LineItem)
    : Type 0 where
  pub identified : Identified services d asked asked.product_id line.product_id line.variant_id
  pub product : Product
  pub sold : first (λ (r : Product). r.id == line.product_id) d.catalog.products ≡ some product
  pub active : product.is_active ≡ true
  pub on_sale : OnSale product.variants line.variant_id
  pub quantity : asked.quantity ≡ pos line.quantity
  pub positive : 0 < line.quantity
  pub serials : line.serial_numbers ≡ asked.serial_numbers
  pub row : ProductPricing
  pub listed : find_by_product list_client sort line.product_id line.variant_id d ≡ some row
  pub at_price : line.unit_price ≡ (resolved_price type now row).final_price
  pub total : line.total_price ≡ line.unit_price * line.quantity

-- Two lists stand in a relation, one by one.
abbrev pub Each : {A B : Type 0} → (A → B → Type 0) → List A → List B → Type 0
Each R [] [] = Unit
Each R (x ∷ xs) (y ∷ ys) = R x y × Each R xs ys
Each R _ _ = ⊥

offers :
    (xs : List ProductVariant) (v : ℕ)
    → not (any (λ x. x.id == v && x.is_active) xs) ≡ false
    → Offers xs v
offers [] v h = ground arith
offers (x ∷ xs) v h = ground (arith, offers xs v)

product-OnSale :
    (product : Product) (variant : Option ℕ)
    → lacks_active_variant product variant ≡ false
    → OnSale product.variants variant
product-OnSale product none h = tt
product-OnSale product (some v) h = offers product.variants v h

positive :
    (value : ℤ) (name : String) (d : Db)
    → Leads
        (λ s. s ≡ d)
        (to_positive_decimal value name)
        (λ n s. (s ≡ d) × ((0 < n) × (value ≡ pos n)))
positive (pos zero) name d = record { holds = λ s h. tt }
positive (pos (suc n)) name d = record { holds = λ s h. ground arith }
positive (negsuc n) name d = record { holds = λ s h. tt }

module _ (services : SalesServices) (sort : OrderBy) (env : Env) where
  identity-Reads :
      (item : CreateOrderItemDto) → Reads (resolve_item_identity list_client services sort env item)
  identity-Reads item s = ground arith

  assets-Reads :
      (config : Option Configuration) (i : Selection) (r : ResolvedIdentity) (q : ℕ)
      (item : CreateOrderItemDto)
      → Reads (sale_assets list_client services sort env config i r q item)
  assets-Reads config i r q item s = ground arith

  serials-Reads :
      (product : Product) (assets : List ℕ) (q : ℕ) (serials : List ℕ) (r : ResolvedIdentity)
      → Reads (check_serials list_client services sort env product assets q serials r)
  serials-Reads product assets q serials r s = ground arith

  priced :
      (input : ResolvePriceInput) (d : Db) (F : Type 0)
      → Leads
          (λ s. (s ≡ d) × F)
          (resolve_price list_client sort input)
          (λ price s.
            (s ≡ d)
            × (F
                × ((row : ProductPricing) × (find_by_product list_client sort input.product_id
                        input.variant_id d
                      ≡ some row)
                    × (price ≡ resolved_price input.customer_type input.current_date row))))
  unfolding resolve_price
  priced input d F = record {
    holds =
        λ s h. go s h (find_by_product list_client sort input.product_id input.variant_id s) refl;
  }
    where
      go :
          (s : Db)
          → (s ≡ d) × F
          → (o : Option ProductPricing)
          → find_by_product list_client sort input.product_id input.variant_id s ≡ o
          → Returns
              (λ price s.
                (s ≡ d)
                × (F
                    × ((row : ProductPricing) × (find_by_product list_client sort input.product_id
                            input.variant_id d
                          ≡ some row)
                        × (price ≡ resolved_price input.customer_type input.current_date row))))
              ((or_throw o (bad_request "Product price is not configured") >>= λ price.
                  pure (resolved_price input.customer_type input.current_date price))
                s)
      go s h none e = tt
      go s h (some row) e = (
        h.0,
        (
          h.1,
          (
            row,
            subst
                (λ z.
                  find_by_product list_client sort input.product_id input.variant_id z ≡ some row)
                h.0 e,
            refl,
          ),
        ),
      )

  chosen :
      (item : CreateOrderItemDto) (d : Db)
      → Leads
          (λ s. s ≡ d)
          (resolve_item_identity list_client services sort env item)
          (λ i s. (s ≡ d) × Identified services d item item.product_id i.product_id i.variant_id)
  chosen item d = record { holds = λ s h. by_product s h item.product_id item.barcode refl }
    where
      by_code :
          (s : Db)
          → s ≡ d
          → (code : ℕ) → item.barcode ≡ some code
          → (r : Result (Option Selection)) → services.resolve_product_selection code s ≡ r
          → Returns
              (λ i s. (s ≡ d) × Identified services d item none i.product_id i.variant_id)
              (((λ (z : Db). (r, z)) >>= λ found. or_throw found (not_found "Barcode not found")) s)
      by_code s h code e (ok none) f = tt
      by_code s h code e (ok (some i)) f = (
        h,
        (
          code,
          i,
          e,
          subst (λ z. services.resolve_product_selection code z ≡ ok (some i)) h f,
          refl,
          refl,
        ),
      )
      by_code s h code e (err x) f = tt

      by_product :
          (s : Db)
          → s ≡ d
          → (o code : Option ℕ) → item.barcode ≡ code
          → Returns
              (λ i s. (s ≡ d) × Identified services d item o i.product_id i.variant_id)
              (elim o as (λ _. Action Db Selection) [
                | some id ↦ pure (record {
                  product_id = id;
                  variant_id = item.variant_id;
                  stock_item_id = item.stock_item_id;
                  unit_id = item.unit_id;
                })
                | none ↦ elim code as (λ _. Action Db Selection) [
                  | none ↦ throw (bad_request "Order item product or barcode is required")
                  | some code ↦ reads (services.resolve_product_selection code) >>= λ found.
                      or_throw found (not_found "Barcode not found")
                ]
              ]
                s)
      by_product s h (some id) code e = (h, (refl, refl))
      by_product s h none none e = tt
      by_product s h none (some code) e =
          by_code s h code e (services.resolve_product_selection code s) refl

  -- From the quantity on, once the product is known.
  rest_of_line :
      (item : CreateOrderItemDto) (type : PricingCustomerType) (d : Db) (i : Selection)
      (product : Product)
      → Identified services d item item.product_id i.product_id i.variant_id
      → first (λ (r : Product). r.id == i.product_id) d.catalog.products ≡ some product
      → product.is_active ≡ true
      → lacks_active_variant product i.variant_id ≡ false
      → Leads
          (λ s. s ≡ d)
          (finish_line list_client services sort env item type i product)
          (λ line s. (s ≡ d) × LineFor services sort env.now type d item line)
  rest_of_line item type d i product ident sold active variant =
      Leads-bind (λ n s. (s ≡ d) × ((0 < n) × (item.quantity ≡ pos n)))
        (to_positive_decimal item.quantity "Quantity") _ (positive item.quantity "Quantity" d)
        λ q. Leads-given _ λ asked.
          Leads-bind (λ _ s. s ≡ d)
            (resolve_for_write list_client (write_input_of list_client services sort env item i q))
            _ (stays _ (resolve-same _))
            λ r.
              Leads-bind (λ _ s. s ≡ d)
                (reads (
                  services.assert_sales_configuration r.stock_item_id r.unit_id item.asset_ids
                    item.serial_numbers))
                _ (stays _ (λ s. refl))
                λ config.
                  Leads-bind (λ _ s. s ≡ d)
                    (sale_assets list_client services sort env config i r q item) _
                    (stays _ (assets-Reads config i r q item))
                    λ assets.
                      Leads-bind (λ _ s. (s ≡ d) × (0 < q))
                        (check_serials list_client services sort env product assets q
                          item.serial_numbers r)
                        _
                        (Leads-shift _ (λ u s h. (h, asked.0))
                          (stays _ (serials-Reads product assets q item.serial_numbers r)))
                        λ u.
                          Leads-bind _
                            (resolve_price list_client sort (record {
                              product_id = i.product_id;
                              variant_id = i.variant_id;
                              customer_type = type;
                              current_date = env.now;
                            }))
                            _ (priced _ d (0 < q))
                            λ price.
                              Leads-return
                                (line_of list_client services sort env item i product q r assets
                                  price)
                                λ s h. (
                                  h.0,
                                  record {
                                    identified = ident;
                                    product = product;
                                    sold = sold;
                                    active = active;
                                    on_sale = product-OnSale product i.variant_id variant;
                                    quantity = asked.1;
                                    positive = asked.0;
                                    serials = refl;
                                    row = h.1.1.0;
                                    listed = h.1.1.1;
                                    at_price = ap (λ (x : ResolvedPrice). x.final_price) h.1.1.2;
                                    total = refl;
                                  },
                                )

  line-Priced :
      (item : CreateOrderItemDto) (type : PricingCustomerType) (d : Db)
      → Leads
          (λ s. s ≡ d)
          (build_line_item list_client services sort env item type)
          (λ line s. (s ≡ d) × LineFor services sort env.now type d item line)
  unfolding build_line_item
  line-Priced item type d =
      Leads-bind _ (resolve_item_identity list_client services sort env item) _ (chosen item d) λ i.
        Leads-given _ λ ident.
          Leads-bind
            (λ found s.
              (s ≡ d) × (first (λ (r : Product). r.id == i.product_id) d.catalog.products ≡ found))
            (gets
              (λ d. list_client.find_first Product (λ r. r.id == i.product_id) d.catalog.products))
            _
            (record {
              holds = λ s h. (
                h,
                ap (λ (z : Db). first (λ (r : Product). r.id == i.product_id) z.catalog.products)
                    (sym h),
              );
            })
            λ found. Leads-given _ λ here.
              Leads-bind (λ product s. (s ≡ d) × (found ≡ some product))
                (or_throw found (not_found "Product not found")) _
                (Leads-or_throw_as found (not_found "Product not found"))
                λ product. Leads-given _ λ sold.
                  Leads-bind (λ _ s. (s ≡ d) × (not product.is_active ≡ false))
                    (throw_if (not product.is_active) (not_found "Product not found")) _
                    (Leads-throw_if (not product.is_active) (not_found "Product not found"))
                    λ u. Leads-given _ λ active.
                      Leads-bind
                        (λ _ s. (s ≡ d) × (lacks_active_variant product i.variant_id ≡ false))
                        (throw_if (lacks_active_variant product i.variant_id)
                          (not_found "Product variant not found"))
                        _
                        (Leads-throw_if (lacks_active_variant product i.variant_id)
                          (not_found "Product variant not found"))
                        λ u. Leads-given _ λ variant.
                          rest_of_line item type d i product ident (here ∙ sold) (ground arith)
                            variant

  pub lines-Priced :
      (items : List CreateOrderItemDto) (type : PricingCustomerType) (d : Db)
      → Leads
          (λ s. s ≡ d)
          (build_line_items list_client services sort env items type)
          (λ lines s. (s ≡ d) × Each (LineFor services sort env.now type d) items lines)
  unfolding build_line_items
  lines-Priced [] type d = record { holds = λ s h. (h, tt) }
  lines-Priced (item ∷ items) type d =
      Leads-bind _ (build_line_item list_client services sort env item type) _
        (line-Priced item type d)
        λ line.
          Leads-bind _ (build_line_items list_client services sort env items type) _
            (also (LineFor services sort env.now type d item line) _ (lines-Priced items type d))
            λ lines. Leads-return (line ∷ lines) (λ s h. (h.0.0, (h.1, h.0.1)))
