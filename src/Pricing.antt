-- ===== src/Pricing.antt =====
-- `PricingService` (src/modules/pricing): which of a product's prices a customer pays.
use central_backend_e_commer.Prelude.{
  ℕ, ◌+◌, Bool, true, false, ◌&&◌, Option, none, some, ◌==◌, leb, opt_eq, if◌then◌else◌,
}
use central_backend_e_commer.Action.{
  Action, ok, err, bad_request, record_not_found, pure, gets, or_throw, ◌>>=◌,
}
use central_backend_e_commer.Prisma.{Prisma, OrderBy}
use central_backend_e_commer.Schema.{Db, Env, ProductPricing}

pub data PricingCustomerType : Type 0 where
  retail member wholesale : PricingCustomerType

pub data AppliedPricingRule : Type 0 where
  promotion member wholesale selling : AppliedPricingRule

pub record ResolvePriceInput : Type 0 where
  pub product_id : ℕ
  pub variant_id : Option ℕ
  pub customer_type : PricingCustomerType
  pub current_date : ℕ

pub record ResolvedPrice : Type 0 where
  pub final_price : ℕ
  pub applied_rule : AppliedPricingRule
  pub base_price : ℕ

pub record SetPriceInput : Type 0 where
  pub product_id : ℕ
  pub variant_id : Option ℕ
  pub cost_price : ℕ
  pub selling_price : ℕ
  pub wholesale_price : Option ℕ
  pub member_price : Option ℕ
  pub promotion_price : Option ℕ
  pub promotion_start_at : Option ℕ
  pub promotion_end_at : Option ℕ

-- `!start || start <= now`, `!end || end >= now`
abbrev pub has_started : Option ℕ → ℕ → Bool
has_started none now = true
has_started (some t) now = leb t now

abbrev pub has_not_ended : Option ℕ → ℕ → Bool
has_not_ended none now = true
has_not_ended (some t) now = leb now t

abbrev pub is_given : {A : Type 0} → Option A → Bool
is_given none = false
is_given (some a) = true

abbrev pub is_promotion_active : ProductPricing → ℕ → Bool
is_promotion_active price now =
    is_given price.promotion_price
    && (has_started price.promotion_start_at now && has_not_ended price.promotion_end_at now)

-- A price that is there, or else the next.
abbrev pub at_price : Option ℕ → AppliedPricingRule → ProductPricing → ResolvedPrice → ResolvedPrice
at_price none rule price other = other
at_price (some a) rule price other = record {
  final_price = a;
  applied_rule = rule;
  base_price = price.selling_price;
}

abbrev pub at_selling_price : ProductPricing → ResolvedPrice
at_selling_price price = record {
  final_price = price.selling_price;
  applied_rule = AppliedPricingRule.selling;
  base_price = price.selling_price;
}

abbrev pub price_for : PricingCustomerType → ProductPricing → ResolvedPrice
price_for PricingCustomerType.retail price = at_selling_price price
price_for PricingCustomerType.member price =
    at_price price.member_price AppliedPricingRule.member price (at_selling_price price)
price_for PricingCustomerType.wholesale price =
    at_price price.wholesale_price AppliedPricingRule.wholesale price (at_selling_price price)

unfoldable pub resolved_price : PricingCustomerType → ℕ → ProductPricing → ResolvedPrice
resolved_price type now price =
    if is_promotion_active price now
    then at_price price.promotion_price AppliedPricingRule.promotion price (price_for type price)
    else price_for type price

abbrev pub is_of : ℕ → Option ℕ → ProductPricing → Bool
is_of product variant r = r.product_id == product && opt_eq r.variant_id variant

abbrev pub row_of : ℕ → SetPriceInput → ProductPricing
row_of id input = record {
  id = id;
  product_id = input.product_id;
  variant_id = input.variant_id;
  cost_price = input.cost_price;
  selling_price = input.selling_price;
  wholesale_price = input.wholesale_price;
  member_price = input.member_price;
  promotion_price = input.promotion_price;
  promotion_start_at = input.promotion_start_at;
  promotion_end_at = input.promotion_end_at;
}

-- `PricingRepository.findByProduct` sorts by the identity; `sort` is the database's.
module _ (p : Prisma) (sort : OrderBy) where
  abbrev pub find_by_product : ℕ → Option ℕ → Db → Option ProductPricing
  find_by_product product variant d =
      p.find_first ProductPricing (is_of product variant)
        (sort ProductPricing (λ a b. leb a.id b.id) d.pricing)

  unfoldable pub resolve_price : ResolvePriceInput → Action Db ResolvedPrice
  resolve_price input = do
    found ← gets (find_by_product input.product_id input.variant_id)
    price ← or_throw found (bad_request "Product price is not configured")
    pure (resolved_price input.customer_type input.current_date price)

  pub get_current_price : Env → ℕ → Action Db ResolvedPrice
  get_current_price env product = resolve_price (record {
    product_id = product;
    variant_id = none;
    customer_type = PricingCustomerType.retail;
    current_date = env.now;
  })

  -- `PricingRepository.upsert`, which reads with no order
  unfoldable pub set_price : Env → SetPriceInput → Action Db ProductPricing
  set_price env input d =
      elim (p.find_first ProductPricing (is_of input.product_id input.variant_id) d.pricing) [
        | some r ↦
            elim (p.update ProductPricing (λ x. x.id == r.id) (λ x. row_of x.id input) d.pricing) [
              | none ↦ (err record_not_found, d)
              | some (x, t) ↦ (ok x, record d { pricing = t })
            ]
        | none ↦
            let x = row_of (env.uuid d.drawn) input in
            (ok x, record d { pricing = p.insert ProductPricing x d.pricing; drawn = d.drawn + 1 })
      ]
