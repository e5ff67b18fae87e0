-- ===== src/Schema/Prices.antt =====
-- Prices of products and variants (model `ProductPricing` of prisma/schema.prisma), in whole cents.
use central_backend_e_commer.Prelude.{ℕ, Option}

pub record ProductPricing : Type 0 where
  pub id : ℕ
  pub product_id : ℕ
  pub variant_id : Option ℕ
  pub cost_price : ℕ
  pub selling_price : ℕ
  pub wholesale_price : Option ℕ
  pub member_price : Option ℕ
  pub promotion_price : Option ℕ
  pub promotion_start_at : Option ℕ
  pub promotion_end_at : Option ℕ
