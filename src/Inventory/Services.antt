-- ===== src/Inventory/Services.antt =====
-- What the stock operations share: the interface to the stock item configuration and the unique
-- assets, and the small checks of `InventoryService`.
use central_backend_e_commer.Prelude.{
  ℕ, ◌*◌, Bool, true, false, not, Option, none, some, List, [], ◌∷◌, length, ◌==◌, if◌then◌else◌,
}
use central_backend_e_commer.Prelude.Int.{ℤ, pos, negsuc}
use central_backend_e_commer.Action.{Action, Result, bad_request, pure, throw, throw_if, ◌>>=◌}
use central_backend_e_commer.Prisma.{Prisma}
use central_backend_e_commer.Schema.{Db, Env, BatchCode}
use central_backend_e_commer.Inventory.Identity.{ResolvedIdentity}
use central_backend_e_commer.Inventory.Queries.{Identity}

pub record Configuration : Type 0 where
  pub track_reservations : Bool
  pub track_unique_assets : Bool

-- What is called of `StockItemConfigurationService` and `InventoryAssetsService`. What the latter writes,
-- to the tables of assets and to the serial numbers that assets have in `inventory_serials`, is left out: a
-- write here is whether it succeeds.
pub record StockServices : Type 0 where
  pub effective_configuration : ℕ → Db → Result Configuration
  -- of a stock item, a unit, a batch code and an expiry date
  pub assert_receipt : ℕ → Option ℕ → Option BatchCode → Option ℕ → Db → Result Configuration
  -- of a stock item, a quantity and the assets' descriptions
  pub validate_receipt_assets : ℕ → ℕ → List ℕ → Db → Result (Unit {0})
  -- of a stock item, a batch, a quantity and the assets' descriptions
  pub register_assets : ℕ → ℕ → ℕ → List ℕ → Db → Result (Unit {0})
  pub resolve_sale_asset_ids : Identity → ℕ → List ℕ → List ℕ → Db → Result (List ℕ)
  pub reserve_assets : List ℕ → Db → Result (Unit {0})
  pub release_reserved_assets : List ℕ → Db → Result (Unit {0})
  pub mark_assets_sold : List ℕ → ℕ → Db → Result (Unit {0})
  pub restore_assets : List ℕ → Db → Result (Unit {0})

-- A call that reads the database, and may throw.
abbrev pub reads : {A : Type 0} → (Db → Result A) → Action Db A
reads f d = (f d, d)

-- `identityLookup`
abbrev pub identity_lookup : ResolvedIdentity → Identity
identity_lookup r = record { product_id = r.product_id; stock_item_id = r.stock_item_id }

abbrev pub user_none : Option ℕ
user_none = none

-- The columns' scale: a quantity of one is a thousand smallest units.
abbrev pub quantity_scale : ℕ
quantity_scale = 1000

-- `ensureSerialCount`
abbrev pub serial_count_fits : List ℕ → ℕ → Bool
serial_count_fits [] q = true
serial_count_fits (s ∷ rest) q = q == length (s ∷ rest) * quantity_scale

abbrev pub ensure_serial_count : List ℕ → ℕ → Action Db (Unit {0})
ensure_serial_count serials q =
    throw_if (not (serial_count_fits serials q))
      (bad_request "Serial number count must match quantity")

-- `toNonNegativeDecimal`, of a number
abbrev pub to_non_negative_decimal : ℤ → Action Db ℕ
to_non_negative_decimal (pos n) = pure n
to_non_negative_decimal (negsuc n) = throw (bad_request "Unit cost must be zero or greater")

abbrev pub is_empty : {A : Type 0} → List A → Bool
is_empty [] = true
is_empty (x ∷ xs) = false

module _ (p : Prisma) (services : StockServices) (env : Env) where
  -- `resolveOutboundAssetIds`
  abbrev pub resolve_outbound_asset_ids :
      ResolvedIdentity → ℕ → List ℕ → List ℕ → Action Db (List ℕ)
  resolve_outbound_asset_ids r quantity assets serials = elim r.stock_item_id [
    | none ↦ pure []
    | some s ↦ reads (services.effective_configuration s) >>= λ config.
        if config.track_unique_assets
        then reads (services.resolve_sale_asset_ids (identity_lookup r) quantity assets serials)
        else pure []
  ]
