-- ===== src/Purchasing/Receipts/Request.antt =====
-- What is asked of a goods receipt, and how a delivery stands to the items of the order.
use central_backend_e_commer.Prelude.{
  ℕ, ◌+◌, ◌*◌, Bool, true, false, ◌&&◌, ◌||◌, Option, none, some, List, [], ◌∷◌, ◌++◌, sum_of, any,
  all, filter, leb, opt_eq, ◌==◌, if◌then◌else◌,
}
use central_backend_e_commer.Schema.{PurchaseOrderItem, PurchaseOrderStatus}
use central_backend_e_commer.Inventory.Identity.{WriteInput, ResolvedIdentity}

-- `assets` are the descriptions of unique assets.
pub record CreateGoodsReceiptItemDto : Type 0 where
  pub product_id : ℕ
  pub stock_item_id : Option ℕ
  pub unit_id : Option ℕ
  pub quantity : ℕ
  pub unit_cost : ℕ
  pub batch_code : Option ℕ
  pub expiry_date : Option ℕ
  pub assets : List ℕ

pub record CreateGoodsReceiptDto : Type 0 where
  pub idempotency_key : Option ℕ
  pub purchase_order_id : ℕ
  pub received_by : ℕ
  pub items : List CreateGoodsReceiptItemDto

-- What `buildRequestKey` takes of an item.
pub record ReceiptKeyItem : Type 0 where
  pub product_id : ℕ
  pub quantity : ℕ
  pub unit_cost : ℕ
  pub batch_code : Option ℕ
  pub expiry_date : Option ℕ

pub record ReceiptKeyInput : Type 0 where
  pub actor_id : Option ℕ
  pub purchase_order_id : ℕ
  pub received_by : ℕ
  pub items : List ReceiptKeyItem

-- The hash of a text, and the sort by product and batch code.
pub record ReceiptServices : Type 0 where
  pub request_hash : ReceiptKeyInput → ℕ
  pub sort_items : List ReceiptKeyItem → List ReceiptKeyItem

pub record ResolvedItem : Type 0 where
  pub item : CreateGoodsReceiptItemDto
  pub stock_item_id : Option ℕ
  pub unit_id : Option ℕ
  pub base_quantity : ℕ

-- An item of the order with what came of it.
abbrev pub Delivery : Type 0
Delivery = PurchaseOrderItem × ResolvedItem

abbrev pub key_item : CreateGoodsReceiptItemDto → ReceiptKeyItem
key_item i = record {
  product_id = i.product_id;
  quantity = i.quantity;
  unit_cost = i.unit_cost;
  batch_code = i.batch_code;
  expiry_date = i.expiry_date;
}

abbrev pub is_open : PurchaseOrderStatus → Bool
is_open PurchaseOrderStatus.approved = true
is_open PurchaseOrderStatus.partially_received = true
is_open _ = false

-- Equality of two `purchaseItemKey`s.
abbrev pub same_identity : ℕ → Option ℕ → Option ℕ → PurchaseOrderItem → Bool
same_identity product_id stock_item_id unit_id i =
    i.product_id == product_id && opt_eq i.stock_item_id stock_item_id && opt_eq i.unit_id unit_id

abbrev pub is_for : ResolvedItem → PurchaseOrderItem → Bool
is_for r = same_identity r.item.product_id r.stock_item_id r.unit_id

-- `purchaseItems.has(key)`, on the way through the items.
abbrev pub has_duplicates : List PurchaseOrderItem → List PurchaseOrderItem → Bool
has_duplicates seen [] = false
has_duplicates seen (i ∷ rest) =
    any (same_identity i.product_id i.stock_item_id i.unit_id) seen
    || has_duplicates (seen ++ (i ∷ [])) rest

abbrev pub resolved_of : CreateGoodsReceiptItemDto → ResolvedIdentity → ResolvedItem
resolved_of item identity = record {
  item = item;
  stock_item_id = identity.stock_item_id;
  unit_id = identity.unit_id;
  base_quantity = identity.base_quantity;
}

abbrev pub write_input_of : CreateGoodsReceiptItemDto → WriteInput
write_input_of item = record {
  product_id = item.product_id;
  quantity = item.quantity;
  variant_id = none;
  stock_item_id = item.stock_item_id;
  unit_id = item.unit_id;
}

abbrev pub receipt_total : List Delivery → ℕ
receipt_total lines = sum_of (λ (l : Delivery). l.1.item.quantity * l.1.item.unit_cost) lines

-- What has come of an item, with this receipt.
abbrev pub received_of : List ResolvedItem → PurchaseOrderItem → ℕ
received_of resolved i =
    i.received_quantity
    + sum_of (λ (r : ResolvedItem). r.item.quantity) (filter (λ r. is_for r i) resolved)

abbrev pub is_all_received : List ResolvedItem → List PurchaseOrderItem → Bool
is_all_received resolved items = all (λ i. leb i.quantity (received_of resolved i)) items

abbrev pub status_after : List ResolvedItem → List PurchaseOrderItem → PurchaseOrderStatus
status_after resolved items =
    if is_all_received resolved items
    then PurchaseOrderStatus.received
    else PurchaseOrderStatus.partially_received

abbrev pub raised : ℕ → PurchaseOrderItem → PurchaseOrderItem
raised q i = record i { received_quantity = i.received_quantity + q }

abbrev pub is_given_key : Option ℕ → Option ℕ → Bool
is_given_key (some a) (some b) = a == b
is_given_key _ _ = false
