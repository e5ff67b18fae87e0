-- ===== src/Purchasing/Receipts/Within.antt =====
-- What has come of an order's items against what was ordered, delivery after delivery.
use central_backend_e_commer.Prelude.{
  ℕ, ◌+◌, ◌≤◌, ◌≡◌, ◌≢◌, sym, ap, subst, ◌∙◌, inl, inr, true, false, some, List, [], ◌∷◌, arith,
  ◌==◌, All, Bool-cases,
}
use central_backend_e_commer.Prisma.{first, update_where}
use central_backend_e_commer.Prisma.Keys.{Keyed}
use central_backend_e_commer.Prisma.Found.{Stored, Stored-only, All-map}
use central_backend_e_commer.Schema.{PurchaseOrderItem}
use central_backend_e_commer.Purchasing.Receipts.{
  CreateGoodsReceiptItemDto, ResolvedItem, Delivery, is_for, raised,
}

abbrev key : PurchaseOrderItem → ℕ
key i = i.id

abbrev pub IsWithin : PurchaseOrderItem → Type 0
IsWithin i = i.received_quantity ≤ i.quantity

-- Items have different identities, and none has received more than was ordered.
abbrev pub WithinOrder : List PurchaseOrderItem → Type 0
WithinOrder t = Keyed (λ (i : PurchaseOrderItem). i.id) t × All IsWithin t

-- No two lines are of the same product.
abbrev pub Different : List CreateGoodsReceiptItemDto → Type 0
Different [] = Unit
Different (i ∷ rest) = All (λ j. i.product_id ≢ j.product_id) rest × Different rest

abbrev pub DifferentItems : List ResolvedItem → Type 0
DifferentItems [] = Unit
DifferentItems (r ∷ rest) =
    All (λ (s : ResolvedItem). r.item.product_id ≢ s.item.product_id) rest × DifferentItems rest

-- Every row with the delivery's item has room for it.
abbrev Fits : List PurchaseOrderItem → Delivery → Type 0
Fits t (i, r) =
    All (λ x. (x.id == i.id) ≡ true → x.received_quantity + r.item.quantity ≤ x.quantity) t

abbrev Apart : Delivery → Delivery → Type 0
Apart (i, _) (j, _) = (i.id == j.id) ≡ false

abbrev pub Ready : List Delivery → List PurchaseOrderItem → Type 0
Ready [] t = Unit
Ready (l ∷ ls) t = Fits t l × All (Apart l) ls × Ready ls t

pub raised-Within :
    (id q : ℕ) (t : List PurchaseOrderItem)
    → All IsWithin t
    → All (λ x. (x.id == id) ≡ true → x.received_quantity + q ≤ x.quantity) t
    → All IsWithin (update_where (λ x. x.id == id) (raised q) t)
raised-Within id q [] h f = tt
raised-Within id q (x ∷ t) h f = elim (Bool-cases (x.id == id)) [
  | inl m ↦ rw m (f.0 m, raised-Within id q t h.1 f.1)
  | inr m ↦ rw m (h.0, raised-Within id q t h.1 f.1)
]

raised-Fits :
    (id q : ℕ) (l : Delivery) (t : List PurchaseOrderItem)
    → (id == l.0.id) ≡ false
    → Fits t l
    → Fits (update_where (λ x. x.id == id) (raised q) t) l
raised-Fits id q l [] a h = tt
raised-Fits id q l (x ∷ t) a h = elim (Bool-cases (x.id == id)) [
  | inl m ↦ rw m (λ k. absurd (ground arith), raised-Fits id q l t a h.1)
  | inr m ↦ rw m (h.0, raised-Fits id q l t a h.1)
]

pub raised-Ready :
    (i : PurchaseOrderItem) (r : ResolvedItem) (q : ℕ) (ls : List Delivery)
    (t : List PurchaseOrderItem)
    → All (Apart (i, r)) ls
    → Ready ls t
    → Ready ls (update_where (λ x. x.id == i.id) (raised q) t)
raised-Ready i r q [] t a h = tt
raised-Ready i r q (l ∷ ls) t a h =
    (raised-Fits i.id q l t a.0 h.0, h.1, raised-Ready i r q ls t a.1 h.2)

-- What the checks found of a delivery.
abbrev pub Good : List PurchaseOrderItem → Delivery → Type 0
Good t (i, r) =
    Stored (λ (x : PurchaseOrderItem). x.id) t i
    × (is_for r i ≡ true)
    × (i.received_quantity + r.item.quantity ≤ i.quantity)

Good-Fits :
    (t : List PurchaseOrderItem) (l : Delivery)
    → Keyed (λ (x : PurchaseOrderItem). x.id) t
    → Good t l
    → Fits t l
Good-Fits t (i, r) u g =
    All-map (λ x. (x.id == i.id) ≡ true → x ≡ i)
      (λ x. (x.id == i.id) ≡ true → x.received_quantity + r.item.quantity ≤ x.quantity)
      (λ x only m.
        subst (λ (y : PurchaseOrderItem). y.received_quantity + r.item.quantity ≤ y.quantity)
          (sym (only m)) g.2)
      t (Stored-only (λ (x : PurchaseOrderItem). x.id) t i u g.0)

Good-Apart :
    (t : List PurchaseOrderItem) (l k : Delivery)
    → Good t l
    → Good t k
    → l.1.item.product_id ≢ k.1.item.product_id
    → Apart l k
Good-Apart t (i, r) (j, s) g h d = elim (Bool-cases (i.id == j.id)) [
  | inr m ↦ m
  | inl m ↦
      let same : i.id ≡ j.id = ground arith in
      let here = subst (λ n. first (λ (x : PurchaseOrderItem). x.id == n) t ≡ some i) same g.0 in
      let one : i ≡ j = ground (arith, here, h.0) in
      let ours : i.product_id ≡ r.item.product_id = ground arith in
      let theirs : j.product_id ≡ s.item.product_id = ground arith in
      absurd (d (sym ours ∙ ap (λ (x : PurchaseOrderItem). x.product_id) one ∙ theirs))
]

abbrev pub resolved : List Delivery → List ResolvedItem
resolved [] = []
resolved (l ∷ ls) = l.1 ∷ resolved ls

Goods-Apart :
    (t : List PurchaseOrderItem) (l : Delivery) (ls : List Delivery)
    → Good t l
    → All (Good t) ls
    → All (λ (s : ResolvedItem). l.1.item.product_id ≢ s.item.product_id) (resolved ls)
    → All (Apart l) ls
Goods-Apart t l [] g h d = tt
Goods-Apart t l (k ∷ ls) g h d = (Good-Apart t l k g h.0 d.0, Goods-Apart t l ls g h.1 d.1)

pub Goods-Ready :
    (t : List PurchaseOrderItem) (ls : List Delivery)
    → Keyed (λ (x : PurchaseOrderItem). x.id) t
    → All (Good t) ls
    → DifferentItems (resolved ls)
    → Ready ls t
Goods-Ready t [] u h d = tt
Goods-Ready t (l ∷ ls) u h d =
    (Good-Fits t l u h.0, Goods-Apart t l ls h.0 h.1 d.0, Goods-Ready t ls u h.1 d.1)
