-- ===== src/Workflow/Json.antt =====
-- JSON values (`Prisma.JsonValue`, `Prisma.InputJsonValue`) with the tests and the property access that
-- the workflow services make of them. Numbers are whole; an object's fields are its own.
use text.Mathlib.Text.{◌==◌}
use Prim.Native.Char.{Char, code}
use central_backend_e_commer.Prelude.{
  ◌≡◌, refl, ap, Bool, true, false, Option, none, some, List, [], ◌∷◌, String, ◌==◌ as ◌==ℕ◌,
  if◌then◌else◌,
}
use central_backend_e_commer.Prelude.Int.{ℤ}

mutual
  pub data Json : Type 0 where
    null : Json
    bool : Bool → Json
    num : ℤ → Json
    str : String → Json
    arr : Items → Json
    obj : Fields → Json

  pub data Items : Type 0 where
    nil : Items
    cons : Json → Items → Items

  pub data Fields : Type 0 where
    end : Fields
    field : String → Json → Fields → Fields

-- `undefined` is `none`.
abbrev pub Value : Type 0
Value = Option Json

abbrev pub lookup : String → Fields → Value
lookup k end = none
lookup k (field j v fs) = if j == k then some v else lookup k fs

-- `value[key]`, where `isRecord(value)`, and else `undefined`
abbrev pub member : String → Value → Value
member k (some (obj fs)) = lookup k fs
member k _ = none

abbrev pub is_nullish : Value → Bool
is_nullish none = true
is_nullish (some null) = true
is_nullish _ = false

abbrev pub is_array : Value → Bool
is_array (some (arr xs)) = true
is_array _ = false

-- `typeof value === 'string' ? value : null`
abbrev pub text_of : Value → Option String
text_of (some (str s)) = some s
text_of _ = none

abbrev pub items_of : List Json → Items
items_of [] = nil
items_of (v ∷ vs) = cons v (items_of vs)

abbrev pub list_of : Items → List Json
list_of nil = []
list_of (cons v vs) = v ∷ list_of vs

pub list_of-items_of : (vs : List Json) → list_of (items_of vs) ≡ vs
list_of-items_of [] = refl
list_of-items_of (v ∷ vs) = ap (λ ws. v ∷ ws) (list_of-items_of vs)

-- `path.split('.')`
abbrev pub with_first : Char → List String → List String
with_first c [] = String.◌∷◌ c "" ∷ []
with_first c (part ∷ parts) = String.◌∷◌ c part ∷ parts

unfoldable pub split_dots : String → List String
split_dots String.[] = "" ∷ []
split_dots (String.◌∷◌ c s) =
    let parts = split_dots s in if code c ==ℕ b'.' then "" ∷ parts else with_first c parts

-- `getPathValue`
abbrev pub follow : List String → Value → Value
follow [] v = v
follow (key ∷ keys) v = follow keys (member key v)

unfoldable pub get_path_value : Json → String → Value
unfolding split_dots
get_path_value input path = follow (split_dots path) (some input)
