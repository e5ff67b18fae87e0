-- ===== src/Workflow/Rules.antt =====
-- `WorkflowRulesService`: whether the condition of a rule holds of the input.
use text.Mathlib.Text.{◌==◌, find?}
use central_backend_e_commer.Prelude.{
  Bool, true, false, not, ◌&&◌, ◌||◌, Option, none, some, String, if◌then◌else◌,
}
use central_backend_e_commer.Prelude.Int.{ℤ, pos, eq_ℤ, ltb_ℤ, leb_ℤ}
use central_backend_e_commer.Workflow.Json.{
  Json, Items, Fields, Value, lookup, is_nullish, is_array, text_of, get_path_value, null, bool,
  num, str, arr, obj, nil, cons, end, field,
}

abbrev pub is_same_bool : Bool → Bool → Bool
is_same_bool true b = b
is_same_bool false b = not b

-- `left === right`. The operands are parts of two documents, so no array or object is the same.
abbrev pub is_same : Value → Value → Bool
is_same none none = true
is_same (some null) (some null) = true
is_same (some (bool a)) (some (bool b)) = is_same_bool a b
is_same (some (num a)) (some (num b)) = eq_ℤ a b
is_same (some (str a)) (some (str b)) = a == b
is_same _ _ = false

abbrev pub has_item : Items → Value → Bool
has_item nil v = false
has_item (cons x xs) v = let rest = has_item xs v in if is_same (some x) v then true else rest

abbrev pub is_found : {A : Type 0} → Option A → Bool
is_found none = false
is_found (some a) = true

abbrev pub includes : Value → Value → Bool
includes (some (str s)) (some (str t)) = is_found (find? s t)
includes (some (arr xs)) v = has_item xs v
includes _ v = false

-- A comparison with NaN is false.
abbrev pub compare_numbers : (ℤ → ℤ → Bool) → Option ℤ → Option ℤ → Bool
compare_numbers r (some a) (some b) = r a b
compare_numbers r _ _ = false

-- `number_of_text` is `Number` on a text, with `none` for what is not finite or no number.
module _ (number_of_text : String → Option ℤ) where
  -- `Number` on an array, which goes through the text of its only item
  number_of_item : Json → Option ℤ
  number_of_item null = some (pos 0)
  number_of_item (bool b) = none
  number_of_item (num a) = some a
  number_of_item (str s) = number_of_text s
  number_of_item (arr nil) = some (pos 0)
  number_of_item (arr (cons v nil)) = number_of_item v
  number_of_item _ = none

  unfoldable pub to_number : Value → Option ℤ
  unfolding number_of_item
  to_number (some null) = some (pos 0)
  to_number (some (bool b)) = some (if b then pos 1 else pos 0)
  to_number (some (num a)) = some a
  to_number (some (str s)) = number_of_text s
  to_number (some (arr xs)) = number_of_item (arr xs)
  to_number _ = none

  -- `compare`
  unfoldable pub compare : Value → String → Value → Bool
  compare left operator right =
      if operator == "eq"
      then is_same left right
      else if operator == "neq"
      then not (is_same left right)
      else if operator == "gt"
      then compare_numbers (λ a b. ltb_ℤ b a) (to_number left) (to_number right)
      else if operator == "gte"
      then compare_numbers (λ a b. leb_ℤ b a) (to_number left) (to_number right)
      else if operator == "lt"
      then compare_numbers ltb_ℤ (to_number left) (to_number right)
      else if operator == "lte"
      then compare_numbers leb_ℤ (to_number left) (to_number right)
      else if operator == "contains"
      then includes left right
      else if operator == "in"
      then is_array right && includes right left
      else if operator == "exists"
      then (if is_same right (some (bool false)) then not (is_found left) else is_found left)
      else false

  -- `typeof node.operator === 'string' ? node.operator : 'eq'`
  abbrev pub operator_of : Fields → String
  operator_of fs = elim (text_of (lookup "operator" fs)) [ none ↦ "eq" | some s ↦ s ]

  abbrev pub compare_field : Json → Fields → Bool
  compare_field input fs = elim (text_of (lookup "field" fs)) [
    | none ↦ false
    | some path ↦ compare (get_path_value input path) (operator_of fs) (lookup "value" fs)
  ]

  -- `node[name] ?? node[other]`
  abbrev pub either_name : String → String → Fields → String
  either_name name other fs = if is_nullish (lookup name fs) then other else name

  -- Where the source calls itself on the items of `node[name]`, the members below walk to that field.
  unfoldable mutual
    pub evaluate_node : Json → Json → Bool
    evaluate_node input (obj fs) =
        if is_array (lookup (either_name "all" "and" fs) fs)
        then every_at input (either_name "all" "and" fs) fs
        else if is_array (lookup (either_name "any" "or" fs) fs)
        then some_at input (either_name "any" "or" fs) fs
        else compare_field input fs
    evaluate_node input _ = false

    pub every_at : Json → String → Fields → Bool
    every_at input name end = false
    every_at input name (field j (arr xs) fs) =
        if j == name then every input xs else every_at input name fs
    every_at input name (field j _ fs) = if j == name then false else every_at input name fs

    pub some_at : Json → String → Fields → Bool
    some_at input name end = false
    some_at input name (field j (arr xs) fs) =
        if j == name then some_of input xs else some_at input name fs
    some_at input name (field j _ fs) = if j == name then false else some_at input name fs

    pub every : Json → Items → Bool
    every input nil = true
    every input (cons x xs) = evaluate_node input x && every input xs

    pub some_of : Json → Items → Bool
    some_of input nil = false
    some_of input (cons x xs) = evaluate_node input x || some_of input xs

  unfoldable pub evaluate_condition : Json → Json → Bool
  evaluate_condition (obj end) input = true
  evaluate_condition (obj fs) input = evaluate_node input (obj fs)
  evaluate_condition _ input = true
