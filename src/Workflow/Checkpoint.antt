-- ===== src/Workflow/Checkpoint.antt =====
-- What an execution has done, as its row keeps it (`outputJson`), and `readCheckpoint`.
use text.Mathlib.Text.{◌==◌}
use central_backend_e_commer.Prelude.{
  ◌≡◌, refl, ap, Bool, true, false, Option, some, List, [], ◌∷◌, ◌++◌, String, length, map,
  if◌then◌else◌,
}
use central_backend_e_commer.Prelude.Int.{pos}
use central_backend_e_commer.Workflow.Json.{
  Json, Value, member, items_of, list_of, list_of-items_of, num, str, arr, obj, end, field,
}

-- `actions` and the set `completedRuleIds`, which keeps the order of insertion
pub record Progress : Type 0 where
  pub actions : List Json
  pub completed : List String

abbrev pub no_progress : Progress
no_progress = record { actions = []; completed = [] }

-- `Set.has` and `Set.add`
abbrev pub has : String → List String → Bool
has r [] = false
has r (x ∷ xs) = let rest = has r xs in if x == r then true else rest

abbrev pub add : String → List String → List String
add r xs = if has r xs then xs else xs ++ (r ∷ [])

abbrev pub completed_json : List String → Json
completed_json ids = arr (items_of (map str ids))

abbrev pub actions_json : List Json → Json
actions_json actions = arr (items_of actions)

abbrev pub count_json : List Json → Json
count_json actions = num (pos (length actions))

-- The `outputJson` of a running, of a successful and of a failed execution.
unfoldable pub running_output : Progress → Json
running_output pr = obj (
    field "actionCount" (count_json pr.actions) (
      field "actions" (actions_json pr.actions)
        (field "completedRuleIds" (completed_json pr.completed) end)))

unfoldable pub success_output : Progress → Json
success_output pr =
    obj
      (field "actionCount" (count_json pr.actions) (field "actions" (actions_json pr.actions) end))

unfoldable pub failed_output : Progress → String → Json
failed_output pr message = obj (
    field "actionCount" (count_json pr.actions) (
      field "actions" (actions_json pr.actions)
        (field "completedRuleIds" (completed_json pr.completed) (field "error" (str message) end))))

-- `Array.isArray(v) ? v : []`
abbrev pub items_in : Value → List Json
items_in (some (arr xs)) = list_of xs
items_in _ = []

-- `filter((entry) => typeof entry === 'string')`
abbrev pub strings_in : List Json → List String
strings_in [] = []
strings_in (str s ∷ vs) = s ∷ strings_in vs
strings_in (_ ∷ vs) = strings_in vs

unfoldable pub read_checkpoint : Option Json → Progress
read_checkpoint output = record {
  actions = items_in (member "actions" output);
  completed = strings_in (items_in (member "completedRuleIds" output));
}

strings_in-map : (ids : List String) → strings_in (map str ids) ≡ ids
strings_in-map [] = refl
strings_in-map (s ∷ ids) = ap (λ ss. s ∷ ss) (strings_in-map ids)

module _ (pr : Progress) where
  -- A retry reads back what the failed run wrote, and what a run that was broken off wrote.
  pub read_checkpoint-failed : (m : String) → read_checkpoint (some (failed_output pr m)) ≡ pr
  unfolding read_checkpoint failed_output
  read_checkpoint-failed m =
      rw
        (
          list_of-items_of pr.actions,
          list_of-items_of (map str pr.completed),
          strings_in-map pr.completed,
        )
        refl

  pub read_checkpoint-running : read_checkpoint (some (running_output pr)) ≡ pr
  unfolding read_checkpoint running_output
  read_checkpoint-running =
      rw
        (
          list_of-items_of pr.actions,
          list_of-items_of (map str pr.completed),
          strings_in-map pr.completed,
        )
        refl
