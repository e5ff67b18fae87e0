-- ===== src/Workflow/Engine/Runs.antt =====
-- How often the action of a rule was executed for an execution, by the log, and what the row of the
-- execution tells of it.
use text.Mathlib.Text.{◌==◌ as ◌==ₛ◌}
use text.Mathlib.TextPositions.{eq_refl}
use central_backend_e_commer.Prelude.{
  ℕ, ◌+◌, ◌≤◌, ◌<◌, ◌≡◌, Bool, true, false, ◌&&◌, ◌||◌, Option, none, some, List, [], ◌∷◌, ◌++◌,
  String, ◌==◌, if◌then◌else◌, arith, refl, sym, ap, ◌∙◌, All, map,
}
use mathlib.Core.List.{append-nil, append_assoc}
use central_backend_e_commer.Action.{Result, ok, err}
use central_backend_e_commer.Prisma.{first, count_where}
use central_backend_e_commer.Prisma.Keys.{Keyed}
use central_backend_e_commer.Workflow.Json.{Json}
use central_backend_e_commer.Workflow.Tables.{
  Workflow, WorkflowRule, WorkflowExecution, WorkflowExecutionStatus, WorkflowLog, LogMessage,
  Runtime,
}
use central_backend_e_commer.Workflow.Checkpoint.{Progress, has, add, read_checkpoint}

abbrev pub tells_run : String → LogMessage → Bool
tells_run r (LogMessage.rule_action_executed x) = x ==ₛ r
tells_run r _ = false

abbrev pub is_run : ℕ → String → WorkflowLog → Bool
is_run id r l = l.execution_id == id && tells_run r l.message

-- How often the log tells that the action of the rule was executed.
abbrev pub runs : ℕ → String → List WorkflowLog → ℕ
runs id r logs = count_where (is_run id r) logs

abbrev pub row_of : ℕ → List WorkflowExecution → Option WorkflowExecution
row_of id t = first (λ (x : WorkflowExecution). x.id == id) t

abbrev pub Present : Option WorkflowExecution → Type 0
Present none = ⊥
Present (some x) = Unit

-- A failed execution, which a retry takes up again, has the rule in its checkpoint.
abbrev pub CoveredBy : String → WorkflowExecutionStatus → Option Json → Type 0
CoveredBy r WorkflowExecutionStatus.failed output = has r (read_checkpoint output).completed ≡ true
CoveredBy r _ output = Unit

abbrev pub Covered : String → Option WorkflowExecution → Type 0
Covered r none = ⊥
Covered r (some x) = CoveredBy r x.status x.output_json

-- Between requests: an action was executed at most once, and if it was, the row tells.
pub record Once (t : List WorkflowExecution) (logs : List WorkflowLog) : Type 0 where
  pub at_most : (id : ℕ) (r : String) → runs id r logs ≤ 1
  pub keyed : Keyed (λ x. x.id) t
  pub told : (id : ℕ) (r : String) → 0 < runs id r logs → Covered r (row_of id t)

-- While the execution `e` runs: of its own actions the progress tells.
pub record Running (e : ℕ) (pr : Progress) (t : List WorkflowExecution) (logs : List WorkflowLog)
    : Type 0 where
  pub at_most : (id : ℕ) (r : String) → runs id r logs ≤ 1
  pub keyed : Keyed (λ x. x.id) t
  pub told :
      (id : ℕ) (r : String) → (id == e) ≡ false → 0 < runs id r logs → Covered r (row_of id t)
  pub own : (r : String) → 0 < runs e r logs → has r pr.completed ≡ true
  pub present : Present (row_of e t)

has-append :
    (r : String) (xs : List String) (q : String) → has r (xs ++ (q ∷ [])) ≡ (has r xs || q ==ₛ r)
has-append r [] q = ground arith
has-append r (x ∷ xs) q = ground (arith, has-append r xs q)

pub has-add : (r q : String) (xs : List String) → has r xs ≡ true → has r (add q xs) ≡ true
has-add r q xs h = ground (arith, has-append r xs q)

pub has-add_self : (q : String) (xs : List String) → has q (add q xs) ≡ true
has-add_self q xs = ground (arith, has-append q xs q, eq_refl q)

-- One more line of the log.
pub runs-append :
    (id : ℕ) (r : String) (logs : List WorkflowLog) (l : WorkflowLog)
    → runs id r (logs ++ (l ∷ [])) ≡ runs id r logs + (if is_run id r l then 1 else 0)
runs-append id r [] l = ground arith
runs-append id r (x ∷ logs) l = ground (arith, runs-append id r logs l)

-- The rules that a line tells of, and those that the log does.
abbrev pub tells_of : LogMessage → List String
tells_of (LogMessage.rule_action_executed r) = r ∷ []
tells_of _ = []

abbrev pub executed_in : List WorkflowLog → List String
executed_in [] = []
executed_in (l ∷ logs) = tells_of l.message ++ executed_in logs

pub executed_in-quiet :
    (logs : List WorkflowLog) (l : WorkflowLog)
    → tells_of l.message ≡ []
    → executed_in (logs ++ (l ∷ [])) ≡ executed_in logs
executed_in-quiet [] l h = rw h refl
executed_in-quiet (x ∷ logs) l h = ap (λ rs. tells_of x.message ++ rs) (executed_in-quiet logs l h)

pub executed_in-append :
    (logs : List WorkflowLog) (l : WorkflowLog)
    → executed_in (logs ++ (l ∷ [])) ≡ executed_in logs ++ tells_of l.message
executed_in-append [] l = append-nil (tells_of l.message)
executed_in-append (x ∷ logs) l =
    ap (λ rs. tells_of x.message ++ rs) (executed_in-append logs l)
    ∙ sym (append_assoc (tells_of x.message) (executed_in logs) (tells_of l.message))

-- The action of each rule is the one that its identity stands for.
abbrev pub ActsBy : (String → Json) → List WorkflowRule → Type 0
ActsBy act rules = All (λ r. act r.id ≡ r.action_json) rules

abbrev pub AllActBy : (String → Json) → List Workflow → Type 0
AllActBy act ws = All (λ w. ActsBy act w.rules) ws

-- The calls that were made are of the actions that the log tells of, one for one and in its order.
pub record Told (act : String → Json) (calls : List Json) (ws : List Workflow)
    (logs : List WorkflowLog) : Type 0 where
  pub acts : AllActBy act ws
  pub as_told : calls ≡ map act (executed_in logs)

-- The runtime, with a list of the actions whose calls returned beside the world that it works on.
abbrev pub noted : {V : Type 0} → Json → List Json → Result Json × V → Result Json × (V × List Json)
noted action calls (ok r, v) = (ok r, (v, calls ++ (action ∷ [])))
noted action calls (err e, v) = (err e, (v, calls))

abbrev pub recording : {V : Type 0} → Runtime V → Runtime (V × List Json)
recording rt = record {
  execute = λ action input w. noted action w.1 (rt.execute action input w.0);
  number_of_text = rt.number_of_text;
  message_of = rt.message_of;
}
