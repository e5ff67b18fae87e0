-- ===== src/Tests/Workflows.antt =====
-- A workflow of two rules, the second of which fails at first, and its retry.
use central_backend_e_commer.Prelude.{
  ℕ, suc, zero, ◌+◌, ◌≡◌, refl, Bool, true, false, some, none, List, [], ◌∷◌, arith, String,
}
use central_backend_e_commer.Prelude.Int.{pos}
use central_backend_e_commer.Action.{Result, ok, err, bad_request}
use central_backend_e_commer.Prisma.{list_client, list_client-Laws}
use central_backend_e_commer.Workflow.Json.{Json, null, num, str, arr, obj, nil, cons, end, field}
use central_backend_e_commer.Workflow.Rules.{evaluate_condition, compare, to_number, evaluate_node}
use central_backend_e_commer.Workflow.Json.{get_path_value}
use central_backend_e_commer.Workflow.Tables.{Workflow, EngineDb, Runtime}
use central_backend_e_commer.Workflow.Checkpoint.{
  running_output, failed_output, success_output, read_checkpoint,
}
use central_backend_e_commer.Workflow.Engine.{
  execute_workflow, open_execution, run_execution, run_rules, run_rule,
}
use central_backend_e_commer.Workflow.Engine.Runs.{Once, Told, recording}
use central_backend_e_commer.EventBus.Names.{
  system_events, names_in, event_name_candidates, event_name_candidates_lem,
}
use central_backend_e_commer.Workflow.Triggers.{Delivery, deliver_all, dispatch_matching_workflows}
use central_backend_e_commer.Workflow.Triggers.Deliveries.{deliver_all-Once}
use central_backend_e_commer.Tests.Shop.{clerk}

-- The world counts the calls; the second call fails.
abbrev call : ℕ → Result Json × ℕ
call zero = (ok null, 1)
call (suc zero) = (err (bad_request "mail server"), 2)
call n = (ok null, n + 1)

abbrev flaky : Runtime ℕ
flaky = record {
  execute = λ action input w. call w;
  number_of_text = λ s. none;
  message_of = λ e. "failed";
}

abbrev above_ten : Json
above_ten = obj (
    field "field" (str "payload.total")
      (field "operator" (str "gt") (field "value" (num (pos 10)) end)))

abbrev two_rules : Workflow
two_rules = record {
  id = "w5";
  name = "thank you";
  trigger_event = "order.paid";
  is_active = true;
  rules =
      record { id = "a"; condition_json = above_ten; action_json = null }
      ∷ record { id = "b"; condition_json = null; action_json = null }
      ∷ [];
}

abbrev order_paid : Json
order_paid = obj (field "payload" (obj (field "total" (num (pos 12)) end)) end)

abbrev idle : EngineDb ℕ
idle = record {
  workflows = two_rules ∷ [];
  executions = [];
  logs = [];
  audit = [];
  world = 0;
  drawn = 0;
}

abbrev run_once : EngineDb ℕ → EngineDb ℕ
run_once s = (execute_workflow list_client clerk flaky two_rules order_paid (some "k") s).1

calls : (run_once (run_once (run_once idle))).world ≡ 3
unfolding execute_workflow open_execution run_execution run_rules run_rule evaluate_condition
    evaluate_node get_path_value compare to_number running_output failed_output success_output
    read_checkpoint
calls = refl

idle-Once : Once idle.executions idle.logs
idle-Once = record { at_most = λ id r. omega arith; keyed = tt; told = λ id r h. omega arith }

abbrev paid : Delivery
paid = record { env = clerk; trigger_event = "OrderPaid"; input = order_paid }

-- By an older name of the event, the workflow is found.
dispatched : (deliver_all list_client flaky (paid ∷ []) idle).world ≡ 2
unfolding dispatch_matching_workflows event_name_candidates execute_workflow open_execution
    run_execution run_rules run_rule evaluate_condition evaluate_node get_path_value compare
    to_number running_output failed_output read_checkpoint
dispatched = refl

abbrev recorded_idle : EngineDb (ℕ × List Json)
recorded_idle = record {
  workflows = two_rules ∷ [];
  executions = [];
  logs = [];
  audit = [];
  world = (0, []);
  drawn = 0;
}

abbrev no_action : String → Json
no_action r = null

deliver_all-Once_example :
    let t = deliver_all list_client (recording flaky) (paid ∷ paid ∷ []) recorded_idle in
    Once t.executions t.logs × Told no_action t.world.1 t.workflows t.logs
deliver_all-Once_example =
    deliver_all-Once list_client-Laws flaky no_action (paid ∷ paid ∷ []) recorded_idle idle-Once
      (record { acts = ((refl, (refl, tt)), tt); as_told = refl })

-- Conditions by the other names of the keys, without an operator, on parts of a text and on a text that is
-- read as a number.
abbrev tested : String → Json → Json → Bool
tested operator left right =
    evaluate_condition (λ s. some (pos 7))
      (obj (field "field" (str "x") (field "operator" (str operator) (field "value" right end))))
      (obj (field "x" left end))

abbrev is_seven : Json
is_seven = obj (field "field" (str "x") (field "value" (num (pos 7)) end))

nested :
    evaluate_condition
      (λ s. none)
      (obj (
        field "and"
          (arr
            (cons is_seven (cons (obj (field "or" (arr (cons null (cons is_seven nil))) end)) nil)))
          end))
      (obj (field "x" (num (pos 7)) end))
    ≡ true
unfolding evaluate_condition evaluate_node get_path_value compare
nested = refl

part : tested "contains" (str "invoice") (str "voice") ≡ true
unfolding evaluate_condition evaluate_node get_path_value compare
part = refl

no_part : tested "contains" (str "voice") (str "invoice") ≡ false
unfolding evaluate_condition evaluate_node get_path_value compare
no_part = refl

read_number : tested "gt" (str "7.0") (num (pos 6)) ≡ true
unfolding evaluate_condition evaluate_node get_path_value compare to_number
read_number = refl

event_name_candidates_lem_example :
    event_name_candidates "OrderPaid" ≡ names_in system_events "OrderPaid"
event_name_candidates_lem_example = event_name_candidates_lem "OrderPaid"
