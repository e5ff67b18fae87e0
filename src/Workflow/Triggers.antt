-- ===== src/Workflow/Triggers.antt =====
-- `TriggerService.dispatchMatchingWorkflows`: an event runs the active workflows that it triggers.
pub mod Deliveries
use Prim.Native.String
use text.Mathlib.Text.{◌==◌ as ◌==ₛ◌}
use central_backend_e_commer.Prelude.{
  ◌&&◌, Option, none, some, List, [], ◌∷◌, String, if◌then◌else◌,
}
use central_backend_e_commer.Prelude.Text.{template}
use central_backend_e_commer.Action.{Action, Result, ok, err}
use central_backend_e_commer.Prisma.{Prisma}
use central_backend_e_commer.Schema.{Env}
use central_backend_e_commer.EventBus.Names.{event_name_candidates, is_among}
use central_backend_e_commer.Workflow.Json.{Json, Value, member, text_of}
use central_backend_e_commer.Workflow.Tables.{Workflow, WorkflowExecution, EngineDb, Runtime}
use central_backend_e_commer.Workflow.Engine.{execute_workflow}

-- An empty text is falsy.
abbrev pub non_empty : Option String → Option String
non_empty none = none
non_empty (some s) = if s ==ₛ "" then none else some s

abbrev pub first_text : List Value → Option String
first_text [] = none
first_text (v ∷ vs) = elim (text_of v) [ some s ↦ some s | none ↦ first_text vs ]

abbrev pub business_key : Value → Option String
business_key payload = first_text (
    member "id" payload
    ∷ member "goodsReceiptId" payload
    ∷ member "referenceId" payload
    ∷ member "id" (member "payment" payload)
    ∷ member "id" (member "refundPayment" payload)
    ∷ [])

abbrev pub joined : String → String → String → String
joined workflow_id trigger_event key = template workflow_id ":" trigger_event (String.◌++◌ ":" key)

-- `buildWorkflowEventKey`
abbrev pub build_workflow_event_key : String → String → Json → Option String
build_workflow_event_key workflow_id trigger_event input =
    elim (non_empty (business_key (member "payload" (some input)))) [
      | some key ↦ some (joined workflow_id trigger_event key)
      | none ↦ elim (non_empty (text_of (member "eventId" (some input)))) [
        | some id ↦ some (joined workflow_id trigger_event id)
        | none ↦ none
      ]
    ]

abbrev pub collect : {A : Type 0} → Result A → Result (List A) → Result (List A)
collect (err e) rest = err e
collect (ok a) (err e) = err e
collect (ok a) (ok as') = ok (a ∷ as')

module _ (p : Prisma) (env : Env) {W : Type 0} (rt : Runtime W) where
  -- `Promise.all`: each is started, whatever becomes of the others.
  unfoldable pub execute_each :
      String → Json → List Workflow → Action (EngineDb W) (List WorkflowExecution)
  execute_each trigger_event input [] s = (ok [], s)
  execute_each trigger_event input (w ∷ ws) s =
      let (r, s1) =
        execute_workflow p env rt w input (build_workflow_event_key w.id trigger_event input) s in
      let (rest, s2) = execute_each trigger_event input ws s1 in (collect r rest, s2)

  unfoldable pub dispatch_matching_workflows :
      String → Json → Action (EngineDb W) (List WorkflowExecution)
  unfolding execute_each
  dispatch_matching_workflows trigger_event input s =
      execute_each trigger_event input
        (p.find_many Workflow
          (λ w. is_among w.trigger_event (event_name_candidates trigger_event) && w.is_active)
          s.workflows)
        s

-- An event that `WorkflowDomainEventsHandler` hands on.
pub record Delivery : Type 0 where
  pub env : Env
  pub trigger_event : String
  pub input : Json

abbrev pub deliver_all : {W : Type 0} → Prisma → Runtime W → List Delivery → EngineDb W → EngineDb W
deliver_all p rt [] s = s
deliver_all p rt (d ∷ ds) s =
    deliver_all p rt ds (dispatch_matching_workflows p d.env rt d.trigger_event d.input s).1
