-- ===== src/Workflow/Triggers/Deliveries.antt =====
-- Events that are delivered, again and again: each action of a rule runs once for an execution.
use central_backend_e_commer.Prelude.{Bool, sym, subst, ◌&&◌, List, [], ◌∷◌, String}
use central_backend_e_commer.Prisma.{Prisma, Laws, list_client, client-eq, matching}
use central_backend_e_commer.Prisma.Found.{All-if}
use central_backend_e_commer.Schema.{Env}
use central_backend_e_commer.EventBus.Names.{event_name_candidates, is_among}
use central_backend_e_commer.Workflow.Json.{Json}
use central_backend_e_commer.Workflow.Tables.{Workflow, EngineDb, Runtime}
use central_backend_e_commer.Workflow.Engine.Runs.{Once, Told, ActsBy, AllActBy, recording}
use central_backend_e_commer.Workflow.Engine.Once.{OnceIn}
use central_backend_e_commer.Workflow.Engine.Retries.{execute_once}
use central_backend_e_commer.Workflow.Triggers.{
  build_workflow_event_key, execute_each, dispatch_matching_workflows, Delivery, deliver_all,
}

-- The workflows that an event triggers act by the identities of their rules, as all do.
matching-AllActBy :
    (act : String → Json) (c : Workflow → Bool) (ws : List Workflow)
    → AllActBy act ws
    → AllActBy act (matching c ws)
matching-AllActBy act c [] h = tt
matching-AllActBy act c (w ∷ ws) h =
    All-if (λ (x : Workflow). ActsBy act x.rules) (c w) w (matching c ws) (λ m. h.0)
      (matching-AllActBy act c ws h.1)

module _ {V : Type 0} (act : String → Json) (rt : Runtime V) where
  each_once :
      (env : Env) (trigger_event : String) (input : Json) (ws : List Workflow)
      (s : EngineDb (V × List Json))
      → AllActBy act ws
      → OnceIn act s
      → OnceIn act (execute_each list_client env (recording rt) trigger_event input ws s).1
  unfolding execute_each
  each_once env trigger_event input [] s same h = h
  each_once env trigger_event input (w ∷ ws) s same h =
      each_once env trigger_event input ws _ same.1 (
        execute_once act env rt w input (build_workflow_event_key w.id trigger_event input) s same.0
          h)

  dispatch_once :
      (env : Env) (trigger_event : String) (input : Json) (s : EngineDb (V × List Json))
      → OnceIn act s
      → OnceIn act
          (dispatch_matching_workflows list_client env (recording rt) trigger_event input s).1
  unfolding dispatch_matching_workflows
  dispatch_once env trigger_event input s h =
      each_once env trigger_event input
        (list_client.find_many Workflow
          (λ w. is_among w.trigger_event (event_name_candidates trigger_event) && w.is_active)
          s.workflows)
        s
        (matching-AllActBy act
          (λ w. is_among w.trigger_event (event_name_candidates trigger_event) && w.is_active)
          s.workflows h.1.acts)
        h

  all_once :
      (ds : List Delivery) (s : EngineDb (V × List Json))
      → OnceIn act s
      → OnceIn act (deliver_all list_client (recording rt) ds s)
  all_once [] s h = h
  all_once (d ∷ ds) s h =
      all_once ds
        (dispatch_matching_workflows list_client d.env (recording rt) d.trigger_event d.input s).1
        (dispatch_once d.env d.trigger_event d.input s h)

-- The runtime is one that keeps a list of the actions whose calls returned. Whatever events are
-- delivered, however often, and however often actions fail and executions are taken up again: if the
-- log tells of no action of a rule twice for an execution, the executions have different identities, a
-- failed one has in its checkpoint the rules whose actions were executed, and the list is of the
-- actions that the log tells of, then all this holds after the deliveries. So the calls that returned
-- are, one for one and in order, those that the log tells of, and no rule has two of them for an
-- execution; an action whose call threw is called again. A rule's identity stands for its action.
pub deliver_all-Once :
    {V : Type 0} {p : Prisma}
    → Laws p
    → (rt : Runtime V) (act : String → Json) (ds : List Delivery) (s : EngineDb (V × List Json))
    → Once s.executions s.logs
    → Told act s.world.1 s.workflows s.logs
    → let t = deliver_all p (recording rt) ds s in
      Once t.executions t.logs × Told act t.world.1 t.workflows t.logs
deliver_all-Once l rt act ds s h k =
    subst (λ q. OnceIn act (deliver_all q (recording rt) ds s)) (sym (client-eq l))
      (all_once act rt ds s (h, k))
