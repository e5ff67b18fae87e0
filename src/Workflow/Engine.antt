-- ===== src/Workflow/Engine.antt =====
-- `WorkflowEngineService.executeWorkflow`: an execution of a workflow, which a failure leaves to be
-- taken up again where it stopped.
pub mod Runs
pub mod Once
pub mod Retries
use text.Mathlib.Text.{◌==◌ as ◌==ₛ◌}
use central_backend_e_commer.Prelude.{
  ℕ, ◌+◌, Bool, true, false, ◌||◌, Option, none, some, List, [], ◌∷◌, ◌++◌, String, ◌==◌,
  if◌then◌else◌,
}
use central_backend_e_commer.Action.{
  Action, Result, ok, err, Error, unique_violation, record_not_found, pure, ◌>>=◌,
}
use central_backend_e_commer.Prisma.{Prisma}
use central_backend_e_commer.Schema.{Env}
use central_backend_e_commer.Workflow.Json.{Json}
use central_backend_e_commer.Workflow.Rules.{evaluate_condition}
use central_backend_e_commer.Workflow.Tables.{
  Workflow, WorkflowRule, WorkflowExecution, WorkflowExecutionStatus, WorkflowLog, WorkflowAudit,
  LogLevel, LogMessage, EngineDb, Runtime,
}
use central_backend_e_commer.Workflow.Checkpoint.{
  Progress, no_progress, has, add, running_output, success_output, failed_output, read_checkpoint,
}

-- The unique column `event_key`; `null` is unlike any.
abbrev pub same_key : Option String → Option String → Bool
same_key (some a) (some b) = a ==ₛ b
same_key _ _ = false

-- Either the row to run, or one that is returned as it is.
pub data Opening : Type 0 where
  to_run settled : WorkflowExecution → Opening

-- How the loop over the rules ended, and what was done by then.
pub data Outcome : Type 0 where
  finished : Progress → Outcome
  stopped : Error → Progress → Outcome

abbrev pub execution_of : Env → ℕ → Workflow → Json → Option String → WorkflowExecution
execution_of env n workflow input key = record {
  id = env.uuid n;
  workflow_id = workflow.id;
  event_key = key;
  status = WorkflowExecutionStatus.running;
  input_json = input;
  output_json = some (running_output no_progress);
}

abbrev pub run_again : Json → WorkflowExecution → WorkflowExecution
run_again input x = record x { status = WorkflowExecutionStatus.running; input_json = input }

abbrev pub with_output : WorkflowExecutionStatus → Json → WorkflowExecution → WorkflowExecution
with_output status output x = record x { status = status; output_json = some output }

abbrev pub with_progress : Progress → WorkflowExecution → WorkflowExecution
with_progress pr x = record x { output_json = some (running_output pr) }

-- `actions.push(result)` and `completedRuleIds.add(rule.id)`
abbrev pub further : String → Json → Progress → Progress
further r result pr = record {
  actions = pr.actions ++ (result ∷ []);
  completed = add r pr.completed;
}

module _ {W : Type 0} where
  abbrev pub log : ℕ → LogLevel → LogMessage → EngineDb W → EngineDb W
  log id level message s = record s {
    logs = s.logs ++ (record { execution_id = id; level = level; message = message } ∷ []);
  }

  abbrev pub audited : WorkflowAudit → EngineDb W → EngineDb W
  audited line s = record s { audit = s.audit ++ (line ∷ []) }

module _ (p : Prisma) (env : Env) {W : Type 0} where
  abbrev pub find_by_event_key : String → EngineDb W → Option WorkflowExecution
  find_by_event_key k s =
      p.find_first WorkflowExecution (λ x. same_key x.event_key (some k)) s.executions

  -- The unique columns are the identity and the event key.
  abbrev pub create_execution :
      Workflow → Json → Option String → Action (EngineDb W) WorkflowExecution
  create_execution workflow input key s =
      let row = execution_of env s.drawn workflow input key in
      elim (p.create WorkflowExecution (λ x. x.id == row.id || same_key x.event_key row.event_key)
        row s.executions) [
          | none ↦ (err unique_violation, s)
          | some t ↦ (ok row, record s { executions = t; drawn = s.drawn + 1 })
        ]

  abbrev pub update_execution :
      ℕ → (WorkflowExecution → WorkflowExecution) → Action (EngineDb W) WorkflowExecution
  update_execution id f s = elim (p.update WorkflowExecution (λ x. x.id == id) f s.executions) [
    | none ↦ (err record_not_found, s)
    | some (x, t) ↦ (ok x, record s { executions = t })
  ]

  abbrev pub take_up :
      Json → WorkflowExecution → WorkflowExecutionStatus → Action (EngineDb W) Opening
  take_up input x WorkflowExecutionStatus.success = pure (settled x)
  take_up input x WorkflowExecutionStatus.running = pure (settled x)
  take_up input x WorkflowExecutionStatus.failed = do
    updated ← update_execution x.id (run_again input)
    pure (to_run updated)

  abbrev pub open_new : Workflow → Json → Option String → Action (EngineDb W) Opening
  open_new workflow input key = do
    created ← create_execution workflow input key
    pure (to_run created)

  -- The `catch` of a key that another request took first.
  abbrev pub or_settled : String → Result Opening × EngineDb W → Result Opening × EngineDb W
  or_settled k (err Error.unique_violation, s) = elim (find_by_event_key k s) [
    | none ↦ (err unique_violation, s)
    | some x ↦ (ok (settled x), s)
  ]
  or_settled k r = r

  unfoldable pub open_execution : Workflow → Json → Option String → Action (EngineDb W) Opening
  open_execution workflow input none s = open_new workflow input none s
  open_execution workflow input (some k) s = or_settled k (elim (find_by_event_key k s) [
    | none ↦ open_new workflow input (some k) s
    | some x ↦ take_up input x x.status s
  ])

  module _ (rt : Runtime W) where
    abbrev pub keep_checkpoint :
        ℕ → String → Progress → Result WorkflowExecution × EngineDb W → Outcome × EngineDb W
    keep_checkpoint id r pr (err e, s) = (stopped e pr, s)
    keep_checkpoint id r pr (ok x, s) =
        (finished pr, log id LogLevel.info (LogMessage.rule_action_executed r) s)

    abbrev pub after_action :
        ℕ → String → Progress → EngineDb W → Result Json × W → Outcome × EngineDb W
    after_action id r pr s (err e, w) = (stopped e pr, record s { world = w })
    after_action id r pr s (ok result, w) =
        let pr' = further r result pr in
        keep_checkpoint id r pr' (update_execution id (with_progress pr') (record s { world = w }))

    -- One round of the loop.
    unfoldable pub run_rule : ℕ → Json → WorkflowRule → Progress → EngineDb W → Outcome × EngineDb W
    run_rule id input rule pr s =
        if evaluate_condition rt.number_of_text rule.condition_json input
        then (let s1 = log id LogLevel.info (LogMessage.rule_matched rule.id) s in
            if has rule.id pr.completed
            then (finished pr, log id LogLevel.info (LogMessage.rule_already_executed rule.id) s1)
            else after_action id rule.id pr s1 (rt.execute rule.action_json input s1.world))
        else (finished pr, log id LogLevel.info (LogMessage.rule_skipped rule.id) s)

    unfoldable pub run_rules :
        ℕ → Json → List WorkflowRule → Progress → EngineDb W → Outcome × EngineDb W
    run_rules id input [] pr s = (finished pr, s)
    run_rules id input (rule ∷ rules) pr s =
        let (o, s') = run_rule id input rule pr s in
        elim o [
          | finished pr' ↦ run_rules id input rules pr' s'
          | stopped e pr' ↦ (stopped e pr', s')
        ]

    -- The `catch`: the execution failed, and its row tells how far it got.
    abbrev pub fail : Workflow → ℕ → Error → Progress → Action (EngineDb W) WorkflowExecution
    fail workflow id e pr s =
        let s1 = log id LogLevel.error (LogMessage.workflow_failed e) s in
        elim (p.update WorkflowExecution (λ x. x.id == id)
          (with_output WorkflowExecutionStatus.failed (failed_output pr (rt.message_of e)))
          s1.executions) [
            | none ↦ (err record_not_found, s1)
            | some (x, t) ↦ (
              err e,
              audited (WorkflowAudit.failed workflow.id id e) (record s1 { executions = t }),
            )
          ]

    abbrev pub conclude :
        Workflow → ℕ → Outcome × EngineDb W → Result WorkflowExecution × EngineDb W
    conclude workflow id (stopped e pr, s) = fail workflow id e pr s
    conclude workflow id (finished pr, s) =
        elim (p.update WorkflowExecution (λ x. x.id == id)
          (with_output WorkflowExecutionStatus.success (success_output pr)) s.executions) [
            | none ↦ fail workflow id record_not_found pr s
            | some (x, t) ↦ (
              ok x,
              audited (WorkflowAudit.executed workflow.id id x.status)
                  (record s { executions = t }),
            )
          ]

    unfoldable pub run_execution :
        Workflow → Json → WorkflowExecution → Action (EngineDb W) WorkflowExecution
    run_execution workflow input x s = conclude workflow x.id (
        run_rules x.id input workflow.rules (read_checkpoint x.output_json)
          (log x.id LogLevel.info (LogMessage.workflow_started workflow.name) s))

    unfoldable pub execute_workflow :
        Workflow → Json → Option String → Action (EngineDb W) WorkflowExecution
    execute_workflow workflow input key = open_execution workflow input key >>= λ o. elim o [
      | to_run x ↦ run_execution workflow input x
      | settled x ↦ pure x
    ]
