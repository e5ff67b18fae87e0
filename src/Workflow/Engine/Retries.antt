-- ===== src/Workflow/Engine/Retries.antt =====
-- A request to execute a workflow: a first run, a retry or a repeated delivery.
use central_backend_e_commer.Prelude.{
  ◌+◌, ◌≡◌, refl, sym, subst, Bool, true, false, ◌||◌, Option, none, some, List, [], ◌∷◌, ◌++◌,
  String, ◌==◌, if◌then◌else◌, arith, any,
}
use central_backend_e_commer.Action.{
  Result, ok, err, Error, record_not_found, unique_violation, pure, ◌>>=◌,
}
use central_backend_e_commer.Prisma.{update_where, list_client}
use central_backend_e_commer.Prisma.Keys.{first-append}
use central_backend_e_commer.Prisma.Found.{first-Stored, unclaimed, Keyed-append}
use central_backend_e_commer.Schema.{Env}
use central_backend_e_commer.Workflow.Json.{Json}
use central_backend_e_commer.Workflow.Tables.{
  Workflow, WorkflowExecution, WorkflowExecutionStatus, WorkflowLog, LogLevel, LogMessage, EngineDb,
  Runtime,
}
use central_backend_e_commer.Workflow.Checkpoint.{Progress, read_checkpoint}
use central_backend_e_commer.Workflow.Engine.{
  Opening, to_run, settled, execution_of, same_key, find_by_event_key, run_again, take_up, open_new,
  or_settled, create_execution, update_execution, open_execution, run_execution, execute_workflow,
  log,
}
use central_backend_e_commer.Workflow.Engine.Runs.{
  row_of, Present, CoveredBy, Covered, Once, Running, ActsBy, recording,
}
use central_backend_e_commer.Workflow.Engine.Once.{
  RunningIn, RunningIn-log, OnceIn, Running-update, rules_end, concludes,
}

module _ {t : List WorkflowExecution} {logs : List WorkflowLog} (once : Once t logs) where
  still-Covered :
      (r : String) (o : Option WorkflowExecution) (row : Option WorkflowExecution)
      → Covered r o
      → Covered r (elim o [ none ↦ row | some x ↦ some x ])
  still-Covered r none row h = elim h [ ]
  still-Covered r (some x) row h = h

  -- A row with an identity that no row has.
  Running-created :
      (row : WorkflowExecution) (pr : Progress)
      → row_of row.id t ≡ none
      → Running row.id pr (t ++ (row ∷ [])) logs
  Running-created row pr new = record {
    at_most = once.at_most;
    keyed = Keyed-append (λ (x : WorkflowExecution). x.id) t row once.keyed new;
    told = λ id r m k.
        subst (Covered r) (sym (first-append (λ (x : WorkflowExecution). x.id == id) t (row ∷ [])))
          (still-Covered r (row_of id t) (row_of id (row ∷ [])) (once.told id r k));
    own = λ r k. elim (subst (Covered r) new (once.told row.id r k)) [ ];
    present =
        let e = first-append (λ (x : WorkflowExecution). x.id == row.id) t (row ∷ []) in
        let e' = rw new at e in subst Present (sym e') (ground arith);
  }

  -- The row of a failed execution, whose checkpoint is read back.
  Running-resumed :
      (x : WorkflowExecution)
      → row_of x.id t ≡ some x
      → x.status ≡ WorkflowExecutionStatus.failed
      → Running x.id (read_checkpoint x.output_json) t logs
  Running-resumed x found failed = record {
    at_most = once.at_most;
    keyed = once.keyed;
    told = λ id r m k. once.told id r k;
    own = λ r k.
        subst (λ st. CoveredBy r st x.output_json) failed
          (subst (Covered r) found (once.told x.id r k));
    present = subst Present (sym found) tt;
  }

module _ {V : Type 0} (act : String → Json) where
  abbrev Opened : Result Opening × EngineDb (V × List Json) → Type 0
  Opened (ok (to_run x), s) = RunningIn act x.id (read_checkpoint x.output_json) s
  Opened (ok (settled x), s) = OnceIn act s
  Opened (err e, s) = OnceIn act s

  -- What a write of the row leads to.
  abbrev Written : Result WorkflowExecution × EngineDb (V × List Json) → Type 0
  Written (ok x, s) = RunningIn act x.id (read_checkpoint x.output_json) s
  Written (err e, s) = OnceIn act s

  Written-to_run :
      (q : Result WorkflowExecution × EngineDb (V × List Json))
      → Written q
      → Opened (((λ s. q) >>= λ x. pure (to_run x)) q.1)
  Written-to_run (ok x, s) h = h
  Written-to_run (err e, s) h = h

  by_found :
      (s : EngineDb (V × List Json))
      → OnceIn act s
      → (o : Option WorkflowExecution)
      → Opened (elim o as (λ _. Result Opening × EngineDb (V × List Json)) [
        | none ↦ (err unique_violation, s)
        | some x ↦ (ok (settled x), s)
      ])
  by_found s h none = h
  by_found s h (some x) = h

  module _ (env : Env) where
    creates :
        (workflow : Workflow) (input : Json) (key : Option String) (s : EngineDb (V × List Json))
        → OnceIn act s
        → Written (create_execution list_client env workflow input key s)
    creates workflow input key s once =
        by_conflict (any (λ x. x.id == env.uuid s.drawn || same_key x.event_key key) s.executions)
          refl
      where
        by_conflict :
            (b : Bool)
            → any
                (λ (x : WorkflowExecution). x.id == env.uuid s.drawn || same_key x.event_key key)
                s.executions
              ≡ b
            → Written
                (elim (if b
                    then none
                    else some (s.executions ++ (execution_of env s.drawn workflow input key ∷ [])))
                  as (λ _. Result WorkflowExecution × EngineDb (V × List Json)) [
                    | none ↦ (err unique_violation, s)
                    | some t ↦ (
                      ok (execution_of env s.drawn workflow input key),
                      record s { executions = t; drawn = s.drawn + 1 },
                    )
                  ])
        by_conflict true e = once
        by_conflict false e = (
          Running-created once.0 (execution_of env s.drawn workflow input key) _ (
              unclaimed (λ (x : WorkflowExecution). x.id) (env.uuid s.drawn)
                (λ x. same_key x.event_key key) s.executions e),
          once.1,
        )

    resumes :
        (input : Json) (x : WorkflowExecution) (s : EngineDb (V × List Json))
        → OnceIn act s
        → row_of x.id s.executions ≡ some x
        → x.status ≡ WorkflowExecutionStatus.failed
        → Written (update_execution list_client env x.id (run_again input) s)
    resumes input x s once found failed = by_row (row_of x.id s.executions) found
      where
        by_row :
            (o : Option WorkflowExecution)
            → o ≡ some x
            → Written
                (elim (elim o as (λ _. Option (WorkflowExecution × List WorkflowExecution)) [
                  | none ↦ none
                  | some y ↦ some (
                    run_again input y,
                    update_where (λ y. y.id == x.id) (run_again input) s.executions,
                  )
                ])
                  as (λ _. Result WorkflowExecution × EngineDb (V × List Json)) [
                    | none ↦ (err record_not_found, s)
                    | some (y, t) ↦ (ok y, record s { executions = t })
                  ])
        by_row none e = once
        by_row (some y) e =
            let same : y ≡ x = cc in
            (
              subst
                  (λ z.
                    Running z.id (read_checkpoint z.output_json)
                      (update_where (λ y. y.id == x.id) (run_again input) s.executions) s.logs)
                  (sym same)
                  (Running-update (Running-resumed once.0 x found failed) (run_again input)
                    (λ z. refl)),
              once.1,
            )

    settles :
        (k : String) (q : Result Opening × EngineDb (V × List Json))
        → Opened q
        → Opened (or_settled list_client env k q)
    settles k (ok o, s) h = h
    settles k (err Error.unique_violation, s) h =
        by_found s h (find_by_event_key list_client env k s)
    settles k (err e, s) h = h

    takes_up :
        (input : Json) (x : WorkflowExecution) (st : WorkflowExecutionStatus)
        (s : EngineDb (V × List Json))
        → OnceIn act s
        → row_of x.id s.executions ≡ some x
        → x.status ≡ st
        → Opened (take_up list_client env input x st s)
    takes_up input x WorkflowExecutionStatus.success s once found e = once
    takes_up input x WorkflowExecutionStatus.running s once found e = once
    takes_up input x WorkflowExecutionStatus.failed s once found e =
        Written-to_run (update_execution list_client env x.id (run_again input) s)
          (resumes input x s once found e)

    opens :
        (workflow : Workflow) (input : Json) (key : Option String) (s : EngineDb (V × List Json))
        → OnceIn act s
        → Opened (open_execution list_client env workflow input key s)
    unfolding open_execution
    opens workflow input none s once =
        Written-to_run (create_execution list_client env workflow input none s)
          (creates workflow input none s once)
    opens workflow input (some k) s once =
        settles k _ (by_key (find_by_event_key list_client env k s) refl)
      where
        by_key :
            (o : Option WorkflowExecution)
            → find_by_event_key list_client env k s ≡ o
            → Opened (elim o as (λ _. Result Opening × EngineDb (V × List Json)) [
              | none ↦ open_new list_client env workflow input (some k) s
              | some x ↦ take_up list_client env input x x.status s
            ])
        by_key none e =
            Written-to_run (create_execution list_client env workflow input (some k) s)
              (creates workflow input (some k) s once)
        by_key (some x) e =
            takes_up input x x.status s once
              (first-Stored (λ (x : WorkflowExecution). x.id) (λ x. same_key x.event_key (some k))
                s.executions x once.0.keyed e)
              refl

    module _ (rt : Runtime V) where
      runs_on :
          (workflow : Workflow) (input : Json) (x : WorkflowExecution)
          (s : EngineDb (V × List Json))
          → ActsBy act workflow.rules
          → RunningIn act x.id (read_checkpoint x.output_json) s
          → OnceIn act (run_execution list_client env (recording rt) workflow input x s).1
      unfolding run_execution
      runs_on workflow input x s same run = concludes act env rt workflow x.id _ (
          rules_end act env rt x.id input workflow.rules (read_checkpoint x.output_json)
            (log x.id LogLevel.info (LogMessage.workflow_started workflow.name) s) same
            (RunningIn-log act x.id (read_checkpoint x.output_json) s _ (λ r. refl) refl run))

      pub execute_once :
          (workflow : Workflow) (input : Json) (key : Option String) (s : EngineDb (V × List Json))
          → ActsBy act workflow.rules
          → OnceIn act s
          → OnceIn act (execute_workflow list_client env (recording rt) workflow input key s).1
      unfolding execute_workflow
      execute_once workflow input key s same once =
          by_opening (open_execution list_client env workflow input key s)
            (opens workflow input key s once)
        where
          by_opening :
              (q : Result Opening × EngineDb (V × List Json))
              → Opened q
              → OnceIn act
                  (((λ (z : EngineDb (V × List Json)). q) >>= λ o. elim o [
                    | to_run x ↦ run_execution list_client env (recording rt) workflow input x
                    | settled x ↦ pure x
                  ])
                    s).1
          by_opening (ok (to_run x), z) h = runs_on workflow input x z same h
          by_opening (ok (settled x), z) h = h
          by_opening (err e, z) h = h
