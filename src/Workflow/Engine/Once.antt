-- ===== src/Workflow/Engine/Once.antt =====
-- An execution runs the action of a rule at most once, retries included.
use text.Mathlib.Text.{◌==◌ as ◌==ₛ◌}
use text.Mathlib.TextEquality.{eq_iff}
use mathlib.Core.Option.{map as map_option}
use mathlib.Core.List.{map-append}
use central_backend_e_commer.Prelude.{
  ℕ, ◌<◌, ◌≡◌, refl, sym, subst, inl, inr, true, false, Option, none, some, List, [], ◌∷◌, ◌++◌,
  String, ◌==◌, Bool-cases, if◌then◌else◌, arith, ap, ◌∙◌, map,
}
use central_backend_e_commer.Action.{Result, ok, err, Error, record_not_found}
use central_backend_e_commer.Prisma.{update_where, list_client}
use central_backend_e_commer.Prisma.Keys.{first-update_where, update_where-Keyed}
use central_backend_e_commer.Schema.{Env}
use central_backend_e_commer.Workflow.Json.{Json}
use central_backend_e_commer.Workflow.Rules.{evaluate_condition}
use central_backend_e_commer.Workflow.Tables.{
  Workflow, WorkflowRule, WorkflowExecution, WorkflowExecutionStatus, WorkflowLog, WorkflowAudit,
  LogLevel, LogMessage, EngineDb, Runtime,
}
use central_backend_e_commer.Workflow.Checkpoint.{
  Progress, has, add, read_checkpoint-failed, failed_output, success_output,
}
use central_backend_e_commer.Workflow.Engine.{
  Outcome, finished, stopped, further, with_progress, with_output, log, keep_checkpoint,
  after_action, run_rule, run_rules, update_execution, conclude, fail, audited,
}
use central_backend_e_commer.Workflow.Engine.Runs.{
  runs, row_of, Present, CoveredBy, Covered, Once, Running, has-add, has-add_self, runs-append,
  tells_run, tells_of, executed_in, executed_in-quiet, executed_in-append, ActsBy, AllActBy, Told,
  noted, recording,
}

row_of-update :
    (id e : ℕ) (f : WorkflowExecution → WorkflowExecution)
    → ((x : WorkflowExecution) → (f x).id ≡ x.id)
    → (t : List WorkflowExecution)
    → row_of id (update_where (λ x. x.id == e) f t)
      ≡ (if id == e then map_option f (row_of id t) else row_of id t)
row_of-update id e f h t = first-update_where (λ (x : WorkflowExecution). x.id) id e f h t

abbrev executed_line : ℕ → String → WorkflowLog
executed_line e q = record {
  execution_id = e;
  level = LogLevel.info;
  message = LogMessage.rule_action_executed q;
}

Present-map :
    (f : WorkflowExecution → WorkflowExecution) (o : Option WorkflowExecution)
    → Present o
    → Present (map_option f o)
Present-map f none h = h
Present-map f (some x) h = tt

same_number : (n : ℕ) → (n == n) ≡ true
same_number n = ground arith

module _ {e : ℕ} {pr : Progress} {t : List WorkflowExecution} {logs : List WorkflowLog}
    (run : Running e pr t logs) where
  -- A line that tells of no action.
  pub Running-log :
      (l : WorkflowLog)
      → ((r : String) → tells_run r l.message ≡ false)
      → Running e pr t (logs ++ (l ∷ []))
  Running-log l h = record {
    at_most = λ id r. ground (arith, runs-append id r logs l, h r, run.at_most id r);
    told = λ id r m k. run.told id r m (ground (arith, runs-append id r logs l, h r));
    own = λ r k. run.own r (ground (arith, runs-append e r logs l, h r));
    keyed = run.keyed;
    present = run.present;
  }

  -- A write to the row of the execution.
  pub Running-update :
      (f : WorkflowExecution → WorkflowExecution)
      → ((x : WorkflowExecution) → (f x).id ≡ x.id)
      → Running e pr (update_where (λ x. x.id == e) f t) logs
  Running-update f h = record {
    at_most = run.at_most;
    told = λ id r m k.
        let other = row_of-update id e f h t in
        let other' = rw m at other in subst (Covered r) (sym other') (run.told id r m k);
    own = run.own;
    keyed = update_where-Keyed (λ (x : WorkflowExecution). x.id) (λ x. x.id == e) f h t run.keyed;
    present =
        let own_row = row_of-update e e f h t in
        let own_row' = rw (same_number e) at own_row in
        subst Present (sym own_row') (Present-map f (row_of e t) run.present);
  }

  not_yet : (q : String) → has q pr.completed ≡ false → runs e q logs ≡ 0
  not_yet q h = ground (arith, run.own q)

  Running-grow :
      (q : String) (pr' : Progress) → pr'.completed ≡ add q pr.completed → Running e pr' t logs
  Running-grow q pr' grown = record {
    at_most = run.at_most;
    told = run.told;
    own = λ r k. rw grown (has-add r q pr.completed (run.own r k));
    keyed = run.keyed;
    present = run.present;
  }

  -- The action of a rule that the progress did not have.
  Running-executed :
      (q : String) (pr' : Progress)
      → has q pr.completed ≡ false
      → pr'.completed ≡ add q pr.completed
      → Running e pr' t (logs ++ (executed_line e q ∷ []))
  Running-executed q pr' fresh grown = record {
    at_most = λ id r. ground (
      arith,
      runs-append id r logs (executed_line e q),
      not_yet q fresh,
      eq_iff q r,
      run.at_most id r,
    );
    told = λ id r m k. run.told id r m (ground (arith, runs-append id r logs (executed_line e q)));
    own = λ r k. rw grown (elim (Bool-cases (q ==ₛ r)) [
      | inl same ↦
          subst (λ x. has x (add q pr.completed) ≡ true) ((eq_iff q r).0 same)
            (has-add_self q pr.completed)
      | inr other ↦
          has-add r q pr.completed
            (run.own r (ground (arith, runs-append e r logs (executed_line e q))))
    ]);
    keyed = run.keyed;
    present = run.present;
  }

module _ {e : ℕ} {pr : Progress} {t : List WorkflowExecution} {logs : List WorkflowLog}
    (run : Running e pr t logs) where
  Covered-own :
      (r : String) (f : WorkflowExecution → WorkflowExecution) (o : Option WorkflowExecution)
      → Present o
      → ((x : WorkflowExecution) → CoveredBy r (f x).status (f x).output_json)
      → Covered r (map_option f o)
  Covered-own r f none p h = elim p [ ]
  Covered-own r f (some x) p h = h x

  -- An execution whose row tells of its actions has ended.
  Once-ended :
      (f : WorkflowExecution → WorkflowExecution)
      → ((x : WorkflowExecution) → (f x).id ≡ x.id)
      → ((x : WorkflowExecution) (r : String)
          → has r pr.completed ≡ true
          → CoveredBy r (f x).status (f x).output_json)
      → Once (update_where (λ x. x.id == e) f t) logs
  Once-ended f h tell = record {
    at_most = run.at_most;
    keyed = update_where-Keyed (λ (x : WorkflowExecution). x.id) (λ x. x.id == e) f h t run.keyed;
    told = λ id r k. elim (Bool-cases (id == e)) [
      | inl m ↦
          let same : id ≡ e = ground arith in
          let k' = subst (λ n. 0 < runs n r logs) same k in
          let moved = row_of-update e e f h t in
          let moved' = rw (same_number e) at moved in
          subst (λ n. Covered r (row_of n (update_where (λ x. x.id == e) f t))) (sym same)
            (subst (Covered r) (sym moved')
              (Covered-own r f (row_of e t) run.present (λ x. tell x r (run.own r k'))))
      | inr m ↦
          let moved = row_of-update id e f h t in
          let moved' = rw m at moved in subst (Covered r) (sym moved') (run.told id r m k)
    ];
  }

-- How a part of the loop ends: with the progress that it made, which the log bears out.
abbrev pub progress_of : Outcome → Progress
progress_of (finished pr) = pr
progress_of (stopped e pr) = pr

module _ {V : Type 0} (act : String → Json) where
  abbrev pub ToldIn : EngineDb (V × List Json) → List WorkflowLog → Type 0
  ToldIn s logs = Told act s.world.1 s.workflows logs

  abbrev pub RunningIn : ℕ → Progress → EngineDb (V × List Json) → Type 0
  RunningIn e pr s = Running e pr s.executions s.logs × ToldIn s s.logs

  abbrev pub Ends : ℕ → Outcome × EngineDb (V × List Json) → Type 0
  Ends e (o, s) = RunningIn e (progress_of o) s

  abbrev pub OnceIn : EngineDb (V × List Json) → Type 0
  OnceIn s = Once s.executions s.logs × ToldIn s s.logs

  Told-log :
      (s : EngineDb (V × List Json)) (l : WorkflowLog)
      → tells_of l.message ≡ []
      → ToldIn s s.logs
      → ToldIn s (s.logs ++ (l ∷ []))
  Told-log s l h t = record {
    acts = t.acts;
    as_told = t.as_told ∙ ap (map act) (sym (executed_in-quiet s.logs l h));
  }

  -- A line that tells of no action.
  pub RunningIn-log :
      (e : ℕ) (pr : Progress) (s : EngineDb (V × List Json)) (l : WorkflowLog)
      → ((r : String) → tells_run r l.message ≡ false)
      → tells_of l.message ≡ []
      → RunningIn e pr s
      → RunningIn e pr (record s { logs = s.logs ++ (l ∷ []) })
  RunningIn-log e pr s l h k run = (Running-log run.0 l h, Told-log s l k run.1)

  module _ (env : Env) (rt : Runtime V) where
    kept :
        (e : ℕ) (q : String) (result : Json) (pr : Progress) (s : EngineDb (V × List Json))
        → Running e pr s.executions s.logs
        → AllActBy act s.workflows
        → s.world.1 ≡ map act (executed_in s.logs) ++ (act q ∷ [])
        → has q pr.completed ≡ false
        → Ends e (
            keep_checkpoint list_client env
              (recording rt)
              e
              q
              (further q result pr)
              (update_execution list_client env e (with_progress (further q result pr)) s))
    kept e q result pr s run acts called fresh = by_row (row_of e s.executions) run.present
      where
        by_row :
            (o : Option WorkflowExecution)
            → Present o
            → Ends e (
                keep_checkpoint list_client env
                  (recording rt)
                  e
                  q
                  (further q result pr)
                  (elim (elim o as (λ _. Option (WorkflowExecution × List WorkflowExecution)) [
                    | none ↦ none
                    | some x ↦ some (
                      with_progress (further q result pr) x,
                      update_where
                          (λ y. y.id == e)
                          (with_progress (further q result pr))
                          s.executions,
                    )
                  ])
                    as (λ _. Result WorkflowExecution × EngineDb (V × List Json)) [
                      | none ↦ (err record_not_found, s)
                      | some (x, t) ↦ (ok x, record s { executions = t })
                    ]))
        by_row none p = elim p [ ]
        by_row (some x) p = (
          Running-executed (Running-update run (with_progress (further q result pr)) (λ y. refl)) q
              (further q result pr) fresh refl,
          record {
            acts = acts;
            as_told =
                called
                ∙ sym (
                    ap (map act) (executed_in-append s.logs (executed_line e q))
                    ∙ map-append act (executed_in s.logs) (q ∷ []));
          },
        )

    acted :
        (e : ℕ) (q : String) (action : Json) (pr : Progress) (s : EngineDb (V × List Json))
        (res : Result Json × V)
        → act q ≡ action
        → RunningIn e pr s
        → has q pr.completed ≡ false
        → Ends e (after_action list_client env (recording rt) e q pr s (noted action s.world.1 res))
    acted e q action pr s (err x, v) same run fresh = run
    acted e q action pr s (ok result, v) same run fresh =
        kept e q result pr (record s { world = (v, s.world.1 ++ (action ∷ [])) }) run.0 run.1.acts
          (rw (run.1.as_told, same) refl) fresh

    rule-Ends :
        (e : ℕ) (input : Json) (rule : WorkflowRule) (pr : Progress) (s : EngineDb (V × List Json))
        → act rule.id ≡ rule.action_json
        → RunningIn e pr s
        → Ends e (run_rule list_client env (recording rt) e input rule pr s)
    unfolding run_rule
    rule-Ends e input rule pr s same run =
        elim (Bool-cases (evaluate_condition rt.number_of_text rule.condition_json input)) [
          | inl m ↦ elim (Bool-cases (has rule.id pr.completed)) [
            | inl done ↦
                rw (m, done)
                  (RunningIn-log e pr (log e LogLevel.info (LogMessage.rule_matched rule.id) s) _
                    (λ r. refl) refl (RunningIn-log e pr s _ (λ r. refl) refl run))
            | inr new ↦
                rw (m, new)
                  (acted e rule.id rule.action_json pr
                    (log e LogLevel.info (LogMessage.rule_matched rule.id) s)
                    (rt.execute rule.action_json input s.world.0) same
                    (RunningIn-log e pr s _ (λ r. refl) refl run) new)
          ]
          | inr m ↦ rw m (RunningIn-log e pr s _ (λ r. refl) refl run)
        ]

    pub rules_end :
        (e : ℕ) (input : Json) (rules : List WorkflowRule) (pr : Progress)
        (s : EngineDb (V × List Json))
        → ActsBy act rules
        → RunningIn e pr s
        → Ends e (run_rules list_client env (recording rt) e input rules pr s)
    unfolding run_rules
    rules_end e input [] pr s same run = run
    rules_end e input (rule ∷ rules) pr s same run =
        go (run_rule list_client env (recording rt) e input rule pr s).0
          (run_rule list_client env (recording rt) e input rule pr s).1
          (rule-Ends e input rule pr s same.0 run)
          (λ pr' s' run'. rules_end e input rules pr' s' same.1 run')
      where
        go :
            (o : Outcome) (s' : EngineDb (V × List Json))
            → Ends e (o, s')
            → ((pr' : Progress) (s'' : EngineDb (V × List Json))
                → RunningIn e pr' s''
                → Ends e (run_rules list_client env (recording rt) e input rules pr' s''))
            → Ends e (elim o as (λ _. Outcome × EngineDb (V × List Json)) [
              | finished pr' ↦ run_rules list_client env (recording rt) e input rules pr' s'
              | stopped x pr' ↦ (stopped x pr', s')
            ])
        go (finished pr') s' run' next = next pr' s' run'
        go (stopped x pr') s' run' next = run'

    -- The end of an execution, with its row there.
    fails :
        (workflow : Workflow) (e : ℕ) (x : Error) (pr : Progress) (s : EngineDb (V × List Json))
        → RunningIn e pr s
        → OnceIn (fail list_client env (recording rt) workflow e x pr s).1
    fails workflow e x pr s run = by_row (row_of e s.executions) run.0.present
      where
        by_row :
            (o : Option WorkflowExecution)
            → Present o
            → OnceIn
                (elim (elim o as (λ _. Option (WorkflowExecution × List WorkflowExecution)) [
                  | none ↦ none
                  | some y ↦ some (
                    with_output WorkflowExecutionStatus.failed
                        (failed_output pr (rt.message_of x))
                        y,
                    update_where
                        (λ y. y.id == e)
                        (with_output WorkflowExecutionStatus.failed
                          (failed_output pr (rt.message_of x)))
                        s.executions,
                  )
                ])
                  as (λ _. Result WorkflowExecution × EngineDb (V × List Json)) [
                    | none ↦ (
                      err record_not_found,
                      log e LogLevel.error (LogMessage.workflow_failed x) s,
                    )
                    | some (y, t) ↦ (
                      err x,
                      audited
                          (WorkflowAudit.failed workflow.id e x)
                          (record (log e LogLevel.error (LogMessage.workflow_failed x) s) {
                            executions = t;
                          }),
                    )
                  ]).1
        by_row none p = elim p [ ]
        by_row (some y) p =
            let logged =
              RunningIn-log e pr s
                (record {
                  execution_id = e;
                  level = LogLevel.error;
                  message = LogMessage.workflow_failed x;
                })
                (λ r. refl) refl run in
            (
              Once-ended logged.0
                  (with_output WorkflowExecutionStatus.failed (failed_output pr (rt.message_of x)))
                  (λ y. refl)
                  (λ y r h.
                    subst (λ (q : Progress). has r q.completed ≡ true)
                      (sym (read_checkpoint-failed pr (rt.message_of x))) h),
              logged.1,
            )

    pub concludes :
        (workflow : Workflow) (e : ℕ) (q : Outcome × EngineDb (V × List Json))
        → Ends e q
        → OnceIn (conclude list_client env (recording rt) workflow e q).1
    concludes workflow e (stopped x pr, s) run = fails workflow e x pr s run
    concludes workflow e (finished pr, s) run = by_row (row_of e s.executions) run.0.present
      where
        by_row :
            (o : Option WorkflowExecution)
            → Present o
            → OnceIn
                (elim (elim o as (λ _. Option (WorkflowExecution × List WorkflowExecution)) [
                  | none ↦ none
                  | some y ↦ some (
                    with_output WorkflowExecutionStatus.success (success_output pr) y,
                    update_where
                        (λ y. y.id == e)
                        (with_output WorkflowExecutionStatus.success (success_output pr))
                        s.executions,
                  )
                ])
                  as (λ _. Result WorkflowExecution × EngineDb (V × List Json)) [
                    | none ↦ fail list_client env (recording rt) workflow e record_not_found pr s
                    | some (y, t) ↦ (
                      ok y,
                      audited
                          (WorkflowAudit.executed workflow.id e y.status)
                          (record s { executions = t }),
                    )
                  ]).1
        by_row none p = elim p [ ]
        by_row (some y) p = (
          Once-ended run.0 (with_output WorkflowExecutionStatus.success (success_output pr))
              (λ y. refl) (λ y r h. tt),
          run.1,
        )
