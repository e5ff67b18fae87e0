-- ===== src/EventBus/Dispatch/Retries.antt =====
-- How often a handler is called, at once and later, and that the calls end.
use central_backend_e_commer.Prelude.{
  ℕ, zero, suc, ◌+◌, ◌≤◌, ◌≡◌, refl, List, [], ◌∷◌, length, length-append, sum_of, sum_of-append,
  arith,
}
use central_backend_e_commer.Action.{Result, ok, err}
use central_backend_e_commer.Schema.{OutboxEvent}
use central_backend_e_commer.EventBus.Dispatch.{
  Handler, Job, Bus, handled, invoke, retry_later, run_job, drain,
}

abbrev failed_calls : Bus → ℕ
failed_calls b = length b.failures

-- One call: it fails and a line is logged, or it returns and none is.
handled_once :
    (h : Handler) (e : OutboxEvent) (b : Bus)
    → failed_calls (handled h e b).1
      ≡ failed_calls b + elim (handled h e b).0 [ ok u ↦ 0 | err x ↦ 1 ]
handled_once h e b = ground (arith, length-append b.failures (h.id ∷ []))

-- What `left` retries allow, from so many failed calls on.
abbrev pub WithinRetries : ℕ → ℕ → Result (Unit {0}) × Bus → Type 0
WithinRetries left before (ok u, b) = failed_calls b ≤ before + left
WithinRetries left before (err x, b) = failed_calls b ≡ before + left + 1

last_call :
    (before : ℕ) (q : Result (Unit {0}) × Bus)
    → failed_calls q.1 ≡ before + elim q.0 [ ok u ↦ 0 | err x ↦ 1 ]
    → WithinRetries 0 before q
last_call before (ok u, b) h = omega (arith, h)
last_call before (err x, b) h = omega (arith, h)

call_again :
    (left before : ℕ) (q again : Result (Unit {0}) × Bus)
    → failed_calls q.1 ≡ before + elim q.0 [ ok u ↦ 0 | err x ↦ 1 ]
    → WithinRetries left (failed_calls q.1) again
    → WithinRetries
        (suc left)
        before
        (elim q.0 as (λ _. Result (Unit {0}) × Bus) [ ok u ↦ q | err x ↦ again ])
call_again left before (ok u, b) again h k = omega (arith, h)
call_again left before (err x, b) (ok v, b') h k = omega (arith, h, k)
call_again left before (err x, b) (err y, b') h k = omega (arith, h, k)

-- A handler that is invoked with `left` retries throws after exactly `left + 1` failed calls, and
-- returns after at most `left` of them.
pub invoke-WithinRetries :
    (h : Handler) (e : OutboxEvent) (left : ℕ) (b : Bus)
    → WithinRetries left (length b.failures) (invoke h e left b)
unfolding invoke
invoke-WithinRetries h e zero b = last_call (failed_calls b) (handled h e b) (handled_once h e b)
invoke-WithinRetries h e (suc left) b =
    call_again left (failed_calls b) (handled h e b) _ (handled_once h e b)
      (invoke-WithinRetries h e left (handled h e b).1)

-- The calls that are still to come, if every call fails.
abbrev pub work : List Job → ℕ
work jobs = sum_of (λ j. j.left + 1) jobs

later_work :
    (j : Job) (r : Result (Unit {0})) (b : Bus)
    → (work (retry_later j r b).jobs ≤ work b.jobs + j.left)
      × (failed_calls (retry_later j r b) ≡ failed_calls b)
later_work j (ok u) b = (omega arith, refl)
later_work j (err x) b = left_work j.left refl
  where
    left_work :
        (n : ℕ)
        → j.left ≡ n
        → (work (retry_later j (err x) b).jobs ≤ work b.jobs + j.left)
          × (failed_calls (retry_later j (err x) b) ≡ failed_calls b)
    left_work zero e = rw e (omega arith, refl)
    left_work (suc n) e =
        rw e
          (omega (arith, sum_of-append (λ x. x.left + 1) b.jobs (record j { left = n } ∷ [])), refl)

handled_jobs : (h : Handler) (e : OutboxEvent) (b : Bus) → work (handled h e b).1.jobs ≡ work b.jobs
handled_jobs h e b = ground arith

at_most_one : (r : Result (Unit {0})) → elim r as (λ _. ℕ) [ ok u ↦ 0 | err x ↦ 1 ] ≤ 1
at_most_one (ok u) = omega arith
at_most_one (err x) = omega arith

run_job_works :
    (j : Job) (b : Bus)
    → (work (run_job j b).jobs ≤ work b.jobs + j.left)
      × (failed_calls (run_job j b) ≤ failed_calls b + 1)
unfolding run_job
run_job_works j b =
    let once = handled_once j.handler j.event b in
    let later = later_work j (handled j.handler j.event b).0 (handled j.handler j.event b).1 in
    let kept = handled_jobs j.handler j.event b in
    (
      omega (arith, later.0, kept),
      omega (arith, later.1, once, at_most_one (handled j.handler j.event b).0),
    )

-- If handlers' calls are put off, and no more than `n` of them are to come even if every call
-- fails, then after `n` turns of the event loop none waits, and no more calls failed than there were
-- to come.
pub drain_ends :
    (n : ℕ) (b : Bus)
    → work b.jobs ≤ n
    → ((drain n b).jobs ≡ []) × (length (drain n b).failures ≤ length b.failures + work b.jobs)
drain_ends n b h = by_jobs n b b.jobs refl h
  where
    by_jobs :
        (n : ℕ) (b : Bus) (jobs : List Job)
        → b.jobs ≡ jobs
        → work b.jobs ≤ n
        → ((drain n b).jobs ≡ []) × (length (drain n b).failures ≤ length b.failures + work b.jobs)
    by_jobs zero b [] e h = (e, omega arith)
    by_jobs zero b (j ∷ rest) e h =
        let none_fits : ⊥ = omega (arith, rw e at h) in elim none_fits [ ]
    by_jobs (suc n) b [] e h = rw e (refl, omega arith)
    by_jobs (suc n) b (j ∷ rest) e h =
        let b' = run_job j (record b { jobs = rest }) in
        let ran = run_job_works j (record b { jobs = rest }) in
        let all = rw e at h in
        let later = by_jobs n b' b'.jobs refl (omega (arith, ran.0, all)) in
        rw e (later.0, omega (arith, later.1, ran.0, ran.1))
