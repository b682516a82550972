-- ===== src/Updater/Repair.antt =====
-- scripts/uu_update_manager.py: the repair task, from `retry_task` over `monitor` and `run_codex` to
-- `verify_repair` and `finish_task`. Codex, its budget and the sandbox probe are observations.
pub mod Review
pub mod Spending
pub mod Steps
use uu_remote_ubuntu_bridge.Prelude.{
  ℕ, suc, ◌-◌, ◌*◌, ◌+◌, ◌^◌, max, min, String, Bool, true, false, ◌&&◌, not, Option, none, some,
  List, [], ◌∷◌, Result, ok, err, leb, ltb, if◌then◌else◌, str_eq, ◌==◌,
}
use uu_remote_ubuntu_bridge.Updater.Tasks
use uu_remote_ubuntu_bridge.Updater.Tasks.{
  Phase, Task, TaskId, Store, UpdateError, Action, ◌>>=◌, ◌>>◌, give, raise, check_that,
  count_codex, save_task, write_status, complete_task, says, repair_result, queued, repair_queued,
  repair_waiting, blocked, no_change, ready_for_review, codex_running, codex_interrupted,
  codex_model_reset, codex_budget_deferred, codex_sandbox_deferred, terminal,
}

-- One changed file under patches/ as `verify_repair` finds it: no JSON file any more, a file that is
-- no JSON object, or a manifest with its review status.
pub data ChangedManifest : Type 0 where
  skipped unreadable : ChangedManifest
  reviewed : Option String → ChangedManifest

pub record Repository : Type 0 where
  pub changed : Bool
  pub tests_passed : Bool
  pub manifests : List ChangedManifest

pub record Verification : Type 0 where
  pub changed : Bool
  pub tests_passed : Bool
  pub safety_violations : List ChangedManifest

unfoldable pub violations : List ChangedManifest → List ChangedManifest
violations [] = []
violations (skipped ∷ ms) = violations ms
violations (unreadable ∷ ms) = unreadable ∷ violations ms
violations (reviewed status ∷ ms) =
    let rest = violations ms in if says "approved" status then reviewed status ∷ rest else rest

-- `verify_repair`
unfoldable pub verify_repair : Repository → Verification
verify_repair r = record {
  changed = r.changed;
  tests_passed = r.tests_passed;
  safety_violations = violations r.manifests;
}

abbrev pub is_nil : List ChangedManifest → Bool
is_nil [] = true
is_nil (m ∷ ms) = false

-- The ladder of `finish_task`, for the status that Codex asked for.
unfoldable pub final_phase : Verification → Option String → Phase
final_phase v requested =
    if not (is_nil v.safety_violations)
    then blocked
    else if not v.tests_passed
    then blocked
    else if says "ready_for_review" requested && v.changed
    then ready_for_review
    else if says "no_change" requested && not v.changed
    then no_change
    else blocked

-- `finish_task`, once `verify_repair` has returned
unfoldable pub finish_task : Repository → Task → Option String → Action (Unit {0})
unfolding verify_repair write_status complete_task
finish_task r t requested =
    let phase = final_phase (verify_repair r) requested in
    do
      complete_task
          (record t { phase = phase; completed = true; outcome = some (repair_result requested) })
      write_status phase t.id

-- `RETRYABLE_PHASES`
abbrev pub retryable : Phase → Bool
retryable blocked = true
retryable codex_budget_deferred = true
retryable codex_interrupted = true
retryable codex_sandbox_deferred = true
retryable repair_waiting = true
retryable _ = false

-- A task made ready for a new run: the marks of the last one are taken out.
abbrev pub requeued : Task → Task
requeued t = record t {
  phase = queued;
  thread_id = none;
  retry_count = suc t.retry_count;
  completed = false;
  returncode = none;
  next_retry = none;
  outcome = none;
}

retry_from : Task → Action (Unit {0})
unfolding save_task write_status
retry_from t = do
  check_that (retryable t.phase) Tasks.not_retryable
  save_task (requeued t)
  write_status repair_queued t.id

retry_file : Option Task → Action (Unit {0})
unfolding retry_from
retry_file none = raise Tasks.task_unavailable
retry_file (some t) = retry_from t

retry_active : Option TaskId → Action (Unit {0})
unfolding retry_file
retry_active none s = raise Tasks.nothing_to_retry s
retry_active (some id) s = retry_file (s.tasks id) s

retry_pending : Option Task → Option TaskId → Action (Unit {0})
unfolding retry_active retry_from
retry_pending (some t) active = retry_from t
retry_pending none active = retry_active active

-- `retry_task`, of the pending task or else of the one that the status names.
unfoldable pub retry_task : Action (Unit {0})
unfolding retry_pending
retry_task s = retry_pending s.pending s.active_task s

pub record Visit : Type 0 where
  pub now : ℕ
  pub codex_model : String
  pub sandbox : Bool
  -- the budget's `allowed`, and its `resets_at`
  pub allowed : Bool
  pub resets_at : Option ℕ
  -- the thread ids of the `thread.started` events, the exit status, and the result if it is not empty
  pub threads : List String
  pub codex_status : ℕ
  pub result : Option (Option String)
  -- the repair checkout; `none` where git fails
  pub repository : Option Repository
  -- whether the context can be written: the handoff text is there, or the checkout is not
  pub context_ok : Bool

-- `min(24 * 3600, 15 * 60 * (2 ** min(attempts - 1, 6)))`
unfoldable pub backoff : ℕ → ℕ
backoff attempts = min (24 * 3600) (15 * 60 * 2 ^ min (attempts - 1) 6)

unfoldable pub last_thread : Option String → List String → Option String
last_thread current [] = current
last_thread current (id ∷ ids) = last_thread (some id) ids

-- The task as a run of Codex leaves it.
abbrev pub ran : Visit → Task → Task
ran o t = record t {
  phase = codex_running;
  attempts = suc t.attempts;
  thread_id = last_thread t.thread_id o.threads;
}

-- `run_codex`: the task is saved before the run and with each new thread.
unfoldable pub run_codex : Visit → Task → Action Task
unfolding save_task write_status count_codex
run_codex o t = do
  save_task (record t { phase = codex_running; attempts = suc t.attempts })
  write_status codex_running t.id
  count_codex
  save_task (ran o t)
  give (ran o t)

interrupted : Visit → Task → Action (Unit {0})
unfolding save_task write_status
interrupted o t = do
  save_task (record t {
    phase = codex_interrupted;
    returncode = some o.codex_status;
    next_retry = some (o.now + backoff t.attempts);
  })
  write_status codex_interrupted t.id

finish_read : Option Repository → Task → Option String → Action (Unit {0})
finish_read none t requested = raise Tasks.repository_unreadable
finish_read (some r) t requested = finish_task r t requested

after_codex : Visit → Option (Option String) → Task → Action (Unit {0})
unfolding interrupted finish_read
after_codex o none t = interrupted o t
after_codex o (some requested) t =
    if o.codex_status == 0 then finish_read o.repository t requested else interrupted o t

deferred : Phase → ℕ → Task → Action (Unit {0})
unfolding save_task write_status
deferred phase retry t = do
  save_task (record t { phase = phase; next_retry = some retry })
  write_status phase t.id

abbrev pub retry_time : ℕ → Option ℕ → ℕ
retry_time now none = now + 3600
retry_time now (some reset) = max (now + 3600) (reset + 60)

abbrev pub due : ℕ → Option ℕ → Bool
due now none = true
due now (some t) = leb t now

-- `if task_model and task_model != self.config.codex_model`
for_model : Visit → Task → Option String → Task
for_model o t none = record t { codex_model = some o.codex_model }
for_model o t (some m) =
    if str_eq m ""
    then record t { codex_model = some o.codex_model }
    else if str_eq m o.codex_model
    then record t { codex_model = some o.codex_model }
    else record t { codex_model = some o.codex_model; thread_id = none; phase = codex_model_reset }

-- From the comparison with `next_retry_epoch` on.
repair_step : Visit → Task → Action (Unit {0})
unfolding write_status deferred after_codex
repair_step o t =
    if not (due o.now t.next_retry)
    then write_status repair_waiting t.id
    else if not o.sandbox
    then deferred codex_sandbox_deferred (o.now + 3600) t
    else if not o.allowed
    then deferred codex_budget_deferred (retry_time o.now o.resets_at) t
    else (do t₁ ← run_codex o t; after_codex o o.result t₁)

-- `monitor`, for a pending repair task.
unfoldable pub monitor_repair : Visit → Task → Action (Unit {0})
unfolding save_task for_model repair_step
monitor_repair o t = do
  check_that o.context_ok Tasks.handoff_missing
  save_task (for_model o t t.codex_model)
  repair_step o (for_model o t t.codex_model)
