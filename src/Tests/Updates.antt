-- ===== src/Tests/Updates.antt =====
-- A promotion task and a repair task, through scripts/uu_update_manager.py.
use uu_remote_ubuntu_bridge.Prelude.{
  ℕ, ◌≤◌, ◌<◌, ◌≡◌, ◌≢◌, ◌⊎◌, refl, String, true, false, Option, none, some, [], ◌∷◌, ok, arith,
}
use uu_remote_ubuntu_bridge.Updater.Tasks
use uu_remote_ubuntu_bridge.Updater.Tasks.{Task, TaskId, Store, UpdateError, new_task, put}
use uu_remote_ubuntu_bridge.Updater.Promotion
use uu_remote_ubuntu_bridge.Updater.Promotion.{Scene, TaskFiles, run_promotion, newest}
use uu_remote_ubuntu_bridge.Updater.Promotion.Quiet.{
  Quiet, AllValid, Once, run_promotion-Quiet, run_promotion-Once,
}
use uu_remote_ubuntu_bridge.Updater.Repair
use uu_remote_ubuntu_bridge.Updater.Repair.{
  Repository, Visit, backoff, finish_task, monitor_repair, retry_task, retryable, requeued,
}
use uu_remote_ubuntu_bridge.Updater.Repair.Review.{Unapproved, finish_task-review}
use uu_remote_ubuntu_bridge.Prelude.Int.{pos}
use uu_remote_ubuntu_bridge.Python.Json.{Fields, int, obj, end, field}
use uu_remote_ubuntu_bridge.Updater.Repair.Spending.{Unspent, with_limits, monitor_repair-Unspent}
use uu_remote_ubuntu_bridge.Updater.Queue.{Checkout}
use uu_remote_ubuntu_bridge.Updater.Health
use uu_remote_ubuntu_bridge.Updater.Health.{
  Probe, Reinstall, HealthScene, health, is_healthy, query_failed, settled, monitor_health,
}
use uu_remote_ubuntu_bridge.Updater.Health.Consent
use uu_remote_ubuntu_bridge.Updater.Health.Consent.{monitor_health-Consent}
use uu_remote_ubuntu_bridge.Updater.Commands.Isolated.{monitor-Isolated}
use uu_remote_ubuntu_bridge.Updater.Lifecycle.{Steps, stage}
use uu_remote_ubuntu_bridge.Updater.Lifecycle.Invariant.{IsConsistent}
use uu_remote_ubuntu_bridge.Updater.Commands.{MonitorScene, monitor, run_monitor, perform, main}
use uu_remote_ubuntu_bridge.Updater.Commands.Reached.{
  Reached, fresh, ran, perform-Steps, Reached-IsConsistent, main-stage,
}

abbrev promotion_id : TaskId
promotion_id = record { kind = Tasks.approved_promotion; identity = "4.1.0" }

abbrev task : Task
task = new_task promotion_id Tasks.promotion_queued "c"

abbrev no_files : TaskId → Option Task
no_files id = none

abbrev empty_store : Store
empty_store = record {
  pending = none;
  tasks = no_files;
  status = Tasks.healthy;
  active_task = none;
  observed_release = none;
  made = λ (id : TaskId). false;
  applied = 0;
  codex_runs = 0;
  restarts = 0;
  reinstalls = 0;
}

abbrev store : Store
store = record empty_store { pending = some task; tasks = put task no_files }

abbrev valid_files : TaskFiles
valid_files = record {
  id_safe = true;
  dir_inside = true;
  checkout_inside = true;
  has_details = true;
  manifest_inside = true;
  helper_there = true;
  files_there = true;
  installer_matches = true;
  manifest_matches = true;
}

abbrev scene : ℕ → Scene
scene last = record {
  auto_promote = true;
  idle_minutes = 30;
  now = 100000;
  activity = some 5 ∷ none ∷ some last ∷ [];
  files = valid_files;
  helper = some (true, Promotion.holds (some "promoted"));
}

run_promotion-Quiet_example :
    ((scene 90000).auto_promote ≡ true)
    × (newest (scene 90000).activity ≢ none)
    × Quiet 100000 1800 (scene 90000).activity
    × AllValid valid_files
unfolding run_promotion newest
run_promotion-Quiet_example =
    run_promotion-Quiet (scene 90000) task store (omega arith) (omega arith)

run_promotion-Once_example :
    Once (scene 90000) task store (run_promotion (scene 90000) task false store).1
unfolding run_promotion newest
run_promotion-Once_example = run_promotion-Once (scene 90000) task false store refl (omega arith)

abbrev repair_id : TaskId
repair_id = record { kind = Tasks.upstream_release; identity = "4.2.0" }

abbrev repair : Task
repair = new_task repair_id Tasks.queued "c"

abbrev repair_store : Store
repair_store = record empty_store {
  pending = some repair;
  tasks = put repair no_files;
  active_task = some repair_id;
}

abbrev repository : Repository
repository = record {
  changed = true;
  tests_passed = true;
  manifests = Repair.reviewed (some "candidate") ∷ [];
}

abbrev asked : Option String
asked = some "ready_for_review"

abbrev visit : Visit
visit = record {
  now = 100000;
  codex_model = "m";
  sandbox = true;
  allowed = true;
  resets_at = none;
  threads = "thread" ∷ [];
  codex_status = 0;
  result = some asked;
  repository = some repository;
  context_ok = true;
}

finish_task-review_example :
    let s₁ = (finish_task repository repair asked repair_store).1 in
    (s₁.pending ≡ none)
    × ((u : Task) × (s₁.tasks repair.id ≡ some u)
        × (u.completed ≡ true)
        × (u.phase ≡ s₁.status)
        × (u.outcome ≡ some (Tasks.repair_result asked)))
    × (s₁.status ≡ Tasks.ready_for_review
        → (repository.tests_passed ≡ true)
          × Unapproved repository.manifests
          × (repository.changed ≡ true)
          × (asked ≡ some "ready_for_review"))
    × (s₁.status ≡ Tasks.no_change
        → (repository.tests_passed ≡ true)
          × Unapproved repository.manifests
          × (repository.changed ≡ false))
    × ((s₁.status ≡ Tasks.ready_for_review)
        ⊎ (s₁.status ≡ Tasks.no_change)
        ⊎ (s₁.status ≡ Tasks.blocked))
finish_task-review_example = finish_task-review repository repair asked repair_store

abbrev limits : Fields
limits =
    field "rateLimits" (obj (field "primary" (obj (field "usedPercent" (int (pos 40)) end)) end))
      end

monitor_repair-Unspent_example :
    (Repair.due 100000 none ≡ true) × (visit.sandbox ≡ true) × Unspent (some limits) 50
unfolding monitor_repair Repair.run_codex finish_task with_limits
    uu_remote_ubuntu_bridge.Updater.Budget.codex_budget_from_rate_limits
    uu_remote_ubuntu_bridge.Updater.Budget.selected_limits uu_remote_ubuntu_bridge.Python.Json.get
    uu_remote_ubuntu_bridge.Updater.Budget.of_windows uu_remote_ubuntu_bridge.Updater.Budget.highest
monitor_repair-Unspent_example =
    monitor_repair-Unspent visit (some limits) 50 repair repair_store (omega arith)

abbrev blocked_store : Store
blocked_store = record empty_store {
  tasks = put (record repair { phase = Tasks.blocked }) no_files;
  active_task = some repair_id;
}

retry_blocked : (retry_task blocked_store).0 ≡ ok tt
unfolding retry_task
retry_blocked = refl

-- The bridge is not running, and comes back after a restart.
abbrev well : Probe
well = record {
  query_ok = true;
  active_state = some "active";
  restarts = 0;
  active_since = 1;
  now = 5;
  server_found = true;
  relay_found = true;
  gnome_found = true;
  relay_pids = 7 ∷ [];
  listener_pids = 7 ∷ [];
  manifest_there = true;
}

abbrev stopped : Probe
stopped = record well { active_state = some "failed" }

abbrev checkout : Checkout
checkout = record { base = some "c"; handoff_there = true }

abbrev reinstall : Reinstall
reinstall = record {
  tests_ok = true;
  builders = some true ∷ none ∷ [];
  secret_there = true;
  install_ok = true;
  installed = well;
  restored = well;
}

abbrev runtime : HealthScene
runtime = record {
  first = stopped;
  confirmed = stopped;
  auto_reinstall = true;
  restart_probe = λ (i : ℕ). well;
  reinstall = reinstall;
  identity = "now";
  checkout = checkout;
}

monitor_health-Consent_example :
    let s₁ = (monitor_health runtime empty_store).1 in
    ((0 < s₁.restarts) ⊎ (0 < s₁.reinstalls)
      → (runtime.auto_reinstall ≡ true)
        × (Consent.well stopped ≡ false)
        × (Consent.well stopped ≡ false)
        × (stopped.query_ok ≡ true))
    × (0 < s₁.reinstalls
        → ((j : ℕ) → j ≤ 24 → Consent.well (runtime.restart_probe j) ≡ false)
          × (reinstall.tests_ok ≡ true)
          × (Health.all_built reinstall.builders ≡ true)
          × (reinstall.secret_there ≡ true))
monitor_health-Consent_example = monitor_health-Consent runtime empty_store

restarted_once : (monitor_health runtime empty_store).1.restarts ≡ 1
unfolding monitor_health settled health Tasks.write_phase
restarted_once = refl

abbrev monitoring : MonitorScene
monitoring = record { marker = none; promotion = scene 90000; repair = visit; runtime = runtime }

abbrev nothing_reached : Reached empty_store
nothing_reached = fresh empty_store refl refl

abbrev repairing : MonitorScene
repairing = record monitoring { repair = visit }

monitor-Isolated_example :
    let s₁ = (monitor repairing repair_store).1 in
    (s₁.applied ≡ repair_store.applied)
    × (s₁.status ≡ Tasks.promoted → repair_store.status ≡ Tasks.promoted)
monitor-Isolated_example = monitor-Isolated repairing repair_store repair refl (λ e. absurd cc) refl

perform-Steps_example : Steps false empty_store (perform (run_monitor monitoring) empty_store).1
perform-Steps_example =
    perform-Steps (run_monitor monitoring) empty_store (Reached-IsConsistent nothing_reached) tt

Reached-IsConsistent_example :
    let s = (main true (run_monitor monitoring) empty_store).1 in IsConsistent s.pending s.tasks
Reached-IsConsistent_example =
    Reached-IsConsistent (ran true (run_monitor monitoring) nothing_reached tt)

main-stage_example :
    stage empty_store repair_id ≤ stage (main true (run_monitor monitoring) empty_store).1 repair_id
main-stage_example =
    main-stage true (run_monitor monitoring) empty_store repair_id
      (Reached-IsConsistent nothing_reached) tt refl
