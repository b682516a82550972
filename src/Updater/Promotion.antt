-- ===== src/Updater/Promotion.antt =====
-- scripts/uu_update_manager.py: `run_promotion`, which decides when the accepted release is put in
-- place, `promotion_paths`, and `recover_interrupted_promotion`.
pub mod Quiet
pub mod Steps
use uu_remote_ubuntu_bridge.Prelude.{
  ℕ, suc, ◌-◌, ◌*◌, max, String, Bool, true, false, ◌&&◌, not, Option, none, some, List, [], ◌∷◌,
  Result, ok, err, ltb, if◌then◌else◌, str_eq,
}
use uu_remote_ubuntu_bridge.Updater.Tasks
use uu_remote_ubuntu_bridge.Updater.Tasks.{
  Phase, promotion_held, promotion_waiting_idle, promotion_running, promoted, promotion_blocked,
  Task, TaskId, same_id, Store, UpdateError, Action, ◌>>=◌, ◌>>◌, done, give, raise, check_that,
  save_task, write_task, complete_task, write_status, count_apply, says, promotion_result,
  recovered,
}

-- The tests of `promotion_paths`: the id is its own `task_name`, each path lies below the one before,
-- the files are there and their hashes are the accepted ones.
pub record TaskFiles : Type 0 where
  pub id_safe : Bool
  pub dir_inside : Bool
  pub checkout_inside : Bool
  pub has_details : Bool
  pub manifest_inside : Bool
  pub helper_there : Bool
  pub files_there : Bool
  pub installer_matches : Bool
  pub manifest_matches : Bool

-- `promotion_paths`
unfoldable pub promotion_paths : TaskFiles → Action (Unit {0})
promotion_paths f = do
  check_that f.id_safe Tasks.unsafe_id
  check_that f.dir_inside Tasks.task_escaped
  check_that f.checkout_inside Tasks.checkout_escaped
  check_that f.has_details Tasks.no_details
  check_that f.manifest_inside Tasks.manifest_escaped
  check_that f.helper_there Tasks.helper_missing
  check_that f.files_there Tasks.files_incomplete
  check_that (f.installer_matches && f.manifest_matches) Tasks.hashes_differ

-- What the run of the helper leaves: `none` for a run that does not return in time; else whether the
-- exit status is 0, and result.json.
pub data ResultFile : Type 0 where
  absent unreadable : ResultFile
  holds : Option String → ResultFile

pub record Scene : Type 0 where
  -- `auto_promote_accepted_release`, `idle_minutes`
  pub auto_promote : Bool
  pub idle_minutes : ℕ
  pub now : ℕ
  -- the modification time of each log file; `none` where `stat` fails
  pub activity : List (Option ℕ)
  pub files : TaskFiles
  pub helper : Option (Bool × ResultFile)

-- `max(activity_mtimes)`, if there is one
unfoldable pub newest : List (Option ℕ) → Option ℕ
newest [] = none
newest (none ∷ ms) = newest ms
newest (some m ∷ ms) = elim (newest ms) [ none ↦ some m | some n ↦ some (max m n) ]

waiting : Task → Action (Unit {0})
unfolding save_task write_status
waiting t = do
  save_task (record t { phase = promotion_waiting_idle })
  write_status promotion_waiting_idle t.id

-- The status in result.json, "failed" where the file is missing.
read_result : ResultFile → Action (Option String)
read_result absent = give (some "failed")
read_result unreadable = raise Tasks.unreadable_result
read_result (holds status) = give status

-- The result record of the helper is read.
concluded : Bool → Option String → Task → Action (Unit {0})
unfolding write_status complete_task
concluded helper_ok status t =
    let phase = if helper_ok && says "promoted" status then promoted else promotion_blocked in
    do
      complete_task
          (record t { phase = phase; completed = true; outcome = some (promotion_result status) })
      write_status phase t.id

run_helper : Option (Bool × ResultFile) → Task → Action (Unit {0})
unfolding count_apply read_result concluded
run_helper none t = do count_apply; raise Tasks.helper_failed
run_helper (some (helper_ok, file)) t = do
  count_apply
  status ← read_result file
  concluded helper_ok status t

-- `if ignore_idle:` the override is noted.
overridden : Bool → Task → Action Task
unfolding save_task
overridden false t = give t
overridden true t = do
  save_task (record t { idle_override = true })
  give (record t { idle_override = true })

-- From `task["phase"] = "promotion-running"` on.
launch : Scene → Task → Action (Unit {0})
unfolding save_task write_status run_helper
launch o t = do
  save_task (record t { phase = promotion_running; attempts = suc t.attempts })
  write_status promotion_running t.id
  run_helper o.helper (record t { phase = promotion_running; attempts = suc t.attempts })

-- From `if ignore_idle:` on: the override is noted, the paths are checked, the helper is run.
transact : Scene → Task → Bool → Action (Unit {0})
unfolding overridden promotion_paths launch
transact o t₀ ignore_idle = do t ← overridden ignore_idle t₀; promotion_paths o.files; launch o t

-- The test of `quiet_seconds` against `required_quiet_seconds`.
when_quiet : Scene → Task → Bool → ℕ → Action (Unit {0})
unfolding save_task write_status transact
when_quiet o t ignore_idle quiet =
    let required = if ignore_idle then 0 else o.idle_minutes * 60 in
    if ltb quiet required
    then (do
      save_task (record t { phase = promotion_waiting_idle; quiet_seconds = some quiet })
      write_status promotion_waiting_idle t.id)
    else transact o t ignore_idle

by_activity : Scene → Task → Bool → Option ℕ → Action (Unit {0})
unfolding waiting when_quiet
by_activity o t ignore_idle none = if ignore_idle then when_quiet o t ignore_idle 0 else waiting t
by_activity o t ignore_idle (some m) = when_quiet o t ignore_idle (o.now - m)

-- `run_promotion`. Whether the log directory has no file or no readable time, UU's activity is unknown.
unfoldable pub run_promotion : Scene → Task → Bool → Action (Unit {0})
unfolding save_task write_status by_activity
run_promotion o t ignore_idle =
    if o.auto_promote
    then by_activity o t ignore_idle (newest o.activity)
    else (do save_task (record t { phase = promotion_held }); write_status promotion_held t.id)

-- A marker promotion-in-progress.json, with what `recover_interrupted_promotion` finds about it: the
-- directory of its task and the parts below, if its work directory lies below tasks/; whether the
-- checkout lies in the task's directory; whether a helper is there, the task's own or the installed
-- one; whether the work directory and the prefix are the expected ones; and the run of the helper's
-- `recover`: the exit status, and whether it printed a JSON object.
pub record Interrupted : Type 0 where
  pub relative : Option (TaskId × List String)
  pub checkout_inside : Bool
  pub helper_there : Bool
  pub work_dir_matches : Bool
  pub prefix_matches : Bool
  pub recover_ok : Bool
  pub record_readable : Bool

abbrev names_promotion : List String → Bool
names_promotion [] = false
names_promotion (p ∷ ps) = str_eq p "promotion"

abbrev is_pending : TaskId → Option Task → Bool
is_pending id none = false
is_pending id (some t) = same_id t.id id

-- The task is marked as blocked, and is no longer pending if it was.
settle_recovered : TaskId → Task → Action (Unit {0})
unfolding write_status
settle_recovered id t s =
    let t₁ = record t { phase = promotion_blocked; completed = true; outcome = some recovered } in
    let s₁ = record s {
      tasks = Tasks.put_at id t₁ s.tasks;
      pending = if is_pending id s.pending then none else s.pending;
    } in
    write_status promotion_blocked id s₁

recover_loaded : Interrupted → TaskId → Task → Action Bool
unfolding settle_recovered
recover_loaded m id t = do
  check_that m.checkout_inside Tasks.checkout_escaped
  check_that m.helper_there Tasks.helper_missing
  check_that m.work_dir_matches Tasks.marker_disagrees
  check_that m.prefix_matches Tasks.wrong_prefix
  check_that m.recover_ok Tasks.recovery_failed
  check_that m.record_readable Tasks.recovery_unreadable
  settle_recovered id t
  give true

recover_file : Interrupted → TaskId → Option Task → Action Bool
unfolding recover_loaded
recover_file m id none = raise Tasks.task_unavailable
recover_file m id (some t) = recover_loaded m id t

recover_task : Interrupted → TaskId → List String → Action Bool
unfolding recover_file
recover_task m id rest s =
    (do check_that (names_promotion rest) Tasks.unsafe_work_dir; recover_file m id (s.tasks id)) s

recover_from : Interrupted → Option (TaskId × List String) → Action Bool
unfolding recover_task
recover_from m none = raise Tasks.marker_escaped
recover_from m (some (id, rest)) = recover_task m id rest

-- `recover_interrupted_promotion`: whether a marker was there.
unfoldable pub recover_interrupted : Option Interrupted → Action Bool
unfolding recover_from
recover_interrupted none = give false
recover_interrupted (some m) = recover_from m m.relative
