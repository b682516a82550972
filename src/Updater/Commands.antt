-- ===== src/Updater/Commands.antt =====
-- scripts/uu_update_manager.py: `monitor`, `promote_now`, and `main`, which takes the lock, runs one
-- command and writes an error down.
pub mod Steps
pub mod Isolated
pub mod Reached
use uu_remote_ubuntu_bridge.Prelude.{
  ℕ, String, Bool, true, false, ◌&&◌, not, Option, none, some, Result, ok, err, str_eq,
  if◌then◌else◌,
}
use uu_remote_ubuntu_bridge.Updater.Tasks
use uu_remote_ubuntu_bridge.Updater.Tasks.{
  Phase, promotion_blocked, failed_command, Task, TaskId, TaskKind, approved_promotion,
  upstream_release, runtime_health, without, put, Outcome, promotion_result, repair_result,
  recovered, Store, UpdateError, Action, after, ◌>>=◌, ◌>>◌, done, give, raise, check_that,
  save_task, write_phase, says,
}
use uu_remote_ubuntu_bridge.Updater.Promotion.{
  Scene, Interrupted, run_promotion, recover_interrupted,
}
use uu_remote_ubuntu_bridge.Updater.Repair.{Visit, monitor_repair, retry_task}
use uu_remote_ubuntu_bridge.Updater.Health.{HealthScene, monitor_health}
use uu_remote_ubuntu_bridge.Updater.Check.{CheckScene, check}

-- What one visit of the timer finds, in each of the cases in which it looks.
pub record MonitorScene : Type 0 where
  pub marker : Option Interrupted
  pub promotion : Scene
  pub repair : Visit
  pub runtime : HealthScene

visit_kind : MonitorScene → TaskKind → Task → Action (Unit {0})
visit_kind o approved_promotion t = run_promotion o.promotion t false
visit_kind o upstream_release t = monitor_repair o.repair t
visit_kind o runtime_health t = monitor_repair o.repair t

visit : MonitorScene → Option Task → Action (Unit {0})
unfolding visit_kind
visit o none = monitor_health o.runtime
visit o (some t) = visit_kind o t.id.kind t

visit_unless : MonitorScene → Bool → Action (Unit {0})
unfolding visit
visit_unless o true s = done s
visit_unless o false s = visit o s.pending s

-- `monitor`
unfoldable pub monitor : MonitorScene → Action (Unit {0})
unfolding visit_unless
monitor o = do was_interrupted ← recover_interrupted o.marker; visit_unless o was_interrupted

-- What `promote_now` finds besides: whether git can be fetched, and the commit of the remote branch.
pub record PromoteScene : Type 0 where
  pub marker : Option Interrupted
  pub promotion : Scene
  pub fetch_ok : Bool
  pub remote_commit : String
  pub checks : CheckScene

abbrev failed_result : Option Outcome → Bool
failed_result none = false
failed_result (some (promotion_result status)) = says "failed" status
failed_result (some (repair_result status)) = says "failed" status
failed_result (some recovered) = false

abbrev is_promotion : TaskKind → Bool
is_promotion approved_promotion = true
is_promotion _ = false

abbrev is_blocked : Phase → Bool
is_blocked promotion_blocked = true
is_blocked _ = false

promote_task : PromoteScene → Task → Action (Unit {0})
unfolding run_promotion
promote_task o t = do
  check_that (is_promotion t.id.kind) Tasks.not_a_promotion
  run_promotion o.promotion t true

-- The handler around `check`: the retired directory is moved back if no directory stands there. One
-- that `queue_promotion` has made keeps it away, even if the task was not queued anew.
put_back : TaskId → Task → UpdateError → Option Task → Store → Result UpdateError (Unit {0}) × Store
put_back id t e none s =
    if s.made id
    then (err e, s)
    else (err e, record s { tasks = Tasks.put_at id t s.tasks; made = Tasks.add_dir id s.made })
put_back id t e (some u) s = (err e, s)

restored :
    TaskId → Task → Result UpdateError (Unit {0}) × Store → Result UpdateError (Unit {0}) × Store
unfolding put_back
restored id t (ok u, s) = (ok u, s)
restored id t (err e, s) = put_back id t e (s.tasks id) s

retire_and_check : PromoteScene → TaskId → Task → Action (Unit {0})
unfolding restored
retire_and_check o id t s =
    restored id t
      (check o.checks (record s { tasks = without id s.tasks; made = Tasks.without_dir id s.made }))

requeued_task : PromoteScene → Option Task → Action (Unit {0})
unfolding save_task promote_task
requeued_task o none = raise Tasks.not_requeued
requeued_task o (some t) = do
  check_that (is_promotion t.id.kind) Tasks.not_requeued
  save_task (record t { retry_of = true })
  promote_task o (record t { retry_of = true })

-- A blocked promotion is tried again, with new tooling.
repromote : PromoteScene → TaskId → Option Task → Action (Unit {0})
unfolding retire_and_check requeued_task
repromote o id none = raise Tasks.nothing_to_promote
repromote o id (some t) = do
  check_that (is_promotion t.id.kind && is_blocked t.phase && failed_result t.outcome)
      Tasks.not_a_failed_promotion
  check_that o.fetch_ok Tasks.fetch_failed
  check_that (not (str_eq o.remote_commit t.source_commit)) Tasks.tooling_unchanged
  retire_and_check o id t
  λ s. requeued_task o s.pending s

promote_blocked : PromoteScene → Phase → Option TaskId → Action (Unit {0})
unfolding repromote
promote_blocked o status none s = raise Tasks.nothing_to_promote s
promote_blocked o status (some id) s =
    if is_blocked status then repromote o id (s.tasks id) s else raise Tasks.nothing_to_promote s

promote_pending : PromoteScene → Option Task → Action (Unit {0})
unfolding promote_blocked promote_task
promote_pending o (some t) s = promote_task o t s
promote_pending o none s = promote_blocked o s.status s.active_task s

promote_unless : PromoteScene → Bool → Action (Unit {0})
unfolding promote_pending
promote_unless o true s = done s
promote_unless o false s = promote_pending o s.pending s

-- `promote_now`
unfoldable pub promote_now : PromoteScene → Action (Unit {0})
unfolding promote_unless
promote_now o = do was_interrupted ← recover_interrupted o.marker; promote_unless o was_interrupted

pub data Command : Type 0 where
  run_check : CheckScene → Command
  run_monitor : MonitorScene → Command
  run_promote_now : PromoteScene → Command
  run_retry : Command

unfoldable pub perform : Command → Action (Unit {0})
perform (run_check o) = check o
perform (run_monitor o) = monitor o
perform (run_promote_now o) = promote_now o
perform run_retry = retry_task

-- The handler of `main`: the exit status, and the status "error".
reported : Result UpdateError (Unit {0}) × Store → ℕ × Store
reported (ok u, s) = (0, s)
reported (err e, s) = (1, record s { status = failed_command })

-- `main`, for a command that needs the lock; `free` says that it can be taken.
unfoldable pub main : Bool → Command → Store → ℕ × Store
unfolding perform reported
main true c s = reported (perform c s)
main false c s = (1, record s { status = failed_command })
