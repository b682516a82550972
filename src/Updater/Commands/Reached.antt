-- ===== src/Updater/Commands/Reached.antt =====
-- The state directories that the commands of `main` can come to.
use uu_remote_ubuntu_bridge.Prelude.{
  ◌≤◌, ◌≡◌, refl, ap, Bool, true, false, none, Result, ok, err, arith,
}
use uu_remote_ubuntu_bridge.Updater.Tasks.{TaskId, Store, UpdateError}
use uu_remote_ubuntu_bridge.Updater.Promotion.Steps.{NamesPromotion}
use uu_remote_ubuntu_bridge.Updater.Repair.Steps.{retry_task-Steps}
use uu_remote_ubuntu_bridge.Updater.Check.Steps.{check_lem}
use uu_remote_ubuntu_bridge.Updater.Commands
use uu_remote_ubuntu_bridge.Updater.Commands.{
  Command, run_check, run_monitor, run_promote_now, run_retry, perform, main,
}
use uu_remote_ubuntu_bridge.Updater.Commands.Steps.{monitor-Steps, promote_now-Steps}
use uu_remote_ubuntu_bridge.Updater.Lifecycle.{Files, note, Steps, here, next, stage}
use uu_remote_ubuntu_bridge.Updater.Lifecycle.Invariant.{
  IsConsistent, Consistent, Steps-Consistent, Steps-stage,
}

-- The commands that an operator gives by hand.
abbrev pub by_operator : Command → Bool
by_operator (run_check o) = false
by_operator (run_monitor o) = false
by_operator (run_promote_now o) = true
by_operator run_retry = true

-- A marker that the command finds names the directory of a promotion's task, as the promotion helper
-- writes it when `run_promotion` starts it.
abbrev pub Marked : Command → Type 0
Marked (run_check o) = Unit {0}
Marked (run_monitor o) = NamesPromotion o.marker
Marked (run_promote_now o) = NamesPromotion o.marker
Marked run_retry = Unit {0}

-- On consistent files, every command, whatever it observes and whichever of its checks raises, is a
-- sequence of steps of the life of a task, as long as the writes to the state directory succeed; `check`
-- and `monitor` take no step that is an operator's. A marker of an interrupted promotion is taken to
-- name a promotion's task.
pub perform-Steps :
    (k : Command) (s : Store) → Consistent s → Marked k → Steps (by_operator k) s (perform k s).1
unfolding perform
perform-Steps (run_check o) s c m = check_lem o s c
perform-Steps (run_monitor o) s c m = monitor-Steps o s c m
perform-Steps (run_promote_now o) s c m = promote_now-Steps o s c m
perform-Steps run_retry s c m = retry_task-Steps s

reported-Steps :
    {b : Bool} (s : Store) (r : Result UpdateError (Unit {0}) × Store)
    → Steps b s r.1
    → Steps b s (Commands.reported r).1
unfolding Commands.reported
reported-Steps s (ok u, w) h = h
reported-Steps s (err e, w) h = next h (note w _ refl refl)

main-Steps :
    (free : Bool) (k : Command) (s : Store)
    → Consistent s
    → Marked k
    → Steps (by_operator k) s (main free k s).1
unfolding main
main-Steps true k s c m = reported-Steps s (perform k s) (perform-Steps k s c m)
main-Steps false k s c m = next here (note s _ refl refl)

-- The stores that a new state directory can come to, by any sequence of commands whose writes to it
-- succeed.
pub data Reached : Store → Type 0 where
  fresh : (s : Store) → s.pending ≡ none → s.tasks ≡ (λ id. none) → Reached s
  ran : {s : Store} (free : Bool) (k : Command) → Reached s → Marked k → Reached (main free k s).1

-- In every state directory that the commands can come to, by any sequence of them, as long as their
-- writes to it succeed, the pending task is
-- the one in its own task file and is not over; each task file holds the id of its directory; and a
-- promotion is never over as a repair is, nor a repair as a promotion.
pub Reached-IsConsistent : {s : Store} → Reached s → IsConsistent s.pending s.tasks
Reached-IsConsistent (fresh s p f) =
    let nothing : (k : TaskId) → s.tasks k ≡ none = λ k. ap (λ (g : Files). g k) f in
    record {
      keyed = λ k t e. ground (arith, nothing k);
      fitting = λ k t e. ground (arith, nothing k);
      mirrored = λ t e. ground arith;
      unsettled = λ t e. ground arith;
    }
Reached-IsConsistent (ran free k r m) =
    let c = Reached-IsConsistent r in Steps-Consistent (main-Steps free k _ c m) c

-- Neither `check` nor `monitor` takes a task back: a task that is under way stays so or is over
-- afterwards, and one that is over, such as a blocked promotion, stays over. They are not operator's
-- commands, and the files before are taken to be consistent.
pub main-stage :
    (free : Bool) (k : Command) (s : Store) (id : TaskId)
    → IsConsistent s.pending s.tasks
    → Marked k
    → by_operator k ≡ false
    → stage s id ≤ stage (main free k s).1 id
main-stage free (run_check o) s id c m h = Steps-stage (main-Steps free (run_check o) s c m) id
main-stage free (run_monitor o) s id c m h = Steps-stage (main-Steps free (run_monitor o) s c m) id
main-stage free (run_promote_now o) s id c m h = cc
main-stage free run_retry s id c m h = cc
