-- ===== src/Updater/Queue.antt =====
-- scripts/uu_update_manager.py: `queue_task` and `queue_promotion`.
pub mod Steps
pub mod Gate
use uu_remote_ubuntu_bridge.Prelude.{
  ℕ, zero, suc, String, Bool, true, false, ◌&&◌, ◌||◌, not, Option, none, some, Result, ok, err,
  str_eq, if◌then◌else◌, ◌<>◌,
}
use Prim.Native.String.{[], ◌∷◌}
use uu_remote_ubuntu_bridge.Python.Text.{is_sha256, is_commit, is_empty}
use uu_remote_ubuntu_bridge.Python.Path.{is_absolute, has_parent_part}
use uu_remote_ubuntu_bridge.Updater.Tasks
use uu_remote_ubuntu_bridge.Updater.Tasks.{
  Phase, queued, repair_queued, promotion_queued, promotion_deferred, promoted, promotion_blocked,
  current, Task, TaskKind, TaskId, approved_promotion, same_id, new_task, Observed, Store, Action,
  ◌>>=◌, ◌>>◌, done, check_that, save_task, make_dir, write_task, write_pending, write_status,
  write_observed, says, terminal,
}
use uu_remote_ubuntu_bridge.Updater.Releases.{Release}

-- What git and the files say where a task needs a checkout: the commit, and whether the handoff text is
-- there.
pub record Checkout : Type 0 where
  pub base : Option String
  pub handoff_there : Bool

create_task : Checkout → TaskId → Option String → Action (Unit {0})
unfolding save_task write_status
create_task c id none = Tasks.raise Tasks.checkout_failed
create_task c id (some base) = do
  check_that c.handoff_there Tasks.handoff_missing
  save_task (new_task id queued base)
  write_status repair_queued id

-- An existing task: a terminal one is shown, any other is made the pending one.
resume_task : TaskId → Task → Action (Unit {0})
unfolding write_pending write_status
resume_task id t =
    if terminal t.phase
    then write_status t.phase id
    else (do write_pending t; write_status repair_queued id)

queue_existing : Checkout → TaskId → Option Task → Action (Unit {0})
unfolding create_task resume_task
queue_existing c id none = create_task c id c.base
queue_existing c id (some t) = resume_task id t

-- `queue_task`
unfoldable pub queue_task : Checkout → TaskId → Action (Unit {0})
unfolding queue_existing make_dir
queue_task c id s = (do make_dir id; queue_existing c id (s.tasks id)) s

-- The first characters of a text: `s[:n]`
unfoldable pub first : ℕ → String → String
first zero s = ""
first (suc n) [] = ""
first (suc n) (c ∷ s) = c ∷ first n s

-- What the files say when a promotion is queued: the hash of the installer if it is there, whether the
-- checkout is at the pinned commit or could be made so, and the hash of its manifest if that is there.
pub record Pinned : Type 0 where
  pub installer_sha256 : Option String
  pub checkout_ok : Bool
  pub manifest_sha256 : Option String

abbrev pub promotion_id : Release → TaskId
promotion_id r = record {
  kind = approved_promotion;
  identity = r.version <> "-" <> first 12 r.installer_sha256 <> "-" <> first 12 r.manifest_sha256;
}

abbrev pub pinned_metadata : Release → Bool
pinned_metadata r =
    is_commit r.source_commit
    && is_sha256 r.manifest_sha256
    && not (is_empty r.manifest_path)
    && not (is_absolute r.manifest_path)
    && not (has_parent_part r.manifest_path)

-- A status with the observed release.
show : Phase → TaskId → Observed → Action (Unit {0})
unfolding write_status write_observed
show p id seen = do write_observed p seen; write_status p id

-- Another task is pending.
other_pending : TaskId → Option Task → Bool
other_pending id none = false
other_pending id (some t) = not (same_id t.id id)

-- The end of `queue_promotion`
enter_queue : Observed → TaskId → Task → Action (Unit {0})
unfolding save_task write_task show other_pending
enter_queue seen id t s =
    if other_pending id s.pending
    then (do write_task (record t { phase = promotion_deferred }); show promotion_deferred id seen)
        s
    else (do save_task (record t { phase = promotion_queued }); show promotion_queued id seen) s

abbrev is_promoted : Phase → Bool
is_promoted promoted = true
is_promoted _ = false

abbrev is_blocked : Phase → Bool
is_blocked promotion_blocked = true
is_blocked _ = false

queue_known : Observed → TaskId → Task → Action (Unit {0})
unfolding show enter_queue
queue_known seen id t =
    if is_promoted t.phase
    then show current id seen
    else if is_blocked t.phase
    then show promotion_blocked id seen
    else enter_queue seen id t

queue_release : Pinned → Release → Observed → Option Task → Action (Unit {0})
unfolding queue_known enter_queue
queue_release p r seen (some t) = queue_known seen (promotion_id r) t
queue_release p r seen none = do
  check_that p.checkout_ok Tasks.checkout_failed
  check_that (says r.manifest_sha256 p.manifest_sha256) Tasks.manifest_changed
  enter_queue seen (promotion_id r) (new_task (promotion_id r) promotion_queued r.source_commit)

-- `queue_promotion`
unfoldable pub queue_promotion : Pinned → Release → Observed → Action (Unit {0})
unfolding queue_release make_dir
queue_promotion p r seen s =
    (do
      check_that r.eligible Tasks.not_eligible
      check_that (pinned_metadata r) Tasks.not_pinned
      check_that (says r.installer_sha256 p.installer_sha256) Tasks.installer_changed
      make_dir (promotion_id r)
      queue_release p r seen (s.tasks (promotion_id r)))
      s
