-- ===== src/Updater/Tasks.antt =====
-- scripts/uu_update_manager.py: a task, the state directory of `Manager`, `write_status`, `save_task`,
-- and an action, which may raise and leaves the files as they are at that point. Times are whole
-- seconds. `task_name` keeps the kind of a task, a prefix of letters and dashes, so an id is the kind
-- and the rest of the name as `task_name` cleans it.
use uu_remote_ubuntu_bridge.Prelude.{
  ℕ, suc, String, Bool, true, false, ◌&&◌, Option, none, some, Result, ok, err, str_eq,
  if◌then◌else◌,
}

-- The phases of a task and of the status record.
pub data Phase : Type 0 where
  queued repair_queued repair_waiting : Phase
  blocked no_change ready_for_review : Phase
  codex_running codex_interrupted codex_model_reset : Phase
  codex_budget_deferred codex_sandbox_deferred : Phase
  promotion_queued promotion_deferred promotion_held promotion_waiting_idle : Phase
  promotion_running promoted promotion_blocked : Phase
  checking checked current approved_release_detected accepted_release_ready : Phase
  healthy self_healed failed_command : Phase
  another_phase : String → Phase

pub data TaskKind : Type 0 where
  approved_promotion upstream_release runtime_health : TaskKind

pub record TaskId : Type 0 where
  pub kind : TaskKind
  pub identity : String

abbrev pub same_kind : TaskKind → TaskKind → Bool
same_kind approved_promotion approved_promotion = true
same_kind upstream_release upstream_release = true
same_kind runtime_health runtime_health = true
same_kind _ _ = false

abbrev pub same_id : TaskId → TaskId → Bool
same_id a b = same_kind a.kind b.kind && str_eq a.identity b.identity

-- What a completed task holds as its result: the status that was read.
pub data Outcome : Type 0 where
  promotion_result repair_result : Option String → Outcome
  recovered : Outcome

pub record Task : Type 0 where
  pub id : TaskId
  pub phase : Phase
  pub attempts : ℕ
  pub retry_count : ℕ
  pub thread_id : Option String
  pub codex_model : Option String
  pub next_retry : Option ℕ
  pub quiet_seconds : Option ℕ
  pub idle_override : Bool
  pub returncode : Option ℕ
  pub completed : Bool
  pub outcome : Option Outcome
  pub source_commit : String
  pub retry_of : Bool

-- A task as it is first written, but for its phase and its commit.
abbrev pub new_task : TaskId → Phase → String → Task
new_task id phase source_commit = record {
  id = id;
  phase = phase;
  attempts = 0;
  retry_count = 0;
  thread_id = none;
  codex_model = none;
  next_retry = none;
  quiet_seconds = none;
  idle_override = false;
  returncode = none;
  completed = false;
  outcome = none;
  source_commit = source_commit;
  retry_of = false;
}

-- What the probe of the official endpoint says of the installer; the hash is filled in later.
pub record Observed : Type 0 where
  pub version : String
  pub etag : String
  pub last_modified : String
  pub content_length : String
  pub installer_sha256 : Option String

-- The state directory: pending.json, tasks/<id>/task.json, and of status.json the phase, the active
-- task and the observed release. `made` holds of a task whose directory was made, with or without a file.
-- The counts are of the runs of the promotion helper's `apply`, of Codex,
-- of restarts of the bridge and of reinstallations.
pub record Store : Type 0 where
  pub pending : Option Task
  pub tasks : TaskId → Option Task
  pub status : Phase
  pub active_task : Option TaskId
  pub observed_release : Option Observed
  pub made : TaskId → Bool
  pub applied : ℕ
  pub codex_runs : ℕ
  pub restarts : ℕ
  pub reinstalls : ℕ

-- The messages of `UpdateError`.
pub data UpdateError : Type 0 where
  nothing_to_retry not_retryable : UpdateError
  unsafe_id task_escaped checkout_escaped no_details manifest_escaped : UpdateError
  helper_missing files_incomplete hashes_differ helper_failed unreadable_result : UpdateError
  marker_escaped unsafe_work_dir task_unavailable marker_disagrees wrong_prefix : UpdateError
  recovery_failed recovery_unreadable : UpdateError
  not_eligible not_pinned installer_changed checkout_failed manifest_changed : UpdateError
  fetch_failed no_approved_release probe_failed download_failed unsupported_version : UpdateError
  nothing_to_promote not_a_failed_promotion tooling_unchanged not_requeued not_a_promotion :
      UpdateError
  handoff_missing repository_unreadable : UpdateError

-- An action: what it returns or raises, and the files then.
abbrev pub Action : Type 0 → Type 0
Action A = Store → Result UpdateError A × Store

abbrev pub after :
    {A B : Type 0} → Result UpdateError A × Store → (A → Action B) → Result UpdateError B × Store
after (ok a, s) next = next a s
after (err e, s) next = (err e, s)

infixl 5 ◌>>=◌ ◌>>◌
abbrev pub ◌>>=◌ : {A B : Type 0} → Action A → (A → Action B) → Action B
◌>>=◌ m next s = after (m s) next

abbrev pub ◌>>◌ : {A B : Type 0} → Action A → Action B → Action B
◌>>◌ m next s = after (m s) (λ _. next)

abbrev pub done : Action (Unit {0})
done s = (ok tt, s)

abbrev pub give : {A : Type 0} → A → Action A
give a s = (ok a, s)

abbrev pub raise : {A : Type 0} → UpdateError → Action A
raise e s = (err e, s)

-- `if not test: raise`
abbrev pub check_that : Bool → UpdateError → Action (Unit {0})
check_that true e s = (ok tt, s)
check_that false e s = (err e, s)

-- tasks/<id>/task.json is written, for an id or for the task's own, or its directory is moved away.
abbrev pub put_at : TaskId → Task → (TaskId → Option Task) → TaskId → Option Task
put_at id t tasks k = if same_id k id then some t else tasks k

abbrev pub put : Task → (TaskId → Option Task) → TaskId → Option Task
put t tasks k = if same_id k t.id then some t else tasks k

abbrev pub without : TaskId → (TaskId → Option Task) → TaskId → Option Task
without id tasks k = if same_id k id then none else tasks k

-- `task_dir.mkdir(exist_ok=True)`
abbrev pub add_dir : TaskId → (TaskId → Bool) → TaskId → Bool
add_dir id made k = if same_id k id then true else made k

unfoldable pub make_dir : TaskId → Action (Unit {0})
make_dir id s = (ok tt, record s { made = add_dir id s.made })

-- The directory is moved away.
abbrev pub without_dir : TaskId → (TaskId → Bool) → TaskId → Bool
without_dir id made k = if same_id k id then false else made k

-- `save_task`, whose two writes are taken to succeed
unfoldable pub save_task : Task → Action (Unit {0})
save_task t s = (ok tt, record s { pending = some t; tasks = put t s.tasks })

-- `atomic_json` of the task file alone
unfoldable pub write_task : Task → Action (Unit {0})
write_task t s = (ok tt, record s { tasks = put t s.tasks })

-- `atomic_json` of the task file and `pending_path.unlink`, which are taken to succeed
unfoldable pub complete_task : Task → Action (Unit {0})
complete_task t s = (ok tt, record s { pending = none; tasks = put t s.tasks })

-- `atomic_json` of pending.json
unfoldable pub write_pending : Task → Action (Unit {0})
write_pending t s = (ok tt, record s { pending = some t })

-- `write_status`, without an active task and with one
unfoldable pub write_phase : Phase → Action (Unit {0})
write_phase p s = (ok tt, record s { status = p })

unfoldable pub write_status : Phase → TaskId → Action (Unit {0})
write_status p id s = (ok tt, record s { status = p; active_task = some id })

unfoldable pub write_observed : Phase → Observed → Action (Unit {0})
write_observed p o s = (ok tt, record s { status = p; observed_release = some o })

-- A helper process is started.
unfoldable pub count_apply : Action (Unit {0})
count_apply s = (ok tt, record s { applied = suc s.applied })

unfoldable pub count_codex : Action (Unit {0})
count_codex s = (ok tt, record s { codex_runs = suc s.codex_runs })

unfoldable pub count_restart : Action (Unit {0})
count_restart s = (ok tt, record s { restarts = suc s.restarts })

unfoldable pub count_reinstall : Action (Unit {0})
count_reinstall s = (ok tt, record s { reinstalls = suc s.reinstalls })

abbrev pub says : String → Option String → Bool
says text none = false
says text (some s) = str_eq s text

-- The phases in which a task is over: a repair that waits for a person, or a promotion that will not be
-- tried again by itself.
abbrev pub promotion_over : Phase → Bool
promotion_over promoted = true
promotion_over promotion_blocked = true
promotion_over _ = false

-- `TERMINAL_PHASES`
abbrev pub terminal : Phase → Bool
terminal blocked = true
terminal no_change = true
terminal ready_for_review = true
terminal _ = false
