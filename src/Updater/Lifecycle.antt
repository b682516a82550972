-- ===== src/Updater/Lifecycle.antt =====
-- The life of a task in the state directory of scripts/uu_update_manager.py, as a step relation: which
-- writes of pending.json and of the task files the commands of `Manager` are made of.
pub mod Invariant
pub mod Chains
use uu_remote_ubuntu_bridge.Prelude.{
  ℕ, ◌≡◌, ◌⊎◌, inl, inr, Bool, true, false, ◌||◌, not, Option, none, some, if◌then◌else◌,
}
use uu_remote_ubuntu_bridge.Updater.Tasks.{
  Phase, TaskKind, approved_promotion, TaskId, Task, Store, same_id, put, without, promotion_over,
  terminal,
}

-- The task is over.
abbrev pub over : Phase → Bool
over p = promotion_over p || terminal p

-- How a task may be over depends on its kind.
abbrev pub fits : TaskKind → Phase → Bool
fits approved_promotion p = not (terminal p)
fits _ p = not (promotion_over p)

abbrev pub Files : Type 0
Files = TaskId → Option Task

-- The task of this id, if there is one, is not over.
abbrev pub Unsettled : Files → TaskId → Type 0
Unsettled tasks id = (t : Task) → tasks id ≡ some t → over t.phase ≡ false

-- Another task is pending, or none.
abbrev pub Elsewhere : Option Task → TaskId → Type 0
Elsewhere pending id = (p : Task) → pending ≡ some p → same_id p.id id ≡ false

-- One write; `true` marks the writes that only an operator's command makes. Everything else in the
-- store may change with a step.
pub data Step : Bool → Store → Store → Type 0 where
  note :
      {operator : Bool} (s s₁ : Store)
      → s₁.pending ≡ s.pending
      → s₁.tasks ≡ s.tasks
      → Step operator s s₁
  -- a task that is not over becomes the pending one
  save :
      {operator : Bool} (t : Task) (s s₁ : Store)
      → over t.phase ≡ false
      → Unsettled s.tasks t.id
      → s₁.pending ≡ some t
      → s₁.tasks ≡ put t s.tasks
      → Step operator s s₁
  -- the pending task is set to what its file holds
  resume :
      {operator : Bool} (t : Task) (s s₁ : Store)
      → over t.phase ≡ false
      → s.tasks t.id ≡ some t
      → s₁.pending ≡ some t
      → s₁.tasks ≡ s.tasks
      → Step operator s s₁
  -- a task waits behind the pending one
  defer :
      {operator : Bool} (t : Task) (s s₁ : Store)
      → over t.phase ≡ false
      → Unsettled s.tasks t.id
      → Elsewhere s.pending t.id
      → s₁.pending ≡ s.pending
      → s₁.tasks ≡ put t s.tasks
      → Step operator s s₁
  -- a task is over, and is not pending
  settle :
      {operator : Bool} (t : Task) (s s₁ : Store)
      → over t.phase ≡ true
      → fits t.id.kind t.phase ≡ true
      → (s₁.pending ≡ none) ⊎ ((s₁.pending ≡ s.pending) × Elsewhere s.pending t.id)
      → s₁.tasks ≡ put t s.tasks
      → Step operator s s₁
  -- an operator starts a task again, or retires its directory
  reopen :
      (t : Task) (s s₁ : Store)
      → over t.phase ≡ false
      → s₁.pending ≡ some t
      → s₁.tasks ≡ put t s.tasks
      → Step true s s₁
  retire :
      (id : TaskId) (s s₁ : Store)
      → s.pending ≡ none
      → s₁.pending ≡ none
      → s₁.tasks ≡ without id s.tasks
      → Step true s s₁

pub data Steps (operator : Bool) (s : Store) : Store → Type 0 where
  here : Steps operator s s
  next : {t u : Store} → Steps operator s t → Step operator t u → Steps operator s u

pub Steps-trans : {b : Bool} {s t u : Store} → Steps b s t → Steps b t u → Steps b s u
Steps-trans p here = p
Steps-trans p (next q st) = next (Steps-trans p q) st

-- A task has no file, is under way, or is over.
abbrev pub stage_of : Option Task → ℕ
stage_of none = 0
stage_of (some t) = if over t.phase then 2 else 1

abbrev pub stage : Store → TaskId → ℕ
stage s id = stage_of (s.tasks id)
