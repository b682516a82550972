-- ===== src/Updater/Queue/Gate.antt =====
-- When `queue_promotion` writes a task, and which.
use uu_remote_ubuntu_bridge.Prelude.{
  ◌≡◌, refl, ap, ◌∙◌, ◌⊎◌, inl, inr, Bool, true, false, Option, none, some, arith, Bool-cases,
  if◌then◌else◌, String,
}
use uu_remote_ubuntu_bridge.Updater.Tasks
use uu_remote_ubuntu_bridge.Updater.Tasks.{
  TaskId, TaskKind, Task, Store, Observed, UpdateError, Action, approved_promotion, same_id, says,
  new_task, terminal,
}
use uu_remote_ubuntu_bridge.Updater.Ids.{same_id-eq}
use uu_remote_ubuntu_bridge.Updater.Releases.{Release}
use uu_remote_ubuntu_bridge.Updater.Queue
use uu_remote_ubuntu_bridge.Updater.Queue.{
  Checkout, Pinned, queue_task, queue_promotion, promotion_id, pinned_metadata,
}
use uu_remote_ubuntu_bridge.Updater.Lifecycle.Invariant.{Consistent}

-- What holds of the files after either branch, and after a test that may raise.
module _ (P : Store → Type 0) (s : Store) where
  pub if-holds :
      {A : Type 0} (test : Bool) (m n : Action A)
      → (test ≡ true → P (m s).1)
      → (test ≡ false → P (n s).1)
      → P ((if test then m else n) s).1
  if-holds true m n p q = p refl
  if-holds false m n p q = q refl

  pub check-holds :
      {A : Type 0} (test : Bool) (e : UpdateError) (n : Action A)
      → P s
      → (test ≡ true → P (n s).1)
      → P (Tasks.◌>>◌ (Tasks.check_that test e) n s).1
  check-holds true e n r p = p refl
  check-holds false e n r p = r

-- The file of one task is as it was.
abbrev pub Kept : TaskId → Store → Store → Type 0
Kept id s t = t.tasks id ≡ s.tasks id

-- The release is accepted and pinned, and its installer is the one that it names.
pub record Queueable (p : Pinned) (r : Release) : Type 0 where
  pub eligible : r.eligible ≡ true
  pub pinned : pinned_metadata r ≡ true
  pub installer : says r.installer_sha256 p.installer_sha256 ≡ true

module _ (id : TaskId) (s : Store) where
  enter_queue-Kept :
      (seen : Observed) (own : TaskId) (t : Task)
      → same_id id t.id ≡ false
      → Kept id s (Queue.enter_queue seen own t s).1
  unfolding Queue.enter_queue Queue.show Tasks.save_task Tasks.write_task Tasks.write_status
      Tasks.write_observed
  enter_queue-Kept seen own t h = elim (Bool-cases (Queue.other_pending own s.pending)) [
    | inl e ↦ simp e (ground (arith, h))
    | inr e ↦ simp e (ground (arith, h))
  ]

  queue_release-Kept :
      (p : Pinned) (r : Release) (seen : Observed) (file : Option Task)
      → Consistent s
      → s.tasks (promotion_id r) ≡ file
      → same_id id (promotion_id r) ≡ false
      → Kept id s (Queue.queue_release p r seen file s).1
  unfolding Queue.queue_release Queue.queue_known Queue.show Tasks.write_status Tasks.write_observed
  queue_release-Kept p r seen none c e h = check-holds (Kept id s) s p.checkout_ok _ _ refl λ _.
      check-holds (Kept id s) s (says r.manifest_sha256 p.manifest_sha256) _ _ refl λ _.
        enter_queue-Kept seen (promotion_id r)
          (new_task (promotion_id r) Tasks.promotion_queued r.source_commit) h
  queue_release-Kept p r seen (some t) c e h =
      if-holds (Kept id s) s (Queue.is_promoted t.phase) _ _ (λ _. refl)
        λ _.
          if-holds (Kept id s) s (Queue.is_blocked t.phase) _ _ (λ _. refl)
            λ _.
              enter_queue-Kept seen (promotion_id r) t
                (ap (λ (k : TaskId). same_id id k) (c.keyed (promotion_id r) t e) ∙ h)

  create_task-Kept :
      (c : Checkout) (own : TaskId) (base : Option String)
      → same_id id own ≡ false
      → Kept id s (Queue.create_task c own base s).1
  unfolding Queue.create_task Tasks.save_task Tasks.write_status
  create_task-Kept c own none h = refl
  create_task-Kept c own (some base) h =
      check-holds (Kept id s) s c.handoff_there _ _ refl (λ _. ground (arith, h))

  queue_existing-Kept :
      (c : Checkout) (own : TaskId) (file : Option Task)
      → same_id id own ≡ false
      → Kept id s (Queue.queue_existing c own file s).1
  unfolding Queue.queue_existing Queue.resume_task Tasks.write_status Tasks.write_pending
  queue_existing-Kept c own none h = create_task-Kept c own c.base h
  queue_existing-Kept c own (some t) h =
      if-holds (Kept id s) s (terminal t.phase) _ _ (λ _. refl) (λ _. refl)

abbrev with_dir : TaskId → Store → Store
with_dir own s = record s { made = Tasks.add_dir own s.made }

moved : (own : TaskId) (s : Store) → Consistent s → Consistent (with_dir own s)
moved own s c = c

module _ (id : TaskId) (s : Store) where
  -- On consistent files, `queue_promotion` leaves a task's file as it is, unless the task is the
  -- release's own and the release is queueable.
  pub queue_promotion-Queueable :
      (p : Pinned) (r : Release) (seen : Observed)
      → Consistent s
      → Kept id s (queue_promotion p r seen s).1 ⊎ ((id ≡ promotion_id r) × Queueable p r)
  unfolding queue_promotion Tasks.make_dir
  queue_promotion-Queueable p r seen c =
      let P : Store → Type 0 = λ t. Kept id s t ⊎ ((id ≡ promotion_id r) × Queueable p r) in
      check-holds P s r.eligible _ _ (inl refl) λ a.
        check-holds P s (pinned_metadata r) _ _ (inl refl) λ b.
          check-holds P s (says r.installer_sha256 p.installer_sha256) _ _ (inl refl) λ d.
            elim (Bool-cases (same_id id (promotion_id r))) [
              | inl e ↦ inr (
                same_id-eq id (promotion_id r) e,
                record { eligible = a; pinned = b; installer = d },
              )
              | inr e ↦ inl (
                  queue_release-Kept id (with_dir (promotion_id r) s) p r seen
                    (s.tasks (promotion_id r)) (moved (promotion_id r) s c) refl e)
            ]

  -- `queue_task` writes no task but its own.
  pub queue_task-Kept :
      (c : Checkout) (own : TaskId) → same_id id own ≡ false → Kept id s (queue_task c own s).1
  unfolding queue_task Tasks.make_dir
  queue_task-Kept c own h = queue_existing-Kept id (with_dir own s) c own (s.tasks own) h
