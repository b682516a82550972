-- ===== src/Updater/Queue/Steps.antt =====
-- `queue_task` and `queue_promotion` as steps of the life of a task.
use uu_remote_ubuntu_bridge.Prelude.{
  ◌≡◌, refl, sym, ap, subst, ◌∙◌, inl, inr, true, false, Option, none, some, arith, Bool-cases,
  String,
}
use uu_remote_ubuntu_bridge.Updater.Tasks
use uu_remote_ubuntu_bridge.Updater.Tasks.{
  Phase, TaskKind, approved_promotion, TaskId, Task, Store, Observed, put, new_task, terminal,
  promotion_over, same_id,
}
use uu_remote_ubuntu_bridge.Updater.Releases.{Release}
use uu_remote_ubuntu_bridge.Updater.Queue
use uu_remote_ubuntu_bridge.Updater.Queue.{
  Checkout, Pinned, queue_task, queue_promotion, promotion_id, pinned_metadata,
}
use uu_remote_ubuntu_bridge.Updater.Lifecycle.{
  over, fits, Unsettled, Elsewhere, note, save, resume, defer, Steps, Steps-trans, here, next,
}
use uu_remote_ubuntu_bridge.Updater.Lifecycle.Invariant.{Consistent}
use uu_remote_ubuntu_bridge.Updater.Lifecycle.Chains.{if-Steps, check-Steps}
use uu_remote_ubuntu_bridge.Updater.Repair.Steps.{IsRepair}

-- A repair task that is no terminal one is not over.
pub over_repair :
    (kind : TaskKind) (p : Phase)
    → IsRepair kind
    → fits kind p ≡ true
    → terminal p ≡ false
    → over p ≡ false
over_repair kind p k f h = ground arith

-- A promotion that is neither promoted nor blocked is not over.
over_promotion :
    (p : Phase)
    → fits approved_promotion p ≡ true
    → Queue.is_promoted p ≡ false
    → Queue.is_blocked p ≡ false
    → over p ≡ false
over_promotion p f g h = ground arith

module _ (id : TaskId) (s : Store) where
  resume_task-Steps :
      (t : Task)
      → s.tasks id ≡ some t
      → t.id ≡ id
      → fits id.kind t.phase ≡ true
      → IsRepair id.kind
      → Steps false s (Queue.resume_task id t s).1
  unfolding Queue.resume_task Tasks.write_pending Tasks.write_status
  resume_task-Steps t e i f k =
      if-Steps (terminal t.phase) _ _ (λ _. next here (note s _ refl refl))
        (λ h.
          next here (resume t s _ (over_repair id.kind t.phase k f h) (ap s.tasks i ∙ e) refl refl))

  create_task-Steps :
      (c : Checkout) (base : Option String)
      → s.tasks id ≡ none
      → Steps false s (Queue.create_task c id base s).1
  unfolding Queue.create_task Tasks.save_task Tasks.write_status
  create_task-Steps c none e = here
  create_task-Steps c (some base) e = check-Steps c.handoff_there _ _ (λ _.
      next here (save (new_task id Tasks.queued base) s _ refl (λ v f. ground arith) refl refl))

  queue_existing-Steps :
      (c : Checkout) (file : Option Task)
      → Consistent s
      → s.tasks id ≡ file
      → IsRepair id.kind
      → Steps false s (Queue.queue_existing c id file s).1
  unfolding Queue.queue_existing
  queue_existing-Steps c none g e k = create_task-Steps c c.base e
  queue_existing-Steps c (some t) g e k =
      resume_task-Steps t e (g.keyed id t e) (g.fitting id t e) k

pub queue_task-Steps :
    (c : Checkout) (id : TaskId) (s : Store)
    → Consistent s
    → IsRepair id.kind
    → Steps false s (queue_task c id s).1
unfolding queue_task Tasks.make_dir
queue_task-Steps c id s g k =
    let s₁ = record s { made = Tasks.add_dir id s.made } in
    Steps-trans (next here (note s s₁ refl refl))
      (queue_existing-Steps id s₁ c (s.tasks id) g refl k)

elsewhere :
    (id : TaskId) (pending : Option Task)
    → Queue.other_pending id pending ≡ true
    → Elsewhere pending id
unfolding Queue.other_pending
elsewhere id none h p e = ground arith
elsewhere id (some q) h p e = ground arith

module _ (seen : Observed) (id : TaskId) (s : Store) where
  enter_queue-Steps :
      (t : Task)
      → t.id ≡ id
      → Unsettled s.tasks id
      → Steps false s (Queue.enter_queue seen id t s).1
  unfolding Queue.enter_queue Queue.show Tasks.save_task Tasks.write_task Tasks.write_status
      Tasks.write_observed
  enter_queue-Steps t i u =
      let at : Unsettled s.tasks t.id = λ v f. u v (ap s.tasks (sym i) ∙ f) in
      elim (Bool-cases (Queue.other_pending id s.pending)) [
        | inl h ↦ simp h (
            next here (
              defer (record t { phase = Tasks.promotion_deferred }) s _ refl at
                (subst (λ (j : TaskId). Elsewhere s.pending j) (sym i) (elsewhere id s.pending h))
                refl refl))
        | inr h ↦
            simp h
              (next here (save (record t { phase = Tasks.promotion_queued }) s _ refl at refl refl))
      ]

  queue_known-Steps :
      (t : Task)
      → t.id ≡ id
      → s.tasks id ≡ some t
      → fits approved_promotion t.phase ≡ true
      → Steps false s (Queue.queue_known seen id t s).1
  unfolding Queue.queue_known Queue.show Tasks.write_status Tasks.write_observed
  queue_known-Steps t i e f =
      if-Steps (Queue.is_promoted t.phase) _ _ (λ _. next here (note s _ refl refl))
        λ g.
          if-Steps (Queue.is_blocked t.phase) _ _ (λ _. next here (note s _ refl refl))
            λ h.
              enter_queue-Steps t i
                (λ v x. let over_t = over_promotion t.phase f g h in ground arith)

queue_release-Steps :
    (p : Pinned) (r : Release) (seen : Observed) (file : Option Task) (s : Store)
    → Consistent s
    → s.tasks (promotion_id r) ≡ file
    → Steps false s (Queue.queue_release p r seen file s).1
unfolding Queue.queue_release
queue_release-Steps p r seen none s c e = check-Steps p.checkout_ok _ _ λ _.
    check-Steps (Tasks.says r.manifest_sha256 p.manifest_sha256) _ _ λ _.
      enter_queue-Steps seen (promotion_id r) s
        (new_task (promotion_id r) Tasks.promotion_queued r.source_commit) refl
        (λ v f. ground arith)
queue_release-Steps p r seen (some t) s c e =
    queue_known-Steps seen (promotion_id r) s t (c.keyed (promotion_id r) t e) e
      (c.fitting (promotion_id r) t e)

pub queue_promotion-Steps :
    (p : Pinned) (r : Release) (seen : Observed) (s : Store)
    → Consistent s
    → Steps false s (queue_promotion p r seen s).1
unfolding queue_promotion Tasks.make_dir
queue_promotion-Steps p r seen s c = check-Steps r.eligible _ _ λ _.
    check-Steps (pinned_metadata r) _ _ λ _.
      check-Steps (Tasks.says r.installer_sha256 p.installer_sha256) _ _ λ _.
        Steps-trans (next here (note s _ refl refl)) (
          queue_release-Steps p r seen (s.tasks (promotion_id r))
            (record s { made = Tasks.add_dir (promotion_id r) s.made }) c refl)
