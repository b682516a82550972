-- ===== src/Updater/Commands/Steps.antt =====
-- The commands of `main` as steps of the life of a task: a refinement of the step relation.
use uu_remote_ubuntu_bridge.Prelude.{
  ◌≡◌, refl, sym, ap, ◌∙◌, inl, inr, Bool, true, false, ◌&&◌, not, Option, none, some, Result, ok,
  err, arith, str_eq, Bool-cases,
}
use uu_remote_ubuntu_bridge.Updater.Tasks
use uu_remote_ubuntu_bridge.Updater.Tasks.{
  Phase, TaskKind, approved_promotion, upstream_release, runtime_health, TaskId, Task, Store,
  UpdateError,
}
use uu_remote_ubuntu_bridge.Updater.Ids.{same_id-eq}
use uu_remote_ubuntu_bridge.Updater.Promotion.{recover_interrupted}
use uu_remote_ubuntu_bridge.Updater.Promotion.Steps.{
  run_promotion-Steps, recover_interrupted-Steps, NamesPromotion,
}
use uu_remote_ubuntu_bridge.Updater.Repair.Steps.{monitor_repair-Steps}
use uu_remote_ubuntu_bridge.Updater.Health.Steps.{monitor_health-Steps}
use uu_remote_ubuntu_bridge.Updater.Check.Steps.{check_lem}
use uu_remote_ubuntu_bridge.Updater.Commands
use uu_remote_ubuntu_bridge.Updater.Commands.{
  MonitorScene, PromoteScene, Command, run_check, run_monitor, run_promote_now, run_retry, monitor,
  promote_now, perform, main,
}
use uu_remote_ubuntu_bridge.Updater.Lifecycle.{
  over, fits, Unsettled, Step, save, settle, retire, Steps, Steps-trans, here, next,
}
use uu_remote_ubuntu_bridge.Updater.Lifecycle.Invariant.{Consistent, Steps-Consistent}
use uu_remote_ubuntu_bridge.Updater.Lifecycle.Chains.{
  after-Steps, check-Steps, pending-Unsettled, Steps-operator,
}

module _ (o : MonitorScene) (s : Store) (c : Consistent s) where
  visit_kind-Steps :
      (kind : TaskKind) (t : Task)
      → s.pending ≡ some t
      → t.id.kind ≡ kind
      → Steps false s (Commands.visit_kind o kind t s).1
  unfolding Commands.visit_kind
  visit_kind-Steps approved_promotion t e k =
      run_promotion-Steps o.promotion t false s k (c.unsettled t e) (pending-Unsettled s t c e)
  visit_kind-Steps upstream_release t e k = monitor_repair-Steps o.repair t s c e (rw k)
  visit_kind-Steps runtime_health t e k = monitor_repair-Steps o.repair t s c e (rw k)

  visit-Steps :
      (pending : Option Task) → s.pending ≡ pending → Steps false s (Commands.visit o pending s).1
  unfolding Commands.visit
  visit-Steps none e = monitor_health-Steps o.runtime s c
  visit-Steps (some t) e = visit_kind-Steps t.id.kind t e refl

  visit_unless-Steps : (b : Bool) → Steps false s (Commands.visit_unless o b s).1
  unfolding Commands.visit_unless
  visit_unless-Steps true = here
  visit_unless-Steps false = visit-Steps s.pending refl

pub monitor-Steps :
    (o : MonitorScene) (s : Store)
    → Consistent s
    → NamesPromotion o.marker
    → Steps false s (monitor o s).1
unfolding monitor
monitor-Steps o s c k =
    let first = recover_interrupted-Steps o.marker s c k in
    after-Steps (recover_interrupted o.marker s) (Commands.visit_unless o) first
      λ b e. Steps-trans first (visit_unless-Steps o _ (Steps-Consistent first c) b)

kind_of_promotion :
    (kind : TaskKind) → Commands.is_promotion kind ≡ true → kind ≡ approved_promotion
kind_of_promotion kind h = ground arith

module _ (o : PromoteScene) where
  promote_task-Steps :
      (t : Task) (s : Store)
      → over t.phase ≡ false
      → Unsettled s.tasks t.id
      → Steps true s (Commands.promote_task o t s).1
  unfolding Commands.promote_task
  promote_task-Steps t s h u = check-Steps (Commands.is_promotion t.id.kind) _ _ λ k.
      Steps-operator (run_promotion-Steps o.promotion t true s (kind_of_promotion t.id.kind k) h u)

  requeued_task-Steps :
      (pending : Option Task) (s : Store)
      → Consistent s
      → s.pending ≡ pending
      → Steps true s (Commands.requeued_task o pending s).1
  unfolding Commands.requeued_task Tasks.save_task
  requeued_task-Steps none s c e = here
  requeued_task-Steps (some t) s c e =
      let u = record t { retry_of = true } in
      let s₁ = record s { pending = some u; tasks = Tasks.put u s.tasks } in
      let first : Step true s s₁ =
        save u s s₁ (c.unsettled t e) (pending-Unsettled s t c e) refl refl in
      let after = Steps-Consistent (next here first) c in
      check-Steps (Commands.is_promotion t.id.kind) _ _ λ _.
        Steps-trans (next here first)
          (promote_task-Steps u s₁ (c.unsettled t e) (pending-Unsettled s₁ u after refl))

  put_back-Steps :
      (id : TaskId) (t : Task) (e : UpdateError) (file : Option Task) (s : Store)
      → Consistent s
      → s.tasks id ≡ file
      → t.id ≡ id
      → over t.phase ≡ true
      → fits t.id.kind t.phase ≡ true
      → Steps true s (Commands.put_back id t e file s).1
  unfolding Commands.put_back
  put_back-Steps id t e none s c f i h g = elim (Bool-cases (s.made id)) [
    | inl there ↦ simp there here
    | inr away ↦ simp away (
        next here (
          settle t s _ h g (inr (refl, λ p d. elsewhere p d))
            (ap (λ (j : TaskId). Tasks.put_at j t s.tasks) (sym i))))
  ]
    where
      elsewhere : (p : Task) → s.pending ≡ some p → Tasks.same_id p.id t.id ≡ false
      elsewhere p d = elim (Bool-cases (Tasks.same_id p.id t.id)) [
        | inr no_match ↦ no_match
        | inl match ↦
            let held = c.mirrored p d in let key = ap s.tasks (same_id-eq p.id t.id match ∙ i) in cc
      ]
  put_back-Steps id t e (some u) s c f i h g = here

  restored-Steps :
      (id : TaskId) (t : Task) (r : Result UpdateError (Unit {0}) × Store)
      → Consistent r.1
      → t.id ≡ id
      → over t.phase ≡ true
      → fits t.id.kind t.phase ≡ true
      → Steps true r.1 (Commands.restored id t r).1
  unfolding Commands.restored
  restored-Steps id t (ok u, s) c i h g = here
  restored-Steps id t (err e, s) c i h g = put_back-Steps id t e (s.tasks id) s c refl i h g

  retire_and_check-Steps :
      (id : TaskId) (t : Task) (s : Store)
      → Consistent s
      → s.pending ≡ none
      → t.id ≡ id
      → over t.phase ≡ true
      → fits t.id.kind t.phase ≡ true
      → Steps true s (Commands.retire_and_check o id t s).1
  unfolding Commands.retire_and_check
  retire_and_check-Steps id t s c p i h g =
      let s₁ = record s { tasks = Tasks.without id s.tasks; made = Tasks.without_dir id s.made } in
      let first : Steps true s s₁ = next here (retire id s s₁ p p refl) in
      let second =
        Steps-trans first (Steps-operator (check_lem o.checks s₁ (Steps-Consistent first c))) in
      Steps-trans second (restored-Steps id t _ (Steps-Consistent second c) i h g)

  blocked-over : (p : Phase) → Commands.is_blocked p ≡ true → over p ≡ true
  blocked-over p h = ground arith

  repromote-Steps :
      (id : TaskId) (file : Option Task) (s : Store)
      → Consistent s
      → s.pending ≡ none
      → s.tasks id ≡ file
      → Steps true s (Commands.repromote o id file s).1
  unfolding Commands.repromote
  repromote-Steps id none s c p e = here
  repromote-Steps id (some t) s c p e =
      check-Steps
        (Commands.is_promotion t.id.kind
          && Commands.is_blocked t.phase
          && Commands.failed_result t.outcome)
        _ _
        λ h. check-Steps o.fetch_ok _ _ λ _.
          check-Steps (not (str_eq o.remote_commit t.source_commit)) _ _ λ _.
            let i = c.keyed id t e in
            let fit : fits t.id.kind t.phase ≡ true =
              ap (λ (j : TaskId). fits j.kind t.phase) i ∙ c.fitting id t e in
            let first =
              retire_and_check-Steps id t s c p i (blocked-over t.phase (ground arith)) fit in
            after-Steps (Commands.retire_and_check o id t s)
              (λ _ w. Commands.requeued_task o w.pending w) first
              λ a d. Steps-trans first (requeued_task-Steps _ _ (Steps-Consistent first c) refl)

  promote_blocked-Steps :
      (status : Phase) (active : Option TaskId) (s : Store)
      → Consistent s
      → s.pending ≡ none
      → Steps true s (Commands.promote_blocked o status active s).1
  unfolding Commands.promote_blocked
  promote_blocked-Steps status none s c p = here
  promote_blocked-Steps status (some id) s c p = elim (Bool-cases (Commands.is_blocked status)) [
    | inl e ↦ simp e (repromote-Steps id (s.tasks id) s c p refl)
    | inr e ↦ simp e here
  ]

  promote_pending-Steps :
      (pending : Option Task) (s : Store)
      → Consistent s
      → s.pending ≡ pending
      → Steps true s (Commands.promote_pending o pending s).1
  unfolding Commands.promote_pending
  promote_pending-Steps none s c e = promote_blocked-Steps s.status s.active_task s c e
  promote_pending-Steps (some t) s c e =
      promote_task-Steps t s (c.unsettled t e) (pending-Unsettled s t c e)

  promote_unless-Steps :
      (b : Bool) (s : Store) → Consistent s → Steps true s (Commands.promote_unless o b s).1
  unfolding Commands.promote_unless
  promote_unless-Steps true s c = here
  promote_unless-Steps false s c = promote_pending-Steps s.pending s c refl

  pub promote_now-Steps :
      (s : Store) → Consistent s → NamesPromotion o.marker → Steps true s (promote_now o s).1
  unfolding promote_now
  promote_now-Steps s c k =
      let first = Steps-operator (recover_interrupted-Steps o.marker s c k) in
      after-Steps (recover_interrupted o.marker s) (Commands.promote_unless o) first
        λ b e. Steps-trans first (promote_unless-Steps b _ (Steps-Consistent first c))
