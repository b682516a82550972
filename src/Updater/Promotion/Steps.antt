-- ===== src/Updater/Promotion/Steps.antt =====
-- `run_promotion` and `recover_interrupted_promotion` as steps of the life of a task.
use uu_remote_ubuntu_bridge.Prelude.{
  ℕ, suc, ◌-◌, ◌*◌, ◌≡◌, refl, sym, ap, ◌∙◌, ◌⊎◌, inl, inr, Bool, true, false, ◌&&◌, Option, none,
  some, List, arith, ltb, if◌then◌else◌, Bool-cases, String,
}
use uu_remote_ubuntu_bridge.Updater.Tasks
use uu_remote_ubuntu_bridge.Updater.Tasks.{
  TaskKind, approved_promotion, TaskId, Task, Store, UpdateError, Action, after, same_id, put, says,
  promotion_blocked,
}
use uu_remote_ubuntu_bridge.Updater.Lifecycle.Chains.{
  Reads-Steps, if-Steps, check-Steps, Unsettled-put,
}
use uu_remote_ubuntu_bridge.Updater.Promotion
use uu_remote_ubuntu_bridge.Updater.Promotion.{
  Scene, TaskFiles, ResultFile, absent, unreadable, holds, Interrupted, run_promotion,
  recover_interrupted, newest,
}
use uu_remote_ubuntu_bridge.Updater.Promotion.Quiet.{promotion_paths-Reads}
use uu_remote_ubuntu_bridge.Updater.Lifecycle.{
  over, fits, Files, Unsettled, Elsewhere, note, save, settle, Steps, Steps-trans, here, next,
}
use uu_remote_ubuntu_bridge.Updater.Lifecycle.Invariant.{Consistent}

abbrev verdict : Bool → Tasks.Phase
verdict x = if x then Tasks.promoted else promotion_blocked

verdict-over : (x : Bool) → over (verdict x) ≡ true
verdict-over true = refl
verdict-over false = refl

verdict-fits :
    (kind : TaskKind) (x : Bool) → kind ≡ approved_promotion → fits kind (verdict x) ≡ true
verdict-fits kind true e = rw e
verdict-fits kind false e = rw e

run_helper-Steps :
    (helper : Option (Bool × ResultFile)) (t : Task) (s : Store)
    → t.id.kind ≡ approved_promotion
    → Steps false s (Promotion.run_helper helper t s).1
unfolding Promotion.run_helper Tasks.complete_task Tasks.write_status
run_helper-Steps none t s k = next here (note s _ refl refl)
run_helper-Steps (some (b, absent)) t s k = next here (
    settle _ s _ (verdict-over (b && false)) (verdict-fits t.id.kind (b && false) k) (inl refl)
      refl)
run_helper-Steps (some (b, unreadable)) t s k = next here (note s _ refl refl)
run_helper-Steps (some (b, holds status)) t s k =
    let x = b && says "promoted" status in
    next here (settle _ s _ (verdict-over x) (verdict-fits t.id.kind x k) (inl refl) refl)

launch-Steps :
    (o : Scene) (t : Task) (s : Store)
    → t.id.kind ≡ approved_promotion
    → Unsettled s.tasks t.id
    → Steps false s (Promotion.launch o t s).1
unfolding Promotion.launch
launch-Steps o t s k u =
    Steps-trans
      (next here (
        save (record t { phase = Tasks.promotion_running; attempts = suc t.attempts }) s _ refl u
          refl refl))
      (run_helper-Steps o.helper _ _ k)

transact-Steps :
    (o : Scene) (t : Task) (ignore_idle : Bool) (s : Store)
    → t.id.kind ≡ approved_promotion
    → over t.phase ≡ false
    → Unsettled s.tasks t.id
    → Steps false s (Promotion.transact o t ignore_idle s).1
unfolding Promotion.transact
transact-Steps o t false s k h u =
    Reads-Steps s (Promotion.promotion_paths o.files) (Promotion.launch o t)
      (promotion_paths-Reads o.files) (launch-Steps o t s k u)
transact-Steps o t true s k h u =
    let t₁ = record t { idle_override = true } in
    let s₁ = record s { pending = some t₁; tasks = put t₁ s.tasks } in
    Steps-trans (next here (save t₁ s s₁ h u refl refl)) (
      Reads-Steps s₁ (Promotion.promotion_paths o.files) (Promotion.launch o t₁)
        (promotion_paths-Reads o.files) (launch-Steps o t₁ s₁ k (Unsettled-put t₁ s.tasks h)))

when_quiet-Steps :
    (o : Scene) (t : Task) (ignore_idle : Bool) (quiet : ℕ) (s : Store)
    → t.id.kind ≡ approved_promotion
    → over t.phase ≡ false
    → Unsettled s.tasks t.id
    → Steps false s (Promotion.when_quiet o t ignore_idle quiet s).1
unfolding Promotion.when_quiet Tasks.save_task Tasks.write_status
when_quiet-Steps o t ignore_idle quiet s k h u =
    if-Steps (ltb quiet (if ignore_idle then 0 else o.idle_minutes * 60)) _ _
      (λ e. next here (save _ s _ refl u refl refl)) (λ e. transact-Steps o t ignore_idle s k h u)

by_activity-Steps :
    (o : Scene) (t : Task) (ignore_idle : Bool) (latest : Option ℕ) (s : Store)
    → t.id.kind ≡ approved_promotion
    → over t.phase ≡ false
    → Unsettled s.tasks t.id
    → Steps false s (Promotion.by_activity o t ignore_idle latest s).1
unfolding Promotion.by_activity Promotion.waiting Tasks.save_task Tasks.write_status
by_activity-Steps o t ignore_idle none s k h u =
    if-Steps ignore_idle _ _ (λ e. when_quiet-Steps o t ignore_idle 0 s k h u)
      (λ e. next here (save _ s _ refl u refl refl))
by_activity-Steps o t ignore_idle (some m) s k h u =
    when_quiet-Steps o t ignore_idle (o.now - m) s k h u

pub run_promotion-Steps :
    (o : Scene) (t : Task) (ignore_idle : Bool) (s : Store)
    → t.id.kind ≡ approved_promotion
    → over t.phase ≡ false
    → Unsettled s.tasks t.id
    → Steps false s (run_promotion o t ignore_idle s).1
unfolding run_promotion Tasks.save_task Tasks.write_status
run_promotion-Steps o t ignore_idle s k h u =
    if-Steps o.auto_promote _ _ (λ e. by_activity-Steps o t ignore_idle (newest o.activity) s k h u)
      (λ e. next here (save _ s _ refl u refl refl))

-- The marker, if there is one, names the directory of a promotion.
abbrev pub NamesPromotion : Option Interrupted → Type 0
NamesPromotion none = Unit {0}
NamesPromotion (some m) =
    (id : TaskId) (rest : List String) → m.relative ≡ some (id, rest) → id.kind ≡ approved_promotion

put_at-eq :
    (id : TaskId) (t : Task) (tasks : Files) → t.id ≡ id → Tasks.put_at id t tasks ≡ put t tasks
put_at-eq id t tasks e = ap (λ (j : TaskId). Tasks.put_at j t tasks) (sym e)

no_longer_pending :
    (id i : TaskId) (pending : Option Task)
    → i ≡ id
    → ((if Promotion.is_pending id pending then none else pending) ≡ none)
      ⊎ (((if Promotion.is_pending id pending then none else pending) ≡ pending)
          × Elsewhere pending i)
no_longer_pending id i none e = inl refl
no_longer_pending id i (some p) e = elim (Bool-cases (same_id p.id id)) [
  | inl f ↦ inl (rw f)
  | inr f ↦ inr (rw f, λ q g. ground arith)
]

settle_recovered-Steps :
    (id : TaskId) (t : Task) (s : Store)
    → id.kind ≡ approved_promotion
    → t.id ≡ id
    → Steps false s (Promotion.settle_recovered id t s).1
unfolding Promotion.settle_recovered Tasks.write_status
settle_recovered-Steps id t s k e = next here (
    settle
      (record t { phase = promotion_blocked; completed = true; outcome = some Tasks.recovered }) s _
      refl (verdict-fits t.id.kind false (ap (λ (i : TaskId). i.kind) e ∙ k))
      (no_longer_pending id t.id s.pending e) (put_at-eq id _ s.tasks e))

recover_file-Steps :
    (m : Interrupted) (id : TaskId) (file : Option Task) (s : Store)
    → ((t : Task) → file ≡ some t → t.id ≡ id)
    → id.kind ≡ approved_promotion
    → Steps false s (Promotion.recover_file m id file s).1
unfolding Promotion.recover_file Promotion.recover_loaded Promotion.settle_recovered
recover_file-Steps m id none s c k = here
recover_file-Steps m id (some t) s c k = check-Steps m.checkout_inside _ _ λ _.
    check-Steps m.helper_there _ _ λ _. check-Steps m.work_dir_matches _ _ λ _.
      check-Steps m.prefix_matches _ _ λ _.
        check-Steps m.recover_ok _ _
          λ _. check-Steps m.record_readable _ _ λ _. settle_recovered-Steps id t s k (c t refl)

recover_from-Steps :
    (m : Interrupted) (relative : Option (TaskId × List String)) (s : Store)
    → Consistent s
    → ((id : TaskId) (rest : List String)
        → relative ≡ some (id, rest)
        → id.kind ≡ approved_promotion)
    → Steps false s (Promotion.recover_from m relative s).1
unfolding Promotion.recover_from Promotion.recover_task
recover_from-Steps m none s c k = here
recover_from-Steps m (some (id, rest)) s c k =
    check-Steps (Promotion.names_promotion rest) _ _
      (λ _. recover_file-Steps m id (s.tasks id) s (c.keyed id) (k id rest refl))

pub recover_interrupted-Steps :
    (marker : Option Interrupted) (s : Store)
    → Consistent s
    → NamesPromotion marker
    → Steps false s (recover_interrupted marker s).1
unfolding recover_interrupted
recover_interrupted-Steps none s c k = here
recover_interrupted-Steps (some m) s c k = recover_from-Steps m m.relative s c k
