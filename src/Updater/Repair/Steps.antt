-- ===== src/Updater/Repair/Steps.antt =====
-- `retry_task` and `monitor` on a repair task as steps of the life of a task.
use uu_remote_ubuntu_bridge.Prelude.{
  ℕ, suc, ◌≡◌, refl, sym, ap, ◌∙◌, inl, true, false, not, Option, none, some, arith, ◌==◌, String,
}
use uu_remote_ubuntu_bridge.Updater.Tasks
use uu_remote_ubuntu_bridge.Updater.Tasks.{
  Phase, TaskKind, approved_promotion, TaskId, Task, Store, put,
}
use uu_remote_ubuntu_bridge.Updater.Repair
use uu_remote_ubuntu_bridge.Updater.Repair.{
  Repository, Verification, Visit, final_phase, verify_repair, finish_task, run_codex,
  monitor_repair, retry_task, ran,
}
use uu_remote_ubuntu_bridge.Updater.Lifecycle.{
  over, fits, Unsettled, note, save, settle, reopen, Steps, Steps-trans, here, next,
}
use uu_remote_ubuntu_bridge.Updater.Lifecycle.Invariant.{Consistent}
use uu_remote_ubuntu_bridge.Updater.Lifecycle.Chains.{
  if-Steps, check-Steps, Unsettled-put, pending-Unsettled,
}

-- A repair ends in one of the phases of TERMINAL_PHASES.
final_phase-over :
    (v : Verification) (requested : Option String) → over (final_phase v requested) ≡ true
unfolding final_phase
final_phase-over v requested = ground arith

final_phase-fits :
    (v : Verification) (requested : Option String) (kind : TaskKind)
    → Tasks.same_kind kind approved_promotion ≡ false
    → fits kind (final_phase v requested) ≡ true
unfolding final_phase
final_phase-fits v requested kind h = ground arith

abbrev pub IsRepair : TaskKind → Type 0
IsRepair kind = Tasks.same_kind kind approved_promotion ≡ false

module _ (o : Visit) where
  interrupted-Steps :
      (t : Task) (s : Store) → Unsettled s.tasks t.id → Steps false s (Repair.interrupted o t s).1
  unfolding Repair.interrupted Tasks.save_task Tasks.write_status
  interrupted-Steps t s u = next here (save _ s _ refl u refl refl)

  finish_read-Steps :
      (r : Option Repository) (t : Task) (requested : Option String) (s : Store)
      → IsRepair t.id.kind
      → Steps false s (Repair.finish_read r t requested s).1
  unfolding Repair.finish_read finish_task Tasks.complete_task Tasks.write_status
  finish_read-Steps none t requested s k = here
  finish_read-Steps (some r) t requested s k = next here (
      settle _ s _ (final_phase-over (verify_repair r) requested)
        (final_phase-fits (verify_repair r) requested t.id.kind k) (inl refl) refl)

  after_codex-Steps :
      (result : Option (Option String)) (t : Task) (s : Store)
      → IsRepair t.id.kind
      → Unsettled s.tasks t.id
      → Steps false s (Repair.after_codex o result t s).1
  unfolding Repair.after_codex
  after_codex-Steps none t s k u = interrupted-Steps t s u
  after_codex-Steps (some requested) t s k u =
      if-Steps (o.codex_status == 0) _ _ (λ _. finish_read-Steps o.repository t requested s k)
        (λ _. interrupted-Steps t s u)

  deferred-Steps :
      (phase : Phase) (retry : ℕ) (t : Task) (s : Store)
      → over phase ≡ false
      → Unsettled s.tasks t.id
      → Steps false s (Repair.deferred phase retry t s).1
  unfolding Repair.deferred Tasks.save_task Tasks.write_status
  deferred-Steps phase retry t s h u = next here (save _ s _ h u refl refl)

  codex-Steps :
      (t : Task) (s : Store)
      → IsRepair t.id.kind
      → Unsettled s.tasks t.id
      → Steps false s (Tasks.◌>>=◌ (run_codex o t) (λ t₁. Repair.after_codex o o.result t₁) s).1
  unfolding run_codex Tasks.save_task Tasks.write_status Tasks.count_codex
  codex-Steps t s k u =
      let t₁ = record t { phase = Tasks.codex_running; attempts = suc t.attempts } in
      let f = put t₁ s.tasks in
      Steps-trans
        (next (next here (save t₁ s (record s { pending = some t₁; tasks = f }) refl u refl refl))
          (save (ran o t) _ _ refl (Unsettled-put t₁ s.tasks refl) refl refl))
        (after_codex-Steps o.result (ran o t) _ k (Unsettled-put (ran o t) f refl))

  repair_step-Steps :
      (t : Task) (s : Store)
      → IsRepair t.id.kind
      → Unsettled s.tasks t.id
      → Steps false s (Repair.repair_step o t s).1
  unfolding Repair.repair_step Tasks.write_status
  repair_step-Steps t s k u =
      if-Steps (not (Repair.due o.now t.next_retry)) _ _ (λ _. next here (note s _ refl refl))
        λ _.
          if-Steps (not o.sandbox) _ _ (λ _. deferred-Steps _ _ t s refl u)
            λ _.
              if-Steps (not o.allowed) _ _ (λ _. deferred-Steps _ _ t s refl u)
                λ _. codex-Steps t s k u

  -- What `for_model` leaves of a task.
  for_model_keeps :
      (t : Task) (model : Option String)
      → over t.phase ≡ false
      → ((Repair.for_model o t model).id ≡ t.id) × (over (Repair.for_model o t model).phase ≡ false)
  unfolding Repair.for_model
  for_model_keeps t none h = (refl, h)
  for_model_keeps t (some m) h = (ground arith, ground arith)

  pub monitor_repair-Steps :
      (t : Task) (s : Store)
      → Consistent s
      → s.pending ≡ some t
      → IsRepair t.id.kind
      → Steps false s (monitor_repair o t s).1
  unfolding monitor_repair Tasks.save_task
  monitor_repair-Steps t s c e k =
      let u = Repair.for_model o t t.codex_model in
      let (same, h) = for_model_keeps t t.codex_model (c.unsettled t e) in
      let open_file : Unsettled s.tasks u.id =
        λ v f. pending-Unsettled s t c e v (ap s.tasks (sym same) ∙ f) in
      let repair : IsRepair u.id.kind =
        ap (λ (i : TaskId). Tasks.same_kind i.kind approved_promotion) same ∙ k in
      check-Steps o.context_ok _ _ λ _.
        Steps-trans (next here (save u s _ h open_file refl refl))
          (repair_step-Steps u _ repair (Unsettled-put u s.tasks h))

retry_from-Steps : (t : Task) (s : Store) → Steps true s (Repair.retry_from t s).1
unfolding Repair.retry_from Tasks.save_task Tasks.write_status
retry_from-Steps t s =
    check-Steps (Repair.retryable t.phase) _ _
      (λ _. next here (reopen (Repair.requeued t) s _ refl refl refl))

retry_file-Steps : (file : Option Task) (s : Store) → Steps true s (Repair.retry_file file s).1
unfolding Repair.retry_file
retry_file-Steps none s = here
retry_file-Steps (some t) s = retry_from-Steps t s

retry_active-Steps :
    (active : Option TaskId) (s : Store) → Steps true s (Repair.retry_active active s).1
unfolding Repair.retry_active
retry_active-Steps none s = here
retry_active-Steps (some id) s = retry_file-Steps (s.tasks id) s

retry_pending-Steps :
    (pending : Option Task) (active : Option TaskId) (s : Store)
    → Steps true s (Repair.retry_pending pending active s).1
unfolding Repair.retry_pending
retry_pending-Steps none active s = retry_active-Steps active s
retry_pending-Steps (some t) active s = retry_from-Steps t s

pub retry_task-Steps : (s : Store) → Steps true s (retry_task s).1
unfolding retry_task
retry_task-Steps s = retry_pending-Steps s.pending s.active_task s
