-- ===== src/Updater/Repair/Review.antt =====
-- What a repair run may lead to, when Codex is started, and how long an interrupted run waits.
use uu_remote_ubuntu_bridge.Prelude.{
  ℕ, zero, suc, ◌-◌, ◌^◌, ◌≤◌, ◌<◌, ◌≡◌, refl, ap, ◌⊎◌, inl, inr, true, false, Option, none, some,
  List, [], ◌∷◌, String, ok, err, arith, Option-cases, Bool-cases, eq_iff, min,
}
use uu_remote_ubuntu_bridge.Updater.Tasks
use uu_remote_ubuntu_bridge.Updater.Tasks.{Store, Task, TaskId, UpdateError, says, Phase}
use uu_remote_ubuntu_bridge.Updater.Ids.{same_id_refl}
use uu_remote_ubuntu_bridge.Updater.Repair
use uu_remote_ubuntu_bridge.Updater.Repair.{
  Repository, ChangedManifest, violations, reviewed, unreadable, skipped, verify_repair,
  final_phase, finish_task, Visit, backoff, monitor_repair, retry_task, retryable, run_codex,
}

-- No changed manifest is unreadable or approved.
pub data Unapproved : List ChangedManifest → Type 0 where
  no_more : Unapproved []
  skip : (ms : List ChangedManifest) → Unapproved ms → Unapproved (skipped ∷ ms)
  undecided :
      (status : Option String) (ms : List ChangedManifest)
      → says "approved" status ≡ false
      → Unapproved ms
      → Unapproved (reviewed status ∷ ms)

violations-Unapproved : (ms : List ChangedManifest) → violations ms ≡ [] → Unapproved ms
unfolding violations
violations-Unapproved [] h = no_more
violations-Unapproved (skipped ∷ ms) h = skip ms (violations-Unapproved ms h)
violations-Unapproved (unreadable ∷ ms) h = ground arith
violations-Unapproved (reviewed status ∷ ms) h = elim (Bool-cases (says "approved" status)) [
  | inl e ↦ ground arith
  | inr e ↦ undecided status ms (ground arith) (violations-Unapproved ms (ground arith))
]

violations-nil : (ms : List ChangedManifest) → Repair.is_nil ms ≡ true → ms ≡ []
violations-nil [] h = refl
violations-nil (m ∷ ms) h = ground arith

says-eq : (text : String) (o : Option String) → says text o ≡ true → o ≡ some text
says-eq text none h = ground arith
says-eq text (some s) h = ap some ((eq_iff s text).0 (ground arith))

-- A repair that ends as ready for review or as needing no change has passed the tests, has approved no
-- manifest and left none unreadable; it is ready for review only if something changed and Codex said so,
-- and otherwise nothing changed. However it ends, the task's file says that it is complete, in the phase of
-- the status and with what Codex asked for, and no task is pending.
pub finish_task-review :
    (r : Repository) (t : Task) (requested : Option String) (s : Store)
    → let s₁ = (finish_task r t requested s).1 in
      (s₁.pending ≡ none)
      × ((u : Task) × (s₁.tasks t.id ≡ some u)
          × (u.completed ≡ true)
          × (u.phase ≡ s₁.status)
          × (u.outcome ≡ some (Tasks.repair_result requested)))
      × (s₁.status ≡ Tasks.ready_for_review
          → (r.tests_passed ≡ true)
            × Unapproved r.manifests
            × (r.changed ≡ true)
            × (requested ≡ some "ready_for_review"))
      × (s₁.status ≡ Tasks.no_change
          → (r.tests_passed ≡ true) × Unapproved r.manifests × (r.changed ≡ false))
      × ((s₁.status ≡ Tasks.ready_for_review)
          ⊎ (s₁.status ≡ Tasks.no_change)
          ⊎ (s₁.status ≡ Tasks.blocked))
unfolding finish_task final_phase verify_repair Tasks.write_status Tasks.complete_task
finish_task-review r t requested s = (
  refl,
  (
    record t {
      phase = final_phase (verify_repair r) requested;
      completed = true;
      outcome = some (Tasks.repair_result requested);
    },
    rw (same_id_refl t.id) refl,
    refl,
    refl,
    refl,
  ),
  λ h. (
    ground arith,
    violations-Unapproved r.manifests (violations-nil (violations r.manifests) (ground arith)),
    ground arith,
    says-eq "ready_for_review" requested (ground arith),
  ),
  λ h. (
    ground arith,
    violations-Unapproved r.manifests (violations-nil (violations r.manifests) (ground arith)),
    ground arith,
  ),
  ground arith,
)

power-bounds : (k : ℕ) → k ≤ 6 → (1 ≤ 2 ^ k) × (2 ^ k ≤ 64)
power-bounds zero h = (omega arith, omega arith)
power-bounds (suc zero) h = (omega arith, omega arith)
power-bounds (suc (suc zero)) h = (omega arith, omega arith)
power-bounds (suc (suc (suc zero))) h = (omega arith, omega arith)
power-bounds (suc (suc (suc (suc zero)))) h = (omega arith, omega arith)
power-bounds (suc (suc (suc (suc (suc zero))))) h = (omega arith, omega arith)
power-bounds (suc (suc (suc (suc (suc (suc zero)))))) h = (omega arith, omega arith)
power-bounds (suc (suc (suc (suc (suc (suc (suc k))))))) h = ground arith

power-grows : (j k : ℕ) → (k ≡ j) ⊎ (k ≡ suc j) → 2 ^ j ≤ 2 ^ k
power-grows j k (inl e) = rw e (omega arith)
power-grows j k (inr e) = rw e (omega arith)

-- The wait after an interrupted run is a quarter of an hour at least and a day at most, and no shorter
-- after one more attempt.
pub backoff-bounds :
    (attempts : ℕ)
    → (900 ≤ backoff attempts)
      × (backoff attempts ≤ 86400)
      × (backoff attempts ≤ backoff (suc attempts))
unfolding backoff
backoff-bounds attempts =
    let (a, b) = power-bounds (min (attempts - 1) 6) (omega arith) in
    let c = power-grows (min (attempts - 1) 6) (min (suc attempts - 1) 6) (ground arith) in
    (omega arith, omega arith, omega arith)

-- Codex is started only if the time for the next try has come, the sandbox works and the budget allows it.
pub monitor_repair-allowed :
    (o : Visit) (t : Task) (s : Store)
    → s.codex_runs < (monitor_repair o t s).1.codex_runs
    → (Repair.due o.now t.next_retry ≡ true) × (o.sandbox ≡ true) × (o.allowed ≡ true)
unfolding monitor_repair Repair.for_model Repair.repair_step Repair.deferred Repair.after_codex
    Repair.finish_read Repair.interrupted Tasks.count_codex finish_task run_codex Tasks.write_status
    Tasks.save_task Tasks.complete_task
monitor_repair-allowed o t s h = ground arith

repair_step-isolated :
    (o : Visit) (t : Task) (s : Store)
    → let s₁ = (Repair.repair_step o t s).1 in
      (s₁.applied ≡ s.applied) × (s₁.status ≡ Tasks.promoted → s.status ≡ Tasks.promoted)
unfolding Repair.repair_step Repair.deferred Repair.after_codex Repair.finish_read
    Repair.interrupted Tasks.count_codex finish_task final_phase run_codex Tasks.write_status
    Tasks.save_task Tasks.complete_task
repair_step-isolated o t s = (ground arith, λ h. ground arith)

-- The visit to a repair task never runs the promotion helper, nor says that something was promoted.
pub monitor_repair-isolated :
    (o : Visit) (t : Task) (s : Store)
    → let s₁ = (monitor_repair o t s).1 in
      (s₁.applied ≡ s.applied) × (s₁.status ≡ Tasks.promoted → s.status ≡ Tasks.promoted)
unfolding monitor_repair Tasks.save_task run_codex
monitor_repair-isolated o t s =
    let u = Repair.for_model o t t.codex_model in
    let w = record s { pending = some u; tasks = Tasks.put u s.tasks } in
    let (same, status) = repair_step-isolated o u w in
    elim (Bool-cases o.context_ok) [ inl e ↦ rw e (same, status) | inr e ↦ rw e (refl, λ h. h) ]

-- The task that `retry_task` works on: the pending one, or else the one that the status names.
abbrev pub retried : Store → Option Task
retried s = elim s.pending [
  | some t ↦ some t
  | none ↦ elim s.active_task [ none ↦ none | some id ↦ s.tasks id ]
]

-- A retry that raises nothing starts from one of the five retryable phases, of the pending task or, where
-- there is none, of the one that the status names; the task is then pending and queued, in a new thread,
-- without the marks of the last run. One that raises changes nothing.
pub retry_task-queued :
    (s : Store)
    → ((retry_task s).0 ≡ ok tt
        → (t : Task) × (retried s ≡ some t)
          × (retryable t.phase ≡ true)
          × ((retry_task s).1.pending ≡ some (Repair.requeued t)))
      × ((e : UpdateError) → (retry_task s).0 ≡ err e → (retry_task s).1 ≡ s)
unfolding retry_task Repair.retry_pending Repair.retry_active Repair.retry_file Repair.retry_from
    Tasks.write_status Tasks.save_task
retry_task-queued s = elim (Option-cases s.pending) [
  | inr (t, e) ↦ (λ h. (t, ground arith, ground arith, ground arith), λ x h. ground arith)
  | inl e ↦ elim (Option-cases s.active_task) [
    | inl f ↦ (λ h. ground arith, λ x h. ground arith)
    | inr (id, f) ↦ elim (Option-cases (s.tasks id)) [
      | inl g ↦ (λ h. ground arith, λ x h. ground arith)
      | inr (t, g) ↦ (λ h. (t, ground arith, ground arith, ground arith), λ x h. ground arith)
    ]
  ]
]
