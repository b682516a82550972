-- ===== src/Updater/Promotion/Quiet.antt =====
-- When `run_promotion` runs the promotion helper, and what it then leaves.
use uu_remote_ubuntu_bridge.Prelude.{
  ℕ, suc, sym, ap, subst, ◌∙◌, Result, ◌+◌, ◌-◌, ◌*◌, ◌≤◌, ◌<◌, ◌≡◌, ◌≢◌, ◌⊎◌, inl, inr, Bool, true,
  false, Option, none, some, List, [], ◌∷◌, ok, arith, ltb, if◌then◌else◌, ◌&&◌, Option-cases,
  Bool-cases,
}
use uu_remote_ubuntu_bridge.Updater.Tasks
use uu_remote_ubuntu_bridge.Updater.Tasks.{
  Phase, Store, Task, TaskId, UpdateError, says, promoted, promotion_blocked, promotion_held,
  promotion_waiting_idle,
}
use uu_remote_ubuntu_bridge.Updater.Promotion
use uu_remote_ubuntu_bridge.Updater.Promotion.{
  Scene, TaskFiles, ResultFile, absent, unreadable, holds, newest, run_promotion,
}
use uu_remote_ubuntu_bridge.Updater.Actions.{after-ok, Reads, >>-Reads, check_that-Reads}
use uu_remote_ubuntu_bridge.Updater.Ids.{same_id_refl}

-- No log file that can be read was written in the last `seconds`.
pub data Quiet (now seconds : ℕ) : List (Option ℕ) → Type 0 where
  nothing : Quiet now seconds []
  unread : (ms : List (Option ℕ)) → Quiet now seconds ms → Quiet now seconds (none ∷ ms)
  old :
      (m : ℕ) (ms : List (Option ℕ))
      → m + seconds ≤ now
      → Quiet now seconds ms
      → Quiet now seconds (some m ∷ ms)

newest-none : (now seconds : ℕ) (ms : List (Option ℕ)) → newest ms ≡ none → Quiet now seconds ms
unfolding newest
newest-none now seconds [] h = nothing
newest-none now seconds (none ∷ ms) h = unread ms (newest-none now seconds ms h)
newest-none now seconds (some m ∷ ms) h = elim (Option-cases (newest ms)) [
  | inl e ↦ ground arith
  | inr (n, e) ↦ ground arith
]

newest-Quiet :
    (now seconds : ℕ) (ms : List (Option ℕ)) (n : ℕ)
    → newest ms ≡ some n
    → n + seconds ≤ now
    → Quiet now seconds ms
unfolding newest
newest-Quiet now seconds [] n h q = nothing
newest-Quiet now seconds (none ∷ ms) n h q = unread ms (newest-Quiet now seconds ms n h q)
newest-Quiet now seconds (some m ∷ ms) n h q = elim (Option-cases (newest ms)) [
  | inl e ↦ old m ms (ground arith) (newest-none now seconds ms e)
  | inr (k, e) ↦ old m ms (ground arith) (newest-Quiet now seconds ms k e (ground arith))
]

abbrev pub phase_of : Option Task → Option Phase
phase_of none = none
phase_of (some t) = some t.phase

-- Every test of `promotion_paths` holds.
abbrev pub AllValid : TaskFiles → Type 0
AllValid f =
    (f.id_safe ≡ true)
    × (f.dir_inside ≡ true)
    × (f.checkout_inside ≡ true)
    × (f.manifest_inside ≡ true)
    × (f.installer_matches ≡ true)
    × (f.manifest_matches ≡ true)

module _ (o : Scene) (t : Task) (ignore_idle : Bool) (s : Store) where
  transact-AllValid :
      s.applied < (Promotion.transact o t ignore_idle s).1.applied → AllValid o.files
  unfolding Promotion.transact
  transact-AllValid run = elim (Bool-cases ignore_idle) [
    | inl e ↦ ground arith
    | inr e ↦ ground arith
  ]

  when_quiet-runs :
      (quiet : ℕ)
      → s.applied < (Promotion.when_quiet o t ignore_idle quiet s).1.applied
      → (ltb quiet (if ignore_idle then 0 else o.idle_minutes * 60) ≡ false)
        × (s.applied < (Promotion.transact o t ignore_idle s).1.applied)
  unfolding Promotion.when_quiet Tasks.save_task Tasks.write_status
  when_quiet-runs quiet run =
      elim (Bool-cases (ltb quiet (if ignore_idle then 0 else o.idle_minutes * 60))) [
        | inl e ↦ ground arith
        | inr e ↦ (e, ground arith)
      ]

-- Without the operator's override, the helper is run only if automatic promotion is on, the time of some
-- log file of UU is known, no known one lies within the idle time, and the paths and the hashes of the
-- task are the accepted ones. The idle time is taken to be more than zero.
pub run_promotion-Quiet :
    (o : Scene) (t : Task) (s : Store)
    → s.applied < (run_promotion o t false s).1.applied
    → 0 < o.idle_minutes
    → (o.auto_promote ≡ true)
      × (newest o.activity ≢ none)
      × Quiet o.now (o.idle_minutes * 60) o.activity
      × AllValid o.files
unfolding run_promotion Promotion.by_activity Promotion.waiting Tasks.save_task Tasks.write_status
run_promotion-Quiet o t s run positive = elim (Bool-cases o.auto_promote) [
  | inr e ↦ ground arith
  | inl e ↦ elim (Option-cases (newest o.activity)) [
    | inl f ↦ ground arith
    | inr (n, f) ↦
        let (late, runs) = when_quiet-runs o t false s (o.now - n) (ground arith) in
        (
          e,
          λ unknown. ground arith,
          newest-Quiet o.now (o.idle_minutes * 60) o.activity n f (ground arith),
          transact-AllValid o t false s runs,
        )
  ]
]

-- The helper returned 0, and the result record says "promoted".
abbrev pub succeeded : Option (Bool × ResultFile) → Bool
succeeded (some (b, holds status)) = b && says "promoted" status
succeeded _ = false

-- What one run of the helper leaves.
abbrev pub Once : Scene → Task → Store → Store → Type 0
Once o t s s₁ =
    (s₁.applied ≡ suc s.applied)
    × (s₁.pending ≡ none)
    × (s₁.status ≡ (if succeeded o.helper then promoted else promotion_blocked))
    × (phase_of (s₁.tasks t.id) ≡ some s₁.status)

module _ (o : Scene) (t : Task) (s : Store) where
  run_helper-Once :
      (helper : Option (Bool × ResultFile))
      → (Promotion.run_helper helper t s).0 ≡ ok tt
      → ((Promotion.run_helper helper t s).1.applied ≡ suc s.applied)
        × ((Promotion.run_helper helper t s).1.pending ≡ none)
        × ((Promotion.run_helper helper t s).1.status
            ≡ (if succeeded helper then promoted else promotion_blocked))
        × (phase_of ((Promotion.run_helper helper t s).1.tasks t.id)
            ≡ some (Promotion.run_helper helper t s).1.status)
  unfolding Promotion.run_helper Tasks.complete_task Tasks.write_status
  run_helper-Once none h = ground arith
  run_helper-Once (some (b, absent)) h = ground (arith, same_id_refl t.id)
  run_helper-Once (some (b, unreadable)) h = ground arith
  run_helper-Once (some (b, holds status)) h = ground (arith, same_id_refl t.id)

pub promotion_paths-Reads : (f : TaskFiles) → Reads (Promotion.promotion_paths f)
unfolding Promotion.promotion_paths
promotion_paths-Reads f = search (>>-Reads, check_that-Reads) depth 20

launch-Once :
    (o : Scene) (t : Task) (s : Store)
    → (Promotion.launch o t s).0 ≡ ok tt
    → Once o t s (Promotion.launch o t s).1
unfolding Promotion.launch
launch-Once o t s h = run_helper-Once o _ _ o.helper h

-- The paths are checked, which writes nothing, and then the helper is run.
checked_launch-Once :
    (o : Scene) (t : Task) (s : Store)
    → (Tasks.◌>>◌ (Promotion.promotion_paths o.files) (Promotion.launch o t) s).0 ≡ ok tt
    → Once o t s (Tasks.◌>>◌ (Promotion.promotion_paths o.files) (Promotion.launch o t) s).1
checked_launch-Once o t s h =
    let (u, e, f) = after-ok (Promotion.promotion_paths o.files s) (λ _. Promotion.launch o t) h in
    let g = promotion_paths-Reads o.files s in
    let k : Tasks.◌>>◌ (Promotion.promotion_paths o.files) (Promotion.launch o t) s
        ≡ Promotion.launch o t s =
      f ∙ ap (λ (w : Store). Promotion.launch o t w) g in
    subst (λ (r : Result UpdateError (Unit {0}) × Store). Once o t s r.1) (sym k)
      (launch-Once o t s (sym (ap (λ (r : Result UpdateError (Unit {0}) × Store). r.0) k) ∙ h))

transact-Once :
    (o : Scene) (t : Task) (ignore_idle : Bool) (s : Store)
    → (Promotion.transact o t ignore_idle s).0 ≡ ok tt
    → Once o t s (Promotion.transact o t ignore_idle s).1
unfolding Promotion.transact
transact-Once o t true s h = checked_launch-Once o (record t { idle_override = true }) _ h
transact-Once o t false s h = checked_launch-Once o t s h

when_quiet-Once :
    (o : Scene) (t : Task) (ignore_idle : Bool) (quiet : ℕ) (s : Store)
    → (Promotion.when_quiet o t ignore_idle quiet s).0 ≡ ok tt
    → s.applied < (Promotion.when_quiet o t ignore_idle quiet s).1.applied
    → Once o t s (Promotion.when_quiet o t ignore_idle quiet s).1
unfolding Promotion.when_quiet Tasks.save_task Tasks.write_status
when_quiet-Once o t ignore_idle quiet s h run =
    elim (Bool-cases (ltb quiet (if ignore_idle then 0 else o.idle_minutes * 60))) [
      | inl e ↦ ground arith
      | inr e ↦ rw e (transact-Once o t ignore_idle s (rw e at h))
    ]

-- A run of the helper that raises nothing, under the override or not, is one run; afterwards no task is
-- pending, so it is not tried again, and the task and the status are "promoted" exactly when the helper
-- returned 0 and its result record says "promoted", and "promotion-blocked" otherwise.
pub run_promotion-Once :
    (o : Scene) (t : Task) (ignore_idle : Bool) (s : Store)
    → (run_promotion o t ignore_idle s).0 ≡ ok tt
    → s.applied < (run_promotion o t ignore_idle s).1.applied
    → Once o t s (run_promotion o t ignore_idle s).1
unfolding run_promotion Promotion.by_activity Promotion.waiting Tasks.save_task Tasks.write_status
run_promotion-Once o t ignore_idle s h run = elim (Bool-cases o.auto_promote) [
  | inr e ↦ ground arith
  | inl e ↦ elim (Option-cases (newest o.activity)) [
    | inl f ↦ elim (Bool-cases ignore_idle) [
      | inl g ↦ ground (arith, when_quiet-Once o t ignore_idle 0 s)
      | inr g ↦ ground arith
    ]
    | inr (m, f) ↦ ground (arith, when_quiet-Once o t ignore_idle (o.now - m) s)
  ]
]

-- What a run leaves that does not start the helper.
abbrev pub Held : Store → Type 0
Held s₁ =
    (phase_of s₁.pending ≡ some s₁.status)
    × ((s₁.status ≡ promotion_held) ⊎ (s₁.status ≡ promotion_waiting_idle))

when_quiet-Held :
    (o : Scene) (t : Task) (ignore_idle : Bool) (quiet : ℕ) (s : Store)
    → (Promotion.when_quiet o t ignore_idle quiet s).0 ≡ ok tt
    → (Promotion.when_quiet o t ignore_idle quiet s).1.applied ≡ s.applied
    → Held (Promotion.when_quiet o t ignore_idle quiet s).1
unfolding Promotion.when_quiet Tasks.save_task Tasks.write_status
when_quiet-Held o t ignore_idle quiet s h same =
    elim (Bool-cases (ltb quiet (if ignore_idle then 0 else o.idle_minutes * 60))) [
      | inl e ↦ (ground arith, inr (ground arith))
      | inr e ↦
          let once = (transact-Once o t ignore_idle s (rw e at h)).0 in
          let still : (Promotion.transact o t ignore_idle s).1.applied ≡ s.applied = rw e at same in
          absurd (omega (arith, once, still))
    ]

-- Where the manager raises nothing and the helper is not run, the task stays pending, in the phase that
-- the status shows: held, or waiting for UU to be idle.
pub run_promotion-Held :
    (o : Scene) (t : Task) (ignore_idle : Bool) (s : Store)
    → (run_promotion o t ignore_idle s).0 ≡ ok tt
    → (run_promotion o t ignore_idle s).1.applied ≡ s.applied
    → Held (run_promotion o t ignore_idle s).1
unfolding run_promotion Promotion.by_activity Promotion.waiting Tasks.save_task Tasks.write_status
run_promotion-Held o t ignore_idle s h same = elim (Bool-cases o.auto_promote) [
  | inr e ↦ (ground arith, inl (ground arith))
  | inl e ↦ elim (Option-cases (newest o.activity)) [
    | inl f ↦ elim (Bool-cases ignore_idle) [
      | inl g ↦ ground (arith, when_quiet-Held o t ignore_idle 0 s)
      | inr g ↦ (ground arith, inr (ground arith))
    ]
    | inr (m, f) ↦ ground (arith, when_quiet-Held o t ignore_idle (o.now - m) s)
  ]
]
