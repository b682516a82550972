-- ===== src/Updater/Health/Consent.antt =====
-- When `monitor_health` touches the live bridge.
use uu_remote_ubuntu_bridge.Prelude.{
  ℕ, zero, suc, ◌+◌, ◌-◌, ◌≤◌, ◌<◌, ◌≡◌, refl, sym, subst, ◌∙◌, Bool, false, not, ◌||◌, [], ◌∷◌,
  leb, ◌==◌, ◌++◌, ap, if◌then◌else◌, ◌⊎◌, inl, inr, true, false, ◌&&◌, Option, none, List, arith,
  Bool-cases, Option-cases,
}
use uu_remote_ubuntu_bridge.Updater.Tasks
use uu_remote_ubuntu_bridge.Updater.Tasks.{TaskId, Store, says}
use uu_remote_ubuntu_bridge.Updater.Queue.{Checkout, queue_task}
use uu_remote_ubuntu_bridge.Updater.Health
use uu_remote_ubuntu_bridge.Updater.Health.{
  Issue, Probe, any_listed, listed, HealthScene, health, is_healthy, query_failed, settled,
  monitor_health,
}

-- The bridge is well: the service manager answers that it is active, it has not restarted three times
-- within a quarter of an hour, each process is found, a process of the relay owns the port, and the
-- manifest is there.
abbrev pub well : Probe → Bool
well p =
    (p.query_ok && says "active" p.active_state)
    && (not (leb 3 p.restarts && (p.active_since == 0 || leb (p.now - p.active_since) 900000000))
        && (p.server_found
            && (p.relay_found
                && ((p.gnome_found && any_listed p.relay_pids p.listener_pids)
                    && p.manifest_there))))

-- An issue that a test may add to the list, and what it does to the two tests of the list.
module _ (i : Issue) (rest : List Issue) where
  is_healthy-issue_if :
      (b : Bool) → is_healthy (Health.issue_if b i ++ rest) ≡ (not b && is_healthy rest)
  is_healthy-issue_if true = refl
  is_healthy-issue_if false = refl

  is_healthy-unless :
      (b : Bool) → is_healthy (Health.issue_if (not b) i ++ rest) ≡ (b && is_healthy rest)
  is_healthy-unless true = refl
  is_healthy-unless false = refl

  query_failed-issue_if :
      (b : Bool)
      → Health.same_issue i ≡ false
      → query_failed (Health.issue_if b i ++ rest) ≡ query_failed rest
  query_failed-issue_if true h = rw h refl
  query_failed-issue_if false h = refl

module _ (p : Probe) (rest : List Issue) where
  is_healthy-service :
      is_healthy (Health.service_issue p ++ rest)
      ≡ ((p.query_ok && says "active" p.active_state) && is_healthy rest)
  unfolding Health.service_issue
  is_healthy-service = elim (Bool-cases p.query_ok) [
    | inl e ↦
        rw e (is_healthy-unless Health.bridge_service_inactive rest (says "active" p.active_state))
    | inr e ↦ rw e refl
  ]

  query_failed-service :
      query_failed rest ≡ false → query_failed (Health.service_issue p ++ rest) ≡ not p.query_ok
  unfolding Health.service_issue
  query_failed-service h = elim (Bool-cases p.query_ok) [
    | inl e ↦ rw e (
        query_failed-issue_if Health.bridge_service_inactive rest
          (not (says "active" p.active_state)) refl
        ∙ h)
    | inr e ↦ rw e refl
  ]

relay-cases :
    (p : Probe)
    → Health.relay_issue p
      ≡ Health.issue_if (not (p.gnome_found && any_listed p.relay_pids p.listener_pids)) (
          if p.gnome_found && not (Health.no_pids p.relay_pids)
          then Health.rdp_listener_owner_mismatch
          else Health.gnome_rdp_relay_missing)
unfolding Health.relay_issue
relay-cases p = elim (Bool-cases p.gnome_found) [
  | inr e ↦ rw e refl
  | inl e ↦ elim (Bool-cases (Health.no_pids p.relay_pids)) [
    | inl f ↦ rw (e, f, nobody p.relay_pids f) refl
    | inr f ↦ rw (e, f) refl
  ]
]
  where
    nobody : (ps : List ℕ) → Health.no_pids ps ≡ true → any_listed ps p.listener_pids ≡ false
    nobody [] h = refl
    nobody (x ∷ xs) h = cc

is_healthy-health : (p : Probe) → is_healthy (health p) ≡ well p
unfolding health
is_healthy-health p =
    is_healthy-service p _
    ∙ ap (λ (b : Bool). (p.query_ok && says "active" p.active_state) && b)
        (is_healthy-issue_if Health.bridge_restart_storm _ (leb 3 p.restarts && Health.young p)
          ∙ ap (λ (b : Bool). not (leb 3 p.restarts && Health.young p) && b)
              (is_healthy-unless Health.uu_server_missing _ p.server_found
                ∙ ap (λ (b : Bool). p.server_found && b)
                    (is_healthy-unless Health.freerdp_relay_missing _ p.relay_found
                      ∙ ap (λ (b : Bool). p.relay_found && b) (last p))))
  where
    manifest :
        (b : Bool) → is_healthy (Health.issue_if (not b) Health.installed_manifest_missing) ≡ b
    manifest true = refl
    manifest false = refl

    last :
        (p : Probe)
        → is_healthy (
            Health.relay_issue p
            ++ Health.issue_if (not p.manifest_there) Health.installed_manifest_missing)
          ≡ ((p.gnome_found && any_listed p.relay_pids p.listener_pids) && p.manifest_there)
    last p =
        let owned = p.gnome_found && any_listed p.relay_pids p.listener_pids in
        ap
          (λ (is : List Issue).
            is_healthy
              (is ++ Health.issue_if (not p.manifest_there) Health.installed_manifest_missing))
          (relay-cases p)
        ∙ (is_healthy-unless _ _ owned ∙ ap (λ (b : Bool). owned && b) (manifest p.manifest_there))

query_failed-health : (p : Probe) → query_failed (health p) ≡ not p.query_ok
unfolding health
query_failed-health p = query_failed-service p _ (
    query_failed-issue_if Health.bridge_restart_storm _ (leb 3 p.restarts && Health.young p) refl
    ∙ (query_failed-issue_if Health.uu_server_missing _ (not p.server_found) refl
        ∙ (query_failed-issue_if Health.freerdp_relay_missing _ (not p.relay_found) refl ∙ last p)))
  where
    last :
        (p : Probe)
        → query_failed (
            Health.relay_issue p
            ++ Health.issue_if (not p.manifest_there) Health.installed_manifest_missing)
          ≡ false
    last p = rw (relay-cases p) (ground arith)

ℕ-cases : (i j : ℕ) → i ≤ j → (i ≡ j) ⊎ (suc i ≤ j)
ℕ-cases i j h = ground arith

-- None of the answers that `restart_bridge` waited for was healthy.
settled-well :
    (rounds i : ℕ) (probe : ℕ → Probe)
    → is_healthy (settled rounds i probe) ≡ false
    → (j : ℕ) → i ≤ j
    → j ≤ i + rounds
    → well (probe j) ≡ false
unfolding settled
settled-well zero i probe h j a b =
    let same : i ≡ j = omega arith in
    subst (λ (k : ℕ). well (probe k) ≡ false) same (sym (is_healthy-health (probe i)) ∙ h)
settled-well (suc rounds) i probe h j a b = elim (Bool-cases (is_healthy (health (probe i)))) [
  | inl e ↦ absurd (ground (arith, e, h))
  | inr e ↦
      let rest : is_healthy (settled rounds (suc i) probe) ≡ false = ground (arith, e, h) in
      elim (ℕ-cases i j a) [
        | inl same ↦
            subst (λ (k : ℕ). well (probe k) ≡ false) same (sym (is_healthy-health (probe i)) ∙ e)
        | inr later ↦ settled-well rounds (suc i) probe rest j later (omega arith)
      ]
]

-- Queuing a task starts nothing.
queue_task-counts :
    (c : Checkout) (id : TaskId) (s : Store)
    → ((queue_task c id s).1.restarts ≡ s.restarts)
      × ((queue_task c id s).1.reinstalls ≡ s.reinstalls)
unfolding queue_task Tasks.save_task Tasks.write_pending Tasks.write_status
queue_task-counts c id s = elim (Option-cases (s.tasks id)) [
  | inl e ↦ elim (Option-cases c.base) [
    | inl f ↦ (ground arith, ground arith)
    | inr (base, f) ↦ (ground arith, ground arith)
  ]
  | inr (t, e) ↦ (ground arith, ground arith)
]

module _ (o : HealthScene) where
  after_reinstall-counts :
      (result : Option (List Issue)) (s : Store)
      → (Health.after_reinstall o result s).1.reinstalls ≡ s.reinstalls
  unfolding Health.after_reinstall Health.queue_health Tasks.write_phase
  after_reinstall-counts result s = elim (Bool-cases (Health.healed result)) [
    | inl e ↦ simp e refl
    | inr e ↦ simp e ((queue_task-counts o.checkout _ s).1)
  ]

  after_restart-reinstalls :
      (restarted : List Issue) (s : Store)
      → s.reinstalls < (Health.after_restart o restarted s).1.reinstalls
      → (is_healthy restarted ≡ false)
        × (o.reinstall.tests_ok ≡ true)
        × (Health.all_built o.reinstall.builders ≡ true)
        × (o.reinstall.secret_there ≡ true)
  unfolding Health.after_restart Health.reinstall_known_good Tasks.count_reinstall Tasks.write_phase
  after_restart-reinstalls restarted s run = elim (Bool-cases (is_healthy restarted)) [
    | inl e ↦ let same : s.reinstalls < s.reinstalls = simp e at run in absurd (omega arith)
    | inr e ↦
        elim (Bool-cases (
          o.reinstall.tests_ok
          && Health.all_built o.reinstall.builders
          && o.reinstall.secret_there)) [
            | inl f ↦ (e, ground arith, ground arith, ground arith)
            | inr f ↦
                let same : s.reinstalls < (Health.after_reinstall o none s).1.reinstalls =
                  simp (e, f) at run in
                absurd (omega (arith, after_reinstall-counts none s, same))
          ]
  ]

-- Where no count grows, nothing is to be shown.
untouched :
    {P Q : Type 0} (r r₁ i i₁ : ℕ) → r₁ ≡ r → i₁ ≡ i → ((r < r₁) ⊎ (i < i₁) → P) × (i < i₁ → Q)
untouched r r₁ i i₁ e f = (
  λ h. elim h [ inl a ↦ absurd (omega (arith, e, a)) | inr a ↦ absurd (omega (arith, f, a)) ],
  λ a. absurd (omega (arith, f, a)),
)

monitor_health-branches :
    (o : HealthScene) (s : Store)
    → let s₁ = (monitor_health o s).1 in
      ((s.restarts < s₁.restarts) ⊎ (s.reinstalls < s₁.reinstalls)
        → (o.auto_reinstall ≡ true)
          × (is_healthy (health o.first) ≡ false)
          × (is_healthy (health o.confirmed) ≡ false)
          × (query_failed (health o.confirmed) ≡ false))
      × (s.reinstalls < s₁.reinstalls
          → (is_healthy (settled 24 0 o.restart_probe) ≡ false)
            × (o.reinstall.tests_ok ≡ true)
            × (Health.all_built o.reinstall.builders ≡ true)
            × (o.reinstall.secret_there ≡ true))
unfolding monitor_health Health.recover_live Health.after_restart Health.after_reinstall
    Health.queue_health Health.restart_bridge Health.reinstall_known_good Tasks.count_restart
    Tasks.count_reinstall Tasks.write_phase
monitor_health-branches o s =
    let (same_restarts, same_reinstalls) =
      queue_task-counts o.checkout (record { kind = Tasks.runtime_health; identity = o.identity })
        s in
    elim (Bool-cases (is_healthy (health o.first))) [
      | inl a ↦ simp a (untouched s.restarts _ s.reinstalls _ refl refl)
      | inr a ↦ elim (Bool-cases (is_healthy (health o.confirmed))) [
        | inl b ↦ simp (a, b) (untouched s.restarts _ s.reinstalls _ refl refl)
        | inr b ↦ elim (Bool-cases (query_failed (health o.confirmed))) [
          | inl c ↦
              simp (a, b, c) (untouched s.restarts _ s.reinstalls _ same_restarts same_reinstalls)
          | inr c ↦ elim (Bool-cases o.auto_reinstall) [
            | inr d ↦
                simp (a, b, c, d)
                  (untouched s.restarts _ s.reinstalls _ same_restarts same_reinstalls)
            | inl d ↦
                simp (a, b, c, d)
                  (
                    λ h. (refl, refl, refl, refl),
                    λ run.
                        after_restart-reinstalls o (settled 24 0 o.restart_probe)
                          (record s { restarts = suc s.restarts }) run,
                  )
          ]
        ]
      ]
    ]

-- The bridge is restarted, and the known-good release is reinstalled, only if automatic recovery is on,
-- two probes found the bridge not well, and in the second one the service manager answered. It is
-- reinstalled only if besides none of the 25 probes after the restart found the bridge well, the tests
-- and the builders of the known-good checkout succeeded, and the credential was there.
pub monitor_health-Consent :
    (o : HealthScene) (s : Store)
    → let s₁ = (monitor_health o s).1 in
      ((s.restarts < s₁.restarts) ⊎ (s.reinstalls < s₁.reinstalls)
        → (o.auto_reinstall ≡ true)
          × (well o.first ≡ false)
          × (well o.confirmed ≡ false)
          × (o.confirmed.query_ok ≡ true))
      × (s.reinstalls < s₁.reinstalls
          → ((j : ℕ) → j ≤ 24 → well (o.restart_probe j) ≡ false)
            × (o.reinstall.tests_ok ≡ true)
            × (Health.all_built o.reinstall.builders ≡ true)
            × (o.reinstall.secret_there ≡ true))
monitor_health-Consent o s =
    let (first, second) = monitor_health-branches o s in
    (
      (λ touched.
          let (a, b, d, q) = first touched in
          (
            a,
            sym (is_healthy-health o.first) ∙ b,
            sym (is_healthy-health o.confirmed) ∙ d,
            answered o.confirmed.query_ok (sym (query_failed-health o.confirmed) ∙ q),
          )),
      λ again.
          let (w, t, l, k) = second again in
          (
            (λ j h. settled-well 24 0 o.restart_probe w j (omega arith) (omega (arith, h))),
            t,
            l,
            k,
          ),
    )
  where
    answered : (b : Bool) → not b ≡ false → b ≡ true
    answered true h = refl
    answered false h = cc
