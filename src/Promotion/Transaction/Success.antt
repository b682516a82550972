-- ===== src/Promotion/Transaction/Success.antt =====
-- `apply` when it returns: what has been checked on the way, and what is left on disk.
use uu_remote_ubuntu_bridge.Prelude.{
  ◌≡◌, refl, sym, subst, ◌∙◌, Bool-cases, Option-cases, false, str_eq, ◌⊎◌, inl, inr, String, true,
  Option, none, some, Result, ok, err, arith, eq_iff, ap,
}
use uu_remote_ubuntu_bridge.Promotion.Login.{login_state_is_preserved}
use uu_remote_ubuntu_bridge.Promotion.Transaction.{
  Phase, preparing, snapshot_ready, verifying, Run, ◌then_do◌, installed, verified, finish,
  conclude, begin, Marker, Paths, Preflight, Failure, Commands, World, start_live_uu, stop_live_uu,
  write_marker, marked_as, snapshot, same_state, attempted, apply,
}
use uu_remote_ubuntu_bridge.Promotion.Transaction.Rollback.{Faithful, begun, apply-finish}

module _ {Tree : Type 0} (c : Commands Tree) (paths : Paths) where
  -- The world that a promotion of the tree `t` leaves; `s` is the stopped prefix, and `new` what the
  -- installer made of it.
  pub record IsPromoted (pre : Preflight) (t : Tree) (w : World Tree) : Type 0 where
    pub result : w.result ≡ some true
    pub unmarked : w.marker ≡ none
    pub running : w.bridge ≡ true
    pub rollback_copy : w.snapshot ≡ some (c.stopped 0 t)
    pub login_kept :
        login_state_is_preserved (c.login (c.stopped 0 t)) (c.login (c.install (c.stopped 0 t)).1)
        ≡ true
    pub right_manifest : c.manifest_sha256 (c.install (c.stopped 0 t)).1 ≡ pre.manifest_sha256
    pub prefix : w.prefix ≡ some (c.lived 1 (c.lived 0 (c.install (c.stopped 0 t)).1))
    pub verified_twice :
        (c.verify 0 (c.lived 0 (c.install (c.stopped 0 t)).1) ≡ true)
        × (c.verify 1 (c.lived 1 (c.lived 0 (c.install (c.stopped 0 t)).1)) ≡ true)
    pub xrdp_unchanged : c.xrdp_active_state ≡ some pre.xrdp_active_state

  same_state-eq :
      (after : Option String) (before : String)
      → same_state c paths after before ≡ true
      → after ≡ some before
  unfolding same_state
  same_state-eq none before h = cc
  same_state-eq (some after) before h = ap some ((eq_iff after before).0 h)

  -- What holds after a run, if it returns.
  abbrev Returns : (World Tree → Type 0) → Run Tree → Type 0
  Returns P r = r.0 ≡ ok tt → P r.1

  then_do-Returns :
      (P Q : World Tree → Type 0) (r : Run Tree) (next : World Tree → Run Tree)
      → Returns P r
      → ((w : World Tree) → P w → Returns Q (next w))
      → Returns Q (r then_do next)
  then_do-Returns P Q (ok u, w) next p q h = q w (p refl) h
  then_do-Returns P Q (err e, w) next p q h = cc

  stop_ok :
      (t : Tree) (w : World Tree)
      → w.prefix ≡ some t
      → (stop_live_uu c paths 0 w).0 ≡ ok tt
      → (stop_live_uu c paths 0 w).1.prefix ≡ some (c.stopped 0 t)
  unfolding stop_live_uu
  stop_ok t w p h = ground arith

  -- The tree `s` has been copied.
  record Copied (s : Tree) (w : World Tree) : Type 0 where
    prefix : w.prefix ≡ some s
    copy : w.snapshot ≡ some s

  module _ (pre : Preflight) (s : Tree) where
    snapshot_ok :
        (w : World Tree)
        → Faithful c paths pre
        → w.prefix ≡ some s
        → (snapshot c paths w).0 ≡ ok tt
        → Copied s (snapshot c paths w).1
    unfolding snapshot
    snapshot_ok w f p h = record { prefix = ground (arith, f s); copy = ground (arith, f s) }

    mark-prefix :
        (phase : Phase) (w : World Tree) → (write_marker c paths phase pre w).1.prefix ≡ w.prefix
    unfolding write_marker marked_as
    mark-prefix phase w = elim (Bool-cases (c.marks phase)) [
      | inl e ↦ rw e refl
      | inr e ↦ rw e refl
    ]

    mark-snapshot :
        (phase : Phase) (w : World Tree)
        → (write_marker c paths phase pre w).1.snapshot ≡ w.snapshot
    unfolding write_marker marked_as
    mark-snapshot phase w = elim (Bool-cases (c.marks phase)) [
      | inl e ↦ rw e refl
      | inr e ↦ rw e refl
    ]

    record Installed (w : World Tree) : Type 0 where
      prefix : w.prefix ≡ some (c.install s).1
      copy : w.snapshot ≡ some s
      login : login_state_is_preserved (c.login s) (c.login (c.install s).1) ≡ true
      manifest : str_eq (c.manifest_sha256 (c.install s).1) pre.manifest_sha256 ≡ true

    installed_some :
        (w : World Tree)
        → w.snapshot ≡ some s
        → Returns Installed (installed c paths pre w (some s))
    unfolding installed
    installed_some w n h = record {
      prefix = ground arith;
      copy = ground arith;
      login = ground arith;
      manifest = ground arith;
    }

    mark-Installed :
        (phase : Phase) (w : World Tree)
        → Installed w
        → Returns Installed (write_marker c paths phase pre w)
    mark-Installed phase w i h = record {
      prefix = mark-prefix phase w ∙ i.prefix;
      copy = mark-snapshot phase w ∙ i.copy;
      login = i.login;
      manifest = i.manifest;
    }

    mark-Copied :
        (phase : Phase) (w : World Tree)
        → Copied s w
        → Returns (Copied s) (write_marker c paths phase pre w)
    mark-Copied phase w k h = record {
      prefix = mark-prefix phase w ∙ k.prefix;
      copy = mark-snapshot phase w ∙ k.copy;
    }

    installed_ok :
        (w : World Tree)
        → w.snapshot ≡ some s
        → (o : Option Tree) → o ≡ some s
        → Returns Installed (installed c paths pre w o)
    unfolding installed
    installed_ok w n none q h = cc
    installed_ok w n (some x) q h =
        let same : x ≡ s = cc in
        subst (λ (y : Tree). Installed (installed c paths pre w (some y)).1) (sym same)
          (installed_some w n (rw (sym same) h))

    record Running (w : World Tree) : Type 0 where
      installed : Installed w
      bridge : w.bridge ≡ true

    start_ok : (w : World Tree) → Installed w → Returns Running (start_live_uu c paths 0 w)
    unfolding start_live_uu
    start_ok w i h = elim (Bool-cases (c.start_bridge 0)) [
      | inl e ↦ simp e (record {
        installed = record {
          prefix = i.prefix;
          copy = i.copy;
          login = i.login;
          manifest = i.manifest;
        };
        bridge = refl;
      })
      | inr e ↦ absurd (ground (arith, e, h))
    ]

    record Verified (w : World Tree) : Type 0 where
      prefix : w.prefix ≡ some (c.lived 1 (c.lived 0 (c.install s).1))
      copy : w.snapshot ≡ some s
      bridge : w.bridge ≡ true
      first : c.verify 0 (c.lived 0 (c.install s).1) ≡ true
      second : c.verify 1 (c.lived 1 (c.lived 0 (c.install s).1)) ≡ true
      xrdp : same_state c paths c.xrdp_active_state pre.xrdp_active_state ≡ true
      login : login_state_is_preserved (c.login s) (c.login (c.install s).1) ≡ true
      manifest : str_eq (c.manifest_sha256 (c.install s).1) pre.manifest_sha256 ≡ true

    verified_some :
        (w : World Tree)
        → Running w
        → Returns Verified (verified c paths pre w (some (c.install s).1))
    unfolding verified
    verified_some w r h =
        let copy = r.installed.copy in
        let bridge = r.bridge in
        record {
          prefix = ground arith;
          copy = ground arith;
          bridge = ground arith;
          first = ground arith;
          second = ground arith;
          xrdp = ground arith;
          login = r.installed.login;
          manifest = r.installed.manifest;
        }

    verified_ok : (w : World Tree) → Running w → Returns Verified (verified c paths pre w w.prefix)
    verified_ok w r =
        subst (λ (o : Option Tree). Returns Verified (verified c paths pre w o))
          (sym r.installed.prefix) (verified_some w r)

  attempted_ok :
      (pre : Preflight) (t : Tree) (w : World Tree)
      → Faithful c paths pre
      → w.prefix ≡ some t
      → Returns (Verified pre (c.stopped 0 t)) (attempted c paths pre w)
  unfolding attempted
  attempted_ok pre t w f p =
      let s = c.stopped 0 t in
      let is_stopped : World Tree → Type 0 = λ x. x.prefix ≡ some s in
      let copied = Copied s in
      let new = Installed pre s in
      let running = Running pre s in
      let step_2 =
        then_do-Returns is_stopped copied _ _ (stop_ok t w p) (λ x q. snapshot_ok pre s x f q) in
      let step_3 = then_do-Returns copied copied _ _ step_2 (mark-Copied pre s snapshot_ready) in
      let step_4 =
        then_do-Returns copied new _ _ step_3
          (λ x q. installed_ok pre s x q.copy x.prefix q.prefix) in
      let step_5 = then_do-Returns new new _ _ step_4 (mark-Installed pre s verifying) in
      let step_6 = then_do-Returns new running _ _ step_5 (start_ok pre s) in
      then_do-Returns running (Verified pre s) _ _ step_6 (verified_ok pre s)

  concluded-IsPromoted :
      (pre : Preflight) (t : Tree) (r : Run Tree)
      → Returns (Verified pre (c.stopped 0 t)) r
      → (finish c paths (r then_do conclude c paths)).0 ≡ ok tt
      → IsPromoted pre t (finish c paths (r then_do conclude c paths)).1
  unfolding finish conclude
  concluded-IsPromoted pre t (ok u, w) q h =
      let v = q refl in
      elim (Bool-cases c.records_result) [
        | inl e ↦ simp e (record {
          result = refl;
          unmarked = refl;
          running = v.bridge;
          rollback_copy = v.copy;
          login_kept = v.login;
          right_manifest =
              (eq_iff (c.manifest_sha256 (c.install (c.stopped 0 t)).1) pre.manifest_sha256).0
                v.manifest;
          prefix = v.prefix;
          verified_twice = (v.first, v.second);
          xrdp_unchanged = same_state-eq c.xrdp_active_state pre.xrdp_active_state v.xrdp;
        })
        | inr e ↦ absurd (ground (arith, e, h))
      ]
  concluded-IsPromoted pre t (err e, w) q h = absurd (ground (arith, h))

  apply-began :
      (pre : Preflight) (w : World Tree)
      → (apply c paths (ok pre) w).0 ≡ ok tt
      → (w.marker ≡ none) × (w.work_dir ≡ false) × (c.marks preparing ≡ true)
  unfolding apply begin write_marker
  apply-began pre w h = elim (Option-cases w.marker) [
    | inr (m, e) ↦ absurd (ground (arith, e, h))
    | inl e ↦ elim (Bool-cases w.work_dir) [
      | inl f ↦ absurd (ground (arith, e, f, h))
      | inr f ↦ elim (Bool-cases (c.marks preparing)) [
        | inl g ↦ (e, f, g)
        | inr g ↦ absurd (ground (arith, e, f, g, h))
      ]
    ]
  ]

  -- When `apply` returns, the login state was preserved, the installed manifest is the accepted one,
  -- the runtime was verified before and after the wait, XRDP is in the state it was in, and the snapshot
  -- of the stopped prefix is still there.
  pub apply-IsPromoted :
      (pre : Preflight) (t : Tree) (w : World Tree)
      → Faithful c paths pre
      → w.prefix ≡ some t
      → (apply c paths (ok pre) w).0 ≡ ok tt
      → IsPromoted pre t (apply c paths (ok pre) w).1
  apply-IsPromoted pre t w f p h =
      let (m, d, k) = apply-began pre w h in
      let same = apply-finish c paths pre w m d k in
      let inside = begun c paths pre w in
      let kept : inside.prefix ≡ some t = unfold begun marked_as in p in
      subst (λ (r : Run Tree). IsPromoted pre t r.1) (sym same)
        (concluded-IsPromoted pre t (attempted c paths pre inside)
          (attempted_ok pre t inside f kept) (ap (λ (r : Run Tree). r.0) (sym same) ∙ h))

  -- A run that finds a marker, or whose preflight refuses, changes nothing.
  pub apply-unchanged :
      (pre : Result Failure Preflight) (w : World Tree)
      → ((m : Marker) × (w.marker ≡ some m)) ⊎ ((e : Failure) × (pre ≡ err e))
      → (apply c paths pre w).1 ≡ w
  unfolding apply
  apply-unchanged pre w (inl (m, e)) = ground arith
  apply-unchanged pre w (inr (e, q)) = ground arith
