-- ===== src/Promotion/Transaction/Rollback.antt =====
-- `apply` when it fails: the prefix goes back to what it was when UU had been stopped.
use uu_remote_ubuntu_bridge.Prelude.{
  ◌≡◌, refl, ◌⊎◌, inl, inr, Bool, true, false, ◌&&◌, not, Option, none, some, ok, err, arith,
  eq_refl, Option-cases, Bool-cases, ◌∙◌, ap, sym, subst,
}
use uu_remote_ubuntu_bridge.Promotion.Transaction.{
  Phase, preparing, snapshot_ready, verifying, Marker, Paths, Preflight, Failure, Commands, World,
  Run, recover, roll_back, marker_is_ours, start_live_uu, stop_live_uu, ◌then_do◌, finish, begin,
  marked_as, write_marker, snapshot, installed, verified, attempted, conclude, attempt, apply,
}
use uu_remote_ubuntu_bridge.Promotion.Transaction.Recovery.{
  Recoverable, Recovered, RecoveryWorks, recover-Recovered, recover-ok,
}

abbrev same_bool : Bool → Bool → Bool
same_bool true b = b
same_bool false b = not b

same_bool-eq : (a b : Bool) → same_bool a b ≡ true → a ≡ b
same_bool-eq a b h = ground arith

same_bool_refl : (b : Bool) → same_bool b b ≡ true
same_bool_refl b = ground arith

module _ {Tree : Type 0} (c : Commands Tree) (paths : Paths) (pre : Preflight) where
  -- A marker that this transaction has written.
  abbrev marker_ok : Option Marker → Bool
  marker_ok none = false
  marker_ok (some m) =
      m.known_schema
      && marker_is_ours c paths m
      && same_bool m.bridge_was_active pre.bridge_was_active

  -- The marker is there, and the tree `s` can be put back.
  record IsSafe (s : Tree) (w : World Tree) : Type 0 where
    marked : marker_ok w.marker ≡ true
    kept : (w.snapshot ≡ some s) ⊎ ((w.snapshot ≡ none) × (w.prefix ≡ some s))

  -- `cp -a` copies what it is given, if it succeeds.
  abbrev pub Faithful : Type 0
  Faithful = (t : Tree) → (c.copy t).0 ≡ true → ((c.copy t).1 ≡ none) ⊎ ((c.copy t).1 ≡ some t)

  marked_as-ok :
      (phase : Phase) (w : World Tree) → marker_ok (marked_as c paths phase pre w).marker ≡ true
  unfolding marked_as marker_is_ours
  marked_as-ok phase w = ground (
    arith,
    eq_refl paths.work_dir,
    eq_refl paths.prefix,
    eq_refl paths.snapshot_prefix,
    same_bool_refl pre.bridge_was_active,
  )

  module _ (faithful : Faithful) (s : Tree) where
    snapshot-IsSafe :
        (w : World Tree)
        → marker_ok w.marker ≡ true
        → w.snapshot ≡ none
        → w.prefix ≡ some s
        → IsSafe s (snapshot c paths w).1
          × ((snapshot c paths w).0 ≡ ok tt → (snapshot c paths w).1.snapshot ≡ some s)
    unfolding snapshot
    snapshot-IsSafe w m n p = ground (arith, faithful s)

    installed-IsSafe :
        (w : World Tree)
        → marker_ok w.marker ≡ true
        → w.snapshot ≡ some s
        → (o : Option Tree)
        → IsSafe s (installed c paths pre w o).1 × ((installed c paths pre w o).1.snapshot ≡ some s)
    unfolding installed
    installed-IsSafe w m n o = ground arith

    start-IsSafe :
        (w : World Tree)
        → marker_ok w.marker ≡ true
        → w.snapshot ≡ some s
        → IsSafe s (start_live_uu c paths 0 w).1 × ((start_live_uu c paths 0 w).1.snapshot ≡ some s)
    unfolding start_live_uu
    start-IsSafe w m n = ground arith

    verified-IsSafe :
        (w : World Tree)
        → marker_ok w.marker ≡ true
        → w.snapshot ≡ some s
        → (o : Option Tree) → IsSafe s (verified c paths pre w o).1
    unfolding verified
    verified-IsSafe w m n o = ground arith

    -- A step that goes on with `Q`, or fails and is safe.
    Stage : (World Tree → Type 0) → Run Tree → Type 0
    Stage Q (ok u, w) = Q w
    Stage Q (err e, w) = IsSafe s w

    to_Stage :
        (Q : World Tree → Type 0) (r : Run Tree) → IsSafe s r.1 → (r.0 ≡ ok tt → Q r.1) → Stage Q r
    unfolding Stage
    to_Stage Q (ok u, w) safe q = q refl
    to_Stage Q (err e, w) safe q = safe

    then_do-Stage :
        (P Q : World Tree → Type 0) (r : Run Tree) (next : World Tree → Run Tree)
        → Stage P r
        → ((w : World Tree) → P w → Stage Q (next w))
        → Stage Q (r then_do next)
    unfolding Stage
    then_do-Stage P Q (ok u, w) next p q = q w p
    then_do-Stage P Q (err e, w) next safe q = safe

    Stopped : World Tree → Type 0
    Stopped w = (marker_ok w.marker ≡ true) × (w.snapshot ≡ none) × (w.prefix ≡ some s)

    Held : World Tree → Type 0
    Held w = (marker_ok w.marker ≡ true) × (w.snapshot ≡ some s)

    Promoted : World Tree → Type 0
    Promoted w = Unit

    after_snapshot : (w : World Tree) → Stopped w → Stage Held (snapshot c paths w)
    unfolding Stopped Held
    after_snapshot w (m, n, p) =
        let (safe, held) = snapshot-IsSafe w m n p in
        to_Stage Held _ safe (λ e. (safe.marked, held e))

    after_mark :
        (phase : Phase) (w : World Tree) → Held w → Stage Held (write_marker c paths phase pre w)
    unfolding Held Stage write_marker
    after_mark phase w (m, n) =
        let good = marked_as-ok phase w in
        let kept : (marked_as c paths phase pre w).snapshot ≡ some s = unfold marked_as in n in
        elim (Bool-cases (c.marks phase)) [
          | inl e ↦ simp e (good, kept)
          | inr e ↦ simp e (record { marked = m; kept = inl n })
        ]

    after_install : (w : World Tree) → Held w → Stage Held (installed c paths pre w w.prefix)
    unfolding Held
    after_install w (m, n) =
        let (safe, held) = installed-IsSafe w m n w.prefix in
        to_Stage Held _ safe (λ e. (safe.marked, held))

    after_start : (w : World Tree) → Held w → Stage Held (start_live_uu c paths 0 w)
    unfolding Held
    after_start w (m, n) =
        let (safe, held) = start-IsSafe w m n in to_Stage Held _ safe (λ e. (safe.marked, held))

    after_verify : (w : World Tree) → Held w → Stage Promoted (verified c paths pre w w.prefix)
    unfolding Held Promoted
    after_verify w (m, n) = to_Stage Promoted _ (verified-IsSafe w m n w.prefix) (λ e. tt)

  stop-IsSafe :
      (t : Tree) (w : World Tree)
      → marker_ok w.marker ≡ true
      → w.snapshot ≡ none
      → w.prefix ≡ some t
      → (IsSafe (c.stopped 0 t) (stop_live_uu c paths 0 w).1)
        × ((stop_live_uu c paths 0 w).1.snapshot ≡ none)
        × ((stop_live_uu c paths 0 w).1.prefix ≡ some (c.stopped 0 t))
  unfolding stop_live_uu
  stop-IsSafe t w m n p = ground arith

  module _ (faithful : Faithful) (t : Tree) where
    s : Tree
    s = c.stopped 0 t

    after_stop :
        (w : World Tree)
        → marker_ok w.marker ≡ true
        → w.snapshot ≡ none
        → w.prefix ≡ some t
        → Stage faithful s (Stopped faithful s) (stop_live_uu c paths 0 w)
    unfolding Stopped s
    after_stop w m n p =
        let (safe, no_snapshot, prefix) = stop-IsSafe t w m n p in
        to_Stage faithful s (Stopped faithful s) _ safe (λ e. (safe.marked, no_snapshot, prefix))

    attempted-Stage :
        (w : World Tree)
        → marker_ok w.marker ≡ true
        → w.snapshot ≡ none
        → w.prefix ≡ some t
        → Stage faithful s (Promoted faithful s) (attempted c paths pre w)
    unfolding attempted
    attempted-Stage w m n p =
        let held = Held faithful s in
        let promoted = Promoted faithful s in
        let stage_1 =
          then_do-Stage faithful s (Stopped faithful s) held _ _ (after_stop w m n p)
            (after_snapshot faithful s) in
        let stage_2 =
          then_do-Stage faithful s held held _ _ stage_1 (after_mark faithful s snapshot_ready) in
        let stage_3 = then_do-Stage faithful s held held _ _ stage_2 (after_install faithful s) in
        let stage_4 =
          then_do-Stage faithful s held held _ _ stage_3 (after_mark faithful s verifying) in
        let stage_5 = then_do-Stage faithful s held held _ _ stage_4 (after_start faithful s) in
        then_do-Stage faithful s held promoted _ _ stage_5 (after_verify faithful s)

    IsSafe-Recoverable :
        (w : World Tree)
        → IsSafe s w
        → (m : Marker) × Recoverable c paths s m w × (m.bridge_was_active ≡ pre.bridge_was_active)
    IsSafe-Recoverable w safe = elim (Option-cases w.marker) [
      | inl e ↦ absurd (ground (arith, safe.marked))
      | inr (m, e) ↦ (
        m,
        record {
          marked = e;
          schema = ground (arith, safe.marked);
          ours = ground (arith, safe.marked);
          kept = safe.kept;
        },
        same_bool-eq m.bridge_was_active pre.bridge_was_active (ground (arith, safe.marked)),
      )
    ]

    -- The world that a failed transaction leaves.
    pub record RolledBack (w : World Tree) : Type 0 where
      pub prefix : w.prefix ≡ some (c.stopped 0 t)
      pub unmarked : w.marker ≡ none
      pub running : pre.bridge_was_active ≡ true → w.bridge ≡ true
      pub failed : c.records_failure ≡ true → w.result ≡ some false

    -- Every step of the `try` had passed, and result.json could not be written.
    pub record Unrecorded (before w : World Tree) : Type 0 where
      pub unwritten : c.records_result ≡ false
      pub passed : (attempted c paths pre before).0 ≡ ok tt
      pub unmarked : w.marker ≡ none
      pub left : w.prefix ≡ (attempted c paths pre before).1.prefix
      pub copy : w.snapshot ≡ (attempted c paths pre before).1.snapshot

    roll_back-some :
        (w : World Tree) (m : Marker) (o : Option Marker)
        → o ≡ some m
        → roll_back c paths w o ≡ (recover c paths w).1
    unfolding roll_back
    roll_back-some w m none e = cc
    roll_back-some w m (some m') e = refl

    rolled_back :
        RecoveryWorks c paths
        → (e : Failure) (w : World Tree) → IsSafe s w
        → RolledBack (finish c paths (err e, w)).1
    unfolding s finish
    rolled_back works e w safe =
        let (m, r, bridge) = IsSafe-Recoverable w safe in
        let done : Recovered c paths s m (recover c paths w).1 =
          recover-Recovered c paths s m w r (recover-ok c paths works s m w r) in
        let back : roll_back c paths w w.marker ≡ (recover c paths w).1 =
          roll_back-some w m w.marker (r.marked) in
        let prefix = ap (λ (v : World Tree). v.prefix) back ∙ done.prefix in
        let unmarked = ap (λ (v : World Tree). v.marker) back ∙ done.unmarked in
        let running : pre.bridge_was_active ≡ true → (roll_back c paths w w.marker).bridge ≡ true =
          λ active. ap (λ (v : World Tree). v.bridge) back ∙ done.running (bridge ∙ active) in
        elim (Bool-cases c.records_failure) [
          | inl f ↦ simp f (record {
            prefix = prefix;
            unmarked = unmarked;
            running = running;
            failed = λ yes. refl;
          })
          | inr f ↦ simp f (record {
            prefix = prefix;
            unmarked = unmarked;
            running = running;
            failed = λ yes. cc;
          })
        ]

    finish-RolledBack :
        RecoveryWorks c paths
        → (before : World Tree) (r : Run Tree) → attempted c paths pre before ≡ r
        → Stage faithful s (Promoted faithful s) r
        → (e : Failure) → (finish c paths (r then_do conclude c paths)).0 ≡ err e
        → RolledBack (finish c paths (r then_do conclude c paths)).1
          ⊎ Unrecorded before (finish c paths (r then_do conclude c paths)).1
    unfolding finish Stage conclude roll_back
    finish-RolledBack works before (ok u, w) same stage e h = elim (Bool-cases c.records_result) [
      | inl f ↦ absurd (ground (arith, f, h))
      | inr f ↦ elim (Bool-cases c.records_failure) [
        | inl g ↦
            simp (f, g)
              (inr (record {
                unwritten = f;
                passed = ap (λ (r : Run Tree). r.0) same;
                unmarked = refl;
                left = ap (λ (r : Run Tree). r.1.prefix) (sym same);
                copy = ap (λ (r : Run Tree). r.1.snapshot) (sym same);
              }))
        | inr g ↦
            simp (f, g)
              (inr (record {
                unwritten = f;
                passed = ap (λ (r : Run Tree). r.0) same;
                unmarked = refl;
                left = ap (λ (r : Run Tree). r.1.prefix) (sym same);
                copy = ap (λ (r : Run Tree). r.1.snapshot) (sym same);
              }))
      ]
    ]
    finish-RolledBack works before (err e', w) same stage e h = inl (rolled_back works e' w stage)

  -- The world in which the `try` begins.
  unfoldable pub begun : World Tree → World Tree
  begun w = marked_as c paths preparing pre (record w { work_dir = true })

  pub apply-finish :
      (w : World Tree)
      → w.marker ≡ none
      → w.work_dir ≡ false
      → c.marks preparing ≡ true
      → apply c paths (ok pre) w
        ≡ finish c paths (attempted c paths pre (begun w) then_do conclude c paths)
  unfolding apply begin begun write_marker attempt
  apply-finish w m d k = rw (m, d, k) refl

  -- When `apply` fails after its first marker was written, and the commands of its recovery succeed, the
  -- prefix is what it was when UU had been stopped, the marker is gone, the bridge runs if it ran before,
  -- and the failure is on record if it can be written; or every step up to the last had passed, and only
  -- result.json could not be written: then the marker is gone too, nothing is rolled back, the prefix is
  -- what the verification left and the snapshot stands beside it.
  pub apply-RolledBack :
      (faithful : Faithful) (t : Tree) (w : World Tree)
      → RecoveryWorks c paths
      → w.marker ≡ none
      → w.work_dir ≡ false
      → w.snapshot ≡ none
      → w.prefix ≡ some t
      → c.marks preparing ≡ true
      → (e : Failure) → (apply c paths (ok pre) w).0 ≡ err e
      → RolledBack faithful t (apply c paths (ok pre) w).1
        ⊎ Unrecorded faithful t (begun w) (apply c paths (ok pre) w).1
  apply-RolledBack faithful t w works m d n p k e h =
      let same = apply-finish w m d k in
      let stage =
        attempted-Stage faithful t (begun w)
          (unfold begun in marked_as-ok preparing (record w { work_dir = true }))
          (unfold begun marked_as in n) (unfold begun marked_as in p) in
      subst (λ (r : Run Tree). RolledBack faithful t r.1 ⊎ Unrecorded faithful t (begun w) r.1)
        (sym same)
        (finish-RolledBack faithful t works (begun w) (attempted c paths pre (begun w)) refl stage e
          (ap (λ (r : Run Tree). r.0) (sym same) ∙ h))
