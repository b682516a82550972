-- ===== src/Promotion/Transaction.antt =====
-- scripts/promote-approved-release.py: `Promotion.recover` and `Promotion.apply` after the preflight.
-- A tree is the content of a Wine prefix. What the commands do is a parameter, `Commands`: systemctl,
-- cp, install.sh and verify.sh are no code of this file. A write of the marker, of snapshot.json or of
-- result.json and a move of a directory may fail; the marker can be unlinked, and the handler finds or
-- makes the work directory. The numbers are the two times that `apply` and then `recover` give a
-- command.
pub mod Recovery
pub mod Rollback
pub mod Success
use uu_remote_ubuntu_bridge.Prelude.{
  ℕ, String, Bool, true, false, ◌&&◌, not, Option, none, some, Result, ok, err, str_eq,
  if◌then◌else◌,
}
use uu_remote_ubuntu_bridge.Promotion.Login.{
  LoginState, login_state_is_usable, login_state_is_preserved,
}

pub data Phase : Type 0 where
  preparing snapshot_ready verifying : Phase

-- What `write_marker` writes, as far as it is read again. `known_schema` is its `schema_version == 1`.
pub record Marker : Type 0 where
  pub phase : Phase
  pub known_schema : Bool
  pub work_dir : String
  pub prefix : String
  pub snapshot_prefix : String
  pub bridge_was_active : Bool

-- The paths of a `Promotion` object.
pub record Paths : Type 0 where
  pub work_dir : String
  pub prefix : String
  pub snapshot_prefix : String

-- The part of the preflight's result that the transaction uses.
pub record Preflight : Type 0 where
  pub manifest_sha256 : String
  pub bridge_was_active : Bool
  pub xrdp_active_state : String

pub data Failure : Type 0 where
  marker_exists preflight_failed work_dir_exists : Failure
  bridge_not_stopped prefix_not_stopped snapshot_exists login_unverifiable : Failure
  snapshot_failed install_failed login_not_preserved wrong_manifest : Failure
  bridge_not_started verification_failed xrdp_changed : Failure
  no_marker unknown_schema unsafe_marker move_failed : Failure
  marker_unwritten snapshot_unrecorded result_unwritten failure_unwritten : Failure

-- What a command does to the prefix that it is given, and whether it succeeds. `none` for the content
-- of a directory that is not there.
pub record Commands (Tree : Type 0) : Type 0 where
  pub stop_bridge : ℕ → Bool
  pub stop_prefix : ℕ → Bool
  pub stopped : ℕ → Tree → Tree
  pub start_bridge : ℕ → Bool
  pub copy : Tree → Bool × Option Tree
  pub install : Tree → Bool × Tree
  pub move : ℕ → Bool
  -- whether `atomic_json` can write the marker of a phase, snapshot.json, the result of a promotion, and
  -- that of a failed one
  pub marks : Phase → Bool
  pub records_snapshot : Bool
  pub records_result : Bool
  pub records_failure : Bool
  pub verify : ℕ → Tree → Bool
  pub lived : ℕ → Tree → Tree
  pub login : Tree → LoginState
  pub manifest_sha256 : Tree → String
  pub xrdp_active_state : Option String

pub record World (Tree : Type 0) : Type 0 where
  pub prefix : Option Tree
  pub snapshot : Option Tree
  pub partial : Option Tree
  pub failed : Option Tree
  pub marker : Option Marker
  pub bridge : Bool
  pub work_dir : Bool
  -- the status that result.json holds: true for "promoted"
  pub result : Option Bool

abbrev pub Run : Type 0 → Type 0
Run Tree = Result Failure (Unit {0}) × World Tree

-- A raise leaves the world as it is; otherwise the next step goes on from there.
infixl 5 ◌then_do◌
abbrev pub ◌then_do◌ : {Tree : Type 0} → Run Tree → (World Tree → Run Tree) → Run Tree
(ok u, w) then_do next = next w
(err e, w) then_do next = (err e, w)

abbrev pub step_if : {Tree : Type 0} → Bool → Failure → World Tree → Run Tree
step_if true e w = (ok tt, w)
step_if false e w = (err e, w)

abbrev pub is_dir : {Tree : Type 0} → Option Tree → Bool
is_dir none = false
is_dir (some t) = true

abbrev pub mapped : {Tree : Type 0} → (Tree → Tree) → Option Tree → Option Tree
mapped f none = none
mapped f (some t) = some (f t)

module _ {Tree : Type 0} (c : Commands Tree) (paths : Paths) where
  -- `stop_live_uu`: the bridge, and then what is left of the prefix's processes, which may still write.
  unfoldable pub stop_live_uu : ℕ → World Tree → Run Tree
  stop_live_uu n w =
      if c.stop_bridge n
      then step_if (c.stop_prefix n) prefix_not_stopped
          (record w { bridge = false; prefix = mapped (c.stopped n) w.prefix })
      else (err bridge_not_stopped, record w { prefix = mapped (c.stopped n) w.prefix })

  -- `start_live_uu`
  unfoldable pub start_live_uu : ℕ → World Tree → Run Tree
  start_live_uu n w =
      if c.start_bridge n then (ok tt, record w { bridge = true }) else (err bridge_not_started, w)

  -- The fields of a marker that `recover` compares with the object's own paths.
  unfoldable pub marker_is_ours : Marker → Bool
  marker_is_ours m =
      str_eq m.work_dir paths.work_dir
      && str_eq m.prefix paths.prefix
      && str_eq m.snapshot_prefix paths.snapshot_prefix

  -- `self.prefix.replace(failed_prefix)`, if there is a prefix
  move_away : World Tree → Option Tree → Run Tree
  move_away w none = (ok tt, w)
  move_away w (some t) =
      if c.move 1
      then (ok tt, record w { failed = some t; prefix = none })
      else (err move_failed, w)

  -- `self.snapshot_prefix.replace(self.prefix)`
  move_back : Tree → World Tree → Run Tree
  move_back s w =
      if c.move 2
      then (ok tt, record w { prefix = some s; snapshot = none })
      else (err move_failed, w)

  -- The part of `recover` under `if self.snapshot_prefix.is_dir()`
  restore_snapshot : World Tree → Option Tree → Run Tree
  unfolding move_away move_back
  restore_snapshot w none = (ok tt, w)
  restore_snapshot w (some s) =
      stop_live_uu 1 w then_do (λ w₁. move_away w₁ w₁.prefix) then_do (λ w₂. move_back s w₂)

  restart : Bool → World Tree → Run Tree
  restart true w = start_live_uu 1 w
  restart false w = (ok tt, w)

  recover_with : World Tree → Option Marker → Run Tree
  unfolding restore_snapshot restart
  recover_with w none = (err no_marker, w)
  recover_with w (some m) =
      step_if m.known_schema unknown_schema w
      then_do (λ w₁. step_if (marker_is_ours m) unsafe_marker w₁)
      then_do (λ w₁. restore_snapshot w₁ w₁.snapshot)
      then_do (λ w₁. restart m.bridge_was_active w₁)
      then_do (λ w₁. (ok tt, record w₁ { marker = none }))

  -- `recover`
  unfoldable pub recover : World Tree → Run Tree
  unfolding recover_with
  recover w = recover_with w w.marker

  -- The world after `write_marker`
  unfoldable pub marked_as : Phase → Preflight → World Tree → World Tree
  marked_as phase pre w = record w {
    marker = some (record {
      phase = phase;
      known_schema = true;
      work_dir = paths.work_dir;
      prefix = paths.prefix;
      snapshot_prefix = paths.snapshot_prefix;
      bridge_was_active = pre.bridge_was_active;
    });
  }

  -- `write_marker`
  unfoldable pub write_marker : Phase → Preflight → World Tree → Run Tree
  unfolding marked_as
  write_marker phase pre w =
      if c.marks phase then (ok tt, marked_as phase pre w) else (err marker_unwritten, w)

  -- `cp -a` of the prefix to the partial snapshot, which then takes its name, and snapshot.json.
  copied : World Tree → Bool × Option Tree → Run Tree
  copied w (succeeded, none) = (err snapshot_failed, w)
  copied w (succeeded, some t) =
      if succeeded
      then (if c.move 0
          then step_if c.records_snapshot snapshot_unrecorded
              (record w { snapshot = some t; partial = none })
          else (err move_failed, record w { partial = some t }))
      else (err snapshot_failed, record w { partial = some t })

  snapshot_of : World Tree → Option Tree → Run Tree
  unfolding copied
  snapshot_of w none = (err login_unverifiable, w)
  snapshot_of w (some t) =
      step_if (login_state_is_usable (c.login t)) login_unverifiable w
      then_do (λ w₁. copied w₁ (c.copy t))

  -- `snapshot`
  unfoldable pub snapshot : World Tree → Run Tree
  unfolding snapshot_of
  snapshot w =
      step_if (not (is_dir w.snapshot) && not (is_dir w.partial)) snapshot_exists w
      then_do (λ w₁. snapshot_of w₁ w₁.prefix)

  -- `run_installer`, and the two checks of what it left.
  installed : Preflight → World Tree → Option Tree → Run Tree
  installed pre w none = (err install_failed, w)
  installed pre w (some t) =
      let (succeeded, new) = c.install t in
      step_if succeeded install_failed (record w { prefix = some new })
      then_do (λ w₁.
          step_if (login_state_is_preserved (c.login t) (c.login new)) login_not_preserved w₁)
      then_do (λ w₁. step_if (str_eq (c.manifest_sha256 new) pre.manifest_sha256) wrong_manifest w₁)

  same_state : Option String → String → Bool
  same_state none before = false
  same_state (some after) before = str_eq after before

  -- `verify_runtime` before and after the wait, during which UU runs in the prefix; and XRDP.
  verified : Preflight → World Tree → Option Tree → Run Tree
  unfolding same_state
  verified pre w none = (err verification_failed, w)
  verified pre w (some t) =
      step_if (c.verify 0 (c.lived 0 t)) verification_failed
        (record w { prefix = some (c.lived 0 t) })
      then_do (λ w₁.
          step_if (c.verify 1 (c.lived 1 (c.lived 0 t))) verification_failed
            (record w₁ { prefix = some (c.lived 1 (c.lived 0 t)) }))
      then_do (λ w₁. step_if (same_state c.xrdp_active_state pre.xrdp_active_state) xrdp_changed w₁)

  -- The body of the `try` in `apply`, up to the unlinking of the marker.
  unfoldable pub attempted : Preflight → World Tree → Run Tree
  unfolding installed verified
  attempted pre w =
      stop_live_uu 0 w
      then_do (λ w₁. snapshot w₁)
      then_do (λ w₁. write_marker snapshot_ready pre w₁)
      then_do (λ w₁. installed pre w₁ w₁.prefix)
      then_do (λ w₁. write_marker verifying pre w₁)
      then_do (λ w₁. start_live_uu 0 w₁)
      then_do (λ w₁. verified pre w₁ w₁.prefix)

  -- The marker is unlinked, and then the result is written.
  pub conclude : World Tree → Run Tree
  conclude w =
      if c.records_result
      then (ok tt, record w { marker = none; result = some true })
      else (err result_unwritten, record w { marker = none })

  -- The body of the `try` in `apply`
  unfoldable pub attempt : Preflight → World Tree → Run Tree
  unfolding attempted conclude
  attempt pre w = attempted pre w then_do (λ w₁. conclude w₁)

  -- The handler: recover if the marker is there, whatever that raises, write the failure down and
  -- raise again, or raise what the write raises.
  roll_back : World Tree → Option Marker → World Tree
  roll_back w none = w
  roll_back w (some m) = (recover w).1

  pub finish : Run Tree → Run Tree
  unfolding roll_back
  finish (ok u, w) = (ok u, w)
  finish (err e, w) =
      let w₁ = roll_back w w.marker in
      if c.records_failure
      then (err e, record w₁ { result = some false })
      else (err failure_unwritten, w₁)

  begin : Preflight → World Tree → Run Tree
  unfolding finish
  begin pre w =
      if w.work_dir
      then (err work_dir_exists, w)
      else write_marker preparing pre (record w { work_dir = true })
        then_do (λ w₁. finish (attempt pre w₁))

  -- `apply`, given what the preflight returned or raised.
  unfoldable pub apply : Result Failure Preflight → World Tree → Run Tree
  unfolding begin
  apply pre w = elim w.marker [
    | some m ↦ (err marker_exists, w)
    | none ↦ elim pre [ err e ↦ (err e, w) | ok p ↦ begin p w ]
  ]
