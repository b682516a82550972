-- ===== src/Tests/Promotions.antt =====
-- A prefix that is a number, with commands that succeed or of which one fails, through
-- scripts/promote-approved-release.py; and one acceptance record.
use uu_remote_ubuntu_bridge.Prelude.{
  ℕ, suc, ◌≡◌, ◌⊎◌, refl, inl, inr, String, Bool, true, false, none, some, [], ◌∷◌, ok, err,
}
use uu_remote_ubuntu_bridge.Prelude.Int.{pos}
use uu_remote_ubuntu_bridge.Python.Json.{
  Json, Fields, int, str, bool, obj, end, field, get, is_true,
}
use uu_remote_ubuntu_bridge.Python.Path.{no_parts}
use uu_remote_ubuntu_bridge.Promotion.Acceptance.{
  promotion_acceptance, validate_acceptance, bad_evidence,
}
use uu_remote_ubuntu_bridge.Promotion.Acceptance.Agreement.{eligible-validate, eligible-refused}
use uu_remote_ubuntu_bridge.Promotion.Login.{
  LoginState, DirectoryState, Entry, login_state_is_preserved, login_state_is_usable,
}
use uu_remote_ubuntu_bridge.Promotion.Transaction
use uu_remote_ubuntu_bridge.Promotion.Transaction.{
  Phase, Commands, Paths, Preflight, World, Marker, Failure, recover, apply, install_failed,
}
use uu_remote_ubuntu_bridge.Promotion.Transaction.Recovery.{
  Recoverable, Recovered, RecoveryWorks, recover-Recovered, recover-Recoverable, recover_returns,
}
use uu_remote_ubuntu_bridge.Promotion.Transaction.Rollback.{
  Faithful, RolledBack, Unrecorded, begun, apply-RolledBack,
}
use uu_remote_ubuntu_bridge.Promotion.Transaction.Success.{IsPromoted, apply-IsPromoted}

abbrev account : DirectoryState
account = record { present = true; files = 2; bytes = 10; digest = "d" }

abbrev logged_in : LoginState
logged_in = record { registry_login_digest = "r"; user_cache = account; shared_state = account }

-- The commands, with what install.sh returns.
abbrev commands : Bool → Commands ℕ
commands installs = record {
  stop_bridge = λ (n : ℕ). true;
  stop_prefix = λ (n : ℕ). true;
  stopped = λ (n t : ℕ). t;
  start_bridge = λ (n : ℕ). true;
  copy = λ (t : ℕ). (true, some t);
  install = λ (t : ℕ). (installs, suc t);
  move = λ (n : ℕ). true;
  marks = λ (p : Phase). true;
  records_snapshot = true;
  records_result = true;
  records_failure = true;
  verify = λ (n t : ℕ). true;
  lived = λ (n t : ℕ). t;
  login = λ (t : ℕ). logged_in;
  manifest_sha256 = λ (t : ℕ). "m";
  xrdp_active_state = some "active";
}

-- The same, but the first move of a recovery fails.
abbrev stuck_commands : Commands ℕ
stuck_commands = record (commands false) { move = λ (n : ℕ). false }

abbrev paths : Paths
paths = record { work_dir = "w"; prefix = "p"; snapshot_prefix = "s" }

abbrev preflight : Preflight
preflight = record { manifest_sha256 = "m"; bridge_was_active = true; xrdp_active_state = "active" }

abbrev start : World ℕ
start = record {
  prefix = some 7;
  snapshot = none;
  partial = none;
  failed = none;
  marker = none;
  bridge = true;
  work_dir = false;
  result = none;
}

abbrev marker : Marker
marker = record {
  phase = Transaction.snapshot_ready;
  known_schema = true;
  work_dir = "w";
  prefix = "p";
  snapshot_prefix = "s";
  bridge_was_active = true;
}

abbrev interrupted : World ℕ
interrupted = record start {
  prefix = some 8;
  snapshot = some 7;
  marker = some marker;
  bridge = false;
}

abbrev works : RecoveryWorks (commands false) paths
works = record {
  stops = refl;
  stops_prefix = refl;
  moves_away = refl;
  moves_back = refl;
  starts = refl;
}

abbrev recoverable : (c : Commands ℕ) → Recoverable c paths 7 marker interrupted
unfolding Transaction.marker_is_ours
recoverable c = record { marked = refl; schema = refl; ours = refl; kept = inl refl }

abbrev faithful : (installs : Bool) → Faithful (commands installs) paths preflight
faithful installs t h = inr refl

apply-RolledBack_example :
    RolledBack
      (commands false)
      paths
      preflight
      (faithful false)
      7
      (apply (commands false) paths (ok preflight) start).1
    ⊎ Unrecorded
        (commands false)
        paths
        preflight
        (faithful false)
        7
        (begun (commands false) paths preflight start)
        (apply (commands false) paths (ok preflight) start).1
unfolding apply Transaction.attempt Transaction.attempted Transaction.stop_live_uu
    Transaction.snapshot Transaction.write_marker Transaction.marked_as login_state_is_usable
    uu_remote_ubuntu_bridge.Python.Text.is_empty
apply-RolledBack_example =
    apply-RolledBack (commands false) paths preflight (faithful false) 7 start works refl refl refl
      refl refl install_failed refl

apply-IsPromoted_example :
    IsPromoted
      (commands true)
      paths
      preflight
      7
      (apply (commands true) paths (ok preflight) start).1
unfolding apply Transaction.attempt Transaction.attempted Transaction.stop_live_uu
    Transaction.snapshot Transaction.write_marker Transaction.marked_as login_state_is_usable
    uu_remote_ubuntu_bridge.Python.Text.is_empty login_state_is_preserved Transaction.start_live_uu
apply-IsPromoted_example =
    apply-IsPromoted (commands true) paths preflight 7 start (faithful true) refl refl

recover-Recovered_example :
    Recovered (commands false) paths 7 marker (recover (commands false) paths interrupted).1
unfolding recover Transaction.marker_is_ours Transaction.stop_live_uu Transaction.start_live_uu
recover-Recovered_example =
    recover-Recovered (commands false) paths 7 marker interrupted (recoverable (commands false))
      refl

recover-Recoverable_example :
    Recoverable stuck_commands paths 7 marker (recover stuck_commands paths interrupted).1
unfolding recover Transaction.marker_is_ours Transaction.stop_live_uu
recover-Recoverable_example =
    recover-Recoverable stuck_commands paths 7 marker interrupted (recoverable stuck_commands)
      Transaction.move_failed refl

recover_returns_example :
    let after = recover (commands false) paths interrupted in
    (after.0 ≡ ok tt) × Recovered (commands false) paths 7 marker after.1
recover_returns_example =
    recover_returns (commands false) paths works 7 marker interrupted (recoverable (commands false))

-- An eligible record, with the evidence that it names.
abbrev accepted : String → Fields
accepted evidence = field "installer" (obj (field "sha256" (str "i") end)) (
    field "server" (obj (field "patched_sha256" (str "s") end))
      (field "acceptance" (obj record_fields) end))
  where
    record_fields : Fields
    record_fields = field "schema_version" (int (pos 1)) (
        field "disposable_prefix" (bool true) (
          field "controller_input" (bool true) (
            field "reconnect" (bool true) (
              field "service_restart" (bool true) (
                field "login_preservation" (bool true) (
                  field "stability_seconds" (int (pos 300)) (
                    field "installer_sha256" (str "i") (
                      field "patched_server_sha256" (str "s") (
                        field "evidence" (str evidence) (
                          field "accepted_at" (str "t")
                            (field "accepted_by" (str "b") end)))))))))))

eligible-validate_example : (a : Fields) × (validate_acceptance (accepted "docs/e.md") ≡ ok a)
unfolding promotion_acceptance no_parts get uu_remote_ubuntu_bridge.Python.Json.is_one
    uu_remote_ubuntu_bridge.Promotion.Acceptance.missing_flags
    uu_remote_ubuntu_bridge.Python.Text.has_text uu_remote_ubuntu_bridge.Python.Path.is_absolute
    uu_remote_ubuntu_bridge.Python.Path.has_parent_part
eligible-validate_example = eligible-validate (accepted "docs/e.md") (300, "docs/e.md") refl refl

eligible-refused_example : validate_acceptance (accepted ".") ≡ err bad_evidence
unfolding promotion_acceptance no_parts get uu_remote_ubuntu_bridge.Python.Json.is_one
    uu_remote_ubuntu_bridge.Promotion.Acceptance.missing_flags
    uu_remote_ubuntu_bridge.Python.Text.has_text uu_remote_ubuntu_bridge.Python.Path.is_absolute
    uu_remote_ubuntu_bridge.Python.Path.has_parent_part
eligible-refused_example = eligible-refused (accepted ".") (300, ".") refl refl

abbrev setting : Entry
setting = record { relative = "setting.ini"; regular = true; content = some (1 ∷ []) }

abbrev token : Entry
token = record { relative = "token"; regular = true; content = some (5 ∷ []) }
