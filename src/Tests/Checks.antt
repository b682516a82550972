-- ===== src/Tests/Checks.antt =====
-- A check that finds an accepted release, through scripts/uu_update_manager.py.
use uu_remote_ubuntu_bridge.Prelude.{◌≡◌, ◌⊎◌, refl, false, String, true, none, some, [], ◌∷◌}
use uu_remote_ubuntu_bridge.Python.Json.{Json, str, obj}
use uu_remote_ubuntu_bridge.Updater.Tasks
use uu_remote_ubuntu_bridge.Updater.Tasks.{TaskId, Store}
use uu_remote_ubuntu_bridge.Updater.Check.{CheckScene, check}
use uu_remote_ubuntu_bridge.Updater.Check.Gate.{Gate, check-Gate}
use uu_remote_ubuntu_bridge.Updater.Commands.Reached.{fresh, Reached-IsConsistent}
use uu_remote_ubuntu_bridge.Tests.Preflights.{raw, digest, commit}

abbrev text_of : Json → String
text_of (str s) = s
text_of _ = ""

abbrev offered : CheckScene
offered = record {
  to_str = text_of;
  auto_promote = true;
  fetch_ok = true;
  source_commit = commit;
  listing = some (
      record {
        path = "patches/4.1.0.json";
        json = some (obj raw);
        sha256 = digest;
        evidence_there = true;
      }
      ∷ []);
  installed_version = "4.0.9";
  probe = some record {
    version = "4.1.0";
    etag = "e";
    last_modified = "l";
    content_length = "4";
    installer_sha256 = none;
  };
  cached = none;
  downloaded = some digest;
  pinned = record {
    installer_sha256 = some digest;
    checkout_ok = true;
    manifest_sha256 = some digest;
  };
  checkout = record { base = some commit; handoff_there = true };
}

abbrev start : Store
start = record {
  pending = none;
  tasks = λ id. none;
  status = Tasks.healthy;
  active_task = none;
  observed_release = none;
  made = λ (id : TaskId). false;
  applied = 0;
  codex_runs = 0;
  restarts = 0;
  reinstalls = 0;
}

abbrev offered_id : TaskId
offered_id = record {
  kind = Tasks.approved_promotion;
  identity = "4.1.0-aaaaaaaaaaaa-aaaaaaaaaaaa";
}

check-Gate_example : ((check offered start).1.tasks offered_id ≡ none) ⊎ Gate offered offered_id
check-Gate_example =
    check-Gate offered start offered_id (Reached-IsConsistent (fresh start refl refl)) refl

offered_is_queued : (check offered start).1.status ≡ Tasks.promotion_queued
unfolding check uu_remote_ubuntu_bridge.Updater.Check.last_release
    uu_remote_ubuntu_bridge.Updater.Releases.approved_releases
    uu_remote_ubuntu_bridge.Updater.Releases.sort_releases
    uu_remote_ubuntu_bridge.Updater.Releases.read_releases
    uu_remote_ubuntu_bridge.Updater.Releases.read_release uu_remote_ubuntu_bridge.Python.Json.get
    uu_remote_ubuntu_bridge.Updater.Version.version_key
    uu_remote_ubuntu_bridge.Updater.Version.key_lt uu_remote_ubuntu_bridge.Updater.Version.key_eq
    uu_remote_ubuntu_bridge.Updater.Check.matching
    uu_remote_ubuntu_bridge.Promotion.Acceptance.promotion_acceptance
    uu_remote_ubuntu_bridge.Python.Json.is_one
    uu_remote_ubuntu_bridge.Promotion.Acceptance.missing_flags
    uu_remote_ubuntu_bridge.Python.Text.has_text uu_remote_ubuntu_bridge.Python.Path.is_absolute
    uu_remote_ubuntu_bridge.Python.Path.has_parent_part
    uu_remote_ubuntu_bridge.Python.Json.find_field uu_remote_ubuntu_bridge.Python.Json.json_eq
    uu_remote_ubuntu_bridge.Python.Path.path_parts uu_remote_ubuntu_bridge.Python.Text.all_chars
    uu_remote_ubuntu_bridge.Python.Text.is_commit uu_remote_ubuntu_bridge.Python.Text.is_empty
    uu_remote_ubuntu_bridge.Python.Text.is_sha256 uu_remote_ubuntu_bridge.Python.Text.is_space
    uu_remote_ubuntu_bridge.Python.Text.text_length uu_remote_ubuntu_bridge.Updater.Queue.first
    uu_remote_ubuntu_bridge.Updater.Queue.queue_promotion
    uu_remote_ubuntu_bridge.Updater.Queue.queue_task Tasks.save_task Tasks.write_observed
    Tasks.write_pending Tasks.write_phase Tasks.write_status Tasks.write_task
    uu_remote_ubuntu_bridge.Updater.Version.decimal_from
    uu_remote_ubuntu_bridge.Updater.Version.dotted
offered_is_queued = refl

offered_is_active : (check offered start).1.active_task ≡ some offered_id
unfolding check uu_remote_ubuntu_bridge.Updater.Check.last_release
    uu_remote_ubuntu_bridge.Updater.Releases.approved_releases
    uu_remote_ubuntu_bridge.Updater.Releases.sort_releases
    uu_remote_ubuntu_bridge.Updater.Releases.read_releases
    uu_remote_ubuntu_bridge.Updater.Releases.read_release uu_remote_ubuntu_bridge.Python.Json.get
    uu_remote_ubuntu_bridge.Updater.Version.version_key
    uu_remote_ubuntu_bridge.Updater.Version.key_lt uu_remote_ubuntu_bridge.Updater.Version.key_eq
    uu_remote_ubuntu_bridge.Updater.Check.matching
    uu_remote_ubuntu_bridge.Promotion.Acceptance.promotion_acceptance
    uu_remote_ubuntu_bridge.Python.Json.is_one
    uu_remote_ubuntu_bridge.Promotion.Acceptance.missing_flags
    uu_remote_ubuntu_bridge.Python.Text.has_text uu_remote_ubuntu_bridge.Python.Path.is_absolute
    uu_remote_ubuntu_bridge.Python.Path.has_parent_part
    uu_remote_ubuntu_bridge.Python.Json.find_field uu_remote_ubuntu_bridge.Python.Json.json_eq
    uu_remote_ubuntu_bridge.Python.Path.path_parts uu_remote_ubuntu_bridge.Python.Text.all_chars
    uu_remote_ubuntu_bridge.Python.Text.is_commit uu_remote_ubuntu_bridge.Python.Text.is_empty
    uu_remote_ubuntu_bridge.Python.Text.is_sha256 uu_remote_ubuntu_bridge.Python.Text.is_space
    uu_remote_ubuntu_bridge.Python.Text.text_length uu_remote_ubuntu_bridge.Updater.Queue.first
    uu_remote_ubuntu_bridge.Updater.Queue.queue_promotion
    uu_remote_ubuntu_bridge.Updater.Queue.queue_task Tasks.save_task Tasks.write_observed
    Tasks.write_pending Tasks.write_phase Tasks.write_status Tasks.write_task
    uu_remote_ubuntu_bridge.Updater.Version.decimal_from
    uu_remote_ubuntu_bridge.Updater.Version.dotted
offered_is_active = refl
