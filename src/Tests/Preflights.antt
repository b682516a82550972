-- ===== src/Tests/Preflights.antt =====
-- A preflight at which nothing is missing, through scripts/promote-approved-release.py.
use uu_remote_ubuntu_bridge.Prelude.{◌≡◌, refl, String, true, some, [], ◌∷◌, str_eq}
use uu_remote_ubuntu_bridge.Prelude.Int.{pos}
use uu_remote_ubuntu_bridge.Python.Json.{
  Json, Fields, int, str, bool, arr, obj, cons, nil, end, field,
}
use uu_remote_ubuntu_bridge.Patchlib.Manifest.{ReleaseManifest}
use uu_remote_ubuntu_bridge.Promotion.Login.{LoginState, DirectoryState}
use uu_remote_ubuntu_bridge.Promotion.Transaction
use uu_remote_ubuntu_bridge.Promotion.Preflight.{Site, preflight}
use uu_remote_ubuntu_bridge.Promotion.Preflight.Ready.{ReleaseReady, MachineReady, preflight-Ready}

abbrev pub digest : String
digest = "aaaaaaaaaaaaaaaaaaaaaaaaaaaaaaaaaaaaaaaaaaaaaaaaaaaaaaaaaaaaaaaa"

abbrev patched_digest : String
patched_digest = "bbbbbbbbbbbbbbbbbbbbbbbbbbbbbbbbbbbbbbbbbbbbbbbbbbbbbbbbbbbbbbbb"

abbrev pub commit : String
commit = "0123456789012345678901234567890123456789"

-- A manifest with its acceptance.
abbrev pub raw : Fields
raw = field "schema_version" (int (pos 1)) (
    field "review_status" (str "approved") (
      field "version" (str "4.1.0") (
        field "architecture" (str "x86_64") (
          field "installer"
            (obj (
              field "filename" (str "i") (field "url" (str "u") (field "sha256" (str digest) end))))
            (field "server" (obj server) (
              field "health_monitor"
                (obj (field "filename" (str "h") (field "original_sha256" (str digest) end)))
                (field "landmarks" (arr nil)
                  (field "imports" (arr nil) (field "acceptance" (obj acceptance) end)))))))))
  where
    patch : Fields
    patch = field "id" (str "p") (
        field "original" (str "02") (
          field "replacement" (str "09") (
            field "description" (str "d")
              (field "rationale" (str "r") (field "file_offset" (int (pos 1)) end)))))

    server : Fields
    server = field "filename" (str "s") (
        field "size" (int (pos 4)) (
          field "original_sha256" (str digest) (
            field "patched_sha256" (str patched_digest)
              (field "patches" (arr (cons (obj patch) nil)) end))))

    acceptance : Fields
    acceptance = field "schema_version" (int (pos 1)) (
        field "disposable_prefix" (bool true) (
          field "controller_input" (bool true) (
            field "reconnect" (bool true) (
              field "service_restart" (bool true) (
                field "login_preservation" (bool true) (
                  field "stability_seconds" (int (pos 300)) (
                    field "installer_sha256" (str digest) (
                      field "patched_server_sha256" (str patched_digest) (
                        field "evidence" (str "docs/e.md") (
                          field "accepted_at" (str "t")
                            (field "accepted_by" (str "b") end)))))))))))

abbrev account : DirectoryState
account = record { present = true; files = 2; bytes = 10; digest = "d" }

abbrev site : Site
site = record {
  prefix_there = true;
  work_dir = "home" ∷ "work" ∷ [];
  prefix = "home" ∷ "prefix" ∷ [];
  repository = "home" ∷ "work" ∷ "checkout" ∷ [];
  manifest_path = "home" ∷ "work" ∷ "checkout" ∷ "patches" ∷ "release.json" ∷ [];
  manifest = some (obj raw);
  manifest_sha256 = digest;
  checkout = record {
    source_commit = commit;
    head = some commit;
    manifest_matches = true;
    has_file = λ path. str_eq path "docs/e.md";
  };
  installer_sha256 = some digest;
  installed_version = some "4.0.9";
  login = record { registry_login_digest = "r"; user_cache = account; shared_state = account };
  files_there = true;
  same_filesystem = true;
  bridge_state = some "active";
  xrdp_state = some "active";
  runtime = record {
    installed_manifest = some (obj raw);
    patched_verified = true;
    healthd_backup = some digest;
    server_running = true;
    relay_running = true;
    verifier_built = true;
    full_check_ok = true;
  };
  prefix_bytes = some 1000;
  free_bytes = 2000000000;
}

abbrev outcome : Transaction.Preflight
outcome = record {
  manifest_sha256 = digest;
  bridge_was_active = true;
  xrdp_active_state = "active";
}

preflight-Ready_example :
    (m : ReleaseManifest) × ReleaseReady site m
    × MachineReady site m.version
    × (outcome.manifest_sha256 ≡ site.manifest_sha256)
    × (outcome.bridge_was_active ≡ true)
unfolding preflight uu_remote_ubuntu_bridge.Promotion.Preflight.release_checks
    uu_remote_ubuntu_bridge.Promotion.Preflight.path_is_within
    uu_remote_ubuntu_bridge.Promotion.Preflight.read_manifest
    uu_remote_ubuntu_bridge.Patchlib.Read.manifest_from_dict
    uu_remote_ubuntu_bridge.Python.Json.is_one uu_remote_ubuntu_bridge.Python.Json.get
    uu_remote_ubuntu_bridge.Patchlib.Read.checked_status
    uu_remote_ubuntu_bridge.Patchlib.Fields.string uu_remote_ubuntu_bridge.Python.Text.has_text
    uu_remote_ubuntu_bridge.Patchlib.Read.allowed_status
    uu_remote_ubuntu_bridge.Patchlib.Read.checked_patches
    uu_remote_ubuntu_bridge.Patchlib.Read.read_patches
    uu_remote_ubuntu_bridge.Patchlib.Read.read_patch uu_remote_ubuntu_bridge.Python.Text.member
    uu_remote_ubuntu_bridge.Patchlib.Fields.hex_field uu_remote_ubuntu_bridge.Python.Text.is_empty
    uu_remote_ubuntu_bridge.Patchlib.Fields.Hex.hex_bytes
    uu_remote_ubuntu_bridge.Patchlib.Fields.Hex.hex_codes
    uu_remote_ubuntu_bridge.Patchlib.Fields.Hex.lower
    uu_remote_ubuntu_bridge.Patchlib.Fields.has_duplicates
    uu_remote_ubuntu_bridge.Patchlib.Fields.offset
    uu_remote_ubuntu_bridge.Patchlib.Fields.sha256_field
    uu_remote_ubuntu_bridge.Patchlib.Fields.string_list
    uu_remote_ubuntu_bridge.Patchlib.Read.Order.bytes_eq
    uu_remote_ubuntu_bridge.Patchlib.Read.Order.sort_patches
    uu_remote_ubuntu_bridge.Patchlib.Read.check_overlap
    uu_remote_ubuntu_bridge.Patchlib.Read.checked_digests
    uu_remote_ubuntu_bridge.Promotion.Acceptance.missing_flags
    uu_remote_ubuntu_bridge.Promotion.Acceptance.relative_repository_path
    uu_remote_ubuntu_bridge.Promotion.Acceptance.validate_acceptance
    uu_remote_ubuntu_bridge.Promotion.Login.login_state_is_usable
    uu_remote_ubuntu_bridge.Promotion.Preflight.current_runtime_check
    uu_remote_ubuntu_bridge.Promotion.Preflight.machine_checks
    uu_remote_ubuntu_bridge.Promotion.Preflight.newer
    uu_remote_ubuntu_bridge.Promotion.Preflight.verify_checkout
    uu_remote_ubuntu_bridge.Python.Integer.int_base0 uu_remote_ubuntu_bridge.Python.Json.find_field
    uu_remote_ubuntu_bridge.Python.Json.json_eq uu_remote_ubuntu_bridge.Python.Path.has_parent_part
    uu_remote_ubuntu_bridge.Python.Path.is_absolute uu_remote_ubuntu_bridge.Python.Path.no_parts
    uu_remote_ubuntu_bridge.Python.Path.path_parts uu_remote_ubuntu_bridge.Python.Text.all_chars
    uu_remote_ubuntu_bridge.Python.Text.is_commit uu_remote_ubuntu_bridge.Python.Text.is_sha256
    uu_remote_ubuntu_bridge.Python.Text.is_space uu_remote_ubuntu_bridge.Python.Text.text_length
    uu_remote_ubuntu_bridge.Updater.Version.decimal_from
    uu_remote_ubuntu_bridge.Updater.Version.dotted uu_remote_ubuntu_bridge.Updater.Version.key_lt
    uu_remote_ubuntu_bridge.Updater.Version.version_key
preflight-Ready_example = preflight-Ready site outcome refl
