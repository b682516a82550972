-- ===== src/Promotion/Preflight.antt =====
-- scripts/promote-approved-release.py: `verify_checkout`, `current_runtime_check` and `preflight`. What
-- git, the file system, systemctl and the verifiers say is an observation; a resolved path is the list
-- of its parts.
pub mod Ready
use uu_remote_ubuntu_bridge.Prelude.{
  ℕ, ◌+◌, ◌*◌, String, Bool, true, false, ◌&&◌, ◌||◌, not, Option, none, some, List, [], ◌∷◌,
  Result, ok, err, ◌>>=◌, ◌>>◌, require, refuse, or_raise, ltb, str_eq, if◌then◌else◌,
}
use uu_remote_ubuntu_bridge.Python.Text.{is_commit}
use uu_remote_ubuntu_bridge.Python.Json.{Json, Fields, get, as_str}
use uu_remote_ubuntu_bridge.Patchlib.Manifest.{ReleaseManifest, ManifestError}
use uu_remote_ubuntu_bridge.Patchlib.Read.{manifest_from_dict}
use uu_remote_ubuntu_bridge.Updater.Version.{version_key, key_lt}
use uu_remote_ubuntu_bridge.Promotion.Acceptance.{
  Refusal, validate_acceptance, relative_repository_path,
}
use uu_remote_ubuntu_bridge.Promotion.Login.{LoginState, login_state_is_usable}
use uu_remote_ubuntu_bridge.Promotion.Transaction.{Preflight, Failure, preflight_failed}

-- The messages of `PromotionError` before the transaction, and the errors that the callees raise.
pub data PreflightError : Type 0 where
  prefix_unavailable paths_overlap : PreflightError
  bad_manifest : ManifestError → PreflightError
  bad_acceptance : Refusal → PreflightError
  manifest_unreadable : PreflightError
  bad_commit not_at_commit manifest_outside manifest_differs evidence_absent : PreflightError
  installer_unavailable installer_differs : PreflightError
  installed_unreadable unsupported_version not_newer : PreflightError
  login_unusable checkout_incomplete other_filesystem : PreflightError
  service_unknown bridge_not_active : PreflightError
  server_not_patched healthd_not_audited server_not_running relay_not_running : PreflightError
  verifier_not_built verification_failed : PreflightError
  prefix_unsized too_little_space : PreflightError

-- `path_is_within(path, root)`
unfoldable pub path_is_within : List String → List String → Bool
path_is_within path [] = true
path_is_within [] (r ∷ rs) = false
path_is_within (p ∷ ps) (r ∷ rs) = str_eq p r && path_is_within ps rs

-- What `verify_checkout` asks git: HEAD, whether the manifest's file is the one of HEAD, and whether
-- HEAD has a file at a path.
pub record Checkout : Type 0 where
  pub source_commit : String
  pub head : Option String
  pub manifest_matches : Bool
  pub has_file : String → Bool

-- What `current_runtime_check` finds: the installed manifest, the verdict of the patch command, the
-- hash of the health monitor's backup, the two processes, the build, and verify.sh.
pub record Runtime : Type 0 where
  pub installed_manifest : Option Json
  pub patched_verified : Bool
  pub healthd_backup : Option String
  pub server_running : Bool
  pub relay_running : Bool
  pub verifier_built : Bool
  pub full_check_ok : Bool

-- `installed_version` is none where the installed manifest cannot be read; a service's state is none
-- where systemctl gives none.
pub record Site : Type 0 where
  pub prefix_there : Bool
  pub work_dir : List String
  pub prefix : List String
  pub repository : List String
  pub manifest_path : List String
  pub manifest : Option Json
  pub manifest_sha256 : String
  pub checkout : Checkout
  pub installer_sha256 : Option String
  pub installed_version : Option String
  pub login : LoginState
  pub files_there : Bool
  pub same_filesystem : Bool
  pub bridge_state : Option String
  pub xrdp_state : Option String
  pub runtime : Runtime
  pub prefix_bytes : Option ℕ
  pub free_bytes : ℕ

abbrev pub Checked : Type 0 → Type 0
Checked A = Result PreflightError A

-- An error of a callee is raised on.
abbrev pub raised : {A E : Type 0} → (E → PreflightError) → Result E A → Checked A
raised f (ok a) = ok a
raised f (err e) = err (f e)

abbrev pub is_text : String → Option String → Bool
is_text text none = false
is_text text (some s) = str_eq s text

-- `load_manifest`, which asks for an approved manifest.
unfoldable pub read_manifest : Option Json → Checked ReleaseManifest
read_manifest none = err manifest_unreadable
read_manifest (some value) = raised bad_manifest (manifest_from_dict true false value "")

-- `acceptance["evidence"]`, of a record that was validated.
evidence_path : Fields → Checked String
evidence_path acceptance = do
  evidence ← or_raise (as_str (get acceptance "evidence")) evidence_absent
  raised bad_acceptance (relative_repository_path evidence)

-- `verify_checkout`
unfoldable pub verify_checkout : Site → Fields → Checked (Unit {0})
unfolding evidence_path
verify_checkout s acceptance = do
  require (is_commit s.checkout.source_commit) bad_commit
  require (is_text s.checkout.source_commit s.checkout.head) not_at_commit
  require (path_is_within s.manifest_path s.repository) manifest_outside
  require s.checkout.manifest_matches manifest_differs
  evidence ← evidence_path acceptance
  require (s.checkout.has_file evidence) evidence_absent

-- `current_runtime_check`
unfoldable pub current_runtime_check : Runtime → Checked (Unit {0})
current_runtime_check r = do
  installed ← read_manifest r.installed_manifest
  require r.patched_verified server_not_patched
  require (is_text installed.healthd_original_sha256 r.healthd_backup) healthd_not_audited
  require r.server_running server_not_running
  require r.relay_running relay_not_running
  require r.verifier_built verifier_not_built
  require r.full_check_ok verification_failed

-- The target is newer than what is installed.
unfoldable pub newer : String → Option String → Checked (Unit {0})
newer target installed = do
  version ← or_raise installed installed_unreadable
  target_key ← or_raise (version_key target) unsupported_version
  installed_key ← or_raise (version_key version) unsupported_version
  require (key_lt installed_key target_key) not_newer

-- The first part of `preflight`: the paths, the manifest with its acceptance, the checkout and the
-- installer.
unfoldable pub release_checks : Site → Checked (ReleaseManifest × Fields)
release_checks s = do
  require s.prefix_there prefix_unavailable
  refuse (path_is_within s.work_dir s.prefix || path_is_within s.prefix s.work_dir) paths_overlap
  manifest ← read_manifest s.manifest
  acceptance ← raised bad_acceptance (validate_acceptance manifest.raw)
  verify_checkout s acceptance
  installer ← or_raise s.installer_sha256 installer_unavailable
  require (str_eq installer manifest.installer_sha256) installer_differs
  ok (manifest, acceptance)

-- The second part: the machine. The state of XRDP, and the bytes that a snapshot needs.
unfoldable pub machine_checks : Site → ReleaseManifest → Checked (String × ℕ)
machine_checks s manifest = do
  newer manifest.version s.installed_version
  require (login_state_is_usable s.login) login_unusable
  require s.files_there checkout_incomplete
  require s.same_filesystem other_filesystem
  bridge ← or_raise s.bridge_state service_unknown
  require (str_eq bridge "active") bridge_not_active
  xrdp ← or_raise s.xrdp_state service_unknown
  current_runtime_check s.runtime
  bytes ← or_raise s.prefix_bytes prefix_unsized
  refuse (ltb s.free_bytes (bytes + 1024 * 1024 * 1024)) too_little_space
  ok (xrdp, bytes + 1024 * 1024 * 1024)

-- `preflight`: the part of its result that the transaction uses.
unfoldable pub preflight : Site → Checked Preflight
preflight s = do
  release ← release_checks s
  machine ← machine_checks s release.0
  ok (record {
    manifest_sha256 = s.manifest_sha256;
    bridge_was_active = true;
    xrdp_active_state = machine.0;
  })

-- What `apply` sees of it.
unfoldable pub preflight_of : Site → Result Failure Preflight
preflight_of s = elim (preflight s) [ ok p ↦ ok p | err e ↦ err preflight_failed ]
