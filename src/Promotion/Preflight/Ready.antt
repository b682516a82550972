-- ===== src/Promotion/Preflight/Ready.antt =====
-- What a preflight that passed has established.
use uu_remote_ubuntu_bridge.Prelude.{
  ℕ, ◌+◌, ◌*◌, ◌≤◌, ◌≡◌, refl, String, Bool, true, false, ◌||◌, Option, none, some, List, ok, err,
  arith, or_raise, or_raise-eq-ok, require, >>=-eq-ok, require-eq-ok, refuse-eq-ok, subst, Result,
  str_eq, ltb,
}
use uu_remote_ubuntu_bridge.Python.Text.{is_commit}
use uu_remote_ubuntu_bridge.Python.Json.{Json, Fields}
use uu_remote_ubuntu_bridge.Patchlib.Manifest.{ReleaseManifest}
use uu_remote_ubuntu_bridge.Patchlib.Read.{manifest_from_dict}
use uu_remote_ubuntu_bridge.Updater.Version.{version_key, key_lt}
use uu_remote_ubuntu_bridge.Promotion.Acceptance.{validate_acceptance}
use uu_remote_ubuntu_bridge.Promotion.Login.{login_state_is_usable}
use uu_remote_ubuntu_bridge.Promotion.Transaction.{Preflight}
use uu_remote_ubuntu_bridge.Promotion.Preflight.{
  Site, Runtime, PreflightError, bad_acceptance, raised, path_is_within, is_text, read_manifest,
  verify_checkout, current_runtime_check, newer, release_checks, machine_checks, preflight,
}

-- The target's version has a later key than the installed one.
pub record Newer (target : String) (installed : Option String) : Type 0 where
  pub installed_key : List ℕ
  pub target_key : List ℕ
  pub version : String
  pub installed_eq : installed ≡ some version
  pub installed_key_eq : version_key version ≡ some installed_key
  pub target_key_eq : version_key target ≡ some target_key
  pub later : key_lt installed_key target_key ≡ true

require-eq_end : {E : Type 0} (t : Bool) (e : E) → require t e ≡ ok tt → t ≡ true
require-eq_end true e h = refl
require-eq_end false e h = cc

newer-Newer :
    (target : String) (installed : Option String) {u : Unit {0}}
    → newer target installed ≡ ok u
    → Newer target installed
unfolding newer
newer-Newer target none h = cc
newer-Newer target (some version) h =
    let (t, e, h₁) = >>=-eq-ok (or_raise (version_key target) _) _ h in
    let (i, f, h₂) = >>=-eq-ok (or_raise (version_key version) _) _ h₁ in
    record {
      installed_key = i;
      target_key = t;
      version = version;
      installed_eq = refl;
      installed_key_eq = or_raise-eq-ok (version_key version) _ f;
      target_key_eq = or_raise-eq-ok (version_key target) _ e;
      later = require-eq_end (key_lt i t) _ h₂;
    }

read_manifest-eq-ok :
    (value : Option Json) (m : ReleaseManifest)
    → read_manifest value ≡ ok m
    → (v : Json) × (value ≡ some v) × (manifest_from_dict true false v "" ≡ ok m)
unfolding read_manifest
read_manifest-eq-ok none m h = cc
read_manifest-eq-ok (some v) m h = (v, refl, ground arith)

-- The checkout is at the pinned commit, and the manifest of the release is the checkout's own.
pub record AtCommit (s : Site) : Type 0 where
  pub head_eq : is_text s.checkout.source_commit s.checkout.head ≡ true
  pub inside : path_is_within s.manifest_path s.repository ≡ true
  pub matches : s.checkout.manifest_matches ≡ true

verify_checkout-AtCommit :
    (s : Site) (acceptance : Fields) {u : Unit {0}}
    → verify_checkout s acceptance ≡ ok u
    → AtCommit s
unfolding verify_checkout
verify_checkout-AtCommit s acceptance h =
    let (a, h₁) = require-eq-ok (is_commit s.checkout.source_commit) _ _ h in
    let (b, h₂) = require-eq-ok (is_text s.checkout.source_commit s.checkout.head) _ _ h₁ in
    let (c, h₃) = require-eq-ok (path_is_within s.manifest_path s.repository) _ _ h₂ in
    let (d, h₄) = require-eq-ok s.checkout.manifest_matches _ _ h₃ in
    record { head_eq = b; inside = c; matches = d }

-- The release: approved, accepted, pinned, and with the installer that the manifest names; the working
-- directory and the Wine prefix lie apart.
pub record ReleaseReady (s : Site) (m : ReleaseManifest) : Type 0 where
  pub value : Json
  pub acceptance : Fields
  pub manifest_eq : s.manifest ≡ some value
  pub approved : manifest_from_dict true false value "" ≡ ok m
  pub accepted : validate_acceptance m.raw ≡ ok acceptance
  pub at_commit : AtCommit s
  pub installer : is_text m.installer_sha256 s.installer_sha256 ≡ true
  pub apart :
      (path_is_within s.work_dir s.prefix ≡ false) × (path_is_within s.prefix s.work_dir ≡ false)

or-eq-false : (a b : Bool) → (a || b) ≡ false → (a ≡ false) × (b ≡ false)
or-eq-false a b h = ground arith

installer-eq :
    (o : Option String) (i text : String) (e : PreflightError)
    → or_raise o e ≡ ok i
    → str_eq i text ≡ true
    → is_text text o ≡ true
installer-eq o i text e h k = ground arith

raised-eq-ok :
    {A E : Type 0} (f : E → PreflightError) (r : Result E A) {a : A} → raised f r ≡ ok a → r ≡ ok a
raised-eq-ok f (ok a) h = ground arith
raised-eq-ok f (err e) h = cc

release_checks-ReleaseReady :
    (s : Site) (m : ReleaseManifest) (a : Fields) → release_checks s ≡ ok (m, a) → ReleaseReady s m
unfolding release_checks
release_checks-ReleaseReady s m a h =
    let (b, h₁) = require-eq-ok s.prefix_there _ _ h in
    let (c, h₂) =
      refuse-eq-ok (path_is_within s.work_dir s.prefix || path_is_within s.prefix s.work_dir) _ _
        h₁ in
    let (n, d, h₃) = >>=-eq-ok (read_manifest s.manifest) _ h₂ in
    let (v, f, g) = read_manifest-eq-ok s.manifest n d in
    let (x, k, h₄) = >>=-eq-ok (raised bad_acceptance (validate_acceptance n.raw)) _ h₃ in
    let (u, l, h₅) = >>=-eq-ok (verify_checkout s x) _ h₄ in
    let (i, o, h₆) = >>=-eq-ok (or_raise s.installer_sha256 _) _ h₅ in
    let (p, h₇) = require-eq-ok (str_eq i n.installer_sha256) _ _ h₆ in
    let same : n ≡ m = ground arith in
    subst (ReleaseReady s) same record {
      value = v;
      acceptance = x;
      manifest_eq = f;
      approved = g;
      accepted = raised-eq-ok bad_acceptance (validate_acceptance n.raw) k;
      at_commit = verify_checkout-AtCommit s x l;
      installer = installer-eq s.installer_sha256 i n.installer_sha256 _ o p;
      apart =
          or-eq-false (path_is_within s.work_dir s.prefix) (path_is_within s.prefix s.work_dir) c;
    }

-- What runs now: the patched server of an approved manifest, the relay, and a bridge that verifies.
pub record Running (r : Runtime) : Type 0 where
  pub manifest : ReleaseManifest
  pub manifest_eq : read_manifest r.installed_manifest ≡ ok manifest
  pub healthd : is_text manifest.healthd_original_sha256 r.healthd_backup ≡ true
  pub patched : r.patched_verified ≡ true
  pub server : r.server_running ≡ true
  pub relay : r.relay_running ≡ true
  pub verified : r.full_check_ok ≡ true

current_runtime_check-Running :
    (r : Runtime) {u : Unit {0}} → current_runtime_check r ≡ ok u → Running r
unfolding current_runtime_check
current_runtime_check-Running r h =
    let (m, a, h₁) = >>=-eq-ok (read_manifest r.installed_manifest) _ h in
    let (b, h₂) = require-eq-ok r.patched_verified _ _ h₁ in
    let (c, h₃) = require-eq-ok (is_text m.healthd_original_sha256 r.healthd_backup) _ _ h₂ in
    let (d, h₄) = require-eq-ok r.server_running _ _ h₃ in
    let (e, h₅) = require-eq-ok r.relay_running _ _ h₄ in
    let (f, h₆) = require-eq-ok r.verifier_built _ _ h₅ in
    record {
      manifest = m;
      manifest_eq = a;
      healthd = c;
      patched = b;
      server = d;
      relay = e;
      verified = require-eq_end r.full_check_ok _ h₆;
    }

not_below : (a b : ℕ) → ltb a b ≡ false → b ≤ a
not_below a b h = ground arith

-- The machine: an older version is installed, the login can be kept, the bridge is active and passes
-- its own checks, and the free bytes hold a snapshot of the prefix and a gibibyte.
pub record MachineReady (s : Site) (target : String) : Type 0 where
  pub older : Newer target s.installed_version
  pub login : login_state_is_usable s.login ≡ true
  pub active : is_text "active" s.bridge_state ≡ true
  pub checked : Running s.runtime
  pub bytes : ℕ
  pub bytes_eq : s.prefix_bytes ≡ some bytes
  pub space : bytes + 1024 * 1024 * 1024 ≤ s.free_bytes

machine_checks-MachineReady :
    (s : Site) (m : ReleaseManifest) {r : String × ℕ}
    → machine_checks s m ≡ ok r
    → MachineReady s m.version
unfolding machine_checks
machine_checks-MachineReady s m h =
    let (u, a, h₁) = >>=-eq-ok (newer m.version s.installed_version) _ h in
    let (b, h₂) = require-eq-ok (login_state_is_usable s.login) _ _ h₁ in
    let (c, h₃) = require-eq-ok s.files_there _ _ h₂ in
    let (d, h₄) = require-eq-ok s.same_filesystem _ _ h₃ in
    let (bridge, e, h₅) = >>=-eq-ok (or_raise s.bridge_state _) _ h₄ in
    let (f, h₆) = require-eq-ok (str_eq bridge "active") _ _ h₅ in
    let (xrdp, g, h₇) = >>=-eq-ok (or_raise s.xrdp_state _) _ h₆ in
    let (v, k, h₈) = >>=-eq-ok (current_runtime_check s.runtime) _ h₇ in
    let (bytes, l, h₉) = >>=-eq-ok (or_raise s.prefix_bytes _) _ h₈ in
    let (p, q) = refuse-eq-ok (ltb s.free_bytes (bytes + 1024 * 1024 * 1024)) _ _ h₉ in
    record {
      older = newer-Newer m.version s.installed_version a;
      login = b;
      active = installer-eq s.bridge_state bridge "active" _ e f;
      checked = current_runtime_check-Running s.runtime k;
      bytes = bytes;
      bytes_eq = or_raise-eq-ok s.prefix_bytes _ l;
      space = not_below s.free_bytes (bytes + 1024 * 1024 * 1024) p;
    }

-- A preflight that passes has found that the manifest is approved and accepted, the checkout stands at
-- the pinned commit and holds that manifest, the installer is the one that it names, an older version
-- is installed, the login is usable, the bridge is active and verifies with the patched server of an
-- approved manifest, and the free bytes hold a snapshot of the prefix and a gibibyte. Its result
-- carries the hash of the manifest.
pub preflight-Ready :
    (s : Site) (p : Preflight)
    → preflight s ≡ ok p
    → (m : ReleaseManifest) × ReleaseReady s m
      × MachineReady s m.version
      × (p.manifest_sha256 ≡ s.manifest_sha256)
      × (p.bridge_was_active ≡ true)
unfolding preflight
preflight-Ready s p h =
    let ((m, a), b, h₁) = >>=-eq-ok (release_checks s) _ h in
    let (r, c, h₂) = >>=-eq-ok (machine_checks s m) _ h₁ in
    (
      m,
      release_checks-ReleaseReady s m a b,
      machine_checks-MachineReady s m c,
      ground arith,
      ground arith,
    )
