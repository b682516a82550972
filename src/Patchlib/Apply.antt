-- ===== src/Patchlib/Apply.antt =====
-- scripts/gameviewer_patchlib.py: `classify`, `verify_signatures`, `render_patched` and
-- `make_patched`. `sha256` stands for `hashlib.sha256(data).hexdigest()`, of which nothing is assumed.
pub mod Signatures
pub mod Overlay
pub mod Lookup
use uu_remote_ubuntu_bridge.Prelude.{
  ℕ, zero, suc, ◌+◌, String, Bool, true, false, ◌&&◌, Option, none, some, List, [], ◌∷◌, ok, err,
  ◌>>=◌, ◌>>◌, require, if◌then◌else◌, str_eq, length, ◌==◌,
}
use uu_remote_ubuntu_bridge.Python.Bytes.{find, splice}
use uu_remote_ubuntu_bridge.Patchlib.Manifest
use uu_remote_ubuntu_bridge.Patchlib.Manifest.{Patch, patch_end, ReleaseManifest}
use uu_remote_ubuntu_bridge.Patchlib.Fields.{Checked}

-- "original", "patched" or "unknown", with the manifest that was found.
pub data Class : Type 0 where
  original patched : ReleaseManifest → Class
  unknown : Class

-- `classify`, after the digest has been computed.
unfoldable pub classify_digest : String → List ReleaseManifest → Class
classify_digest digest [] = unknown
classify_digest digest (m ∷ ms) =
    let later = classify_digest digest ms in
    if str_eq digest m.original_sha256
    then original m
    else if str_eq digest m.patched_sha256
    then patched m
    else later

-- The bytes that a patch must show.
abbrev pub expected : Bool → Patch → List ℕ
expected is_patched p = if is_patched then p.replacement else p.original

abbrev absent : Option ℕ → Bool
absent none = true
absent (some second) = false

-- `first != item.file_offset or second >= 0`, negated.
one_signature : Option ℕ → (ℕ → Option ℕ) → ℕ → Bool
one_signature none again at = false
one_signature (some first) again at = first == at && absent (again (first + 1))

unfoldable pub check_signature : List ℕ → Bool → Patch → Checked (Unit {0})
unfolding one_signature
check_signature xs is_patched p =
    let needle = expected is_patched p in
    require (one_signature (find xs needle 0) (find xs needle) p.file_offset)
      (Manifest.wrong_signature p.patch_id)

unfoldable pub check_signatures : List ℕ → Bool → List Patch → Checked (Unit {0})
check_signatures xs is_patched [] = ok tt
check_signatures xs is_patched (p ∷ ps) = do
  check_signature xs is_patched p
  check_signatures xs is_patched ps

-- `verify_signatures`
unfoldable pub verify_signatures : List ℕ → ReleaseManifest → Bool → Checked (Unit {0})
verify_signatures xs m is_patched = do
  require (length xs == m.server_size) (Manifest.size_mismatch m.version)
  check_signatures xs is_patched m.patches

-- The loop that writes each replacement over the original bytes.
unfoldable pub write_patches : List Patch → List ℕ → List ℕ
write_patches [] output = output
write_patches (p ∷ ps) output =
    write_patches ps (splice output p.file_offset (patch_end p) p.replacement)

module _ (sha256 : List ℕ → String) where
  -- `classify`
  unfoldable pub classify : List ℕ → List ReleaseManifest → Class
  unfolding classify_digest
  classify xs ms = classify_digest (sha256 xs) ms

  -- `render_patched`
  unfoldable pub render_patched : List ℕ → ReleaseManifest → Checked (List ℕ)
  render_patched xs m = do
    require (str_eq (sha256 xs) m.original_sha256) Manifest.wrong_original_hash
    verify_signatures xs m false
    let result = write_patches m.patches xs
    verify_signatures result m true
    ok result

  -- `make_patched`
  unfoldable pub make_patched : List ℕ → ReleaseManifest → Checked (List ℕ)
  make_patched xs m = do
    result ← render_patched xs m
    require (str_eq (sha256 result) m.patched_sha256) Manifest.wrong_patched_hash
    ok result
