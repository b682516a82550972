-- ===== src/Patchlib/Manifest.antt =====
-- scripts/gameviewer_patchlib.py: `Patch`, `ReleaseManifest`, and what `ManifestError` can say.
use uu_remote_ubuntu_bridge.Prelude.{ℕ, String, List, ◌+◌, length}
use uu_remote_ubuntu_bridge.Python.Json.{Fields}

pub record Patch : Type 0 where
  pub patch_id : String
  pub description : String
  pub rationale : String
  pub file_offset : ℕ
  pub original : List ℕ
  pub replacement : List ℕ

-- The end of the bytes that a patch replaces.
abbrev pub patch_end : Patch → ℕ
patch_end p = p.file_offset + length p.original

pub record ReleaseManifest : Type 0 where
  pub path : String
  pub raw : Fields
  pub version : String
  pub architecture : String
  pub review_status : String
  pub installer_filename : String
  pub installer_url : String
  pub installer_sha256 : String
  pub server_filename : String
  pub server_size : ℕ
  pub original_sha256 : String
  pub patched_sha256 : String
  pub healthd_filename : String
  pub healthd_original_sha256 : String
  pub patches : List Patch
  pub landmarks : List String
  pub imports : List String

-- One constructor for each `raise ManifestError`, with the field, the patch or the digest that the
-- message names.
pub data ManifestError : Type 0 where
  not_an_object not_a_string not_a_digest not_an_offset negative_offset : String → ManifestError
  not_hex empty_bytes not_string_list duplicate_strings : String → ManifestError
  wrong_schema wrong_size no_patches same_digests : ManifestError
  wrong_status wrong_architecture duplicate_patch_id : String → ManifestError
  lengths_differ no_change : String → ManifestError
  overlap : String → String → ManifestError
  unreadable no_manifests : ManifestError
  duplicate_version duplicate_digest : String → ManifestError
  size_mismatch wrong_signature : String → ManifestError
  wrong_original_hash wrong_patched_hash : ManifestError
  no_such_field not_scalar : String → ManifestError
