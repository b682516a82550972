-- ===== src/Tests/Patches.antt =====
-- A file of four bytes, with one patch at its second, through scripts/gameviewer_patchlib.py and
-- scripts/patch-gameviewer.py.
use uu_remote_ubuntu_bridge.Prelude.{
  ℕ, ◌≡◌, refl, inl, String, true, false, Option, none, some, List, [], ◌∷◌, ok, if◌then◌else◌,
  arith, ◌↔◌,
}
use uu_remote_ubuntu_bridge.Prelude.Int.{pos}
use uu_remote_ubuntu_bridge.Python.Json.{
  Json, Fields, Items, int, str, obj, arr, nil, cons, end, field,
}
use uu_remote_ubuntu_bridge.Patchlib.Manifest.{Patch, ReleaseManifest}
use uu_remote_ubuntu_bridge.Patchlib.Fields.Hex.{hex_codes, to_hex, hex_codes-to_hex}
use uu_remote_ubuntu_bridge.Patchlib.Read
use uu_remote_ubuntu_bridge.Patchlib.Read.{manifest_from_dict, load_manifests, check_unique}
use uu_remote_ubuntu_bridge.Patchlib.Read.Order.{All, AllPairs, bytes_eq}
use uu_remote_ubuntu_bridge.Patchlib.Read.WellFormed.{
  IsSound, WellFormed, manifest_from_dict-WellFormed,
}
use uu_remote_ubuntu_bridge.Patchlib.Apply.{
  classify, classify_digest, original, patched, make_patched, verify_signatures, write_patches,
}
use uu_remote_ubuntu_bridge.Patchlib.Apply.Signatures.{Signed, verify_signatures-iff-Signed}
use uu_remote_ubuntu_bridge.Patchlib.Apply.Overlay.{
  IsOverlay, make_patched-IsOverlay, undo_all, undo-make_patched,
}
use uu_remote_ubuntu_bridge.Patchlib.Apply.Lookup.{load_manifests-classify}
use uu_remote_ubuntu_bridge.Patcher.{File, Files, write, patch_file, restore_file}
use uu_remote_ubuntu_bridge.Patcher.Restore.{restore-patch}

abbrev pub before_bytes : List ℕ
before_bytes = 1 ∷ 2 ∷ 3 ∷ 4 ∷ []

abbrev pub after_bytes : List ℕ
after_bytes = 1 ∷ 9 ∷ 3 ∷ 4 ∷ []

abbrev pub before_digest : String
before_digest = "aaaaaaaaaaaaaaaaaaaaaaaaaaaaaaaaaaaaaaaaaaaaaaaaaaaaaaaaaaaaaaaa"

abbrev pub after_digest : String
after_digest = "bbbbbbbbbbbbbbbbbbbbbbbbbbbbbbbbbbbbbbbbbbbbbbbbbbbbbbbbbbbbbbbb"

abbrev sha256 : List ℕ → String
unfolding bytes_eq
sha256 xs = if bytes_eq xs before_bytes then before_digest else after_digest

abbrev pub one_patch : Patch
one_patch = record {
  patch_id = "p";
  description = "d";
  rationale = "r";
  file_offset = 1;
  original = 2 ∷ [];
  replacement = 9 ∷ [];
}

abbrev pub release_fields : Fields
release_fields = field "schema_version" (int (pos 1)) (
    field "review_status" (str "approved") (
      field "version" (str "4.1.0") (
        field "architecture" (str "x86_64") (
          field "installer"
            (obj (
              field "filename" (str "i")
                (field "url" (str "u") (field "sha256" (str before_digest) end))))
            (field "server" (obj server_fields) (
              field "health_monitor"
                (obj (field "filename" (str "h") (field "original_sha256" (str before_digest) end)))
                (field "landmarks" (arr (cons (str "l") nil))
                  (field "imports" (arr (cons (str "m") nil)) end))))))))
  where
    patch_fields : Fields
    patch_fields = field "id" (str "p") (
        field "original" (str "02") (
          field "replacement" (str "09") (
            field "description" (str "d")
              (field "rationale" (str "r") (field "file_offset" (int (pos 1)) end)))))

    server_fields : Fields
    server_fields = field "filename" (str "s") (
        field "size" (int (pos 4)) (
          field "original_sha256" (str before_digest) (
            field "patched_sha256" (str after_digest)
              (field "patches" (arr (cons (obj patch_fields) nil)) end))))

abbrev release : ReleaseManifest
release = record {
  path = "release.json";
  raw = release_fields;
  version = "4.1.0";
  architecture = "x86_64";
  review_status = "approved";
  installer_filename = "i";
  installer_url = "u";
  installer_sha256 = before_digest;
  server_filename = "s";
  server_size = 4;
  original_sha256 = before_digest;
  patched_sha256 = after_digest;
  healthd_filename = "h";
  healthd_original_sha256 = before_digest;
  patches = one_patch ∷ [];
  landmarks = "l" ∷ [];
  imports = "m" ∷ [];
}

abbrev read_json : String → Option Json
read_json path = some (obj release_fields)

abbrev one_patch_IsSound : All IsSound release.patches
unfolding bytes_eq
one_patch_IsSound = (record { non_empty = omega arith; same_length = refl; changes = refl }, tt)

manifest_from_dict-WellFormed_example : WellFormed true false release
unfolding manifest_from_dict uu_remote_ubuntu_bridge.Python.Json.is_one
    uu_remote_ubuntu_bridge.Python.Json.get Read.checked_status
    uu_remote_ubuntu_bridge.Patchlib.Fields.string uu_remote_ubuntu_bridge.Python.Text.has_text
    Read.allowed_status Read.checked_patches Read.read_patches Read.read_patch
    uu_remote_ubuntu_bridge.Python.Text.member uu_remote_ubuntu_bridge.Patchlib.Fields.hex_field
    uu_remote_ubuntu_bridge.Python.Text.is_empty
    uu_remote_ubuntu_bridge.Patchlib.Fields.Hex.hex_bytes bytes_eq
    uu_remote_ubuntu_bridge.Patchlib.Fields.offset Read.check_overlap
    uu_remote_ubuntu_bridge.Patchlib.Read.Order.sort_patches hex_codes
    uu_remote_ubuntu_bridge.Patchlib.Fields.Hex.lower
    uu_remote_ubuntu_bridge.Patchlib.Fields.has_duplicates
    uu_remote_ubuntu_bridge.Patchlib.Fields.sha256_field
    uu_remote_ubuntu_bridge.Patchlib.Fields.string_list Read.checked_digests
    uu_remote_ubuntu_bridge.Python.Integer.int_base0 uu_remote_ubuntu_bridge.Python.Json.find_field
    uu_remote_ubuntu_bridge.Python.Json.json_eq uu_remote_ubuntu_bridge.Python.Text.all_chars
    uu_remote_ubuntu_bridge.Python.Text.is_sha256 uu_remote_ubuntu_bridge.Python.Text.is_space
    uu_remote_ubuntu_bridge.Python.Text.text_length
manifest_from_dict-WellFormed_example =
    manifest_from_dict-WellFormed true false (obj release_fields) "release.json" release refl

load_manifests-classify_example :
    (classify_digest before_digest (release ∷ []) ≡ original release)
    × (classify_digest after_digest (release ∷ []) ≡ patched release)
unfolding load_manifests Read.load_each Read.load_manifest check_unique manifest_from_dict
    uu_remote_ubuntu_bridge.Python.Json.is_one uu_remote_ubuntu_bridge.Python.Json.get
    Read.checked_status uu_remote_ubuntu_bridge.Patchlib.Fields.string
    uu_remote_ubuntu_bridge.Python.Text.has_text Read.allowed_status Read.checked_patches
    Read.read_patches Read.read_patch uu_remote_ubuntu_bridge.Python.Text.member
    uu_remote_ubuntu_bridge.Patchlib.Fields.hex_field uu_remote_ubuntu_bridge.Python.Text.is_empty
    uu_remote_ubuntu_bridge.Patchlib.Fields.Hex.hex_bytes bytes_eq
    uu_remote_ubuntu_bridge.Patchlib.Fields.offset Read.check_overlap
    uu_remote_ubuntu_bridge.Patchlib.Read.Order.sort_patches hex_codes
    uu_remote_ubuntu_bridge.Patchlib.Fields.Hex.lower
    uu_remote_ubuntu_bridge.Patchlib.Fields.has_duplicates
    uu_remote_ubuntu_bridge.Patchlib.Fields.sha256_field
    uu_remote_ubuntu_bridge.Patchlib.Fields.string_list Read.checked_digests
    uu_remote_ubuntu_bridge.Python.Integer.int_base0 uu_remote_ubuntu_bridge.Python.Json.find_field
    uu_remote_ubuntu_bridge.Python.Json.json_eq uu_remote_ubuntu_bridge.Python.Text.all_chars
    uu_remote_ubuntu_bridge.Python.Text.is_sha256 uu_remote_ubuntu_bridge.Python.Text.is_space
    uu_remote_ubuntu_bridge.Python.Text.text_length
load_manifests-classify_example =
    load_manifests-classify read_json false ("release.json" ∷ []) [] (release ∷ []) release refl
      (inl refl)

make_patched-IsOverlay_example : IsOverlay before_bytes release.patches after_bytes
unfolding make_patched uu_remote_ubuntu_bridge.Patchlib.Apply.render_patched sha256
    verify_signatures uu_remote_ubuntu_bridge.Patchlib.Apply.check_signatures
    uu_remote_ubuntu_bridge.Patchlib.Apply.check_signature uu_remote_ubuntu_bridge.Python.Bytes.find
    uu_remote_ubuntu_bridge.Python.Bytes.begins_with write_patches
    uu_remote_ubuntu_bridge.Python.Bytes.splice
make_patched-IsOverlay_example =
    make_patched-IsOverlay sha256 before_bytes release one_patch_IsSound after_bytes refl

undo-make_patched_example : write_patches (undo_all release.patches) after_bytes ≡ before_bytes
unfolding make_patched uu_remote_ubuntu_bridge.Patchlib.Apply.render_patched sha256
    verify_signatures uu_remote_ubuntu_bridge.Patchlib.Apply.check_signatures
    uu_remote_ubuntu_bridge.Patchlib.Apply.check_signature uu_remote_ubuntu_bridge.Python.Bytes.find
    uu_remote_ubuntu_bridge.Python.Bytes.begins_with write_patches
    uu_remote_ubuntu_bridge.Python.Bytes.splice
undo-make_patched_example =
    undo-make_patched sha256 before_bytes release one_patch_IsSound after_bytes refl

verify_signatures-iff-Signed_example :
    (verify_signatures before_bytes release false ≡ ok tt) ↔ Signed before_bytes release false
verify_signatures-iff-Signed_example = verify_signatures-iff-Signed before_bytes release false

abbrev executable : File
executable = record { content = before_bytes; mode = 493 }

abbrev directory : Files
directory = write "server" executable (λ (path : String). none)

restore-patch_example :
    restore_file sha256
      (release ∷ [])
      "server"
      "backup"
      (patch_file sha256 (release ∷ []) "server" "backup" directory).1
    ≡ (
      ok tt,
      write "server" executable (patch_file sha256 (release ∷ []) "server" "backup" directory).1,
    )
unfolding check_unique classify patch_file uu_remote_ubuntu_bridge.Python.Text.member sha256
    verify_signatures uu_remote_ubuntu_bridge.Patchlib.Apply.check_signatures
    uu_remote_ubuntu_bridge.Patchlib.Apply.check_signature uu_remote_ubuntu_bridge.Python.Bytes.find
    uu_remote_ubuntu_bridge.Python.Bytes.begins_with make_patched
    uu_remote_ubuntu_bridge.Patchlib.Apply.render_patched write_patches
    uu_remote_ubuntu_bridge.Python.Bytes.splice
restore-patch_example =
    restore-patch sha256 (release ∷ []) refl "server" "backup" refl directory executable release
      refl refl refl refl

abbrev with_backup : Files
with_backup = write "backup" executable directory
