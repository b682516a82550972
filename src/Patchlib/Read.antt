-- ===== src/Patchlib/Read.antt =====
-- scripts/gameviewer_patchlib.py: `manifest_from_dict` and `load_manifests`. A path is its text;
-- `read_json` stands for reading and parsing the file at a path, `none` where that raises.
pub mod Order
pub mod WellFormed
use mathlib.Core.Option
use uu_remote_ubuntu_bridge.Prelude.{
  ℕ, zero, suc, ◌+◌, ◌<◌, String, Bool, true, false, not, ◌&&◌, ◌||◌, Option, none, some, List, [],
  ◌∷◌, ◌++◌, Result, ok, err, ◌>>=◌, ◌>>◌, require, refuse, or_raise, if◌then◌else◌, ◌<>◌, str_eq,
  leb, ltb, length, ◌==◌, map,
}
use uu_remote_ubuntu_bridge.Prelude.Int.{ℤ, pos, negsuc}
use uu_remote_ubuntu_bridge.Python.Text.{member}
use uu_remote_ubuntu_bridge.Python.Json.{
  Json, null, int, Items, nil, cons, Fields, get, as_arr, items, is_one,
}
use uu_remote_ubuntu_bridge.Patchlib.Manifest
use uu_remote_ubuntu_bridge.Patchlib.Manifest.{Patch, patch_end, ReleaseManifest, ManifestError}
use uu_remote_ubuntu_bridge.Patchlib.Fields.{
  Checked, mapping, string, sha256_field, offset, hex_field, string_list,
}
use uu_remote_ubuntu_bridge.Patchlib.Read.Order.{sort_patches, bytes_eq}

-- `review_status in allowed_statuses`
unfoldable pub allowed_status : Bool → String → Bool
allowed_status allow_experimental status =
    str_eq status "approved" || (allow_experimental && str_eq status "experimental")

-- The body of the loop over `server.patches`, with the ids seen so far.
unfoldable pub read_patch : List String → Json → Checked Patch
read_patch ids value = do
  item ← mapping value "server.patches[]"
  patch_id ← string item "id" "server.patches[]"
  refuse (member patch_id ids) (Manifest.duplicate_patch_id patch_id)
  original ← hex_field (get item "original") "server.patches[].original"
  replacement ← hex_field (get item "replacement") "server.patches[].replacement"
  require (length original == length replacement) (Manifest.lengths_differ patch_id)
  refuse (bytes_eq original replacement) (Manifest.no_change patch_id)
  description ← string item "description" "server.patches[]"
  rationale ← string item "rationale" "server.patches[]"
  file_offset ← offset (get item "file_offset") "server.patches[].file_offset"
  ok (record {
    patch_id = patch_id;
    description = description;
    rationale = rationale;
    file_offset = file_offset;
    original = original;
    replacement = replacement;
  })

unfoldable pub read_patches : List String → List Json → Checked (List Patch)
read_patches ids [] = ok []
read_patches ids (value ∷ values) = do
  patch ← read_patch ids value
  rest ← read_patches (patch.patch_id ∷ ids) values
  ok (patch ∷ rest)

-- The loop over neighbours in the order of their offsets.
unfoldable pub check_overlap : List Patch → Checked (Unit {0})
check_overlap [] = ok tt
check_overlap (left ∷ []) = ok tt
check_overlap (left ∷ (right ∷ rest)) = do
  refuse (ltb right.file_offset (patch_end left)) (Manifest.overlap left.patch_id right.patch_id)
  check_overlap (right ∷ rest)

positive : Json → Checked ℕ
positive (int (pos (suc n))) = ok (suc n)
positive _ = err Manifest.wrong_size

non_empty_items : Json → Checked (List Json)
non_empty_items (Json.arr (cons v vs)) = ok (v ∷ items vs)
non_empty_items _ = err Manifest.no_patches

-- The patches of the server section: read, and then held against one another.
unfoldable pub checked_patches : List Json → Checked (List Patch)
checked_patches values = do
  patches ← read_patches [] values
  check_overlap (sort_patches patches)
  ok patches

-- The two digests of the server section.
unfoldable pub checked_digests : Fields → Checked (String × String)
checked_digests server = do
  original ← sha256_field server "original_sha256" "server"
  patched ← sha256_field server "patched_sha256" "server"
  refuse (str_eq original patched) Manifest.same_digests
  ok (original, patched)

-- The status test. With `require_approved` the status must be approved, or experimental where
-- that is allowed.
unfoldable pub checked_status : Bool → Bool → Fields → Checked String
checked_status require_approved allow_experimental raw = do
  status ← string raw "review_status" ""
  refuse (require_approved && not (allowed_status allow_experimental status))
      (Manifest.wrong_status status)
  ok status

-- `manifest_from_dict`
unfoldable pub manifest_from_dict : Bool → Bool → Json → String → Checked ReleaseManifest
unfolding positive non_empty_items
manifest_from_dict require_approved allow_experimental raw_value path = do
  raw ← mapping raw_value "manifest"
  require (is_one (get raw "schema_version")) Manifest.wrong_schema
  review_status ← checked_status require_approved allow_experimental raw
  version ← string raw "version" ""
  architecture ← string raw "architecture" ""
  require (str_eq architecture "x86_64") (Manifest.wrong_architecture architecture)
  installer ← mapping (get raw "installer") "installer"
  server ← mapping (get raw "server") "server"
  healthd ← mapping (get raw "health_monitor") "health_monitor"
  server_size ← positive (get server "size")
  values ← non_empty_items (get server "patches")
  patches ← checked_patches values
  digests ← checked_digests server
  installer_filename ← string installer "filename" "installer"
  installer_url ← string installer "url" "installer"
  installer_sha256 ← sha256_field installer "sha256" "installer"
  server_filename ← string server "filename" "server"
  healthd_filename ← string healthd "filename" "health_monitor"
  healthd_original ← sha256_field healthd "original_sha256" "health_monitor"
  landmarks ← string_list raw "landmarks"
  imports ← string_list raw "imports"
  ok (record {
    path = path;
    raw = raw;
    version = version;
    architecture = architecture;
    review_status = review_status;
    installer_filename = installer_filename;
    installer_url = installer_url;
    installer_sha256 = installer_sha256;
    server_filename = server_filename;
    server_size = server_size;
    original_sha256 = digests.0;
    patched_sha256 = digests.1;
    healthd_filename = healthd_filename;
    healthd_original_sha256 = healthd_original;
    patches = patches;
    landmarks = landmarks;
    imports = imports;
  })

-- The loop that refuses a version or a digest which two manifests share.
unfoldable pub check_unique : List String → List String → List ReleaseManifest → Checked (Unit {0})
check_unique versions digests [] = ok tt
check_unique versions digests (m ∷ ms) = do
  refuse (member m.version versions) (Manifest.duplicate_version m.version)
  refuse (member m.original_sha256 digests) (Manifest.duplicate_digest m.original_sha256)
  refuse (member m.patched_sha256 (m.original_sha256 ∷ digests))
      (Manifest.duplicate_digest m.patched_sha256)
  check_unique (m.version ∷ versions) (m.patched_sha256 ∷ (m.original_sha256 ∷ digests)) ms

selection : List String → List String → Checked (List String)
selection (path ∷ paths) defaults = ok (path ∷ paths)
selection [] (path ∷ paths) = ok (path ∷ paths)
selection [] [] = err Manifest.no_manifests

module _ (read_json : String → Option Json) where
  -- `load_manifest`
  unfoldable pub load_manifest : Bool → Bool → String → Checked ReleaseManifest
  load_manifest require_approved allow_experimental path = do
    raw ← or_raise (read_json path) Manifest.unreadable
    manifest_from_dict require_approved allow_experimental raw path

  unfoldable pub load_each : Bool → List String → Checked (List ReleaseManifest)
  load_each allow_experimental [] = ok []
  load_each allow_experimental (path ∷ paths) = do
    m ← load_manifest true allow_experimental path
    ms ← load_each allow_experimental paths
    ok (m ∷ ms)

  -- `load_manifests`, over the paths that the caller named or, if there are none, over the sorted
  -- default ones.
  unfoldable pub load_manifests : Bool → List String → List String → Checked (List ReleaseManifest)
  unfolding selection
  load_manifests allow_experimental default_paths paths = do
    selected ← selection paths default_paths
    manifests ← load_each allow_experimental selected
    check_unique [] [] manifests
    ok manifests
