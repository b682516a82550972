-- ===== src/Audit/Finalize.antt =====
-- scripts/audit-gameviewer.py: `has_placeholder` and `finalize_manifest`. What the arguments and the
-- file system say is a record; `sha256` stands for `hashlib.sha256(data).hexdigest()`. The result is the
-- manifest that is written to the output.
pub mod Approved
use uu_remote_ubuntu_bridge.Prelude.{
  ℕ, String, Bool, true, false, ◌&&◌, ◌||◌, not, Option, none, some, List, [], ◌∷◌, Result, ok, err,
  ◌>>=◌, ◌>>◌, require, refuse, or_raise, length, if◌then◌else◌,
}
use uu_remote_ubuntu_bridge.Prelude.Int.{pos}
use uu_remote_ubuntu_bridge.Python.Bytes.{find_from}
use uu_remote_ubuntu_bridge.Python.Text.{codes}
use uu_remote_ubuntu_bridge.Python.Json.{
  Json, null, bool, int, real, str, arr, obj, Items, nil, cons, Fields, end, field, get, find_field,
  as_obj, as_arr, is_str, set_field, pop_field,
}
use uu_remote_ubuntu_bridge.Patchlib.Manifest.{ReleaseManifest, ManifestError}
use uu_remote_ubuntu_bridge.Patchlib.Read.{manifest_from_dict}
use uu_remote_ubuntu_bridge.Patchlib.Apply.{render_patched, make_patched}

-- `PLACEHOLDER`
abbrev pub placeholder : String
placeholder = "REPLACE_AFTER_REVIEW"

-- `PLACEHOLDER in value`
unfoldable pub names_placeholder : String → Bool
names_placeholder s = elim (find_from (codes placeholder) (codes s) 0) [
  | none ↦ false
  | some at ↦ true
]

-- `has_placeholder`
unfoldable mutual
  pub has_placeholder : Json → Bool
  has_placeholder (str s) = names_placeholder s
  has_placeholder (arr vs) = some_placeholder vs
  has_placeholder (obj fs) = values_placeholder fs
  has_placeholder null = false
  has_placeholder (bool b) = false
  has_placeholder (int n) = false
  has_placeholder (real m k) = false

  pub some_placeholder : Items → Bool
  some_placeholder nil = false
  some_placeholder (cons v vs) = has_placeholder v || some_placeholder vs

  pub values_placeholder : Fields → Bool
  values_placeholder end = false
  values_placeholder (field k v fs) = has_placeholder v || values_placeholder fs

-- The messages of `AuditError`, and the errors of the patch library.
pub data FinalizeError : Type 0 where
  not_accepted output_exists draft_unreadable not_a_draft still_placeholders : FinalizeError
  no_server no_patches server_changed : FinalizeError
  not_reviewed : Json → FinalizeError
  bad_manifest : ManifestError → FinalizeError

pub record FinalizeScene : Type 0 where
  pub accepted : Bool
  pub output_there : Bool
  -- the JSON value of the draft, `none` where it cannot be read or parsed
  pub draft : Option Json
  pub draft_path : String
  pub draft_name : String
  pub draft_sha256 : String
  pub output : String
  pub reviewed_by : String
  pub review_note : String
  pub now : String
  pub server : List ℕ

abbrev pub Finalized : Type 0 → Type 0
Finalized A = Result FinalizeError A

abbrev pub raised : {A : Type 0} → Result ManifestError A → Finalized A
raised (ok a) = ok a
raised (err e) = err (bad_manifest e)

-- `item.get("id", "unknown")`
abbrev id_of : Option Json → Json
id_of none = str "unknown"
id_of (some id) = id

-- One turn of the loop over the patches: a reviewed item, without what the audit noted.
unfoldable pub reviewed_item : Json → Finalized Json
reviewed_item (obj item) = do
  require (is_str "reviewed" (get item "candidate_status"))
      (not_reviewed (id_of (find_field "id" item)))
  ok (obj (pop_field "candidate_status" (pop_field "candidate_offsets" item)))
reviewed_item _ = err (not_reviewed (str "unknown"))

unfoldable pub reviewed_items : Items → Finalized Items
reviewed_items nil = ok nil
reviewed_items (cons v vs) = do
  item ← reviewed_item v
  rest ← reviewed_items vs
  ok (cons item rest)

non_empty_items : Option Items → Finalized Items
non_empty_items none = err no_patches
non_empty_items (some nil) = err no_patches
non_empty_items (some (cons v vs)) = ok (cons v vs)

abbrev pub zeros : String
zeros = "0000000000000000000000000000000000000000000000000000000000000000"

draft_fields : Option Json → Finalized Fields
draft_fields none = err draft_unreadable
draft_fields (some value) = do
  raw ← or_raise (as_obj value) not_a_draft
  require (is_str "draft" (get raw "review_status")) not_a_draft
  refuse (has_placeholder value) still_placeholders
  ok raw

abbrev pub review : FinalizeScene → Fields
review o = field "reviewed_by" (str o.reviewed_by) (
    field "reviewed_at" (str o.now) (
      field "evidence" (str o.review_note) (
        field "source_audit" (str o.draft_name)
          (field "source_audit_sha256" (str o.draft_sha256) end))))

-- The manifest with its status and its review, and without the note of the audit.
abbrev pub approved_fields : FinalizeScene → Fields → Fields
approved_fields o raw =
    pop_field "audit"
      (set_field "review" (obj (review o)) (set_field "review_status" (str "approved") raw))

module _ (sha256 : List ℕ → String) where
  -- From the server section on, whose patches have been reviewed.
  unfoldable pub approve : FinalizeScene → Fields → Fields → Finalized Fields
  approve o raw server = do
    require (is_str (sha256 o.server) (get server "original_sha256")) server_changed
    let sized =
        set_field "patched_sha256" (str zeros)
          (set_field "size" (int (pos (length o.server))) server)
    provisional ←
        raised
          (manifest_from_dict false false (obj (set_field "server" (obj sized) raw)) o.draft_path)
    patched ← raised (render_patched sha256 o.server provisional)
    let signed = set_field "patched_sha256" (str (sha256 patched)) sized
    let result = approved_fields o (set_field "server" (obj signed) raw)
    approved ← raised (manifest_from_dict true false (obj result) o.output)
    preview ← raised (make_patched sha256 o.server approved)
    ok result

  -- `finalize_manifest`
  unfoldable pub finalize_manifest : FinalizeScene → Finalized Fields
  unfolding draft_fields non_empty_items
  finalize_manifest o = do
    require o.accepted not_accepted
    refuse o.output_there output_exists
    raw ← draft_fields o.draft
    server ← or_raise (as_obj (get raw "server")) no_server
    patches ← non_empty_items (as_arr (get server "patches"))
    items ← reviewed_items patches
    approve o raw (set_field "patches" (arr items) server)
