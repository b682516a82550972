-- ===== src/Audit/Draft.antt =====
-- scripts/audit-gameviewer.py: the evidence and the draft of `inspect_release`. The disassembly, the
-- tools that are run and the texts of the report are left out. `encode` stands for
-- `str.encode("utf-8")`, `sha256` for the hash of the server's bytes.
pub mod Unreviewed
use uu_remote_ubuntu_bridge.Prelude.{
  ℕ, ◌+◌, String, Bool, true, false, ◌&&◌, ◌||◌, not, Option, none, some, List, [], ◌∷◌, Result, ok,
  err, ◌>>=◌, ◌>>◌, require, refuse, length, map, if◌then◌else◌,
}
use uu_remote_ubuntu_bridge.Prelude.Int.{pos}
use uu_remote_ubuntu_bridge.Python.Bytes.{slice}
use uu_remote_ubuntu_bridge.Python.Format.{hex_text, bytes_hex}
use uu_remote_ubuntu_bridge.Python.Json.{
  Json, null, int, str, arr, obj, Items, nil, cons, Fields, end, field, find_field,
}
use uu_remote_ubuntu_bridge.Patchlib.Manifest.{Patch, ReleaseManifest, ManifestError}
use uu_remote_ubuntu_bridge.Patchlib.Read.{load_manifest}
use uu_remote_ubuntu_bridge.Patchlib.Locate.{masked_candidates}
use uu_remote_ubuntu_bridge.Audit.Pe.{PeError, PeInfo, parse_pe, file_offset_to_va}
use uu_remote_ubuntu_bridge.Audit.Evidence.{all_occurrences, proposed_replacement}
use uu_remote_ubuntu_bridge.Audit.Finalize.{placeholder, zeros}

pub record PatchEvidence : Type 0 where
  pub patch_id : String
  pub exact_original : List ℕ
  pub exact_replacement : List ℕ
  pub candidates : List ℕ
  pub selected : Option ℕ

pub record LandmarkEvidence : Type 0 where
  pub text : String
  pub file_offsets : List ℕ
  pub virtual_addresses : List ℕ

-- `candidates[0] if len(candidates) == 1 else None`
abbrev pub only_one : List ℕ → Option ℕ
only_one (c ∷ []) = some c
only_one _ = none

unfoldable pub patch_evidence : List ℕ → Patch → PatchEvidence
patch_evidence xs p = record {
  patch_id = p.patch_id;
  exact_original = all_occurrences xs p.original;
  exact_replacement = all_occurrences xs p.replacement;
  candidates = masked_candidates xs p;
  selected = only_one (masked_candidates xs p);
}

mapped : PeInfo → List ℕ → List ℕ
mapped pe [] = []
mapped pe (at ∷ ats) = elim (file_offset_to_va pe at) [
  | none ↦ mapped pe ats
  | some va ↦ va ∷ mapped pe ats
]

unfoldable pub landmark_evidence : (String → List ℕ) → PeInfo → List ℕ → String → LandmarkEvidence
unfolding mapped
landmark_evidence encode pe xs landmark = record {
  text = landmark;
  file_offsets = all_occurrences xs (encode landmark);
  virtual_addresses = mapped pe (all_occurrences xs (encode landmark));
}

abbrev texts : List String → Items
texts [] = nil
texts (s ∷ ss) = cons (str s) (texts ss)

-- The offset and the bytes of the only candidate.
abbrev located : List ℕ → Patch → Option ℕ → Fields
located xs p none = field "file_offset" null (field "original" null (field "replacement" null end))
located xs p (some at) = field "file_offset" (str (hex_text at)) (
    field "original" (str (bytes_hex (slice xs at (at + length p.original))))
      (field "replacement" (str (bytes_hex (proposed_replacement xs at p))) end))

abbrev pub draft_item : List ℕ → Patch → Fields
draft_item xs p = field "id" (str p.patch_id) (
    field "description" (str p.description) (
      field "rationale" (str p.rationale) (
        field "candidate_status" (str "unreviewed") (
          field "candidate_offsets" (arr (texts (map hex_text (masked_candidates xs p))))
            (located xs p (only_one (masked_candidates xs p)))))))

abbrev pub draft_items : List ℕ → List Patch → Items
draft_items xs [] = nil
draft_items xs (p ∷ ps) = cons (obj (draft_item xs p)) (draft_items xs ps)

-- A file that the caller names: whether it is there, its name and its hash.
pub record Named : Type 0 where
  pub there : Bool
  pub name : String
  pub sha256 : String

pub record InspectScene : Type 0 where
  pub version : String
  pub server_there : Bool
  pub server_name : String
  pub installer : Option Named
  pub healthd : Option Named
  pub baseline_path : String
  pub baseline : Option Json
  -- the output path is taken by something that is not an empty directory
  pub output_taken : Bool
  pub now : String

pub data InspectError : Type 0 where
  file_missing output_not_empty : InspectError
  bad_baseline : ManifestError → InspectError
  bad_pe : PeError → InspectError

abbrev is_there : Option Named → Bool
is_there none = true
is_there (some file) = file.there

abbrev name_or : String → Option Named → String
name_or other none = other
name_or other (some file) = file.name

-- `scalar_hash`
abbrev scalar_hash : Option Named → String
scalar_hash none = placeholder
scalar_hash (some file) = file.sha256

abbrev or_value : Json → Option Json → Json
or_value other none = other
or_value other (some value) = value

-- The draft manifest.
unfoldable pub draft_of : InspectScene → String → List ℕ → ReleaseManifest → Fields
draft_of o digest xs baseline = field "schema_version" (int (pos 1)) (
    field "review_status" (str "draft") (
      field "product" (or_value (str "NetEase UU Remote") (find_field "product" baseline.raw)) (
        field "version" (str o.version) (
          field "architecture" (str baseline.architecture) (
            field "installer"
              (obj (
                field "filename" (str (name_or placeholder o.installer)) (
                  field "url" (str baseline.installer_url)
                    (field "sha256" (str (scalar_hash o.installer)) end))))
              (field "server"
                (obj (
                  field "filename" (str o.server_name) (
                    field "size" (int (pos (length xs))) (
                      field "original_sha256" (str digest) (
                        field "patched_sha256" (str zeros)
                          (field "patches" (arr (draft_items xs baseline.patches)) end))))))
                (field "health_monitor"
                  (obj (
                    field "filename" (str (name_or baseline.healthd_filename o.healthd))
                      (field "original_sha256" (str (scalar_hash o.healthd)) end)))
                  (field "landmarks" (arr (texts baseline.landmarks)) (
                    field "imports" (arr (texts baseline.imports))
                      (field "audit" (obj (audit_note baseline.version)) end))))))))))
  where
    audit_note : String → Fields
    audit_note version = field "baseline_version" (str version) (
        field "baseline_manifest" (str o.baseline_path) (
          field "created_at" (str o.now)
            (field "warning" (str "Candidate bytes are unreviewed and must not be applied.") end)))

pub record AuditReport : Type 0 where
  pub pe : PeInfo
  pub patches : List PatchEvidence
  pub landmarks : List LandmarkEvidence
  pub draft : Fields

abbrev baseline_of : {A : Type 0} → Result ManifestError A → Result InspectError A
baseline_of (ok a) = ok a
baseline_of (err e) = err (bad_baseline e)

abbrev pe_of : {A : Type 0} → Result PeError A → Result InspectError A
pe_of (ok a) = ok a
pe_of (err e) = err (bad_pe e)

-- `inspect_release`
unfoldable pub inspect_release :
    (List ℕ → String) → (String → List ℕ) → InspectScene → List ℕ → Result InspectError AuditReport
inspect_release sha256 encode o xs = do
  require (o.server_there && is_there o.installer && is_there o.healthd) file_missing
  baseline ← baseline_of (load_manifest (λ path. o.baseline) true false o.baseline_path)
  pe ← pe_of (parse_pe xs)
  refuse o.output_taken output_not_empty
  ok (record {
    pe = pe;
    patches = map (patch_evidence xs) baseline.patches;
    landmarks = map (landmark_evidence encode pe xs) baseline.landmarks;
    draft = draft_of o (sha256 xs) xs baseline;
  })
