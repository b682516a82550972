-- ===== src/Tests/Audits.antt =====
-- Small executables and a draft, through scripts/audit-gameviewer.py and
-- scripts/compare-pe-normalized.py.
use uu_remote_ubuntu_bridge.Prelude.{
  ℕ, ◌≤◌, ◌<◌, ◌+◌, ◌≡◌, ◌≢◌, ◌↔◌, refl, String, true, false, none, some, List, [], ◌∷◌, ◌++◌, ok,
  err, length, get_elem?, listed, replicate, get_or, ◌==◌, if◌then◌else◌,
}
use uu_remote_ubuntu_bridge.Prelude.Int.{pos}
use uu_remote_ubuntu_bridge.Python.Bytes.{OccursAt}
use uu_remote_ubuntu_bridge.Python.Json.{
  Fields, Items, int, str, arr, obj, cons, nil, end, field, get, is_str,
}
use uu_remote_ubuntu_bridge.Patchlib.Manifest.{Patch}
use uu_remote_ubuntu_bridge.Patchlib.Locate.{masked_candidates}
use uu_remote_ubuntu_bridge.Patchlib.Locate.Complete.{Candidate, masked_candidates_iff}
use uu_remote_ubuntu_bridge.Audit.Pe.{pe_offset, parse_pe, struct_error}
use uu_remote_ubuntu_bridge.Audit.Pe.Header.{optional_size, parse_pe-struct_error}
use uu_remote_ubuntu_bridge.Audit.Normalized.{normalized_bytes, blanked}
use uu_remote_ubuntu_bridge.Audit.Normalized.Fields.{Outside, normalized_bytes_iff}
use uu_remote_ubuntu_bridge.Audit.Evidence.{
  all_occurrences, all_occurrences_iff, proposed_replacement,
}
use uu_remote_ubuntu_bridge.Audit.Evidence.Proposal.{proposed_replacement-Candidate}
use uu_remote_ubuntu_bridge.Audit.Finalize.{FinalizeScene, finalize_manifest}
use uu_remote_ubuntu_bridge.Audit.Finalize.Approved.{
  stripped, Reviewed, Applicable, finalize_manifest-Approved,
}
use uu_remote_ubuntu_bridge.Audit.Draft.{InspectScene, AuditReport, inspect_release}
use uu_remote_ubuntu_bridge.Audit.Draft.Unreviewed.{inspect_release-unreviewed}
use uu_remote_ubuntu_bridge.Tests.Patches.{
  before_bytes, before_digest, after_digest, one_patch, release_fields,
}

abbrev sha256 : List ℕ → String
sha256 xs = if get_or xs 1 0 == 9 then after_digest else before_digest

abbrev moved : List ℕ
moved = 7 ∷ 1 ∷ 2 ∷ 3 ∷ 4 ∷ []

abbrev wide_patch : Patch
wide_patch = record one_patch { original = 1 ∷ 2 ∷ 3 ∷ []; replacement = 1 ∷ 9 ∷ 3 ∷ [] }

found_again : masked_candidates moved wide_patch ≡ 1 ∷ []
unfolding masked_candidates uu_remote_ubuntu_bridge.Patchlib.Locate.join_indices
    uu_remote_ubuntu_bridge.Patchlib.Locate.indices
    uu_remote_ubuntu_bridge.Patchlib.Locate.search_anchors uu_remote_ubuntu_bridge.Python.Bytes.find
    uu_remote_ubuntu_bridge.Python.Bytes.begins_with
    uu_remote_ubuntu_bridge.Patchlib.Locate.candidate_at
found_again = refl

masked_candidates_iff_example :
    (listed 1 (masked_candidates moved wide_patch) ≡ true) ↔ Candidate moved wide_patch 1
masked_candidates_iff_example = masked_candidates_iff moved wide_patch 1

all_occurrences_iff_example :
    (listed 1 (all_occurrences (5 ∷ 5 ∷ 5 ∷ []) (5 ∷ 5 ∷ [])) ≡ true)
    ↔ OccursAt (5 ∷ 5 ∷ []) (5 ∷ 5 ∷ 5 ∷ []) 1
all_occurrences_iff_example = all_occurrences_iff (5 ∷ 5 ∷ 5 ∷ []) (5 ∷ 5 ∷ []) 1

overlapping : all_occurrences (5 ∷ 5 ∷ 5 ∷ []) (5 ∷ 5 ∷ []) ≡ 0 ∷ 1 ∷ []
unfolding all_occurrences uu_remote_ubuntu_bridge.Python.Bytes.Occurrences.occurrences_from
    uu_remote_ubuntu_bridge.Python.Bytes.find uu_remote_ubuntu_bridge.Python.Bytes.begins_with
overlapping = refl

proposed_replacement-Candidate_example : proposed_replacement moved 1 wide_patch ≡ 1 ∷ 9 ∷ 3 ∷ []
unfolding masked_candidates uu_remote_ubuntu_bridge.Patchlib.Locate.join_indices
    uu_remote_ubuntu_bridge.Patchlib.Locate.indices
    uu_remote_ubuntu_bridge.Patchlib.Locate.search_anchors uu_remote_ubuntu_bridge.Python.Bytes.find
    uu_remote_ubuntu_bridge.Python.Bytes.begins_with
    uu_remote_ubuntu_bridge.Patchlib.Locate.candidate_at
proposed_replacement-Candidate_example =
    proposed_replacement-Candidate moved wide_patch 1 refl
      ((masked_candidates_iff moved wide_patch 1).0 refl)

-- An executable that ends with its COFF header, whose optional header has no bytes.
abbrev cut : List ℕ
cut =
    (b'M' ∷ b'Z' ∷ [])
    ++ (replicate 58 0
        ++ ((232 ∷ 0 ∷ 0 ∷ 0 ∷ [])
            ++ (replicate 168 0 ++ ((b'P' ∷ b'E' ∷ 0 ∷ 0 ∷ 0x64 ∷ 0x86 ∷ []) ++ replicate 18 0))))

cut_raises : parse_pe cut ≡ err struct_error
unfolding parse_pe uu_remote_ubuntu_bridge.Patchlib.Read.Order.bytes_eq
    uu_remote_ubuntu_bridge.Audit.Pe.little_endian uu_remote_ubuntu_bridge.Audit.Pe.read_coff
    uu_remote_ubuntu_bridge.Audit.Pe.read_optional
cut_raises = refl

parse_pe-struct_error_example :
    (pe_offset cut + 24 + optional_size cut ≤ length cut) × (length cut < pe_offset cut + 24 + 32)
parse_pe-struct_error_example = parse_pe-struct_error cut cut_raises

-- Two builds at different times.
abbrev built_at : ℕ → List ℕ
built_at time =
    (b'M' ∷ b'Z' ∷ [])
    ++ (replicate 58 0
        ++ ((64 ∷ 0 ∷ 0 ∷ 0 ∷ b'P' ∷ b'E' ∷ 0 ∷ 0 ∷ 0x64 ∷ 0x86 ∷ 0 ∷ 0 ∷ time ∷ 0 ∷ 0 ∷ 0 ∷ [])
            ++ (replicate 12 0 ++ ((0x0b ∷ 0x02 ∷ []) ++ replicate 66 0))))

normalized_bytes_iff_example : (blanked (built_at 1) 64 ≡ blanked (built_at 2) 64) ↔ (
    (length (built_at 1) ≡ length (built_at 2))
    × ((i : ℕ) → Outside 64 i → get_elem? (built_at 1) i ≡ get_elem? (built_at 2) i))
unfolding normalized_bytes uu_remote_ubuntu_bridge.Patchlib.Read.Order.bytes_eq
    uu_remote_ubuntu_bridge.Audit.Pe.little_endian
normalized_bytes_iff_example =
    normalized_bytes_iff (built_at 1) (built_at 2) (blanked (built_at 1) 64)
      (blanked (built_at 2) 64) refl refl refl

-- A draft whose only patch was reviewed.
abbrev draft_fields : Fields
draft_fields = field "schema_version" (int (pos 1)) (
    field "review_status" (str "draft") (
      field "version" (str "4.2.0") (
        field "architecture" (str "x86_64") (
          field "installer"
            (obj (
              field "filename" (str "i")
                (field "url" (str "u") (field "sha256" (str before_digest) end))))
            (field "server" (obj server) (
              field "health_monitor"
                (obj (field "filename" (str "h") (field "original_sha256" (str before_digest) end)))
                (field "audit" (obj end) end)))))))
  where
    item : Fields
    item = field "id" (str "p") (
        field "candidate_status" (str "reviewed") (
          field "original" (str "02") (
            field "replacement" (str "09") (
              field "description" (str "d")
                (field "rationale" (str "r") (field "file_offset" (str "0x1") end))))))

    server : Fields
    server = field "filename" (str "s") (
        field "original_sha256" (str before_digest)
          (field "patches" (arr (cons (obj item) nil)) end))

abbrev finalizing : FinalizeScene
finalizing = record {
  accepted = true;
  output_there = false;
  draft = some (obj draft_fields);
  draft_path = "draft.json";
  draft_name = "draft.json";
  draft_sha256 = before_digest;
  output = "release.json";
  reviewed_by = "a reviewer";
  review_note = "tested";
  now = "t";
  server = before_bytes;
}

abbrev finalized : Fields
finalized = elim (finalize_manifest sha256 finalizing) [ ok result ↦ result | err e ↦ end ]

finalizes : finalize_manifest sha256 finalizing ≡ ok finalized
unfolding finalize_manifest uu_remote_ubuntu_bridge.Python.Json.get
    uu_remote_ubuntu_bridge.Audit.Finalize.has_placeholder
    uu_remote_ubuntu_bridge.Audit.Finalize.names_placeholder
    uu_remote_ubuntu_bridge.Python.Bytes.find_from uu_remote_ubuntu_bridge.Python.Bytes.begins_with
    uu_remote_ubuntu_bridge.Audit.Finalize.reviewed_items
    uu_remote_ubuntu_bridge.Audit.Finalize.reviewed_item
    uu_remote_ubuntu_bridge.Audit.Finalize.approve uu_remote_ubuntu_bridge.Python.Json.set_field
    uu_remote_ubuntu_bridge.Patchlib.Read.manifest_from_dict
    uu_remote_ubuntu_bridge.Python.Json.is_one uu_remote_ubuntu_bridge.Patchlib.Read.checked_status
    uu_remote_ubuntu_bridge.Patchlib.Fields.string uu_remote_ubuntu_bridge.Python.Text.has_text
    uu_remote_ubuntu_bridge.Patchlib.Read.checked_patches
    uu_remote_ubuntu_bridge.Patchlib.Read.read_patches
    uu_remote_ubuntu_bridge.Patchlib.Apply.check_signature
    uu_remote_ubuntu_bridge.Patchlib.Apply.check_signatures
    uu_remote_ubuntu_bridge.Patchlib.Apply.make_patched
    uu_remote_ubuntu_bridge.Patchlib.Apply.render_patched
    uu_remote_ubuntu_bridge.Patchlib.Apply.verify_signatures
    uu_remote_ubuntu_bridge.Patchlib.Apply.write_patches
    uu_remote_ubuntu_bridge.Patchlib.Fields.Hex.hex_bytes
    uu_remote_ubuntu_bridge.Patchlib.Fields.Hex.hex_codes
    uu_remote_ubuntu_bridge.Patchlib.Fields.Hex.lower
    uu_remote_ubuntu_bridge.Patchlib.Fields.has_duplicates
    uu_remote_ubuntu_bridge.Patchlib.Fields.hex_field uu_remote_ubuntu_bridge.Patchlib.Fields.offset
    uu_remote_ubuntu_bridge.Patchlib.Fields.sha256_field
    uu_remote_ubuntu_bridge.Patchlib.Fields.string_list
    uu_remote_ubuntu_bridge.Patchlib.Read.Order.bytes_eq
    uu_remote_ubuntu_bridge.Patchlib.Read.Order.sort_patches
    uu_remote_ubuntu_bridge.Patchlib.Read.allowed_status
    uu_remote_ubuntu_bridge.Patchlib.Read.check_overlap
    uu_remote_ubuntu_bridge.Patchlib.Read.checked_digests
    uu_remote_ubuntu_bridge.Patchlib.Read.read_patch uu_remote_ubuntu_bridge.Python.Bytes.find
    uu_remote_ubuntu_bridge.Python.Bytes.splice uu_remote_ubuntu_bridge.Python.Integer.int_base0
    uu_remote_ubuntu_bridge.Python.Json.find_field uu_remote_ubuntu_bridge.Python.Json.json_eq
    uu_remote_ubuntu_bridge.Python.Json.pop_field uu_remote_ubuntu_bridge.Python.Text.all_chars
    uu_remote_ubuntu_bridge.Python.Text.is_empty uu_remote_ubuntu_bridge.Python.Text.is_sha256
    uu_remote_ubuntu_bridge.Python.Text.is_space uu_remote_ubuntu_bridge.Python.Text.member
    uu_remote_ubuntu_bridge.Python.Text.text_length
finalizes = refl

finalize_manifest-Approved_example :
    (draft server : Fields) × (patches : Items) × Reviewed finalizing draft server patches
    × (is_str (sha256 finalizing.server) (get server "original_sha256") ≡ true)
    × ((new : Fields) × (get finalized "server" ≡ obj new)
        × (get new "patches" ≡ arr (stripped patches)))
    × Applicable sha256 finalizing finalized
finalize_manifest-Approved_example =
    finalize_manifest-Approved sha256 finalizing finalized finalizes

-- An executable of the next release, without sections.
abbrev next_release : List ℕ
next_release =
    (b'M' ∷ b'Z' ∷ [])
    ++ (replicate 58 0
        ++ ((128 ∷ 0 ∷ 0 ∷ 0 ∷ [])
            ++ (replicate 64 0
                ++ ((b'P' ∷ b'E' ∷ 0 ∷ 0 ∷ 0x64 ∷ 0x86 ∷ [])
                    ++ (replicate 14 0
                        ++ ((32 ∷ 0 ∷ 0 ∷ 0 ∷ 0x0b ∷ 0x02 ∷ []) ++ replicate 102 0))))))

abbrev inspecting : InspectScene
inspecting = record {
  version = "4.2.0";
  server_there = true;
  server_name = "s";
  installer = none;
  healthd = none;
  baseline_path = "release.json";
  baseline = some (obj release_fields);
  output_taken = false;
  now = "t";
}

abbrev no_encoding : String → List ℕ
no_encoding text = 1 ∷ []

abbrev no_report : AuditReport
no_report = record {
  pe = record { image_base = 0; timestamp = 0; sections = [] };
  patches = [];
  landmarks = [];
  draft = end;
}

abbrev report : AuditReport
report = elim (inspect_release sha256 no_encoding inspecting next_release) [
  | ok r ↦ r
  | err e ↦ no_report
]

inspects : inspect_release sha256 no_encoding inspecting next_release ≡ ok report
unfolding inspect_release uu_remote_ubuntu_bridge.Patchlib.Read.load_manifest
    uu_remote_ubuntu_bridge.Patchlib.Read.manifest_from_dict
    uu_remote_ubuntu_bridge.Python.Json.is_one uu_remote_ubuntu_bridge.Python.Json.get
    uu_remote_ubuntu_bridge.Patchlib.Read.checked_status
    uu_remote_ubuntu_bridge.Patchlib.Fields.string uu_remote_ubuntu_bridge.Python.Text.has_text
    uu_remote_ubuntu_bridge.Patchlib.Read.allowed_status
    uu_remote_ubuntu_bridge.Patchlib.Read.checked_patches
    uu_remote_ubuntu_bridge.Patchlib.Read.read_patches
    uu_remote_ubuntu_bridge.Patchlib.Read.read_patch uu_remote_ubuntu_bridge.Python.Text.member
    uu_remote_ubuntu_bridge.Patchlib.Fields.hex_field uu_remote_ubuntu_bridge.Python.Text.is_empty
    uu_remote_ubuntu_bridge.Patchlib.Fields.Hex.hex_bytes
    uu_remote_ubuntu_bridge.Patchlib.Read.Order.bytes_eq
    uu_remote_ubuntu_bridge.Audit.Draft.draft_of
    uu_remote_ubuntu_bridge.Audit.Draft.landmark_evidence
    uu_remote_ubuntu_bridge.Audit.Draft.patch_evidence all_occurrences proposed_replacement
    uu_remote_ubuntu_bridge.Audit.Evidence.write_ranges
    uu_remote_ubuntu_bridge.Audit.Pe.file_offset_to_va
    uu_remote_ubuntu_bridge.Audit.Pe.little_endian parse_pe
    uu_remote_ubuntu_bridge.Audit.Pe.read_coff uu_remote_ubuntu_bridge.Audit.Pe.read_optional
    uu_remote_ubuntu_bridge.Audit.Pe.read_sections
    uu_remote_ubuntu_bridge.Patchlib.Fields.Hex.hex_codes
    uu_remote_ubuntu_bridge.Patchlib.Fields.Hex.lower
    uu_remote_ubuntu_bridge.Patchlib.Fields.has_duplicates
    uu_remote_ubuntu_bridge.Patchlib.Fields.offset
    uu_remote_ubuntu_bridge.Patchlib.Fields.sha256_field
    uu_remote_ubuntu_bridge.Patchlib.Fields.string_list
    uu_remote_ubuntu_bridge.Patchlib.Locate.candidate_at
    uu_remote_ubuntu_bridge.Patchlib.Locate.candidates_by
    uu_remote_ubuntu_bridge.Patchlib.Locate.changed_byte_ranges
    uu_remote_ubuntu_bridge.Patchlib.Locate.contains
    uu_remote_ubuntu_bridge.Patchlib.Locate.fixed_match
    uu_remote_ubuntu_bridge.Patchlib.Locate.indices
    uu_remote_ubuntu_bridge.Patchlib.Locate.join_index
    uu_remote_ubuntu_bridge.Patchlib.Locate.join_indices
    uu_remote_ubuntu_bridge.Patchlib.Locate.longest masked_candidates
    uu_remote_ubuntu_bridge.Patchlib.Locate.search_anchors
    uu_remote_ubuntu_bridge.Patchlib.Locate.unique
    uu_remote_ubuntu_bridge.Patchlib.Read.Order.sort_patches
    uu_remote_ubuntu_bridge.Patchlib.Read.check_overlap
    uu_remote_ubuntu_bridge.Patchlib.Read.checked_digests
    uu_remote_ubuntu_bridge.Python.Bytes.Occurrences.occurrences_from
    uu_remote_ubuntu_bridge.Python.Bytes.begins_with uu_remote_ubuntu_bridge.Python.Bytes.find
    uu_remote_ubuntu_bridge.Python.Bytes.find_from uu_remote_ubuntu_bridge.Python.Bytes.splice
    uu_remote_ubuntu_bridge.Python.Format.bytes_hex uu_remote_ubuntu_bridge.Python.Format.hex_digits
    uu_remote_ubuntu_bridge.Python.Format.hex_text uu_remote_ubuntu_bridge.Python.Integer.int_base0
    uu_remote_ubuntu_bridge.Python.Json.find_field uu_remote_ubuntu_bridge.Python.Json.json_eq
    uu_remote_ubuntu_bridge.Python.Text.all_chars uu_remote_ubuntu_bridge.Python.Text.is_sha256
    uu_remote_ubuntu_bridge.Python.Text.is_space uu_remote_ubuntu_bridge.Python.Text.text_length
inspects = refl

inspect_release-unreviewed_example :
    finalize_manifest sha256 (record finalizing { draft = some (obj report.draft) }) ≢ ok finalized
inspect_release-unreviewed_example =
    inspect_release-unreviewed sha256 no_encoding inspecting next_release report
      (record finalizing { draft = some (obj report.draft) }) finalized inspects refl
