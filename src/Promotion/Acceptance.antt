-- ===== src/Promotion/Acceptance.antt =====
-- `promotion_acceptance` of scripts/uu_update_manager.py and `validate_acceptance` of
-- scripts/promote-approved-release.py: two readings of one acceptance record, on each side of the
-- hand-over. A refusal names its reason by a constructor.
pub mod Agreement
use uu_remote_ubuntu_bridge.Prelude.{
  ℕ, String, Bool, true, false, ◌&&◌, ◌||◌, not, Option, none, some, List, [], ◌∷◌, Result, ok, err,
  ◌>>=◌, ◌>>◌, require, refuse, or_raise, leb, if◌then◌else◌,
}
use uu_remote_ubuntu_bridge.Prelude.Int.{ℤ, pos, negsuc}
use uu_remote_ubuntu_bridge.Python.Text.{has_text}
use uu_remote_ubuntu_bridge.Python.Path.{is_absolute, has_parent_part, no_parts}
use uu_remote_ubuntu_bridge.Python.Json.{
  Json, Fields, int, str, get, as_obj, as_str, is_true, is_one, json_eq,
}

pub data Refusal : Type 0 where
  no_record : Refusal
  incomplete : List String → Refusal
  stability_out_of_range : Refusal
  metadata_incomplete installer_not_bound server_not_bound : Refusal
  bad_evidence : Refusal
  missing : String → Refusal

-- `REQUIRED_PROMOTION_ACCEPTANCE_FLAGS`, and `REQUIRED_ACCEPTANCE_FLAGS` of the other file
abbrev pub required_flags : List String
required_flags =
    "disposable_prefix" ∷ "controller_input" ∷ "reconnect" ∷ "service_restart"
    ∷ "login_preservation" ∷ []

-- `MINIMUM_PROMOTION_STABILITY_SECONDS`, `MAXIMUM_PROMOTION_STABILITY_SECONDS`
abbrev pub minimum_stability : ℕ
minimum_stability = 270

abbrev pub maximum_stability : ℕ
maximum_stability = 1800

-- The flags that are not True.
unfoldable pub missing_flags : Fields → List String → List String
missing_flags acceptance [] = []
missing_flags acceptance (name ∷ names) =
    let rest = missing_flags acceptance names in
    if is_true (get acceptance name) then rest else name ∷ rest

complete : List String → Result Refusal (Unit {0})
complete [] = ok tt
complete (name ∷ names) = err (incomplete (name ∷ names))

-- The record, of schema 1.
abbrev versioned : Fields → Result Refusal Fields
versioned raw = do
  acceptance ← or_raise (as_obj (get raw "acceptance")) no_record
  require (is_one (get acceptance "schema_version")) no_record
  ok acceptance

-- The stability test.
abbrev stable : Json → Result Refusal ℕ
stable (int (pos n)) =
    if leb minimum_stability n && leb n maximum_stability then ok n else err stability_out_of_range
stable _ = err stability_out_of_range

-- `isinstance(value, str) and value.strip()`
abbrev written : Json → Refusal → Result Refusal String
written (str s) e = if has_text s then ok s else err e
written _ e = err e

-- The two hashes to which the record is bound.
bound : Fields → Fields → Result Refusal (Unit {0})
bound raw acceptance = do
  installer ← or_raise (as_obj (get raw "installer")) metadata_incomplete
  server ← or_raise (as_obj (get raw "server")) metadata_incomplete
  require (json_eq (get acceptance "installer_sha256") (get installer "sha256")) installer_not_bound
  require (json_eq (get acceptance "patched_server_sha256") (get server "patched_sha256"))
      server_not_bound

named : Fields → Result Refusal (Unit {0})
named acceptance = do
  at ← written (get acceptance "accepted_at") (missing "accepted_at")
  by ← written (get acceptance "accepted_by") (missing "accepted_by")
  ok tt

-- `promotion_acceptance`: the stability and the evidence of an eligible record.
unfoldable pub promotion_acceptance : Fields → Result Refusal (ℕ × String)
unfolding complete bound named
promotion_acceptance raw = do
  acceptance ← versioned raw
  complete (missing_flags acceptance required_flags)
  stability ← stable (get acceptance "stability_seconds")
  bound raw acceptance
  evidence ← written (get acceptance "evidence") bad_evidence
  refuse (is_absolute evidence || has_parent_part evidence) bad_evidence
  named acceptance
  ok (stability, evidence)

-- `relative_repository_path`
unfoldable pub relative_repository_path : String → Result Refusal String
relative_repository_path value = do
  refuse (is_absolute value || no_parts value || has_parent_part value) bad_evidence
  ok value

-- `validate_acceptance`
unfoldable pub validate_acceptance : Fields → Result Refusal Fields
unfolding complete bound named relative_repository_path
validate_acceptance raw = do
  acceptance ← versioned raw
  complete (missing_flags acceptance required_flags)
  stability ← stable (get acceptance "stability_seconds")
  evidence ← written (get acceptance "evidence") bad_evidence
  path ← relative_repository_path evidence
  named acceptance
  bound raw acceptance
  ok acceptance
