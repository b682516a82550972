-- ===== src/Updater/Releases.antt =====
-- scripts/uu_update_manager.py: `approved_releases`. A manifest of the pinned commit comes with its
-- path, the JSON value that it parses to, the hash of its text, and whether git finds the evidence that
-- it names. `to_str` stands for Python's `str` of a JSON value.
use uu_remote_ubuntu_bridge.Prelude.{
  ℕ, String, Bool, false, Option, none, some, List, [], ◌∷◌, Result, ok, err, if◌then◌else◌,
}
use uu_remote_ubuntu_bridge.Python.Json.{Json, Fields, find_field, get, as_obj, as_str}
use uu_remote_ubuntu_bridge.Promotion.Acceptance.{Refusal, promotion_acceptance}
use uu_remote_ubuntu_bridge.Updater.Tasks.{says}
use uu_remote_ubuntu_bridge.Updater.Version.{version_key, key_lt}

pub record Listed : Type 0 where
  pub path : String
  pub json : Option Json
  pub sha256 : String
  pub evidence_there : Bool

pub record Release : Type 0 where
  pub version : String
  pub key : List ℕ
  pub installer_sha256 : String
  pub manifest_path : String
  pub manifest_sha256 : String
  pub source_commit : String
  pub eligible : Bool

-- `acceptance["eligible"]`, after the evidence has been looked up.
accepted : Result Refusal (ℕ × String) → Bool → Bool
accepted (ok r) there = there
accepted (err e) there = false

-- `sorted(releases, key=...)`
insert_release : Release → List Release → List Release
insert_release r [] = r ∷ []
insert_release r (q ∷ qs) = if key_lt q.key r.key then q ∷ insert_release r qs else r ∷ (q ∷ qs)

unfoldable pub sort_releases : List Release → List Release
unfolding insert_release
sort_releases [] = []
sort_releases (r ∷ rs) = insert_release r (sort_releases rs)

module _ (to_str : Json → String) (source_commit : String) where
  release_of : Listed → Fields → Option Json → Option Json → Option Release
  unfolding accepted
  release_of m raw none sha256 = none
  release_of m raw (some version) none = none
  release_of m raw (some version) (some sha256) = elim (version_key (to_str version)) [
    | none ↦ none
    | some key ↦ some (record {
      version = to_str version;
      key = key;
      installer_sha256 = to_str sha256;
      manifest_path = m.path;
      manifest_sha256 = m.sha256;
      source_commit = source_commit;
      eligible = accepted (promotion_acceptance raw) m.evidence_there;
    })
  ]

  with_installer : Listed → Fields → Option Fields → Option Release
  unfolding release_of
  with_installer m raw none = none
  with_installer m raw (some installer) =
      release_of m raw (find_field "version" raw) (find_field "sha256" installer)

  with_fields : Listed → Option Fields → Option Release
  unfolding with_installer
  with_fields m none = none
  with_fields m (some raw) =
      if says "approved" (as_str (get raw "review_status"))
      then with_installer m raw (as_obj (get raw "installer"))
      else none

  -- The body of the loop; `none` where it goes on with the next manifest.
  unfoldable pub read_release : Listed → Option Release
  unfolding with_fields
  read_release m = elim m.json [ none ↦ none | some value ↦ with_fields m (as_obj value) ]

  unfoldable pub read_releases : List Listed → List Release
  read_releases [] = []
  read_releases (m ∷ ms) = elim (read_release m) [
    | none ↦ read_releases ms
    | some r ↦ r ∷ read_releases ms
  ]

  -- `approved_releases`
  unfoldable pub approved_releases : List Listed → List Release
  approved_releases ms = sort_releases (read_releases ms)
