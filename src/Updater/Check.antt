-- ===== src/Updater/Check.antt =====
-- scripts/uu_update_manager.py: `check`, which compares the official release with the approved ones and
-- queues a promotion or a repair.
pub mod Steps
pub mod Gate
use uu_remote_ubuntu_bridge.Prelude.{
  ℕ, String, Bool, true, false, ◌&&◌, ◌||◌, not, Option, none, some, List, [], ◌∷◌, Result, ok, err,
  str_eq, if◌then◌else◌, ◌<>◌,
}
use uu_remote_ubuntu_bridge.Python.Json.{Json}
use uu_remote_ubuntu_bridge.Updater.Tasks
use uu_remote_ubuntu_bridge.Updater.Tasks.{
  Phase, checking, checked, current, approved_release_detected, accepted_release_ready,
  repair_queued, Task, TaskId, upstream_release, Observed, Store, UpdateError, Action, ◌>>=◌, ◌>>◌,
  give, raise, check_that, write_phase, write_pending, write_status, write_observed, terminal,
}
use uu_remote_ubuntu_bridge.Updater.Version.{version_key, key_lt, key_eq}
use uu_remote_ubuntu_bridge.Updater.Releases.{Listed, Release, approved_releases}
use uu_remote_ubuntu_bridge.Updater.Queue.{Checkout, Pinned, first, queue_task, queue_promotion}

-- What git, the installed manifest, the endpoint and the download cache say. `cached` is the hash that
-- `cached_download` returns, `downloaded` that of the file that `download_release` makes.
pub record CheckScene : Type 0 where
  pub to_str : Json → String
  pub auto_promote : Bool
  pub fetch_ok : Bool
  pub source_commit : String
  pub listing : Option (List Listed)
  pub installed_version : String
  pub probe : Option Observed
  pub cached : Option String
  pub downloaded : Option String
  pub pinned : Pinned
  pub checkout : Checkout

-- What is there, or the error.
abbrev pub need : {A : Type 0} → UpdateError → Option A → Action A
need e none = raise e
need e (some a) = give a

-- `approved[-1]`
unfoldable pub last_release : List Release → Option Release
last_release [] = none
last_release (r ∷ rs) = elim (last_release rs) [ none ↦ some r | some q ↦ some q ]

-- `installed_key is not None and installed_key >= key`
abbrev pub at_least : Option (List ℕ) → List ℕ → Bool
at_least none key = false
at_least (some k) key = not (key_lt k key)

abbrev holds_hash : Option String → String → Bool
holds_hash none hash = false
holds_hash (some h) hash = str_eq h hash

-- The metadata are those of the last check, whose full hash is the approved one.
abbrev pub unchanged : Option Observed → Observed → Release → Bool
unchanged none seen r = false
unchanged (some p) seen r =
    str_eq p.etag seen.etag
    && str_eq p.last_modified seen.last_modified
    && str_eq p.content_length seen.content_length
    && holds_hash p.installer_sha256 r.installer_sha256

abbrev pub with_hash : Observed → String → Observed
with_hash seen hash = record seen { installer_sha256 = some hash }

-- The first release that has the hash and the version.
unfoldable pub matching : List Release → String → List ℕ → Option Release
matching [] hash key = none
matching (r ∷ rs) hash key =
    if str_eq r.installer_sha256 hash && key_eq r.key key then some r else matching rs hash key

abbrev pub candidate_id : Observed → String → TaskId
candidate_id seen hash = record {
  kind = upstream_release;
  identity = seen.version <> "-" <> first 12 hash;
}

known_candidate : CheckScene → TaskId → Option Task → Observed → Action (Unit {0})
unfolding write_pending write_observed
known_candidate o id none seen = queue_task o.checkout id
known_candidate o id (some t) seen =
    if terminal t.phase
    then (do write_observed t.phase seen; write_status t.phase id)
    else (do write_pending t; write_observed repair_queued seen; write_status repair_queued id)

-- A release that nobody approved becomes a repair task.
unknown_candidate : CheckScene → Observed → String → Action (Unit {0})
unfolding known_candidate
unknown_candidate o seen hash s =
    known_candidate o (candidate_id seen hash) (s.tasks (candidate_id seen hash)) seen s

-- The branches for a release that is approved.
known_release : CheckScene → Observed → Release → Action (Unit {0})
unfolding write_observed
known_release o seen r =
    if at_least (version_key o.installed_version) r.key
    then write_observed current seen
    else if not r.eligible
    then write_observed approved_release_detected seen
    else if not o.auto_promote
    then write_observed accepted_release_ready seen
    else queue_promotion o.pinned r seen

by_match : CheckScene → Observed → String → Option Release → Action (Unit {0})
unfolding known_release unknown_candidate
by_match o seen hash (some r) = known_release o seen r
by_match o seen hash none = unknown_candidate o seen hash

fetch_from : Option String → Option String → Action String
fetch_from (some hash) downloaded = give hash
fetch_from none downloaded = need Tasks.download_failed downloaded

fetched : CheckScene → Action String
unfolding fetch_from
fetched o = fetch_from o.cached o.downloaded

-- From the comparison of the observed version on.
decide :
    CheckScene → Option Observed → List Release → Release → Observed → List ℕ → Action (Unit {0})
unfolding fetched by_match write_observed
decide o previous approved latest seen key =
    if key_lt key latest.key
    then write_observed current seen
    else if key_eq key latest.key
        && at_least (version_key o.installed_version) latest.key
        && unchanged previous seen latest
    then write_observed current (with_hash seen latest.installer_sha256)
    else (do hash ← fetched o; by_match o (with_hash seen hash) hash (matching approved hash key))

check_from : CheckScene → Option Observed → Action (Unit {0})
unfolding decide write_phase write_observed
check_from o previous = do
  write_phase checking
  check_that o.fetch_ok Tasks.fetch_failed
  listing ← need Tasks.repository_unreadable o.listing
  latest ←
      need Tasks.no_approved_release
        (last_release (approved_releases o.to_str o.source_commit listing))
  seen ← need Tasks.probe_failed o.probe
  write_observed checked seen
  key ← need Tasks.unsupported_version (version_key seen.version)
  decide o previous (approved_releases o.to_str o.source_commit listing) latest seen key

-- `check`
unfoldable pub check : CheckScene → Action (Unit {0})
unfolding check_from
check o s = check_from o s.observed_release s
