-- ===== src/Updater/Staging.antt =====
-- scripts/uu_update_manager.py: `refresh_operator_staging`. `sha256` is the hash of a file, and
-- `other_text` stands for Python's `str` of a JSON value that is no text. The result is what the task's
-- details are given, if anything.
use Prim.Native.String.{[], ◌∷◌}
use Prim.Native.Char.{code}
use uu_remote_ubuntu_bridge.Prelude.{
  ℕ, ◌≡◌, String, Bool, true, false, ◌&&◌, ◌||◌, Option, none, some, List, Result, ok, ◌>>=◌, ◌>>◌,
  require, or_raise, ◌==◌, str_eq, if◌then◌else◌, >>=-eq-ok, require-eq-ok, or_raise-eq-ok,
}
use uu_remote_ubuntu_bridge.Python.Text.{is_sha256}
use uu_remote_ubuntu_bridge.Python.Json.{text_of, Json, Fields, find_field}

pub data StagingError : Type 0 where
  incomplete not_validated : StagingError

-- The kind of the task, its observed release, and the files of its stage: the lines of SHA256 and the two
-- executables.
pub record StageScene : Type 0 where
  pub is_upstream : Bool
  pub observed : Fields
  pub stage_there : Bool
  pub lines : Option (List String)
  pub server : Option (List ℕ)
  pub healthd : Option (List ℕ)

-- The two hashes of `task["details"]["staging"]`, whose other fields are constants. Those of the record
-- are taken, which have been compared with the hashes of the files.
pub record Staging : Type 0 where
  pub server_sha256 : String
  pub healthd_sha256 : String

-- `line.split("=", 1)`, if there is a "=".
unfoldable pub key_value : String → Option (String × String)
key_value [] = none
key_value (c ∷ s) = if code c == 61 then some ("", s) else longer (key_value s)
  where
    longer : Option (String × String) → Option (String × String)
    longer none = none
    longer (some (key, value)) = some (c ∷ key, value)

abbrev value_for : String → Option (String × String) → Option String
value_for name none = none
value_for name (some (key, value)) = if str_eq key name then some value else none

abbrev or_earlier : Option String → Option String → Option String
or_earlier none earlier = earlier
or_earlier (some v) earlier = some v

-- `dict(...).get(name)`: the last line of a key counts.
unfoldable pub record_get : String → List String → Option String
record_get name List.[] = none
record_get name (List.◌∷◌ line lines) =
    or_earlier (record_get name lines) (value_for name (key_value line))

abbrev pub is_value : String → Option String → Bool
is_value s none = false
is_value s (some t) = str_eq t s

abbrev pub is_method : Option String → Bool
is_method method = is_value "bubblewrap-sandbox" method || is_value "systemd-sandbox" method

module _ (sha256 : List ℕ → String) (other_text : Json → String) where
  abbrev pub expected_installer : StageScene → String
  expected_installer o = text_of other_text (find_field "installer_sha256" o.observed)

  -- From the reading of the record on.
  unfoldable pub validated :
      StageScene → List String → List ℕ → List ℕ → Result StagingError (Option Staging)
  validated o lines server healthd = do
    require (is_method (record_get "staging_method" lines)) not_validated
    require (is_sha256 (expected_installer o)) not_validated
    require (is_value (expected_installer o) (record_get "installer_sha256" lines)) not_validated
    require (is_value (sha256 server) (record_get "server_sha256" lines)) not_validated
    require (is_value (sha256 healthd) (record_get "healthd_sha256" lines)) not_validated
    ok (some (record { server_sha256 = sha256 server; healthd_sha256 = sha256 healthd }))

  abbrev pub staged : StageScene → Result StagingError (Option Staging)
  staged o = do
    lines ← or_raise o.lines incomplete
    server ← or_raise o.server incomplete
    healthd ← or_raise o.healthd incomplete
    validated o lines server healthd

  -- `refresh_operator_staging`
  unfoldable pub refresh_operator_staging : StageScene → Result StagingError (Option Staging)
  refresh_operator_staging o = if o.is_upstream && o.stage_there then staged o else ok none

  -- What was checked of a stage whose hashes the task is given.
  record Validated (o : StageScene) (staging : Staging) : Type 0 where
    lines : List String
    server : List ℕ
    healthd : List ℕ
    lines_eq : o.lines ≡ some lines
    server_eq : o.server ≡ some server
    healthd_eq : o.healthd ≡ some healthd
    sandboxed : is_method (record_get "staging_method" lines) ≡ true
    expected : is_sha256 (expected_installer o) ≡ true
    installer : is_value (expected_installer o) (record_get "installer_sha256" lines) ≡ true
    server_hash : staging.server_sha256 ≡ sha256 server
    healthd_hash : staging.healthd_sha256 ≡ sha256 healthd

  -- A task is given the hashes of a stage only if the record names one of the two sandboxes and the
  -- observed installer, whose hash is one, and the hashes are those of the two executables.
  staged-Validated :
      (o : StageScene) (staging : Staging) → staged o ≡ ok (some staging) → Validated o staging
  unfolding validated
  staged-Validated o staging h =
      let (lines, a, h₁) = >>=-eq-ok (or_raise o.lines _) _ h in
      let (server, b, h₂) = >>=-eq-ok (or_raise o.server _) _ h₁ in
      let (healthd, c, h₃) = >>=-eq-ok (or_raise o.healthd _) _ h₂ in
      let (d, h₄) = require-eq-ok (is_method (record_get "staging_method" lines)) _ _ h₃ in
      let (e, h₅) = require-eq-ok (is_sha256 (expected_installer o)) _ _ h₄ in
      let (f, h₆) =
        require-eq-ok (is_value (expected_installer o) (record_get "installer_sha256" lines)) _ _
          h₅ in
      let (g, h₇) =
        require-eq-ok (is_value (sha256 server) (record_get "server_sha256" lines)) _ _ h₆ in
      let (k, h₈) =
        require-eq-ok (is_value (sha256 healthd) (record_get "healthd_sha256" lines)) _ _ h₇ in
      record {
        lines = lines;
        server = server;
        healthd = healthd;
        lines_eq = or_raise-eq-ok o.lines _ a;
        server_eq = or_raise-eq-ok o.server _ b;
        healthd_eq = or_raise-eq-ok o.healthd _ c;
        sandboxed = d;
        expected = e;
        installer = f;
        server_hash = cc;
        healthd_hash = cc;
      }
