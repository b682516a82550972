-- ===== src/Tests/Machines.antt =====
-- A small configuration and a download of three bytes, through
-- scripts/uu_update_manager.py.
use uu_remote_ubuntu_bridge.Prelude.{
  ℕ, ◌≡◌, ◌↔◌, refl, String, true, false, Option, none, some, List, [], ◌∷◌, ok, err, str_eq,
  if◌then◌else◌,
}
use uu_remote_ubuntu_bridge.Prelude.Int.{ℤ, pos}
use uu_remote_ubuntu_bridge.Python.Text.{is_sha256, member}
use uu_remote_ubuntu_bridge.Python.Path.{is_absolute}
use uu_remote_ubuntu_bridge.Python.Json.{Json, Fields, int, str, end, field}
use uu_remote_ubuntu_bridge.Updater.Config.{Config, ConfigScene, read_config, default_endpoint}
use uu_remote_ubuntu_bridge.Updater.Config.Bounds.{InBounds, read_config-InBounds}
use uu_remote_ubuntu_bridge.Updater.Download
use uu_remote_ubuntu_bridge.Updater.Download.{
  finish, block, Response, Downloads, DownloadError, Metadata, download_release, record_download,
  fetch,
}
use uu_remote_ubuntu_bridge.Updater.Download.Whole.{Fits, download_release-Fits}
use uu_remote_ubuntu_bridge.Updater.Download.Cached.{fetch-fetch}

abbrev no_text : Json → String
no_text v = ""

abbrev no_int : Json → Option ℤ
no_int v = none

abbrev config_scene : ConfigScene
config_scene = record {
  raw = some (
      field "schema_version" (int (pos 1)) (
        field "repository" (str "~/uu") (
          field "codex_model" (str "m") (
            field "codex_reasoning_effort" (str "high") (
              field "codex_executable" (str "/bin/codex")
                (field "idle_minutes" (int (pos 1)) end))))));
  state_default = "/home/u/.local/state/uu-remote-updater";
  has_git = str_eq "/home/u/uu";
  is_executable = str_eq "/bin/codex";
  expanduser = λ p. if str_eq p "~/uu" then "/home/u/uu" else p;
  resolve = λ p. p;
}

abbrev config : Config
config = record {
  repository = "/home/u/uu";
  state_dir = "/home/u/.local/state/uu-remote-updater";
  remote = "origin";
  branch = "main";
  track = "track-rdp-broker-20260724";
  endpoint = default_endpoint;
  codex_executable = "/bin/codex";
  codex_model = "m";
  codex_reasoning_effort = "high";
  codex_timeout_seconds = 5400;
  codex_max_used_percent = 20;
  idle_minutes = 5;
  auto_reinstall_known_good = false;
  auto_promote_accepted_release = false;
  max_download_bytes = 1073741824;
}

config_read : read_config no_text no_int config_scene ≡ ok config
unfolding read_config uu_remote_ubuntu_bridge.Python.Json.is_one
    uu_remote_ubuntu_bridge.Python.Json.get uu_remote_ubuntu_bridge.Updater.Config.read_chosen
    uu_remote_ubuntu_bridge.Python.Text.is_empty uu_remote_ubuntu_bridge.Python.Text.strip
    uu_remote_ubuntu_bridge.Python.Text.is_space is_absolute
    uu_remote_ubuntu_bridge.Updater.Config.read_limits
config_read = refl

read_config-InBounds_example : InBounds config_scene config
read_config-InBounds_example = read_config-InBounds no_text no_int config_scene config config_read

abbrev response : Response
response = record { declared = some 3; stream = block 1 (2 ∷ []) (block 3 [] finish) }

abbrev no_downloads : Downloads
no_downloads = record { installer = none; part = some (9 ∷ []); sidecar = none }

download_release-Fits_example :
    let after = download_release 3 (some response) no_downloads in
    ((bytes : List ℕ)
      → (after.0 ≡ ok bytes ↔ Fits 3 response bytes)
        × (after.0 ≡ ok bytes
            → after.1 ≡ record no_downloads { installer = some bytes; part = none }))
    × ((e : DownloadError) → after.0 ≡ err e → after.1 ≡ record no_downloads { part = none })
download_release-Fits_example = download_release-Fits 3 response no_downloads

abbrev metadata : Metadata
metadata = record { version = "4.1.0"; etag = "e"; last_modified = "d"; content_length = 3 }

-- A hash function with one value.
abbrev digest : List ℕ → String
digest bytes = "0123456789abcdef0123456789abcdef0123456789abcdef0123456789abcdef"

abbrev hash : String
hash = digest []

abbrev fetched : Downloads
fetched =
    record_download metadata "uu-4.1.0.exe" "now" hash
      (record { installer = some (1 ∷ 2 ∷ 3 ∷ []); part = none; sidecar = none })

digest-is_sha256 : (bytes : List ℕ) → is_sha256 (digest bytes) ≡ true
unfolding is_sha256
digest-is_sha256 bytes = refl

fetch-fetched :
    fetch digest no_text 3 metadata "uu-4.1.0.exe" "now" (some response) no_downloads
    ≡ (ok hash, fetched)
unfolding fetch download_release Download.read_blocks
fetch-fetched = refl

fetch-fetch_example :
    ((bytes : List ℕ) × (fetched.installer ≡ some bytes) × (digest bytes ≡ hash))
    × ((limit : ℕ) (name now : String) (response : Option Response)
        → fetch digest no_text limit metadata name now response fetched ≡ (ok hash, fetched))
unfolding record_download
fetch-fetch_example =
    fetch-fetch digest no_text 3 metadata "uu-4.1.0.exe" "now" (some response) fetched hash
      digest-is_sha256 no_downloads fetch-fetched refl
