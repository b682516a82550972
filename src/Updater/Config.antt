-- ===== src/Updater/Config.antt =====
-- scripts/uu_update_manager.py: `Config.read`. `other_text` and `other_int` stand for Python's `str` and
-- `int` of a JSON value that is no text and no integer; what the file system says is a record.
pub mod Bounds
use uu_remote_ubuntu_bridge.Prelude.{
  ℕ, ◌*◌, String, Bool, true, false, ◌&&◌, ◌||◌, not, if◌then◌else◌, Option, none, some, Result, ok,
  err, ◌>>=◌, ◌>>◌, require, refuse, or_raise, leb, max,
}
use uu_remote_ubuntu_bridge.Prelude.Int.{ℤ, pos, negsuc}
use uu_remote_ubuntu_bridge.Python.Text.{strip, is_empty}
use uu_remote_ubuntu_bridge.Python.Path.{is_absolute}
use uu_remote_ubuntu_bridge.Python.Json.{Json, bool, int, str, Fields, get, find_field, is_one}

pub data ConfigError : Type 0 where
  unreadable unsupported no_repository no_model no_codex : ConfigError
  not_a_number bad_percent bad_flags : ConfigError

pub record Config : Type 0 where
  pub repository : String
  pub state_dir : String
  pub remote : String
  pub branch : String
  pub track : String
  pub endpoint : String
  pub codex_executable : String
  pub codex_model : String
  pub codex_reasoning_effort : String
  pub codex_timeout_seconds : ℕ
  pub codex_max_used_percent : ℕ
  pub idle_minutes : ℕ
  pub auto_reinstall_known_good : Bool
  pub auto_promote_accepted_release : Bool
  pub max_download_bytes : ℕ

pub record Chosen : Type 0 where
  pub repository : String
  pub model : String
  pub effort : String
  pub executable : String

pub record Limits : Type 0 where
  pub max_used_percent : ℕ
  pub reinstall : Bool
  pub promote : Bool
  pub timeout_seconds : ℕ
  pub idle_minutes : ℕ
  pub max_download_bytes : ℕ

-- `load_json`, the default state directory, whether a repository stands at a path, whether a path is an
-- executable file, and `expanduser` of a path and `resolve` of what it gives.
pub record ConfigScene : Type 0 where
  pub raw : Option Fields
  pub state_default : String
  pub has_git : String → Bool
  pub is_executable : String → Bool
  pub expanduser : String → String
  pub resolve : String → String

abbrev pub default_endpoint : String
default_endpoint = "https://api.nrd.nie.163.com/api/v1/release/dl/1?channel=gwqd"

-- `max(least, n)`
abbrev pub at_least : ℕ → ℤ → ℕ
at_least least (pos n) = max least n
at_least least (negsuc n) = least

-- `0 <= n <= 100`
abbrev pub percent : ℤ → Result ConfigError ℕ
percent (pos n) = if leb n 100 then ok n else err bad_percent
percent (negsuc n) = err bad_percent

abbrev pub flag : Option Json → Result ConfigError Bool
flag none = ok false
flag (some (bool b)) = ok b
flag (some v) = err bad_flags

module _ (other_text : Json → String) (other_int : Json → Option ℤ) where
  -- `str(raw.get(key, default))`
  abbrev pub text_at : Fields → String → String → String
  text_at raw key default = text_of (find_field key raw)
    where
      text_of : Option Json → String
      text_of none = default
      text_of (some (str s)) = s
      text_of (some v) = other_text v

  -- `int(raw.get(key, default))`
  abbrev pub int_at : Fields → String → ℕ → Result ConfigError ℤ
  int_at raw key default = int_of (find_field key raw)
    where
      int_of : Option Json → Result ConfigError ℤ
      int_of none = ok (pos default)
      int_of (some (int n)) = ok n
      int_of (some v) = or_raise (other_int v) not_a_number

  -- The repository, the model, its effort and the executable that `Config.read` takes from the file.
  unfoldable pub read_chosen : ConfigScene → Fields → Result ConfigError Chosen
  read_chosen o raw = do
    let repository = o.resolve (o.expanduser (text_at raw "repository" ""))
    require (o.has_git repository) no_repository
    let model = strip (text_at raw "codex_model" "")
    let effort = strip (text_at raw "codex_reasoning_effort" "")
    refuse (is_empty model || is_empty effort) no_model
    let codex = strip (text_at raw "codex_executable" "")
    let executable = o.expanduser codex
    refuse (is_empty codex || not (is_absolute executable) || not (o.is_executable executable))
        no_codex
    ok (record { repository = repository; model = model; effort = effort; executable = executable })

  -- The flags and the numbers that `Config.read` takes from the file after them.
  unfoldable pub read_limits : Fields → Result ConfigError Limits
  read_limits raw = do
    given ← int_at raw "codex_max_used_percent" 20
    max_used ← percent given
    reinstall ← flag (find_field "auto_reinstall_known_good" raw)
    promote ← flag (find_field "auto_promote_accepted_release" raw)
    timeout ← int_at raw "codex_timeout_seconds" 5400
    idle ← int_at raw "idle_minutes" 45
    bytes ← int_at raw "max_download_bytes" (1024 * 1024 * 1024)
    ok (record {
      max_used_percent = max_used;
      reinstall = reinstall;
      promote = promote;
      timeout_seconds = at_least 300 timeout;
      idle_minutes = at_least 5 idle;
      max_download_bytes = at_least (1024 * 1024) bytes;
    })

  -- `Config.read`
  unfoldable pub read_config : ConfigScene → Result ConfigError Config
  read_config o = do
    raw ← or_raise o.raw unreadable
    require (is_one (get raw "schema_version")) unsupported
    chosen ← read_chosen o raw
    limits ← read_limits raw
    ok (record {
      repository = chosen.repository;
      state_dir = o.resolve (o.expanduser (text_at raw "state_dir" o.state_default));
      remote = text_at raw "remote" "origin";
      branch = text_at raw "branch" "main";
      track = text_at raw "track" "track-rdp-broker-20260724";
      endpoint = text_at raw "endpoint" default_endpoint;
      codex_executable = chosen.executable;
      codex_model = chosen.model;
      codex_reasoning_effort = chosen.effort;
      codex_timeout_seconds = limits.timeout_seconds;
      codex_max_used_percent = limits.max_used_percent;
      idle_minutes = limits.idle_minutes;
      auto_reinstall_known_good = limits.reinstall;
      auto_promote_accepted_release = limits.promote;
      max_download_bytes = limits.max_download_bytes;
    })
