-- ===== src/Updater/Config/Bounds.antt =====
-- The bounds of a configuration that was read.
use uu_remote_ubuntu_bridge.Prelude.{
  ℕ, ◌*◌, ◌≤◌, ◌≡◌, refl, String, Bool, true, false, ◌||◌, not, Option, Result, ok, arith,
  >>=-eq-ok, require-eq-ok, refuse-eq-ok, or_raise, subst,
}
use uu_remote_ubuntu_bridge.Prelude.Int.{ℤ, pos, negsuc}
use uu_remote_ubuntu_bridge.Python.Text.{strip, is_empty}
use uu_remote_ubuntu_bridge.Python.Path.{is_absolute}
use uu_remote_ubuntu_bridge.Python.Json.{Json, Fields, get, find_field, is_one}
use uu_remote_ubuntu_bridge.Updater.Config.{
  Chosen, Limits, Config, ConfigScene, ConfigError, at_least, percent, flag, text_at, int_at,
  read_chosen, read_limits, read_config,
}

pub record InBounds (o : ConfigScene) (c : Config) : Type 0 where
  pub timeout : 300 ≤ c.codex_timeout_seconds
  pub percent : c.codex_max_used_percent ≤ 100
  pub idle : 5 ≤ c.idle_minutes
  pub download : 1024 * 1024 ≤ c.max_download_bytes
  pub repository : o.has_git c.repository ≡ true
  pub model : is_empty c.codex_model ≡ false
  pub effort : is_empty c.codex_reasoning_effort ≡ false
  pub absolute : is_absolute c.codex_executable ≡ true
  pub executable : o.is_executable c.codex_executable ≡ true

record Kept (o : ConfigScene) (c : Chosen) : Type 0 where
  repository : o.has_git c.repository ≡ true
  model : is_empty c.model ≡ false
  effort : is_empty c.effort ≡ false
  absolute : is_absolute c.executable ≡ true
  executable : o.is_executable c.executable ≡ true

record Bounded (l : Limits) : Type 0 where
  timeout : 300 ≤ l.timeout_seconds
  percent : l.max_used_percent ≤ 100
  idle : 5 ≤ l.idle_minutes
  download : 1024 * 1024 ≤ l.max_download_bytes

ok_lem :
    {A : Type 0} (P : A → Type 0) {a b : A}
    → let found : Result ConfigError A = ok a in found ≡ ok b → P a → P b
ok_lem P {a} {b} h p = let e : a ≡ b = cc in subst P e p

none_of : (a b : Bool) → (a || b) ≡ false → (a ≡ false) × (b ≡ false)
none_of true b h = cc
none_of false b h = (refl, h)

not-false : (b : Bool) → not b ≡ false → b ≡ true
not-false true h = refl
not-false false h = cc

at_least-le : (least : ℕ) (n : ℤ) → least ≤ at_least least n
at_least-le least (pos n) = omega arith
at_least-le least (negsuc n) = omega arith

percent-le : (n : ℤ) (m : ℕ) → percent n ≡ ok m → m ≤ 100
percent-le (pos n) m h = ground arith
percent-le (negsuc n) m h = cc

module _ (other_text : Json → String) (other_int : Json → Option ℤ) where
  read_chosen-Kept :
      (o : ConfigScene) (raw : Fields) (c : Chosen)
      → read_chosen other_text other_int o raw ≡ ok c
      → Kept o c
  unfolding read_chosen
  read_chosen-Kept o raw c h =
      let (a, h₁) = require-eq-ok (o.has_git _) _ _ h in
      let (b, h₂) = refuse-eq-ok (is_empty _ || is_empty _) _ _ h₁ in
      let (d, h₃) =
        refuse-eq-ok (is_empty _ || not (is_absolute _) || not (o.is_executable _)) _ _ h₂ in
      let codex = strip (text_at other_text other_int raw "codex_executable" "") in
      let path = o.expanduser codex in
      let (no_model, no_effort) =
        none_of (is_empty (strip (text_at other_text other_int raw "codex_model" "")))
          (is_empty (strip (text_at other_text other_int raw "codex_reasoning_effort" ""))) b in
      let (named, missing) =
        none_of (is_empty codex || not (is_absolute path)) (not (o.is_executable path)) d in
      let (no_codex, relative) = none_of (is_empty codex) (not (is_absolute path)) named in
      ok_lem (Kept o) h₃ (record {
        repository = a;
        model = no_model;
        effort = no_effort;
        absolute = not-false (is_absolute path) relative;
        executable = not-false (o.is_executable path) missing;
      })

  read_limits-Bounded :
      (raw : Fields) (l : Limits) → read_limits other_text other_int raw ≡ ok l → Bounded l
  unfolding read_limits
  read_limits-Bounded raw l h =
      let (given, a, h₁) =
        >>=-eq-ok (int_at other_text other_int raw "codex_max_used_percent" 20) _ h in
      let (used, b, h₂) = >>=-eq-ok (percent given) _ h₁ in
      let (reinstall, c, h₃) = >>=-eq-ok (flag (find_field "auto_reinstall_known_good" raw)) _ h₂ in
      let (promote, d, h₄) =
        >>=-eq-ok (flag (find_field "auto_promote_accepted_release" raw)) _ h₃ in
      let (timeout, e, h₅) =
        >>=-eq-ok (int_at other_text other_int raw "codex_timeout_seconds" 5400) _ h₄ in
      let (idle, f, h₆) = >>=-eq-ok (int_at other_text other_int raw "idle_minutes" 45) _ h₅ in
      let (bytes, g, h₇) =
        >>=-eq-ok (int_at other_text other_int raw "max_download_bytes" (1024 * 1024 * 1024)) _
          h₆ in
      ok_lem Bounded h₇ (record {
        timeout = at_least-le 300 timeout;
        percent = percent-le given used b;
        idle = at_least-le 5 idle;
        download = at_least-le (1024 * 1024) bytes;
      })

  -- A configuration that `Config.read` returns keeps its limits, whatever the file says: Codex has at
  -- least 300 seconds and at most 100 per cent, UU must be idle for at least 5 minutes, at least a
  -- mebibyte may be downloaded, the repository is there, a model and an effort are named, and Codex is an
  -- executable file at an absolute path.
  pub read_config-InBounds :
      (o : ConfigScene) (c : Config) → read_config other_text other_int o ≡ ok c → InBounds o c
  unfolding read_config
  read_config-InBounds o c h =
      let (raw, a, h₁) = >>=-eq-ok (or_raise o.raw _) _ h in
      let (b, h₂) = require-eq-ok (is_one (get raw "schema_version")) _ _ h₁ in
      let (chosen, d, h₃) = >>=-eq-ok (read_chosen other_text other_int o raw) _ h₂ in
      let (limits, e, h₄) = >>=-eq-ok (read_limits other_text other_int raw) _ h₃ in
      let k = read_chosen-Kept o raw chosen d in
      let m = read_limits-Bounded raw limits e in
      ok_lem (InBounds o) h₄ (record {
        timeout = m.timeout;
        percent = m.percent;
        idle = m.idle;
        download = m.download;
        repository = k.repository;
        model = k.model;
        effort = k.effort;
        absolute = k.absolute;
        executable = k.executable;
      })
