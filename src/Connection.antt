-- ===== src/Connection.antt =====
-- scripts/uu_connection_status.py: `load_reports` to `summarize`. A log file comes with its name, the time
-- of its last change and its lines. `loads` is `json.loads`, `stamp` the time that a line begins with,
-- `watchdog` the match of `WATCHDOG_RE`, and `other_text` Python's `str` of a JSON value that is no text.
-- Times are in microseconds.
pub mod Summary
pub mod Assessed
pub mod Verdict
use Prim.Native.String.{[], ◌∷◌}
use Prim.Native.Char.{code}
use uu_remote_ubuntu_bridge.Prelude.{
  ℕ, String, Bool, true, false, Option, none, some, List, ◌++◌, ltb, ◌==◌, str_eq, if◌then◌else◌,
}
use uu_remote_ubuntu_bridge.Prelude.Int.{ℤ}
use uu_remote_ubuntu_bridge.Python.Text.{strip}
use uu_remote_ubuntu_bridge.Python.Json.{Json, Fields, find_field, as_obj}

pub record LogFile : Type 0 where
  pub name : String
  pub changed_at : ℕ
  pub lines : List String

pub record Report : Type 0 where
  pub log : String
  pub fields : Fields
  pub completed_at : ℕ

-- The texts that are printed.
pub data Line : Type 0 where
  no_report title : Line
  completed age : ℕ → Line
  path : String → Bool → Line
  average maximum rtt : Option (ℤ × ℕ) → Line
  attempted : Bool → Line
  geography : Bool → Line
  releases : ℕ → ℕ → ℕ → Line
  no_releases network_bound relay_selected use_automatic slow_transport unexplained : Line
  blocked_before regions_differ stale : Line

-- `text.removeprefix(prefix)`, if the text begins so.
unfoldable pub remove_prefix : String → String → Option String
remove_prefix [] s = some s
remove_prefix (c ∷ p) [] = none
remove_prefix (c ∷ p) (d ∷ s) = if code c == code d then remove_prefix p s else none

-- `line.split(marker, 1)[1]`, if the marker is there.
unfoldable pub after_marker : String → String → Option String
after_marker marker [] = remove_prefix marker []
after_marker marker (c ∷ s) =
    let later = after_marker marker s in
    elim (remove_prefix marker (c ∷ s)) [ none ↦ later | some rest ↦ some rest ]

abbrev pub or_else : {A : Type 0} → Option A → A → A
or_else none a = a
or_else (some b) a = b

abbrev is_there : {A : Type 0} → Option A → Bool
is_there none = false
is_there (some a) = true

module _ (loads : String → Option Json) (stamp : String → Option ℕ) where
  abbrev report_of : LogFile → String → Option Fields → List Report
  report_of log line none = List.[]
  report_of log line (some fields) =
      if is_there (find_field "forced_relay" fields)
      then List.◌∷◌
          (record {
            log = log.name;
            fields = fields;
            completed_at = or_else (stamp line) log.changed_at;
          })
          List.[]
      else List.[]

  abbrev payload_of : Option String → Option Fields
  payload_of none = none
  payload_of (some payload) = elim (loads (strip payload)) [ none ↦ none | some v ↦ as_obj v ]

  unfoldable pub read_log : LogFile → List String → List Report
  read_log log List.[] = List.[]
  read_log log (List.◌∷◌ line lines) =
      report_of log line (payload_of (after_marker "report json " line)) ++ read_log log lines

  unfoldable pub read_logs : List LogFile → List Report
  read_logs List.[] = List.[]
  read_logs (List.◌∷◌ log logs) = read_log log log.lines ++ read_logs logs

-- `sorted(reports, key=...)`: an equal key keeps its place.
unfoldable pub insert_report : Report → List Report → List Report
insert_report r List.[] = List.◌∷◌ r List.[]
insert_report r (List.◌∷◌ q qs) =
    if ltb q.completed_at r.completed_at
    then List.◌∷◌ q (insert_report r qs)
    else List.◌∷◌ r (List.◌∷◌ q qs)

unfoldable pub sort_reports : List Report → List Report
sort_reports List.[] = List.[]
sort_reports (List.◌∷◌ r rs) = insert_report r (sort_reports rs)

-- `reports[-1]`
unfoldable pub last_report : List Report → Option Report
last_report List.[] = none
last_report (List.◌∷◌ r rs) = some (or_else (last_report rs) r)

-- `latest_file`: the first of those that changed last.
unfoldable pub latest_file : List LogFile → Option LogFile
latest_file List.[] = none
latest_file (List.◌∷◌ f fs) = newer (latest_file fs)
  where
    newer : Option LogFile → Option LogFile
    newer none = some f
    newer (some g) = if ltb f.changed_at g.changed_at then some g else some f

unfoldable pub named_log : String → List LogFile → Option LogFile
named_log name List.[] = none
named_log name (List.◌∷◌ f fs) = if str_eq f.name name then some f else named_log name fs

-- The server log of a stream log, else the latest one.
unfoldable pub server_log : String → List LogFile → Option LogFile
server_log name logs = elim (named_log (or_else (remove_prefix "streamer_" name) name) logs) [
  | none ↦ latest_file logs
  | some log ↦ some log
]

module _ (watchdog : String → Option (ℕ × ℕ)) where
  abbrev event_of : Option (ℕ × ℕ) → List (ℕ × ℕ)
  event_of none = List.[]
  event_of (some e) = List.◌∷◌ e List.[]

  unfoldable pub watchdog_events : List String → List (ℕ × ℕ)
  watchdog_events List.[] = List.[]
  watchdog_events (List.◌∷◌ line lines) = event_of (watchdog line) ++ watchdog_events lines

  abbrev pub load_watchdog_events : Option LogFile → List (ℕ × ℕ)
  load_watchdog_events none = List.[]
  load_watchdog_events (some log) = watchdog_events log.lines
