-- ===== src/Tests/Connections.antt =====
-- One report of a forced relay, through scripts/uu_connection_status.py.
use uu_remote_ubuntu_bridge.Prelude.{
  ℕ, ◌≡◌, ◌⊎◌, refl, String, Option, none, some, [], ◌∷◌, str_eq, if◌then◌else◌,
}
use uu_remote_ubuntu_bridge.Prelude.Int.{pos}
use uu_remote_ubuntu_bridge.Python.Json.{Json, Fields, int, obj, field, end}
use uu_remote_ubuntu_bridge.Connection
use uu_remote_ubuntu_bridge.Connection.{LogFile, Report, Line, read_logs}
use uu_remote_ubuntu_bridge.Connection.Summary.{summarize, is_forced, high_delay}
use uu_remote_ubuntu_bridge.Connection.Assessed.{IsLatest}
use uu_remote_ubuntu_bridge.Connection.Verdict.{verdicts, verdict, summarize-verdict}

abbrev fields : Fields
fields = field "forced_relay" (int (pos 1)) (field "average_delay" (int (pos 300)) end)

abbrev loads : String → Option Json
loads s = if str_eq s "{...}" then some (obj fields) else none

abbrev stamp : String → Option ℕ
stamp line = none

abbrev watchdog : String → Option (ℕ × ℕ)
watchdog line = none

abbrev no_text : Json → String
no_text v = ""

abbrev log : LogFile
log = record {
  name = "streamer_log_1.txt";
  changed_at = 7000000;
  lines = "started" ∷ "at 7 report json {...} " ∷ [];
}

slow_relay :
    verdicts (summarize no_text loads stamp watchdog 9000000 (log ∷ []) []).0
    ≡ Connection.network_bound ∷ []
unfolding summarize verdicts Connection.last_report Connection.sort_reports read_logs
    Connection.read_log Connection.after_marker Connection.remove_prefix
    uu_remote_ubuntu_bridge.Python.Text.strip uu_remote_ubuntu_bridge.Python.Text.is_space
    uu_remote_ubuntu_bridge.Python.Text.is_empty uu_remote_ubuntu_bridge.Python.Json.find_field
    Connection.insert_report Connection.server_log Connection.named_log Connection.latest_file
    uu_remote_ubuntu_bridge.Python.Json.is_one uu_remote_ubuntu_bridge.Python.Json.get
slow_relay = refl

summarize-verdict_example :
    let (lines, status) = summarize no_text loads stamp watchdog 9000000 (log ∷ []) [] in
    ((status ≡ 1) × (read_logs loads stamp (log ∷ []) ≡ []))
    ⊎ ((status ≡ 0)
        × (r : Report) × IsLatest (read_logs loads stamp (log ∷ [])) r
        × (verdicts lines
            ≡ verdict (is_forced no_text 9000000 r.fields) (high_delay no_text 9000000 r.fields)
              ∷ []))
summarize-verdict_example = summarize-verdict no_text loads stamp watchdog 9000000 (log ∷ []) []
