-- ===== src/Connection/Summary.antt =====
-- scripts/uu_connection_status.py: `summarize`.
use uu_remote_ubuntu_bridge.Prelude.{
  ℕ, ◌-◌, ◌/◌, ◌*◌, ◌^◌, String, Bool, false, ◌&&◌, ◌||◌, not, Option, none, some, List, [], ◌∷◌,
  ◌++◌, length, leb, str_eq, max, if◌then◌else◌,
}
use uu_remote_ubuntu_bridge.Prelude.Int.{ℤ, pos, ltb_ℤ}
use uu_remote_ubuntu_bridge.Python.Text.{strip, is_empty}
use uu_remote_ubuntu_bridge.Python.Json.{text_of, Json, Fields, get, find_field, is_one, numeric}
use uu_remote_ubuntu_bridge.Connection
use uu_remote_ubuntu_bridge.Connection.{
  Line, Report, LogFile, read_logs, sort_reports, last_report, server_log, load_watchdog_events,
}

-- `isinstance(v, (int, float)) and v >= 250`
abbrev pub slow : Option (ℤ × ℕ) → Bool
slow none = false
slow (some (m, k)) = not (ltb_ℤ m (pos (250 * 2 ^ k)))

abbrev pub any_blocked : List Report → Bool
any_blocked [] = false
any_blocked (r ∷ rs) = is_one (get r.fields "punch_stopped_by_firewall") || any_blocked rs

-- `datetime.now() - completed_at` in seconds, or 0
abbrev pub age_of : ℕ → Report → ℕ
age_of now r = (now - r.completed_at) / 1000000

abbrev highest : List (ℕ × ℕ) → ℕ
highest [] = 0
highest ((threshold, delay) ∷ events) = max delay (highest events)

abbrev last_threshold : ℕ → List (ℕ × ℕ) → ℕ
last_threshold n [] = n
last_threshold n ((threshold, delay) ∷ events) = last_threshold threshold events

-- The line about the forced releases.
abbrev pub watchdog_lines : List (ℕ × ℕ) → List Line
watchdog_lines [] = Connection.no_releases ∷ []
watchdog_lines (e ∷ events) =
    Connection.releases (length (e ∷ events)) (last_threshold 0 (e ∷ events)) (highest (e ∷ events))
    ∷ []

-- What the transport's delay says about lost input.
abbrev pub assessment : Bool → Bool → List Line
assessment forced slow =
    if forced && slow
    then Connection.network_bound ∷ Connection.relay_selected ∷ Connection.use_automatic ∷ []
    else if slow
    then Connection.slow_transport ∷ []
    else Connection.unexplained ∷ []

abbrev pub when : Bool → Line → List Line
when test line = if test then line ∷ [] else []

module _ (other_text : Json → String) (now : ℕ) where
  abbrev text_at : Fields → String → String
  text_at fields key = strip (text_of other_text (find_field key fields))

  -- `str(report.get("candidate_type", "unknown"))`
  abbrev candidate : Option Json → String
  candidate none = "unknown"
  candidate (some v) = text_of other_text (some v)

  abbrev pub both_named : Fields → Bool
  both_named fields =
      not (is_empty (text_at fields "publisher_country"))
      && not (is_empty (text_at fields "subscriber_country"))

  abbrev pub cross_region : Fields → Bool
  cross_region fields =
      both_named fields
      && not (str_eq (text_at fields "publisher_country") (text_at fields "subscriber_country"))

  abbrev pub is_forced : Fields → Bool
  is_forced fields = is_one (get fields "forced_relay")

  abbrev pub high_delay : Fields → Bool
  high_delay fields = slow (numeric (get fields "average_delay"))

  abbrev pub facts_of : Report → List Line
  facts_of r =
      Connection.title
      ∷ Connection.completed r.completed_at
      ∷ Connection.age (age_of now r / 60)
      ∷ Connection.path (candidate (find_field "candidate_type" r.fields)) (is_forced r.fields)
      ∷ Connection.average (numeric (get r.fields "average_delay"))
      ∷ Connection.maximum (numeric (get r.fields "max_delay"))
      ∷ Connection.rtt (numeric (get r.fields "streamer_p90_rtt"))
      ∷ Connection.attempted (is_one (get r.fields "need_to_p2p_punch"))
      ∷ when (both_named r.fields) (Connection.geography (cross_region r.fields))

  -- The notes, of which the first is about all reports.
  abbrev pub notes_of : List Report → Report → List Line
  notes_of reports r =
      when (any_blocked reports) Connection.blocked_before
      ++ (when (cross_region r.fields && high_delay r.fields) Connection.regions_differ
          ++ when (leb 300 (age_of now r)) Connection.stale)

  abbrev pub lines_of : List Report → List (ℕ × ℕ) → Report → List Line
  lines_of reports events r =
      facts_of r
      ++ (watchdog_lines events
          ++ (assessment (is_forced r.fields) (high_delay r.fields) ++ notes_of reports r))

module _ (other_text : Json → String) (loads : String → Option Json) (stamp : String → Option ℕ)
    (watchdog : String → Option (ℕ × ℕ)) where
  abbrev pub summary_of : ℕ → List LogFile → List Report → Option Report → List Line × ℕ
  summary_of now logs reports none = (Connection.no_report ∷ [], 1)
  summary_of now logs reports (some r) =
      (lines_of other_text now reports (load_watchdog_events watchdog (server_log r.log logs)) r, 0)

  -- `summarize`: the lines and the status. `streams` are the logs named streamer_log_*.txt in the order
  -- of their paths, `logs` those named log_*.txt.
  unfoldable pub summarize : ℕ → List LogFile → List LogFile → List Line × ℕ
  summarize now streams logs =
      let reports = sort_reports (read_logs loads stamp streams) in
      summary_of now logs reports (last_report reports)
