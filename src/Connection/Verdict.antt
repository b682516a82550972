-- ===== src/Connection/Verdict.antt =====
-- What the summary says of its report.
use uu_remote_ubuntu_bridge.Prelude.{
  ℕ, ◌≡◌, refl, ap, ◌∙◌, ◌⊎◌, String, Bool, true, false, ◌&&◌, Option, List, [], ◌∷◌, ◌++◌, inl,
  inr, Bool-cases, Option-cases, if◌then◌else◌, leb,
}
use uu_remote_ubuntu_bridge.Python.Json.{Json}
use uu_remote_ubuntu_bridge.Connection
use uu_remote_ubuntu_bridge.Connection.{
  Line, LogFile, Report, read_logs, sort_reports, last_report, server_log, load_watchdog_events,
}
use uu_remote_ubuntu_bridge.Connection.Summary.{
  summarize, cross_region, is_forced, high_delay, facts_of, watchdog_lines, assessment, notes_of,
  lines_of, when, any_blocked, age_of,
}
use uu_remote_ubuntu_bridge.Connection.Assessed.{IsLatest, last_report-IsLatest, last_report-none}

-- The lines that assess the transport.
abbrev is_verdict : Line → Bool
is_verdict Connection.network_bound = true
is_verdict Connection.slow_transport = true
is_verdict Connection.unexplained = true
is_verdict _ = false

unfoldable pub verdicts : List Line → List Line
verdicts [] = []
verdicts (line ∷ lines) = if is_verdict line then line ∷ verdicts lines else verdicts lines

verdicts-append : (xs ys : List Line) → verdicts (xs ++ ys) ≡ verdicts xs ++ verdicts ys
unfolding verdicts
verdicts-append [] ys = refl
verdicts-append (x ∷ xs) ys = elim (Bool-cases (is_verdict x)) [
  | inl e ↦ rw (e, verdicts-append xs ys) refl
  | inr e ↦ rw (e, verdicts-append xs ys) refl
]

verdicts-when :
    (test : Bool) (line : Line) → is_verdict line ≡ false → verdicts (when test line) ≡ []
unfolding verdicts
verdicts-when true line h = rw h refl
verdicts-when false line h = refl

verdicts-watchdog : (events : List (ℕ × ℕ)) → verdicts (watchdog_lines events) ≡ []
unfolding verdicts
verdicts-watchdog [] = refl
verdicts-watchdog (e ∷ events) = refl

-- The one verdict for a forced relay and a high delay.
abbrev pub verdict : Bool → Bool → Line
verdict true true = Connection.network_bound
verdict false true = Connection.slow_transport
verdict forced false = Connection.unexplained

verdicts-assessment :
    (forced high : Bool) (lines : List Line)
    → verdicts (assessment forced high ++ lines) ≡ verdict forced high ∷ verdicts lines
unfolding verdicts
verdicts-assessment true true lines = refl
verdicts-assessment true false lines = refl
verdicts-assessment false true lines = refl
verdicts-assessment false false lines = refl

verdicts-skip : (xs ys : List Line) → verdicts xs ≡ [] → verdicts (xs ++ ys) ≡ verdicts ys
verdicts-skip xs ys h = verdicts-append xs ys ∙ ap (λ (zs : List Line). zs ++ verdicts ys) h

module _ (other_text : Json → String) (now : ℕ) (reports : List Report) (r : Report) where
  verdicts-facts : verdicts (facts_of other_text now r) ≡ []
  unfolding verdicts
  verdicts-facts = verdicts-when _ _ refl

  verdicts-notes : verdicts (notes_of other_text now reports r) ≡ []
  verdicts-notes =
      let crossed = cross_region other_text now r.fields && high_delay other_text now r.fields in
      let old = leb 300 (age_of now r) in
      let differ = when crossed Connection.regions_differ in
      let stale = when old Connection.stale in
      verdicts-skip (when (any_blocked reports) Connection.blocked_before) (differ ++ stale)
        (verdicts-when (any_blocked reports) Connection.blocked_before refl)
      ∙ (verdicts-skip differ stale (verdicts-when crossed Connection.regions_differ refl)
          ∙ verdicts-when old Connection.stale refl)

  verdicts-lines :
      (events : List (ℕ × ℕ))
      → verdicts (lines_of other_text now reports events r)
        ≡ verdict (is_forced other_text now r.fields) (high_delay other_text now r.fields) ∷ []
  verdicts-lines events =
      let forced = is_forced other_text now r.fields in
      let high = high_delay other_text now r.fields in
      let notes = notes_of other_text now reports r in
      let rest = assessment forced high ++ notes in
      verdicts-skip (facts_of other_text now r) (watchdog_lines events ++ rest) verdicts-facts
      ∙ (verdicts-skip (watchdog_lines events) rest (verdicts-watchdog events)
          ∙ (verdicts-assessment forced high notes
              ∙ ap (λ (zs : List Line). verdict forced high ∷ zs) verdicts-notes))

-- The summary has one verdict, and it is that of a report which no other of the logs was completed
-- after: a relay that the controller forced and a mean delay of at least 250 ms make the network the
-- cause of lost input, such a delay alone is said to be high enough, and otherwise the delay does not
-- explain the loss. The status is 1 exactly if the logs have no report.
pub summarize-verdict :
    (other_text : Json → String) (loads : String → Option Json) (stamp : String → Option ℕ)
    (watchdog : String → Option (ℕ × ℕ)) (now : ℕ) (streams logs : List LogFile)
    → let (lines, status) = summarize other_text loads stamp watchdog now streams logs in
      ((status ≡ 1) × (read_logs loads stamp streams ≡ []))
      ⊎ ((status ≡ 0)
          × (r : Report) × IsLatest (read_logs loads stamp streams) r
          × (verdicts lines
              ≡ verdict (is_forced other_text now r.fields) (high_delay other_text now r.fields)
                ∷ []))
unfolding summarize
summarize-verdict other_text loads stamp watchdog now streams logs =
    let reports = read_logs loads stamp streams in
    elim (Option-cases (last_report (sort_reports reports))) [
      | inl e ↦ rw e (inl (refl, last_report-none reports e))
      | inr (r, e) ↦ rw e (
          inr (
            refl,
            r,
            last_report-IsLatest reports r e,
            verdicts-lines other_text now (sort_reports reports) r
                (load_watchdog_events watchdog (server_log r.log logs)),
          ))
    ]
