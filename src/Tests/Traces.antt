-- ===== src/Tests/Traces.antt =====
-- A short trace, through scripts/uu_controller_trace.py.
use uu_remote_ubuntu_bridge.Prelude.{ℕ, ◌≡◌, ◌⊎◌, String, not, str_eq, none, some, List, [], ◌∷◌}
use uu_remote_ubuntu_bridge.Trace
use uu_remote_ubuntu_bridge.Trace.{InputEvent, Snapshot, Line, greedy_pairs, collect, summarize}
use uu_remote_ubuntu_bridge.Trace.Pairing.{Matching, greedy_pairs-Matching}
use uu_remote_ubuntu_bridge.Trace.Verdict.{Echo, summarize-reached}

-- A press of button 1 in a layer, over a target.
abbrev press : String → String → ℕ → InputEvent
press layer target observed_ms = record {
  layer = layer;
  kind = Trace.button_press;
  observed_ms = observed_ms;
  server_time = none;
  target = target;
  active_window = none;
  event_window = none;
  child_window = none;
  button = some 1;
  generation = none;
}

abbrev events : List InputEvent
events = press "physical" "viewer" 1000 ∷ press "controller" "uu" 1200 ∷ []

greedy_pairs-Matching_example :
    Matching 1200
      (press "physical" "viewer" 1000 ∷ [])
      (press "controller" "uu" 1200 ∷ [])
      (greedy_pairs 1200 (press "physical" "viewer" 1000 ∷ []) (press "controller" "uu" 1200 ∷ []))
greedy_pairs-Matching_example =
    greedy_pairs-Matching 1200 (press "physical" "viewer" 1000 ∷ [])
      (press "controller" "uu" 1200 ∷ [])

abbrev snapshot : Snapshot
snapshot kind e c = ("viewer", none, none)

summarize-reached_example :
    let s = summarize events 0 0 in
    (s.verdict ≡ Trace.input_reached_private_uu_window
      → Echo events 0 0 Trace.button_press (λ t. str_eq t "viewer") 1200
        ⊎ Echo events 0 0 Trace.key_press (λ t. str_eq t "viewer") 1200)
    × (s.verdict ≡ Trace.focus_leak_suspected
        → Echo events 0 0 Trace.key_press (λ t. not (str_eq t "viewer")) 500)
summarize-reached_example = summarize-reached events 0 0
