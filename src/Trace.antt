-- ===== src/Trace.antt =====
-- scripts/uu_controller_trace.py: the reading of one recorded event, and the summary of a trace.
-- Window ids, times and buttons are numbers; coordinates are left out of an event, since nothing reads
-- them again.
pub mod Pairing
pub mod Evidence
pub mod Verdict
use uu_remote_ubuntu_bridge.Prelude.{
  ℕ, zero, suc, ◌+◌, ◌-◌, String, Bool, true, false, ◌&&◌, ◌||◌, not, Option, none, some, List, [],
  ◌∷◌, ◌++◌, str_eq, leb, ltb, ◌==◌, if◌then◌else◌, length,
}

pub data Kind : Type 0 where
  button_press button_release key_press key_release : Kind

pub record InputEvent : Type 0 where
  pub layer : String
  pub kind : Kind
  pub observed_ms : ℕ
  pub server_time : Option ℕ
  pub target : String
  pub active_window : Option ℕ
  pub event_window : Option ℕ
  pub child_window : Option ℕ
  pub button : Option ℕ
  pub generation : Option ℕ

-- A line of a block, as the first pattern that fits it reads it. `header` is a line that begins an
-- event, with the kind if that is one of RAW_KINDS.
pub data Line : Type 0 where
  header : Option Kind → Line
  device time detail : ℕ → Line
  root_coords : Line
  windows : ℕ → ℕ → Line
  other : Line

-- What the loop over the lines of a block has found; a later line replaces an earlier one.
pub record Found : Type 0 where
  pub device : Option ℕ
  pub server_time : Option ℕ
  pub detail : Option ℕ
  pub event_window : Option ℕ
  pub child_window : Option ℕ

abbrev pub nothing_found : Found
nothing_found = record {
  device = none;
  server_time = none;
  detail = none;
  event_window = none;
  child_window = none;
}

unfoldable pub read_line : Found → Line → Found
read_line f (header k) = f
read_line f (device n) = record f { device = some n }
read_line f (time n) = record f { server_time = some n }
read_line f (detail n) = record f { detail = some n }
read_line f root_coords = f
read_line f (windows e c) = record f { event_window = some e; child_window = some c }
read_line f other = f

unfoldable pub read_lines : Found → List Line → Found
unfolding read_line
read_lines f [] = f
read_lines f (l ∷ ls) = read_lines (read_line f l) ls

abbrev pub is_key : Kind → Bool
is_key key_press = true
is_key key_release = true
is_key button_press = false
is_key button_release = false

abbrev pub same_option : Option ℕ → Option ℕ → Bool
same_option none none = true
same_option (some a) (some b) = a == b
same_option _ _ = false

-- What the `snapshot` of a collector says: the target, the active window and the generation.
abbrev pub Snapshot : Type 0
Snapshot = Kind → Option ℕ → Option ℕ → String × Option ℕ × Option ℕ

module _ (layer : String) (pointer_master keyboard_master : ℕ) (snapshot : Snapshot) where
  event_of : ℕ → Kind → Found → Option InputEvent
  event_of observed_ms kind f =
      let expected = if is_key kind then keyboard_master else pointer_master in
      let (target, active, generation) = snapshot kind f.event_window f.child_window in
      if same_option f.device (some expected)
      then some (record {
        layer = layer;
        kind = kind;
        observed_ms = observed_ms;
        server_time = f.server_time;
        target = target;
        active_window = active;
        event_window = f.event_window;
        child_window = f.child_window;
        button = if is_key kind then none else f.detail;
        generation = generation;
      })
      else none

  -- `parse_event_block`
  unfoldable pub parse_event_block : ℕ → List Line → Option InputEvent
  unfolding event_of
  parse_event_block observed_ms [] = none
  parse_event_block observed_ms (header (some kind) ∷ ls) =
      event_of observed_ms kind (read_lines nothing_found ls)
  parse_event_block observed_ms (header none ∷ ls) = none
  parse_event_block observed_ms (_ ∷ ls) = none

  keep_event : List InputEvent → Option InputEvent → List InputEvent
  keep_event events none = events
  keep_event events (some e) = if ltb (length events) 512 then events ++ (e ∷ []) else events

  -- `_finish`
  unfoldable pub finish : List InputEvent → ℕ → List Line → List InputEvent
  unfolding keep_event
  finish events observed_ms block = keep_event events (parse_event_block observed_ms block)

  -- The loop of `XInputCollector.run`. Each line comes with the time at which it was read; a block has
  -- the time of its header, and lines before the first header are dropped.
  unfoldable pub collect : List InputEvent → List Line → ℕ → List (ℕ × Line) → List InputEvent
  collect events block block_time [] = finish events block_time block
  collect events block block_time ((now, header k) ∷ rest) =
      collect (finish events block_time block) (header k ∷ []) now rest
  collect events [] block_time ((now, l) ∷ rest) = collect events [] block_time rest
  collect events (b ∷ block) block_time ((now, l) ∷ rest) =
      collect events ((b ∷ block) ++ (l ∷ [])) block_time rest

-- `parse_event_block` reads the button only of button events, and a candidate that has another one
-- is passed over.
abbrev pub button_fits : Option ℕ → Option ℕ → Bool
button_fits none candidate = true
button_fits (some b) candidate = same_option candidate (some b)

abbrev kept : InputEvent → Option (List InputEvent) → Option (List InputEvent)
kept candidate none = none
kept candidate (some left) = some (candidate ∷ left)

-- The search of one event's partner among the available ones: what is left if there is one. The
-- candidates are in the order of time, so one that is too late ends the search.
unfoldable pub take_partner : InputEvent → ℕ → List InputEvent → Option (List InputEvent)
take_partner e window_ms [] = none
take_partner e window_ms (candidate ∷ available) =
    let later = take_partner e window_ms available in
    if ltb (candidate.observed_ms + 100) e.observed_ms
    then kept candidate later
    else if ltb (e.observed_ms + window_ms) candidate.observed_ms
    then none
    else if button_fits e.button candidate.button
    then some available
    else kept candidate later

-- `greedy_pairs`
unfoldable pub greedy_pairs : ℕ → List InputEvent → List InputEvent → ℕ
greedy_pairs window_ms [] available = 0
greedy_pairs window_ms (e ∷ first) available = elim (take_partner e window_ms available) [
  | none ↦ greedy_pairs window_ms first available
  | some left ↦ suc (greedy_pairs window_ms first left)
]

abbrev same_kind : Kind → Kind → Bool
same_kind button_press button_press = true
same_kind button_release button_release = true
same_kind key_press key_press = true
same_kind key_release key_release = true
same_kind _ _ = false

-- The list comprehensions of `summarize`: events of a layer and a kind, with a target or without.
unfoldable pub select : String → Kind → (String → Bool) → List InputEvent → List InputEvent
select layer kind on_target [] = []
select layer kind on_target (e ∷ es) =
    let rest = select layer kind on_target es in
    if str_eq e.layer layer && same_kind e.kind kind && on_target e.target then e ∷ rest else rest

pub data Conclusion : Type 0 where
  focus_leak_suspected : Conclusion
  viewer_received_button_but_private_uu_did_not : Conclusion
  viewer_received_key_but_private_uu_did_not : Conclusion
  input_reached_private_uu_window : Conclusion
  viewer_pointer_moved_but_private_pointer_did_not : Conclusion
  pointer_motion_reached_private_display : Conclusion
  no_decisive_input_sample : Conclusion

pub record Summary : Type 0 where
  pub physical_motion_events : ℕ
  pub controller_motion_events : ℕ
  pub viewer_button_presses : ℕ
  pub uu_button_presses : ℕ
  pub paired_button_presses : ℕ
  pub viewer_key_presses : ℕ
  pub uu_key_presses : ℕ
  pub paired_key_presses : ℕ
  pub local_key_presses : ℕ
  pub possible_focus_leaks : ℕ
  pub verdict : Conclusion

-- The ladder of tests, over the counts.
unfoldable pub conclude : ℕ → ℕ → ℕ → ℕ → ℕ → ℕ → ℕ → ℕ → ℕ → Conclusion
conclude leaks outer_buttons inner_buttons outer_keys inner_keys paired_buttons paired_keys physical
      controller =
    if ltb 0 leaks
    then focus_leak_suspected
    else if ltb 0 outer_buttons && inner_buttons == 0
    then viewer_received_button_but_private_uu_did_not
    else if ltb 0 outer_keys && inner_keys == 0
    then viewer_received_key_but_private_uu_did_not
    else if ltb 0 paired_buttons || ltb 0 paired_keys
    then input_reached_private_uu_window
    else if ltb 0 physical && controller == 0
    then viewer_pointer_moved_but_private_pointer_did_not
    else if ltb 0 physical && ltb 0 controller
    then pointer_motion_reached_private_display
    else no_decisive_input_sample

-- `summarize`, with the two counts of `motion`
unfoldable pub summarize : List InputEvent → ℕ → ℕ → Summary
summarize events physical controller =
    let outer_buttons = select "physical" button_press (λ t. str_eq t "viewer") events in
    let inner_buttons = select "controller" button_press (λ t. str_eq t "uu") events in
    let outer_keys = select "physical" key_press (λ t. str_eq t "viewer") events in
    let inner_keys = select "controller" key_press (λ t. str_eq t "uu") events in
    let local_keys = select "physical" key_press (λ t. not (str_eq t "viewer")) events in
    let paired_buttons = greedy_pairs 1200 outer_buttons inner_buttons in
    let paired_keys = greedy_pairs 1200 outer_keys inner_keys in
    let leaks = greedy_pairs 500 local_keys inner_keys in
    record {
      physical_motion_events = physical;
      controller_motion_events = controller;
      viewer_button_presses = length outer_buttons;
      uu_button_presses = length inner_buttons;
      paired_button_presses = paired_buttons;
      viewer_key_presses = length outer_keys;
      uu_key_presses = length inner_keys;
      paired_key_presses = paired_keys;
      local_key_presses = length local_keys;
      possible_focus_leaks = leaks;
      verdict =
          conclude leaks (length outer_buttons) (length inner_buttons) (length outer_keys)
            (length inner_keys) paired_buttons paired_keys physical controller;
    }
