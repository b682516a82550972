-- ===== src/Trace/Verdict.antt =====
-- What the verdict of `summarize` says of the events.
use uu_remote_ubuntu_bridge.Prelude.{
  ℕ, ◌≤◌, ◌<◌, ◌≡◌, ◌⊎◌, ◌↔◌, List, Bool, inl, inr, arith, str_eq, not, String,
}
use uu_remote_ubuntu_bridge.Trace
use uu_remote_ubuntu_bridge.Trace.{
  InputEvent, Kind, button_press, key_press, select, greedy_pairs, conclude, summarize, Summary,
}
use uu_remote_ubuntu_bridge.Trace.Pairing.{greedy_pairs-le}
use uu_remote_ubuntu_bridge.Trace.Evidence.{Pair, Selected, greedy_pairs-In, select-In}

module _ (events : List InputEvent) (physical controller : ℕ) where
  -- Pairs are made of presses: none of the counts of pairs passes those of the presses on both sides.
  pub summarize-le :
      let s = summarize events physical controller in
      (s.paired_button_presses ≤ s.viewer_button_presses)
      × (s.paired_button_presses ≤ s.uu_button_presses)
      × (s.paired_key_presses ≤ s.viewer_key_presses)
      × (s.paired_key_presses ≤ s.uu_key_presses)
      × (s.possible_focus_leaks ≤ s.local_key_presses)
      × (s.possible_focus_leaks ≤ s.uu_key_presses)
  unfolding summarize
  summarize-le =
      let viewer = λ (t : String). str_eq t "viewer" in
      let uu = λ (t : String). str_eq t "uu" in
      let elsewhere = λ (t : String). not (str_eq t "viewer") in
      let (a, b) =
        greedy_pairs-le 1200 (select "physical" button_press viewer events)
          (select "controller" button_press uu events) in
      let (c, d) =
        greedy_pairs-le 1200 (select "physical" key_press viewer events)
          (select "controller" key_press uu events) in
      let (e, f) =
        greedy_pairs-le 500 (select "physical" key_press elsewhere events)
          (select "controller" key_press uu events) in
      (a, b, c, d, e, f)

  verdict-reached :
      let s = summarize events physical controller in
      (s.verdict ≡ Trace.input_reached_private_uu_window) ↔ (
        (s.possible_focus_leaks ≡ 0)
        × ((s.viewer_button_presses ≡ 0) ⊎ (0 < s.uu_button_presses))
        × ((s.viewer_key_presses ≡ 0) ⊎ (0 < s.uu_key_presses))
        × ((0 < s.paired_button_presses) ⊎ (0 < s.paired_key_presses)))
  unfolding summarize conclude
  verdict-reached =
      (λ h. (ground arith, ground arith, ground arith, ground arith), λ h. ground arith)

  -- Two presses of the kind: one by hand, and its echo inside the controller.
  pub record Echo (kind : Kind) (outer_target : String → Bool) (window_ms : ℕ) : Type 0 where
    pub outer : InputEvent
    pub inner : InputEvent
    pub sent : Selected "physical" kind outer_target events outer
    pub received : Selected "controller" kind (λ t. str_eq t "uu") events inner
    pub close : Pair window_ms outer inner

  greedy_pairs-Echo :
      (kind : Kind) (outer_target : String → Bool) (window_ms : ℕ)
      → 0
        < greedy_pairs window_ms
            (select "physical" kind outer_target events)
            (select "controller" kind (λ t. str_eq t "uu") events)
      → Echo kind outer_target window_ms
  greedy_pairs-Echo kind outer_target window_ms h =
      let (e, f, i, j, pair) = greedy_pairs-In window_ms _ _ h in
      record {
        outer = e;
        inner = f;
        sent = select-In "physical" kind outer_target events e i;
        received = select-In "controller" kind (λ t. str_eq t "uu") events f j;
        close = pair;
      }

  -- A focus leak is suspected exactly when a key press outside the viewer has a partner in the private
  -- window; then there is a key press on both sides.
  pub summarize-leak :
      let s = summarize events physical controller in
      ((s.verdict ≡ Trace.focus_leak_suspected) ↔ (0 < s.possible_focus_leaks))
      × (s.verdict ≡ Trace.focus_leak_suspected
          → (0 < s.local_key_presses) × (0 < s.uu_key_presses))
  unfolding summarize conclude
  summarize-leak = (
    (λ h. ground arith, λ h. ground arith),
    λ h.
        let local = select "physical" key_press (λ (t : String). not (str_eq t "viewer")) events in
        let inner = select "controller" key_press (λ (t : String). str_eq t "uu") events in
        let (e, f) = greedy_pairs-le 500 local inner in (ground arith, ground arith),
  )

  -- If the verdict is that input reached the private window, the events hold a press by hand over the
  -- viewer, of a button or of a key, and a press of the same kind over UU inside the controller, at most
  -- 100 ms before it and at most 1.2 s after it, and of the same button if the first has one. If a focus
  -- leak is suspected, they hold a key press by hand that was not over the viewer and a key press over
  -- UU inside the controller at most 100 ms before it and at most 0.5 s after it.
  pub summarize-reached :
      let s = summarize events physical controller in
      (s.verdict ≡ Trace.input_reached_private_uu_window
        → Echo button_press (λ t. str_eq t "viewer") 1200
          ⊎ Echo key_press (λ t. str_eq t "viewer") 1200)
      × (s.verdict ≡ Trace.focus_leak_suspected → Echo key_press (λ t. not (str_eq t "viewer")) 500)
  unfolding summarize
  summarize-reached = (
    (λ h.
        let (a, b, d, paired) = (verdict-reached).0 h in
        elim paired [
          | inl buttons ↦ inl (greedy_pairs-Echo button_press (λ t. str_eq t "viewer") 1200 buttons)
          | inr keys ↦ inr (greedy_pairs-Echo key_press (λ t. str_eq t "viewer") 1200 keys)
        ]),
    λ h. greedy_pairs-Echo key_press (λ t. not (str_eq t "viewer")) 500 ((summarize-leak).0.0 h),
  )
