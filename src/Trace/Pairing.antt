-- ===== src/Trace/Pairing.antt =====
-- `greedy_pairs` counts a matching: no event has two partners, and each pair fits.
use uu_remote_ubuntu_bridge.Prelude.{
  ℕ, suc, ◌+◌, ◌≤◌, ◌≡◌, refl, inl, inr, true, Option, none, some, List, [], ◌∷◌, length,
  Option-cases, arith, ltb, ◌++◌, length-append, String, subst, ap, Bool-cases,
}
use uu_remote_ubuntu_bridge.Trace.{
  header, kept, parse_event_block, InputEvent, Line, Snapshot, take_partner, greedy_pairs,
  button_fits, finish, collect,
}

-- `left` is `available` without one partner of `e` within the window.
pub data Removes (e : InputEvent) (window_ms : ℕ) : List InputEvent → List InputEvent → Type 0 where
  here :
      (p : InputEvent) (rest : List InputEvent)
      → e.observed_ms ≤ p.observed_ms + 100
      → p.observed_ms ≤ e.observed_ms + window_ms
      → button_fits e.button p.button ≡ true
      → Removes e window_ms (p ∷ rest) rest
  there :
      {available left : List InputEvent} (p : InputEvent)
      → Removes e window_ms available left
      → Removes e window_ms (p ∷ available) (p ∷ left)

-- `n` pairs can be made of the two lists, no event in two pairs.
pub data Matching (window_ms : ℕ) : List InputEvent → List InputEvent → ℕ → Type 0 where
  done : (available : List InputEvent) → Matching window_ms [] available 0
  alone :
      {first available : List InputEvent} {n : ℕ} (e : InputEvent)
      → Matching window_ms first available n
      → Matching window_ms (e ∷ first) available n
  paired :
      {first available left : List InputEvent} {n : ℕ} (e : InputEvent)
      → Removes e window_ms available left
      → Matching window_ms first left n
      → Matching window_ms (e ∷ first) available (suc n)

Removes-kept :
    (e : InputEvent) (window_ms : ℕ) (p : InputEvent) (ps : List InputEvent)
    (later : Option (List InputEvent)) (left : List InputEvent)
    → kept p later ≡ some left
    → ((l : List InputEvent) → later ≡ some l → Removes e window_ms ps l)
    → Removes e window_ms (p ∷ ps) left
Removes-kept e window_ms p ps none left h r = cc
Removes-kept e window_ms p ps (some l) left h r =
    let same : p ∷ l ≡ left = ground arith in
    subst (Removes e window_ms (p ∷ ps)) same (there p (r l refl))

-- What the inner loop takes is a partner within the window.
take_partner-Removes :
    (e : InputEvent) (window_ms : ℕ) (available left : List InputEvent)
    → take_partner e window_ms available ≡ some left
    → Removes e window_ms available left
unfolding take_partner
take_partner-Removes e window_ms [] left h = cc
take_partner-Removes e window_ms (p ∷ ps) left h =
    let later = take_partner-Removes e window_ms ps in
    elim (Bool-cases (ltb (p.observed_ms + 100) e.observed_ms)) [
      | inl early ↦ Removes-kept e window_ms p ps _ left (ground arith) later
      | inr in_time ↦ elim (Bool-cases (ltb (e.observed_ms + window_ms) p.observed_ms)) [
        | inl late ↦ absurd (ground arith)
        | inr near ↦ elim (Bool-cases (button_fits e.button p.button)) [
          | inl fits ↦
              let same : ps ≡ left = ground arith in
              subst (Removes e window_ms (p ∷ ps)) same
                (here p ps (ground arith) (ground arith) fits)
          | inr wrong ↦ Removes-kept e window_ms p ps _ left (ground arith) later
        ]
      ]
    ]

-- The count of `greedy_pairs` is the size of a matching of the two lists: each pair lies in the window,
-- agrees on the button, and no event is in two pairs.
pub greedy_pairs-Matching :
    (window_ms : ℕ) (first available : List InputEvent)
    → Matching window_ms first available (greedy_pairs window_ms first available)
unfolding greedy_pairs
greedy_pairs-Matching window_ms [] available = done available
greedy_pairs-Matching window_ms (e ∷ first) available =
    by_partner (take_partner e window_ms available) refl (greedy_pairs-Matching window_ms first)
  where
    by_partner :
        (o : Option (List InputEvent))
        → take_partner e window_ms available ≡ o
        → ((rest : List InputEvent)
            → Matching window_ms first rest (greedy_pairs window_ms first rest))
        → Matching window_ms (e ∷ first) available (elim o [
          | none ↦ greedy_pairs window_ms first available
          | some left ↦ suc (greedy_pairs window_ms first left)
        ])
    by_partner none h m = alone e (m available)
    by_partner (some left) h m =
        paired e (take_partner-Removes e window_ms available left h) (m left)

length-Removes :
    {e : InputEvent} {window_ms : ℕ} {available left : List InputEvent}
    → Removes e window_ms available left
    → length available ≡ suc (length left)
length-Removes (here p rest a b c) = refl
length-Removes (there p r) = ap suc (length-Removes r)

-- A matching is no larger than either list.
pub Matching-le :
    {window_ms : ℕ} {first available : List InputEvent} {n : ℕ}
    → Matching window_ms first available n
    → (n ≤ length first) × (n ≤ length available)
Matching-le (done available) = (omega arith, omega arith)
Matching-le (alone e m) = let (a, b) = Matching-le m in (omega arith, omega arith)
Matching-le (paired e r m) =
    let (a, b) = Matching-le m in (omega arith, omega (arith, length-Removes r))

pub greedy_pairs-le :
    (window_ms : ℕ) (first available : List InputEvent)
    → (greedy_pairs window_ms first available ≤ length first)
      × (greedy_pairs window_ms first available ≤ length available)
greedy_pairs-le window_ms first available =
    Matching-le (greedy_pairs-Matching window_ms first available)

module _ (layer : String) (pointer_master keyboard_master : ℕ) (snapshot : Snapshot) where
  finish-le :
      (events : List InputEvent) (now : ℕ) (block : List Line)
      → length events ≤ 512
      → length (finish layer pointer_master keyboard_master snapshot events now block) ≤ 512
  unfolding finish
  finish-le events now block h =
      elim (Option-cases
        (parse_event_block layer pointer_master keyboard_master snapshot now block)) [
          | inl e ↦ rw e h
          | inr (ev, e) ↦ rw e (ground (arith, length-append events (ev ∷ [])))
        ]

  -- A collector keeps at most 512 events, whatever it reads.
  pub collect-le :
      (events : List InputEvent) (block : List Line) (now : ℕ) (lines : List (ℕ × Line))
      → length events ≤ 512
      → length (collect layer pointer_master keyboard_master snapshot events block now lines) ≤ 512
  unfolding collect
  collect-le events block now [] h = finish-le events now block h
  collect-le events block now ((t, header k) ∷ rest) h =
      collect-le (finish layer pointer_master keyboard_master snapshot events now block)
        (header k ∷ []) t rest (finish-le events now block h)
  collect-le events [] now ((t, l) ∷ rest) h = collect-le events [] now rest h
  collect-le events (b ∷ block) now ((t, l) ∷ rest) h =
      collect-le events ((b ∷ block) ++ (l ∷ [])) now rest h
