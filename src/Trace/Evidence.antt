-- ===== src/Trace/Evidence.antt =====
-- Which events stand behind a count of pairs.
use uu_remote_ubuntu_bridge.Prelude.{
  ℕ, ◌+◌, ◌≤◌, ◌<◌, ◌≡◌, String, Bool, true, ◌&&◌, List, [], ◌∷◌, arith, str_eq, eq_iff, inl, inr,
  Bool-cases,
}
use uu_remote_ubuntu_bridge.Trace.{InputEvent, Kind, select, same_kind, greedy_pairs, button_fits}
use uu_remote_ubuntu_bridge.Trace.Pairing
use uu_remote_ubuntu_bridge.Trace.Pairing.{Removes, Matching, greedy_pairs-Matching}

-- The event stands in the list.
pub data In (e : InputEvent) : List InputEvent → Type 0 where
  first : (es : List InputEvent) → In e (e ∷ es)
  later : {es : List InputEvent} (f : InputEvent) → In e es → In e (f ∷ es)

-- `f` comes within the window after `e`, with the same button if `e` has one.
pub record Pair (window_ms : ℕ) (e f : InputEvent) : Type 0 where
  pub early : e.observed_ms ≤ f.observed_ms + 100
  pub late : f.observed_ms ≤ e.observed_ms + window_ms
  pub button : button_fits e.button f.button ≡ true

Removes-In :
    {e : InputEvent} {window_ms : ℕ} {available left : List InputEvent}
    → Removes e window_ms available left
    → (f : InputEvent) × In f available × Pair window_ms e f
Removes-In (Pairing.here p rest a b c) = (p, first rest, record { early = a; late = b; button = c })
Removes-In (Pairing.there p r) = let (f, i, pair) = Removes-In r in (f, later p i, pair)

left-In :
    {e : InputEvent} {window_ms : ℕ} {available left : List InputEvent} {f : InputEvent}
    → Removes e window_ms available left
    → In f left
    → In f available
left-In (Pairing.here p rest a b c) i = later p i
left-In (Pairing.there p r) (first es) = first _
left-In (Pairing.there p r) (later q i) = later q (left-In r i)

Matching-In :
    {window_ms : ℕ} {outer inner : List InputEvent} {n : ℕ}
    → Matching window_ms outer inner n
    → 0 < n
    → (e f : InputEvent) × In e outer × In f inner × Pair window_ms e f
Matching-In (Pairing.done inner) h = absurd (omega (arith, h))
Matching-In (Pairing.alone x m) h =
    let (e, f, i, j, pair) = Matching-In m h in (e, f, later x i, j, pair)
Matching-In (Pairing.paired x r m) h = let (f, j, pair) = Removes-In r in (x, f, first _, j, pair)

-- A count of pairs that is not 0 has a pair in the two lists.
pub greedy_pairs-In :
    (window_ms : ℕ) (outer inner : List InputEvent)
    → 0 < greedy_pairs window_ms outer inner
    → (e f : InputEvent) × In e outer × In f inner × Pair window_ms e f
greedy_pairs-In window_ms outer inner h =
    Matching-In (greedy_pairs-Matching window_ms outer inner) h

-- The event is one of those, in the layer and of the kind, over such a target.
pub record Selected (layer : String) (kind : Kind) (on_target : String → Bool)
    (es : List InputEvent) (e : InputEvent) : Type 0 where
  pub recorded : In e es
  pub in_layer : e.layer ≡ layer
  pub of_kind : e.kind ≡ kind
  pub over : on_target e.target ≡ true

same_kind-eq : (a b : Kind) → same_kind a b ≡ true → a ≡ b
same_kind-eq a b h = ground arith

module _ (layer : String) (kind : Kind) (on_target : String → Bool) where
  behind :
      (x e : InputEvent) (es : List InputEvent)
      → Selected layer kind on_target es e
      → Selected layer kind on_target (x ∷ es) e
  behind x e es s = record {
    recorded = later x s.recorded;
    in_layer = s.in_layer;
    of_kind = s.of_kind;
    over = s.over;
  }

  Selected-first :
      (x : InputEvent) (es : List InputEvent)
      → (str_eq x.layer layer && same_kind x.kind kind && on_target x.target) ≡ true
      → Selected layer kind on_target (x ∷ es) x
  Selected-first x es h = record {
    recorded = first es;
    in_layer = (eq_iff x.layer layer).0 (ground arith);
    of_kind = same_kind-eq x.kind kind (ground arith);
    over = ground arith;
  }

  front_or :
      (x e : InputEvent) (es rest : List InputEvent)
      → Selected layer kind on_target (x ∷ es) x
      → (In e rest → Selected layer kind on_target es e)
      → In e (x ∷ rest)
      → Selected layer kind on_target (x ∷ es) e
  front_or x e es rest s next (first rest') = s
  front_or x e es rest s next (later y i) = behind x e es (next i)

  pub select-In :
      (es : List InputEvent) (e : InputEvent)
      → In e (select layer kind on_target es)
      → Selected layer kind on_target es e
  unfolding select
  select-In [] e i = elim i [ ]
  select-In (x ∷ es) e i =
      elim (Bool-cases (str_eq x.layer layer && same_kind x.kind kind && on_target x.target)) [
        | inl h ↦
            front_or x e es (select layer kind on_target es) (Selected-first x es h)
              (select-In es e) (rw h at i)
        | inr h ↦ behind x e es (select-In es e (rw h at i))
      ]
