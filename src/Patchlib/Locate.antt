-- ===== src/Patchlib/Locate.antt =====
-- scripts/gameviewer_patchlib.py: `changed_byte_ranges` and `masked_candidates`, which find a known
-- patch again in the executable of a new release.
pub mod Ranges
pub mod Runs
pub mod Complete
use uu_remote_ubuntu_bridge.Prelude.{
  ℕ, zero, suc, ◌+◌, ◌-◌, ◌≤◌, Bool, true, false, ◌&&◌, not, Option, none, some, List, [], ◌∷◌,
  reverse, length, leb, ltb, ◌==◌, if◌then◌else◌, drop, get_elem?,
}
use uu_remote_ubuntu_bridge.Python.Bytes.{find, slice}
use uu_remote_ubuntu_bridge.Patchlib.Manifest.{Patch}

abbrev pub same : Bool → Bool → Bool
same true t = t
same false t = not t

-- The indices, from `at` on, at which the two byte strings agree or differ.
unfoldable pub indices : Bool → List ℕ → List ℕ → ℕ → List ℕ
indices agree [] bs at = []
indices agree (a ∷ as_) [] at = []
indices agree (a ∷ as_) (b ∷ bs) at =
    let rest = indices agree as_ bs (suc at) in if same agree (a == b) then at ∷ rest else rest

-- One step of the loop that joins indices into ranges; the last range stands first.
unfoldable pub join_index : List (ℕ × ℕ) → ℕ → List (ℕ × ℕ)
join_index [] i = (i, suc i) ∷ []
join_index ((start, stop) ∷ ranges) i =
    if i == stop then (start, suc i) ∷ ranges else (i, suc i) ∷ ((start, stop) ∷ ranges)

unfoldable pub join_indices : List (ℕ × ℕ) → List ℕ → List (ℕ × ℕ)
unfolding join_index
join_indices ranges [] = reverse ranges
join_indices ranges (i ∷ is) = join_indices (join_index ranges i) is

-- `changed_byte_ranges`
unfoldable pub changed_byte_ranges : Patch → List (ℕ × ℕ)
changed_byte_ranges p = join_indices [] (indices false p.original p.replacement 0)

-- `max(runs, key=...)`: the first of the longest.
unfoldable pub longest : ℕ × ℕ → List (ℕ × ℕ) → ℕ × ℕ
longest best [] = best
longest best (run ∷ runs) =
    longest (if ltb (best.1 - best.0) (run.1 - run.0) then run else best) runs

abbrev pub same_byte : Option ℕ → Option ℕ → Bool
same_byte (some a) (some b) = a == b
same_byte _ _ = false

-- `all(data[start + index] == patch.original[index] for index in fixed)`
unfoldable pub fixed_match : List ℕ → ℕ → List ℕ → List ℕ → Bool
fixed_match xs start pattern [] = true
fixed_match xs start pattern (i ∷ is) =
    same_byte (get_elem? xs (start + i)) (get_elem? pattern i) && fixed_match xs start pattern is

-- One turn of the loop: the start that an anchor at `position` gives, if it matches.
unfoldable pub candidate_at : List ℕ → List ℕ → List ℕ → ℕ → ℕ → Bool
unfolding fixed_match
candidate_at xs pattern fixed anchor_start position =
    leb anchor_start position
    && leb (position - anchor_start + length pattern) (length xs)
    && fixed_match xs (position - anchor_start) pattern fixed

-- The loop `while True`, which goes on behind each anchor that it finds. Every turn moves
-- `search_from` on, so `length xs + 2` turns are enough.
unfoldable pub search_anchors : ℕ → List ℕ → List ℕ → List ℕ → List ℕ → ℕ → ℕ → List ℕ
search_anchors zero xs pattern fixed anchor anchor_start search_from = []
search_anchors (suc fuel) xs pattern fixed anchor anchor_start search_from =
    elim (find xs anchor search_from) [
      | none ↦ []
      | some position ↦
          let rest = search_anchors fuel xs pattern fixed anchor anchor_start (position + 1) in
          if candidate_at xs pattern fixed anchor_start position
          then (position - anchor_start) ∷ rest
          else rest
    ]

-- `dict.fromkeys(candidates)`: the first of equal members stays.
unfoldable pub contains : ℕ → List ℕ → Bool
contains n [] = false
contains n (m ∷ ms) = if n == m then true else contains n ms

unfoldable pub unique : List ℕ → List ℕ → List ℕ
unique seen [] = []
unique seen (n ∷ ns) = elim (contains n seen) [
  | true ↦ unique seen ns
  | false ↦ n ∷ unique (n ∷ seen) ns
]

unfoldable pub candidates_by : List ℕ → List ℕ → List ℕ → List (ℕ × ℕ) → List ℕ
candidates_by xs pattern fixed [] = []
candidates_by xs pattern fixed (run ∷ runs) =
    let anchor = longest run runs in
    unique [] (
      search_anchors (length xs + 2) xs pattern fixed (slice pattern (anchor.0) (anchor.1))
        (anchor.0) 0)

-- `masked_candidates`
unfoldable pub masked_candidates : List ℕ → Patch → List ℕ
unfolding candidates_by longest unique contains
masked_candidates xs p =
    let fixed = indices true p.original p.replacement 0 in
    candidates_by xs p.original fixed (join_indices [] fixed)
