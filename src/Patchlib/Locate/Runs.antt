-- ===== src/Patchlib/Locate/Runs.antt =====
-- The runs of fixed indices, and the anchor that is taken from them.
use uu_remote_ubuntu_bridge.Prelude.{
  ℕ, zero, suc, ◌+◌, ◌-◌, ◌≤◌, ◌<◌, ◌≡◌, refl, true, some, List, [], ◌∷◌, ◌++◌, reverse, length,
  take, drop, length-take, get_elem?, listed, ltb, ◌==◌, arith, inl, inr, Bool-cases,
}
use mathlib.Core.List.{reverse-cons}
use uu_remote_ubuntu_bridge.Python.Bytes.{begins_with, slice, OccursAt}
use uu_remote_ubuntu_bridge.Python.Bytes.Splice.{get_elem?-drop}
use uu_remote_ubuntu_bridge.Patchlib.Read.Order.{All}
use uu_remote_ubuntu_bridge.Patchlib.Locate
use uu_remote_ubuntu_bridge.Patchlib.Locate.{join_index, join_indices, fixed_match}
use uu_remote_ubuntu_bridge.Patchlib.Locate.Ranges.{covered}

abbrev pub NonEmpty : ℕ × ℕ → Type 0
NonEmpty run = run.0 < run.1

All-append : (P : ℕ × ℕ → Type 0) (rs ss : List (ℕ × ℕ)) → All P rs → All P ss → All P (rs ++ ss)
All-append P [] ss a b = b
All-append P (r ∷ rs) ss (p, a) b = (p, All-append P rs ss a b)

All-reverse : (P : ℕ × ℕ → Type 0) (rs : List (ℕ × ℕ)) → All P rs → All P (reverse rs)
All-reverse P [] a = tt
All-reverse P (r ∷ rs) (p, a) =
    rw reverse-cons (All-append P (reverse rs) (r ∷ []) (All-reverse P rs a) (p, tt))

join_index-NonEmpty : (rs : List (ℕ × ℕ)) (i : ℕ) → All NonEmpty rs → All NonEmpty (join_index rs i)
unfolding join_index
join_index-NonEmpty [] i a = (omega arith, tt)
join_index-NonEmpty ((start, stop) ∷ rs) i (p, a) = elim (Bool-cases (i == stop)) [
  | inl e ↦ rw e (ground arith, a)
  | inr e ↦ rw e (omega arith, (p, a))
]

pub join_indices-NonEmpty :
    (rs : List (ℕ × ℕ)) (is : List ℕ) → All NonEmpty rs → All NonEmpty (join_indices rs is)
unfolding join_indices
join_indices-NonEmpty rs [] a = All-reverse NonEmpty rs a
join_indices-NonEmpty rs (i ∷ is) a =
    join_indices-NonEmpty (join_index rs i) is (join_index-NonEmpty rs i a)

-- What holds of all runs holds of the longest.
pub longest-All :
    (P : ℕ × ℕ → Type 0) (run : ℕ × ℕ) (runs : List (ℕ × ℕ))
    → All P (run ∷ runs)
    → P (Locate.longest run runs)
unfolding Locate.longest
longest-All P run [] (p, a) = p
longest-All P run (r ∷ runs) (p, (q, a)) = elim (Bool-cases (ltb (run.1 - run.0) (r.1 - r.0))) [
  | inl e ↦ rw e (longest-All P r runs (q, a))
  | inr e ↦ rw e (longest-All P run runs (p, a))
]

-- A run covers its indices, among others.
pub covered-All :
    (runs more : List (ℕ × ℕ))
    → ((i : ℕ) → covered i runs ≡ true → covered i more ≡ true)
    → All (λ (r : ℕ × ℕ). (i : ℕ) → r.0 ≤ i → i < r.1 → covered i more ≡ true) runs
unfolding covered
covered-All [] more h = tt
covered-All ((a, b) ∷ runs) more h =
    (λ i lo hi. h i (ground arith), covered-All runs more (λ i c. h i (ground (arith, c))))

pub get_elem?-take :
    (n : ℕ) (xs : List ℕ) (j : ℕ) → j < n → get_elem? (take n xs) j ≡ get_elem? xs j
get_elem?-take zero xs j h = absurd (omega arith)
get_elem?-take (suc n) [] j h = refl
get_elem?-take (suc n) (x ∷ xs) zero h = refl
get_elem?-take (suc n) (x ∷ xs) (suc j) h = get_elem?-take n xs j (omega arith)

begins_with-points :
    (needle xs : List ℕ)
    → ((j : ℕ) → j < length needle → get_elem? xs j ≡ get_elem? needle j)
    → begins_with needle xs ≡ true
unfolding begins_with
begins_with-points [] xs h = refl
begins_with-points (n ∷ needle) [] h = cc (h 0 (omega arith))
begins_with-points (n ∷ needle) (x ∷ xs) h =
    let here : some x ≡ some n = h 0 (omega arith) in
    let rest = begins_with-points needle xs (λ j l. h (suc j) (omega arith)) in
    ground (arith, here, rest)

-- Where the bytes of a slice agree with those from an offset on, the slice occurs there.
pub slice-OccursAt :
    (xs pattern : List ℕ) (start a b : ℕ)
    → start + a ≤ length xs
    → ((i : ℕ) → a ≤ i → i < b → get_elem? xs (start + i) ≡ get_elem? pattern i)
    → OccursAt (slice pattern a b) xs (start + a)
slice-OccursAt xs pattern start a b fits same = (
  fits,
  begins_with-points (slice pattern a b) (drop (start + a) xs) (λ j l.
      let inside : j < b - a = omega (arith, l, length-take (b - a) (drop a pattern)) in
      let shifted : start + a + j ≡ start + (a + j) = omega arith in
      rw
        (
          get_elem?-drop xs (start + a) j,
          get_elem?-take (b - a) (drop a pattern) j inside,
          get_elem?-drop pattern a j,
          shifted,
        )
        (same (a + j) (omega arith) (omega arith))),
)

-- `fixed_match` compares the bytes at the fixed indices.
pub fixed_match-listed :
    (xs : List ℕ) (start : ℕ) (pattern fixed : List ℕ) (i : ℕ)
    → fixed_match xs start pattern fixed ≡ true
    → listed i fixed ≡ true
    → Locate.same_byte (get_elem? xs (start + i)) (get_elem? pattern i) ≡ true
unfolding fixed_match
fixed_match-listed xs start pattern [] i h l = cc
fixed_match-listed xs start pattern (j ∷ js) i h l = elim (Bool-cases (i == j)) [
  | inl e ↦ let same : i ≡ j = ground arith in rw same (ground (arith, h))
  | inr e ↦ fixed_match-listed xs start pattern js i (ground (arith, h)) (ground (arith, l, e))
]

pub listed-fixed_match :
    (xs : List ℕ) (start : ℕ) (pattern fixed : List ℕ)
    → ((i : ℕ)
        → listed i fixed ≡ true
        → Locate.same_byte (get_elem? xs (start + i)) (get_elem? pattern i) ≡ true)
    → fixed_match xs start pattern fixed ≡ true
unfolding fixed_match
listed-fixed_match xs start pattern [] h = refl
listed-fixed_match xs start pattern (j ∷ js) h =
    let here = h j (ground arith) in
    let rest = listed-fixed_match xs start pattern js (λ i l. h i (ground (arith, l))) in
    ground (arith, here, rest)
