-- ===== src/Patchlib/Locate/Ranges.antt =====
-- The ranges of `changed_byte_ranges` cover exactly the indices at which the two byte strings differ.
use uu_remote_ubuntu_bridge.Prelude.{
  ℕ, zero, suc, ◌+◌, ◌<◌, ◌≡◌, refl, ◌∙◌, Bool, false, ◌&&◌, ◌||◌, Option, some, List, [], ◌∷◌,
  ◌++◌, reverse, leb, ltb, ◌==◌, arith, get_elem?, listed, Bool-cases, inl, inr,
}
use uu_remote_ubuntu_bridge.Patchlib.Manifest.{Patch}
use mathlib.Core.List.{reverse-cons}
use uu_remote_ubuntu_bridge.Patchlib.Locate.{
  same, indices, join_index, join_indices, changed_byte_ranges,
}

-- `i` lies in one of the ranges.
unfoldable pub covered : ℕ → List (ℕ × ℕ) → Bool
covered i [] = false
covered i ((start, stop) ∷ ranges) = (leb start i && ltb i stop) || covered i ranges

covered-append :
    (i : ℕ) (rs ss : List (ℕ × ℕ)) → covered i (rs ++ ss) ≡ (covered i rs || covered i ss)
unfolding covered
covered-append i [] ss = refl
covered-append i ((a, b) ∷ rs) ss = ground (arith, covered-append i rs ss)

covered-reverse : (i : ℕ) (rs : List (ℕ × ℕ)) → covered i (reverse rs) ≡ covered i rs
unfolding covered
covered-reverse i [] = refl
covered-reverse i ((a, b) ∷ rs) =
    rw (reverse-cons, covered-append, covered-reverse i rs) (unfold covered in ground arith)

-- The last range is not empty.
unfoldable pub HeadOk : List (ℕ × ℕ) → Type 0
HeadOk [] = Unit
HeadOk ((start, stop) ∷ rs) = start < stop

join_index-HeadOk : (rs : List (ℕ × ℕ)) (j : ℕ) → HeadOk rs → HeadOk (join_index rs j)
unfolding join_index HeadOk
join_index-HeadOk [] j h = omega arith
join_index-HeadOk ((start, stop) ∷ rs) j h = elim (Bool-cases (j == stop)) [
  | inl e ↦ rw e (ground arith)
  | inr e ↦ rw e (omega arith)
]

covered-join_index :
    (i : ℕ) (rs : List (ℕ × ℕ)) (j : ℕ)
    → HeadOk rs
    → covered i (join_index rs j) ≡ (i == j || covered i rs)
unfolding join_index covered HeadOk
covered-join_index i [] j h = ground arith
covered-join_index i ((start, stop) ∷ rs) j h = ground arith

pub covered-join_indices :
    (i : ℕ) (rs : List (ℕ × ℕ)) (js : List ℕ)
    → HeadOk rs
    → covered i (join_indices rs js) ≡ (listed i js || covered i rs)
unfolding join_indices
covered-join_indices i rs [] h = covered-reverse i rs
covered-join_indices i rs (j ∷ js) h =
    covered-join_indices i (join_index rs j) js (join_index-HeadOk rs j h)
    ∙ rw (covered-join_index i rs j h) (ground arith)

abbrev pub compared : Bool → Option ℕ → Option ℕ → Bool
compared agree (some a) (some b) = same agree (a == b)
compared agree _ _ = false

listed-fresh :
    (agree : Bool) (as_ bs : List ℕ) (at j : ℕ)
    → j < at
    → listed j (indices agree as_ bs at) ≡ false
unfolding indices
listed-fresh agree [] bs at j h = refl
listed-fresh agree (a ∷ as_) [] at j h = refl
listed-fresh agree (a ∷ as_) (b ∷ bs) at j h =
    ground (arith, listed-fresh agree as_ bs (suc at) j (omega arith))

pub listed-indices :
    (agree : Bool) (as_ bs : List ℕ) (at k : ℕ)
    → listed (at + k) (indices agree as_ bs at) ≡ compared agree (get_elem? as_ k) (get_elem? bs k)
unfolding indices
listed-indices agree [] bs at k = refl
listed-indices agree (a ∷ as_) [] at k = ground arith
listed-indices agree (a ∷ as_) (b ∷ bs) at zero =
    let e : at + 0 ≡ at = omega arith in
    rw e (ground (arith, listed-fresh agree as_ bs (suc at) at (omega arith)))
listed-indices agree (a ∷ as_) (b ∷ bs) at (suc k) =
    let e : at + suc k ≡ suc at + k = omega arith in
    rw e (ground (arith, listed-indices agree as_ bs (suc at) k))

-- An index lies in one of the ranges exactly if both byte strings have a byte there and the two differ.
pub changed_byte_ranges_lem :
    (p : Patch) (k : ℕ)
    → covered k (changed_byte_ranges p)
      ≡ compared false (get_elem? p.original k) (get_elem? p.replacement k)
unfolding changed_byte_ranges
changed_byte_ranges_lem p k =
    let e : 0 + k ≡ k = omega arith in
    let found = listed-indices false p.original p.replacement 0 k in
    covered-join_indices k [] (indices false p.original p.replacement 0) (unfold HeadOk in tt)
    ∙ (unfold covered in ground (arith, rw e at found))
