-- ===== src/Audit/Evidence/Proposal.antt =====
-- What `proposed_replacement` makes of a candidate.
use uu_remote_ubuntu_bridge.Prelude.{
  ℕ, zero, suc, ◌+◌, ◌-◌, ◌≤◌, ◌<◌, ◌≡◌, refl, sym, ◌∙◌, true, false, ◌&&◌, Option, none, some,
  List, [], ◌∷◌, length, drop, length-take, length-drop, get_elem?, leb, ltb, inl, inr, arith,
  Bool-cases,
}
use uu_remote_ubuntu_bridge.Python.Bytes.{slice, splice}
use uu_remote_ubuntu_bridge.Python.Bytes.Splice.{
  length-splice, get_elem?-splice_outside, get_elem?-splice_inside, get_elem?-drop,
}
use uu_remote_ubuntu_bridge.Patchlib.Manifest.{Patch}
use uu_remote_ubuntu_bridge.Patchlib.Read.Order.{All}
use uu_remote_ubuntu_bridge.Patchlib.Locate.{changed_byte_ranges, indices}
use uu_remote_ubuntu_bridge.Patchlib.Locate.Ranges.{covered, compared, changed_byte_ranges_lem}
use uu_remote_ubuntu_bridge.Patchlib.Locate.Runs.{
  NonEmpty, join_indices-NonEmpty, covered-All, get_elem?-take,
}
use uu_remote_ubuntu_bridge.Patchlib.Locate.Complete.{Candidate}
use uu_remote_ubuntu_bridge.Audit.Normalized.Fields.{list_ext}
use uu_remote_ubuntu_bridge.Audit.Evidence.{write_ranges, proposed_replacement}

get_elem?-slice :
    (xs : List ℕ) (a b j : ℕ) → j < b - a → get_elem? (slice xs a b) j ≡ get_elem? xs (a + j)
get_elem?-slice xs a b j h = get_elem?-take (b - a) (drop a xs) j h ∙ get_elem?-drop xs a j

length-slice : (xs : List ℕ) (a b : ℕ) → b ≤ length xs → length (slice xs a b) ≡ b - a
length-slice xs a b h = omega (arith, length-take (b - a) (drop a xs), length-drop a xs)

-- A range that fits in both byte strings.
abbrev Within : List ℕ → ℕ × ℕ → Type 0
Within rs range = (range.0 < range.1) × (range.1 ≤ length rs)

module _ (rs : List ℕ) where
  splice-length :
      (xs : List ℕ) (a b : ℕ)
      → length xs ≡ length rs
      → Within rs (a, b)
      → length (splice xs a b (slice rs a b)) ≡ length rs
  splice-length xs a b e (lt, le) =
      length-splice (slice rs a b) xs a b (omega (arith, length-slice rs a b le)) (omega arith) ∙ e

  -- Where two byte strings of one length agree outside of the ranges, the loop makes them equal.
  write_ranges-lem :
      (ranges : List (ℕ × ℕ)) (xs : List ℕ)
      → length xs ≡ length rs
      → All (Within rs) ranges
      → ((i : ℕ) → covered i ranges ≡ false → get_elem? xs i ≡ get_elem? rs i)
      → write_ranges rs ranges xs ≡ rs
  unfolding write_ranges covered
  write_ranges-lem [] xs e w h = list_ext xs rs e (λ i b. h i refl)
  write_ranges-lem ((a, b) ∷ ranges) xs e (w, ws) h =
      write_ranges-lem ranges (splice xs a b (slice rs a b)) (splice-length xs a b e w) ws λ i c.
        let (lt, le) = w in
        let size = length-slice rs a b le in
        elim (Bool-cases (leb a i && ltb i b)) [
          | inl inside ↦
              let shift : i ≡ a + (i - a) = ground arith in
              let j : ℕ = i - a in
              let bound : i - a < length (slice rs a b) = ground (arith, size) in
              let slot : i - a < b - a = ground arith in
              let moved : a + (i - a) ≡ i = sym shift in
              rw moved at (
                get_elem?-splice_inside (slice rs a b) xs a b (i - a) (omega (arith, e, le))
                  (omega arith) bound
                ∙ get_elem?-slice rs a b (i - a) slot)
          | inr outside ↦
              get_elem?-splice_outside (slice rs a b) xs a b i (omega (arith, size, lt))
                (omega (arith, e, le)) (ground arith)
              ∙ h i (ground (arith, outside, c))
        ]

compared-none : (c : Option ℕ) → compared false c none ≡ false
compared-none none = refl
compared-none (some a) = refl

compared-bounds :
    (os rs : List ℕ) (i : ℕ)
    → compared false (get_elem? os i) (get_elem? rs i) ≡ true
    → i < length rs
compared-bounds [] rs i h = cc
compared-bounds (o ∷ os) [] i h = cc (compared-none (get_elem? (o ∷ os) i), h)
compared-bounds (o ∷ os) (r ∷ rs) zero h = omega arith
compared-bounds (o ∷ os) (r ∷ rs) (suc i) h = omega (arith, compared-bounds os rs i h)

-- An index at which the two byte strings do not differ is one at which they agree.
compared-same :
    (os rs : List ℕ) (i : ℕ)
    → length os ≡ length rs
    → i < length os
    → compared false (get_elem? os i) (get_elem? rs i) ≡ false
    → (compared true (get_elem? os i) (get_elem? rs i) ≡ true) × (get_elem? os i ≡ get_elem? rs i)
compared-same [] rs i e b h = absurd (omega arith)
compared-same (o ∷ os) [] i e b h = absurd (omega arith)
compared-same (o ∷ os) (r ∷ rs) zero e b h = (ground arith, ground arith)
compared-same (o ∷ os) (r ∷ rs) (suc i) e b h = compared-same os rs i (omega arith) (omega arith) h

all-Within :
    (os rs : List ℕ) (ranges more : List (ℕ × ℕ))
    → ((i : ℕ) → covered i more ≡ compared false (get_elem? os i) (get_elem? rs i))
    → All NonEmpty ranges
    → All (λ (r : ℕ × ℕ). (i : ℕ) → r.0 ≤ i → i < r.1 → covered i more ≡ true) ranges
    → All (Within rs) ranges
all-Within os rs [] more c n a = tt
all-Within os rs ((start, stop) ∷ ranges) more c (n, ns) (a, as_) =
    let last : covered (stop - 1) more ≡ true = a (stop - 1) (omega arith) (omega arith) in
    let bound = compared-bounds os rs (stop - 1) (sym (c (stop - 1)) ∙ last) in
    ((n, omega arith), all-Within os rs ranges more c ns as_)

get_elem?-past : (xs : List ℕ) (i : ℕ) → length xs ≤ i → get_elem? xs i ≡ none
get_elem?-past [] i h = refl
get_elem?-past (x ∷ xs) zero h = absurd (omega arith)
get_elem?-past (x ∷ xs) (suc i) h = get_elem?-past xs i (omega arith)

-- At a candidate, the proposed bytes are those of the known patch: what the draft offers is the patch
-- that was reviewed for the earlier release, and differs from it at no byte. The patch is one whose
-- byte strings have the same length, as those of a manifest have.
pub proposed_replacement-Candidate :
    (xs : List ℕ) (p : Patch) (start : ℕ)
    → length p.original ≡ length p.replacement
    → Candidate xs p start
    → proposed_replacement xs start p ≡ p.replacement
unfolding proposed_replacement
proposed_replacement-Candidate xs p start e c =
    let ranges = changed_byte_ranges p in
    let size : length (slice xs start (start + length p.original)) ≡ length p.original =
      omega (arith, length-slice xs start (start + length p.original) c.fits) in
    write_ranges-lem p.replacement ranges (slice xs start (start + length p.original)) (size ∙ e)
      (all-Within p.original p.replacement ranges ranges (changed_byte_ranges_lem p)
        (unfold changed_byte_ranges in
          join_indices-NonEmpty [] (indices false p.original p.replacement 0) tt)
        (covered-All ranges ranges (λ i h. h)))
      λ i h. elim (Bool-cases (ltb i (length p.original))) [
        | inl b ↦
            let bound : i < length p.original = ground arith in
            let inside : i < start + length p.original - start = omega arith in
            let (fixed, same) =
              compared-same p.original p.replacement i e bound
                (sym (changed_byte_ranges_lem p i) ∙ h) in
            get_elem?-slice xs start (start + length p.original) i inside
            ∙ (c.matches i fixed ∙ same)
        | inr b ↦
            get_elem?-past _ i (ground (arith, size))
            ∙ sym (get_elem?-past p.replacement i (ground (arith, e)))
      ]
