-- ===== src/Patchlib/Locate/Complete.antt =====
-- `masked_candidates` finds every place at which the fixed bytes of a patch stand, and no other.
use uu_remote_ubuntu_bridge.Prelude.{
  ℕ, zero, suc, ◌+◌, ◌-◌, ◌≤◌, ◌<◌, ◌≡◌, refl, sym, ap, subst, ◌∙◌, ◌↔◌, true, false, not, ◌&&◌,
  Option, none, some, List, [], ◌∷◌, length, get_elem?, listed, leb, ◌==◌, arith, inl, inr,
  Bool-cases, Option-cases, if◌then◌else◌,
}
use uu_remote_ubuntu_bridge.Python.Bytes.{find, slice}
use uu_remote_ubuntu_bridge.Python.Bytes.Occurrences.{
  occurrences_from, occurrences_from-none, occurrences_from-some, occurrences_from_complete,
}
use uu_remote_ubuntu_bridge.Patchlib.Manifest.{Patch}
use uu_remote_ubuntu_bridge.Patchlib.Read.Order.{All}
use uu_remote_ubuntu_bridge.Patchlib.Locate
use uu_remote_ubuntu_bridge.Patchlib.Locate.{
  indices, join_indices, fixed_match, candidate_at, search_anchors, longest, masked_candidates,
}
use uu_remote_ubuntu_bridge.Patchlib.Locate.Ranges.{
  covered, compared, covered-join_indices, listed-indices, HeadOk,
}
use uu_remote_ubuntu_bridge.Patchlib.Locate.Runs.{
  NonEmpty, join_indices-NonEmpty, longest-All, covered-All, slice-OccursAt, fixed_match-listed,
  listed-fixed_match,
}

contains-listed : (n : ℕ) (ms : List ℕ) → Locate.contains n ms ≡ listed n ms
unfolding Locate.contains
contains-listed n [] = refl
contains-listed n (m ∷ ms) = ground (arith, contains-listed n ms)

unique-in :
    (seen ns : List ℕ) (m : ℕ)
    → Locate.contains m seen ≡ true
    → Locate.unique seen (m ∷ ns) ≡ Locate.unique seen ns
unfolding Locate.unique
unique-in seen ns m e = ground (arith, e)

unique-out :
    (seen ns : List ℕ) (m : ℕ)
    → Locate.contains m seen ≡ false
    → Locate.unique seen (m ∷ ns) ≡ m ∷ Locate.unique (m ∷ seen) ns
unfolding Locate.unique
unique-out seen ns m e = ground (arith, e)

-- A member that was seen before is left out, and no other.
listed-unique :
    (n : ℕ) (seen ns : List ℕ)
    → listed n (Locate.unique seen ns) ≡ (listed n ns && not (listed n seen))
listed-unique n seen [] = unfold Locate.unique in refl
listed-unique n seen (m ∷ ns) = elim (Bool-cases (Locate.contains m seen)) [
  | inl e ↦ elim (Bool-cases (n == m)) [
    | inl same ↦
        let eq : n ≡ m = ground arith in
        let there : listed n seen ≡ true = rw (eq, ← contains-listed m seen) e in
        rw (unique-in seen ns m e) (ground (arith, listed-unique n seen ns, there))
    | inr other ↦ rw (unique-in seen ns m e) (ground (arith, listed-unique n seen ns, other))
  ]
  | inr e ↦ elim (Bool-cases (n == m)) [
    | inl same ↦
        let eq : n ≡ m = ground arith in
        let not_there : listed n seen ≡ false = rw (eq, ← contains-listed m seen) e in
        rw (unique-out seen ns m e) (ground (arith, same, not_there))
    | inr other ↦ rw (unique-out seen ns m e) (ground (arith, listed-unique n (m ∷ seen) ns, other))
  ]
]

candidate_at-le :
    (xs pattern fixed : List ℕ) (a q : ℕ) → candidate_at xs pattern fixed a q ≡ true → a ≤ q
unfolding candidate_at
candidate_at-le xs pattern fixed a q h = ground arith

module _ (xs pattern fixed : List ℕ) (a : ℕ) where
  -- The starts that the anchors at some positions give.
  kept : List ℕ → List ℕ
  kept [] = []
  kept (q ∷ qs) =
      let rest = kept qs in if candidate_at xs pattern fixed a q then (q - a) ∷ rest else rest

  search_anchors-kept :
      (fuel : ℕ) (anchor : List ℕ) (from : ℕ)
      → search_anchors fuel xs pattern fixed anchor a from
        ≡ kept (occurrences_from fuel xs anchor from)
  unfolding search_anchors kept
  search_anchors-kept zero anchor from = unfold occurrences_from in refl
  search_anchors-kept (suc fuel) anchor from = elim (Option-cases (find xs anchor from)) [
    | inl e ↦ rw (occurrences_from-none xs anchor fuel from e) (ground (arith, e))
    | inr (q, e) ↦
        rw (occurrences_from-some xs anchor fuel from q e)
          (ground (arith, e, search_anchors-kept fuel anchor (q + 1)))
  ]

  listed-kept :
      (start : ℕ) (qs : List ℕ)
      → listed start (kept qs)
        ≡ (listed (start + a) qs && candidate_at xs pattern fixed a (start + a))
  unfolding kept
  listed-kept start [] = refl
  listed-kept start (q ∷ qs) = elim (Bool-cases (candidate_at xs pattern fixed a q)) [
    | inl e ↦ elim (Bool-cases (start + a == q)) [
      | inl same ↦
          let eq : q ≡ start + a = ground arith in
          let there : candidate_at xs pattern fixed a (start + a) ≡ true = rw (← eq) e in
          let here : start ≡ q - a = omega (arith, eq) in ground (arith, e, there, here)
      | inr other ↦
          let le = candidate_at-le xs pattern fixed a q e in
          ground (arith, e, other, le, listed-kept start qs)
    ]
    | inr e ↦ elim (Bool-cases (start + a == q)) [
      | inl same ↦
          let eq : q ≡ start + a = ground arith in
          let there : candidate_at xs pattern fixed a (start + a) ≡ false = rw (← eq) e in
          ground (arith, e, there, listed-kept start qs)
      | inr other ↦ ground (arith, e, other, listed-kept start qs)
    ]
  ]

  -- The anchor's own start is taken exactly if the fixed bytes stand there.
  candidate_at-start :
      (start : ℕ)
      → candidate_at xs pattern fixed a (start + a)
        ≡ (leb (start + length pattern) (length xs) && fixed_match xs start pattern fixed)
  unfolding candidate_at
  candidate_at-start start =
      let e : start + a - a ≡ start = omega arith in
      let le : leb a (start + a) ≡ true = ground arith in rw e (ground (arith, le))

-- The fixed bytes of a patch, one at least, stand in the bytes at a start.
pub record Candidate (xs : List ℕ) (p : Patch) (start : ℕ) : Type 0 where
  pub fits : start + length p.original ≤ length xs
  pub index : ℕ
  pub fixed : compared true (get_elem? p.original index) (get_elem? p.replacement index) ≡ true
  pub matches :
      (i : ℕ)
      → compared true (get_elem? p.original i) (get_elem? p.replacement i) ≡ true
      → get_elem? xs (start + i) ≡ get_elem? p.original i

same_byte-eq : (b c : Option ℕ) → Locate.same_byte b c ≡ true → b ≡ c
same_byte-eq none c h = cc
same_byte-eq (some b) none h = cc
same_byte-eq (some b) (some c) h = ground arith

same_byte-compared :
    (b c r : Option ℕ) → b ≡ c → compared true c r ≡ true → Locate.same_byte b c ≡ true
same_byte-compared b none r e h = cc
same_byte-compared b (some c) r e h = rw e (ground arith)

compared-bound :
    (xs : List ℕ) (i : ℕ) (r : Option ℕ) → compared true (get_elem? xs i) r ≡ true → i < length xs
compared-bound [] i r h = cc
compared-bound (x ∷ xs) zero r h = omega arith
compared-bound (x ∷ xs) (suc i) r h = omega (arith, compared-bound xs i r h)

module _ (xs : List ℕ) (p : Patch) where
  fixed_of : List ℕ
  fixed_of = indices true p.original p.replacement 0

  listed-fixed :
      (i : ℕ)
      → listed i fixed_of ≡ compared true (get_elem? p.original i) (get_elem? p.replacement i)
  unfolding fixed_of
  listed-fixed i =
      let e : 0 + i ≡ i = omega arith in rw e at (listed-indices true p.original p.replacement 0 i)

  matched :
      (start : ℕ)
      → fixed_match xs start p.original fixed_of ≡ true
      → (i : ℕ) → compared true (get_elem? p.original i) (get_elem? p.replacement i) ≡ true
      → get_elem? xs (start + i) ≡ get_elem? p.original i
  matched start h i c =
      same_byte-eq _ _ (fixed_match-listed xs start p.original fixed_of i h (listed-fixed i ∙ c))

  match :
      (start : ℕ)
      → ((i : ℕ)
          → compared true (get_elem? p.original i) (get_elem? p.replacement i) ≡ true
          → get_elem? xs (start + i) ≡ get_elem? p.original i)
      → fixed_match xs start p.original fixed_of ≡ true
  match start h = listed-fixed_match xs start p.original fixed_of λ i l.
      let c = sym (listed-fixed i) ∙ l in
      same_byte-compared _ _ (get_elem? p.replacement i) (h i c) c

  covered-fixed : (i : ℕ) → covered i (join_indices [] fixed_of) ≡ listed i fixed_of
  covered-fixed i =
      covered-join_indices i [] fixed_of (unfold HeadOk in tt) ∙ unfold covered in ground arith

  module _ (run : ℕ × ℕ) (runs : List (ℕ × ℕ)) (e : join_indices [] fixed_of ≡ run ∷ runs) where
    anchor : ℕ × ℕ
    anchor = longest run runs

    anchor-NonEmpty : anchor.0 < anchor.1
    unfolding anchor
    anchor-NonEmpty =
        longest-All NonEmpty run runs
          (subst (All NonEmpty) e (join_indices-NonEmpty [] fixed_of tt))

    anchor-fixed :
        (i : ℕ)
        → anchor.0 ≤ i
        → i < anchor.1
        → compared true (get_elem? p.original i) (get_elem? p.replacement i) ≡ true
    unfolding anchor
    anchor-fixed i lo hi =
        let c : covered i (run ∷ runs) ≡ true =
          longest-All (λ (r : ℕ × ℕ). (i : ℕ) → r.0 ≤ i → i < r.1 → covered i (run ∷ runs) ≡ true)
            run runs (covered-All (run ∷ runs) (run ∷ runs) (λ j h. h)) i lo hi in
        sym (listed-fixed i) ∙ (sym (covered-fixed i) ∙ (ap (covered i) e ∙ c))

    -- What the list of candidates holds, in terms of the anchor's occurrences.
    listed-candidates :
        (start : ℕ)
        → listed start (Locate.candidates_by xs p.original fixed_of (run ∷ runs)) ≡ (
            listed
              (start + anchor.0)
              (occurrences_from (length xs + 2) xs (slice p.original anchor.0 anchor.1) 0)
            && (leb (start + length p.original) (length xs)
                && fixed_match xs start p.original fixed_of))
    unfolding Locate.candidates_by anchor
    listed-candidates start =
        listed-unique start [] _
        ∙ (rw
            (
              search_anchors-kept xs p.original fixed_of (longest run runs).0 (length xs + 2)
                  (slice p.original (longest run runs).0 (longest run runs).1) 0,
              listed-kept xs p.original fixed_of (longest run runs).0 start,
              candidate_at-start xs p.original fixed_of (longest run runs).0 start,
            )
            (ground arith))

    listed-Candidate :
        (start : ℕ)
        → listed start (Locate.candidates_by xs p.original fixed_of (run ∷ runs)) ≡ true
        → Candidate xs p start
    listed-Candidate start h =
        let h' = sym (listed-candidates start) ∙ h in
        record {
          fits = ground (arith, h');
          index = anchor.0;
          fixed = anchor-fixed anchor.0 (omega arith) anchor-NonEmpty;
          matches = matched start (ground (arith, h'));
        }

    Candidate-listed :
        (start : ℕ)
        → Candidate xs p start
        → listed start (Locate.candidates_by xs p.original fixed_of (run ∷ runs)) ≡ true
    Candidate-listed start c =
        let bound =
          compared-bound p.original anchor.0 _
            (anchor-fixed anchor.0 (omega arith) anchor-NonEmpty) in
        let occurs =
          slice-OccursAt xs p.original start anchor.0 anchor.1 (omega (arith, c.fits, bound))
            (λ i lo hi. c.matches i (anchor-fixed i lo hi)) in
        let found =
          occurrences_from_complete xs (slice p.original anchor.0 anchor.1) (length xs + 2) 0
            (start + anchor.0) (omega arith) (omega arith) occurs in
        let same = match start c.matches in
        let fits : leb (start + length p.original) (length xs) ≡ true = ground (arith, c.fits) in
        listed-candidates start ∙ ground (arith, found, same, fits)

  candidates_by_iff :
      (runs : List (ℕ × ℕ)) (start : ℕ)
      → join_indices [] fixed_of ≡ runs
      → (listed start (Locate.candidates_by xs p.original fixed_of runs) ≡ true)
        ↔ Candidate xs p start
  candidates_by_iff [] start e = (
    (λ h. unfold Locate.candidates_by in cc),
    λ c.
        let there : covered c.index [] ≡ true =
          subst (λ (rs : List (ℕ × ℕ)). covered c.index rs ≡ true) e
            (covered-fixed c.index ∙ (listed-fixed c.index ∙ c.fixed)) in
        unfold covered in cc,
  )
  candidates_by_iff (run ∷ runs) start e =
      (listed-Candidate run runs e start, Candidate-listed run runs e start)

  -- An offset is one of the candidates exactly if the patch fits there and all of its bytes that do not
  -- change, of which there is one at least, stand there: no place is missed, whatever anchor the search
  -- takes, and no other is offered.
  pub masked_candidates_iff :
      (start : ℕ) → (listed start (masked_candidates xs p) ≡ true) ↔ Candidate xs p start
  unfolding masked_candidates fixed_of
  masked_candidates_iff start = candidates_by_iff (join_indices [] fixed_of) start refl
