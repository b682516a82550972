-- ===== src/Python/Bytes/Occurrences.antt =====
-- A loop over `find` that goes on one byte behind each occurrence finds all of them.
use uu_remote_ubuntu_bridge.Prelude.{
  ℕ, zero, suc, ◌+◌, ◌≤◌, ◌<◌, ◌≡◌, inl, inr, true, none, some, List, [], ◌∷◌, length, ◌==◌, listed,
  arith, Bool-cases, Option-cases,
}
use uu_remote_ubuntu_bridge.Python.Bytes.{find, OccursAt}
use uu_remote_ubuntu_bridge.Python.Bytes.Search.{IsFirst, find-some, find-none}

-- Every turn moves `start` on, so `length xs + 2` turns are enough.
unfoldable pub occurrences_from : ℕ → List ℕ → List ℕ → ℕ → List ℕ
occurrences_from zero xs needle start = []
occurrences_from (suc fuel) xs needle start = elim (find xs needle start) [
  | none ↦ []
  | some p ↦ p ∷ occurrences_from fuel xs needle (p + 1)
]

module _ (xs needle : List ℕ) where
  pub occurrences_from-none :
      (fuel start : ℕ)
      → find xs needle start ≡ none
      → occurrences_from (suc fuel) xs needle start ≡ []
  unfolding occurrences_from
  occurrences_from-none fuel start e = ground (arith, e)

  pub occurrences_from-some :
      (fuel start p : ℕ)
      → find xs needle start ≡ some p
      → occurrences_from (suc fuel) xs needle start ≡ p ∷ occurrences_from fuel xs needle (p + 1)
  unfolding occurrences_from
  occurrences_from-some fuel start p e = ground (arith, e)

  -- What is listed occurs.
  pub occurrences_from_sound :
      (fuel start p : ℕ)
      → listed p (occurrences_from fuel xs needle start) ≡ true
      → (start ≤ p) × OccursAt needle xs p
  unfolding occurrences_from
  occurrences_from_sound zero start p h = cc
  occurrences_from_sound (suc fuel) start p h = elim (Option-cases (find xs needle start)) [
    | inl e ↦ cc (rw (occurrences_from-none fuel start e) at h)
    | inr (q, e) ↦
        let f : IsFirst needle xs start q = find-some xs needle start q e in
        elim (Bool-cases (p == q)) [
          | inl same ↦
              let here : q ≡ p = ground arith in
              (omega (arith, f.after_start, here), rw (← here) f.occurs)
          | inr other ↦
              let (a, b) =
                occurrences_from_sound fuel (q + 1) p
                  (ground (arith, rw (occurrences_from-some fuel start q e) at h, other)) in
              (omega (arith, f.after_start, a), b)
        ]
  ]

  -- What occurs at or after the start is listed, where the fuel is enough.
  pub occurrences_from_complete :
      (fuel start p : ℕ)
      → length xs < fuel + start
      → start ≤ p
      → OccursAt needle xs p
      → listed p (occurrences_from fuel xs needle start) ≡ true
  unfolding occurrences_from
  occurrences_from_complete zero start p f h o = absurd (omega (arith, o.0))
  occurrences_from_complete (suc fuel) start p f h o = elim (Option-cases (find xs needle start)) [
    | inl e ↦ absurd (find-none xs needle start p e h o)
    | inr (q, e) ↦
        let g : IsFirst needle xs start q = find-some xs needle start q e in
        let lo : q ≤ p = g.least p h o in
        let after : start ≤ q = g.after_start in
        rw (occurrences_from-some fuel start q e) (elim (Bool-cases (p == q)) [
          | inl same ↦ ground (arith, same)
          | inr other ↦
              let rest = occurrences_from_complete fuel (q + 1) p (omega arith) (ground arith) o in
              ground (arith, rest)
        ])
  ]
