-- ===== src/Python/Bytes/Search.antt =====
-- `find` returns the first occurrence at or after its start.
use uu_remote_ubuntu_bridge.Prelude.{
  ℕ, zero, suc, ◌+◌, ◌-◌, ◌≤◌, ◌≡◌, refl, inl, inr, false, Option, none, some, List, [], ◌∷◌,
  length, drop, length-drop, leb, subst, arith, Bool-cases,
}
use uu_remote_ubuntu_bridge.Python.Bytes.{begins_with, find_from, find, OccursAt}

-- The first occurrence at or after `start`, or its absence.
pub record IsFirst (needle xs : List ℕ) (start at : ℕ) : Type 0 where
  pub after_start : start ≤ at
  pub occurs : OccursAt needle xs at
  pub least : (q : ℕ) → start ≤ q → OccursAt needle xs q → at ≤ q

-- What `find_from` says of the offsets into the rest that it walks.
FirstFrom : List ℕ → List ℕ → ℕ → Option ℕ → Type 0
FirstFrom needle xs at none = (k : ℕ) → OccursAt needle xs k → ⊥
FirstFrom needle xs at (some p) =
    (k : ℕ) × (p ≡ at + k) × OccursAt needle xs k × ((q : ℕ) → OccursAt needle xs q → k ≤ q)

FirstFrom-cons :
    (needle : List ℕ) (x : ℕ) (xs : List ℕ) (at : ℕ) (r : Option ℕ)
    → begins_with needle (x ∷ xs) ≡ false
    → FirstFrom needle xs (suc at) r
    → FirstFrom needle (x ∷ xs) at r
unfolding FirstFrom
FirstFrom-cons needle x xs at none e h = elim [
  | zero ↦ (λ o. cc (o.1))
  | suc k ↦ (λ o. h k (omega arith, o.1))
]
FirstFrom-cons needle x xs at (some p) e (k, pk, o, least) = (
  suc k,
  omega arith,
  (omega arith, o.1),
  elim [
    | zero ↦ (λ w. cc (w.1))
    | suc q ↦ (λ w. let h : k ≤ q = least q (omega arith, w.1) in omega arith)
  ],
)

find_from_lem : (needle xs : List ℕ) (at : ℕ) → FirstFrom needle xs at (find_from needle xs at)
unfolding find_from FirstFrom
find_from_lem needle [] at = elim (Bool-cases (begins_with needle [])) [
  | inl e ↦ rw e (0, omega arith, (omega arith, e), λ q w. omega arith)
  | inr e ↦ rw e (elim [ zero ↦ (λ w. cc (w.1)) | suc k ↦ (λ w. elim (w.0) [ ]) ])
]
find_from_lem needle (x ∷ xs) at = elim (Bool-cases (begins_with needle (x ∷ xs))) [
  | inl e ↦ rw e (0, omega arith, (omega arith, e), λ q w. omega arith)
  | inr e ↦ rw e (FirstFrom-cons needle x xs at _ e (find_from_lem needle xs (suc at)))
]

drop-nil : (k : ℕ) → drop {A = ℕ} k [] ≡ []
drop-nil zero = refl
drop-nil (suc k) = refl

drop-drop : (xs : List ℕ) (s k : ℕ) → drop k (drop s xs) ≡ drop (s + k) xs
drop-drop xs zero k = let e : 0 + k ≡ k = omega arith in rw e
drop-drop [] (suc s) k = rw (drop-nil k, drop-nil (suc s + k))
drop-drop (x ∷ xs) (suc s) k =
    let e : suc s + k ≡ suc (s + k) = omega arith in rw e (drop-drop xs s k)

module _ (xs needle : List ℕ) (start : ℕ) where
  -- An occurrence in the rest that the search walks is one in the whole, and back.
  whole :
      (k : ℕ)
      → start ≤ length xs
      → OccursAt needle (drop start xs) k
      → OccursAt needle xs (start + k)
  whole k h o = (omega (arith, o.0, length-drop start xs), rw (drop-drop xs start k) at (o.1))

  rest : (q : ℕ) → start ≤ q → OccursAt needle xs q → OccursAt needle (drop start xs) (q - start)
  rest q h o =
      let e : start + (q - start) ≡ q = omega arith in
      (omega (arith, o.0, length-drop start xs), rw (drop-drop xs start (q - start), e) (o.1))

  IsFirst-at :
      (p : ℕ)
      → start ≤ length xs
      → FirstFrom needle (drop start xs) start (some p)
      → IsFirst needle xs start p
  unfolding FirstFrom
  IsFirst-at p h (k, e, o, least) = record {
    after_start = omega arith;
    occurs = rw e (whole k h o);
    least = λ q hq w. let b : k ≤ q - start = least (q - start) (rest q hq w) in omega arith;
  }

  -- `find` gives an offset: it is the first occurrence at or after `start`.
  pub find-some : (p : ℕ) → find xs needle start ≡ some p → IsFirst needle xs start p
  unfolding find
  find-some p h = elim (Bool-cases (leb start (length xs))) [
    | inl e ↦ IsFirst-at p (ground arith) (
        subst (FirstFrom needle (drop start xs) start) (rw e at h)
          (find_from_lem needle (drop start xs) start))
    | inr e ↦ cc (rw e at h)
  ]

  -- `find` gives -1: there is none.
  pub find-none : (q : ℕ) → find xs needle start ≡ none → start ≤ q → OccursAt needle xs q → ⊥
  unfolding find
  find-none q h hq o = elim (Bool-cases (leb start (length xs))) [
    | inl e ↦ none_at (rw e at h) (find_from_lem needle (drop start xs) start)
    | inr e ↦ absurd (ground (arith, o.0))
  ]
    where
      none_at :
          find_from needle (drop start xs) start ≡ none
          → FirstFrom needle (drop start xs) start (find_from needle (drop start xs) start)
          → ⊥
      none_at n f =
          unfold FirstFrom in
          subst (FirstFrom needle (drop start xs) start) n f (q - start) (rest q hq o)

  -- Back from the first occurrence to `find`.
  pub find-eq-some : (p : ℕ) → IsFirst needle xs start p → find xs needle start ≡ some p
  find-eq-some p first = go (find xs needle start) refl
    where
      go : (r : Option ℕ) → find xs needle start ≡ r → r ≡ some p
      go none e = absurd (find-none p e first.after_start first.occurs)
      go (some p') e =
          let f : IsFirst needle xs start p' = find-some p' e in
          let le : p ≤ p' = first.least p' f.after_start f.occurs in
          let ge : p' ≤ p = f.least p first.after_start first.occurs in ground arith

  pub find-eq-none : ((q : ℕ) → start ≤ q → OccursAt needle xs q → ⊥) → find xs needle start ≡ none
  find-eq-none no_one = go (find xs needle start) refl
    where
      go : (r : Option ℕ) → find xs needle start ≡ r → r ≡ none
      go none e = refl
      go (some p') e =
          let f : IsFirst needle xs start p' = find-some p' e in
          absurd (no_one p' f.after_start f.occurs)
