-- ===== src/Audit/Normalized/Fields.antt =====
-- What two files with the same normalized bytes have in common.
use uu_remote_ubuntu_bridge.Prelude.{
  ℕ, suc, ◌+◌, ◌≤◌, ◌<◌, ◌≡◌, refl, sym, ap, ◌∙◌, ◌↔◌, ◌⊎◌, inl, inr, some, List, [], ◌∷◌, ok,
  length, get_elem?, replicate, arith, ltb, leb, ◌-◌, ◌&&◌, Bool-cases,
}
use uu_remote_ubuntu_bridge.Python.Bytes.{splice}
use uu_remote_ubuntu_bridge.Python.Bytes.Splice.{
  length-splice, get_elem?-splice_outside, get_elem?-splice_inside,
}
use uu_remote_ubuntu_bridge.Audit.Pe.{pe_offset}
use uu_remote_ubuntu_bridge.Audit.Normalized.{normalized_bytes, blanked}

-- Lists with the same length and the same members at each index.
pub list_ext :
    (xs ys : List ℕ)
    → length xs ≡ length ys
    → ((i : ℕ) → i < length xs → get_elem? xs i ≡ get_elem? ys i)
    → xs ≡ ys
list_ext [] [] l h = refl
list_ext [] (y ∷ ys) l h = absurd (omega arith)
list_ext (x ∷ xs) [] l h = absurd (omega arith)
list_ext (x ∷ xs) (y ∷ ys) l h =
    let here : some x ≡ some y = h 0 (omega arith) in
    let rest : xs ≡ ys = list_ext xs ys (omega arith) (λ i b. h (suc i) (omega arith)) in cc

-- The index lies in neither field of the header at an offset.
pub record Outside (at i : ℕ) : Type 0 where
  pub of_time_stamp : (i < at + 8) ⊎ (at + 12 ≤ i)
  pub of_checksum : (i < at + 24 + 64) ⊎ (at + 24 + 68 ≤ i)

module _ (xs : List ℕ) (at : ℕ) (fits : at + 24 + 68 ≤ length xs) where
  first : List ℕ
  first = splice xs (at + 8) (at + 12) (replicate 4 0)

  length-first : length first ≡ length xs
  unfolding first
  length-first = length-splice (replicate 4 0) xs (at + 8) (at + 12) (omega arith) (omega arith)

  length-blanked : length (blanked xs at) ≡ length xs
  unfolding first
  length-blanked =
      length-splice (replicate 4 0) first (at + 24 + 64) (at + 24 + 68) (omega arith)
        (omega (arith, length-first))
      ∙ length-first

  blanked-Outside : (i : ℕ) → Outside at i → get_elem? (blanked xs at) i ≡ get_elem? xs i
  unfolding first
  blanked-Outside i o =
      get_elem?-splice_outside (replicate 4 0) first (at + 24 + 64) (at + 24 + 68) i (omega arith)
        (omega (arith, length-first)) o.of_checksum
      ∙ get_elem?-splice_outside (replicate 4 0) xs (at + 8) (at + 12) i (omega arith) (omega arith)
          o.of_time_stamp

  blanked-checksum :
      (j : ℕ) → j < 4 → get_elem? (blanked xs at) (at + 24 + 64 + j) ≡ get_elem? (replicate 4 0) j
  unfolding first
  blanked-checksum j l =
      get_elem?-splice_inside (replicate 4 0) first (at + 24 + 64) (at + 24 + 68) j
        (omega (arith, length-first)) (omega arith) l

  blanked-time_stamp :
      (j : ℕ) → j < 4 → get_elem? (blanked xs at) (at + 8 + j) ≡ get_elem? (replicate 4 0) j
  unfolding first
  blanked-time_stamp j l =
      get_elem?-splice_outside (replicate 4 0) first (at + 24 + 64) (at + 24 + 68) (at + 8 + j)
        (omega arith) (omega (arith, length-first)) (inl (omega arith))
      ∙ get_elem?-splice_inside (replicate 4 0) xs (at + 8) (at + 12) j (omega arith) (omega arith)
          l

normalized_bytes-ok :
    (xs n : List ℕ)
    → normalized_bytes xs ≡ ok n
    → (pe_offset xs + 24 + 68 ≤ length xs) × (n ≡ blanked xs (pe_offset xs))
unfolding normalized_bytes
normalized_bytes-ok xs n h = ground arith

-- An index lies outside of the fields, or in one of them.
place :
    (at i : ℕ)
    → Outside at i
      ⊎ (((j : ℕ) × (j < 4) × (i ≡ at + 8 + j)) ⊎ ((j : ℕ) × (j < 4) × (i ≡ at + 24 + 64 + j)))
place at i = elim (Bool-cases (leb (at + 8) i && ltb i (at + 12))) [
  | inl a ↦ inr (inl (i - (at + 8), ground arith, ground arith))
  | inr a ↦ elim (Bool-cases (leb (at + 24 + 64) i && ltb i (at + 24 + 68))) [
    | inl b ↦ inr (inr (i - (at + 24 + 64), ground arith, ground arith))
    | inr b ↦ inl record { of_time_stamp = ground arith; of_checksum = ground arith }
  ]
]

module _ (xs ys : List ℕ) (at : ℕ) (f : at + 24 + 68 ≤ length xs)
    (g : at + 24 + 68 ≤ length ys) where
  blanked-same :
      length xs ≡ length ys
      → ((i : ℕ) → Outside at i → get_elem? xs i ≡ get_elem? ys i)
      → blanked xs at ≡ blanked ys at
  blanked-same l h =
      list_ext (blanked xs at) (blanked ys at)
        (length-blanked xs at f ∙ (l ∙ sym (length-blanked ys at g)))
        λ i b. elim (place at i) [
          | inl o ↦ blanked-Outside xs at f i o ∙ (h i o ∙ sym (blanked-Outside ys at g i o))
          | inr fields ↦ elim fields [
            | inl (j, k, e) ↦
                rw e (blanked-time_stamp xs at f j k ∙ sym (blanked-time_stamp ys at g j k))
            | inr (j, k, e) ↦
                rw e (blanked-checksum xs at f j k ∙ sym (blanked-checksum ys at g j k))
          ]
        ]

  same-blanked :
      blanked xs at ≡ blanked ys at
      → (length xs ≡ length ys) × ((i : ℕ) → Outside at i → get_elem? xs i ≡ get_elem? ys i)
  same-blanked e = (
    sym (length-blanked xs at f) ∙ (ap length e ∙ length-blanked ys at g),
    λ i o.
        sym (blanked-Outside xs at f i o)
        ∙ (ap (λ (zs : List ℕ). get_elem? zs i) e ∙ blanked-Outside ys at g i o),
  )

-- Of two files whose headers stand at the same offset, the normalized bytes are equal exactly if the
-- files have the same length and agree in every byte outside of the time stamp and the checksum.
pub normalized_bytes_iff :
    (xs ys n m : List ℕ)
    → normalized_bytes xs ≡ ok n
    → normalized_bytes ys ≡ ok m
    → pe_offset xs ≡ pe_offset ys
    → (n ≡ m) ↔ (
        (length xs ≡ length ys)
        × ((i : ℕ) → Outside (pe_offset xs) i → get_elem? xs i ≡ get_elem? ys i))
normalized_bytes_iff xs ys n m h k e =
    let (f, a) = normalized_bytes-ok xs n h in
    let (g, b) = normalized_bytes-ok ys m k in
    let g' : pe_offset xs + 24 + 68 ≤ length ys = omega (arith, g, e) in
    let b' : m ≡ blanked ys (pe_offset xs) = rw e b in
    (
      λ s. same-blanked xs ys (pe_offset xs) f g' (sym a ∙ (s ∙ b')),
      λ (l, o). a ∙ (blanked-same xs ys (pe_offset xs) f g' l o ∙ sym b'),
    )
