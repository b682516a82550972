-- ===== src/Python/Bytes/Splice.antt =====
-- What a slice assignment of the slice's own length changes: the bytes inside, and nothing else.
use uu_remote_ubuntu_bridge.Prelude.{
  ℕ, zero, suc, ◌+◌, ◌≤◌, ◌<◌, ◌≡◌, refl, ap, ◌⊎◌, true, List, [], ◌∷◌, ◌++◌, length, drop,
  get_elem?, arith,
}
use uu_remote_ubuntu_bridge.Python.Bytes.{begins_with, splice, OccursAt}

pub splice-suc :
    (x : ℕ) (xs : List ℕ) (start stop : ℕ) (new : List ℕ)
    → splice (x ∷ xs) (suc start) (suc stop) new ≡ x ∷ splice xs start stop new
unfolding splice
splice-suc x xs start stop new = refl

-- The two pieces of an appended list.
get_elem?-append_left :
    (xs ys : List ℕ) (i : ℕ) → i < length xs → get_elem? (xs ++ ys) i ≡ get_elem? xs i
get_elem?-append_left [] ys i h = elim h [ ]
get_elem?-append_left (x ∷ xs) ys zero h = refl
get_elem?-append_left (x ∷ xs) ys (suc i) h = get_elem?-append_left xs ys i (omega arith)

get_elem?-append_right :
    (xs ys : List ℕ) (i : ℕ) → get_elem? (xs ++ ys) (length xs + i) ≡ get_elem? ys i
get_elem?-append_right [] ys i = rw (zero_plus i)
  where
    zero_plus : (n : ℕ) → 0 + n ≡ n
    zero_plus n = omega arith
get_elem?-append_right (x ∷ xs) ys i = rw (suc_plus (length xs) i) (get_elem?-append_right xs ys i)
  where
    suc_plus : (n m : ℕ) → suc n + m ≡ suc (n + m)
    suc_plus n m = omega arith

-- At the front of the list.
front_length :
    (xs new : List ℕ) → length new ≤ length xs → length (new ++ drop (length new) xs) ≡ length xs
front_length xs [] h = refl
front_length [] (n ∷ new) h = elim h [ ]
front_length (x ∷ xs) (n ∷ new) h = ap suc (front_length xs new (omega arith))

front_outside :
    (xs new : List ℕ) (i : ℕ)
    → length new ≤ length xs
    → length new ≤ i
    → get_elem? (new ++ drop (length new) xs) i ≡ get_elem? xs i
front_outside xs [] i h o = refl
front_outside [] (n ∷ new) i h o = elim h [ ]
front_outside (x ∷ xs) (n ∷ new) zero h o = elim o [ ]
front_outside (x ∷ xs) (n ∷ new) (suc i) h o = front_outside xs new i (omega arith) (omega arith)

module _ (new : List ℕ) where
  -- The length stays.
  pub length-splice :
      (xs : List ℕ) (start stop : ℕ)
      → stop ≡ start + length new
      → stop ≤ length xs
      → length (splice xs start stop new) ≡ length xs
  unfolding splice
  length-splice xs zero stop e h =
      let e' : stop ≡ length new = omega arith in rw e' (front_length xs new (omega arith))
  length-splice [] (suc start) stop e h = absurd (omega arith)
  length-splice (x ∷ xs) (suc start) zero e h = absurd (omega arith)
  length-splice (x ∷ xs) (suc start) (suc stop) e h =
      ap suc (length-splice xs start stop (omega arith) (omega arith))

  -- A byte outside the slice stays.
  pub get_elem?-splice_outside :
      (xs : List ℕ) (start stop i : ℕ)
      → stop ≡ start + length new
      → stop ≤ length xs
      → (i < start) ⊎ (stop ≤ i)
      → get_elem? (splice xs start stop new) i ≡ get_elem? xs i
  unfolding splice
  get_elem?-splice_outside xs zero stop i e h o =
      let e' : stop ≡ length new = omega arith in
      rw e' (front_outside xs new i (omega arith) (omega arith))
  get_elem?-splice_outside [] (suc start) stop i e h o = absurd (omega arith)
  get_elem?-splice_outside (x ∷ xs) (suc start) zero i e h o = absurd (omega arith)
  get_elem?-splice_outside (x ∷ xs) (suc start) (suc stop) zero e h o = refl
  get_elem?-splice_outside (x ∷ xs) (suc start) (suc stop) (suc i) e h o =
      get_elem?-splice_outside xs start stop i (omega arith) (omega arith) (ground arith)

  -- A byte inside the slice is the new one.
  pub get_elem?-splice_inside :
      (xs : List ℕ) (start stop j : ℕ)
      → stop ≤ length xs
      → start ≤ stop
      → j < length new
      → get_elem? (splice xs start stop new) (start + j) ≡ get_elem? new j
  unfolding splice
  get_elem?-splice_inside xs zero stop j h o l =
      let e : 0 + j ≡ j = omega arith in rw e (get_elem?-append_left new _ j l)
  get_elem?-splice_inside [] (suc start) stop j h o l = absurd (omega arith)
  get_elem?-splice_inside (x ∷ xs) (suc start) zero j h o l = absurd (omega arith)
  get_elem?-splice_inside (x ∷ xs) (suc start) (suc stop) j h o l =
      let e : suc start + j ≡ suc (start + j) = omega arith in
      rw e (get_elem?-splice_inside xs start stop j (omega arith) (omega arith) l)

get_elem?-begins :
    (needle xs : List ℕ) (j : ℕ)
    → begins_with needle xs ≡ true
    → j < length needle
    → get_elem? xs j ≡ get_elem? needle j
unfolding begins_with
get_elem?-begins [] xs j e h = elim h [ ]
get_elem?-begins (n ∷ needle) [] j e h = cc
get_elem?-begins (n ∷ needle) (x ∷ xs) zero e h = ground arith
get_elem?-begins (n ∷ needle) (x ∷ xs) (suc j) e h =
    get_elem?-begins needle xs j (ground arith) (omega arith)

pub get_elem?-drop : (xs : List ℕ) (at j : ℕ) → get_elem? (drop at xs) j ≡ get_elem? xs (at + j)
get_elem?-drop xs zero j = let e : 0 + j ≡ j = omega arith in rw e
get_elem?-drop [] (suc at) j = refl
get_elem?-drop (x ∷ xs) (suc at) j =
    let e : suc at + j ≡ suc (at + j) = omega arith in rw e (get_elem?-drop xs at j)

-- Where a needle occurs, its bytes stand.
pub get_elem?-OccursAt :
    (needle xs : List ℕ) (at j : ℕ)
    → OccursAt needle xs at
    → j < length needle
    → get_elem? xs (at + j) ≡ get_elem? needle j
get_elem?-OccursAt needle xs at j o h =
    rw (← get_elem?-drop xs at j) (get_elem?-begins needle (drop at xs) j o.1 h)

length-begins : (needle xs : List ℕ) → begins_with needle xs ≡ true → length needle ≤ length xs
unfolding begins_with
length-begins [] xs e = omega arith
length-begins (n ∷ needle) [] e = cc
length-begins (n ∷ needle) (x ∷ xs) e =
    let h : length needle ≤ length xs = length-begins needle xs (ground arith) in omega arith

-- An occurrence fits.
pub OccursAt-fits :
    (needle xs : List ℕ) (at : ℕ) → OccursAt needle xs at → at + length needle ≤ length xs
OccursAt-fits needle xs zero o =
    let h : length needle ≤ length xs = length-begins needle xs o.1 in omega arith
OccursAt-fits needle [] (suc at) o = elim (o.0) [ ]
OccursAt-fits needle (x ∷ xs) (suc at) o =
    let h : at + length needle ≤ length xs = OccursAt-fits needle xs at (omega arith, o.1) in
    omega arith
