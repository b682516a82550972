-- ===== src/Patchlib/Read/Order.antt =====
-- The stable sort by offset that `manifest_from_dict` makes, and equality of bytes. What holds of
-- all pairs of a sorted list holds of all pairs of the list.
use uu_remote_ubuntu_bridge.Prelude.{
  ℕ, ◌≡◌, refl, Bool, true, false, ◌&&◌, List, [], ◌∷◌, leb, ◌==◌, if◌then◌else◌, arith, Bool-cases,
  inl, inr,
}
use uu_remote_ubuntu_bridge.Patchlib.Manifest.{Patch}

unfoldable pub bytes_eq : List ℕ → List ℕ → Bool
bytes_eq [] [] = true
bytes_eq [] (b ∷ bs) = false
bytes_eq (a ∷ as_) [] = false
bytes_eq (a ∷ as_) (b ∷ bs) = a == b && bytes_eq as_ bs

pub bytes_eq_refl : (bs : List ℕ) → bytes_eq bs bs ≡ true
unfolding bytes_eq
bytes_eq_refl [] = refl
bytes_eq_refl (b ∷ bs) = ground (arith, bytes_eq_refl bs)

insert_patch : Patch → List Patch → List Patch
insert_patch p [] = p ∷ []
insert_patch p (q ∷ qs) =
    if leb p.file_offset q.file_offset then p ∷ (q ∷ qs) else q ∷ insert_patch p qs

-- `sorted(patches, key=lambda item: item.file_offset)`
unfoldable pub sort_patches : List Patch → List Patch
unfolding insert_patch
sort_patches [] = []
sort_patches (p ∷ ps) = insert_patch p (sort_patches ps)

-- Each member satisfies `P`; each pair of members, in this order, satisfies `R`.
abbrev pub All {ℓ} : {A : Type ℓ} → (A → Type 0) → List A → Type 0
All P [] = Unit
All P (x ∷ xs) = P x × All P xs

abbrev pub AllPairs {ℓ} : {A : Type ℓ} → (A → A → Type 0) → List A → Type 0
AllPairs R [] = Unit
AllPairs R (x ∷ xs) = All (R x) xs × AllPairs R xs

All-insert :
    (P : Patch → Type 0) (p : Patch) (qs : List Patch) → All P (insert_patch p qs) → P p × All P qs
unfolding insert_patch
All-insert P p [] h = h
All-insert P p (q ∷ qs) h = elim (Bool-cases (leb p.file_offset q.file_offset)) [
  | inl e ↦ rw (e, insert_patch) at h
  | inr e ↦
      let (hq, rest) = all_cons P q (insert_patch p qs) (rw (e, insert_patch) at h) in
      let (hp, hqs) = All-insert P p qs rest in (hp, (hq, hqs))
]
  where
    all_cons : (Q : Patch → Type 0) (x : Patch) (xs : List Patch) → All Q (x ∷ xs) → Q x × All Q xs
    all_cons Q x xs k = k

All-sort : (P : Patch → Type 0) (ps : List Patch) → All P (sort_patches ps) → All P ps
unfolding sort_patches
All-sort P [] h = tt
All-sort P (p ∷ ps) h =
    let (hp, rest) = All-insert P p (sort_patches ps) h in (hp, All-sort P ps rest)

module _ (R : Patch → Patch → Type 0) (symmetric : (p q : Patch) → R p q → R q p) where
  AllPairs-insert :
      (p : Patch) (qs : List Patch) → AllPairs R (insert_patch p qs) → All (R p) qs × AllPairs R qs
  unfolding insert_patch
  AllPairs-insert p [] h = h
  AllPairs-insert p (q ∷ qs) h = elim (Bool-cases (leb p.file_offset q.file_offset)) [
    | inl e ↦ rw (e, insert_patch) at h
    | inr e ↦
        let (hq, rest) = pairs_cons q (insert_patch p qs) (rw (e, insert_patch) at h) in
        let (qp, hqs) = All-insert (R q) p qs hq in
        let (hp, pairs) = AllPairs-insert p qs rest in ((symmetric q p qp, hp), (hqs, pairs))
  ]
    where
      pairs_cons :
          (x : Patch) (xs : List Patch) → AllPairs R (x ∷ xs) → All (R x) xs × AllPairs R xs
      pairs_cons x xs k = k

  pub AllPairs-sort : (ps : List Patch) → AllPairs R (sort_patches ps) → AllPairs R ps
  unfolding sort_patches
  AllPairs-sort [] h = tt
  AllPairs-sort (p ∷ ps) h =
      let (hp, rest) = AllPairs-insert p (sort_patches ps) h in
      (All-sort (R p) ps hp, AllPairs-sort ps rest)
