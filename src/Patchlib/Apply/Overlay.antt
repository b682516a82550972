-- ===== src/Patchlib/Apply/Overlay.antt =====
-- What `make_patched` returns: the original with the bytes of the patches replaced and no other, from
-- which writing the original bytes back gives the original again.
use uu_remote_ubuntu_bridge.Prelude.{
  ℕ, suc, ◌+◌, ◌-◌, ◌≤◌, ◌<◌, ◌≡◌, refl, ◌∙◌, ap, ◌⊎◌, inl, inr, String, true, false, some, List,
  [], ◌∷◌, ok, length, get_elem?, arith, str_eq, Bool-cases, ltb, leb, sym,
}
use uu_remote_ubuntu_bridge.Python.Bytes.{splice}
use uu_remote_ubuntu_bridge.Python.Bytes.Splice.{
  length-splice, get_elem?-splice_outside, get_elem?-splice_inside, get_elem?-OccursAt,
  OccursAt-fits,
}
use uu_remote_ubuntu_bridge.Patchlib.Manifest.{Patch, patch_end, ReleaseManifest}
use uu_remote_ubuntu_bridge.Patchlib.Read.Order.{All}
use uu_remote_ubuntu_bridge.Patchlib.Read.WellFormed.{IsSound}
use uu_remote_ubuntu_bridge.Patchlib.Apply.{
  verify_signatures, write_patches, render_patched, make_patched,
}
use uu_remote_ubuntu_bridge.Patchlib.Apply.Signatures.{Shows, Signed, verify_signatures-iff-Signed}

-- Equal lengths and equal bytes make equal lists.
ext :
    (xs ys : List ℕ)
    → length xs ≡ length ys
    → ((i : ℕ) → i < length xs → get_elem? xs i ≡ get_elem? ys i)
    → xs ≡ ys
ext [] [] l h = refl
ext [] (y ∷ ys) l h = absurd (omega arith)
ext (x ∷ xs) [] l h = absurd (omega arith)
ext (x ∷ xs) (y ∷ ys) l h =
    let rest : xs ≡ ys = ext xs ys (omega arith) (λ i b. h (suc i) (omega arith)) in
    let first : some x ≡ some y = h 0 (omega arith) in ground arith

-- The byte at `i` belongs to no patch.
abbrev pub Outside : ℕ → Patch → Type 0
Outside i p = (i < p.file_offset) ⊎ (patch_end p ≤ i)

-- A patch that keeps the length and lies in a file of `n` bytes.
Fits : ℕ → Patch → Type 0
Fits n p = (length p.original ≡ length p.replacement) × (patch_end p ≤ n)

write_patches-length :
    (ps : List Patch) (xs : List ℕ)
    → All (Fits (length xs)) ps
    → length (write_patches ps xs) ≡ length xs
unfolding write_patches Fits
write_patches-length [] xs f = refl
write_patches-length (p ∷ ps) xs ((same, inside), fs) =
    let l = length-splice p.replacement xs p.file_offset (patch_end p) (omega arith) inside in
    write_patches-length ps _ (rw l fs) ∙ l

write_patches-Outside :
    (ps : List Patch) (xs : List ℕ) (i : ℕ)
    → All (Fits (length xs)) ps
    → All (Outside i) ps
    → get_elem? (write_patches ps xs) i ≡ get_elem? xs i
unfolding write_patches Fits
write_patches-Outside [] xs i f o = refl
write_patches-Outside (p ∷ ps) xs i ((same, inside), fs) (o, os) =
    let l = length-splice p.replacement xs p.file_offset (patch_end p) (omega arith) inside in
    write_patches-Outside ps _ i (rw l fs) os
    ∙ get_elem?-splice_outside p.replacement xs p.file_offset (patch_end p) i (omega arith) inside o

-- `Signed` data holds each patch.
Signed-Fits :
    (xs : List ℕ) (ps : List Patch)
    → All (Shows xs false) ps
    → All IsSound ps
    → All (Fits (length xs)) ps
unfolding Fits
Signed-Fits xs [] s w = tt
Signed-Fits xs (p ∷ ps) (s, ss) (w, ws) =
    ((w.same_length, OccursAt-fits p.original xs p.file_offset s.occurs), Signed-Fits xs ps ss ws)

-- The parts of a successful `make_patched`.
pub record Made (sha256 : List ℕ → String) (xs : List ℕ) (m : ReleaseManifest) (r : List ℕ)
    : Type 0 where
  pub source : str_eq (sha256 xs) m.original_sha256 ≡ true
  pub before : verify_signatures xs m false ≡ ok tt
  pub written : r ≡ write_patches m.patches xs
  pub after : verify_signatures r m true ≡ ok tt
  pub digest : str_eq (sha256 r) m.patched_sha256 ≡ true

pub make_patched-Made :
    (sha256 : List ℕ → String) (xs : List ℕ) (m : ReleaseManifest) (r : List ℕ)
    → make_patched sha256 xs m ≡ ok r
    → Made sha256 xs m r
unfolding make_patched render_patched
make_patched-Made sha256 xs m r h = ground arith

-- `r` is `xs` with the replacements laid over it.
pub record IsOverlay (xs : List ℕ) (ps : List Patch) (r : List ℕ) : Type 0 where
  pub same_length : length r ≡ length xs
  pub outside : (i : ℕ) → All (Outside i) ps → get_elem? r i ≡ get_elem? xs i
  pub inside :
      All
        (λ p.
          (j : ℕ)
          → j < length p.replacement
          → get_elem? r (p.file_offset + j) ≡ get_elem? p.replacement j)
        ps

Shows-inside :
    (r : List ℕ) (ps : List Patch)
    → All (Shows r true) ps
    → All
        (λ p.
          (j : ℕ)
          → j < length p.replacement
          → get_elem? r (p.file_offset + j) ≡ get_elem? p.replacement j)
        ps
Shows-inside r [] s = tt
Shows-inside r (p ∷ ps) (s, ss) =
    (λ j h. get_elem?-OccursAt p.replacement r p.file_offset j s.occurs h, Shows-inside r ps ss)

module _ (sha256 : List ℕ → String) (xs : List ℕ) (m : ReleaseManifest)
    (sound : All IsSound m.patches) (r : List ℕ) (made : make_patched sha256 xs m ≡ ok r) where
  parts : Made sha256 xs m r
  parts = make_patched-Made sha256 xs m r made

  shown : Signed xs m false
  shown = (verify_signatures-iff-Signed xs m false).0 (parts.before)

  fits : All (Fits (length xs)) m.patches
  fits = Signed-Fits xs m.patches (shown.signatures) sound

  r_length : length r ≡ length xs
  r_length = ap length (parts.written) ∙ write_patches-length m.patches xs fits

  r-Outside : (i : ℕ) → All (Outside i) m.patches → get_elem? r i ≡ get_elem? xs i
  r-Outside i o =
      ap (λ (ys : List ℕ). get_elem? ys i) (parts.written)
      ∙ write_patches-Outside m.patches xs i fits o

  -- A successful `make_patched` keeps the length and every byte outside the patches, and shows each
  -- replacement at its offset.
  pub make_patched-IsOverlay : IsOverlay xs m.patches r
  make_patched-IsOverlay = record {
    same_length = r_length;
    outside = r-Outside;
    inside =
        Shows-inside r m.patches
          (((verify_signatures-iff-Signed r m true).0 (parts.after)).signatures);
  }

-- The patch that puts the original bytes back.
abbrev pub undo : Patch → Patch
undo p = record p { original = p.replacement; replacement = p.original }

abbrev pub undo_all : List Patch → List Patch
undo_all [] = []
undo_all (p ∷ ps) = undo p ∷ undo_all ps

inside_cases :
    (p : Patch) (i : ℕ)
    → Outside i p ⊎ ((j : ℕ) × (p.file_offset + j ≡ i) × (j < length p.original))
inside_cases p i = elim (Bool-cases (ltb i p.file_offset)) [
  | inl before ↦ inl (inl (ground arith))
  | inr not_before ↦ elim (Bool-cases (leb (patch_end p) i)) [
    | inl behind ↦ inl (inr (ground arith))
    | inr within ↦ inr (i - p.file_offset, ground arith, ground arith)
  ]
]

Fits-undo : (n : ℕ) (ps : List Patch) → All (Fits n) ps → All (Fits n) (undo_all ps)
unfolding Fits
Fits-undo n [] f = tt
Fits-undo n (p ∷ ps) ((same, inside), fs) = ((omega arith, omega arith), Fits-undo n ps fs)

module _ (xs : List ℕ) (i : ℕ) where
  undo_step :
      (p : Patch) (ys : List ℕ)
      → Shows xs false p
      → length ys ≡ length xs
      → Fits (length xs) p
      → (Outside i p → get_elem? ys i ≡ get_elem? xs i)
      → get_elem? (splice ys p.file_offset (patch_end (undo p)) p.original) i ≡ get_elem? xs i
  unfolding Fits
  undo_step p ys s l (same, inside) keep = elim (inside_cases p i) [
    | inl o ↦
        get_elem?-splice_outside p.original ys p.file_offset (patch_end (undo p)) i (omega arith)
          (omega arith) (omega arith)
        ∙ keep o
    | inr (j, e, b) ↦ rw (← e) (
        get_elem?-splice_inside p.original ys p.file_offset (patch_end (undo p)) j (omega arith)
          (omega arith) b
        ∙ sym (get_elem?-OccursAt p.original xs p.file_offset j s.occurs b))
  ]

  undo_agrees :
      (ps : List Patch) (ys : List ℕ)
      → All (Shows xs false) ps
      → length ys ≡ length xs
      → All (Fits (length xs)) ps
      → (All (Outside i) ps → get_elem? ys i ≡ get_elem? xs i)
      → get_elem? (write_patches (undo_all ps) ys) i ≡ get_elem? xs i
  unfolding write_patches
  undo_agrees [] ys s l f keep = keep tt
  undo_agrees (p ∷ ps) ys (s, ss) l (f, fs) keep =
      undo_agrees ps _ ss (new_length f) fs (λ os. undo_step p ys s l f (λ o. keep (o, os)))
    where
      new_length :
          Fits (length xs) p
          → length (splice ys p.file_offset (patch_end (undo p)) p.original) ≡ length xs
      new_length g =
          unfold Fits in
          (length-splice p.original ys p.file_offset (patch_end (undo p)) (omega (arith, g.0))
              (omega (arith, g.0, g.1, l))
            ∙ l)

-- Writing the original bytes back over a patched file gives the file that was patched, byte for byte.
pub undo-make_patched :
    (sha256 : List ℕ → String) (xs : List ℕ) (m : ReleaseManifest)
    → All IsSound m.patches
    → (r : List ℕ) → make_patched sha256 xs m ≡ ok r
    → write_patches (undo_all m.patches) r ≡ xs
undo-make_patched sha256 xs m sound r made =
    let f = fits sha256 xs m sound r made in
    let l = r_length sha256 xs m sound r made in
    let s : Signed xs m false = shown sha256 xs m sound r made in
    let l' : length (write_patches (undo_all m.patches) r) ≡ length xs =
      write_patches-length (undo_all m.patches) r (rw l (Fits-undo (length xs) m.patches f)) ∙ l in
    ext _ xs l'
      (λ i b. undo_agrees xs i m.patches r s.signatures l f (r-Outside sha256 xs m sound r made i))
