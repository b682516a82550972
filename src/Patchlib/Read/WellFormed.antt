-- ===== src/Patchlib/Read/WellFormed.antt =====
-- What every manifest that `manifest_from_dict` accepts satisfies.

use uu_remote_ubuntu_bridge.Prelude.{
  ℕ, ◌≤◌, ◌<◌, ◌≡◌, refl, ◌⊎◌, inl, inr, Bool, true, false, ◌&&◌, not, List, [], ◌∷◌, ok, >>=-eq-ok,
  String, str_eq, length, arith,
}
use uu_remote_ubuntu_bridge.Python.Text.{member, is_sha256}
use uu_remote_ubuntu_bridge.Python.Json.{Json, Fields}
use uu_remote_ubuntu_bridge.Patchlib.Manifest.{Patch, patch_end, ReleaseManifest}
use uu_remote_ubuntu_bridge.Patchlib.Fields.{sha256_field, hex_field}
use uu_remote_ubuntu_bridge.Patchlib.Read.{
  allowed_status, read_patch, read_patches, check_overlap, checked_patches, checked_digests,
  checked_status, manifest_from_dict,
}
use uu_remote_ubuntu_bridge.Patchlib.Read.Order.{
  sort_patches, bytes_eq, All, AllPairs, AllPairs-sort,
}

-- A patch that changes something and keeps the length.
pub record IsSound (p : Patch) : Type 0 where
  pub non_empty : 0 < length p.original
  pub same_length : length p.original ≡ length p.replacement
  pub changes : bytes_eq p.original p.replacement ≡ false

-- No byte of the file belongs to both.
abbrev pub Disjoint : Patch → Patch → Type 0
Disjoint p q = (patch_end p ≤ q.file_offset) ⊎ (patch_end q ≤ p.file_offset)

hex_field-pos : (v : Json) (name : String) (bs : List ℕ) → hex_field v name ≡ ok bs → 0 < length bs
unfolding hex_field
hex_field-pos (Json.str s) name bs h = ground arith
hex_field-pos _ name bs h = ground arith

read_patch-IsSound :
    (ids : List String) (v : Json) (p : Patch) → read_patch ids v ≡ ok p → IsSound p
unfolding read_patch
read_patch-IsSound ids v p h = grind (arith, hex_field-pos)

read_patch-fresh :
    (ids : List String) (v : Json) (p : Patch)
    → read_patch ids v ≡ ok p
    → member p.patch_id ids ≡ false
unfolding read_patch
read_patch-fresh ids v p h = ground arith

-- Ids are fresh, one after another.
abbrev pub Distinct : Patch → Patch → Type 0
Distinct p q = str_eq q.patch_id p.patch_id ≡ false

Fresh : List String → Patch → Type 0
Fresh ids p = member p.patch_id ids ≡ false

All-map : (P Q : Patch → Type 0) (ps : List Patch) → ((p : Patch) → P p → Q p) → All P ps → All Q ps
All-map P Q [] f h = tt
All-map P Q (p ∷ ps) f (hp, hps) = (f p hp, All-map P Q ps f hps)

read_patches-cons :
    (ids : List String) (v : Json) (vs : List Json) (p : Patch) (ps : List Patch)
    → read_patches ids (v ∷ vs) ≡ ok (p ∷ ps)
    → (read_patch ids v ≡ ok p) × (read_patches (p.patch_id ∷ ids) vs ≡ ok ps)
unfolding read_patches
read_patches-cons ids v vs p ps h = ground arith

read_patches-IsSound :
    (ids : List String) (vs : List Json) (ps : List Patch)
    → read_patches ids vs ≡ ok ps
    → All IsSound ps
unfolding read_patches
read_patches-IsSound ids vs [] h = tt
read_patches-IsSound ids [] (p ∷ ps) h = cc
read_patches-IsSound ids (v ∷ vs) (p ∷ ps) h =
    let (hp, hps) = read_patches-cons ids v vs p ps h in
    (read_patch-IsSound ids v p hp, read_patches-IsSound (p.patch_id ∷ ids) vs ps hps)

Fresh-tail : (i : String) (ids : List String) (p : Patch) → Fresh (i ∷ ids) p → Fresh ids p
unfolding Fresh member
Fresh-tail i ids p h = ground arith

read_patches-Fresh :
    (ids : List String) (vs : List Json) (ps : List Patch)
    → read_patches ids vs ≡ ok ps
    → All (Fresh ids) ps
unfolding read_patches
read_patches-Fresh ids vs [] h = tt
read_patches-Fresh ids [] (p ∷ ps) h = cc
read_patches-Fresh ids (v ∷ vs) (p ∷ ps) h =
    let (hp, hps) = read_patches-cons ids v vs p ps h in
    (
      unfold Fresh in read_patch-fresh ids v p hp,
      All-map (Fresh (p.patch_id ∷ ids)) (Fresh ids) ps (Fresh-tail p.patch_id ids)
          (read_patches-Fresh (p.patch_id ∷ ids) vs ps hps),
    )

Fresh-Distinct :
    (p : Patch) (ids : List String) (q : Patch) → Fresh (p.patch_id ∷ ids) q → Distinct p q
unfolding Fresh member
Fresh-Distinct p ids q h = ground arith

read_patches-Distinct :
    (ids : List String) (vs : List Json) (ps : List Patch)
    → read_patches ids vs ≡ ok ps
    → AllPairs Distinct ps
unfolding read_patches
read_patches-Distinct ids vs [] h = tt
read_patches-Distinct ids [] (p ∷ ps) h = cc
read_patches-Distinct ids (v ∷ vs) (p ∷ ps) h =
    let (hp, hps) = read_patches-cons ids v vs p ps h in
    (
      All-map (Fresh (p.patch_id ∷ ids)) (Distinct p) ps (Fresh-Distinct p ids)
          (read_patches-Fresh (p.patch_id ∷ ids) vs ps hps),
      read_patches-Distinct (p.patch_id ∷ ids) vs ps hps,
    )

-- Neighbours in order that do not overlap: everything later begins behind the first one's end.
Behind : ℕ → Patch → Type 0
Behind n q = n ≤ q.file_offset

check_overlap-cons :
    (p q : Patch) (qs : List Patch)
    → check_overlap (p ∷ (q ∷ qs)) ≡ ok tt
    → (patch_end p ≤ q.file_offset) × (check_overlap (q ∷ qs) ≡ ok tt)
unfolding check_overlap
check_overlap-cons p q qs h = ground arith

check_overlap-Behind :
    (p : Patch) (qs : List Patch) → check_overlap (p ∷ qs) ≡ ok tt → All (Behind (patch_end p)) qs
unfolding Behind
check_overlap-Behind p [] h = tt
check_overlap-Behind p (q ∷ qs) h =
    let (le, rest) = check_overlap-cons p q qs h in
    (
      le,
      All-map (Behind (patch_end q)) (Behind (patch_end p)) qs (λ r b. omega arith)
          (check_overlap-Behind q qs rest),
    )

check_overlap-tail :
    (p : Patch) (qs : List Patch) → check_overlap (p ∷ qs) ≡ ok tt → check_overlap qs ≡ ok tt
unfolding check_overlap
check_overlap-tail p [] h = refl
check_overlap-tail p (q ∷ qs) h = (check_overlap-cons p q qs h).1

check_overlap-Disjoint : (ps : List Patch) → check_overlap ps ≡ ok tt → AllPairs Disjoint ps
check_overlap-Disjoint [] h = tt
check_overlap-Disjoint (p ∷ qs) h = (
  All-map (Behind (patch_end p)) (Disjoint p) qs (λ q b. unfold Behind in inl b)
      (check_overlap-Behind p qs h),
  check_overlap-Disjoint qs (check_overlap-tail p qs h),
)

Disjoint-symm : (p q : Patch) → Disjoint p q → Disjoint q p
Disjoint-symm p q (inl h) = inr h
Disjoint-symm p q (inr h) = inl h

-- The patches of an accepted manifest.
pub record ArePatches (ps : List Patch) : Type 0 where
  pub sound : All IsSound ps
  pub distinct : AllPairs Distinct ps
  pub disjoint : AllPairs Disjoint ps

pub checked_patches-ArePatches :
    (vs : List Json) (ps : List Patch) → checked_patches vs ≡ ok ps → ArePatches ps
unfolding checked_patches
checked_patches-ArePatches vs ps h =
    let (qs, hq, k) = >>=-eq-ok (read_patches [] vs) _ h in
    let (u, ho, e) = >>=-eq-ok (check_overlap (sort_patches qs)) _ k in
    let same : qs ≡ ps = ground arith in
    let read : read_patches [] vs ≡ ok ps = rw (← same) hq in
    record {
      sound = read_patches-IsSound [] vs ps read;
      distinct = read_patches-Distinct [] vs ps read;
      disjoint =
          AllPairs-sort Disjoint Disjoint-symm ps
            (check_overlap-Disjoint (sort_patches ps) (rw (← same) ho));
    }

checked_patches-Distinct :
    (vs : List Json) (ps : List Patch) → checked_patches vs ≡ ok ps → AllPairs Distinct ps
checked_patches-Distinct vs ps h = (checked_patches-ArePatches vs ps h).distinct

checked_patches-sound :
    (vs : List Json) (ps : List Patch) → checked_patches vs ≡ ok ps → All IsSound ps
checked_patches-sound vs ps h = (checked_patches-ArePatches vs ps h).sound

checked_patches-Disjoint :
    (vs : List Json) (ps : List Patch) → checked_patches vs ≡ ok ps → AllPairs Disjoint ps
checked_patches-Disjoint vs ps h = (checked_patches-ArePatches vs ps h).disjoint

-- What the checks of `manifest_from_dict` establish.
pub record WellFormed (require_approved allow_experimental : Bool) (m : ReleaseManifest)
    : Type 0 where
  pub patches : ArePatches m.patches
  pub digests_differ : str_eq m.original_sha256 m.patched_sha256 ≡ false
  pub original_is_digest : is_sha256 m.original_sha256 ≡ true
  pub patched_is_digest : is_sha256 m.patched_sha256 ≡ true
  pub has_size : 0 < m.server_size
  pub approved :
      (require_approved && not (allowed_status allow_experimental m.review_status)) ≡ false
  pub architecture : str_eq m.architecture "x86_64" ≡ true

sha256_field-is_sha256 :
    (f : Fields) (name prefix d : String) → sha256_field f name prefix ≡ ok d → is_sha256 d ≡ true
unfolding sha256_field
sha256_field-is_sha256 f name prefix d h = ground arith

checked_digests-ok :
    (server : Fields) (d : String × String)
    → checked_digests server ≡ ok d
    → (str_eq d.0 d.1 ≡ false) × (is_sha256 d.0 ≡ true) × (is_sha256 d.1 ≡ true)
unfolding checked_digests
checked_digests-ok server d h = grind (arith, sha256_field-is_sha256)

checked_digests-original :
    (server : Fields) (d : String × String) → checked_digests server ≡ ok d → is_sha256 d.0 ≡ true
checked_digests-original server d h = (checked_digests-ok server d h).1

checked_digests-patched :
    (server : Fields) (d : String × String) → checked_digests server ≡ ok d → is_sha256 d.1 ≡ true
checked_digests-patched server d h = (checked_digests-ok server d h).2

checked_status-ok :
    (ra ae : Bool) (raw : Fields) (s : String)
    → checked_status ra ae raw ≡ ok s
    → (ra && not (allowed_status ae s)) ≡ false
unfolding checked_status
checked_status-ok ra ae raw s h = ground arith

-- Every manifest that `manifest_from_dict` returns is well formed: its patches change something, keep
-- the length, have distinct ids and share no byte; its two digests differ; its status is allowed.
pub manifest_from_dict-WellFormed :
    (ra ae : Bool) (v : Json) (path : String) (m : ReleaseManifest)
    → manifest_from_dict ra ae v path ≡ ok m
    → WellFormed ra ae m
unfolding manifest_from_dict
manifest_from_dict-WellFormed ra ae v path m h = record {
  patches = record {
    sound = grind (arith, checked_patches-sound);
    distinct = grind (arith, checked_patches-Distinct);
    disjoint = grind (arith, checked_patches-Disjoint);
  };
  digests_differ = grind (arith, checked_digests-ok);
  original_is_digest = grind (arith, checked_digests-original);
  patched_is_digest = grind (arith, checked_digests-patched);
  has_size = ground arith;
  approved = grind (arith, checked_status-ok);
  architecture = ground arith;
}
