-- ===== src/Patchlib/Apply/Lookup.antt =====
-- Among manifests that `load_manifests` accepted together, the digest of a file decides its class:
-- no two of them share a digest, so the order in which `classify` tries them does not matter.
use uu_remote_ubuntu_bridge.Prelude.{
  ◌≡◌, ◌⊎◌, inl, inr, String, Bool, true, false, Option, List, [], ◌∷◌, ok, arith, str_eq, eq_iff,
  eq_refl, ap, sym, ◌∙◌, Bool-cases,
}
use uu_remote_ubuntu_bridge.Python.Text.{member}
use uu_remote_ubuntu_bridge.Python.Json.{Json}
use uu_remote_ubuntu_bridge.Patchlib.Manifest.{ReleaseManifest}
use uu_remote_ubuntu_bridge.Patchlib.Read.{check_unique, load_manifests}
use uu_remote_ubuntu_bridge.Patchlib.Apply.{original, patched, classify_digest}

-- `m` is one of the manifests.
abbrev pub In : ReleaseManifest → List ReleaseManifest → Type 0
In m [] = ⊥
In m (n ∷ ns) = (m ≡ n) ⊎ In m ns

unique-cons :
    (vs ds : List String) (n : ReleaseManifest) (ns : List ReleaseManifest)
    → check_unique vs ds (n ∷ ns) ≡ ok tt
    → (member n.original_sha256 ds ≡ false)
      × (member n.patched_sha256 (n.original_sha256 ∷ ds) ≡ false)
      × (check_unique (n.version ∷ vs) (n.patched_sha256 ∷ (n.original_sha256 ∷ ds)) ns ≡ ok tt)
unfolding check_unique
unique-cons vs ds n ns h = ground arith

ne_symm : (s t : String) → str_eq s t ≡ false → str_eq t s ≡ false
ne_symm s t h = ground (arith, eq_iff s t, eq_iff t s)

not_member :
    (d x : String) (ds : List String)
    → member d ds ≡ true
    → member x ds ≡ false
    → str_eq d x ≡ false
not_member d x ds seen fresh = elim (Bool-cases (str_eq d x)) [
  | inl same ↦ cc (seen, fresh, ap (λ (s : String). member s ds) ((eq_iff d x).0 same))
  | inr other ↦ other
]

member-later : (d x : String) (ds : List String) → member d ds ≡ true → member d (x ∷ ds) ≡ true
unfolding member
member-later d x ds h = ground arith

member-here : (d : String) (ds : List String) → member d (d ∷ ds) ≡ true
unfolding member
member-here d ds = ground (arith, eq_refl d)

-- What has been seen is found again in no manifest behind it.
unique-fresh :
    (vs ds : List String) (ns : List ReleaseManifest) (m : ReleaseManifest) (d : String)
    → check_unique vs ds ns ≡ ok tt
    → member d ds ≡ true
    → In m ns
    → (str_eq d m.original_sha256 ≡ false) × (str_eq d m.patched_sha256 ≡ false)
unique-fresh vs ds [] m d h seen i = elim i [ ]
unique-fresh vs ds (n ∷ ns) m d h seen (inl e) =
    let (o, p, rest) = unique-cons vs ds n ns h in
    let earlier = not_member d n.original_sha256 ds seen o in
    rw e (
      earlier,
      not_member d n.patched_sha256 (n.original_sha256 ∷ ds)
          (member-later d n.original_sha256 ds seen) p,
    )
unique-fresh vs ds (n ∷ ns) m d h seen (inr i) =
    let (o, p, rest) = unique-cons vs ds n ns h in
    unique-fresh _ _ ns m d rest (member-later d _ _ (member-later d _ _ seen)) i

-- The digests of the head differ from those of every manifest behind it.
head-differs :
    (vs ds : List String) (n : ReleaseManifest) (ns : List ReleaseManifest) (m : ReleaseManifest)
    → check_unique vs ds (n ∷ ns) ≡ ok tt
    → In m ns
    → ((str_eq m.original_sha256 n.original_sha256 ≡ false)
        × (str_eq m.original_sha256 n.patched_sha256 ≡ false))
      × ((str_eq m.patched_sha256 n.original_sha256 ≡ false)
          × (str_eq m.patched_sha256 n.patched_sha256 ≡ false))
head-differs vs ds n ns m h i =
    let (o, p, rest) = unique-cons vs ds n ns h in
    let by_original =
      unique-fresh _ _ ns m n.original_sha256 rest (member-later _ _ _ (member-here _ _)) i in
    let by_patched = unique-fresh _ _ ns m n.patched_sha256 rest (member-here _ _) i in
    (
      (ne_symm _ _ (by_original.0), ne_symm _ _ (by_patched.0)),
      (ne_symm _ _ (by_original.1), ne_symm _ _ (by_patched.1)),
    )

own_digests_differ :
    (vs ds : List String) (n : ReleaseManifest) (ns : List ReleaseManifest)
    → check_unique vs ds (n ∷ ns) ≡ ok tt
    → str_eq n.patched_sha256 n.original_sha256 ≡ false
own_digests_differ vs ds n ns h =
    let (o, p, rest) = unique-cons vs ds n ns h in unfold member in ground arith

pub classify_digest-In :
    (vs ds : List String) (ms : List ReleaseManifest) (m : ReleaseManifest)
    → check_unique vs ds ms ≡ ok tt
    → In m ms
    → (classify_digest m.original_sha256 ms ≡ original m)
      × (classify_digest m.patched_sha256 ms ≡ patched m)
unfolding classify_digest
classify_digest-In vs ds [] m h i = elim i [ ]
classify_digest-In vs ds (n ∷ ns) m h (inl e) =
    let d = own_digests_differ vs ds n ns h in
    rw e (ground (arith, eq_refl n.original_sha256), ground (arith, d, eq_refl n.patched_sha256))
classify_digest-In vs ds (n ∷ ns) m h (inr i) =
    let (o, p, rest) = unique-cons vs ds n ns h in
    let ((oo, op), (po, pp)) = head-differs vs ds n ns m h i in
    let ih = classify_digest-In _ _ ns m rest i in (rw (oo, op) (ih.0), rw (po, pp) (ih.1))

-- Whatever manifests are loaded together, the digest of each finds that manifest and its state.
pub load_manifests-classify :
    (read_json : String → Option Json) (allow_experimental : Bool) (defaults paths : List String)
    (ms : List ReleaseManifest) (m : ReleaseManifest)
    → load_manifests read_json allow_experimental defaults paths ≡ ok ms
    → In m ms
    → (classify_digest m.original_sha256 ms ≡ original m)
      × (classify_digest m.patched_sha256 ms ≡ patched m)
load_manifests-classify read_json ae defaults paths ms m h i =
    classify_digest-In [] [] ms m (unfold load_manifests in ground arith) i

-- A class that `classify` finds names one of the manifests, and its digest.
pub classify_digest-original :
    (d : String) (ms : List ReleaseManifest) (m : ReleaseManifest)
    → classify_digest d ms ≡ original m
    → In m ms × (d ≡ m.original_sha256)
unfolding classify_digest
classify_digest-original d [] m h = cc
classify_digest-original d (n ∷ ns) m h = elim (Bool-cases (str_eq d n.original_sha256)) [
  | inl e ↦
      let same : n ≡ m = ground arith in
      (
        inl (sym same),
        (eq_iff d n.original_sha256).0 e ∙ ap (λ (k : ReleaseManifest). k.original_sha256) same,
      )
  | inr e ↦ let (i, q) = classify_digest-original d ns m (ground arith) in (inr i, q)
]
