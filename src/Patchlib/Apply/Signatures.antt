-- ===== src/Patchlib/Apply/Signatures.antt =====
-- `verify_signatures` accepts exactly the data of the right size in which every expected signature
-- stands at its offset and nowhere else.
use uu_remote_ubuntu_bridge.Prelude.{
  ℕ, ◌+◌, ◌≤◌, ◌≡◌, refl, ◌↔◌, Bool, true, Option, none, some, List, [], ◌∷◌, ok, Bool-cases, inl,
  inr, length, arith, ◌==◌,
}
use uu_remote_ubuntu_bridge.Python.Bytes.{find, OccursAt}
use uu_remote_ubuntu_bridge.Python.Bytes.Search.{
  IsFirst, find-some, find-none, find-eq-some, find-eq-none,
}
use uu_remote_ubuntu_bridge.Patchlib.Manifest.{Patch, ReleaseManifest}
use uu_remote_ubuntu_bridge.Patchlib.Read.Order.{All}
use uu_remote_ubuntu_bridge.Patchlib.Apply.{
  expected, check_signature, check_signatures, verify_signatures, one_signature,
}

-- The needle stands at `at` and nowhere else.
pub record OccursOnly (needle xs : List ℕ) (at : ℕ) : Type 0 where
  pub occurs : OccursAt needle xs at
  pub only : (q : ℕ) → OccursAt needle xs q → q ≡ at

abbrev pub Shows : List ℕ → Bool → Patch → Type 0
Shows xs is_patched p = OccursOnly (expected is_patched p) xs p.file_offset

pub record Signed (xs : List ℕ) (m : ReleaseManifest) (is_patched : Bool) : Type 0 where
  pub size : length xs ≡ m.server_size
  pub signatures : All (Shows xs is_patched) m.patches

module _ (xs needle : List ℕ) (at : ℕ) where
  one_signature-OccursOnly :
      (r : Option ℕ)
      → find xs needle 0 ≡ r
      → one_signature r (find xs needle) at ≡ true
      → OccursOnly needle xs at
  unfolding one_signature
  one_signature-OccursOnly none e h = cc
  one_signature-OccursOnly (some p) e h =
      let f : IsFirst needle xs 0 p = find-some xs needle 0 p e in
      let here : p ≡ at = ground arith in
      let no_more : find xs needle (p + 1) ≡ none = ground arith in
      record {
        occurs = rw (← here) f.occurs;
        only = λ q o.
            let lo : p ≤ q = f.least q (omega arith) o in
            elim (Bool-cases (p == q)) [
              | inl same ↦ ground arith
              | inr other ↦ absurd (find-none xs needle (p + 1) q no_more (ground arith) o)
            ];
      }

  OccursOnly-one_signature :
      OccursOnly needle xs at → one_signature (find xs needle 0) (find xs needle) at ≡ true
  unfolding one_signature
  OccursOnly-one_signature h =
      let first : find xs needle 0 ≡ some at = find-eq-some xs needle 0 at (record {
        after_start = omega arith;
        occurs = h.occurs;
        least = λ q _ o. omega (arith, h.only q o);
      }) in
      let second : find xs needle (at + 1) ≡ none =
        find-eq-none xs needle (at + 1) (λ q hq o. omega (arith, h.only q o)) in
      ground (arith, first, second)

check_signature-Shows :
    (xs : List ℕ) (b : Bool) (p : Patch) → check_signature xs b p ≡ ok tt → Shows xs b p
unfolding check_signature
check_signature-Shows xs b p h =
    one_signature-OccursOnly xs (expected b p) p.file_offset _ refl (ground arith)

Shows-check_signature :
    (xs : List ℕ) (b : Bool) (p : Patch) → Shows xs b p → check_signature xs b p ≡ ok tt
unfolding check_signature
Shows-check_signature xs b p h = rw (OccursOnly-one_signature xs (expected b p) p.file_offset h)

check_signatures-cons :
    (xs : List ℕ) (b : Bool) (p : Patch) (ps : List Patch)
    → check_signatures xs b (p ∷ ps) ≡ ok tt
    → (check_signature xs b p ≡ ok tt) × (check_signatures xs b ps ≡ ok tt)
unfolding check_signatures
check_signatures-cons xs b p ps h = ground arith

check_signatures-All :
    (xs : List ℕ) (b : Bool) (ps : List Patch)
    → check_signatures xs b ps ≡ ok tt
    → All (Shows xs b) ps
check_signatures-All xs b [] h = tt
check_signatures-All xs b (p ∷ ps) h =
    let (hp, hps) = check_signatures-cons xs b p ps h in
    (check_signature-Shows xs b p hp, check_signatures-All xs b ps hps)

All-check_signatures :
    (xs : List ℕ) (b : Bool) (ps : List Patch)
    → All (Shows xs b) ps
    → check_signatures xs b ps ≡ ok tt
unfolding check_signatures
All-check_signatures xs b [] h = refl
All-check_signatures xs b (p ∷ ps) (hp, hps) =
    rw (Shows-check_signature xs b p hp) (All-check_signatures xs b ps hps)

verify-size :
    (xs : List ℕ) (m : ReleaseManifest) (b : Bool)
    → verify_signatures xs m b ≡ ok tt
    → (length xs ≡ m.server_size) × (check_signatures xs b m.patches ≡ ok tt)
unfolding verify_signatures
verify-size xs m b h = ground arith

-- The check passes exactly on data of the manifest's size that shows each signature at its offset
-- and nowhere else.
pub verify_signatures-iff-Signed :
    (xs : List ℕ) (m : ReleaseManifest) (b : Bool)
    → (verify_signatures xs m b ≡ ok tt) ↔ Signed xs m b
verify_signatures-iff-Signed xs m b = (
  λ h.
      let (size, rest) = verify-size xs m b h in
      record { size = size; signatures = check_signatures-All xs b m.patches rest },
  λ s. back s (All-check_signatures xs b m.patches s.signatures),
)
  where
    back :
        Signed xs m b → check_signatures xs b m.patches ≡ ok tt → verify_signatures xs m b ≡ ok tt
    back s c = unfold verify_signatures in ground (arith, s.size, c)
