-- ===== src/Audit/Draft/Unreviewed.antt =====
-- The draft of an audit is refused until it is reviewed.
use uu_remote_ubuntu_bridge.Prelude.{
  ℕ, ◌≡◌, ◌≢◌, refl, sym, ap, subst, ◌∙◌, ◌&&◌, none, String, true, false, Option, some, List, [],
  ◌∷◌, ok, arith, >>=-eq-ok, require-eq-ok, refuse-eq-ok,
}
use uu_remote_ubuntu_bridge.Python.Json.{Items, nil, obj, Fields, get, as_obj, as_arr}
use uu_remote_ubuntu_bridge.Patchlib.Manifest.{Patch, ReleaseManifest}
use uu_remote_ubuntu_bridge.Patchlib.Read.{load_manifest}
use uu_remote_ubuntu_bridge.Audit.Pe.{parse_pe}
use uu_remote_ubuntu_bridge.Audit.Draft
use uu_remote_ubuntu_bridge.Audit.Draft.{
  InspectScene, AuditReport, draft_of, draft_items, inspect_release,
}
use uu_remote_ubuntu_bridge.Audit.Finalize.{FinalizeScene, finalize_manifest}
use uu_remote_ubuntu_bridge.Audit.Finalize.Approved.{
  AllReviewed, Reviewed, finalize_manifest-Approved,
}

not_AllReviewed :
    (xs : List ℕ) (ps : List Patch) → draft_items xs ps ≢ nil → AllReviewed (draft_items xs ps) → ⊥
unfolding AllReviewed get
not_AllReviewed xs [] n a = n refl
not_AllReviewed xs (p ∷ ps) n (h, a) = cc

patches_in : Option Fields → Option Items
patches_in none = none
patches_in (some server) = as_arr (get server "patches")

draft-patches :
    (o : InspectScene) (digest : String) (xs : List ℕ) (b : ReleaseManifest) (server : Fields)
    → as_obj (get (draft_of o digest xs b) "server") ≡ some server
    → as_arr (get server "patches") ≡ some (draft_items xs b.patches)
unfolding draft_of get patches_in
draft-patches o digest xs b server h = ap patches_in (sym h)

draft-refused :
    (sha256 : List ℕ → String) (o : FinalizeScene) (i : InspectScene) (digest : String)
    (xs : List ℕ) (b : ReleaseManifest) (draft server : Fields) (patches : Items)
    → o.draft ≡ some (obj (draft_of i digest xs b))
    → Reviewed o draft server patches
    → ⊥
draft-refused sha256 o i digest xs b draft server patches e r =
    let same : draft_of i digest xs b ≡ draft = obj-eq (sym e ∙ r.draft_eq) in
    let held : as_arr (get server "patches") ≡ some (draft_items xs b.patches) =
      draft-patches i digest xs b server
        (ap (λ (fs : Fields). as_obj (get fs "server")) same ∙ r.server_eq) in
    let items : patches ≡ draft_items xs b.patches = items-eq (sym r.patches_eq ∙ held) in
    not_AllReviewed xs b.patches (λ n. r.some_patch (items ∙ n))
      (subst AllReviewed items r.reviewed)
  where
    obj-eq : {a b : Fields} → some (obj a) ≡ some (obj b) → a ≡ b
    obj-eq h = cc

    items-eq : {a b : Items} → some a ≡ some b → a ≡ b
    items-eq h = cc

-- A draft as `inspect_release` writes it is never finalized: whatever the server, the baseline and the
-- arguments are, `finalize_manifest` raises until a person has changed the draft.
pub inspect_release-unreviewed :
    (sha256 : List ℕ → String) (encode : String → List ℕ) (i : InspectScene) (xs : List ℕ)
    (report : AuditReport) (o : FinalizeScene) (result : Fields)
    → inspect_release sha256 encode i xs ≡ ok report
    → o.draft ≡ some (obj report.draft)
    → finalize_manifest sha256 o ≢ ok result
unfolding inspect_release
inspect_release-unreviewed sha256 encode i xs report o result h e f =
    let (a, h₁) =
      require-eq-ok (i.server_there && Draft.is_there i.installer && Draft.is_there i.healthd) _ _
        h in
    let (b, c, h₂) =
      >>=-eq-ok (Draft.baseline_of (load_manifest (λ path. i.baseline) true false i.baseline_path))
        _ h₁ in
    let (pe, d, h₃) = >>=-eq-ok (Draft.pe_of (parse_pe xs)) _ h₂ in
    let (g, h₄) = refuse-eq-ok i.output_taken _ _ h₃ in
    let drafted : report.draft ≡ draft_of i (sha256 xs) xs b = ground (arith, h₄) in
    let (draft, server, patches, r, audited, section, applicable) =
      finalize_manifest-Approved sha256 o result f in
    draft-refused sha256 o i (sha256 xs) xs b draft server patches
      (e ∙ ap (λ (fs : Fields). some (obj fs)) drafted) r
