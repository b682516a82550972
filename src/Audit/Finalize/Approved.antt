-- ===== src/Audit/Finalize/Approved.antt =====
-- What an approved manifest has been held against.
use uu_remote_ubuntu_bridge.Prelude.{
  ℕ, ◌≡◌, ◌≢◌, ap, sym, refl, ◌∙◌, length, String, Bool, true, false, Option, none, some, List, ok,
  err, arith, or_raise, or_raise-eq-ok, >>=-eq-ok, require-eq-ok, refuse-eq-ok, Result,
}
use uu_remote_ubuntu_bridge.Python.Json.{
  Json, obj, arr, str, int, Items, pop_field, nil, cons, Fields, get, as_obj, as_arr, is_str,
  set_field,
}
use uu_remote_ubuntu_bridge.Patchlib.Manifest.{ReleaseManifest, ManifestError}
use uu_remote_ubuntu_bridge.Patchlib.Read.{manifest_from_dict}
use uu_remote_ubuntu_bridge.Patchlib.Read.WellFormed.{WellFormed, manifest_from_dict-WellFormed}
use uu_remote_ubuntu_bridge.Patchlib.Apply.{render_patched, make_patched}
use uu_remote_ubuntu_bridge.Audit.Finalize
use uu_remote_ubuntu_bridge.Audit.Finalize.{
  FinalizeScene, raised, has_placeholder, reviewed_item, reviewed_items, approve, finalize_manifest,
  approved_fields, review, zeros,
}
use uu_remote_ubuntu_bridge.Python.Json.Keys.{
  get-set_field_self, get-set_field_other, get-pop_field_other,
}
use uu_remote_ubuntu_bridge.Prelude.Int.{pos}

-- `candidate_status` says that the item was reviewed.
abbrev pub is_reviewed : Json → Bool
is_reviewed (obj item) = is_str "reviewed" (get item "candidate_status")
is_reviewed _ = false

unfoldable pub AllReviewed : Items → Type 0
AllReviewed nil = Unit
AllReviewed (cons v vs) = (is_reviewed v ≡ true) × AllReviewed vs

reviewed_item-eq-ok : (v w : Json) → reviewed_item v ≡ ok w → is_reviewed v ≡ true
unfolding reviewed_item
reviewed_item-eq-ok v w h = ground arith

pub reviewed_items-AllReviewed : (vs ws : Items) → reviewed_items vs ≡ ok ws → AllReviewed vs
unfolding AllReviewed reviewed_items
reviewed_items-AllReviewed nil ws h = tt
reviewed_items-AllReviewed (cons v vs) ws h =
    let (w, e, h₁) = >>=-eq-ok (reviewed_item v) _ h in
    let (rest, f, h₂) = >>=-eq-ok (reviewed_items vs) _ h₁ in
    (reviewed_item-eq-ok v w e, reviewed_items-AllReviewed vs rest f)

-- A patch of the draft without what the audit noted, and all of them.
abbrev pub stripped_patch : Json → Json
stripped_patch (obj item) = obj (pop_field "candidate_status" (pop_field "candidate_offsets" item))
stripped_patch v = v

unfoldable pub stripped : Items → Items
stripped nil = nil
stripped (cons v vs) = cons (stripped_patch v) (stripped vs)

reviewed_item-stripped : (v w : Json) → reviewed_item v ≡ ok w → w ≡ stripped_patch v
unfolding reviewed_item
reviewed_item-stripped v w h = ground arith

reviewed_items-stripped : (vs ws : Items) → reviewed_items vs ≡ ok ws → ws ≡ stripped vs
unfolding stripped reviewed_items
reviewed_items-stripped nil ws h = ground arith
reviewed_items-stripped (cons v vs) ws h =
    let (w, e, h₁) = >>=-eq-ok (reviewed_item v) _ h in
    let (rest, f, h₂) = >>=-eq-ok (reviewed_items vs) _ h₁ in
    let first = reviewed_item-stripped v w e in let others = reviewed_items-stripped vs rest f in cc

-- What was read of the draft.
pub record Reviewed (o : FinalizeScene) (draft server : Fields) (patches : Items) : Type 0 where
  pub accepted : o.accepted ≡ true
  pub nothing_there : o.output_there ≡ false
  pub draft_eq : o.draft ≡ some (obj draft)
  pub was_draft : is_str "draft" (get draft "review_status") ≡ true
  pub complete : has_placeholder (obj draft) ≡ false
  pub server_eq : as_obj (get draft "server") ≡ some server
  pub patches_eq : as_arr (get server "patches") ≡ some patches
  pub some_patch : patches ≢ nil
  pub reviewed : AllReviewed patches

draft_fields-eq-ok :
    (value : Option Json) (raw : Fields)
    → Finalize.draft_fields value ≡ ok raw
    → (value ≡ some (obj raw))
      × (is_str "draft" (get raw "review_status") ≡ true)
      × (has_placeholder (obj raw) ≡ false)
unfolding Finalize.draft_fields
draft_fields-eq-ok none raw h = cc
draft_fields-eq-ok (some value) raw h =
    let (fields, e, h₁) = >>=-eq-ok (or_raise (as_obj value) _) _ h in
    let (d, h₂) = require-eq-ok (is_str "draft" (get fields "review_status")) _ _ h₁ in
    let (c, h₃) = refuse-eq-ok (has_placeholder value) _ _ h₂ in
    let same : fields ≡ raw = ground arith in
    let shape : value ≡ obj raw = ground (arith, same, or_raise-eq-ok (as_obj value) _ e) in
    (ap (λ (v : Json). some v) shape, rw same at d, rw shape at c)

non_empty_items-eq-ok :
    (vs : Option Items) (ws : Items)
    → Finalize.non_empty_items vs ≡ ok ws
    → (vs ≡ some ws) × (ws ≢ nil)
unfolding Finalize.non_empty_items
non_empty_items-eq-ok none ws h = cc
non_empty_items-eq-ok (some nil) ws h = cc
non_empty_items-eq-ok (some (cons v vs)) ws h = (ground arith, λ e. ground (arith, h, e))

raised-eq-ok : {A : Type 0} (r : Result ManifestError A) {a : A} → raised r ≡ ok a → r ≡ ok a
raised-eq-ok (ok a) h = ground arith
raised-eq-ok (err e) h = cc

-- The manifest that is written: the reader accepts it as an approved one, it is well formed, and the
-- server that was audited can be patched by it.
pub record Applicable (sha256 : List ℕ → String) (o : FinalizeScene) (result : Fields)
    : Type 0 where
  pub manifest : ReleaseManifest
  pub bytes : List ℕ
  pub manifest_eq : manifest_from_dict true false (obj result) o.output ≡ ok manifest
  pub well_formed : WellFormed true false manifest
  pub patched_eq : make_patched sha256 o.server manifest ≡ ok bytes

module _ (sha256 : List ℕ → String) (o : FinalizeScene) where
  -- The server section that is written, with any text for the hash of the patched bytes.
  abbrev signed : Fields → String → Fields
  signed server hash = set_field "patched_sha256" (str hash) (
      set_field "patched_sha256" (str zeros)
        (set_field "size" (int (pos (length o.server))) server))

  signed-patches :
      (server : Fields) (hash : String) → get (signed server hash) "patches" ≡ get server "patches"
  signed-patches server hash =
      let sized = set_field "size" (int (pos (length o.server))) server in
      let zeroed = set_field "patched_sha256" (str zeros) sized in
      get-set_field_other "patched_sha256" "patches" (str hash) zeroed refl
      ∙ (get-set_field_other "patched_sha256" "patches" (str zeros) sized refl
          ∙ get-set_field_other "size" "patches" (int (pos (length o.server))) server refl)

  approved_fields-server :
      (raw new : Fields)
      → get (approved_fields o (set_field "server" (obj new) raw)) "server" ≡ obj new
  approved_fields-server raw new =
      let inner = set_field "server" (obj new) raw in
      let marked = set_field "review_status" (str "approved") inner in
      get-pop_field_other "audit" "server" (set_field "review" (obj (review o)) marked) refl
      ∙ (get-set_field_other "review" "server" (obj (review o)) marked refl
          ∙ (get-set_field_other "review_status" "server" (str "approved") inner refl
              ∙ get-set_field_self "server" (obj new) raw))

  approve-Applicable :
      (raw server result : Fields)
      → approve sha256 o raw server ≡ ok result
      → Applicable sha256 o result
        × (is_str (sha256 o.server) (get server "original_sha256") ≡ true)
        × ((new : Fields) × (get result "server" ≡ obj new)
            × (get new "patches" ≡ get server "patches"))
  unfolding approve
  approve-Applicable raw server result h =
      let (a, h₁) = require-eq-ok (is_str (sha256 o.server) (get server "original_sha256")) _ _ h in
      let (p, b, h₂) = >>=-eq-ok (raised (manifest_from_dict false false _ o.draft_path)) _ h₁ in
      let (q, c, h₃) = >>=-eq-ok (raised (render_patched sha256 o.server p)) _ h₂ in
      let (m, d, h₄) = >>=-eq-ok (raised (manifest_from_dict true false _ o.output)) _ h₃ in
      let (bytes, e, h₅) = >>=-eq-ok (raised (make_patched sha256 o.server m)) _ h₄ in
      let written : result ≡ _ = ground (arith, h₅) in
      let read : manifest_from_dict true false (obj result) o.output ≡ ok m =
        rw written (raised-eq-ok _ d) in
      (
        record {
          manifest = m;
          bytes = bytes;
          manifest_eq = read;
          well_formed = manifest_from_dict-WellFormed true false (obj result) o.output m read;
          patched_eq = raised-eq-ok (make_patched sha256 o.server m) e;
        },
        a,
        (
          signed server (sha256 q),
          ap (λ (r : Fields). get r "server") written
              ∙ approved_fields-server raw (signed server (sha256 q)),
          signed-patches server (sha256 q),
        ),
      )

  -- A manifest is approved only if the disassembly was accepted, nothing stands at the output, the draft
  -- is one and has no placeholder left, every patch, one at least, was marked as reviewed, and the
  -- server has the hash that was audited. What is written then holds the patches that were reviewed,
  -- without the notes of the audit, is read as an approved manifest, is well formed, and patches that
  -- server to bytes of the hash that it states.
  pub finalize_manifest-Approved :
      (result : Fields)
      → finalize_manifest sha256 o ≡ ok result
      → (draft server : Fields) × (patches : Items) × Reviewed o draft server patches
        × (is_str (sha256 o.server) (get server "original_sha256") ≡ true)
        × ((new : Fields) × (get result "server" ≡ obj new)
            × (get new "patches" ≡ arr (stripped patches)))
        × Applicable sha256 o result
  unfolding finalize_manifest
  finalize_manifest-Approved result h =
      let (a, h₁) = require-eq-ok o.accepted _ _ h in
      let (b, h₂) = refuse-eq-ok o.output_there _ _ h₁ in
      let (raw, c, h₃) = >>=-eq-ok (Finalize.draft_fields o.draft) _ h₂ in
      let (server, d, h₄) = >>=-eq-ok (or_raise (as_obj (get raw "server")) _) _ h₃ in
      let (patches, e, h₅) =
        >>=-eq-ok (Finalize.non_empty_items (as_arr (get server "patches"))) _ h₄ in
      let (items, f, h₆) = >>=-eq-ok (reviewed_items patches) _ h₅ in
      let (k, l, m) = draft_fields-eq-ok o.draft raw c in
      let (p, q) = non_empty_items-eq-ok (as_arr (get server "patches")) patches e in
      let reviewed_server = set_field "patches" (arr items) server in
      let (applicable, audited, section) = approve-Applicable raw reviewed_server result h₆ in
      let (new, new_eq, kept) = section in
      (
        raw,
        server,
        patches,
        record {
          accepted = a;
          nothing_there = b;
          draft_eq = k;
          was_draft = l;
          complete = m;
          server_eq = or_raise-eq-ok (as_obj (get raw "server")) _ d;
          patches_eq = p;
          some_patch = q;
          reviewed = reviewed_items-AllReviewed patches items f;
        },
        ap (is_str (sha256 o.server))
              (sym (get-set_field_other "patches" "original_sha256" (arr items) server refl))
            ∙ audited,
        (
          new,
          new_eq,
          kept
              ∙ (get-set_field_self "patches" (arr items) server
                  ∙ ap (λ (vs : Items). arr vs) (reviewed_items-stripped patches items f)),
        ),
        applicable,
      )
