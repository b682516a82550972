-- ===== src/Registry/Deletion.antt =====
-- What the keys that `inspect` offers for deletion may take with them.
use uu_remote_ubuntu_bridge.Prelude.{
  ℕ, String, Bool, true, false, ◌&&◌, ◌||◌, not, Option, some, str_eq, ◌≡◌, refl, List, [], ◌∷◌,
  ◌++◌, ◌<>◌, Bool-cases, inl, inr, arith,
}
use uu_remote_ubuntu_bridge.Registry.{
  Section, Key, winebth_key, hid_key, mouse_key, service_key, filter_service_key, class_key,
  class_keys, Status, survey, chosen, any, delete_keys, listed_if, listed, clean, is_root,
  is_gvinput_hid, is_gvinput_mouse, is_class_key, windows_key, windows_keys, begins, under, path_of,
  hid_class_guid, mouse_class_guid, when, joined_path,
}

abbrev pub same_key : Key → Key → Bool
same_key winebth_key winebth_key = true
same_key hid_key hid_key = true
same_key mouse_key mouse_key = true
same_key service_key service_key = true
same_key filter_service_key filter_service_key = true
same_key (class_key a) (class_key b) = str_eq a b
same_key _ _ = false

unfoldable pub offers : Key → List Key → Bool
offers k [] = false
offers k (l ∷ ls) = same_key k l || offers k ls

-- Each section that `test` accepts is one that `good` accepts.
pub data Every (test good : Section → Bool) : List Section → Type 0 where
  end : Every test good []
  next :
      (s : Section) (ss : List Section)
      → (test s ≡ true → good s ≡ true)
      → Every test good ss
      → Every test good (s ∷ ss)

any-chosen :
    (test good : Section → Bool) (ss : List Section)
    → any (chosen (λ s. test s && not (good s)) ss) ≡ false
    → Every test good ss
unfolding chosen
any-chosen test good [] h = end
any-chosen test good (s ∷ ss) h = elim (Bool-cases (test s && not (good s))) [
  | inl e ↦ ground arith
  | inr e ↦ next s ss (λ t. ground arith) (any-chosen test good ss (ground arith))
]

offers-append : (k : Key) (a b : List Key) → offers k (a ++ b) ≡ (offers k a || offers k b)
unfolding offers
offers-append k [] b = refl
offers-append k (l ∷ a) b = ground (arith, offers-append k a b)

offers_hid-class_keys : (ks : List String) → offers hid_key (class_keys ks) ≡ false
unfolding offers class_keys
offers_hid-class_keys [] = refl
offers_hid-class_keys (k ∷ ks) = offers_hid-class_keys ks

offers_mouse-class_keys : (ks : List String) → offers mouse_key (class_keys ks) ≡ false
unfolding offers class_keys
offers_mouse-class_keys [] = refl
offers_mouse-class_keys (k ∷ ks) = offers_mouse-class_keys ks

offers-when :
    (k : Key) (test : Bool) (keys : List Key) → offers k (when test keys) ≡ (test && offers k keys)
unfolding offers
offers-when k true keys = refl
offers-when k false keys = refl

offers-parts :
    (k : Key) (a b c d e f : List Key)
    → offers k (a ++ b ++ c ++ d ++ e ++ f)
      ≡ (offers k a || offers k b || offers k c || offers k d || offers k e || offers k f)
offers-parts k a b c d e f = ground (
  arith,
  offers-append k (a ++ b ++ c ++ d ++ e) f,
  offers-append k (a ++ b ++ c ++ d) e,
  offers-append k (a ++ b ++ c) d,
  offers-append k (a ++ b) c,
  offers-append k a b,
)

pub offers-listed :
    (s : Status) (hid mouse : List String)
    → (offers hid_key (listed s hid mouse) ≡ (any s.hid_roots && not (any s.unexpected_hid)))
      × (offers mouse_key (listed s hid mouse)
          ≡ (any s.mouse_roots && not (any s.unexpected_mouse)))
unfolding listed offers
offers-listed s hid mouse =
    let w = when (any s.winebth_devices) (winebth_key ∷ []) in
    let h = when (any s.hid_roots && not (any s.unexpected_hid)) (hid_key ∷ []) in
    let m = when (any s.mouse_roots && not (any s.unexpected_mouse)) (mouse_key ∷ []) in
    let v = when (any s.services) (service_key ∷ filter_service_key ∷ []) in
    (
      ground (
        arith,
        offers-parts hid_key w h m (class_keys hid) (class_keys mouse) v,
        offers_hid-class_keys hid,
        offers_hid-class_keys mouse,
      ),
      ground (
        arith,
        offers-parts mouse_key w h m (class_keys hid) (class_keys mouse) v,
        offers_mouse-class_keys hid,
        offers_mouse-class_keys mouse,
      ),
    )

-- Where `windows_key` accepts what it is given, a class key's section: every name that `inspect` selects
-- for it begins with the two parts that it asks for.
windows_key-begins :
    (b guid : String) (parts : List String)
    → begins (under (path_of "control" b) guid) parts ≡ true
    → (k : String) × (windows_key parts ≡ some k)
unfolding begins windows_key
windows_key-begins b guid [] h = ground arith
windows_key-begins b guid (x ∷ []) h = ground arith
windows_key-begins b guid (x ∷ y ∷ rest) h =
    ("HKEY_LOCAL_MACHINE\\System\\CurrentControlSet\\" <> joined_path rest, ground arith)

module _ (lower : String → String) (is_digits : String → Bool) where
  is_class_key-begins :
      (guid inf : String) (s : Section)
      → is_class_key lower is_digits guid inf s ≡ true
      → begins (under (path_of "control" "class") guid) s.parts ≡ true
  unfolding is_class_key
  is_class_key-begins guid inf s h = ground arith

  windows_keys-chosen :
      (guid inf : String) (ss : List Section)
      → (ks : List String) × (windows_keys (chosen (is_class_key lower is_digits guid inf) ss)
          ≡ some ks)
  unfolding chosen windows_keys
  windows_keys-chosen guid inf [] = ([], refl)
  windows_keys-chosen guid inf (s ∷ ss) =
      let (ks, e) = windows_keys-chosen guid inf ss in
      elim (Bool-cases (is_class_key lower is_digits guid inf s)) [
        | inr f ↦ (ks, ground arith)
        | inl f ↦
            let (k, g) =
              windows_key-begins "class" guid s.parts (is_class_key-begins guid inf s f) in
            (k ∷ ks, ground arith)
      ]

  -- `inspect` never raises: it always has a list of keys.
  pub delete_keys-total :
      (start : Option ℕ) (ss : List Section)
      → (keys : List Key) × (delete_keys (survey lower is_digits start ss) ≡ some keys)
  unfolding delete_keys survey listed_if
  delete_keys-total start ss =
      let (hid, e) = windows_keys-chosen hid_class_guid "\"infpath\"=\"gvinput.inf\"" ss in
      let (mouse, f) = windows_keys-chosen mouse_class_guid "\"infpath\"=\"gvinputmf.inf\"" ss in
      (listed (survey lower is_digits start ss) hid mouse, ground arith)

  -- Where the whole of Enum\ROOT\HIDCLASS is offered for deletion, each of its devices is UU's input
  -- device; and likewise each of Enum\ROOT\MOUSE.
  pub delete_keys-Every :
      (start : Option ℕ) (ss : List Section) (keys : List Key)
      → delete_keys (survey lower is_digits start ss) ≡ some keys
      → (offers hid_key keys ≡ true
          → Every (is_root "hidclass") (is_gvinput_hid lower is_digits) ss)
        × (offers mouse_key keys ≡ true
            → Every (is_root "mouse") (is_gvinput_mouse lower is_digits) ss)
  unfolding delete_keys survey listed_if
  delete_keys-Every start ss keys h =
      let (hid, e) = windows_keys-chosen hid_class_guid "\"infpath\"=\"gvinput.inf\"" ss in
      let (mouse, f) = windows_keys-chosen mouse_class_guid "\"infpath\"=\"gvinputmf.inf\"" ss in
      let (a, b) = offers-listed (survey lower is_digits start ss) hid mouse in
      let c = any-chosen (is_root "hidclass") (is_gvinput_hid lower is_digits) ss in
      let d = any-chosen (is_root "mouse") (is_gvinput_mouse lower is_digits) ss in
      (λ i. c (ground arith), λ i. d (ground arith))

  -- A registry that is reported clean offers no key.
  pub clean-delete_keys :
      (start : Option ℕ) (ss : List Section)
      → clean (survey lower is_digits start ss) ≡ true
      → delete_keys (survey lower is_digits start ss) ≡ some []
  unfolding delete_keys survey listed_if listed clean windows_keys class_keys
  clean-delete_keys start ss h = ground arith
