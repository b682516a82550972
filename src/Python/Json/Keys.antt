-- ===== src/Python/Json/Keys.antt =====
-- What a mapping holds under a key after another was set or removed.
use uu_remote_ubuntu_bridge.Prelude.{
  ◌≡◌, refl, sym, subst, String, true, false, eq_iff, eq_refl, str_eq, inl, inr, Bool-cases, Option,
  none, some, ap, ◌∙◌,
}
use uu_remote_ubuntu_bridge.Python.Json.{
  Json, null, Fields, end, field, get, find_field, set_field, pop_field,
}

find-set_field_self :
    (k : String) (v : Json) (fs : Fields) → find_field k (set_field k v fs) ≡ some v
unfolding find_field set_field
find-set_field_self k v end = rw (eq_refl k) refl
find-set_field_self k v (field j w fs) = elim (Bool-cases (str_eq j k)) [
  | inl e ↦ rw (e, e) refl
  | inr e ↦ rw (e, e) (find-set_field_self k v fs)
]

differs : (i j k : String) → str_eq i k ≡ true → str_eq k j ≡ false → str_eq i j ≡ false
differs i j k e h = subst (λ (x : String). str_eq x j ≡ false) (sym ((eq_iff i k).0 e)) h

find-set_field_other :
    (k j : String) (v : Json) (fs : Fields)
    → str_eq k j ≡ false
    → find_field j (set_field k v fs) ≡ find_field j fs
unfolding find_field set_field
find-set_field_other k j v end h = rw h refl
find-set_field_other k j v (field i w fs) h = elim (Bool-cases (str_eq i k)) [
  | inl e ↦ let f = differs i j k e h in rw (e, f) refl
  | inr e ↦ elim (Bool-cases (str_eq i j)) [
    | inl f ↦ rw (e, f) refl
    | inr f ↦ rw (e, f) (find-set_field_other k j v fs h)
  ]
]

find-pop_field_other :
    (k j : String) (fs : Fields)
    → str_eq k j ≡ false
    → find_field j (pop_field k fs) ≡ find_field j fs
unfolding find_field pop_field
find-pop_field_other k j end h = refl
find-pop_field_other k j (field i w fs) h = elim (Bool-cases (str_eq i k)) [
  | inl e ↦ let f = differs i j k e h in rw (e, f) refl
  | inr e ↦ elim (Bool-cases (str_eq i j)) [
    | inl f ↦ rw (e, f) refl
    | inr f ↦ rw (e, f) (find-pop_field_other k j fs h)
  ]
]

abbrev or_null : Option Json → Json
or_null none = null
or_null (some v) = v

get-find_field : (fs : Fields) (k : String) → get fs k ≡ or_null (find_field k fs)
unfolding get
get-find_field fs k = refl

pub get-set_field_self : (k : String) (v : Json) (fs : Fields) → get (set_field k v fs) k ≡ v
get-set_field_self k v fs =
    get-find_field (set_field k v fs) k ∙ ap or_null (find-set_field_self k v fs)

pub get-set_field_other :
    (k j : String) (v : Json) (fs : Fields)
    → str_eq k j ≡ false
    → get (set_field k v fs) j ≡ get fs j
get-set_field_other k j v fs h =
    get-find_field (set_field k v fs) j
    ∙ (ap or_null (find-set_field_other k j v fs h) ∙ sym (get-find_field fs j))

pub get-pop_field_other :
    (k j : String) (fs : Fields) → str_eq k j ≡ false → get (pop_field k fs) j ≡ get fs j
get-pop_field_other k j fs h =
    get-find_field (pop_field k fs) j
    ∙ (ap or_null (find-pop_field_other k j fs h) ∙ sym (get-find_field fs j))
