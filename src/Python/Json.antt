-- ===== src/Python/Json.antt =====
-- The values that `json.loads` returns. A finite float is `real m k`, the number m / 2 ^ k; NaN and
-- the infinities, which JSON has no name for, are left out.
pub mod Keys
use uu_remote_ubuntu_bridge.Prelude.{
  ℕ, suc, ◌^◌, String, Bool, true, false, ◌&&◌, Option, none, some, List, [], ◌∷◌, ◌==◌, str_eq,
  if◌then◌else◌,
}
use uu_remote_ubuntu_bridge.Prelude.Int.{ℤ, pos, scale, eqb_ℤ}

mutual
  pub data Json : Type 0 where
    null : Json
    bool : Bool → Json
    int : ℤ → Json
    real : ℤ → ℕ → Json
    str : String → Json
    arr : Items → Json
    obj : Fields → Json

  pub data Items : Type 0 where
    nil : Items
    cons : Json → Items → Items

  pub data Fields : Type 0 where
    end : Fields
    field : String → Json → Fields → Fields

-- `mapping.get(key)`, where `none` and `null` both stand for None: see `get`.
unfoldable pub find_field : String → Fields → Option Json
find_field k end = none
find_field k (field j v fs) = if str_eq j k then some v else find_field k fs

-- `mapping.get(key)`: a missing key gives None.
unfoldable pub get : Fields → String → Json
unfolding find_field
get fs k = elim (find_field k fs) [ none ↦ null | some v ↦ v ]

-- The list of a JSON array.
abbrev pub items : Items → List Json
items nil = []
items (cons v vs) = v ∷ items vs

-- `isinstance(v, dict)`, `isinstance(v, list)`, `isinstance(v, str)`
abbrev pub as_obj : Json → Option Fields
as_obj (obj fs) = some fs
as_obj _ = none

abbrev pub as_arr : Json → Option Items
as_arr (arr vs) = some vs
as_arr _ = none

abbrev pub as_str : Json → Option String
as_str (str s) = some s
as_str _ = none

-- `isinstance(v, int) and not isinstance(v, bool)`
abbrev pub as_int : Json → Option ℤ
as_int (int n) = some n
as_int _ = none

-- `v is True`
abbrev pub is_true : Json → Bool
is_true (bool true) = true
is_true _ = false

-- Numbers compare by value, and True is 1.
abbrev pub numeric : Json → Option (ℤ × ℕ)
numeric (bool true) = some (pos 1, 0)
numeric (bool false) = some (pos 0, 0)
numeric (int n) = some (n, 0)
numeric (real m k) = some (m, k)
numeric _ = none

abbrev same_number : Option (ℤ × ℕ) → Option (ℤ × ℕ) → Bool
same_number (some (m, k)) (some (n, j)) = eqb_ℤ (scale m (2 ^ j)) (scale n (2 ^ k))
same_number _ _ = false

abbrev count_fields : Fields → ℕ
count_fields end = 0
count_fields (field k v fs) = suc (count_fields fs)

abbrev holds : Option Json → (Json → Bool) → Bool
holds none test = false
holds (some v) test = test v

-- `a == b` of two values; the order of a mapping's keys does not matter.
unfoldable mutual
  pub json_eq : Json → Json → Bool
  json_eq null null = true
  json_eq null _ = false
  json_eq (str s) (str t) = str_eq s t
  json_eq (str s) _ = false
  json_eq (arr vs) (arr ws) = items_eq vs ws
  json_eq (arr vs) _ = false
  json_eq (obj fs) (obj gs) = count_fields fs == count_fields gs && fields_eq fs gs
  json_eq (obj fs) _ = false
  json_eq a b = same_number (numeric a) (numeric b)

  pub items_eq : Items → Items → Bool
  items_eq nil nil = true
  items_eq nil (cons w ws) = false
  items_eq (cons v vs) nil = false
  items_eq (cons v vs) (cons w ws) = json_eq v w && items_eq vs ws

  pub fields_eq : Fields → Fields → Bool
  fields_eq end gs = true
  fields_eq (field k v fs) gs = holds (find_field k gs) (λ w. json_eq v w) && fields_eq fs gs

-- `v == 1`: true of 1, of 1.0 and of True.
unfoldable pub is_one : Json → Bool
unfolding json_eq
is_one v = json_eq v (int (pos 1))

-- `v == "text"`
abbrev pub is_str : String → Json → Bool
is_str text (str s) = str_eq s text
is_str text _ = false

-- `mapping[key] = value`: a new key comes last.
unfoldable pub set_field : String → Json → Fields → Fields
set_field k v end = field k v end
set_field k v (field j w fs) = if str_eq j k then field j v fs else field j w (set_field k v fs)

-- `mapping.pop(key, None)`
unfoldable pub pop_field : String → Fields → Fields
pop_field k end = end
pop_field k (field j w fs) = let rest = pop_field k fs in if str_eq j k then fs else field j w rest

-- `str(d.get(key, ""))` of what stands at the key; `other_text` stands for Python's `str` of a JSON
-- value that is no text.
abbrev pub text_of : (Json → String) → Option Json → String
text_of other_text none = ""
text_of other_text (some (str s)) = s
text_of other_text (some v) = other_text v
