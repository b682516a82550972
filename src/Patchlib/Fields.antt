-- ===== src/Patchlib/Fields.antt =====
-- scripts/gameviewer_patchlib.py: the readers of one field, `_mapping` to `_string_list`.
pub mod Hex
use mathlib.Core.Option
use Prim.Native.Char.{Char, code}
use Prim.Native.String.{[] as empty, ◌∷◌ as ◌∷ₛ◌}
use uu_remote_ubuntu_bridge.Prelude.{
  ℕ, String, Bool, true, false, not, Option, none, some, List, [], ◌∷◌, Result, ok, err, ◌>>=◌,
  ◌>>◌, require, refuse, or_raise, if◌then◌else◌, ◌<>◌,
}
use uu_remote_ubuntu_bridge.Prelude.Int.{ℤ, pos, negsuc}
use uu_remote_ubuntu_bridge.Python.Text.{has_text, is_sha256, is_empty, member}
use uu_remote_ubuntu_bridge.Python.Integer.{int_base0}
use uu_remote_ubuntu_bridge.Python.Json.{
  Json, null, bool, int, real, str, arr, obj, Items, nil, cons, Fields, get, find_field, as_obj,
}
use uu_remote_ubuntu_bridge.Patchlib.Manifest.{
  ManifestError, not_an_object, not_a_string, not_a_digest, not_an_offset, negative_offset, not_hex,
  empty_bytes, not_string_list, duplicate_strings,
}
use Hex.{lower, hex_bytes}

abbrev pub Checked {ℓ} : Type ℓ → Type ℓ
Checked A = Result ManifestError A

-- `_mapping`
abbrev pub mapping : Json → String → Checked Fields
mapping value name = or_raise (as_obj value) (not_an_object name)

non_empty : Json → String → Checked String
non_empty (str s) label = if has_text s then ok s else err (not_a_string label)
non_empty _ label = err (not_a_string label)

label : String → String → String
label prefix name = if is_empty prefix then name else prefix <> "." <> name

-- `_string`
unfoldable pub string : Fields → String → String → Checked String
unfolding non_empty label
string fields name prefix = non_empty (get fields name) (label prefix name)

-- `_sha256`
unfoldable pub sha256_field : Fields → String → String → Checked String
unfolding string
sha256_field fields name prefix = do
  value ← string fields name prefix
  let digest = lower value
  require (is_sha256 digest) (not_a_digest (prefix <> "." <> name))
  ok digest

natural : ℤ → String → Checked ℕ
natural (pos n) name = ok n
natural (negsuc n) name = err (negative_offset name)

-- `_offset`
unfoldable pub offset : Json → String → Checked ℕ
unfolding natural
offset (int n) name = natural n name
offset (str s) name = do n ← or_raise (int_base0 s) (not_an_offset name); natural n name
offset _ name = err (not_an_offset name)

non_empty_bytes : List ℕ → String → Checked (List ℕ)
non_empty_bytes [] name = err (empty_bytes name)
non_empty_bytes (b ∷ bs) name = ok (b ∷ bs)

-- `_hex_bytes`
unfoldable pub hex_field : Json → String → Checked (List ℕ)
unfolding non_empty_bytes
hex_field (str s) name = do
  refuse (is_empty s) (not_hex name)
  bs ← or_raise (hex_bytes s) (not_hex name)
  non_empty_bytes bs name
hex_field _ name = err (not_hex name)

-- A list of non-empty texts.
strings : Items → Option (List String)
strings nil = some []
strings (cons (str s) vs) = if is_empty s then none else Option.map (λ ss. s ∷ ss) (strings vs)
strings (cons _ vs) = none

-- `len(value) != len(set(value))`
unfoldable pub has_duplicates : List String → Bool
has_duplicates [] = false
has_duplicates (s ∷ ss) = let rest = has_duplicates ss in if member s ss then true else rest

-- `raw.get(field, [])`
or_empty : Option Json → Json
or_empty none = arr nil
or_empty (some v) = v

list_of : Json → Option (List String)
list_of (arr vs) = strings vs
list_of _ = none

-- `_string_list`
unfoldable pub string_list : Fields → String → Checked (List String)
unfolding or_empty list_of strings
string_list fields name = do
  ss ← or_raise (list_of (or_empty (find_field name fields))) (not_string_list name)
  refuse (has_duplicates ss) (duplicate_strings name)
  ok ss
