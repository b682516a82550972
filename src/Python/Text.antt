-- ===== src/Python/Text.antt =====
-- `str`: the tests that the scripts make on whole texts and on their characters.
use Prim.Native.Char.{code}
use Prim.Native.String.{[], ◌∷◌}
use uu_remote_ubuntu_bridge.Prelude.{
  ℕ, suc, String, Bool, true, false, ◌&&◌, ◌||◌, leb, ◌==◌, str_eq, if◌then◌else◌,
}
use mathlib.Core.List.{List}

-- The characters as numbers.
abbrev pub codes : String → List ℕ
codes [] = List.[]
codes (c ∷ s) = List.◌∷◌ (code c) (codes s)

-- A text of characters that `ok` accepts, each.
unfoldable pub all_chars : (ℕ → Bool) → String → Bool
all_chars ok [] = true
all_chars ok (c ∷ s) = ok (code c) && all_chars ok s

-- `len(s)`
unfoldable pub text_length : String → ℕ
text_length [] = 0
text_length (c ∷ s) = suc (text_length s)

-- `c.isspace()`, as `str.strip` reads it.
unfoldable pub is_space : ℕ → Bool
is_space c =
    (leb 9 c && leb c 13)
    || (leb 28 c && leb c 32)
    || c == 133
    || c == 160
    || c == 5760
    || (leb 8192 c && leb c 8202)
    || c == 8232
    || c == 8233
    || c == 8239
    || c == 8287
    || c == 12288

-- `bool(s.strip())`
unfoldable pub has_text : String → Bool
unfolding is_space
has_text [] = false
has_text (c ∷ s) = if is_space (code c) then has_text s else true

-- `[0-9]`, `[a-z]`, `[A-Z]`, `[0-9a-f]`
abbrev pub is_digit : ℕ → Bool
is_digit c = leb b'0' c && leb c b'9'

abbrev pub is_lower : ℕ → Bool
is_lower c = leb b'a' c && leb c b'z'

abbrev pub is_upper : ℕ → Bool
is_upper c = leb b'A' c && leb c b'Z'

abbrev pub is_hex_digit : ℕ → Bool
is_hex_digit c = is_digit c || (leb b'a' c && leb c b'f')

-- `re.fullmatch("[0-9a-f]{64}", s)`
unfoldable pub is_sha256 : String → Bool
unfolding all_chars text_length
is_sha256 s = text_length s == 64 && all_chars is_hex_digit s

-- `re.fullmatch("[0-9a-f]{40,64}", s)`
unfoldable pub is_commit : String → Bool
unfolding all_chars text_length
is_commit s = leb 40 (text_length s) && leb (text_length s) 64 && all_chars is_hex_digit s

-- `item in items`
unfoldable pub member : String → List String → Bool
member s List.[] = false
member s (List.◌∷◌ t ts) = str_eq s t || member s ts

unfoldable pub is_empty : String → Bool
is_empty [] = true
is_empty (c ∷ s) = false

without_space_behind : String → String
without_space_behind [] = []
without_space_behind (c ∷ s) =
    let rest = without_space_behind s in if is_space (code c) && is_empty rest then [] else c ∷ rest

-- `s.strip()`
unfoldable pub strip : String → String
unfolding without_space_behind
strip [] = []
strip (c ∷ s) =
    let rest = strip s in if is_space (code c) then rest else without_space_behind (c ∷ s)
