-- ===== src/Python/Integer.antt =====
-- `int(text, 0)`: a number as Python's source writes it. Texts of ASCII characters; a digit of another
-- script, which `int` accepts too, is read as no digit here.
use Prim.Native.Char.{code}
use Prim.Native.String.{[], ◌∷◌}
use mathlib.Core.Option
use uu_remote_ubuntu_bridge.Prelude.{
  ℕ, ◌+◌, ◌-◌, ◌*◌, String, Bool, true, false, ◌&&◌, ◌||◌, Option, none, some, ltb, ◌==◌,
  if◌then◌else◌,
}
use uu_remote_ubuntu_bridge.Prelude.Int.{ℤ, pos, neg}
use uu_remote_ubuntu_bridge.Python.Text.{is_space, is_digit, is_lower, is_upper, has_text}

-- The value of a digit or a letter.
digit_value : ℕ → Option ℕ
digit_value c =
    if is_digit c
    then some (c - b'0')
    else if is_lower c
    then some (c - b'a' + 10)
    else if is_upper c
    then some (c - b'A' + 10)
    else none

-- Digits with single underscores between them and white space behind. `seen` says that the
-- character before was a digit.
read_digits : ℕ → String → Bool → ℕ → Option ℕ
read_digits base [] seen acc = if seen then some acc else none
read_digits base (c ∷ s) seen acc = elim (code c == b'_') [
  | true ↦ elim seen [ true ↦ read_digits base s false acc | false ↦ none ]
  | false ↦ elim (digit_value (code c)) [
    | none ↦ if seen && is_space (code c) && not_text s then some acc else none
    | some d ↦ elim (ltb d base) [ true ↦ read_digits base s true (acc * base + d) | false ↦ none ]
  ]
]
  where
    not_text : String → Bool
    not_text t = if has_text t then false else true

-- Behind `0x`, `0o` or `0b` one underscore may stand.
after_prefix : ℕ → String → Option ℕ
after_prefix base [] = none
after_prefix base (c ∷ s) =
    if code c == b'_' then read_digits base s false 0 else read_digits base (c ∷ s) false 0

-- A decimal number that begins with 0 is 0.
only_zero : Option ℕ → Option ℕ
only_zero none = none
only_zero (some n) = if n == 0 then some 0 else none

read_unsigned : String → Option ℕ
read_unsigned [] = none
read_unsigned (c ∷ []) = read_digits 10 (c ∷ []) false 0
read_unsigned (c ∷ (d ∷ s)) =
    if code c == b'0'
    then (if code d == b'x' || code d == b'X'
        then after_prefix 16 s
        else if code d == b'o' || code d == b'O'
        then after_prefix 8 s
        else if code d == b'b' || code d == b'B'
        then after_prefix 2 s
        else only_zero (read_digits 10 (c ∷ (d ∷ s)) false 0))
    else read_digits 10 (c ∷ (d ∷ s)) false 0

read_signed : String → Option ℤ
read_signed [] = none
read_signed (c ∷ s) =
    if code c == b'-'
    then Option.map neg (read_unsigned s)
    else if code c == b'+'
    then Option.map pos (read_unsigned s)
    else Option.map pos (read_unsigned (c ∷ s))

skip_space : String → String
skip_space [] = []
skip_space (c ∷ s) = let rest = skip_space s in if is_space (code c) then rest else c ∷ s

-- `int(s, 0)`: `none` stands for `ValueError`.
unfoldable pub int_base0 : String → Option ℤ
unfolding skip_space read_signed read_unsigned only_zero after_prefix read_digits digit_value
    is_space has_text
int_base0 s = read_signed (skip_space s)
