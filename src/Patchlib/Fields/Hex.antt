-- ===== src/Patchlib/Fields/Hex.antt =====
-- `str.lower` and `bytes.fromhex`, as the readers of digests and of patch bytes call them, and
-- `bytes.hex`, by which scripts/audit-gameviewer.py writes patch bytes into a draft manifest.
-- `lower` changes A to Z alone: a letter outside ASCII stays what no digest holds.
use Prim.Native.Char.{Char, code}
use Prim.Native.String.{char_at}
use uu_remote_ubuntu_bridge.Prelude.{
  ℕ, ◌+◌, ◌-◌, ◌*◌, ◌/◌, ◌%◌, ◌<◌, ◌≡◌, refl, String, Bool, true, false, ◌&&◌, ◌||◌, Option, none,
  some, leb, ltb, ◌==◌, if◌then◌else◌, List, [], ◌∷◌, ap, ◌∙◌, arith,
}
use uu_remote_ubuntu_bridge.Python.Text.{codes, is_digit, is_upper}

lower_char : Char → Char
lower_char c = if is_upper (code c) then char_at "abcdefghijklmnopqrstuvwxyz" (code c - b'A') else c

-- `s.lower()`
unfoldable pub lower : String → String
unfolding lower_char
lower String.[] = String.[]
lower (String.◌∷◌ c s) = String.◌∷◌ (lower_char c) (lower s)

-- The value of a hexadecimal digit of either case.
nibble : ℕ → Option ℕ
nibble c =
    if is_digit c
    then some (c - b'0')
    else if leb b'a' c && leb c b'f'
    then some (c - b'a' + 10)
    else if leb b'A' c && leb c b'F'
    then some (c - b'A' + 10)
    else none

-- The white space that `bytes.fromhex` skips between bytes.
ascii_space : ℕ → Bool
ascii_space c = (leb 9 c && leb c 13) || c == 32

joined : Option ℕ → Option ℕ → Option (List ℕ) → Option (List ℕ)
joined (some hi) (some lo) (some bs) = some ((hi * 16 + lo) ∷ bs)
joined _ _ _ = none

unfoldable pub hex_codes : List ℕ → Option (List ℕ)
unfolding nibble ascii_space joined
hex_codes [] = some []
hex_codes (c ∷ []) = if ascii_space c then some [] else none
hex_codes (c ∷ (d ∷ cs)) = elim (ascii_space c) [
  | true ↦ hex_codes (d ∷ cs)
  | false ↦ joined (nibble c) (nibble d) (hex_codes cs)
]

-- `bytes.fromhex(s)`: `none` stands for `ValueError`.
unfoldable pub hex_bytes : String → Option (List ℕ)
unfolding hex_codes
hex_bytes s = hex_codes (codes s)

hex_digit : ℕ → ℕ
hex_digit n = if ltb n 10 then n + b'0' else n - 10 + b'a'

-- `bs.hex()`
unfoldable pub to_hex : List ℕ → List ℕ
unfolding hex_digit
to_hex [] = []
to_hex (b ∷ bs) = hex_digit (b / 16) ∷ (hex_digit (b % 16) ∷ to_hex bs)

-- Every member is a byte.
abbrev pub AreBytes : List ℕ → Type 0
AreBytes [] = Unit
AreBytes (b ∷ bs) = (b < 256) × AreBytes bs

digit_value : (n : ℕ) → n < 16 → nibble (hex_digit n) ≡ some n
unfolding nibble hex_digit
digit_value n h = ground arith

digit-not_space : (n : ℕ) → n < 16 → ascii_space (hex_digit n) ≡ false
unfolding ascii_space hex_digit
digit-not_space n h = ground arith

hex_step :
    (c d hi lo : ℕ) (cs bs : List ℕ)
    → ascii_space c ≡ false
    → nibble c ≡ some hi
    → nibble d ≡ some lo
    → hex_codes cs ≡ some bs
    → hex_codes (c ∷ (d ∷ cs)) ≡ some ((hi * 16 + lo) ∷ bs)
unfolding hex_codes joined
hex_step c d hi lo cs bs e h l r = ground (arith, e, h, l, r)

-- Reading what `hex` wrote gives the bytes back.
pub hex_codes-to_hex : (bs : List ℕ) → AreBytes bs → hex_codes (to_hex bs) ≡ some bs
unfolding to_hex
hex_codes-to_hex [] h = unfold hex_codes in refl
hex_codes-to_hex (b ∷ bs) (small, rest) =
    let e : b / 16 * 16 + b % 16 ≡ b = omega arith in
    hex_step _ _ (b / 16) (b % 16) (to_hex bs) bs (digit-not_space (b / 16) (omega arith))
      (digit_value (b / 16) (omega arith)) (digit_value (b % 16) (omega arith))
      (hex_codes-to_hex bs rest)
    ∙ ap (λ (n : ℕ). some (n ∷ bs)) e
