-- ===== src/Python/Format.antt =====
-- Numbers and bytes as texts: `f"{n:#x}"` and `bytes.hex()`.
use uu_remote_ubuntu_bridge.Prelude.{
  ℕ, zero, suc, ◌+◌, ◌/◌, ◌%◌, String, ◌<>◌, List, [], ◌∷◌, ltb, if◌then◌else◌, get_or,
}

abbrev digits : List String
digits =
    "0" ∷ "1" ∷ "2" ∷ "3" ∷ "4" ∷ "5" ∷ "6" ∷ "7" ∷ "8" ∷ "9" ∷ "a" ∷ "b" ∷ "c" ∷ "d" ∷ "e" ∷ "f"
    ∷ []

abbrev digit : ℕ → String
digit n = get_or digits n "0"

-- Every round divides the number by 16, so the number and one more rounds are enough.
unfoldable pub hex_digits : ℕ → ℕ → String
hex_digits zero n = ""
hex_digits (suc fuel) n =
    let front = hex_digits fuel (n / 16) in if ltb n 16 then digit n else front <> digit (n % 16)

-- `f"{n:#x}"`
unfoldable pub hex_text : ℕ → String
hex_text n = "0x" <> hex_digits (n + 1) n

-- `bytes.hex()`
unfoldable pub bytes_hex : List ℕ → String
bytes_hex [] = ""
bytes_hex (b ∷ bs) = digit (b / 16) <> digit (b % 16) <> bytes_hex bs
