-- ===== src/Updater/Version.antt =====
-- scripts/uu_update_manager.py: `version_key`, and the order of tuples. A digit is one of 0 to 9: the
-- other digits that Python's `\d` takes are left out.
use uu_remote_ubuntu_bridge.Prelude.{
  ℕ, ◌+◌, ◌-◌, ◌*◌, String, Bool, true, false, ◌&&◌, ◌||◌, Option, none, some, List, [], ◌∷◌, ltb,
  ◌==◌, if◌then◌else◌,
}
use uu_remote_ubuntu_bridge.Python.Text.{codes, is_digit}

onto_first : ℕ → List (List ℕ) → List (List ℕ)
onto_first c [] = (c ∷ []) ∷ []
onto_first c (part ∷ parts) = (c ∷ part) ∷ parts

-- `value.split(".")`
unfoldable pub dotted : List ℕ → List (List ℕ)
unfolding onto_first
dotted [] = [] ∷ []
dotted (c ∷ cs) = let rest = dotted cs in if c == b'.' then [] ∷ rest else onto_first c rest

-- `int(part)`, of digits alone, behind those that have been read.
unfoldable pub decimal_from : ℕ → List ℕ → Option ℕ
decimal_from n [] = some n
decimal_from n (c ∷ cs) =
    let rest = decimal_from (n * 10 + (c - b'0')) cs in if is_digit c then rest else none

part_value : List ℕ → Option ℕ
unfolding decimal_from
part_value [] = none
part_value (c ∷ cs) = decimal_from 0 (c ∷ cs)

both : Option ℕ → Option (List ℕ) → Option (List ℕ)
both (some n) (some ns) = some (n ∷ ns)
both (some n) none = none
both none ns = none

part_values : List (List ℕ) → Option (List ℕ)
unfolding both part_value
part_values [] = some []
part_values (p ∷ ps) = both (part_value p) (part_values ps)

-- Three or four parts, filled up with zeros to four.
padded : List ℕ → Option (List ℕ)
padded (a ∷ b ∷ c ∷ []) = some (a ∷ b ∷ c ∷ 0 ∷ [])
padded (a ∷ b ∷ c ∷ d ∷ []) = some (a ∷ b ∷ c ∷ d ∷ [])
padded _ = none

-- `version_key`; `none` where it raises.
unfoldable pub version_key : String → Option (List ℕ)
unfolding dotted part_values padded
version_key value = elim (part_values (dotted (codes value))) [ none ↦ none | some ns ↦ padded ns ]

-- `a < b` of two tuples
unfoldable pub key_lt : List ℕ → List ℕ → Bool
key_lt [] [] = false
key_lt [] (b ∷ bs) = true
key_lt (a ∷ as_) [] = false
key_lt (a ∷ as_) (b ∷ bs) = ltb a b || (a == b && key_lt as_ bs)

-- `a == b`
unfoldable pub key_eq : List ℕ → List ℕ → Bool
key_eq [] [] = true
key_eq [] (b ∷ bs) = false
key_eq (a ∷ as_) [] = false
key_eq (a ∷ as_) (b ∷ bs) = a == b && key_eq as_ bs
