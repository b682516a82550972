-- ===== src/Python/Bytes.antt =====
-- `bytes`: a list of numbers below 256. `bytes.find` and the assignment to a slice of a `bytearray`.
pub mod Search
pub mod Splice
pub mod Occurrences
use uu_remote_ubuntu_bridge.Prelude.{
  ℕ, zero, suc, ◌+◌, ◌-◌, ◌≤◌, ◌<◌, ◌≡◌, Bool, true, false, ◌&&◌, Option, none, some, List, [], ◌∷◌,
  ◌++◌, length, take, drop, leb, ◌==◌, if◌then◌else◌,
}

-- `xs` begins with `needle`.
unfoldable pub begins_with : List ℕ → List ℕ → Bool
begins_with [] xs = true
begins_with (n ∷ needle) [] = false
begins_with (n ∷ needle) (x ∷ xs) = n == x && begins_with needle xs

-- The search from the head of a rest of the bytes that stands at offset `at`.
unfoldable pub find_from : List ℕ → List ℕ → ℕ → Option ℕ
find_from needle [] at = if begins_with needle [] then some at else none
find_from needle (x ∷ xs) at =
    let later = find_from needle xs (suc at) in
    if begins_with needle (x ∷ xs) then some at else later

-- `haystack.find(needle, start)`: `none` stands for -1.
unfoldable pub find : List ℕ → List ℕ → ℕ → Option ℕ
unfolding find_from
find haystack needle start =
    if leb start (length haystack) then find_from needle (drop start haystack) start else none

-- `haystack[start:stop]`
abbrev pub slice : List ℕ → ℕ → ℕ → List ℕ
slice xs start stop = take (stop - start) (drop start xs)

-- `target[start:stop] = new` of a `bytearray`, for `start <= stop`.
unfoldable pub splice : List ℕ → ℕ → ℕ → List ℕ → List ℕ
splice target start stop new = take start target ++ (new ++ drop stop target)

-- `needle` stands at offset `at` of the bytes.
abbrev pub OccursAt : List ℕ → List ℕ → ℕ → Type 0
OccursAt needle xs at = (at ≤ length xs) × (begins_with needle (drop at xs) ≡ true)
