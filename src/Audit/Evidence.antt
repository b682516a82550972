-- ===== src/Audit/Evidence.antt =====
-- scripts/audit-gameviewer.py: `all_occurrences` and `proposed_replacement`.
pub mod Proposal
use uu_remote_ubuntu_bridge.Prelude.{
  ℕ, ◌+◌, ◌≤◌, ◌≡◌, ◌↔◌, true, List, [], ◌∷◌, length, listed, arith,
}
use uu_remote_ubuntu_bridge.Python.Bytes.{slice, splice, OccursAt}
use uu_remote_ubuntu_bridge.Python.Bytes.Occurrences.{
  occurrences_from, occurrences_from_sound, occurrences_from_complete,
}
use uu_remote_ubuntu_bridge.Patchlib.Manifest.{Patch}
use uu_remote_ubuntu_bridge.Patchlib.Locate.{changed_byte_ranges}

-- `all_occurrences`
unfoldable pub all_occurrences : List ℕ → List ℕ → List ℕ
all_occurrences xs needle = occurrences_from (length xs + 2) xs needle 0

-- The loop over the changed ranges.
unfoldable pub write_ranges : List ℕ → List (ℕ × ℕ) → List ℕ → List ℕ
write_ranges replacement [] result = result
write_ranges replacement ((start, stop) ∷ ranges) result =
    write_ranges replacement ranges (splice result start stop (slice replacement start stop))

-- `proposed_replacement`
unfoldable pub proposed_replacement : List ℕ → ℕ → Patch → List ℕ
proposed_replacement xs position baseline =
    write_ranges baseline.replacement (changed_byte_ranges baseline)
      (slice xs position (position + length baseline.original))

-- The loop of `all_occurrences` ends with every place at which the needle stands, also those that
-- overlap, and with no other.
pub all_occurrences_iff :
    (xs needle : List ℕ) (at : ℕ)
    → (listed at (all_occurrences xs needle) ≡ true) ↔ OccursAt needle xs at
unfolding all_occurrences
all_occurrences_iff xs needle at = (
  λ h. (occurrences_from_sound xs needle (length xs + 2) 0 at h).1,
  λ o. occurrences_from_complete xs needle (length xs + 2) 0 at (omega arith) (omega arith) o,
)
