-- ===== src/Python/Path.antt =====
-- `pathlib.PurePosixPath`, as far as the scripts look into a path that they were given as a text.
use uu_remote_ubuntu_bridge.Prelude.{
  ℕ, String, Bool, true, false, ◌&&◌, ◌||◌, List, [], ◌∷◌, ◌==◌, if◌then◌else◌,
}
use uu_remote_ubuntu_bridge.Python.Text.{codes}

onto_first : ℕ → List (List ℕ) → List (List ℕ)
onto_first c [] = (c ∷ []) ∷ []
onto_first c (piece ∷ pieces) = (c ∷ piece) ∷ pieces

-- The pieces between slashes.
pieces : List ℕ → List (List ℕ)
pieces [] = [] ∷ []
pieces (c ∷ cs) = let rest = pieces cs in if c == b'/' then [] ∷ rest else onto_first c rest

-- Empty pieces and "." are no parts.
real_parts : List (List ℕ) → List (List ℕ)
real_parts [] = []
real_parts ([] ∷ ps) = real_parts ps
real_parts ((c ∷ []) ∷ ps) = let rest = real_parts ps in if c == b'.' then rest else (c ∷ []) ∷ rest
real_parts ((c ∷ (d ∷ cs)) ∷ ps) = (c ∷ (d ∷ cs)) ∷ real_parts ps

-- `Path(s).parts`, without the root of an absolute path.
unfoldable pub path_parts : String → List (List ℕ)
unfolding pieces real_parts onto_first
path_parts s = real_parts (pieces (codes s))

begins_at_root : List ℕ → Bool
begins_at_root [] = false
begins_at_root (c ∷ cs) = c == b'/'

-- `Path(s).is_absolute()`
unfoldable pub is_absolute : String → Bool
unfolding begins_at_root
is_absolute s = begins_at_root (codes s)

is_parent : List ℕ → Bool
is_parent (c ∷ (d ∷ [])) = c == b'.' && d == b'.'
is_parent _ = false

any_parent : List (List ℕ) → Bool
any_parent [] = false
any_parent (p ∷ ps) = is_parent p || any_parent ps

-- `".." in Path(s).parts`
unfoldable pub has_parent_part : String → Bool
unfolding any_parent is_parent path_parts
has_parent_part s = any_parent (path_parts s)

none_of : List (List ℕ) → Bool
none_of [] = true
none_of (p ∷ ps) = false

-- `not Path(s).parts`, which is so of "" and of "." alone.
unfoldable pub no_parts : String → Bool
unfolding none_of path_parts
no_parts s = none_of (path_parts s)
