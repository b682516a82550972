-- ===== src/Promotion/Login/Unseen.antt =====
-- What `directory_state` does not see.
use uu_remote_ubuntu_bridge.Prelude.{
  ℕ, ◌+◌, ◌≡◌, refl, String, some, List, [], ◌∷◌, ◌++◌, length, Option-cases, sym, ◌∙◌, inl, inr,
  if◌then◌else◌, arith,
}
use uu_remote_ubuntu_bridge.Promotion.Login.{Entry, counts, record_of, walk, directory_state}

-- The entries that count.
unfoldable pub kept : List String → List Entry → List Entry
kept ignored [] = []
kept ignored (e ∷ es) = let rest = kept ignored es in if counts ignored e then e ∷ rest else rest

module _ (sha256 : List ℕ → String) (ignored : List String) where
  walk-kept :
      (es : List Entry) (fed : List ℕ) (files size : ℕ)
      → walk sha256 ignored (kept ignored es) fed files size ≡ walk sha256 ignored es fed files size
  unfolding walk kept
  walk-kept [] fed files size = refl
  walk-kept (e ∷ es) fed files size = elim (Option-cases e.content) [
    | inl n ↦ ground (arith, walk-kept es fed files size)
    | inr (c, q) ↦ ground (
      arith,
      walk-kept es fed files size,
      walk-kept es (fed ++ record_of e.relative c) (files + 1) (size + length c),
    )
  ]

  -- Two directories whose entries agree, but for links, directories and the files that are ignored,
  -- have the same state.
  pub directory_state-kept :
      (es fs : List Entry)
      → kept ignored es ≡ kept ignored fs
      → directory_state sha256 ignored (some es) ≡ directory_state sha256 ignored (some fs)
  unfolding directory_state
  directory_state-kept es fs h = sym (walk-kept es [] 0 0) ∙ rw h (walk-kept fs [] 0 0)
