-- ===== src/Promotion/Login/Preserved.antt =====
-- What `login_state_is_preserved` accepts.
use uu_remote_ubuntu_bridge.Prelude.{◌≡◌, true, eq_iff, eq_refl, arith}
use uu_remote_ubuntu_bridge.Promotion.Login.{
  DirectoryState, LoginState, login_state_is_usable, login_state_is_preserved, unchanged,
}

-- A preserved state is usable before and after, with the same registry digest; a directory that was
-- there has the same files, bytes and digest.
pub preserved-parts :
    (before after : LoginState)
    → login_state_is_preserved before after ≡ true
    → (login_state_is_usable before ≡ true)
      × (login_state_is_usable after ≡ true)
      × (before.registry_login_digest ≡ after.registry_login_digest)
      × (before.user_cache.present ≡ true → before.user_cache ≡ after.user_cache)
      × (before.shared_state.present ≡ true → before.shared_state ≡ after.shared_state)
unfolding login_state_is_preserved
preserved-parts b a h = (
  ground arith,
  ground arith,
  ground (arith, eq_iff b.registry_login_digest a.registry_login_digest),
  λ p. same b.user_cache a.user_cache (ground arith) p,
  λ p. same b.shared_state a.shared_state (ground arith) p,
)
  where
    same : (x y : DirectoryState) → unchanged x y ≡ true → x.present ≡ true → x ≡ y
    same x y u p = ground (arith, eq_iff x.digest y.digest)

-- A usable state is preserved by a transaction that does not touch it.
pub preserved_refl :
    (s : LoginState) → login_state_is_usable s ≡ true → login_state_is_preserved s s ≡ true
unfolding login_state_is_preserved
preserved_refl s u = ground (
  arith,
  eq_refl s.registry_login_digest,
  eq_refl s.user_cache.digest,
  eq_refl s.shared_state.digest,
)
