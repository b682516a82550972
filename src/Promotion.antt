-- ===== src/Promotion.antt =====
-- The promotion of an accepted release: the acceptance record that both programs read
-- (scripts/uu_update_manager.py and scripts/promote-approved-release.py), the login state, and the
-- transaction over the Wine prefix.
pub mod Acceptance
pub mod Login
pub mod Transaction
pub mod Preflight
