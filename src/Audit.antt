-- ===== src/Audit.antt =====
-- scripts/audit-gameviewer.py and scripts/compare-pe-normalized.py: the reading of a PE file, the draft
-- of a manifest for a new release, and its approval.
pub mod Pe
pub mod Normalized
pub mod Evidence
pub mod Finalize
pub mod Draft
