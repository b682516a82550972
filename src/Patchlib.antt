-- ===== src/Patchlib.antt =====
-- scripts/gameviewer_patchlib.py: release manifests and the patches of the executable.
pub mod Manifest
pub mod Fields
pub mod Read
pub mod Apply
pub mod Locate
