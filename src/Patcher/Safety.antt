-- ===== src/Patcher/Safety.antt =====
-- What a run of the patcher can change: the executable only on success, and no third file ever.
use uu_remote_ubuntu_bridge.Prelude.{
  ℕ, ◌≡◌, String, false, Option, none, some, List, ok, err, arith, str_eq,
}
use uu_remote_ubuntu_bridge.Patchlib.Manifest.{ReleaseManifest}
use uu_remote_ubuntu_bridge.Patcher.{File, Files, Failure, write, patch_file, restore_file}

-- The mode of a restored file: the executable's, or the backup's if there is none.
abbrev pub restored_mode : Option File → File → ℕ
restored_mode none saved = saved.mode
restored_mode (some file) saved = file.mode

module _ (sha256 : List ℕ → String) (ms : List ReleaseManifest) (target backup : String)
    (files : Files) where
  -- A run of `patch` that fails leaves the executable as it was.
  pub patch_file-failed :
      str_eq target backup ≡ false
      → (e : Failure) → (patch_file sha256 ms target backup files).0 ≡ err e
      → (patch_file sha256 ms target backup files).1 target ≡ files target
  unfolding patch_file
  patch_file-failed apart e h = ground arith

  -- A run of `patch` changes no file but the executable and the backup.
  pub patch_file-others :
      (other : String)
      → str_eq other target ≡ false
      → str_eq other backup ≡ false
      → (patch_file sha256 ms target backup files).1 other ≡ files other
  unfolding patch_file
  patch_file-others other t b = ground arith

  -- A backup that is there is never written over.
  pub patch_file-keeps_backup :
      str_eq backup target ≡ false
      → (old : File) → files backup ≡ some old
      → (patch_file sha256 ms target backup files).1 backup ≡ some old
  unfolding patch_file
  patch_file-keeps_backup apart old h = ground arith

  -- A run of `restore` that fails changes nothing; one that succeeds changes the executable alone,
  -- which then holds the bytes of the backup.
  pub restore_file-effect :
      (saved : File)
      → files backup ≡ some saved
      → ((e : Failure)
          → (restore_file sha256 ms target backup files).0 ≡ err e
          → (restore_file sha256 ms target backup files).1 ≡ files)
        × ((restore_file sha256 ms target backup files).0 ≡ ok tt
            → (restore_file sha256 ms target backup files).1
              ≡ write target
                  (record { content = saved.content; mode = restored_mode (files target) saved })
                  files)
  unfolding restore_file
  restore_file-effect saved h = (λ e f. ground arith, λ s. ground arith)
