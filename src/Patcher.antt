-- ===== src/Patcher.antt =====
-- scripts/patch-gameviewer.py: `patch_file`, `restore_file`, `verify_file`, `status_file` and the end of
-- `main`. A directory is a function from paths to files; a file is its bytes and its mode. What the
-- commands print is left out. A command that raises returns the files as it leaves them.
pub mod Safety
pub mod Restore
use uu_remote_ubuntu_bridge.Prelude.{
  ℕ, String, Bool, true, false, ◌&&◌, ◌||◌, not, Option, none, some, List, [], ◌∷◌, Result, ok, err,
  str_eq, if◌then◌else◌,
}
use uu_remote_ubuntu_bridge.Patchlib.Manifest.{ReleaseManifest, ManifestError}
use uu_remote_ubuntu_bridge.Patchlib.Apply.{
  Class, original, patched, unknown, classify, verify_signatures, make_patched,
}

pub record File : Type 0 where
  pub content : List ℕ
  pub mode : ℕ

abbrev pub Files : Type 0
Files = String → Option File

-- `atomic_write` and `shutil.copy2`: the file at one path changes, as a whole.
abbrev pub write : String → File → Files → Files
write path file files other = if str_eq other path then some file else files other

-- `PatchError`, one constructor for each message, `ManifestError` and `OSError`.
pub data Failure : Type 0 where
  unsupported backup_mismatch backup_missing backup_not_original target_mismatch wrong_state :
      Failure
  os_error : Failure
  manifest_error : ManifestError → Failure

-- The files afterwards, and what was raised.
abbrev pub Run : Type 0
Run = Result Failure (Unit {0}) × Files

-- `backup_manifest != manifest`. Two manifests of one run are the same if their digests are, since
-- no two that are loaded together share one.
abbrev pub same_manifest : ReleaseManifest → ReleaseManifest → Bool
same_manifest m n = str_eq m.original_sha256 n.original_sha256

-- `state == "original" and manifest == m`
abbrev pub is_original_of : ReleaseManifest → Class → Bool
is_original_of m (original n) = same_manifest n m
is_original_of m _ = false

abbrev pub belongs_to : ReleaseManifest → Class → Bool
belongs_to m (original n) = same_manifest n m
belongs_to m (patched n) = same_manifest n m
belongs_to m unknown = false

-- The rest of a command behind a check that may raise `ManifestError`.
abbrev pub checked {ℓ} : {A : Type ℓ} → Result ManifestError A → Files → (A → Run) → Run
checked (ok a) files go = go a
checked (err e) files go = (err (manifest_error e), files)

abbrev pub guarded : Bool → Failure → Files → Run → Run
guarded true e files go = go
guarded false e files go = (err e, files)

-- `expected == "either" or state == expected`
abbrev accepts : Option Bool → Bool → Bool
accepts none is_patched = true
accepts (some true) is_patched = is_patched
accepts (some false) is_patched = not is_patched

module _ (sha256 : List ℕ → String) (manifests : List ReleaseManifest) where
  abbrev class : List ℕ → Class
  class xs = classify sha256 xs manifests

  -- `classify_or_error` of a backup, and the tests on what it says. An unknown file is refused too.
  abbrev backup_failure : Class → Failure
  backup_failure unknown = unsupported
  backup_failure _ = backup_mismatch

  -- The end of `patch_file`, once the backup is there.
  write_patched : String → File → ReleaseManifest → Files → Run
  write_patched target file m files =
      checked (make_patched sha256 file.content m) files
        λ result. (ok tt, write target (record { content = result; mode = file.mode }) files)

  -- The backup of `patch_file`: an old one must be the matching original; a new one is copied and
  -- read again.
  with_backup : String → String → File → ReleaseManifest → Option File → Files → Run
  unfolding write_patched
  with_backup target backup file m (some old) files =
      guarded (is_original_of m (class old.content)) (backup_failure (class old.content)) files (
        checked (verify_signatures old.content m false) files
          λ _. write_patched target file m files)
  with_backup target backup file m none files =
      let files' = write backup file files in
      guarded (is_original_of m (class file.content)) (backup_failure (class file.content)) files'
        (write_patched target file m files')

  patch_class : String → String → File → Class → Files → Run
  unfolding with_backup
  patch_class target backup file unknown files = (err unsupported, files)
  patch_class target backup file (patched m) files =
      checked (verify_signatures file.content m true) files λ _. (ok tt, files)
  patch_class target backup file (original m) files =
      checked (verify_signatures file.content m false) files
        λ _. with_backup target backup file m (files backup) files

  patch_read : String → String → Option File → Files → Run
  unfolding patch_class
  patch_read target backup none files = (err os_error, files)
  patch_read target backup (some file) files =
      patch_class target backup file (class file.content) files

  -- `patch_file`
  unfoldable pub patch_file : String → String → Files → Run
  unfolding patch_read
  patch_file target backup files = patch_read target backup (files target) files

  abbrev target_failure : Class → Failure
  target_failure unknown = unsupported
  target_failure _ = target_mismatch

  -- The target of `restore_file`, if there is one, must be the same release; the mode is the target's
  -- or else the backup's.
  restore_over : String → File → ReleaseManifest → Option File → Files → Run
  restore_over target saved m none files = (ok tt, write target saved files)
  restore_over target saved m (some file) files =
      guarded (belongs_to m (class file.content)) (target_failure (class file.content)) files
        (ok tt, write target (record { content = saved.content; mode = file.mode }) files)

  restore_class : String → File → Class → Files → Run
  unfolding restore_over
  restore_class target saved unknown files = (err unsupported, files)
  restore_class target saved (patched m) files = (err backup_not_original, files)
  restore_class target saved (original m) files =
      checked (verify_signatures saved.content m false) files
        λ _. restore_over target saved m (files target) files

  restore_read : String → Option File → Files → Run
  unfolding restore_class
  restore_read target none files = (err backup_missing, files)
  restore_read target (some saved) files = restore_class target saved (class saved.content) files

  -- `restore_file`
  unfoldable pub restore_file : String → String → Files → Run
  unfolding restore_read
  restore_file target backup files = restore_read target (files backup) files

  -- `verify_file`; the state that `--expect` names, `none` for "either".
  verify_class : Option Bool → List ℕ → Class → Files → Run
  verify_class expect xs unknown files = (err unsupported, files)
  verify_class expect xs (original m) files =
      guarded (accepts expect false) wrong_state files
        (checked (verify_signatures xs m false) files λ _. (ok tt, files))
  verify_class expect xs (patched m) files =
      guarded (accepts expect true) wrong_state files
        (checked (verify_signatures xs m true) files λ _. (ok tt, files))

  verify_read : Option Bool → Option File → Files → Run
  unfolding verify_class
  verify_read expect none files = (err os_error, files)
  verify_read expect (some file) files = verify_class expect file.content (class file.content) files

  unfoldable pub verify_file : Option Bool → String → Files → Run
  unfolding verify_read
  verify_file expect target files = verify_read expect (files target) files

-- The status that `main` returns for what a command raised.
unfoldable pub exit_status : Run → ℕ
exit_status (ok u, files) = 0
exit_status (err e, files) = 1
