-- ===== src/Patcher/Restore.antt =====
-- `patch` and then `restore` gives the executable back.
use uu_remote_ubuntu_bridge.Prelude.{
  Result-cases, ℕ, ◌≡◌, inl, inr, String, false, none, some, List, [], ok, arith, str_eq, eq_iff,
  eq_refl,
}
use uu_remote_ubuntu_bridge.Patchlib.Manifest.{ReleaseManifest}
use uu_remote_ubuntu_bridge.Patchlib.Read.{check_unique}
use uu_remote_ubuntu_bridge.Patchlib.Apply.{original, patched, classify, make_patched}
use uu_remote_ubuntu_bridge.Patchlib.Apply.Overlay.{Made, make_patched-Made}
use uu_remote_ubuntu_bridge.Patchlib.Apply.Lookup.{classify_digest-original, classify_digest-In}
use uu_remote_ubuntu_bridge.Patcher.{File, Files, write, patch_file, restore_file}

module _ (sha256 : List ℕ → String) (ms : List ReleaseManifest)
    (loaded : check_unique [] [] ms ≡ ok tt) (target backup : String)
    (apart : str_eq target backup ≡ false) (files : Files) (file : File) (m : ReleaseManifest)
    (there : files target ≡ some file) (known : classify sha256 file.content ms ≡ original m)
    (fresh : files backup ≡ none) where
  -- A first patch that succeeds has made the patched bytes and has copied the file to the backup.
  patched_files :
      (patch_file sha256 ms target backup files).0 ≡ ok tt
      → (r : List ℕ) × (make_patched sha256 file.content m ≡ ok r)
        × ((patch_file sha256 ms target backup files).1
            ≡ write target (record { content = r; mode = file.mode }) (write backup file files))
  unfolding patch_file
  patched_files h = elim (Result-cases (make_patched sha256 file.content m)) [
    | inl (r, e) ↦ (r, e, ground arith)
    | inr (x, e) ↦ absurd (ground arith)
  ]

  patched_class :
      (r : List ℕ) → make_patched sha256 file.content m ≡ ok r → classify sha256 r ms ≡ patched m
  unfolding classify
  patched_class r e =
      let p : Made sha256 file.content m r = make_patched-Made sha256 file.content m r e in
      let (i, d) = classify_digest-original (sha256 file.content) ms m known in
      let same : sha256 r ≡ m.patched_sha256 = (eq_iff (sha256 r) m.patched_sha256).0 (p.digest) in
      rw same ((classify_digest-In [] [] ms m loaded i).1)

  restored :
      (r : List ℕ)
      → make_patched sha256 file.content m ≡ ok r
      → (after : Files) → after backup ≡ some file
      → after target ≡ some (record { content = r; mode = file.mode })
      → restore_file sha256 ms target backup after ≡ (ok tt, write target file after)
  unfolding restore_file
  restored r e after b t =
      let p : Made sha256 file.content m r = make_patched-Made sha256 file.content m r e in
      ground (arith, p.before, patched_class r e, known, eq_refl m.original_sha256)

  backup_apart : str_eq backup target ≡ false
  backup_apart = ground (arith, apart, eq_iff backup target, eq_iff target backup)

  -- With the manifests loaded together, a first `patch` that succeeds can be undone: `restore` then
  -- succeeds, and writes the executable's own bytes and mode back.
  pub restore-patch :
      (patch_file sha256 ms target backup files).0 ≡ ok tt
      → (restore_file sha256 ms target backup (patch_file sha256 ms target backup files).1)
        ≡ (ok tt, write target file (patch_file sha256 ms target backup files).1)
  restore-patch h =
      let (r, e, f) = patched_files h in
      rw f (
        restored r e _ (ground (arith, backup_apart, eq_refl backup))
          (ground (arith, eq_refl target)))

  -- And patching again what a first `patch` has patched changes nothing.
  pub patch-patch :
      (patch_file sha256 ms target backup files).0 ≡ ok tt
      → patch_file sha256 ms target backup (patch_file sha256 ms target backup files).1
        ≡ (ok tt, (patch_file sha256 ms target backup files).1)
  patch-patch h =
      let (r, e, f) = patched_files h in rw f (again r e _ (ground (arith, eq_refl target)))
    where
      again :
          (r : List ℕ)
          → make_patched sha256 file.content m ≡ ok r
          → (after : Files) → after target ≡ some (record { content = r; mode = file.mode })
          → patch_file sha256 ms target backup after ≡ (ok tt, after)
      again r e after t =
          let p : Made sha256 file.content m r = make_patched-Made sha256 file.content m r e in
          unfold patch_file in ground (arith, p.after, patched_class r e)
