-- ===== src/Updater/Download/Cached.antt =====
-- A release that has been fetched is not downloaded again.
use uu_remote_ubuntu_bridge.Prelude.{
  ℕ, ◌*◌, ◌≡◌, refl, String, Bool, true, false, ◌&&◌, Option, none, some, List, Result, ok, err,
  ◌==◌, str_eq, eq_refl, eq_iff, ap, sym, subst, ◌∙◌, arith, Bool-cases, inl, inr,
}
use uu_remote_ubuntu_bridge.Python.Text.{is_sha256}
use uu_remote_ubuntu_bridge.Python.Json.{Json, Fields, get, find_field, json_eq}
use uu_remote_ubuntu_bridge.Updater.Download
use uu_remote_ubuntu_bridge.Updater.Download.{
  Response, Downloads, DownloadError, Metadata, download_release, record_download, metadata_matches,
  size_matches, intact, cached_of, cached_download, fetch_from, recorded, receive, hash_matches,
  fetch,
}
use uu_remote_ubuntu_bridge.Updater.Download.Whole.{settle-ok}

-- The installer of the state has the size that the metadata name, if they name one.
abbrev pub sized : Metadata → Option (List ℕ) → Bool
sized m none = false
sized m (some bytes) = size_matches m bytes

module _ (sha256 : List ℕ → String) (other_text : Json → String) where
  cached_download-record :
      (m : Metadata) (name now : String) (bytes : List ℕ) (d : Downloads)
      → d.installer ≡ some bytes
      → size_matches m bytes ≡ true
      → is_sha256 (sha256 bytes) ≡ true
      → cached_download sha256 other_text m (record_download m name now (sha256 bytes) d)
        ≡ ok (some (sha256 bytes))
  unfolding record_download metadata_matches intact find_field get json_eq
  cached_download-record m name now bytes d e f g =
      let same : (m.content_length * 1 == m.content_length * 1) ≡ true = ground arith in
      rw
        (
          e,
          eq_refl m.version,
          eq_refl m.etag,
          eq_refl m.last_modified,
          same,
          f,
          g,
          eq_refl (sha256 bytes),
        )
        refl

  intact-hash :
      (m : Metadata) (cached : Fields) (bytes : List ℕ) (hash : String)
      → intact sha256 other_text m cached bytes ≡ some hash
      → sha256 bytes ≡ hash
  unfolding intact
  intact-hash m cached bytes hash e =
      let found = Download.text_of other_text (find_field "installer_sha256" cached) in
      let test = metadata_matches m cached && size_matches m bytes in
      elim (Bool-cases (test && hash_matches sha256 other_text found bytes)) [
        | inl passed ↦
            let same : found ≡ hash = ground (arith, passed) in
            let equal : str_eq (sha256 bytes) found ≡ true = ground (arith, passed) in
            (eq_iff (sha256 bytes) found).0 equal ∙ same
        | inr failed ↦ ground (arith, failed)
      ]

  -- The installer is there, and has the hash.
  cached_of-hash :
      (m : Metadata) (installer : Option (List ℕ)) (sidecar : Option (Option Fields))
      (hash : String)
      → cached_of sha256 other_text m installer sidecar ≡ ok (some hash)
      → (bytes : List ℕ) × (installer ≡ some bytes) × (sha256 bytes ≡ hash)
  cached_of-hash m (some bytes) (some (some cached)) hash e =
      (bytes, refl, intact-hash m cached bytes hash cc)
  cached_of-hash m (some bytes) (some none) hash e = cc
  cached_of-hash m (some bytes) none hash e = cc
  cached_of-hash m none sidecar hash e = cc

  download-installer :
      (limit : ℕ) (response : Option Response) (d after : Downloads) (bytes : List ℕ)
      → download_release limit response d ≡ (ok bytes, after)
      → after.installer ≡ some bytes
  unfolding download_release
  download-installer limit response d after bytes e =
      let kept = settle-ok (receive limit response) d bytes (ap (λ (r : _). r.0) e) in
      ap (λ (x : Downloads). x.installer) (sym (ap (λ (r : _). r.1) e) ∙ kept)

  module _ (limit : ℕ) (m : Metadata) (name now : String) (response : Option Response)
      (after : Downloads) (hash : String)
      (hashes : (bytes : List ℕ) → is_sha256 (sha256 bytes) ≡ true) where
    recorded-cached :
        (r : Result DownloadError (List ℕ) × Downloads)
        → ((bytes : List ℕ) (x : Downloads) → r ≡ (ok bytes, x) → x.installer ≡ some bytes)
        → recorded sha256 other_text m name now r ≡ (ok hash, after)
        → sized m after.installer ≡ true
        → cached_download sha256 other_text m after ≡ ok (some hash)
    unfolding record_download
    recorded-cached (err e, x) kept h s = cc
    recorded-cached (ok bytes, x) kept h s =
        let there : x.installer ≡ some bytes = kept bytes x refl in
        let same : sha256 bytes ≡ hash = cc in
        let now_there : record_download m name now (sha256 bytes) x ≡ after =
          ap (λ (r : _). r.1) h in
        let size : sized m x.installer ≡ true =
          subst (λ (d : Downloads). sized m d.installer ≡ true) (sym now_there) s in
        let fits : size_matches m bytes ≡ true = subst (λ (i : _). sized m i ≡ true) there size in
        subst (λ (d : Downloads). cached_download sha256 other_text m d ≡ ok (some hash)) now_there
          (cached_download-record m name now bytes x there fits (hashes bytes)
            ∙ ap (λ (x : String). ok (some x)) same)

    fetch_from-cached :
        (c : Result DownloadError (Option String)) (d : Downloads)
        → cached_download sha256 other_text m d ≡ c
        → fetch_from sha256 other_text limit m name now response c d ≡ (ok hash, after)
        → sized m after.installer ≡ true
        → cached_download sha256 other_text m after ≡ ok (some hash)
    fetch_from-cached (err e) d f h s = cc
    fetch_from-cached (ok (some k)) d f h s =
        let same : d ≡ after = ap (λ (r : _). r.1) h in
        let equal : k ≡ hash = cc in
        subst (λ (x : Downloads). cached_download sha256 other_text m x ≡ ok (some hash)) same
          (f ∙ ap (λ (x : String). ok (some x)) equal)
    fetch_from-cached (ok none) d f h s =
        recorded-cached (download_release limit response d)
          (λ bytes x. download-installer limit response d x bytes) h s

    -- After a release has been fetched, its hash is that of the installer, and fetching it again returns
    -- the hash and changes no file, whatever the endpoint then says. The digests of the hash function
    -- are taken to be such, and the metadata to name no other size than the installer has.
    pub fetch-fetch :
        (d : Downloads)
        → fetch sha256 other_text limit m name now response d ≡ (ok hash, after)
        → sized m after.installer ≡ true
        → ((bytes : List ℕ) × (after.installer ≡ some bytes) × (sha256 bytes ≡ hash))
          × ((limit' : ℕ) (name' now' : String) (response' : Option Response)
              → fetch sha256 other_text limit' m name' now' response' after ≡ (ok hash, after))
    unfolding fetch
    fetch-fetch d h s =
        let there = fetch_from-cached (cached_download sha256 other_text m d) d refl h s in
        (
          cached_of-hash m after.installer after.sidecar hash there,
          λ limit' name' now' response'. rw there refl,
        )
