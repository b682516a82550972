-- ===== src/Updater/Download.antt =====
-- scripts/uu_update_manager.py: `download_release`, `record_download`, `cached_download` and the lines of
-- `check` that use them, for the release that the metadata name. `sha256` is the hash of a file, and
-- `other_text` stands for Python's `str` of a JSON value that is no text.
pub mod Whole
pub mod Cached
use uu_remote_ubuntu_bridge.Prelude.{
  ℕ, zero, suc, ◌+◌, String, Bool, true, false, ◌&&◌, ◌||◌, not, Option, none, some, List, [], ◌∷◌,
  ◌++◌, length, Result, ok, err, ltb, ◌==◌, ◌>>=◌, ◌>>◌, refuse, str_eq, if◌then◌else◌,
}
use uu_remote_ubuntu_bridge.Prelude.Int.{pos}
use uu_remote_ubuntu_bridge.Python.Text.{is_sha256}
use uu_remote_ubuntu_bridge.Python.Json.{
  text_of, Json, int, str, Fields, end, field, get, find_field, json_eq,
}

pub data DownloadError : Type 0 where
  unreachable too_large exceeded broken empty unreadable : DownloadError

-- What `probe_endpoint` returns, as far as a download depends on it.
pub record Metadata : Type 0 where
  pub version : String
  pub etag : String
  pub last_modified : String
  pub content_length : ℕ

-- What the reads of a response give: blocks that are not empty, and an end or an exception, which may
-- also be that of a write.
pub data Stream : Type 0 where
  finish fails : Stream
  block : ℕ → List ℕ → Stream → Stream

-- The Content-Length, if it is a number, and the body.
pub record Response : Type 0 where
  pub declared : Option ℕ
  pub stream : Stream

-- The installer, the file with the suffix .part, and the sidecar. A sidecar that `load_json` cannot read
-- is `some none`.
pub record Downloads : Type 0 where
  pub installer : Option (List ℕ)
  pub part : Option (List ℕ)
  pub sidecar : Option (Option Fields)

-- `self.config.max_download_bytes` bytes may be read, `total` of which were.
unfoldable pub read_blocks : ℕ → ℕ → Stream → Result DownloadError (List ℕ)
read_blocks limit total finish = ok []
read_blocks limit total fails = err broken
read_blocks limit total (block b bs stream) =
    let rest = read_blocks limit (total + length (b ∷ bs)) stream in
    refuse (ltb limit (total + length (b ∷ bs))) exceeded
    >> (rest >>= λ (bytes : List ℕ). ok ((b ∷ bs) ++ bytes))

abbrev pub over : ℕ → Option ℕ → Bool
over limit none = false
over limit (some n) = ltb limit n

abbrev pub receive : ℕ → Option Response → Result DownloadError (List ℕ)
receive limit none = err unreachable
receive limit (some response) =
    if over limit response.declared then err too_large else read_blocks limit 0 response.stream

-- What follows the `try`: on an exception the part is removed, an empty one too, and one with bytes
-- takes the place of the installer.
abbrev pub settle :
    Result DownloadError (List ℕ) → Downloads → Result DownloadError (List ℕ) × Downloads
settle (err e) d = (err e, record d { part = none })
settle (ok []) d = (err empty, record d { part = none })
settle (ok (b ∷ bs)) d = (ok (b ∷ bs), record d { installer = some (b ∷ bs); part = none })

-- `download_release`
unfoldable pub download_release :
    ℕ → Option Response → Downloads → Result DownloadError (List ℕ) × Downloads
download_release limit response d = settle (receive limit response) d

-- `record_download`, with the name of the installer and the time
unfoldable pub record_download : Metadata → String → String → String → Downloads → Downloads
record_download m name now hash d = record d {
  sidecar = some (
      some (
        field "schema_version" (int (pos 1)) (
          field "version" (str m.version) (
            field "filename" (str name) (
              field "etag" (str m.etag) (
                field "last_modified" (str m.last_modified) (
                  field "content_length" (int (pos m.content_length)) (
                    field "installer_sha256" (str hash) (field "verified_at" (str now) end)))))))));
}

-- `metadata_matches`
unfoldable pub metadata_matches : Metadata → Fields → Bool
metadata_matches m cached =
    json_eq (get cached "version") (str m.version)
    && json_eq (get cached "etag") (str m.etag)
    && json_eq (get cached "last_modified") (str m.last_modified)
    && json_eq (get cached "content_length") (int (pos m.content_length))

abbrev pub size_matches : Metadata → List ℕ → Bool
size_matches m bytes = m.content_length == 0 || length bytes == m.content_length

module _ (sha256 : List ℕ → String) (other_text : Json → String) where
  abbrev pub hash_matches : String → List ℕ → Bool
  hash_matches hash bytes = is_sha256 hash && str_eq (sha256 bytes) hash

  unfoldable pub intact : Metadata → Fields → List ℕ → Option String
  intact m cached bytes =
      let hash = text_of other_text (find_field "installer_sha256" cached) in
      if metadata_matches m cached && size_matches m bytes && hash_matches hash bytes
      then some hash
      else none

  abbrev pub cached_of :
      Metadata → Option (List ℕ) → Option (Option Fields) → Result DownloadError (Option String)
  cached_of m (some bytes) (some (some cached)) = ok (intact m cached bytes)
  cached_of m (some bytes) (some none) = err unreadable
  cached_of m (some bytes) none = ok none
  cached_of m none sidecar = ok none

  -- `cached_download`: the hash of the installer.
  abbrev pub cached_download : Metadata → Downloads → Result DownloadError (Option String)
  cached_download m d = cached_of m d.installer d.sidecar

  abbrev pub recorded :
      Metadata
      → String
      → String
      → Result DownloadError (List ℕ) × Downloads
      → Result DownloadError String × Downloads
  recorded m name now (err e, d) = (err e, d)
  recorded m name now (ok bytes, d) =
      (ok (sha256 bytes), record_download m name now (sha256 bytes) d)

  abbrev pub fetch_from :
      ℕ
      → Metadata
      → String
      → String
      → Option Response
      → Result DownloadError (Option String)
      → Downloads
      → Result DownloadError String × Downloads
  fetch_from limit m name now response (err e) d = (err e, d)
  fetch_from limit m name now response (ok (some hash)) d = (ok hash, d)
  fetch_from limit m name now response (ok none) d =
      recorded m name now (download_release limit response d)

  -- The lines of `check` that look for a cached installer and download one if there is none.
  unfoldable pub fetch :
      ℕ
      → Metadata
      → String
      → String
      → Option Response
      → Downloads
      → Result DownloadError String × Downloads
  fetch limit m name now response d = fetch_from limit m name now response (cached_download m d) d
