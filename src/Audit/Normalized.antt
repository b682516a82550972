-- ===== src/Audit/Normalized.antt =====
-- scripts/compare-pe-normalized.py: `normalized_bytes` and the comparison of two files.
pub mod Fields
use uu_remote_ubuntu_bridge.Prelude.{
  ℕ, ◌+◌, Bool, true, false, ◌&&◌, ◌||◌, not, List, [], ◌∷◌, Result, ok, err, ◌>>=◌, ◌>>◌, require,
  refuse, length, take, replicate, leb, ltb, ◌==◌,
}
use uu_remote_ubuntu_bridge.Python.Bytes.{slice, splice}
use uu_remote_ubuntu_bridge.Patchlib.Read.Order.{bytes_eq}
use uu_remote_ubuntu_bridge.Audit.Pe.{number_at, has_bytes, pe_offset, mz, pe_signature}

-- The three messages of `PEError`, and the exception of `struct.unpack_from`.
pub data NormalizedError : Type 0 where
  no_header bad_offset bad_magic struct_error : NormalizedError

-- The time stamp and the checksum become zeros.
abbrev pub blanked : List ℕ → ℕ → List ℕ
blanked xs at =
    splice (splice xs (at + 8) (at + 12) (replicate 4 0)) (at + 24 + 64) (at + 24 + 68)
      (replicate 4 0)

-- `normalized_bytes`
unfoldable pub normalized_bytes : List ℕ → Result NormalizedError (List ℕ)
normalized_bytes xs = do
  refuse (ltb (length xs) 0x40 || not (bytes_eq (take 2 xs) mz)) no_header
  require (has_bytes 4 xs 0x3c) struct_error
  refuse
      (ltb (length xs) (pe_offset xs + 24 + 68)
        || not (bytes_eq (slice xs (pe_offset xs) (pe_offset xs + 4)) pe_signature))
      bad_offset
  require (has_bytes 2 xs (pe_offset xs + 24)) struct_error
  require
      (number_at 2 xs (pe_offset xs + 24) == 0x10b || number_at 2 xs (pe_offset xs + 24) == 0x20b)
      bad_magic
  ok (blanked xs (pe_offset xs))
