-- ===== src/Audit/Pe/Header.antt =====
-- Where `parse_pe` reads outside of the data.
use uu_remote_ubuntu_bridge.Prelude.{
  ℕ, zero, suc, ◌+◌, ◌≤◌, ◌<◌, ◌≡◌, ◌≢◌, List, err, length, arith,
}
use uu_remote_ubuntu_bridge.Audit.Pe.{
  struct_error, number_at, pe_offset, read_sections, read_optional, read_coff, parse_pe,
}

read_sections-defined : (n : ℕ) (xs : List ℕ) (at : ℕ) → read_sections n xs at ≢ err struct_error
unfolding read_sections
read_sections-defined zero xs at h = cc
read_sections-defined (suc n) xs at h = ground (arith, read_sections-defined n xs (at + 40))

read_optional-struct :
    (xs : List ℕ) (at size count timestamp : ℕ)
    → read_optional xs at size count timestamp ≡ err struct_error
    → (at + size ≤ length xs) × (length xs < at + 32)
unfolding read_optional
read_optional-struct xs at size count timestamp h =
    ground (arith, h, read_sections-defined count xs (at + size))

-- The size that the COFF header gives for the optional header.
abbrev pub optional_size : List ℕ → ℕ
optional_size xs = number_at 2 xs (pe_offset xs + 4 + 16)

-- The exception of `struct.unpack_from` leaves `parse_pe` only where the optional header, of the size
-- that the file states, lies within the data, but fewer than 32 bytes follow the COFF header.
pub parse_pe-struct_error :
    (xs : List ℕ)
    → parse_pe xs ≡ err struct_error
    → (pe_offset xs + 24 + optional_size xs ≤ length xs) × (length xs < pe_offset xs + 24 + 32)
unfolding parse_pe read_coff
parse_pe-struct_error xs h =
    let inner =
      read_optional-struct xs (pe_offset xs + 4 + 20) (optional_size xs)
        (number_at 2 xs (pe_offset xs + 4 + 2)) (number_at 4 xs (pe_offset xs + 4 + 4)) in
    ground (arith, h, inner)
