-- ===== src/Audit/Pe.antt =====
-- scripts/audit-gameviewer.py: `parse_pe` and `file_offset_to_va`. `struct_error` is the exception of
-- `struct.unpack_from`, which no caller catches. A time stamp stays the number of its four bytes.
pub mod Header
use uu_remote_ubuntu_bridge.Prelude.{
  ℕ, zero, suc, ◌+◌, ◌-◌, ◌*◌, Bool, true, false, ◌&&◌, ◌||◌, not, Option, none, some, List, [],
  ◌∷◌, Result, ok, err, ◌>>=◌, ◌>>◌, require, refuse, or_raise, length, take, leb, ltb, ◌==◌,
  if◌then◌else◌,
}
use uu_remote_ubuntu_bridge.Python.Bytes.{slice}
use uu_remote_ubuntu_bridge.Patchlib.Read.Order.{bytes_eq}

pub data PeError : Type 0 where
  not_mz no_pe_header truncated_optional truncated_sections struct_error : PeError
  wrong_machine wrong_magic : ℕ → PeError

-- A name is the list of its character codes.
pub record PeSection : Type 0 where
  pub name : List ℕ
  pub virtual_address : ℕ
  pub virtual_size : ℕ
  pub raw_offset : ℕ
  pub raw_size : ℕ

pub record PeInfo : Type 0 where
  pub image_base : ℕ
  pub timestamp : ℕ
  pub sections : List PeSection

unfoldable pub little_endian : List ℕ → ℕ
little_endian [] = 0
little_endian (b ∷ bs) = b + 256 * little_endian bs

-- The number of so many bytes at an offset.
abbrev pub number_at : ℕ → List ℕ → ℕ → ℕ
number_at n xs at = little_endian (slice xs at (at + n))

-- The test of `struct.unpack_from`: so many bytes stand at the offset.
abbrev pub has_bytes : ℕ → List ℕ → ℕ → Bool
has_bytes n xs at = leb (at + n) (length xs)

-- `raw.split(b"\0", 1)[0].decode("ascii", errors="replace")`
abbrev until_zero : List ℕ → List ℕ
until_zero [] = []
until_zero (b ∷ bs) =
    let rest = until_zero bs in if b == 0 then [] else if ltb b 128 then b ∷ rest else 65533 ∷ rest

section_at : List ℕ → ℕ → PeSection
section_at xs at = record {
  name = until_zero (slice xs at (at + 8));
  virtual_size = number_at 4 xs (at + 8);
  virtual_address = number_at 4 xs (at + 12);
  raw_size = number_at 4 xs (at + 16);
  raw_offset = number_at 4 xs (at + 20);
}

-- The loop over the section table, from an offset on.
unfoldable pub read_sections : ℕ → List ℕ → ℕ → Result PeError (List PeSection)
unfolding section_at
read_sections zero xs at = ok []
read_sections (suc n) xs at = do
  refuse (ltb (length xs) (at + 40)) truncated_sections
  require (has_bytes 16 xs (at + 8)) struct_error
  rest ← read_sections n xs (at + 40)
  ok (section_at xs at ∷ rest)

-- From the optional header on.
unfoldable pub read_optional : List ℕ → ℕ → ℕ → ℕ → ℕ → Result PeError PeInfo
read_optional xs at size count timestamp = do
  refuse (ltb (length xs) (at + size)) truncated_optional
  require (has_bytes 2 xs at) struct_error
  require (number_at 2 xs at == 0x20b) (wrong_magic (number_at 2 xs at))
  require (has_bytes 8 xs (at + 24)) struct_error
  sections ← read_sections count xs (at + size)
  ok (record { image_base = number_at 8 xs (at + 24); timestamp = timestamp; sections = sections })

-- From the COFF header on.
unfoldable pub read_coff : List ℕ → ℕ → Result PeError PeInfo
read_coff xs at = do
  require (has_bytes 20 xs at) struct_error
  require (number_at 2 xs at == 0x8664) (wrong_machine (number_at 2 xs at))
  read_optional xs (at + 20) (number_at 2 xs (at + 16)) (number_at 2 xs (at + 2))
      (number_at 4 xs (at + 4))

abbrev pub pe_offset : List ℕ → ℕ
pe_offset xs = number_at 4 xs 0x3c

abbrev pub mz : List ℕ
mz = b'M' ∷ b'Z' ∷ []

abbrev pub pe_signature : List ℕ
pe_signature = b'P' ∷ b'E' ∷ 0 ∷ 0 ∷ []

-- `parse_pe`
unfoldable pub parse_pe : List ℕ → Result PeError PeInfo
parse_pe xs = do
  refuse (ltb (length xs) 0x100 || not (bytes_eq (take 2 xs) mz)) not_mz
  require (has_bytes 4 xs 0x3c) struct_error
  refuse
      (ltb (length xs) (pe_offset xs + 24)
        || not (bytes_eq (slice xs (pe_offset xs) (pe_offset xs + 4)) pe_signature))
      no_pe_header
  read_coff xs (pe_offset xs + 4)

-- `file_offset_to_va`
unfoldable pub file_offset_to_va : PeInfo → ℕ → Option ℕ
file_offset_to_va info at = in_sections info.sections
  where
    in_sections : List PeSection → Option ℕ
    in_sections [] = none
    in_sections (s ∷ ss) =
        let later = in_sections ss in
        if leb s.raw_offset at && ltb at (s.raw_offset + s.raw_size)
        then some (info.image_base + s.virtual_address + at - s.raw_offset)
        else later
