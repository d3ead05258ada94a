-- ===== src/Disk/Layout.antt =====
-- src/disk/include/ms0515/disk/Layout.hpp and src/disk/src/Layout.cpp: where a logical block of a
-- volume lies in a raw image.
pub mod Floppy
pub mod Volumes
mod Tests
use ms.Base.{
  ℕ, zero, suc, ◌+◌, ◌-◌, ◌*◌, ◌/◌, ◌%◌, ◌^◌, ◌<◌, Bool, ◌==◌, if◌then◌else◌, List, [], ◌∷◌, ℤ, pos,
  negsuc, sub_ℕ, wrap,
}

abbrev pub block_size : ℕ
block_size = 512

abbrev pub sectors_per_track : ℕ
sectors_per_track = 10

abbrev pub tracks : ℕ
tracks = 80

abbrev pub track_size : ℕ
track_size = sectors_per_track * block_size

abbrev pub side_size : ℕ
side_size = tracks * track_size

abbrev pub double_size : ℕ
double_size = 2 * side_size

abbrev pub ss_blocks : ℕ
ss_blocks = tracks * sectors_per_track

abbrev pub ds_blocks : ℕ
ds_blocks = 2 * ss_blocks

abbrev pub dv_rotate : ℕ
dv_rotate = 2 * sectors_per_track

-- `Vol`
pub data Vol : Type 0 where
  floppy linear dv mz : Vol

-- A constant table of the source, read at an index inside it.
abbrev pub table : List ℕ → ℕ → ℕ
table [] i = 0
table (x ∷ xs) zero = x
table (x ∷ xs) (suc i) = table xs i

-- `kInterleave`
unfoldable pub interleave : ℕ → ℕ
interleave = table (0 ∷ 2 ∷ 4 ∷ 6 ∷ 8 ∷ 1 ∷ 3 ∷ 5 ∷ 7 ∷ 9 ∷ [])

-- `kInverse`
unfoldable pub inverse : ℕ → ℕ
inverse = table (0 ∷ 5 ∷ 1 ∷ 6 ∷ 2 ∷ 7 ∷ 3 ∷ 8 ∷ 4 ∷ 9 ∷ [])

-- `lbnToByte` for one side of a diskette.
unfoldable pub lbn_to_byte_floppy : ℤ → ℕ → Bool → ℕ
lbn_to_byte_floppy lbn side ds =
    let n = wrap lbn ss_blocks in
    let track = (n / sectors_per_track + 1) % tracks in
    let sector =
      wrap (sub_ℕ (interleave (n % sectors_per_track) + 2 * track) 2) sectors_per_track in
    let stride = if ds then 2 * track_size else track_size in
    let side_off = if ds then side * track_size else 0 in
    side_off + track * stride + sector * block_size

-- `lbnToByteLinear` from block zero up.
abbrev pub lbn_to_byte_linear : ℕ → ℕ
lbn_to_byte_linear lbn = lbn * block_size

-- What the source's `int` holds.
abbrev pub IsInt : ℤ → Type 0
IsInt (pos n) = n < 2147483648
IsInt (negsuc n) = n < 2147483648

-- Adding to a signed block number, `lbn + kDvRotate`. Where the sum is no `int` the source overflows,
-- and has no meaning.
abbrev pub advance : ℤ → ℕ → ℤ
advance (pos n) k = pos (n + k)
advance (negsuc n) k = sub_ℕ k (suc n)

-- `lbnToByte` for any volume. A negative number is cast to `size_t` on a linear one.
unfoldable pub lbn_to_byte : ℤ → ℕ → Bool → Vol → ℕ
lbn_to_byte lbn side ds Vol.floppy = lbn_to_byte_floppy lbn side ds
lbn_to_byte (pos n) side ds Vol.linear = lbn_to_byte_linear n
lbn_to_byte (negsuc n) side ds Vol.linear = (2 ^ 64 - suc n) * block_size % 2 ^ 64
lbn_to_byte lbn side ds Vol.dv = lbn_to_byte_linear (wrap (advance lbn dv_rotate) ds_blocks)
lbn_to_byte lbn side ds Vol.mz = lbn_to_byte_linear (wrap (advance lbn 0) ds_blocks)

-- `lbnFromPhys`
unfoldable pub lbn_from_phys : ℕ → ℕ → ℕ
lbn_from_phys track sector =
    let lt = (track + tracks - 1) % tracks in
    let s = wrap (sub_ℕ (sector + 1) (2 * track)) sectors_per_track in
    lt * sectors_per_track + inverse s

-- `isDoubleSidedSize`
abbrev pub is_double_sided_size : ℕ → Bool
is_double_sided_size file_size = file_size == double_size
