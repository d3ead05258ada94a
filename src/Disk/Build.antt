-- ===== src/Disk/Build.antt =====
-- src/disk/src/Build.cpp and the helpers of src/disk/src/Internal.hpp: the words of a directory
-- segment, and the segment that `initVolume` writes.
pub mod Init
mod Tests
use ms.Base.{ℕ, ◌+◌, ◌-◌, ◌*◌, ◌/◌, ◌%◌, ◌==◌, if◌then◌else◌, Bytes, store, low, high, u16}

-- `putw`
unfoldable pub putw : Bytes → ℕ → ℕ → Bytes
putw p at v = store (store p at (low v)) (at + 1) (high v)

-- `putEntry`
unfoldable pub put_entry : Bytes → ℕ → ℕ → ℕ → ℕ → ℕ → ℕ → Bytes
unfolding putw
put_entry seg p status n1 n2 ext length =
    let s1 = putw seg p status in
    let s2 = putw s1 (p + 2) n1 in
    let s3 = putw s2 (p + 4) n2 in
    let s4 = putw s3 (p + 6) ext in
    let s5 = putw s4 (p + 8) length in putw (putw s5 (p + 10) 0) (p + 12) 0

-- `kDirLbn`
abbrev pub dir_lbn : ℕ
dir_lbn = 6

-- The pattern of a blank medium, in `initVolume` and `blankImage`.
abbrev pub blank : Bytes
blank i = if i % 2 == 1 then 0x6d else 0xb6

-- `dataStart` in `initVolume`
abbrev pub data_start : ℕ → ℕ
data_start segments = dir_lbn + segments * 2

-- The first directory segment that `initVolume` writes, of so many, for a volume of so many blocks.
unfoldable pub init_segment : ℕ → ℕ → Bytes
unfolding putw put_entry
init_segment segments vol_blocks =
    let s0 = putw blank 0 (u16 segments) in
    let s1 = putw s0 2 0 in
    let s2 = putw s1 4 1 in
    let s3 = putw s2 6 0 in
    let s4 = putw s3 8 (u16 (data_start segments)) in
    let s5 = put_entry s4 10 0x200 0x00d5 0x6739 0x26f4 (u16 (vol_blocks - data_start segments)) in
    putw s5 (10 + 14) 0x800
