-- ===== src/Disk/Image.antt =====
-- src/disk/src/Image.cpp, the two sides of a diskette: `splitDoubleSided` and `mergeSides`. A vector
-- is its size and its bytes; both results have the fixed sizes of src/disk/src/Layout.cpp.
pub mod Sides
pub mod Merge
mod Tests
use ms.Base.{
  ℕ, zero, suc, ◌+◌, ◌-◌, ◌*◌, Option, some, none, ◌==◌, ltb, leb, ◌&&◌, ◌||◌, not, if◌then◌else◌,
  Bytes,
}
use ms.Disk.Layout.{side_size, double_size, track_size, tracks}

-- `std::copy_n(src + from, n, dst + at)`
abbrev pub copy_n : Bytes → ℕ → ℕ → Bytes → ℕ → Bytes
copy_n src from n dst at i = if leb at i && ltb i (at + n) then src (from + (i - at)) else dst i

-- One round of `splitDoubleSided`.
unfoldable pub split_track : Bytes → ℕ → Bytes × Bytes → Bytes × Bytes
split_track ds t (s0, s1) =
    let src = t * 2 * track_size in
    let dst = t * track_size in
    (copy_n ds src track_size s0 dst, copy_n ds (src + track_size) track_size s1 dst)

-- Its loop, with so many tracks left from track `t` on.
unfoldable pub split_tracks : Bytes → ℕ → ℕ → Bytes × Bytes → Bytes × Bytes
split_tracks ds zero t s = s
split_tracks ds (suc left) t s = split_tracks ds left (t + 1) (split_track ds t s)

-- `splitDoubleSided`
unfoldable pub split_double_sided : ℕ → Bytes → Option (Bytes × Bytes)
split_double_sided size ds =
    if not (size == double_size) then none else some (split_tracks ds tracks 0 ((λ _. 0), (λ _. 0)))

-- One round of `mergeSides`.
unfoldable pub merge_track : Bytes → Bytes → ℕ → Bytes → Bytes
merge_track side0 side1 t ds =
    let src = t * track_size in
    let dst = t * 2 * track_size in
    copy_n side1 src track_size (copy_n side0 src track_size ds dst) (dst + track_size)

-- Its loop.
unfoldable pub merge_tracks : Bytes → Bytes → ℕ → ℕ → Bytes → Bytes
merge_tracks side0 side1 zero t ds = ds
merge_tracks side0 side1 (suc left) t ds =
    merge_tracks side0 side1 left (t + 1) (merge_track side0 side1 t ds)

-- `mergeSides`
unfoldable pub merge_sides : ℕ → Bytes → ℕ → Bytes → Option Bytes
merge_sides size0 side0 size1 side1 =
    if not (size0 == side_size) || not (size1 == side_size)
    then none
    else some (merge_tracks side0 side1 tracks 0 (λ _. 0))
