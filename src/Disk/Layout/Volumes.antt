-- ===== src/Disk/Layout/Volumes.antt =====
-- Every kind of volume of src/disk/src/Layout.cpp: the offsets stay inside the image whatever block
-- is asked for, and whole-diskette volumes keep their blocks apart.
use ms.Base.{
  ℕ, ◌+◌, ◌*◌, ◌%◌, ◌<◌, ◌≤◌, ◌≡◌, Bool, true, false, arith, ◌∙◌, if◌then◌else◌, ℤ, pos, negsuc,
  wrap, ◌⊎◌, ◌↔◌,
}
use ms.Disk.Layout.{
  Vol, lbn_to_byte, lbn_to_byte_floppy, double_size, dv_rotate, side_size, advance, IsInt,
}
use ms.Disk.Layout.Floppy.{floppy-eq, track_of, sector_of, sector_of-lt}

wrap-lt : (z : ℤ) (m : ℕ) → 0 < m → wrap z m < m
wrap-lt (pos n) m h = omega arith
wrap-lt (negsuc n) m h = ground arith

floppy-wrap :
    (lbn : ℤ) (side : ℕ) (ds : Bool)
    → lbn_to_byte_floppy lbn side ds ≡ lbn_to_byte_floppy (pos (wrap lbn 800)) side ds
unfolding lbn_to_byte_floppy
floppy-wrap lbn side ds =
    let small = wrap-lt lbn 800 (omega arith) in
    let e : wrap lbn 800 % 800 ≡ wrap lbn 800 = omega arith in rw e

floppy_place :
    (side track sector : ℕ) (ds : Bool)
    → side < 2
    → track < 80
    → sector < 10
    → let off =
        (if ds then side * 5120 else 0) + track * (if ds then 10240 else 5120) + sector * 512 in
      (off % 512 ≡ 0) × (off + 512 ≤ (if ds then 819200 else 409600))
floppy_place side track sector true hs ht hc = (omega arith, omega arith)
floppy_place side track sector false hs ht hc = (omega arith, omega arith)

floppy_bounds :
    (lbn : ℤ) (side : ℕ) (ds : Bool)
    → side < 2
    → (lbn_to_byte_floppy lbn side ds % 512 ≡ 0)
      × (lbn_to_byte_floppy lbn side ds + 512 ≤ (if ds then 819200 else 409600))
floppy_bounds lbn side ds h =
    let n : ℕ = wrap lbn 800 in
    let small : n < 800 = wrap-lt lbn 800 (omega arith) in
    let e = floppy-wrap lbn side ds ∙ floppy-eq n side ds small in
    let t = sector_of-lt n in
    rw e (floppy_place side (track_of n) (sector_of n) ds h (omega arith) t)

-- For side 0 or 1, a floppy volume, and a DV or MZ volume of a double-sided image, has a whole block
-- inside the image for every block number of the source's `int`, negative ones included, up to the
-- last to which 20 can be added without an overflow.
pub lbn_to_byte_bounds :
    (lbn : ℤ) (side : ℕ) (ds : Bool) (vol : Vol)
    → side < 2
    → IsInt (advance lbn dv_rotate)
    → (vol ≡ Vol.floppy) ⊎ ((ds ≡ true) × ((vol ≡ Vol.dv) ⊎ (vol ≡ Vol.mz)))
    → (lbn_to_byte lbn side ds vol % 512 ≡ 0)
      × (lbn_to_byte lbn side ds vol + 512 ≤ (if ds then double_size else side_size))
unfolding lbn_to_byte
lbn_to_byte_bounds lbn side ds Vol.floppy h i k = floppy_bounds lbn side ds h
lbn_to_byte_bounds lbn side ds Vol.linear h i k = absurd (ground arith)
lbn_to_byte_bounds lbn side true Vol.dv h i k =
    let small = wrap-lt (advance lbn 20) 1600 (omega arith) in (omega arith, omega arith)
lbn_to_byte_bounds lbn side false Vol.dv h i k = absurd (ground arith)
lbn_to_byte_bounds lbn side true Vol.mz h i k =
    let small = wrap-lt (advance lbn 0) 1600 (omega arith) in (omega arith, omega arith)
lbn_to_byte_bounds lbn side false Vol.mz h i k = absurd (ground arith)

-- The whole-diskette volumes hold 1600 blocks in 1600 places, and block n of a DV volume lies where
-- block n + 20 of an MZ volume does, round the end of the diskette.
pub lbn_to_byte-whole :
    (n m side : ℕ) (ds : Bool)
    → n < 1600
    → m < 1600
    → (lbn_to_byte (pos n) side ds Vol.dv ≡ lbn_to_byte (pos m) side ds Vol.mz)
      ↔ (m ≡ (n + 20) % 1600)
unfolding lbn_to_byte
lbn_to_byte-whole n m side ds hn hm = (λ e. omega arith, λ e. omega arith)
