-- ===== src/Disk/Layout/Tests.antt =====
-- Offsets of src/disk/src/Layout.cpp at blocks that can be followed by hand.
use ms.Base.{◌+◌, ◌/◌, ◌%◌, ◌≤◌, ◌≡◌, true, false, arith, refl, pos, negsuc, inl, inr}
use ms.Disk.Layout.{
  Vol, interleave, inverse, lbn_to_byte_floppy, lbn_to_byte, lbn_from_phys, is_double_sided_size,
}
use ms.Disk.Layout.Floppy.{phys-floppy}
use ms.Disk.Layout.Volumes.{lbn_to_byte_bounds}

-- Block 0 is the first of track 1; the last ten blocks are track 0, with the skew undone.
blocks_run :
    (lbn_to_byte_floppy (pos 0) 0 false ≡ 5120)
    × (lbn_to_byte_floppy (pos 790) 0 false ≡ 4096)
    × (lbn_to_byte_floppy (negsuc 0) 1 true ≡ 8704)
    × (lbn_to_byte (pos 1580) 0 true Vol.dv ≡ 0)
unfolding lbn_to_byte_floppy lbn_to_byte interleave
blocks_run = (refl, refl, refl, refl)

sectors_run : lbn_from_phys 0 9 ≡ 790
unfolding lbn_from_phys inverse
sectors_run = refl

sizes_run : is_double_sided_size 819200 ≡ true
sizes_run = refl

phys-floppy_example :
    let off = lbn_to_byte_floppy (pos 13) 0 false in
    (lbn_from_phys (off / 5120) (off % 5120 / 512 + 1) ≡ 13)
    × (off % 512 ≡ 0)
    × (off + 512 ≤ 409600)
phys-floppy_example = phys-floppy 13 (omega arith)

-- A side that is none of the two: the block is past the end of a double-sided image.
third_side : lbn_to_byte_floppy (pos 1) 1000 true ≡ 819200 + 4312064
unfolding lbn_to_byte_floppy interleave
third_side = refl

lbn_to_byte_bounds_example :
    (lbn_to_byte (negsuc 4) 0 true Vol.dv % 512 ≡ 0)
    × (lbn_to_byte (negsuc 4) 0 true Vol.dv + 512 ≤ 819200)
lbn_to_byte_bounds_example =
    lbn_to_byte_bounds (negsuc 4) 0 true Vol.dv (omega arith) (omega arith) (inr (refl, inl refl))
