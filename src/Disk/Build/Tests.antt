-- ===== src/Disk/Build/Tests.antt =====
-- Segments of src/disk/src/Build.cpp that can be followed by hand.
use ms.Base.{◌≡◌, refl, arith, true, some, [], ◌∷◌, has_bit}
use ms.Disk.Directory.{DirEntry, parse_segment}
use ms.Disk.Build.{init_segment, putw, put_entry}
use ms.Disk.Build.Init.{free_entry, parse_segment-init_segment}

bytes_run :
    (init_segment 4 800 8 ≡ 14)
    × (init_segment 4 800 18 ≡ 18)
    × (init_segment 4 800 19 ≡ 3)
    × (init_segment 4 800 1022 ≡ 0xb6)
unfolding init_segment put_entry putw
bytes_run = (refl, refl, refl, refl)

parse_segment-init_segment_example :
    (end : DirEntry) × (parse_segment 1024 (init_segment 4 800) 800
      ≡ some (record {
        dir_start_lbn = 0;
        segs_total = 4;
        high_seg = 1;
        extra_bytes = 0;
        data_start = 14;
        entries = free_entry 14 786 ∷ end ∷ [];
      }))
    × (has_bit end.status 11 ≡ true)
    × (end.start_block ≡ 800)
parse_segment-init_segment_example =
    parse_segment-init_segment 4 800 800 (omega arith) (omega arith) (omega arith) (omega arith)
      (omega arith)
