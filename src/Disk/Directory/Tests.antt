-- ===== src/Disk/Directory/Tests.antt =====
-- Directories of src/disk/src/Directory.cpp that can be followed by hand.
use ms.Base.{◌≡◌, ◌≤◌, refl, none, some, [], ◌∷◌, Bytes, get_or}
use ms.Disk.Names.{decode_rad50_name, rad50_word}
use ms.Disk.Directory.{
  DirEntry, Directory, entry_at, parse_entries, parse_segment, permanent_files, find,
}
use ms.Disk.Directory.Segment.{Tiled, Ended, HeaderFits, parse_segment-Tiled}

-- A segment with one file of three blocks, HD.SYS, at block 8, and the mark of the end.
abbrev one_file : Bytes
one_file i =
    get_or
      (1 ∷ 0 ∷ 0 ∷ 0 ∷ 1 ∷ 0 ∷ 0 ∷ 0 ∷ 8 ∷ 0 ∷ 0 ∷ 4 ∷ 160 ∷ 50 ∷ 0 ∷ 0 ∷ 187 ∷ 122 ∷ 3 ∷ 0 ∷ 0 ∷ 0
        ∷ 0 ∷ 0 ∷ 0 ∷ 8 ∷ [])
      i 0

abbrev hd_sys : DirEntry
hd_sys = record {
  status = 0x400;
  name = 72 ∷ 68 ∷ 46 ∷ 83 ∷ 89 ∷ 83 ∷ [];
  start_block = 8;
  blocks = 3;
  date = 0;
  job_channel = 0;
}

abbrev end_mark : DirEntry
end_mark = record {
  status = 0x800;
  name = [];
  start_block = 11;
  blocks = 0;
  date = 0;
  job_channel = 0;
}

abbrev one_file_directory : Directory
one_file_directory = record {
  dir_start_lbn = 0;
  segs_total = 1;
  high_seg = 1;
  extra_bytes = 0;
  data_start = 8;
  entries = hd_sys ∷ end_mark ∷ [];
}

one_file-parse : parse_segment 1024 one_file 800 ≡ some one_file_directory
unfolding parse_segment parse_entries entry_at decode_rad50_name rad50_word
one_file-parse = refl

refused_run :
    (parse_segment 1023 one_file 800 ≡ none)
    × (parse_segment 1024 one_file 7 ≡ none)
    × (parse_segment 1024 (λ _. 0) 800 ≡ none)
unfolding parse_segment parse_entries entry_at
refused_run = (refl, refl, refl)

find_run :
    (find (hd_sys ∷ end_mark ∷ []) (104 ∷ 100 ∷ 46 ∷ 115 ∷ 121 ∷ 115 ∷ []) ≡ some hd_sys)
    × (find (hd_sys ∷ end_mark ∷ []) (104 ∷ 100 ∷ []) ≡ none)
    × (permanent_files (hd_sys ∷ end_mark ∷ []) ≡ hd_sys ∷ [])
unfolding find permanent_files
find_run = (refl, refl, refl)

parse_segment-Tiled_example :
    Tiled 8 (hd_sys ∷ end_mark ∷ [])
    × Ended (hd_sys ∷ end_mark ∷ [])
    × (2 ≤ 72)
    × HeaderFits 800 one_file_directory
parse_segment-Tiled_example =
    parse_segment-Tiled 1024 one_file 800 one_file_directory one_file-parse
