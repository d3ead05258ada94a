-- ===== src/Disk/Build/Init.antt =====
-- The directory of a new volume of src/disk/src/Build.cpp, read by src/disk/src/Directory.cpp.
use ms.Base.{
  ℕ, ◌+◌, ◌-◌, ◌*◌, ◌/◌, ◌<◌, ◌≤◌, ◌≡◌, refl, ap, ◌∙◌, arith, true, ◌||◌, Option, none, some, ◌>>=◌,
  ◌==◌, ltb, if◌then◌else◌, [], ◌∷◌, Bytes, has_bit, le→ltb_false, ne→==_false,
}
use ms.Disk.Names.{decode_rad50_name, rad50_word}
use ms.Disk.Directory.{DirEntry, Directory, parse_entries, parse_segment, entry_at, rd16}
use ms.Disk.Build.{init_segment, data_start, putw, put_entry}

-- The entry that covers the free space.
abbrev pub free_entry : ℕ → ℕ → DirEntry
free_entry start blocks = record {
  status = 0x200;
  name = 32 ∷ 69 ∷ 77 ∷ 80 ∷ 84 ∷ 89 ∷ 46 ∷ 70 ∷ 73 ∷ 76 ∷ [];
  start_block = start;
  blocks = blocks;
  date = 0;
  job_channel = 0;
}

init_blocks :
    (segments vol_blocks : ℕ)
    → vol_blocks - data_start segments < 65536
    → rd16 (init_segment segments vol_blocks) 18 ≡ vol_blocks - data_start segments
unfolding init_segment putw put_entry
init_blocks segments vol_blocks h = omega arith

init_header :
    (segments vol_blocks : ℕ)
    → segments ≤ 31
    → (rd16 (init_segment segments vol_blocks) 0 ≡ segments)
      × (rd16 (init_segment segments vol_blocks) 8 ≡ data_start segments)
unfolding init_segment putw put_entry
init_header segments vol_blocks h = (omega arith, omega arith)

init_entries :
    (segments vol_blocks start : ℕ)
    → vol_blocks - data_start segments < 65536
    → parse_entries (init_segment segments vol_blocks) 14 72 10 start
      ≡ some (
          free_entry start (vol_blocks - data_start segments)
          ∷ entry_at
              (init_segment segments vol_blocks)
              24
              (start + (vol_blocks - data_start segments))
          ∷ [])
unfolding parse_entries entry_at init_segment putw put_entry decode_rad50_name rad50_word
init_entries segments vol_blocks start h =
    ap
      (λ b.
        some (free_entry start b ∷ entry_at (init_segment segments vol_blocks) 24 (start + b) ∷ []))
      (init_blocks segments vol_blocks h)

abbrev read_entries : Bytes → ℕ → ℕ → ℕ → ℕ → Option Directory
read_entries seg total high extra start =
    parse_entries seg (14 + extra) ((1024 - 10) / (14 + extra)) 10 start >>= λ es. some (record {
      dir_start_lbn = 0;
      segs_total = total;
      high_seg = high;
      extra_bytes = extra;
      data_start = start;
      entries = es;
    })

-- The tests of `parseSegment` on the words of a header, before it reads the entries.
abbrev checked : Bytes → ℕ → ℕ → ℕ → ℕ → ℕ → Option Directory
checked seg max_block total high extra start =
    if total == 0 || ltb 31 total
    then none
    else if high == 0 || ltb total high
    then none
    else if has_bit extra 0 || ltb 64 extra
    then none
    else if ltb start 1 || ltb max_block start
    then none
    else read_entries seg total high extra start

parse_segment-checked :
    (seg : Bytes) (max_block : ℕ)
    → parse_segment 1024 seg max_block
      ≡ checked seg max_block (rd16 seg 0) (rd16 seg 4) (rd16 seg 6) (rd16 seg 8)
unfolding parse_segment
parse_segment-checked seg max_block = refl

good_header :
    (n start max_block : ℕ) (k : Option Directory)
    → 1 ≤ n
    → n ≤ 31
    → 1 ≤ start
    → start ≤ max_block
    → (if n == 0 || ltb 31 n
        then none
        else if ltb n 1
        then none
        else if ltb start 1 || ltb max_block start
        then none
        else k)
      ≡ k
good_header n start max_block k h1 h2 h3 h4 = rw (ne→==_false n 0 (λ e. omega arith)) (
    rw (le→ltb_false 31 n h2) (
      rw (le→ltb_false n 1 h1)
        (rw (le→ltb_false start 1 h3) (rw (le→ltb_false max_block start h4) refl))))

-- What `parseSegment` gives for a segment with a good header and no extra bytes.
parse_segment-header :
    (seg : Bytes) (n start max_block : ℕ)
    → rd16 seg 0 ≡ n
    → rd16 seg 4 ≡ 1
    → rd16 seg 6 ≡ 0
    → rd16 seg 8 ≡ start
    → 1 ≤ n
    → n ≤ 31
    → 1 ≤ start
    → start ≤ max_block
    → parse_segment 1024 seg max_block ≡ read_entries seg n 1 0 start
parse_segment-header seg n start max_block e0 e4 e6 e8 h1 h2 h3 h4 =
    parse_segment-checked seg max_block
    ∙ ap (λ t. checked seg max_block t (rd16 seg 4) (rd16 seg 6) (rd16 seg 8)) e0
    ∙ ap (λ h. checked seg max_block n h (rd16 seg 6) (rd16 seg 8)) e4
    ∙ ap (λ x. checked seg max_block n 1 x (rd16 seg 8)) e6
    ∙ ap (λ d. checked seg max_block n 1 0 d) e8
    ∙ good_header n start max_block (read_entries seg n 1 0 start) h1 h2 h3 h4

-- For 1 to 31 segments, and a volume of fewer than 65536 blocks that has one at least behind them, the
-- directory that `initVolume` writes is accepted by `parseSegment`, if that is told of as many blocks
-- as come before the files: as many segments as asked for, the first in use, and one empty entry that
-- covers every block of the volume behind the first six and the two of each segment.
pub parse_segment-init_segment :
    (segments vol_blocks max_block : ℕ)
    → 1 ≤ segments
    → segments ≤ 31
    → 6 + segments * 2 < vol_blocks
    → vol_blocks < 65536
    → 6 + segments * 2 ≤ max_block
    → (end : DirEntry) × (parse_segment 1024 (init_segment segments vol_blocks) max_block
        ≡ some (record {
          dir_start_lbn = 0;
          segs_total = segments;
          high_seg = 1;
          extra_bytes = 0;
          data_start = 6 + segments * 2;
          entries = free_entry (6 + segments * 2) (vol_blocks - (6 + segments * 2)) ∷ end ∷ [];
        }))
      × (has_bit end.status 11 ≡ true)
      × (end.start_block ≡ vol_blocks)
unfolding init_segment putw put_entry entry_at
parse_segment-init_segment segments vol_blocks max_block h1 h2 h3 h4 h5 =
    let seg = init_segment segments vol_blocks in
    let start = data_start segments in
    let (e0, e8) = init_header segments vol_blocks h2 in
    (
      entry_at seg 24 (start + (vol_blocks - start)),
      parse_segment-header seg segments start max_block e0 refl refl e8 h1 h2 (omega arith) h5
          ∙ ap
              (λ o. o >>= λ es. some (record {
                dir_start_lbn = 0;
                segs_total = segments;
                high_seg = 1;
                extra_bytes = 0;
                data_start = data_start segments;
                entries = es;
              }))
              (init_entries segments vol_blocks start (omega arith)),
      refl,
      omega arith,
    )
