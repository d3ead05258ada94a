-- ===== src/Disk/Directory.antt =====
-- src/disk/src/Directory.cpp and its header: an RT-11 directory, read from an image through the
-- geometry of src/disk/src/Layout.cpp. An image is its bytes and its size; a name is the list of its
-- characters' codes; an `int` block number that is not negative is a natural number.
pub mod Segment
mod Tests
use ms.Base.{
  ℕ, zero, suc, ◌+◌, ◌-◌, ◌*◌, ◌/◌, ◌%◌, Bool, true, false, ◌&&◌, ◌||◌, not, Option, none, some,
  ◌>>=◌, ◌==◌, leb, ltb, if◌then◌else◌, List, [], ◌∷◌, ◌++◌, length, Bytes, word, has_bit, min, pos,
}
use ms.Disk.Layout.{Vol, lbn_to_byte, block_size}
use ms.Disk.Names.{decode_rad50_name, up}

-- `kStatusEmpty`, `kStatusPermanent`, `kStatusEndOfSeg`: the numbers of their bits.
abbrev pub status_empty : ℕ
status_empty = 9

abbrev pub status_permanent : ℕ
status_permanent = 10

abbrev pub status_end_of_seg : ℕ
status_end_of_seg = 11

pub record DirEntry : Type 0 where
  pub status : ℕ
  pub name : List ℕ
  pub start_block : ℕ
  pub blocks : ℕ
  pub date : ℕ
  pub job_channel : ℕ

pub record Directory : Type 0 where
  pub dir_start_lbn : ℕ
  pub segs_total : ℕ
  pub high_seg : ℕ
  pub extra_bytes : ℕ
  pub data_start : ℕ
  pub entries : List DirEntry

abbrev pub is_permanent : DirEntry → Bool
is_permanent e = has_bit e.status status_permanent

abbrev pub is_empty : DirEntry → Bool
is_empty e = has_bit e.status status_empty

-- `rd16`
abbrev pub rd16 : Bytes → ℕ → ℕ
rd16 b off = word (b off) (b (off + 1))

-- The entry at offset `p` of a segment, in the loop of `parseSegment`.
unfoldable pub entry_at : Bytes → ℕ → ℕ → DirEntry
entry_at seg p cur_block = record {
  status = rd16 seg p;
  name = decode_rad50_name (rd16 seg (p + 2)) (rd16 seg (p + 4)) (rd16 seg (p + 6));
  start_block = cur_block;
  blocks = rd16 seg (p + 8);
  date = rd16 seg (p + 12);
  job_channel = rd16 seg (p + 10);
}

-- The loop of `parseSegment`, with so many entries left that fit below byte 1024. An entry without a
-- status, or no entry that ends the segment, is refused.
unfoldable pub parse_entries : Bytes → ℕ → ℕ → ℕ → ℕ → Option (List DirEntry)
unfolding entry_at
parse_entries seg entry_size zero p cur_block = none
parse_entries seg entry_size (suc left) p cur_block =
    let e = entry_at seg p cur_block in
    let rest = parse_entries seg entry_size left (p + entry_size) (cur_block + e.blocks) in
    if e.status == 0
    then none
    else if has_bit e.status status_end_of_seg
    then some (e ∷ [])
    else rest >>= λ es. some (e ∷ es)

-- `parseSegment`
unfoldable pub parse_segment : ℕ → Bytes → ℕ → Option Directory
unfolding parse_entries
parse_segment size seg max_block =
    let seg_total = rd16 seg 0 in
    let seg_high = rd16 seg 4 in
    let extra = rd16 seg 6 in
    let data_blk = rd16 seg 8 in
    let entry_size = 14 + extra in
    if ltb size 1024
    then none
    else if seg_total == 0 || ltb 31 seg_total
    then none
    else if seg_high == 0 || ltb seg_total seg_high
    then none
    else if has_bit extra 0 || ltb 64 extra
    then none
    else if ltb data_blk 1 || ltb max_block data_blk
    then none
    else parse_entries seg entry_size ((1024 - 10) / entry_size) 10 data_blk >>= λ es.
        some (record {
          dir_start_lbn = 0;
          segs_total = seg_total;
          high_seg = seg_high;
          extra_bytes = extra;
          data_start = data_blk;
          entries = es;
        })

-- `readSegmentBytes` in `parseDirectory`: a half past the end of the image is zeros.
unfoldable pub read_segment_bytes : ℕ → Bytes → ℕ → Bool → Vol → ℕ → Bytes
read_segment_bytes size image side ds vol lbn i =
    let off = lbn_to_byte (pos (lbn + i / block_size)) side ds vol in
    if leb (off + block_size) size then image (off + i % block_size) else 0

-- The loop of `parseDirectory` along the chain of segments, with so many rounds left.
unfoldable pub follow_chain : (ℕ → Bytes) → ℕ → ℕ → ℕ → ℕ → List DirEntry → List DirEntry
unfolding parse_segment
follow_chain read max_block start zero next es = es
follow_chain read max_block start (suc guard) next es =
    let seg = read (start + (next - 1) * 2) in
    if next == 0 then es else elim (parse_segment 1024 seg max_block) [
      | none ↦ es
      | some more ↦ follow_chain read max_block start guard (rd16 seg 2) (es ++ more.entries)
    ]

-- The loop of `parseDirectory` over the candidates that are left.
unfoldable pub try_candidates : (ℕ → Bytes) → ℕ → List ℕ → Option Directory
unfolding parse_segment follow_chain
try_candidates read max_block [] = none
try_candidates read max_block (start ∷ more) =
    let seg = read start in
    elim (parse_segment 1024 seg max_block) [
      | none ↦ try_candidates read max_block more
      | some dir ↦ some (record dir {
        dir_start_lbn = start;
        entries = follow_chain read max_block start 31 (rd16 seg 2) dir.entries;
      })
    ]

-- `kDirCandidates`
abbrev pub dir_candidates : List ℕ
dir_candidates = 6 ∷ 13 ∷ 8 ∷ 10 ∷ 12 ∷ []

-- `parseDirectory`
unfoldable pub parse_directory : ℕ → Bytes → ℕ → Bool → Vol → Option Directory
unfolding try_candidates read_segment_bytes
parse_directory size image side ds vol =
    let max_block = min (size / block_size) 65535 in
    try_candidates (read_segment_bytes size image side ds vol) max_block dir_candidates

-- `Directory::permanentFiles`
unfoldable pub permanent_files : List DirEntry → List DirEntry
permanent_files [] = []
permanent_files (e ∷ es) =
    let rest = permanent_files es in if is_permanent e then e ∷ rest else rest

-- Names compared without regard to case: `std::toupper` on the characters of a RAD50 name.
abbrev pub same_name : List ℕ → List ℕ → Bool
same_name [] [] = true
same_name (c ∷ s) (d ∷ t) = (up c == up d) && same_name s t
same_name s t = false

-- `Directory::find`
unfoldable pub find : List DirEntry → List ℕ → Option DirEntry
find [] name = none
find (e ∷ es) name =
    let rest = find es name in if is_permanent e && same_name e.name name then some e else rest
