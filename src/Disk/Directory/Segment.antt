-- ===== src/Disk/Directory/Segment.antt =====
-- What `parseSegment` of src/disk/src/Directory.cpp accepts.
use mathlib.Core.Option.{some_inj}
use native.Mathlib.Nat.{div-lt_iff_lt-mul}
use ms.Base.{
  subst, if_not, if_cases, bind_some, or_false, ltb_false→le, ==_false→ne, ◌≢◌, ℕ, zero, suc, ◌+◌,
  ◌-◌, ◌/◌, ◌<◌, ◌≤◌, ◌≡◌, refl, arith, true, false, ◌||◌, inl, inr, some, ◌==◌, ltb, List, [], ◌∷◌,
  length, Bytes, has_bit,
}
use ms.Disk.Directory.{
  rd16, DirEntry, Directory, parse_entries, parse_segment, entry_at, status_end_of_seg,
}

-- The files stand one behind the other, the first at block `cur`.
abbrev pub Tiled : ℕ → List DirEntry → Type 0
Tiled cur [] = Unit
Tiled cur (e ∷ es) = (e.start_block ≡ cur) × Tiled (cur + e.blocks) es

-- The last entry, and only it, is marked as the end of the segment, and each has a status.
abbrev pub Ended : List DirEntry → Type 0
Ended [] = ⊥
Ended (e ∷ []) = has_bit e.status status_end_of_seg ≡ true
Ended (e ∷ e' ∷ es) = (has_bit e.status status_end_of_seg ≡ false) × Ended (e' ∷ es)

Ended-cons :
    (e : DirEntry) (es : List DirEntry)
    → has_bit e.status status_end_of_seg ≡ false
    → Ended es
    → Ended (e ∷ es)
Ended-cons e [] h a = elim a [ ]
Ended-cons e (e' ∷ es) h a = (h, a)

parse_entries-Tiled :
    (seg : Bytes) (size left p cur : ℕ) (es : List DirEntry)
    → parse_entries seg size left p cur ≡ some es
    → Tiled cur es × Ended es × (length es ≤ left)
unfolding parse_entries entry_at
parse_entries-Tiled seg size zero p cur es h = absurd (ground arith)
parse_entries-Tiled seg size (suc left) p cur es h =
    let e = entry_at seg p cur in
    let rest = parse_entries seg size left (p + size) (cur + e.blocks) in
    let (_, h1) = if_not (e.status == 0) _ es h in
    elim (if_cases (has_bit e.status status_end_of_seg) _ _ (some es) h1) [
      | inl (b, q) ↦
          subst (λ l. Tiled cur l × Ended l × (length l ≤ suc left)) (some_inj.0 q)
            ((refl, tt), b, omega arith)
      | inr (b, q) ↦
          let (es', er, eq) = bind_some rest _ es q in
          let (t, d, l) = parse_entries-Tiled seg size left (p + size) (cur + e.blocks) es' er in
          subst (λ l. Tiled cur l × Ended l × (length l ≤ suc left)) (some_inj.0 eq)
            ((refl, t), Ended-cons e es' b d, omega arith)
    ]

-- The header of an accepted segment.
abbrev pub HeaderFits : ℕ → Directory → Type 0
HeaderFits max_block dir =
    (1 ≤ dir.high_seg)
    × (dir.high_seg ≤ dir.segs_total)
    × (dir.segs_total ≤ 31)
    × (dir.extra_bytes ≤ 64)
    × (1 ≤ dir.data_start)
    × (dir.data_start ≤ max_block)

-- Entries of at least 14 bytes fit 72 times.
rounds_bound : (extra : ℕ) → (1024 - 10) / (14 + extra) < 73
rounds_bound extra = (div-lt_iff_lt-mul (omega arith)).1 (omega arith)

one_or_more : (n : ℕ) → n ≢ 0 → 1 ≤ n
one_or_more n h = omega arith

-- A segment that is accepted has a header in bounds and at most 72 entries, of which the last and only
-- the last is marked as the end; the first file starts at the block of the header, and each other file
-- where the one before it ends.
pub parse_segment-Tiled :
    (size : ℕ) (seg : Bytes) (max_block : ℕ) (dir : Directory)
    → parse_segment size seg max_block ≡ some dir
    → Tiled dir.data_start dir.entries
      × Ended dir.entries
      × (length dir.entries ≤ 72)
      × HeaderFits max_block dir
unfolding parse_segment
parse_segment-Tiled size seg max_block dir h =
    let seg_total = rd16 seg 0 in
    let seg_high = rd16 seg 4 in
    let extra = rd16 seg 6 in
    let data_blk = rd16 seg 8 in
    let (_, h1) = if_not (ltb size 1024) _ dir h in
    let (c2, h2) = if_not (seg_total == 0 || ltb 31 seg_total) _ dir h1 in
    let (c3, h3) = if_not (seg_high == 0 || ltb seg_total seg_high) _ dir h2 in
    let (c4, h4) = if_not (has_bit extra 0 || ltb 64 extra) _ dir h3 in
    let (c5, h5) = if_not (ltb data_blk 1 || ltb max_block data_blk) _ dir h4 in
    let (es, he, h6) =
      bind_some (parse_entries seg (14 + extra) ((1024 - 10) / (14 + extra)) 10 data_blk) _ dir
        h5 in
    let (t, d, l) =
      parse_entries-Tiled seg (14 + extra) ((1024 - 10) / (14 + extra)) 10 data_blk es he in
    let (_, t2) = or_false (seg_total == 0) (ltb 31 seg_total) c2 in
    let (z3, t3) = or_false (seg_high == 0) (ltb seg_total seg_high) c3 in
    let (_, t4) = or_false (has_bit extra 0) (ltb 64 extra) c4 in
    let (t5, t6) = or_false (ltb data_blk 1) (ltb max_block data_blk) c5 in
    subst
      (λ (x : Directory).
        Tiled x.data_start x.entries
        × Ended x.entries
        × (length x.entries ≤ 72)
        × HeaderFits max_block x)
      (some_inj.0 h6)
      (
        t,
        d,
        omega (arith, l, rounds_bound extra),
        (
          one_or_more seg_high (==_false→ne seg_high 0 z3),
          ltb_false→le seg_total seg_high t3,
          ltb_false→le 31 seg_total t2,
          ltb_false→le 64 extra t4,
          ltb_false→le data_blk 1 t5,
          ltb_false→le max_block data_blk t6,
        ),
      )
