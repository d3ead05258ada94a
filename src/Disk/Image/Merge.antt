-- ===== src/Disk/Image/Merge.antt =====
-- `splitDoubleSided` and `mergeSides` of src/disk/src/Image.cpp undo each other, and a block of a side
-- is the same block of the image that was split.
use ms.Base.{
  ℕ, zero, suc, ◌+◌, ◌-◌, ◌*◌, ◌/◌, ◌%◌, ◌<◌, ◌≤◌, ◌≡◌, ◌≢◌, inl, inr, Bool-cases, lt→ltb, ltb→lt,
  le→ltb_false, ltb_false→le, ==→eq, ==_false→ne, refl, ap, ◌∙◌, arith, some, ◌==◌, ltb, leb, ◌&&◌,
  if◌then◌else◌, Bytes, true, false, ◌>>=◌, pos,
}
use ms.Disk.Image.{copy_n, split_tracks, split_double_sided, merge_track, merge_tracks, merge_sides}
use ms.Disk.Image.Sides.{
  on_side, none_done, one_done, copy_n-in, copy_n-before, copy_n-after, split_tracks-side,
}
use ms.Disk.Layout.{lbn_to_byte_floppy}
use ms.Disk.Layout.Floppy.{floppy-double, phys-floppy}

-- What byte `i` of the image of two sides is.
abbrev whole : Bytes → Bytes → ℕ → ℕ
whole a b i =
    if ltb (i % 10240) 5120
    then a (i / 10240 * 5120 + i % 10240)
    else b (i / 10240 * 5120 + (i % 10240 - 5120))

other_track : (q t i : ℕ) → q ≢ t → q ≡ i / 10240 → t * 10240 ≤ i → t * 10240 + 5120 + 5120 ≤ i
other_track q t i n e h = omega arith

merge_track-whole :
    (a b ds : Bytes) (t i : ℕ)
    → merge_track a b t ds i ≡ (if i / 10240 == t then whole a b i else ds i)
unfolding merge_track
merge_track-whole a b ds t i =
    let at = t * 2 * 5120 in
    let inner : Bytes = copy_n a (t * 5120) 5120 ds at in
    elim (Bool-cases (i / 10240 == t)) [
      | inl h ↦ rw h (
          let q = ==→eq (i / 10240) t h in
          elim (Bool-cases (ltb (i % 10240) 5120)) [
            | inl l ↦
                let l' = ltb→lt (i % 10240) 5120 l in
                copy_n-before b inner (t * 5120) 5120 (at + 5120) i (omega arith)
                ∙ copy_n-in a ds (t * 5120) 5120 at i (i / 10240 * 5120 + i % 10240) (omega arith)
                    (omega arith) (omega arith)
                ∙ rw l refl
            | inr l ↦
                let l' = ltb_false→le (i % 10240) 5120 l in
                copy_n-in b inner (t * 5120) 5120 (at + 5120) i
                  (i / 10240 * 5120 + (i % 10240 - 5120)) (omega arith) (omega arith) (omega arith)
                ∙ rw l refl
          ])
      | inr h ↦ rw h (
          let n = ==_false→ne (i / 10240) t h in
          elim (Bool-cases (ltb i at)) [
            | inl l ↦
                let l' = ltb→lt i at l in
                copy_n-before b inner (t * 5120) 5120 (at + 5120) i (omega arith)
                ∙ copy_n-before a ds (t * 5120) 5120 at i l'
            | inr l ↦
                let l' = ltb_false→le i at l in
                let far = other_track (i / 10240) t i n refl (omega arith) in
                copy_n-after b inner (t * 5120) 5120 (at + 5120) i (omega arith)
                ∙ copy_n-after a ds (t * 5120) 5120 at i (omega arith)
          ])
    ]

merge_tracks-whole :
    (a b : Bytes) (left t : ℕ) (ds : Bytes) (i : ℕ)
    → merge_tracks a b left t ds i
      ≡ (if leb t (i / 10240) && ltb (i / 10240) (t + left) then whole a b i else ds i)
unfolding merge_tracks
merge_tracks-whole a b zero t ds i = none_done t (i / 10240) _ _
merge_tracks-whole a b (suc left) t ds i =
    merge_tracks-whole a b left (t + 1) (merge_track a b t ds) i
    ∙ one_done t left (i / 10240) (whole a b i) (ds i) (merge_track a b t ds i)
        (merge_track-whole a b ds t i)

all_tracks : (k x y : ℕ) → k < 80 → (if leb 0 k && ltb k (0 + 80) then x else y) ≡ x
all_tracks k x y h = ground arith

abbrev sides : Bytes → Bytes × Bytes
sides ds = split_tracks ds 80 0 ((λ _. 0), (λ _. 0))

side_bytes :
    (ds : Bytes) (i : ℕ)
    → i < 409600
    → (((sides ds).0) i ≡ ds (on_side 0 i)) × (((sides ds).1) i ≡ ds (on_side 1 i))
side_bytes ds i h =
    let (e0, e1) = split_tracks-side ds 80 0 ((λ _. 0), (λ _. 0)) i in
    (
      e0 ∙ all_tracks (i / 5120) (ds (on_side 0 i)) 0 (omega arith),
      e1 ∙ all_tracks (i / 5120) (ds (on_side 1 i)) 0 (omega arith),
    )

abbrev merged : Bytes → Bytes → Bytes
merged a b = merge_tracks a b 80 0 (λ _. 0)

merged_byte : (a b : Bytes) (i : ℕ) → i < 819200 → merged a b i ≡ whole a b i
merged_byte a b i h =
    merge_tracks-whole a b 80 0 (λ _. 0) i ∙ all_tracks (i / 10240) (whole a b i) 0 (omega arith)

-- Splitting an image of 819200 bytes and merging its sides succeeds and gives every byte back.
pub merge_sides-split_double_sided :
    (ds : Bytes) (i : ℕ)
    → i < 819200
    → (out : Bytes) × ((split_double_sided 819200 ds >>= λ s. merge_sides 409600 s.0 409600 s.1)
        ≡ some out)
      × (out i ≡ ds i)
unfolding split_double_sided merge_sides
merge_sides-split_double_sided ds i h = (
  merged (sides ds).0 (sides ds).1,
  refl,
  merged_byte (sides ds).0 (sides ds).1 i h ∙ elim (Bool-cases (ltb (i % 10240) 5120)) [
    | inl l ↦
        let l' = ltb→lt (i % 10240) 5120 l in
        rw l ((side_bytes ds (i / 10240 * 5120 + i % 10240) (omega arith)).0 ∙ ap ds (omega arith))
    | inr l ↦
        let l' = ltb_false→le (i % 10240) 5120 l in
        rw l (
          (side_bytes ds (i / 10240 * 5120 + (i % 10240 - 5120)) (omega arith)).1
          ∙ ap ds (omega arith))
  ],
)

on_side-whole :
    (a b : Bytes) (i : ℕ) → (whole a b (on_side 0 i) ≡ a i) × (whole a b (on_side 1 i) ≡ b i)
on_side-whole a b i = (
  rw (lt→ltb (on_side 0 i % 10240) 5120 (omega arith)) (ap a (omega arith)),
  rw (le→ltb_false (on_side 1 i % 10240) 5120 (omega arith)) (ap b (omega arith)),
)

-- Merging two sides of 409600 bytes and splitting the image succeeds and gives every byte of both back.
pub split_double_sided-merge_sides :
    (a b : Bytes) (i : ℕ)
    → i < 409600
    → (out : Bytes × Bytes) × ((merge_sides 409600 a 409600 b >>= split_double_sided 819200)
        ≡ some out)
      × ((out.0) i ≡ a i)
      × ((out.1) i ≡ b i)
unfolding split_double_sided merge_sides
split_double_sided-merge_sides a b i h =
    let (e0, e1) = side_bytes (merged a b) i h in
    let (f0, f1) = on_side-whole a b i in
    (
      sides (merged a b),
      refl,
      e0 ∙ merged_byte a b (on_side 0 i) (omega arith) ∙ f0,
      e1 ∙ merged_byte a b (on_side 1 i) (omega arith) ∙ f1,
    )

-- A block of a side of a double-sided image is, byte for byte, the block of the same number of the
-- single-sided image that splitting gives for that side.
pub split_double_sided-block :
    (ds : Bytes) (n j : ℕ)
    → n < 800
    → j < 512
    → (s : Bytes × Bytes) × (split_double_sided 819200 ds ≡ some s)
      × ((s.0) (lbn_to_byte_floppy (pos n) 0 false + j)
          ≡ ds (lbn_to_byte_floppy (pos n) 0 true + j))
      × ((s.1) (lbn_to_byte_floppy (pos n) 0 false + j)
          ≡ ds (lbn_to_byte_floppy (pos n) 1 true + j))
unfolding split_double_sided
split_double_sided-block ds n j h hj =
    let off = lbn_to_byte_floppy (pos n) 0 false in
    let (_, whole_block, inside) = phys-floppy n h in
    let (s0, o0, _) = floppy-double n 0 h (omega arith) in
    let (s1, o1, _) = floppy-double n 1 h (omega arith) in
    let (e0, e1) = side_bytes ds (off + j) (omega arith) in
    (sides ds, refl, e0 ∙ ap ds (omega arith), e1 ∙ ap ds (omega arith))
