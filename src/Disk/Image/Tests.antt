-- ===== src/Disk/Image/Tests.antt =====
-- Images of src/disk/src/Image.cpp that can be followed by hand.
use ms.Base.{◌+◌, ◌≡◌, ◌%◌, refl, arith, some, none, Bytes, ◌>>=◌, pos, false, true}
use ms.Disk.Layout.{lbn_to_byte_floppy}
use ms.Disk.Image.{split_double_sided, merge_sides}
use ms.Disk.Image.Merge.{merge_sides-split_double_sided, split_double_sided-block}

-- Other sizes are refused.
sizes_run :
    (split_double_sided 409600 (λ i. i) ≡ none)
    × (merge_sides 409600 (λ i. i) 819200 (λ i. i) ≡ none)
unfolding split_double_sided merge_sides
sizes_run = (refl, refl)

merge_sides-split_double_sided_example :
    (out : Bytes) × ((split_double_sided 819200 (λ i. i % 251) >>= λ s.
    merge_sides 409600 s.0 409600 s.1)
      ≡ some out)
    × (out 5121 ≡ 101)
merge_sides-split_double_sided_example =
    merge_sides-split_double_sided (λ i. i % 251) 5121 (omega arith)

split_double_sided-block_example :
    (s : Bytes × Bytes) × (split_double_sided 819200 (λ i. i % 251) ≡ some s)
    × ((s.0) (lbn_to_byte_floppy (pos 13) 0 false + 1)
        ≡ (lbn_to_byte_floppy (pos 13) 0 true + 1) % 251)
    × ((s.1) (lbn_to_byte_floppy (pos 13) 0 false + 1)
        ≡ (lbn_to_byte_floppy (pos 13) 1 true + 1) % 251)
split_double_sided-block_example =
    split_double_sided-block (λ i. i % 251) 13 1 (omega arith) (omega arith)
