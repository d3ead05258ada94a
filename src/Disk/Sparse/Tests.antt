-- ===== src/Disk/Sparse/Tests.antt =====
-- Volumes of src/disk/src/SparseVolume.cpp that can be followed by hand.
use ms.Base.{
  ℕ, ◌<◌, ◌≡◌, refl, arith, Bool, true, ◌&&◌, ltb, List, [], ◌∷◌, ◌++◌, inl, inr, pos, negsuc,
  replicate, drop, All, Rising,
}
use ms.Disk.Sparse.{
  SparseVolume, Refusal, sparse_volume, serialize, serialize_blocks, parse, parse_blocks,
  write_block, clear_block, resize, to_linear, from_linear,
}
use ms.Disk.Sparse.Valid.{IsValid, Op, run_ops, run_ops-IsValid}
use ms.Disk.Sparse.Serial.{Stored, parse-serialize}
use ms.Disk.Sparse.Parse.{serialize-parse}
use ms.Disk.Sparse.Linear.{to_linear-from_linear, from_linear-to_linear}

all_small : List ℕ → Bool
all_small [] = true
all_small (b ∷ bs) = ltb b 256 && all_small bs

small_bytes : (bs : List ℕ) → all_small bs ≡ true → All (λ x. x < 256) bs
unfolding all_small
small_bytes [] e = tt
small_bytes (b ∷ bs) e = (ground arith, small_bytes bs (ground arith))

abbrev one_block : List ℕ
one_block = 7 ∷ replicate 511 0

-- Three blocks, of which the second is held.
abbrev three_blocks : SparseVolume
three_blocks = record { blocks = 3; held = (1, one_block) ∷ [] }

one_block_small : All (λ x. x < 256) one_block
unfolding all_small
one_block_small = small_bytes one_block refl

three_blocks-IsValid : IsValid three_blocks
three_blocks-IsValid = ((omega arith, tt), ((omega arith, (refl, one_block_small), refl), tt))

abbrev empty_form : List ℕ
empty_form =
    77 ∷ 83 ∷ 48 ∷ 53 ∷ 49 ∷ 53 ∷ 83 ∷ 86 ∷ 1 ∷ 0 ∷ 0 ∷ 2 ∷ 3 ∷ 0 ∷ 0 ∷ 0 ∷ 0 ∷ 0 ∷ 0 ∷ 0 ∷ []

-- An empty volume of three blocks, and what `parse` refuses.
forms_run :
    (serialize (sparse_volume (pos 3)) ≡ empty_form)
    × (parse empty_form ≡ inr (sparse_volume (pos 3)))
    × (parse (drop 1 empty_form) ≡ inl Refusal.not_sparse)
    × (parse (empty_form ++ (0 ∷ [])) ≡ inl Refusal.wrong_count)
unfolding serialize serialize_blocks parse parse_blocks
forms_run = (refl, refl, refl, refl)

writes_run :
    (write_block (sparse_volume (pos 3)) (pos 1) one_block ≡ three_blocks)
    × (write_block three_blocks (pos 3) one_block ≡ three_blocks)
    × (write_block three_blocks (negsuc 0) one_block ≡ three_blocks)
    × (write_block three_blocks (pos 1) (replicate 512 0) ≡ sparse_volume (pos 3))
    × (clear_block three_blocks (pos 1) ≡ sparse_volume (pos 3))
    × (resize three_blocks (pos 1) ≡ sparse_volume (pos 1))
    × (resize three_blocks (negsuc 4) ≡ sparse_volume (pos 0))
unfolding write_block clear_block resize
writes_run = (refl, refl, refl, refl, refl, refl, refl)

parse-serialize_example : parse (serialize three_blocks) ≡ inr three_blocks
parse-serialize_example = parse-serialize three_blocks three_blocks-IsValid (omega arith)

empty_form_small : All (λ x. x < 256) empty_form
unfolding all_small
empty_form_small = small_bytes empty_form refl

parse-empty_form : parse empty_form ≡ inr (sparse_volume (pos 3))
unfolding parse parse_blocks
parse-empty_form = refl

serialize-parse_example :
    (serialize (sparse_volume (pos 3)) ≡ empty_form) × Rising {A = List ℕ} 0 [] × All (Stored 3) []
serialize-parse_example =
    serialize-parse empty_form (sparse_volume (pos 3)) empty_form_small parse-empty_form

run_ops-IsValid_example : IsValid (
    run_ops three_blocks (Op.write (pos 2) one_block ∷ Op.set_size (pos 2) ∷ Op.clear (pos 0) ∷ []))
run_ops-IsValid_example =
    run_ops-IsValid three_blocks
      (Op.write (pos 2) one_block ∷ Op.set_size (pos 2) ∷ Op.clear (pos 0) ∷ [])
      ((refl, one_block_small), (tt, (tt, tt))) three_blocks-IsValid

to_linear-from_linear_example : to_linear (from_linear one_block) ≡ one_block
to_linear-from_linear_example = to_linear-from_linear one_block 1 refl one_block_small

from_linear-to_linear_example : from_linear (to_linear three_blocks) ≡ three_blocks
from_linear-to_linear_example = from_linear-to_linear three_blocks three_blocks-IsValid
