-- ===== src/Disk/Sparse/Laid.antt =====
-- `toLinear` of src/disk/src/SparseVolume.cpp.
use ms.Base.{
  ℕ, ◌+◌, ◌*◌, ◌<◌, ◌≡◌, refl, ap, ◌∙◌, arith, Option-cases, List, [], ◌∷◌, inl, inr, none, some,
  pos, length, take, drop, replicate, All, Map, find, Rising, find_below_floor, All-find,
}
use ms.Disk.Sparse.{SparseVolume, read_block, lay_blocks, to_linear}
use ms.Disk.Sparse.Valid.{IsValid, Held}
use ms.Disk.Sparse.Rows.{
  join, chunk, join_ext, chunk-join, length-join, set_block, copy_block-join, zeros-join,
}

-- What lies at each place after the blocks of a map are laid over a row.
abbrev over : (ℕ → List ℕ) → Map (List ℕ) → ℕ → List ℕ
over f m i = elim (find m i) [ none ↦ f i | some b ↦ b ]

over_first :
    (f : ℕ → List ℕ) (k : ℕ) (b : List ℕ) (m : Map (List ℕ)) (i : ℕ)
    → Rising (k + 1) m
    → over (set_block f k b) m i ≡ over f ((k, b) ∷ m) i
over_first f k b m i r = ground (arith, find_below_floor m (k + 1) i r)

length-set_block :
    (f : ℕ → List ℕ) (k : ℕ) (b : List ℕ)
    → ((j : ℕ) → length (f j) ≡ 512)
    → length b ≡ 512
    → (j : ℕ) → length (set_block f k b j) ≡ 512
length-set_block f k b l lb j = ground (arith, l j)

lay_blocks-join :
    (f : ℕ → List ℕ) (n g : ℕ) (m : Map (List ℕ))
    → ((j : ℕ) → length (f j) ≡ 512)
    → Rising g m
    → All (Held n) m
    → lay_blocks m (join f 0 n) ≡ join (over f m) 0 n
unfolding lay_blocks
lay_blocks-join f n g [] l r a = refl
lay_blocks-join f n g ((k, b) ∷ m) l (q, r) ((h, (lb, c), z), a) =
    ap (lay_blocks m)
      (copy_block-join f 0 n k b l lb h ∙ ap (λ j. join (set_block f j b) 0 n) (omega arith))
    ∙ lay_blocks-join (set_block f k b) n (k + 1) m (length-set_block f k b l lb) r a
    ∙ join_ext (over (set_block f k b) m) (over f ((k, b) ∷ m)) 0 n
        (λ i _ _. over_first f k b m i r)

-- `toLinear` lays out every block as it reads: block `k` of the volume at byte 512 * `k`.
pub to_linear-join :
    (v : SparseVolume) → IsValid v → to_linear v ≡ join (λ i. read_block v (pos i)) 0 v.blocks
unfolding to_linear read_block
to_linear-join v (r, a) =
    ap (lay_blocks v.held) (zeros-join 0 v.blocks)
    ∙ lay_blocks-join (λ _. replicate 512 0) v.blocks 0 v.held (λ _. refl) r a

pub length-read_block :
    (v : SparseVolume) → IsValid v → (k : ℕ) → length (read_block v (pos k)) ≡ 512
unfolding read_block
length-read_block v (r, a) k = elim (Option-cases (find v.held k)) [
  | inl e ↦ rw (e, length) refl
  | inr (b, e) ↦ rw (e, length) ((All-find (Held v.blocks) v.held k b a e).1.0)
]

-- The linear form of a valid volume has 512 bytes for each block of the volume, and those of a
-- block are what the block reads as.
pub read-to_linear :
    (v : SparseVolume) (k : ℕ)
    → IsValid v
    → k < v.blocks
    → (length (to_linear v) ≡ v.blocks * 512)
      × (take 512 (drop (k * 512) (to_linear v)) ≡ read_block v (pos k))
read-to_linear v k i h =
    let f : ℕ → List ℕ = λ j. read_block v (pos j) in
    let l = length-read_block v i in
    (
      ap length (to_linear-join v i) ∙ length-join f 0 v.blocks l,
      ap (λ bs. chunk bs k) (to_linear-join v i)
          ∙ chunk-join f 0 v.blocks k l h
          ∙ ap f (omega arith),
    )
