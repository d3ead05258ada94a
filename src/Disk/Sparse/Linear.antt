-- ===== src/Disk/Sparse/Linear.antt =====
-- `toLinear` and `fromLinear` of src/disk/src/SparseVolume.cpp undo each other.
use ms.Base.{
  ℕ, ◌*◌, ◌<◌, ◌≡◌, refl, sym, ap, ap₂, ◌∙◌, arith, true, ltb, if◌then◌else◌, Bool-cases,
  Option-cases, lt→ltb, ltb_false→le, ltb→lt, List, inl, inr, Option, none, some, pos, length, drop,
  length-take, length-drop, replicate, All, find, find_above, All-find, map_ext,
}
use ms.Disk.Sparse.{SparseVolume, all_zero, read_block, to_linear, from_linear}
use ms.Disk.Sparse.Valid.{IsValid, Held, All-impl, zero_bytes}
use ms.Disk.Sparse.Rows.{join, chunk, join_ext, length-join, join-chunk}
use ms.Disk.Sparse.Laid.{to_linear-join, length-read_block, read-to_linear}
use ms.Disk.Sparse.Gathered.{kept, below_key, find-from_linear, from_linear-IsValid}

read-kept :
    (bs : List ℕ) (k : ℕ)
    → length (chunk bs k) ≡ 512
    → elim (kept bs k) [ none ↦ replicate 512 0 | some b ↦ b ] ≡ chunk bs k
read-kept bs k l = elim (Bool-cases (all_zero (chunk bs k))) [
  | inl z ↦ rw z (sym (zero_bytes (chunk bs k) z ∙ ap (λ n. replicate n 0) l))
  | inr z ↦ rw z refl
]

in_range : (k n : ℕ) (x : Option (List ℕ)) → ltb k n ≡ true → (if ltb k n then x else none) ≡ x
in_range k n x e = rw e refl

read_as :
    (v : SparseVolume) (k : ℕ) (o : Option (List ℕ))
    → find v.held k ≡ o
    → read_block v (pos k) ≡ elim o [ none ↦ replicate 512 0 | some b ↦ b ]
unfolding read_block
read_as v k o e = ap (λ o. elim o [ none ↦ replicate 512 0 | some b ↦ b ]) e

read-from_linear :
    (bs : List ℕ) (n k : ℕ)
    → length bs ≡ n * 512
    → k < n
    → read_block (from_linear bs) (pos k) ≡ chunk bs k
read-from_linear bs n k l h =
    read_as (from_linear bs) k (kept bs k)
      ((find-from_linear bs n k l).2 ∙ in_range k n (kept bs k) (lt→ltb k n h))
    ∙ read-kept bs k (omega (arith, length-take 512 (drop (k * 512) bs), length-drop (k * 512) bs))

-- A volume made from whole blocks laid end to end lays out as the same bytes.
pub to_linear-from_linear :
    (bs : List ℕ) (n : ℕ)
    → length bs ≡ n * 512
    → All (λ x. x < 256) bs
    → to_linear (from_linear bs) ≡ bs
to_linear-from_linear bs n l a =
    let f : ℕ → List ℕ = λ j. read_block (from_linear bs) (pos j) in
    to_linear-join (from_linear bs) (from_linear-IsValid bs n l a)
    ∙ ap (λ j. join f 0 j) ((find-from_linear bs n 0 l).0)
    ∙ join_ext f (chunk bs) 0 n (λ k _ h. read-from_linear bs n k l (omega arith))
    ∙ join-chunk bs n l

kept-read :
    (v : SparseVolume) (k : ℕ)
    → IsValid v
    → (if all_zero (read_block v (pos k)) then none else some (read_block v (pos k)))
      ≡ find v.held k
kept-read v k (r, a) =
    let keep : List ℕ → Option (List ℕ) = λ b. if all_zero b then none else some b in
    elim (Option-cases (find v.held k)) [
      | inl e ↦ ap keep (read_as v k none e) ∙ sym e
      | inr (b, e) ↦
          ap keep (read_as v k (some b) e)
          ∙ rw ((All-find (Held v.blocks) v.held k b a e).2) refl
          ∙ sym e
    ]

find-round_trip :
    (v : SparseVolume) (k : ℕ)
    → IsValid v
    → (if ltb k v.blocks then kept (to_linear v) k else none) ≡ find v.held k
find-round_trip v k (r, a) = elim (Bool-cases (ltb k v.blocks)) [
  | inl e ↦ rw e (rw ((read-to_linear v k (r, a) (ltb→lt k v.blocks e)).1) (kept-read v k (r, a)))
  | inr e ↦ rw e (
      sym (
        find_above v.held k (
          All-impl (Held v.blocks) (λ e. e.0 < k) v.held
            (below_key v.blocks k (ltb_false→le k v.blocks e)) a)))
]

-- A valid volume is what is made from its linear form: it holds no block of zeros.
pub from_linear-to_linear : (v : SparseVolume) → IsValid v → from_linear (to_linear v) ≡ v
from_linear-to_linear v i =
    let l =
      ap length (to_linear-join v i)
      ∙ length-join (λ j. read_block v (pos j)) 0 v.blocks (length-read_block v i) in
    let back = find-from_linear (to_linear v) v.blocks in
    ap₂ (λ b m. record { blocks = b; held = m }) ((back 0 l).0)
      (map_ext (from_linear (to_linear v)).held v.held 0 ((back 0 l).1) (i.0)
        (λ k. (back k l).2 ∙ find-round_trip v k i))
