-- ===== src/Disk/Sparse/Gathered.antt =====
-- `fromLinear` of src/disk/src/SparseVolume.cpp.
use ms.Base.{
  ℕ, zero, suc, ◌+◌, ◌*◌, ◌/◌, ◌≤◌, ◌<◌, ◌≡◌, refl, ◌∙◌, arith, ◌&&◌, ◌==◌, ltb, leb, if◌then◌else◌,
  Bool-cases, lt→leb_false, List, inl, inr, Option, none, some, pos, length, take, drop,
  length-take, length-drop, All-take, All-drop, All, find, Rising, put-Rising, erase-Rising,
  find-put, find-erase,
}
use ms.Disk.Sparse.{SparseVolume, all_zero, sparse_volume, write_block, take_blocks, from_linear}
use ms.Disk.Sparse.Valid.{IsValid, Held, write_block-IsValid}
use ms.Disk.Sparse.Rows.{chunk}

-- After one more block of `fromLinear`.
find-write_block :
    (v : SparseVolume) (j k : ℕ) (bytes : List ℕ)
    → j < v.blocks
    → Rising 0 v.held
    → find (write_block v (pos j) bytes).held k ≡ (
        if j == k
        then (if all_zero (take 512 bytes) then none else some (take 512 bytes))
        else find v.held k)
unfolding write_block
find-write_block v j k bytes h r =
    rw (lt→leb_false v.blocks j h) (elim (Bool-cases (all_zero (take 512 bytes))) [
      | inl z ↦ rw z (find-erase v.held j k)
      | inr z ↦ rw z (find-put v.held 0 j (take 512 bytes) k r)
    ])

-- What the loop of `fromLinear` holds at block `k` after it: its bytes unless they are all zero.
abbrev pub kept : List ℕ → ℕ → Option (List ℕ)
kept bs k = if all_zero (chunk bs k) then none else some (chunk bs k)

write_block-blocks :
    (v : SparseVolume) (j : ℕ) (bytes : List ℕ) → (write_block v (pos j) bytes).blocks ≡ v.blocks
unfolding write_block
write_block-blocks v j bytes = elim (Bool-cases (leb v.blocks j)) [
  | inl e ↦ rw e refl
  | inr e ↦
      rw e (elim (Bool-cases (all_zero (take 512 bytes))) [ inl z ↦ rw z refl | inr z ↦ rw z refl ])
]

write_block-Rising :
    (v : SparseVolume) (j : ℕ) (bytes : List ℕ)
    → Rising 0 v.held
    → Rising 0 (write_block v (pos j) bytes).held
unfolding write_block
write_block-Rising v j bytes r = elim (Bool-cases (leb v.blocks j)) [
  | inl e ↦ rw e r
  | inr e ↦ rw e (elim (Bool-cases (all_zero (take 512 bytes))) [
    | inl z ↦ rw z (erase-Rising v.held 0 j r)
    | inr z ↦ rw z (put-Rising v.held 0 j (take 512 bytes) r (omega arith))
  ])
]

none_taken :
    (lbn k : ℕ) (x y : Option (List ℕ)) → y ≡ (if leb lbn k && ltb k (lbn + 0) then x else y)
none_taken lbn k x y = ground arith

one_taken :
    (lbn left k : ℕ) (x : ℕ → Option (List ℕ)) (y w : Option (List ℕ))
    → w ≡ (if lbn == k then x lbn else y)
    → (if leb (lbn + 1) k && ltb k (lbn + 1 + left) then x k else w)
      ≡ (if leb lbn k && ltb k (lbn + suc left) then x k else y)
one_taken lbn left k x y w e = ground arith

take_blocks_lem :
    (bs : List ℕ) (left lbn : ℕ) (v : SparseVolume) (k : ℕ)
    → lbn + left ≤ v.blocks
    → Rising 0 v.held
    → ((take_blocks bs left lbn v).blocks ≡ v.blocks)
      × Rising 0 (take_blocks bs left lbn v).held
      × (find (take_blocks bs left lbn v).held k
          ≡ (if leb lbn k && ltb k (lbn + left) then kept bs k else find v.held k))
unfolding take_blocks
take_blocks_lem bs zero lbn v k h r = (refl, r, none_taken lbn k (kept bs k) (find v.held k))
take_blocks_lem bs (suc left) lbn v k h r =
    let v' = write_block v (pos lbn) (drop (lbn * 512) bs) in
    let hb = write_block-blocks v lbn (drop (lbn * 512) bs) in
    let (eb, er, ef) =
      take_blocks_lem bs left (lbn + 1) v' k (omega arith)
        (write_block-Rising v lbn (drop (lbn * 512) bs) r) in
    (
      eb ∙ hb,
      er,
      ef
          ∙ one_taken lbn left k (kept bs) (find v.held k) (find v'.held k)
              (find-write_block v lbn k (drop (lbn * 512) bs) (omega arith) r),
    )

from_zero :
    (k m n : ℕ) (x : Option (List ℕ))
    → m ≡ n
    → (if leb 0 k && ltb k (0 + m) then x else none) ≡ (if ltb k n then x else none)
from_zero k m n x e = ground arith

pub below_key : (n k : ℕ) → n ≤ k → (e : ℕ × List ℕ) → Held n e → e.0 < k
below_key n k h e (p, q, z) = omega arith

pub find-from_linear :
    (bs : List ℕ) (n k : ℕ)
    → length bs ≡ n * 512
    → ((from_linear bs).blocks ≡ n)
      × Rising 0 (from_linear bs).held
      × (find (from_linear bs).held k ≡ (if ltb k n then kept bs k else none))
unfolding from_linear
find-from_linear bs n k l =
    let m = length bs / 512 in
    let e : m ≡ n = omega arith in
    let (eb, er, ef) = take_blocks_lem bs m 0 (sparse_volume (pos m)) k (omega arith) tt in
    (eb ∙ e, er, ef ∙ from_zero k m n (kept bs k) e)

take_blocks-IsValid :
    (bs : List ℕ) (left lbn : ℕ) (v : SparseVolume)
    → (lbn + left) * 512 ≤ length bs
    → All (λ x. x < 256) bs
    → IsValid v
    → IsValid (take_blocks bs left lbn v)
unfolding take_blocks
take_blocks-IsValid bs zero lbn v h a i = i
take_blocks-IsValid bs (suc left) lbn v h a i =
    let rest = drop (lbn * 512) bs in
    take_blocks-IsValid bs left (lbn + 1) (write_block v (pos lbn) rest) (omega arith) a (
      write_block-IsValid v (pos lbn) rest
        (
          omega (arith, length-take 512 rest, length-drop (lbn * 512) bs),
          All-take (λ x. x < 256) 512 rest (All-drop (λ x. x < 256) (lbn * 512) bs a),
        )
        i)

pub from_linear-IsValid :
    (bs : List ℕ) (n : ℕ) → length bs ≡ n * 512 → All (λ x. x < 256) bs → IsValid (from_linear bs)
unfolding from_linear
from_linear-IsValid bs n l a =
    let m = length bs / 512 in
    take_blocks-IsValid bs m 0 (sparse_volume (pos m)) (omega arith) a (tt, tt)
