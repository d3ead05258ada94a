-- ===== src/Disk/Sparse/Valid.antt =====
-- What src/disk/src/SparseVolume.cpp keeps true of its map of blocks, and what a block reads as
-- after each operation.
use ms.Base.{
  ℕ, zero, suc, ap, ap₂, ◌<◌, ◌≡◌, refl, subst, ◌∙◌, arith, true, false, ◌&&◌, ◌==◌, ltb, leb,
  leb_false→lt, lt→ltb, if◌then◌else◌, Bool-cases, List, [], ◌∷◌, inl, inr, Option, none, some, ℤ,
  pos, negsuc, length, take, replicate, All, find, below, Rising, put-Rising, erase-Rising,
  below-Rising, put-All, erase-All, below-All, below_keys, find-put, find-erase, find-below,
}
use ms.Disk.Sparse.{SparseVolume, all_zero, clamp, read_block, write_block, clear_block, resize}

-- The bytes of one block.
abbrev pub IsBlock : List ℕ → Type 0
IsBlock b = (length b ≡ 512) × All (λ x. x < 256) b

-- A block that is held: in range, a block, and not all zeros.
abbrev pub Held : ℕ → ℕ × List ℕ → Type 0
Held n e = (e.0 < n) × IsBlock e.1 × (all_zero e.1 ≡ false)

abbrev pub IsValid : SparseVolume → Type 0
IsValid v = Rising 0 v.held × All (Held v.blocks) v.held

-- A change of a volume.
pub data Op : Type 0 where
  write : ℤ → List ℕ → Op
  clear : ℤ → Op
  set_size : ℤ → Op

unfoldable pub step : SparseVolume → Op → SparseVolume
step v (Op.write lbn bytes) = write_block v lbn bytes
step v (Op.clear lbn) = clear_block v lbn
step v (Op.set_size n) = resize v n

abbrev pub run_ops : SparseVolume → List Op → SparseVolume
run_ops v [] = v
run_ops v (op ∷ ops) = run_ops (step v op) ops

-- What is written is at least a block of bytes.
abbrev pub WellFormed : Op → Type 0
WellFormed (Op.write lbn bytes) = IsBlock (take 512 bytes)
WellFormed (Op.clear lbn) = Unit
WellFormed (Op.set_size n) = Unit

pub write_block-IsValid :
    (v : SparseVolume) (lbn : ℤ) (bytes : List ℕ)
    → IsBlock (take 512 bytes)
    → IsValid v
    → IsValid (write_block v lbn bytes)
unfolding write_block
write_block-IsValid v (negsuc k) bytes w i = i
write_block-IsValid v (pos k) bytes w (r, a) = elim (Bool-cases (leb v.blocks k)) [
  | inl e ↦ rw e ((r, a))
  | inr e ↦ rw e (elim (Bool-cases (all_zero (take 512 bytes))) [
    | inl z ↦ rw z ((erase-Rising v.held 0 k r, erase-All (Held v.blocks) v.held k a))
    | inr z ↦ rw z (
        (
          put-Rising v.held 0 k (take 512 bytes) r (omega arith),
          put-All (Held v.blocks) v.held k (take 512 bytes) a (leb_false→lt v.blocks k e, w, z),
        ))
  ])
]

pub All-impl {ℓ κ κ'} :
    {A : Type ℓ} (P : A → Type κ) (Q : A → Type κ') (xs : List A)
    → ((x : A) → P x → Q x)
    → All P xs
    → All Q xs
All-impl P Q [] f a = tt
All-impl P Q (x ∷ xs) f (p, a) = (f x p, All-impl P Q xs f a)

pub All-both {ℓ κ κ'} :
    {A : Type ℓ} (P : A → Type κ) (Q : A → Type κ') (xs : List A)
    → All P xs
    → All Q xs
    → All (λ x. P x × Q x) xs
All-both P Q [] a b = tt
All-both P Q (x ∷ xs) (p, a) (q, b) = ((p, q), All-both P Q xs a b)

shrink : (m n : ℕ) (e : ℕ × List ℕ) → (e.0 < m) × Held n e → Held m e
shrink m n e (l, (l', b, z)) = (l, b, z)

resize-IsValid : (v : SparseVolume) (n : ℤ) → IsValid v → IsValid (resize v n)
unfolding resize
resize-IsValid v n (r, a) = (
  below-Rising v.held 0 (clamp n) r,
  All-impl (λ e. (e.0 < clamp n) × Held v.blocks e) (Held (clamp n)) (below v.held (clamp n))
      (shrink (clamp n) v.blocks)
      (All-both (λ e. e.0 < clamp n) (Held v.blocks) (below v.held (clamp n))
        (below_keys v.held (clamp n)) (below-All (Held v.blocks) v.held (clamp n) a)),
)

step-IsValid : (v : SparseVolume) (op : Op) → WellFormed op → IsValid v → IsValid (step v op)
unfolding step clear_block
step-IsValid v (Op.write lbn bytes) w i = write_block-IsValid v lbn bytes w i
step-IsValid v (Op.clear (pos k)) w (r, a) =
    (erase-Rising v.held 0 k r, erase-All (Held v.blocks) v.held k a)
step-IsValid v (Op.clear (negsuc k)) w i = i
step-IsValid v (Op.set_size n) w i = resize-IsValid v n i

-- Whatever is written, cleared or resized, in any order: the blocks held stand in rising order of
-- their numbers, each below the size of the volume, and none is all zeros.
pub run_ops-IsValid :
    (v : SparseVolume) (ops : List Op) → All WellFormed ops → IsValid v → IsValid (run_ops v ops)
run_ops-IsValid v [] w i = i
run_ops-IsValid v (op ∷ ops) (w, ws) i = run_ops-IsValid (step v op) ops ws (step-IsValid v op w i)

pub zero_bytes : (bs : List ℕ) → all_zero bs ≡ true → bs ≡ replicate (length bs) 0
zero_bytes [] z = refl
zero_bytes (b ∷ bs) z = ap₂ ◌∷◌ (ground arith) (zero_bytes bs (ground arith))

pub take_all : (bs : List ℕ) (n : ℕ) → length bs ≡ n → take n bs ≡ bs
take_all [] zero e = refl
take_all [] (suc n) e = refl
take_all (b ∷ bs) zero e = absurd (omega arith)
take_all (b ∷ bs) (suc n) e = ap (λ l. b ∷ l) (take_all bs n (omega arith))

zero_block : (bs : List ℕ) → length bs ≡ 512 → all_zero (take 512 bs) ≡ true → bs ≡ replicate 512 0
zero_block bs e z =
    let f = take_all bs 512 e in
    zero_bytes bs (subst (λ l. all_zero l ≡ true) f z) ∙ ap (λ n. replicate n 0) e

read_found :
    (o : Option (List ℕ)) (j k n : ℕ) (bytes : List ℕ)
    → j < n
    → elim (if j == k then some bytes else o) [ none ↦ replicate 512 0 | some b ↦ b ]
      ≡ (if (j == k) && ltb j n then bytes else elim o [ none ↦ replicate 512 0 | some b ↦ b ])
read_found o j k n bytes h =
    rw (lt→ltb j n h) (elim (Bool-cases (j == k)) [ inl e ↦ rw e refl | inr e ↦ rw e refl ])

-- After a block is written, that block reads back as its bytes (all zeros included) if it lies in
-- the volume; every other block, and all of them after a write outside, read as before.
pub read_block-write_block :
    (v : SparseVolume) (j k : ℕ) (bytes : List ℕ)
    → length bytes ≡ 512
    → IsValid v
    → read_block (write_block v (pos j) bytes) (pos k)
      ≡ (if (j == k) && ltb j v.blocks then bytes else read_block v (pos k))
unfolding write_block read_block
read_block-write_block v j k bytes w (r, a) = elim (Bool-cases (leb v.blocks j)) [
  | inl e ↦ rw e (ground arith)
  | inr e ↦ rw e (elim (Bool-cases (all_zero (take 512 bytes))) [
    | inl z ↦ rw z (ground (arith, find-erase v.held j k, zero_block bytes w z))
    | inr z ↦ rw z (
        rw (find-put v.held 0 j (take 512 bytes) k r) (
          rw (take_all bytes 512 w)
            (read_found (find v.held k) j k v.blocks bytes (leb_false→lt v.blocks j e))))
  ])
]

-- After a resize, a block below the new size reads as before, and the others as zeros.
pub read_block-resize :
    (v : SparseVolume) (n : ℤ) (k : ℕ)
    → IsValid v
    → read_block (resize v n) (pos k)
      ≡ (if ltb k (clamp n) then read_block v (pos k) else replicate 512 0)
unfolding read_block resize
read_block-resize v n k (r, a) = ground (arith, find-below v.held 0 (clamp n) k r)
