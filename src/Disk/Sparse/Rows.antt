-- ===== src/Disk/Sparse/Rows.antt =====
-- Blocks laid end to end, for `toLinear` and `fromLinear` of src/disk/src/SparseVolume.cpp.
use ms.Base.{
  ℕ, zero, suc, ◌+◌, ◌*◌, ◌≤◌, ◌<◌, ◌≡◌, refl, sym, ap, ap₂, ◌∙◌, arith, ◌==◌, if◌then◌else◌, List,
  [], ◌∷◌, ◌++◌, length, take, drop, take-append, drop-append, length-append, take-append-drop,
  drop-drop, append_assoc, replicate,
}
use ms.Disk.Sparse.{copy_block}
use ms.Disk.Sparse.Valid.{take_all}

-- Blocks `i`, `i + 1`, … laid end to end.
abbrev pub join : (ℕ → List ℕ) → ℕ → ℕ → List ℕ
join f i zero = []
join f i (suc n) = f i ++ join f (i + 1) n

abbrev pub chunk : List ℕ → ℕ → List ℕ
chunk bs k = take 512 (drop (k * 512) bs)

pub join_ext :
    (f g : ℕ → List ℕ) (i n : ℕ)
    → ((k : ℕ) → i ≤ k → k < i + n → f k ≡ g k)
    → join f i n ≡ join g i n
join_ext f g i zero h = refl
join_ext f g i (suc n) h =
    ap₂ ◌++◌ (h i (omega arith) (omega arith))
      (join_ext f g (i + 1) n (λ k p q. h k (omega arith) (omega arith)))

take_past :
    (xs ys : List ℕ) (n j k : ℕ) → length xs ≡ n → j ≡ n + k → take j (xs ++ ys) ≡ xs ++ take k ys
take_past [] ys n j k l e = ap (λ i. take i ys) (omega arith)
take_past (x ∷ xs) ys n zero k l e = absurd (omega arith)
take_past (x ∷ xs) ys zero (suc j) k l e = absurd (omega arith)
take_past (x ∷ xs) ys (suc n) (suc j) k l e =
    ap (λ t. x ∷ t) (take_past xs ys n j k (omega arith) (omega arith))

drop_past : (xs ys : List ℕ) (n j k : ℕ) → length xs ≡ n → j ≡ n + k → drop j (xs ++ ys) ≡ drop k ys
drop_past [] ys n j k l e = ap (λ i. drop i ys) (omega arith)
drop_past (x ∷ xs) ys n zero k l e = absurd (omega arith)
drop_past (x ∷ xs) ys zero (suc j) k l e = absurd (omega arith)
drop_past (x ∷ xs) ys (suc n) (suc j) k l e = drop_past xs ys n j k (omega arith) (omega arith)

-- One block of the row.
pub chunk-join :
    (f : ℕ → List ℕ) (i n k : ℕ)
    → ((j : ℕ) → length (f j) ≡ 512)
    → k < n
    → chunk (join f i n) k ≡ f (i + k)
chunk-join f i zero k l h = absurd (omega arith)
chunk-join f i (suc n) zero l h =
    take-append (f i) (join f (i + 1) n) 512 (l i) ∙ ap f (omega arith)
chunk-join f i (suc n) (suc k) l h =
    ap (take 512)
      (drop_past (f i) (join f (i + 1) n) 512 (suc k * 512) (k * 512) (l i) (omega arith))
    ∙ chunk-join f (i + 1) n k l (omega arith)
    ∙ ap f (omega arith)

pub length-join :
    (f : ℕ → List ℕ) (i n : ℕ) → ((j : ℕ) → length (f j) ≡ 512) → length (join f i n) ≡ n * 512
length-join f i zero l = omega arith
length-join f i (suc n) l =
    omega (arith, length-append (f i) (join f (i + 1) n), l i, length-join f (i + 1) n l)

drop_end : (bs : List ℕ) (n : ℕ) → length bs ≤ n → drop n bs ≡ []
drop_end [] zero h = refl
drop_end [] (suc n) h = refl
drop_end (b ∷ bs) zero h = absurd (omega arith)
drop_end (b ∷ bs) (suc n) h = drop_end bs n (omega arith)

join_rest :
    (bs : List ℕ) (i n : ℕ) → length bs ≡ (i + n) * 512 → join (chunk bs) i n ≡ drop (i * 512) bs
join_rest bs i zero l = sym (drop_end bs (i * 512) (omega arith))
join_rest bs i (suc n) l =
    ap (λ r. chunk bs i ++ r)
      (join_rest bs (i + 1) n (omega arith)
        ∙ sym (drop-drop bs (i * 512) 512 ((i + 1) * 512) (omega arith)))
    ∙ take-append-drop 512 (drop (i * 512) bs)

-- A list of whole blocks is its chunks end to end.
pub join-chunk : (bs : List ℕ) (n : ℕ) → length bs ≡ n * 512 → join (chunk bs) 0 n ≡ bs
join-chunk bs n l = join_rest bs 0 n (omega arith)

abbrev pub set_block : (ℕ → List ℕ) → ℕ → List ℕ → ℕ → List ℕ
set_block f k b i = if i == k then b else f i

set_at : (f : ℕ → List ℕ) (i k : ℕ) (b : List ℕ) → i ≡ k → set_block f k b i ≡ b
set_at f i k b e = ground arith

set_after : (f : ℕ → List ℕ) (i k : ℕ) (b : List ℕ) → k < i → set_block f k b i ≡ f i
set_after f i k b h = ground arith

set_before : (f : ℕ → List ℕ) (i k : ℕ) (b : List ℕ) → i < k → set_block f k b i ≡ f i
set_before f i k b h = ground arith

copy_past :
    (xs ys : List ℕ) (j k : ℕ) (b : List ℕ)
    → length xs ≡ 512
    → j ≡ 512 + k
    → copy_block (xs ++ ys) j b ≡ xs ++ copy_block ys k b
copy_past xs ys j k b l e =
    ap₂ (λ s t. s ++ (take 512 b ++ t)) (take_past xs ys 512 j k l e)
      (drop_past xs ys 512 (j + 512) (k + 512) l (omega arith))
    ∙ append_assoc xs (take k ys) (take 512 b ++ drop (k + 512) ys)

pub copy_block-join :
    (f : ℕ → List ℕ) (i n k : ℕ) (b : List ℕ)
    → ((j : ℕ) → length (f j) ≡ 512)
    → length b ≡ 512
    → k < n
    → copy_block (join f i n) (k * 512) b ≡ join (set_block f (i + k) b) i n
copy_block-join f i zero k b l lb h = absurd (omega arith)
copy_block-join f i (suc n) zero b l lb h =
    ap₂ ◌++◌ (take_all b 512 lb ∙ sym (set_at f i (i + 0) b (omega arith))) (
      drop-append (f i) (join f (i + 1) n) 512 (l i)
      ∙ join_ext f (set_block f (i + 0) b) (i + 1) n
          (λ k p q. sym (set_after f k (i + 0) b (omega arith))))
copy_block-join f i (suc n) (suc k) b l lb h =
    copy_past (f i) (join f (i + 1) n) (suc k * 512) (k * 512) b (l i) (omega arith)
    ∙ ap₂ ◌++◌ (sym (set_before f i (i + suc k) b (omega arith))) (
        copy_block-join f (i + 1) n k b l lb (omega arith)
        ∙ ap (λ j. join (set_block f j b) (i + 1) n) (omega arith))

replicate_add :
    (a b j : ℕ) → j ≡ a + b → ◌≡◌ {A = List ℕ} (replicate j 0) (replicate a 0 ++ replicate b 0)
replicate_add zero b j e = ap (λ n. replicate n 0) (omega arith)
replicate_add (suc a) b zero e = absurd (omega arith)
replicate_add (suc a) b (suc j) e = ap (λ l. 0 ∷ l) (replicate_add a b j (omega arith))

pub zeros-join : (i n : ℕ) → replicate (n * 512) 0 ≡ join (λ _. replicate 512 0) i n
zeros-join i zero = refl
zeros-join i (suc n) =
    replicate_add 512 (n * 512) (suc n * 512) (omega arith)
    ∙ ap (λ l. replicate 512 0 ++ l) (zeros-join (i + 1) n)
