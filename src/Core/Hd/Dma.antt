-- ===== src/Core/Hd/Dma.antt =====
-- The word loop of src/core/src/hd.c: what it moves and what it leaves alone.
use ms.Base.{
  ℕ, zero, suc, ◌+◌, ◌-◌, ◌*◌, ◌%◌, ◌<◌, ◌≤◌, ◌≡◌, ◌⊎◌, inl, inr, true, some, arith, refl, ap, ◌∙◌,
  sym, u16, Bytes, store,
}
use native.Mathlib.Decide.{dec_lt, ℕ_discrete}
use ms.Core.Memory.{Memory}
use ms.Core.Memory.Access.{load, read_word-load}
use ms.Core.Hd.Controller.{dma_word, dma}

-- The memory holds bytes.
abbrev pub IsBytes : Memory → Type 0
IsBytes m = (a v : ℕ) → load m a ≡ some v → v < 256

-- After words `w` to `w + n` of a transfer from the memory: their bytes in the image, from `base` on,
-- are those of the memory from `bufaddr` on (16 bits of address), and the rest of the image is as
-- it was.
pub record Stored (base bufaddr w n : ℕ) (img : Bytes) (mem : Memory) (out : Bytes) : Type 0 where
  pub inside :
      (i : ℕ)
      → w * 2 ≤ i
      → i < (w + n) * 2
      → load mem ((bufaddr + i) % 65536) ≡ some (out (base + i))
  pub outside : (j : ℕ) → (j < base + w * 2) ⊎ (base + (w + n) * 2 ≤ j) → out j ≡ img j

even_place : (bufaddr w : ℕ) → bufaddr % 2 ≡ 0 → u16 (bufaddr + w * 2) % 2 ≡ 0
even_place bufaddr w e = omega arith

dma_word-read :
    (base bufaddr w : ℕ) (img : Bytes) (mem : Memory)
    → bufaddr % 2 ≡ 0
    → IsBytes mem
    → (lo : ℕ) × (hi : ℕ) × (load mem (u16 (bufaddr + w * 2)) ≡ some lo)
      × (load mem (u16 (bufaddr + w * 2) + 1) ≡ some hi)
      × (dma_word true base bufaddr w (img, mem)
          ≡ some (store (store img (base + w * 2) lo) (base + w * 2 + 1) hi, mem))
unfolding dma_word
dma_word-read base bufaddr w img mem even bytes =
    let a = u16 (bufaddr + w * 2) in
    let (lo, hi, el, eh, er) = read_word-load mem a (omega arith) (even_place bufaddr w even) in
    (lo, hi, el, eh, rw er (ground (arith, bytes a lo el, bytes (a + 1) hi eh)))

Stored-suc :
    (base bufaddr w n lo hi : ℕ) (img : Bytes) (mem : Memory) (out : Bytes)
    → bufaddr % 2 ≡ 0
    → load mem (u16 (bufaddr + w * 2)) ≡ some lo
    → load mem (u16 (bufaddr + w * 2) + 1) ≡ some hi
    → Stored base bufaddr
        (w + 1)
        n
        (store (store img (base + w * 2) lo) (base + w * 2 + 1) hi)
        mem
        out
    → Stored base bufaddr w (suc n) img mem out
Stored-suc base bufaddr w n lo hi img mem out even el eh s = record {
  inside = λ i a b. elim (dec_lt i (w * 2 + 2)) [
    | no p ↦ s.inside i (omega arith) (omega arith)
    | yes p ↦ elim (ℕ_discrete i (w * 2)) [ yes e ↦ first i e | no ne ↦ second i (omega arith) ]
  ];
  outside = λ j o. s.outside j (widen j o) ∙ ground arith;
}
  where
    first : (i : ℕ) → i ≡ w * 2 → load mem ((bufaddr + i) % 65536) ≡ some (out (base + i))
    first i e =
        rw e (el ∙ ap some (sym (s.outside (base + w * 2) (inl (omega arith)) ∙ ground arith)))

    second : (i : ℕ) → i ≡ w * 2 + 1 → load mem ((bufaddr + i) % 65536) ≡ some (out (base + i))
    second i e = rw e (
        ap (load mem) (omega arith)
        ∙ eh
        ∙ ap some (sym (s.outside (base + (w * 2 + 1)) (inl (omega arith)) ∙ ground arith)))

    widen :
        (j : ℕ)
        → (j < base + w * 2) ⊎ (base + (w + suc n) * 2 ≤ j)
        → (j < base + (w + 1) * 2) ⊎ (base + (w + 1 + n) * 2 ≤ j)
    widen j (inl h) = inl (omega arith)
    widen j (inr h) = inr (omega arith)

-- A transfer from the memory at an even address never fails an assert, and leaves the memory alone.
pub dma-Stored :
    (base bufaddr n w : ℕ) (img : Bytes) (mem : Memory)
    → bufaddr % 2 ≡ 0
    → IsBytes mem
    → (out : Bytes) × (dma true base bufaddr n w (img, mem) ≡ some (out, mem))
      × Stored base bufaddr w n img mem out
unfolding dma
dma-Stored base bufaddr zero w img mem even bytes =
    (img, refl, record { inside = λ i a b. absurd (omega arith); outside = λ j o. refl })
dma-Stored base bufaddr (suc n) w img mem even bytes =
    let (lo, hi, el, eh, step) = dma_word-read base bufaddr w img mem even bytes in
    let img' = store (store img (base + w * 2) lo) (base + w * 2 + 1) hi in
    let (out, e, s) = dma-Stored base bufaddr n (w + 1) img' mem even bytes in
    (out, rw step e, Stored-suc base bufaddr w n lo hi img mem out even el eh s)

-- The image still holds bytes.
pub Stored-bytes :
    (base bufaddr n : ℕ) (img : Bytes) (mem : Memory) (out : Bytes)
    → Stored base bufaddr 0 n img mem out
    → IsBytes mem
    → ((j : ℕ) → img j < 256)
    → (j : ℕ) → out j < 256
Stored-bytes base bufaddr n img mem out s mb bytes j = elim (dec_lt j base) [
  | yes p ↦ rw (s.outside j (inl (omega arith))) (bytes j)
  | no p ↦ elim (dec_lt j (base + n * 2)) [
    | no q ↦ rw (s.outside j (inr (omega arith))) (bytes j)
    | yes q ↦
        let e : base + (j - base) ≡ j = omega arith in
        mb ((bufaddr + (j - base)) % 65536) (out j)
          (s.inside (j - base) (omega arith) (omega arith) ∙ ap (λ k. some (out k)) e)
  ]
]
