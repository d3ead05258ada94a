-- ===== src/Core/Hd/Load.antt =====
-- The word loop of src/core/src/hd.c towards the memory.
use ms.Base.{
  ℕ, zero, suc, ◌+◌, ◌*◌, ◌%◌, ◌<◌, ◌≤◌, ◌≡◌, ◌⊎◌, inl, inr, false, some, arith, refl, ◌∙◌, sym,
  ◌==◌, if◌then◌else◌, u16, word, Bytes, subst,
}
use native.Mathlib.Decide.{dec_lt, ℕ_discrete}
use ms.Core.Memory.{Memory, translate}
use ms.Core.Memory.Access.{load, load-write_word, written_word, IsWritable, translate-written_word}
use ms.Core.Hd.Controller.{dma_word, dma}

-- After words `w` to `w + n` of a transfer to the memory: the bytes of the image from `base` on are
-- in the memory from `bufaddr` on, every other address reads as it did, and the mapping is the same.
pub record Loaded (base bufaddr w n : ℕ) (img : Bytes) (mem out : Memory) : Type 0 where
  pub inside :
      (i : ℕ) → w * 2 ≤ i → i < (w + n) * 2 → load out (bufaddr + i) ≡ some (img (base + i))
  pub outside :
      (a : ℕ)
      → a < 65536
      → (a < bufaddr + w * 2) ⊎ (bufaddr + (w + n) * 2 ≤ a)
      → load out a ≡ load mem a
  pub mapping : (a : ℕ) → translate out a ≡ translate mem a

-- The buffer of words `w` to `w + n` lies in RAM and VRAM.
abbrev pub IsBuffer : Memory → ℕ → ℕ → ℕ → Type 0
IsBuffer mem bufaddr w n =
    (i : ℕ) → w * 2 ≤ i → i < (w + n) * 2 → IsWritable (translate mem (bufaddr + i)).type

-- What one round makes of the memory.
abbrev loaded : ℕ → ℕ → ℕ → Bytes → Memory → Memory
loaded base bufaddr w img mem =
    written_word mem (translate mem (bufaddr + w * 2))
      (word (img (base + w * 2)) (img (base + w * 2 + 1)))

module _ (base bufaddr w : ℕ) (img : Bytes) (mem : Memory) (even : bufaddr % 2 ≡ 0)
    (in_space : bufaddr + w * 2 + 2 ≤ 65536) (bytes : (j : ℕ) → img j < 256)
    (writable : IsWritable (translate mem (bufaddr + w * 2)).type) where
  dma_word-write :
      (b : ℕ)
      → b < 65536
      → (dma_word false base bufaddr w (img, mem) ≡ some (img, loaded base bufaddr w img mem))
        × (load (loaded base bufaddr w img mem) b ≡ (
            if b == bufaddr + w * 2
            then some (img (base + w * 2))
            else if b == bufaddr + w * 2 + 1
            then some (img (base + w * 2 + 1))
            else load mem b))
  unfolding dma_word
  dma_word-write b hb =
      let lo = bytes (base + w * 2) in
      let hi = bytes (base + w * 2 + 1) in
      let same : u16 (bufaddr + w * 2) ≡ bufaddr + w * 2 = omega arith in
      let v : ℕ = word (img (base + w * 2)) (img (base + w * 2 + 1)) in
      let h =
        load-write_word mem (bufaddr + w * 2) v (omega arith) (omega arith) (omega arith) writable b
          hb in
      (rw same (rw h.0), ground (arith, h.1))

-- The induction step: the first word, then the rest of them.
module _ (base bufaddr w n : ℕ) (img : Bytes) (mem out : Memory) (even : bufaddr % 2 ≡ 0)
    (in_space : bufaddr + (w + suc n) * 2 ≤ 65536) (bytes : (j : ℕ) → img j < 256)
    (buffer : IsBuffer mem bufaddr w (suc n))
    (rest : Loaded base bufaddr (w + 1) n img (loaded base bufaddr w img mem) out) where
  abbrev first_writable : IsWritable (translate mem (bufaddr + w * 2)).type
  first_writable = buffer (w * 2) (omega arith) (omega arith)

  Loaded-inside :
      (i : ℕ) → w * 2 ≤ i → i < (w + suc n) * 2 → load out (bufaddr + i) ≡ some (img (base + i))
  Loaded-inside i a b = elim (dec_lt i (w * 2 + 2)) [
    | no p ↦ rest.inside i (omega arith) (omega arith)
    | yes p ↦
        rest.outside (bufaddr + i) (omega arith) (inl (omega arith))
        ∙ (dma_word-write base bufaddr w img mem even (omega arith) bytes first_writable
            (bufaddr + i) (omega arith)).1
        ∙ which i (omega arith) (omega arith)
  ]
    where
      which :
          (i : ℕ)
          → w * 2 ≤ i
          → i < w * 2 + 2
          → (if bufaddr + i == bufaddr + w * 2
              then some (img (base + w * 2))
              else if bufaddr + i == bufaddr + w * 2 + 1
              then some (img (base + w * 2 + 1))
              else load mem (bufaddr + i))
            ≡ some (img (base + i))
      which i a b = elim (ℕ_discrete i (w * 2)) [
        | yes e ↦ rw e (ground arith)
        | no ne ↦
            let e : i ≡ w * 2 + 1 = omega arith in
            let assoc : base + (w * 2 + 1) ≡ base + w * 2 + 1 = omega arith in
            rw (e, assoc) (ground arith)
      ]

  Loaded-suc : Loaded base bufaddr w (suc n) img mem out
  Loaded-suc = record {
    inside = Loaded-inside;
    outside = λ a h o.
        rest.outside a h (wider a o)
        ∙ (dma_word-write base bufaddr w img mem even (omega arith) bytes first_writable a h).1
        ∙ apart a o;
    mapping = λ a. rest.mapping a ∙ translate-written_word mem _ _ a;
  }
    where
      wider :
          (a : ℕ)
          → (a < bufaddr + w * 2) ⊎ (bufaddr + (w + suc n) * 2 ≤ a)
          → (a < bufaddr + (w + 1) * 2) ⊎ (bufaddr + (w + 1 + n) * 2 ≤ a)
      wider a (inl h) = inl (omega arith)
      wider a (inr h) = inr (omega arith)

      apart :
          (a : ℕ)
          → (a < bufaddr + w * 2) ⊎ (bufaddr + (w + suc n) * 2 ≤ a)
          → (if a == bufaddr + w * 2
              then some (img (base + w * 2))
              else if a == bufaddr + w * 2 + 1
              then some (img (base + w * 2 + 1))
              else load mem a)
            ≡ load mem a
      apart a o = ground arith

-- A transfer to a buffer in RAM and VRAM at an even address never fails an assert, and leaves the
-- image alone.
pub dma-Loaded :
    (base bufaddr n w : ℕ) (img : Bytes) (mem : Memory)
    → bufaddr % 2 ≡ 0
    → bufaddr + (w + n) * 2 ≤ 65536
    → ((j : ℕ) → img j < 256)
    → IsBuffer mem bufaddr w n
    → (out : Memory) × (dma false base bufaddr n w (img, mem) ≡ some (img, out))
      × Loaded base bufaddr w n img mem out
unfolding dma
dma-Loaded base bufaddr zero w img mem even space bytes buffer = (
  mem,
  refl,
  record { inside = λ i a b. absurd (omega arith); outside = λ a h o. refl; mapping = λ a. refl },
)
dma-Loaded base bufaddr (suc n) w img mem even space bytes buffer =
    let writable = buffer (w * 2) (omega arith) (omega arith) in
    let step =
      (dma_word-write base bufaddr w img mem even (omega arith) bytes writable 0 (omega arith)).0 in
    let mem' = loaded base bufaddr w img mem in
    let kept : IsBuffer mem' bufaddr (w + 1) n = λ i a b.
      subst (λ tr. IsWritable tr.type) (sym (translate-written_word mem _ _ (bufaddr + i)))
        (buffer i (omega arith) (omega arith)) in
    let (out, e, s) = dma-Loaded base bufaddr n (w + 1) img mem' even (omega arith) bytes kept in
    (out, rw step e, Loaded-suc base bufaddr w n img mem out even space bytes buffer s)
