-- ===== src/Core/Keyboard/Pending.antt =====
-- The bytes in the 16-cell queue and the receiver of src/core/src/keyboard.c: the queue is a first-in
-- first-out buffer, and the receiver takes from it in order.
use ms.Base.{
  ℕ, zero, suc, ◌+◌, ◌-◌, ◌%◌, ◌<◌, ◌≡◌, not, ◌&&◌, List, [], ◌∷◌, ◌++◌, arith, refl, ap, ap₂, ◌∙◌,
  Bytes, store, if◌then◌else◌, Bool-cases, inl, inr, ◌==◌,
}
use ms.Core.Keyboard.{
  Keyboard, fifo_empty, fifo_full, fifo_push, fifo_pop, update_status, push_scancode, receive, tick,
}
use ms.Core.Keyboard.Valid.{IsValid}

-- The `n` bytes of the queue from cell `h` on.
abbrev window : Bytes → ℕ → ℕ → List ℕ
window f h zero = []
window f h (suc n) = f h ∷ window f ((h + 1) % 16) n

-- The bytes in the queue, and those that the CPU has not read yet: the receiver's and the queue's.
abbrev pub contents : Keyboard → List ℕ
contents k = window k.fifo k.fifo_head k.fifo_count

abbrev pub pending : Keyboard → List ℕ
pending k = if k.rx_ready then k.rx_data ∷ contents k else contents k

window-store :
    (f : Bytes) (b n h i : ℕ)
    → h < 16
    → n < 16
    → i ≡ (h + n) % 16
    → window (store f i b) h (suc n) ≡ window f h n ++ (b ∷ [])
window-store f b zero h i hh hn e = ground arith
window-store f b (suc n) h i hh hn e =
    ap₂ ◌∷◌ (ground arith)
      (window-store f b n ((h + 1) % 16) i (omega arith) (omega arith) (omega arith))

window-nonempty :
    (f : Bytes) (h n : ℕ) → 0 < n → window f h n ≡ f h ∷ window f ((h + 1) % 16) (n - 1)
window-nonempty f h zero p = absurd (omega arith)
window-nonempty f h (suc n) p =
    let e : n ≡ suc n - 1 = omega arith in ap (λ m. f h ∷ window f ((h + 1) % 16) m) e

fifo_push-rx :
    (k : Keyboard) (b : ℕ)
    → ((fifo_push k b).rx_ready ≡ k.rx_ready) × ((fifo_push k b).rx_data ≡ k.rx_data)
unfolding fifo_push
fifo_push-rx k b = ground arith

contents-fifo_push :
    (k : Keyboard) (b : ℕ)
    → k.fifo_head < 16
    → k.fifo_tail ≡ (k.fifo_head + k.fifo_count) % 16
    → contents (fifo_push k b) ≡ (if fifo_full k then contents k else contents k ++ (b ∷ []))
unfolding fifo_push
contents-fifo_push k b hh ht = elim (Bool-cases (fifo_full k)) [
  | inl full ↦ rw full
  | inr room ↦ rw room (
      (let e : k.fifo_count + 1 ≡ suc k.fifo_count = omega arith in
        ap (window (store k.fifo k.fifo_tail b) k.fifo_head) e)
      ∙ window-store k.fifo b k.fifo_count k.fifo_head k.fifo_tail hh (ground arith) ht)
]

pub pending-fifo_push :
    (k : Keyboard) (b : ℕ)
    → k.fifo_head < 16
    → k.fifo_tail ≡ (k.fifo_head + k.fifo_count) % 16
    → pending (fifo_push k b) ≡ (if fifo_full k then pending k else pending k ++ (b ∷ []))
pending-fifo_push k b hh ht = ground (arith, fifo_push-rx k b, contents-fifo_push k b hh ht)

pub pending-push_scancode :
    (k : Keyboard) (b : ℕ)
    → IsValid k
    → pending (push_scancode k b) ≡ (if fifo_full k then pending k else pending k ++ (b ∷ []))
unfolding push_scancode
pending-push_scancode k b v =
    elim (Bool-cases (fifo_empty k && not k.rx_ready && (k.rx_delay == 0))) [
      | inl e ↦ rw e (pending-fifo_push (record k { rx_delay = 8 }) b v.head_in v.tail_at)
      | inr e ↦ rw e (pending-fifo_push k b v.head_in v.tail_at)
    ]

pub pending-update_status : (k : Keyboard) → pending (update_status k) ≡ pending k
unfolding update_status
pending-update_status k = refl

-- A tick moves bytes from the queue to the receiver, and loses and reorders none.
pub pending-tick : (k : Keyboard) → pending (tick k) ≡ pending k
unfolding tick update_status receive fifo_pop
pending-tick k = ground (arith, window-nonempty k.fifo k.fifo_head k.fifo_count)
