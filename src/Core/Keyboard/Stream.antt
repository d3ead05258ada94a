-- ===== src/Core/Keyboard/Stream.antt =====
-- The bytes on their way through src/core/src/keyboard.c, from the host to the CPU: what was
-- taken, what left and how, and what waits.
use ms.Base.{
  ℕ, ◌≡◌, false, not, ◌&&◌, List, [], ◌∷◌, ◌++◌, arith, refl, ap, ap₂, ◌∙◌, sym, if◌then◌else◌,
  has_bit, Bool-cases, inl, inr, ◌==◌,
}
use mathlib.Core.List.{append-nil, append_assoc}
use ms.Core.Keyboard.{
  Keyboard, init, write_control, flush_fifo, fifo_full, update_status, read, push_scancode, tick,
}
use ms.Core.Keyboard.Valid.{
  IsValid, init-IsValid, flush_fifo-IsValid, write_control-IsValid, tick-IsValid, read-IsValid,
  push_scancode-IsValid,
}
use ms.Core.Keyboard.Pending.{pending, pending-push_scancode, pending-update_status, pending-tick}

-- What happens on the way: the host sends a byte, the clock ticks, the CPU polls the status register
-- and takes a byte when RXRDY shows one, reads the data register without a look, or writes the control
-- register, and the queue is flushed or the interface reset.
pub data Event : Type 0 where
  push : ℕ → Event
  clock poll take_byte flush reset_all : Event
  control : ℕ → Event

-- How a byte leaves.
pub data Fate : Type 0 where
  delivered discarded : ℕ → Fate

abbrev pub byte_of : Fate → ℕ
byte_of (delivered b) = b
byte_of (discarded b) = b

abbrev pub bytes_of : List Fate → List ℕ
bytes_of [] = []
bytes_of (x ∷ xs) = byte_of x ∷ bytes_of xs

abbrev discard_all : List ℕ → List Fate
discard_all [] = []
discard_all (b ∷ bs) = discarded b ∷ discard_all bs

accepted : Keyboard → Event → List ℕ
accepted k (push b) = if fifo_full k then [] else b ∷ []
accepted k _ = []

-- A control byte is an internal reset when it is a command with IR set: it drops the receiver's byte.
left : Keyboard → Event → List Fate
left k (push b) = []
left k clock = []
left k poll = if has_bit (read k 1).0 1 then delivered (read k 0).0 ∷ [] else []
left k take_byte = if k.rx_ready then delivered (read k 0).0 ∷ [] else []
left k flush = discard_all (pending k)
left k reset_all = discard_all (pending k)
left k (control v) =
    if not (k.init_step == 0) && has_bit v 6 && k.rx_ready then discarded k.rx_data ∷ [] else []

after : Keyboard → Event → Keyboard
after k (push b) = push_scancode k b
after k clock = tick k
after k poll = if has_bit (read k 1).0 1 then (read k 0).1 else k
after k take_byte = (read k 0).1
after k flush = flush_fifo k
after k reset_all = init
after k (control v) = write_control k v

-- The bytes that the queue took, those that left, and the state at the end.
pub record Trace : Type 0 where
  pub taken : List ℕ
  pub gone : List Fate
  pub final : Keyboard

unfoldable pub trace : Keyboard → List Event → Trace
unfolding accepted left after
trace k [] = record { taken = []; gone = []; final = k }
trace k (e ∷ es) =
    let rest = trace (after k e) es in
    record { taken = accepted k e ++ rest.taken; gone = left k e ++ rest.gone; final = rest.final }

bytes_of-append : (xs ys : List Fate) → bytes_of (xs ++ ys) ≡ bytes_of xs ++ bytes_of ys
bytes_of-append [] ys = refl
bytes_of-append (x ∷ xs) ys = ap (λ l. byte_of x ∷ l) (bytes_of-append xs ys)

bytes_of-discard_all : (bs : List ℕ) → bytes_of (discard_all bs) ≡ bs
bytes_of-discard_all [] = refl
bytes_of-discard_all (b ∷ bs) = ap (λ l. b ∷ l) (bytes_of-discard_all bs)

after-IsValid : (k : Keyboard) (e : Event) → IsValid k → IsValid (after k e)
unfolding after
after-IsValid k (push b) v = push_scancode-IsValid k b v
after-IsValid k clock v = tick-IsValid k v
after-IsValid k poll v = ground (arith, read-IsValid k 0 v)
after-IsValid k take_byte v = read-IsValid k 0 v
after-IsValid k flush v = flush_fifo-IsValid k v
after-IsValid k reset_all v = init-IsValid
after-IsValid k (control b) v = write_control-IsValid k b v

pending-poll :
    (k : Keyboard)
    → has_bit k.status 1 ≡ k.rx_ready
    → pending k ++ [] ≡ bytes_of (left k poll) ++ pending (after k poll)
unfolding left after read
pending-poll k h =
    ground (arith, append-nil (pending k), pending-update_status (record k { rx_ready = false }))

pending-take :
    (k : Keyboard) → pending k ++ [] ≡ bytes_of (left k take_byte) ++ pending (after k take_byte)
unfolding left after read
pending-take k =
    ground (arith, append-nil (pending k), pending-update_status (record k { rx_ready = false }))

pending-flush : (k : Keyboard) → pending (flush_fifo k) ≡ []
unfolding flush_fifo update_status
pending-flush k = refl

pending-init : pending init ≡ []
unfolding init
pending-init = refl

emptied :
    (k k' : Keyboard)
    → pending k' ≡ []
    → pending k ++ [] ≡ bytes_of (discard_all (pending k)) ++ pending k'
emptied k k' e = ap₂ ◌++◌ (sym (bytes_of-discard_all (pending k))) (sym e)

pending-control :
    (k : Keyboard) (b : ℕ)
    → pending k ++ [] ≡ bytes_of (left k (control b)) ++ pending (write_control k b)
unfolding left write_control update_status
pending-control k b = append-nil (pending k) ∙ elim (Bool-cases (k.init_step == 0)) [
  | inl e ↦ rw e refl
  | inr e ↦ rw e (elim (Bool-cases (has_bit b 6)) [
    | inl r ↦ rw r (elim (Bool-cases k.rx_ready) [ inl x ↦ rw x refl | inr x ↦ rw x refl ])
    | inr r ↦ rw r (elim (Bool-cases (has_bit b 4)) [ inl x ↦ rw x refl | inr x ↦ rw x refl ])
  ])
]

pending-after :
    (k : Keyboard) (e : Event)
    → IsValid k
    → pending k ++ accepted k e ≡ bytes_of (left k e) ++ pending (after k e)
unfolding accepted left after
pending-after k (push b) v = ground (arith, pending-push_scancode k b v, append-nil (pending k))
pending-after k clock v = append-nil (pending k) ∙ sym (pending-tick k)
pending-after k poll v = pending-poll k v.shows_rx
pending-after k take_byte v = pending-take k
pending-after k flush v = emptied k (flush_fifo k) (pending-flush k)
pending-after k reset_all v = emptied k init pending-init
pending-after k (control b) v = pending-control k b

-- Over any run of bytes from the host, ticks, reads, control bytes, flushes and resets, from a valid
-- state: the bytes that were waiting at the start and those that the queue has taken since are, in this
-- order, the bytes that have left and those still waiting. A byte leaves by delivery to a CPU that polls
-- RXRDY first, or that reads the data register while a byte is in it (a read at another time counts
-- for nothing here: it gives the last byte once more); or it is discarded: by a flush or a reset, with
-- all that wait, or by the internal reset of a command, if it is in the receiver.
pub trace-pending :
    (es : List Event) (k : Keyboard)
    → IsValid k
    → let t = trace k es in pending k ++ t.taken ≡ bytes_of t.gone ++ pending t.final
unfolding trace
trace-pending [] k v = append-nil (pending k)
trace-pending (e ∷ es) k v =
    let rest = trace (after k e) es in
    sym (append_assoc (pending k) (accepted k e) rest.taken)
    ∙ ap (λ l. l ++ rest.taken) (pending-after k e v)
    ∙ append_assoc (bytes_of (left k e)) (pending (after k e)) rest.taken
    ∙ ap (λ l. bytes_of (left k e) ++ l) (trace-pending es (after k e) (after-IsValid k e v))
    ∙ sym (append_assoc (bytes_of (left k e)) (bytes_of rest.gone) (pending rest.final))
    ∙ ap (λ l. l ++ pending rest.final) (sym (bytes_of-append (left k e) rest.gone))
