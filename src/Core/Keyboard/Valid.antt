-- ===== src/Core/Keyboard/Valid.antt =====
-- The invariant of src/core/src/keyboard.c: the indices of the queue, and the status register and
-- the interrupt line against the flags that they show.
use ms.Base.{
  ℕ, ◌+◌, ◌%◌, ◌<◌, ◌≤◌, ◌≡◌, true, false, ◌&&◌, Option, some, Option-cases, Bool-cases, ◌==◌, inl,
  inr, List, [], ◌∷◌, arith, refl, has_bit,
}
use ms.Core.Keyboard.{
  Keyboard, init, fifo_push, fifo_pop, update_status, transmit, write_control, write, read,
  push_scancode, flush_fifo, receive, tick,
}

pub record IsValid (k : Keyboard) : Type 0 where
  pub head_in : k.fifo_head < 16
  pub count_in : k.fifo_count ≤ 16
  pub tail_at : k.fifo_tail ≡ (k.fifo_head + k.fifo_count) % 16
  pub delay_in : k.rx_delay ≤ 8
  pub shows_rx : has_bit k.status 1 ≡ k.rx_ready
  pub shows_tx : has_bit k.status 0 ≡ k.tx_ready
  pub shows_empty : has_bit k.status 2 ≡ true
  pub interrupt : k.irq ≡ (k.rx_ready && has_bit k.command 2)

-- The queue part of the invariant, which no flag and no register has a part in.
abbrev pub InQueue : Keyboard → Type 0
InQueue k =
    (k.fifo_head < 16)
    × (k.fifo_count ≤ 16)
    × (k.fifo_tail ≡ (k.fifo_head + k.fifo_count) % 16)
    × (k.rx_delay ≤ 8)

update_status-IsValid : (k : Keyboard) → InQueue k → IsValid (update_status k)
unfolding update_status
update_status-IsValid k q = record {
  head_in = q.0;
  count_in = q.1;
  tail_at = q.2;
  delay_in = q.3;
  shows_rx = ground arith;
  shows_tx = ground arith;
  shows_empty = ground arith;
  interrupt = ground arith;
}

fifo_push-InQueue : (k : Keyboard) (b : ℕ) → InQueue k → InQueue (fifo_push k b)
unfolding fifo_push
fifo_push-InQueue k b q = ground arith

pub push_scancode-InQueue : (k : Keyboard) (b : ℕ) → InQueue k → InQueue (push_scancode k b)
unfolding push_scancode fifo_push
push_scancode-InQueue k b q = ground arith

receive-InQueue : (k : Keyboard) → InQueue k → InQueue (receive k)
unfolding receive fifo_pop
receive-InQueue k q = ground arith

IsValid-InQueue : (k : Keyboard) → IsValid k → InQueue k
IsValid-InQueue k v = (v.head_in, v.count_in, v.tail_at, v.delay_in)

pub init-IsValid : IsValid init
unfolding init
init-IsValid = ground arith

pub tick-IsValid : (k : Keyboard) → IsValid k → IsValid (tick k)
unfolding tick
tick-IsValid k v = update_status-IsValid (receive k) (receive-InQueue k (IsValid-InQueue k v))

pub read-IsValid : (k : Keyboard) (reg : ℕ) → IsValid k → IsValid (read k reg).1
unfolding read
read-IsValid k reg v =
    ground (arith, update_status-IsValid (record k { rx_ready = false }) (IsValid-InQueue k v))

pub push_scancode-IsValid : (k : Keyboard) (b : ℕ) → IsValid k → IsValid (push_scancode k b)
unfolding push_scancode fifo_push
push_scancode-IsValid k b v = ground arith

pub flush_fifo-IsValid : (k : Keyboard) → IsValid k → IsValid (flush_fifo k)
unfolding flush_fifo
flush_fifo-IsValid k v = update_status-IsValid _ (omega arith, omega arith, refl, v.delay_in)

pub write_control-IsValid : (k : Keyboard) (value : ℕ) → IsValid k → IsValid (write_control k value)
unfolding write_control
write_control-IsValid k value v = elim (Bool-cases (k.init_step == 0)) [
  | inl e ↦ rw e (record {
    head_in = v.head_in;
    count_in = v.count_in;
    tail_at = v.tail_at;
    delay_in = v.delay_in;
    shows_rx = v.shows_rx;
    shows_tx = v.shows_tx;
    shows_empty = v.shows_empty;
    interrupt = v.interrupt;
  })
  | inr e ↦ rw e (elim (Bool-cases (has_bit value 6)) [
    | inl r ↦ rw r (update_status-IsValid _ (IsValid-InQueue k v))
    | inr r ↦ rw r (elim (Bool-cases (has_bit value 4)) [
      | inl x ↦ rw x (update_status-IsValid _ (IsValid-InQueue k v))
      | inr x ↦ rw x (update_status-IsValid _ (IsValid-InQueue k v))
    ])
  ])
]

-- What the byte handler of the keyboard model may do: it keeps the queue a queue, as pushing and
-- flushing do.
abbrev pub Keeps : {M : Type 0} → Option (ℕ → Keyboard × M → Keyboard × M) → Type 0
Keeps {M} callback =
    (f : ℕ → Keyboard × M → Keyboard × M) (v : ℕ) (k : Keyboard) (c : M)
    → callback ≡ some f
    → InQueue k
    → InQueue (f v (k, c)).0

-- A call of the CPU, the clock, the host or a reset.
pub data Op : Type 0 where
  do_tick do_flush do_reset : Op
  do_read : (reg : ℕ) → Op
  do_write : (reg value : ℕ) → Op
  do_push : (scancode : ℕ) → Op

module _ {M : Type 0} (callback : Option (ℕ → Keyboard × M → Keyboard × M))
    (keeps : Keeps callback) where
  write-IsValid :
      (k : Keyboard) (c : M) (reg value : ℕ)
      → IsValid k
      → IsValid (write callback (k, c) reg value).0
  unfolding write
  write-IsValid k c reg value v = elim (Option-cases callback) [
    | inl e ↦ ground (
      arith,
      e,
      write_control-IsValid k value v,
      update_status-IsValid (transmit k value) (IsValid-InQueue k v),
    )
    | inr (f, e) ↦ ground (
      arith,
      e,
      write_control-IsValid k value v,
      update_status-IsValid (f value (transmit k value, c)).0
          (keeps f value (transmit k value) c e (IsValid-InQueue k v)),
    )
  ]

  unfoldable pub apply : Keyboard × M → Op → Keyboard × M
  apply (k, c) do_tick = (tick k, c)
  apply (k, c) do_flush = (flush_fifo k, c)
  apply (k, c) do_reset = (init, c)
  apply (k, c) (do_read reg) = ((read k reg).1, c)
  apply (k, c) (do_write reg value) = write callback (k, c) reg value
  apply (k, c) (do_push b) = (push_scancode k b, c)

  unfoldable pub run : Keyboard × M → List Op → Keyboard × M
  run s [] = s
  run s (op ∷ ops) = run (apply s op) ops

  apply-IsValid : (k : Keyboard) (c : M) (op : Op) → IsValid k → IsValid (apply (k, c) op).0
  unfolding apply
  apply-IsValid k c do_tick v = tick-IsValid k v
  apply-IsValid k c do_flush v = flush_fifo-IsValid k v
  apply-IsValid k c do_reset v = init-IsValid
  apply-IsValid k c (do_read reg) v = read-IsValid k reg v
  apply-IsValid k c (do_write reg value) v = write-IsValid k c reg value v
  apply-IsValid k c (do_push b) v = push_scancode-IsValid k b v

  -- From any valid state (the reset state is one), whatever the CPU, the clock and the host do: the queue holds at most 16
  -- bytes and its indices stay in range, the status register shows the receiver and the transmitter
  -- as they are, and the interrupt is raised exactly while a byte waits and the receiver is enabled.
  pub run-IsValid : (ops : List Op) (k : Keyboard) (c : M) → IsValid k → IsValid (run (k, c) ops).0
  unfolding run
  run-IsValid [] k c v = v
  run-IsValid (op ∷ ops) k c v =
      let s = apply (k, c) op in run-IsValid ops s.0 s.1 (apply-IsValid k c op v)
