-- ===== src/Core/Keyboard/Tests.antt =====
-- Runs of src/core/src/keyboard.c, and the theorems about it at a receiver with two bytes queued.
use ms.Base.{ℕ, ◌+◌, ◌≤◌, ◌≡◌, true, false, some, List, [], ◌∷◌, ◌++◌, refl, arith}
use ms.Core.Keyboard.{
  Keyboard, init, write, write_control, read, push_scancode, fifo_push, fifo_pop, update_status,
  flush_fifo, receive, tick,
}
use ms.Core.Keyboard.Valid.{
  IsValid, Keeps, Op, do_tick, do_read, do_write, do_push, run, run-IsValid, push_scancode-InQueue,
}
use ms.Core.Keyboard.Pending.{pending}
use ms.Core.Keyboard.Stream.{
  Event, push, clock, poll, flush, delivered, discarded, bytes_of, trace, trace-pending,
}
use ms.Core.Keyboard.Delivery.{ticks, ticks-delivery}

-- Two bytes are queued, the receiver is enabled, and a frame has two ticks to come.
abbrev queued : Keyboard
queued = record {
  rx_data = 0;
  tx_data = 0;
  status = 0x05;
  mode = 0x4e;
  command = 0x04;
  rx_ready = false;
  tx_ready = true;
  init_step = 1;
  fifo = λ i. i + 65;
  fifo_head = 15;
  fifo_tail = 1;
  fifo_count = 2;
  rx_delay = 2;
  irq = false;
}

queued-IsValid : IsValid queued
queued-IsValid = record {
  head_in = omega arith;
  count_in = omega arith;
  tail_at = refl;
  delay_in = omega arith;
  shows_rx = refl;
  shows_tx = refl;
  shows_empty = refl;
  interrupt = refl;
}

-- The mode word is skipped while its baud factor is zero; then the command enables the receiver.
programming :
    ((write_control init 0).init_step ≡ 0)
    × ((write_control init 0x4e).init_step ≡ 1)
    × ((write_control queued 0x40).init_step ≡ 0)
unfolding write_control init update_status
programming = (refl, refl, refl)

flushed : pending (flush_fifo queued) ≡ []
unfolding flush_fifo update_status
flushed = refl

-- A keyboard model that answers each byte with a code: it pushes into the queue from the callback.
abbrev answering : ℕ → Keyboard × ℕ → Keyboard × ℕ
answering v (k, c) = (push_scancode k 0xd0, c + 1)

answering-Keeps : Keeps (some answering)
answering-Keeps f v k c e q = ground (arith, e, push_scancode-InQueue k 0xd0 q)

answered : (write (some answering) (queued, 0) 0 0xab).0.fifo_count ≡ 3
unfolding write push_scancode fifo_push update_status
answered = refl

abbrev calls : List Op
calls = do_write 0 0xab ∷ do_tick ∷ do_push 7 ∷ do_read 0 ∷ []

run-IsValid_example : IsValid (run (some answering) answering-Keeps (queued, 0) calls).0
run-IsValid_example = run-IsValid (some answering) answering-Keeps calls queued 0 queued-IsValid

abbrev events : List Event
events = clock ∷ poll ∷ push 9 ∷ clock ∷ clock ∷ poll ∷ push 5 ∷ flush ∷ push 6 ∷ []

trace_runs :
    (trace queued events).gone ≡ delivered 80 ∷ discarded 65 ∷ discarded 9 ∷ discarded 5 ∷ []
unfolding trace flush_fifo read push_scancode fifo_push fifo_pop update_status receive tick
trace_runs = refl

trace-pending_example :
    let t = trace queued events in pending queued ++ t.taken ≡ bytes_of t.gone ++ pending t.final
trace-pending_example = trace-pending events queued queued-IsValid

ticks-delivery_example :
    let done = ticks 3 queued in
    (done.rx_ready ≡ true)
    × (done.rx_data ≡ 80)
    × (done.irq ≡ true)
    × ((n : ℕ) → n ≤ 2 → (ticks n queued).rx_ready ≡ false)
ticks-delivery_example = ticks-delivery queued refl (omega arith)
