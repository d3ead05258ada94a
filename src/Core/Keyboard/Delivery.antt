-- ===== src/Core/Keyboard/Delivery.antt =====
-- The pace of src/core/src/keyboard.c: how many ticks a byte takes from the queue to the CPU.
use ms.Base.{
  ℕ, zero, suc, ◌+◌, ◌-◌, ◌<◌, ◌≤◌, ◌≡◌, Bool, true, false, arith, refl, ap, sym, ◌∙◌, has_bit,
}
use ms.Core.Keyboard.{Keyboard, tick, receive, fifo_pop, update_status}

unfoldable pub ticks : ℕ → Keyboard → Keyboard
ticks zero k = k
ticks (suc n) k = tick (ticks n k)

-- A byte waits in the queue, and `d` ticks of its frame are still to come.
record Waiting (byte d : ℕ) (enabled : Bool) (k : Keyboard) : Type 0 where
  idle : k.rx_ready ≡ false
  queued : 0 < k.fifo_count
  first : k.fifo k.fifo_head ≡ byte
  delay : k.rx_delay ≡ d
  rx_enabled : has_bit k.command 2 ≡ enabled

tick-Waiting :
    (byte d : ℕ) (enabled : Bool) (k : Keyboard)
    → Waiting byte (suc d) enabled k
    → Waiting byte d enabled (tick k)
unfolding tick receive update_status
tick-Waiting byte d enabled k w = ground arith

tick_last :
    (byte : ℕ) (enabled : Bool) (k : Keyboard)
    → Waiting byte 0 enabled k
    → ((tick k).rx_ready ≡ true) × ((tick k).rx_data ≡ byte) × ((tick k).irq ≡ enabled)
unfolding tick receive update_status fifo_pop
tick_last byte enabled k w = (ground arith, ground arith, ground arith)

ticks-Waiting :
    (n d byte : ℕ) (enabled : Bool) (k : Keyboard)
    → Waiting byte (n + d) enabled k
    → Waiting byte d enabled (ticks n k)
unfolding ticks
ticks-Waiting zero d byte enabled k w = ground arith
ticks-Waiting (suc n) d byte enabled k w =
    tick-Waiting byte d enabled (ticks n k) (ticks-Waiting n (suc d) byte enabled k (ground arith))

-- While the receiver holds no byte that the CPU has yet to read, the byte at the head of a queue that
-- is not empty is in the receiver after exactly the ticks that are left of its frame and one more, and
-- no sooner, if nothing but ticks happens. It comes whether or not the command enables the receiver
-- (RxEN); the interrupt is raised with it only if the command does.
pub ticks-delivery :
    (k : Keyboard)
    → k.rx_ready ≡ false
    → 0 < k.fifo_count
    → let done = ticks (k.rx_delay + 1) k in
      (done.rx_ready ≡ true)
      × (done.rx_data ≡ k.fifo k.fifo_head)
      × (done.irq ≡ has_bit k.command 2)
      × ((n : ℕ) → n ≤ k.rx_delay → (ticks n k).rx_ready ≡ false)
unfolding ticks
ticks-delivery k idle queued =
    let start : (d : ℕ) → d ≡ k.rx_delay → Waiting (k.fifo k.fifo_head) d (has_bit k.command 2) k =
      λ d e. record {
        idle = idle;
        queued = queued;
        first = refl;
        delay = sym e;
        rx_enabled = refl;
      } in
    let last =
      tick_last (k.fifo k.fifo_head) (has_bit k.command 2) (ticks k.rx_delay k)
        (ticks-Waiting k.rx_delay 0 _ _ k (start (k.rx_delay + 0) (omega arith))) in
    let e : k.rx_delay + 1 ≡ suc k.rx_delay = omega arith in
    (
      ap (λ n. (ticks n k).rx_ready) e ∙ last.0,
      ap (λ n. (ticks n k).rx_data) e ∙ last.1,
      ap (λ n. (ticks n k).irq) e ∙ last.2,
      λ n h.
          (ticks-Waiting n (k.rx_delay - n) _ _ k
            (start (n + (k.rx_delay - n)) (omega arith))).idle,
    )
