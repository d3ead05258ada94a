-- ===== src/Core/Timer/Pulse.antt =====
-- The one-shot and the strobe of src/core/src/timer.c: modes 1 and 4 of a channel.
use ms.Base.{ℕ, zero, suc, ◌-◌, ◌<◌, ◌≡◌, true, false, leb, ltb, arith}
use ms.Core.Timer.{Channel, channel_tick, channel_gate}
use ms.Core.Timer.Wave.{ticks, IsRunning}

-- A strobe loaded with N, `k` cycles on: it counts until N, and has stopped from then on.
record Strobe (n k : ℕ) (d : Channel) : Type 0 where
  mode : d.mode ≡ 4
  gate : d.gate ≡ true
  loaded : d.loaded ≡ true
  counting : d.counting ≡ ltb k n
  left : k < n → d.count ≡ n - k
  level : 0 < k → d.out ≡ ltb k n

channel_tick-Strobe :
    (n k : ℕ) (d : Channel) → 0 < n → n < 65536 → Strobe n k d → Strobe n (suc k) (channel_tick d)
unfolding channel_tick
channel_tick-Strobe n k d pos fits h = ground (arith, h.left, h.level)

ticks-Strobe :
    (c : Channel) (k : ℕ)
    → IsRunning 4 c
    → 0 < c.count
    → c.count < 65536
    → Strobe c.count k (ticks k c)
unfolding ticks
ticks-Strobe c zero r pos fits = ground arith
ticks-Strobe c (suc k) r pos fits =
    channel_tick-Strobe c.count k (ticks k c) pos fits (ticks-Strobe c k r pos fits)

-- Mode 4, the strobe: OUT is high until the count of N is over, and from then on low for good.
-- The channel has stopped, so that no later cycle ends the pulse.
pub ticks-strobe :
    (c : Channel) (k : ℕ)
    → IsRunning 4 c
    → 0 < c.count
    → c.count < 65536
    → 0 < k
    → ((ticks k c).out ≡ ltb k c.count) × ((ticks k c).counting ≡ ltb k c.count)
ticks-strobe c k r pos fits later =
    ((ticks-Strobe c k r pos fits).level later, (ticks-Strobe c k r pos fits).counting)

record Shot (n k : ℕ) (d : Channel) : Type 0 where
  mode : d.mode ≡ 1
  loaded : d.loaded ≡ true
  counting : d.counting ≡ ltb k n
  left : k < n → d.count ≡ n - k
  level : d.out ≡ leb n k

channel_tick-Shot :
    (n k : ℕ) (d : Channel) → 0 < n → n < 65536 → Shot n k d → Shot n (suc k) (channel_tick d)
unfolding channel_tick
channel_tick-Shot n k d pos fits h = ground (arith, h.left)

ticks-Shot :
    (c : Channel) (k : ℕ)
    → c.mode ≡ 1
    → c.loaded ≡ true
    → c.gate ≡ false
    → 0 < c.reload
    → c.reload < 65536
    → Shot c.reload k (ticks k (channel_gate c true))
unfolding ticks channel_gate
ticks-Shot c zero m l g pos fits = ground arith
ticks-Shot c (suc k) m l g pos fits =
    channel_tick-Shot c.reload k (ticks k (channel_gate c true)) pos fits
      (ticks-Shot c k m l g pos fits)

-- Mode 1, the one-shot: when the gate of a loaded channel rises, OUT goes low at once, stays low for
-- N cycles, and is high from then on.
pub ticks-one_shot :
    (c : Channel) (k : ℕ)
    → c.mode ≡ 1
    → c.loaded ≡ true
    → c.gate ≡ false
    → 0 < c.reload
    → c.reload < 65536
    → (ticks k (channel_gate c true)).out ≡ leb c.reload k
ticks-one_shot c k m l g pos fits = (ticks-Shot c k m l g pos fits).level
