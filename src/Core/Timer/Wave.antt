-- ===== src/Core/Timer/Wave.antt =====
-- What the channels of src/core/src/timer.c put out over many clock cycles, mode by mode.
use ms.Base.{
  ℕ, zero, suc, ◌+◌, ◌-◌, ◌*◌, ◌/◌, ◌%◌, ◌<◌, ◌≡◌, true, false, not, leb, arith, ap, ◌∙◌,
  if◌then◌else◌,
}
use ms.Core.Timer.{Channel, channel_tick}

-- `n` clock cycles of one channel.
unfoldable pub ticks : ℕ → Channel → Channel
ticks zero c = c
ticks (suc n) c = channel_tick (ticks n c)

pub ticks-add : (m n : ℕ) (c : Channel) → ticks (m + n) c ≡ ticks m (ticks n c)
unfolding ticks
ticks-add zero n c = let e : 0 + n ≡ n = omega arith in ap (λ k. ticks k c) e
ticks-add (suc m) n c =
    let e : suc m + n ≡ suc (m + n) = omega arith in
    ap (λ k. ticks k c) e ∙ ap channel_tick (ticks-add m n c)

-- A channel that counts in the given mode: programmed, loaded, its gate high.
pub record IsRunning (mode : ℕ) (c : Channel) : Type 0 where
  pub counting : c.counting ≡ true
  pub loaded : c.loaded ≡ true
  pub gate : c.gate ≡ true
  pub in_mode : c.mode ≡ mode

record Counted (c : Channel) (k : ℕ) (d : Channel) : Type 0 where
  running : IsRunning 0 d
  left : d.count ≡ (c.count + k * 65535) % 65536
  level : d.out ≡ leb c.count k

channel_tick-Counted :
    (c : Channel) (k : ℕ) (d : Channel)
    → 0 < c.count
    → c.count < 65536
    → Counted c k d
    → Counted c (suc k) (channel_tick d)
unfolding channel_tick
channel_tick-Counted c k d pos fits h = ground arith

ticks-Counted :
    (c : Channel) (k : ℕ)
    → IsRunning 0 c
    → 0 < c.count
    → c.count < 65536
    → c.out ≡ false
    → Counted c k (ticks k c)
unfolding ticks
ticks-Counted c zero r pos fits o = ground arith
ticks-Counted c (suc k) r pos fits o =
    channel_tick-Counted c k (ticks k c) pos fits (ticks-Counted c k r pos fits o)

-- Mode 0: a channel loaded with N holds OUT low for N cycles and high from then on.
pub ticks-terminal_count :
    (c : Channel) (k : ℕ)
    → IsRunning 0 c
    → 0 < c.count
    → c.count < 65536
    → c.out ≡ false
    → (ticks k c).out ≡ leb c.count k
ticks-terminal_count c k r pos fits o = (ticks-Counted c k r pos fits o).level

-- A count of `n` in a channel that is otherwise the same.
abbrev at_count : Channel → ℕ → Channel
at_count c n = record c { count = n }

-- The cycles before the count of a mode reaches its end only take it down, by one or by two.
module _ (c : Channel) (fits : c.count < 65536) where
  rate_step :
      (n : ℕ) → IsRunning 2 c → 2 < n → n < 65536 → channel_tick (at_count c n) ≡ at_count c (n - 1)
  unfolding channel_tick
  rate_step n r h k = ground arith

  rate_down : (k : ℕ) → IsRunning 2 c → k + 1 < c.count → ticks k c ≡ at_count c (c.count - k)
  unfolding ticks
  rate_down zero r h = ground arith
  rate_down (suc k) r h =
      ap channel_tick (rate_down k r (omega arith))
      ∙ rate_step (c.count - k) r (omega arith) (omega arith)
      ∙ ap (at_count c) (omega arith)

  square_step :
      (n : ℕ) → IsRunning 3 c → 3 < n → n < 65536 → channel_tick (at_count c n) ≡ at_count c (n - 2)
  unfolding channel_tick
  square_step n r h k = ground arith

  square_down : (k : ℕ) → IsRunning 3 c → k < c.count / 2 → ticks k c ≡ at_count c (c.count - 2 * k)
  unfolding ticks
  square_down zero r h = ground arith
  square_down (suc k) r h =
      ap channel_tick (square_down k r (omega arith))
      ∙ square_step (c.count - 2 * k) r (omega arith) (omega arith)
      ∙ ap (at_count c) (omega arith)

  square_last :
      (n : ℕ)
      → IsRunning 3 c
      → 1 < n
      → n < 4
      → channel_tick (at_count c n)
        ≡ record c { count = if c.out then c.reload / 2 * 2 else c.reload; out = not c.out }
  unfolding channel_tick
  square_last n r h k = ground arith

  -- One half of the square wave: OUT turns after `count / 2` cycles, and the count starts anew.
  square_turn :
      IsRunning 3 c
      → 1 < c.count
      → ticks (c.count / 2) c
        ≡ record c { count = if c.out then c.reload / 2 * 2 else c.reload; out = not c.out }
  unfolding ticks
  square_turn r h =
      let k : ℕ = c.count / 2 - 1 in
      let e : c.count / 2 ≡ suc k = omega arith in
      ap (λ n. ticks n c) e
      ∙ ap channel_tick (square_down k r (omega arith))
      ∙ square_last (c.count - 2 * k) r (omega arith) (omega arith)

-- The state at the start of the low half.
abbrev low_half : Channel → Channel
low_half c = record c { count = c.reload / 2 * 2; out = false }

ticks-high_half :
    (c : Channel)
    → IsRunning 3 c
    → c.count ≡ c.reload
    → c.out ≡ true
    → 1 < c.reload
    → c.reload < 65536
    → ticks (c.reload / 2) c ≡ low_half c
ticks-high_half c r e o h fits = ground (arith, square_turn c (omega arith) r (omega arith))

ticks-low_half :
    (c : Channel)
    → IsRunning 3 c
    → c.count ≡ c.reload
    → c.out ≡ true
    → 1 < c.reload
    → c.reload < 65536
    → ticks (c.reload / 2) (low_half c) ≡ c
ticks-low_half c r e o h fits =
    let t = square_turn (low_half c) (omega arith) (ground arith) (omega arith) in ground (arith, t)

-- Mode 3, the square wave, for a divisor N of two or more, from the start of the high half: OUT is
-- high for N / 2 cycles, then low for N / 2 cycles, and then the channel is in the same state again.
-- The period is N for an even divisor and N - 1 for an odd one.
pub ticks-square_wave :
    (c : Channel) (k : ℕ)
    → IsRunning 3 c
    → c.count ≡ c.reload
    → c.out ≡ true
    → 1 < c.reload
    → c.reload < 65536
    → k < c.reload / 2
    → ((ticks k c).out ≡ true)
      × ((ticks (k + c.reload / 2) c).out ≡ false)
      × (ticks (2 * (c.reload / 2)) c ≡ c)
ticks-square_wave c k r e o h fits in_half =
    let turn = ticks-high_half c r e o h fits in
    let half : ℕ = c.reload / 2 in
    let twice : 2 * half ≡ half + half = omega arith in
    (
      ground (arith, square_down c (omega arith) k r (omega arith)),
      ap (λ d. d.out) (ticks-add k half c ∙ ap (ticks k) turn)
          ∙ ground (arith, square_down (low_half c) (omega arith) k (ground arith) (omega arith)),
      ap (λ n. ticks n c) twice
          ∙ ticks-add half half c
          ∙ ap (ticks half) turn
          ∙ ticks-low_half c r e o h fits,
    )

rate_last :
    (c : Channel)
    → IsRunning 2 c
    → c.count ≡ c.reload
    → c.out ≡ true
    → 1 < c.reload
    → c.reload < 65536
    → ((ticks (c.reload - 1) c).out ≡ false) × (ticks c.reload c ≡ c)
unfolding ticks channel_tick
rate_last c r e o h fits =
    let k : ℕ = c.reload - 2 in
    let last : c.reload - 1 ≡ suc k = omega arith in
    let all : c.reload ≡ suc (suc k) = omega arith in
    let two : channel_tick (at_count c 2) ≡ record c { count = 1; out = false } = ground arith in
    let one : channel_tick (record c { count = 1; out = false }) ≡ c = ground arith in
    let down : ticks k c ≡ at_count c 2 =
      rate_down c (omega arith) k r (omega arith) ∙ ap (at_count c) (omega arith) in
    (
      ap (λ n. (ticks n c).out) last ∙ ap (λ d. (channel_tick d).out) down ∙ ap (λ d. d.out) two,
      ap (λ n. ticks n c) all
          ∙ ap (λ d. channel_tick (channel_tick d)) down
          ∙ ap channel_tick two
          ∙ one,
    )

-- Mode 2, the rate generator, for a divisor N of two or more, from the start of a period: OUT is
-- high for the first N - 1 cycles, low for one, and after N cycles the channel is in the same state
-- again.
pub ticks-rate :
    (c : Channel) (k : ℕ)
    → IsRunning 2 c
    → c.count ≡ c.reload
    → c.out ≡ true
    → 1 < c.reload
    → c.reload < 65536
    → k + 1 < c.reload
    → ((ticks k c).out ≡ true) × ((ticks (c.reload - 1) c).out ≡ false) × (ticks c.reload c ≡ c)
ticks-rate c k r e o h fits before = (
  ground (arith, rate_down c (omega arith) k r (omega arith)),
  (rate_last c r e o h fits).0,
  (rate_last c r e o h fits).1,
)
