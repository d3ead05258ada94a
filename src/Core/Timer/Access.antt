-- ===== src/Core/Timer/Access.antt =====
-- The bus side of src/core/src/timer.c: loading a divisor in two bytes, and the counter latch.
use ms.Base.{
  ℕ, suc, zero, ◌+◌, ◌*◌, ◌<◌, ◌≡◌, true, false, Option, some, arith, word, low, high, refl, ap,
  ◌>>=◌, not, ◌==◌, ◌≢◌, ◌≤◌, ◌∙◌,
}
use ms.Core.Timer.{
  Channel, Timer, channel, set_channel, channel_tick, tick, latch_count, program, load_byte, write,
  write_control, take_byte, read,
}
use ms.Core.Timer.Wave.{ticks}

-- `n` clock cycles of the timer.
unfoldable pub run_ticks : ℕ → Timer → Timer
unfolding tick
run_ticks zero t = t
run_ticks (suc n) t = tick (run_ticks n t)

ch-run_ticks :
    (n : ℕ) (t : Timer)
    → ((run_ticks n t).ch0 ≡ ticks n t.ch0)
      × ((run_ticks n t).ch1 ≡ ticks n t.ch1)
      × ((run_ticks n t).ch2 ≡ ticks n t.ch2)
unfolding run_ticks ticks
ch-run_ticks zero t = (refl, refl, refl)
ch-run_ticks (suc n) t =
    let h = ch-run_ticks n t in (ap channel_tick h.0, ap channel_tick h.1, ap channel_tick h.2)

-- Every channel runs by itself.
pub channel-run_ticks :
    (n : ℕ) (t : Timer) (i : ℕ) (c : Channel)
    → channel t i ≡ some c
    → channel (run_ticks n t) i ≡ some (ticks n c)
channel-run_ticks n t i c e = ground (arith, ch-run_ticks n t)

record SameLatch (c d : Channel) : Type 0 where
  latch : d.latch ≡ c.latch
  latched : d.latched ≡ c.latched
  rw_mode : d.rw_mode ≡ c.rw_mode
  next : d.read_lsb_next ≡ c.read_lsb_next

channel_tick-SameLatch : (c d : Channel) → SameLatch c d → SameLatch c (channel_tick d)
unfolding channel_tick
channel_tick-SameLatch c d h = ground arith

ticks-SameLatch : (n : ℕ) (c : Channel) → SameLatch c (ticks n c)
unfolding ticks
ticks-SameLatch zero c = ground arith
ticks-SameLatch (suc n) c = channel_tick-SameLatch c (ticks n c) (ticks-SameLatch n c)

-- One register access at a time, on the channel that it names.
module _ (t : Timer) (i : ℕ) (c : Channel) (e : channel t i ≡ some c) where
  channel-set_self : (d : Channel) → channel (set_channel t i d) i ≡ some d
  channel-set_self d = ground arith

  channel-set_ne : (d : Channel) (j : ℕ) → j ≢ i → channel (set_channel t i d) j ≡ channel t j
  channel-set_ne d j ne = ground arith

  write_control-latch : write t 3 (i * 64) ≡ some (set_channel t i (latch_count c))
  unfolding write write_control
  write_control-latch = ground arith

  write-control :
      (m : ℕ)
      → m ≤ 5
      → write t 3 (i * 64 + 48 + m * 2) ≡ some (set_channel t i (program c 3 (i * 64 + 48 + m * 2)))
  unfolding write write_control
  write-control m h = ground arith

  write-data : (v : ℕ) → write t i v ≡ some (set_channel t i (load_byte c v))
  unfolding write
  write-data v = ground arith

  read-data : read t i ≡ some ((take_byte c).0, set_channel t i (take_byte c).1)
  unfolding read
  read-data = ground arith

-- Two reads of channel `i`, with `n` cycles before the first and `m` before the second.
unfoldable pub read_twice : Timer → ℕ → ℕ → ℕ → Option (ℕ × ℕ)
read_twice t i n m = do
  lo ← read (run_ticks n t) i
  hi ← read (run_ticks m lo.1) i
  some (lo.0, hi.0)

-- The first byte of a latched channel is the low byte of the latch, and the second the high byte.
take_low :
    (c : Channel)
    → c.rw_mode ≡ 3
    → c.latched ≡ true
    → c.read_lsb_next ≡ true
    → take_byte c ≡ (low c.latch, record c { read_lsb_next = false })
unfolding take_byte
take_low c r l f = ground arith

take_high :
    (c : Channel)
    → c.rw_mode ≡ 3
    → c.latched ≡ true
    → c.read_lsb_next ≡ false
    → (take_byte c).0 ≡ high c.latch
unfolding take_byte
take_high c r l f = ground arith

read_twice_lem :
    (t : Timer) (i n m : ℕ) (c : Channel)
    → channel t i ≡ some c
    → c.rw_mode ≡ 3
    → c.latched ≡ true
    → c.read_lsb_next ≡ true
    → read_twice t i n m ≡ some (low c.latch, high c.latch)
unfolding read_twice
read_twice_lem t i n m c e r l f =
    let c' = ticks n c in
    let t' = run_ticks n t in
    let e' = channel-run_ticks n t i c e in
    let lo = take_byte c' in
    let u = set_channel t' i lo.1 in
    let d = ticks m lo.1 in
    let d' = channel-run_ticks m u i lo.1 (channel-set_self t' i c' e' lo.1) in
    rw (read-data t' i c' e') (
      rw (read-data (run_ticks m u) i d d')
        (ground (arith, take_low c', take_high d, ticks-SameLatch n c, ticks-SameLatch m lo.1)))

-- The counter latch command freezes what the CPU reads: the next two reads of the channel give the
-- low and the high byte of the count at the moment of the command, however long the CPU takes.
pub read_twice-latch :
    (t : Timer) (i n m : ℕ) {c : Channel}
    → channel t i ≡ some c
    → c.rw_mode ≡ 3
    → (write t 3 (i * 64) >>= λ u. read_twice u i n m) ≡ some (low c.count, high c.count)
unfolding latch_count
read_twice-latch t i n m {c} e r = rw (write_control-latch t i c e) (
    read_twice_lem (set_channel t i (latch_count c)) i n m (latch_count c)
      (channel-set_self t i c e (latch_count c)) r refl refl)

-- A channel that counts from a divisor, as the channel `c` was set to in mode `m`.
pub record Divided (c : Channel) (m n : ℕ) (d : Channel) : Type 0 where
  pub count : d.count ≡ n
  pub reload : d.reload ≡ n
  pub mode : d.mode ≡ m
  pub counting : d.counting ≡ true
  pub loaded : d.loaded ≡ true
  pub gate : d.gate ≡ c.gate
  pub out : d.out ≡ not (m == 0)

divisor_loaded :
    (c : Channel) (i m lo hi : ℕ)
    → m ≤ 5
    → lo < 256
    → hi < 256
    → Divided c m (word lo hi) (load_byte (load_byte (program c 3 (i * 64 + 48 + m * 2)) lo) hi)
unfolding program load_byte
divisor_loaded c i m lo hi hm hl hh = ground arith

-- The three bytes that give channel `i` a divisor: the control word for mode `m` with both bytes,
-- then the low byte and the high byte.
unfoldable pub set_divisor : Timer → ℕ → ℕ → ℕ → ℕ → Option Timer
unfolding write
set_divisor t i m lo hi = do u ← write t 3 (i * 64 + 48 + m * 2); v ← write u i lo; write v i hi

-- After them the channel counts from the divisor in that mode, with OUT high unless the mode is 0;
-- its gate is as before, and so are the other channels.
pub set_divisor_lem :
    (t : Timer) (i m lo hi : ℕ) {c : Channel}
    → channel t i ≡ some c
    → m ≤ 5
    → lo < 256
    → hi < 256
    → (u : Timer) × (set_divisor t i m lo hi ≡ some u)
      × ((d : Channel) × (channel u i ≡ some d) × Divided c m (word lo hi) d)
      × ((j : ℕ) → j ≢ i → channel u j ≡ channel t j)
unfolding set_divisor
set_divisor_lem t i m lo hi {c} e hm hl hh =
    let c1 = program c 3 (i * 64 + 48 + m * 2) in
    let c2 = load_byte c1 lo in
    let c3 = load_byte c2 hi in
    let t1 = set_channel t i c1 in
    let t2 = set_channel t1 i c2 in
    let e1 = channel-set_self t i c e c1 in
    let e2 = channel-set_self t1 i c1 e1 c2 in
    (
      set_channel t2 i c3,
      rw (write-control t i c e m hm) (rw (write-data t1 i c1 e1 lo) (write-data t2 i c2 e2 hi)),
      (c3, channel-set_self t2 i c2 e2 c3, divisor_loaded c i m lo hi hm hl hh),
      λ j ne.
          channel-set_ne t2 i c2 e2 c3 j ne
          ∙ channel-set_ne t1 i c1 e1 c2 j ne
          ∙ channel-set_ne t i c e c1 j ne,
    )
