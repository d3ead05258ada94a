-- ===== src/Core/Timer/Valid.antt =====
-- The ranges of the fields of src/core/src/timer.c, kept by every operation.
use ms.Base.{
  ℕ, ◌/◌, ◌%◌, ◌<◌, ◌≤◌, ◌≡◌, Bool, Option, none, some, arith, List, Option-cases, inl, inr, [],
  ◌∷◌,
}
use ms.Core.Timer.{
  write_control, on_channel, Channel, Timer, init, channel, set_channel, channel_tick, tick,
  latch_count, program, load_byte, write, take_byte, read, channel_gate, set_gate,
}

-- The counters fit 16 bits, and mode and access mode are what a control word can set.
pub record IsValid (c : Channel) : Type 0 where
  pub count_fits : c.count < 65536
  pub reload_fits : c.reload < 65536
  pub latch_fits : c.latch < 65536
  pub mode_known : c.mode ≤ 5
  pub access_known : c.rw_mode ≤ 3

pub record AllValid (t : Timer) : Type 0 where
  pub valid0 : IsValid t.ch0
  pub valid1 : IsValid t.ch1
  pub valid2 : IsValid t.ch2

pub init-AllValid : AllValid init
unfolding init
init-AllValid = ground arith

pub channel_tick-IsValid : (c : Channel) → IsValid c → IsValid (channel_tick c)
unfolding channel_tick
channel_tick-IsValid c v = ground arith

-- A clock cycle keeps the channels in range.
pub tick-AllValid : (t : Timer) → AllValid t → AllValid (tick t)
unfolding tick
tick-AllValid t v = record {
  valid0 = channel_tick-IsValid t.ch0 v.valid0;
  valid1 = channel_tick-IsValid t.ch1 v.valid1;
  valid2 = channel_tick-IsValid t.ch2 v.valid2;
}

latch_count-IsValid : (c : Channel) → IsValid c → IsValid (latch_count c)
unfolding latch_count
latch_count-IsValid c v = ground arith

program-IsValid : (c : Channel) (rw value : ℕ) → rw ≤ 3 → IsValid c → IsValid (program c rw value)
unfolding program
program-IsValid c rw value h v = ground arith

load_byte-IsValid :
    (c : Channel) (value : ℕ) → value < 256 → IsValid c → IsValid (load_byte c value)
unfolding load_byte
load_byte-IsValid c value h v = ground arith

take_byte-IsValid : (c : Channel) → IsValid c → IsValid (take_byte c).1
unfolding take_byte
take_byte-IsValid c v = ground arith

channel_gate-IsValid : (c : Channel) (state : Bool) → IsValid c → IsValid (channel_gate c state)
unfolding channel_gate
channel_gate-IsValid c state v = ground arith

set_channel-AllValid :
    (t : Timer) (i : ℕ) (c : Channel) → AllValid t → IsValid c → AllValid (set_channel t i c)
set_channel-AllValid t i c v h = ground arith

channel-IsValid : (t : Timer) (i : ℕ) {c : Channel} → AllValid t → channel t i ≡ some c → IsValid c
channel-IsValid t i v e = ground arith

-- A call of the bus, of the board or of the clock, with a byte where it writes one.
pub data Op : Type 0 where
  do_tick do_reset : Op
  do_write : (reg value : ℕ) → value < 256 → Op
  do_read : (reg : ℕ) → Op
  do_gate : (i : ℕ) → Bool → Op

unfoldable pub apply : Timer → Op → Option Timer
apply t do_tick = some (tick t)
apply t do_reset = some init
apply t (do_write reg value h) = write t reg value
apply t (do_read reg) = elim (read t reg) [ none ↦ none | some (value, u) ↦ some u ]
apply t (do_gate i state) = some (set_gate t i state)

unfoldable pub run : Timer → List Op → Option Timer
unfolding apply
run t [] = some t
run t (op ∷ ops) = elim (apply t op) [ none ↦ none | some u ↦ run u ops ]

on_channel-AllValid :
    (t : Timer) (i : ℕ) (f : Channel → Channel) {u : Timer}
    → ((c : Channel) → IsValid c → IsValid (f c))
    → AllValid t
    → on_channel t i f ≡ some u
    → AllValid u
on_channel-AllValid t i f keep v e =
    ground (arith, keep t.ch0 v.valid0, keep t.ch1 v.valid1, keep t.ch2 v.valid2)

write_control-AllValid :
    (t : Timer) (value : ℕ) {u : Timer} → AllValid t → write_control t value ≡ some u → AllValid u
unfolding write_control
write_control-AllValid t value {u} v e =
    let rw_fits : value / 16 % 4 ≤ 3 = omega arith in
    ground (
      arith,
      on_channel-AllValid t (value / 64 % 4) latch_count {u = u} latch_count-IsValid v,
      on_channel-AllValid t (value / 64 % 4) (λ c. program c (value / 16 % 4) value) {u = u}
          (λ c. program-IsValid c (value / 16 % 4) value rw_fits) v,
    )

write-AllValid :
    (t : Timer) (reg value : ℕ) {u : Timer}
    → value < 256
    → AllValid t
    → write t reg value ≡ some u
    → AllValid u
unfolding write
write-AllValid t reg value {u} h v e = ground (
  arith,
  write_control-AllValid t value {u = u} v,
  on_channel-AllValid t reg (λ c. load_byte c value) {u = u} (λ c. load_byte-IsValid c value h) v,
)

read-AllValid :
    (t : Timer) (reg : ℕ) {r : ℕ × Timer} → AllValid t → read t reg ≡ some r → AllValid r.1
unfolding read
read-AllValid t reg v e = ground (
  arith,
  take_byte-IsValid t.ch0 v.valid0,
  take_byte-IsValid t.ch1 v.valid1,
  take_byte-IsValid t.ch2 v.valid2,
)

set_gate-AllValid : (t : Timer) (i : ℕ) (state : Bool) → AllValid t → AllValid (set_gate t i state)
unfolding set_gate
set_gate-AllValid t i state v = ground (
  arith,
  channel_gate-IsValid t.ch0 state v.valid0,
  channel_gate-IsValid t.ch1 state v.valid1,
  channel_gate-IsValid t.ch2 state v.valid2,
)

apply-AllValid : (t : Timer) (op : Op) {u : Timer} → AllValid t → apply t op ≡ some u → AllValid u
unfolding apply
apply-AllValid t do_tick v e = ground (arith, tick-AllValid t v)
apply-AllValid t do_reset v e = ground (arith, init-AllValid)
apply-AllValid t (do_write reg value h) v e = write-AllValid t reg value h v e
apply-AllValid t (do_read reg) v e = elim (Option-cases (read t reg)) [
  | inl n ↦ ground (arith, n)
  | inr (r, s) ↦ ground (arith, s, read-AllValid t reg v s)
]
apply-AllValid t (do_gate i state) v e = ground (arith, set_gate-AllValid t i state v)

-- Whatever the bus, the board and the clock do, the counters stay in 16 bits, and mode and access
-- mode in the values that a control word can set.
pub run-AllValid :
    (ops : List Op) (t : Timer) {u : Timer} → AllValid t → run t ops ≡ some u → AllValid u
unfolding run
run-AllValid [] t v e = ground arith
run-AllValid (op ∷ ops) t {u} v e = elim (Option-cases (apply t op)) [
  | inl n ↦ ground (arith, n)
  | inr (w, s) ↦ run-AllValid ops w (apply-AllValid t op v s) (ground (arith, s))
]
