-- ===== src/Core/Timer/Tests.antt =====
-- Runs of src/core/src/timer.c, and the theorems about it at a divisor of 4 or 5.
use ms.Base.{ℕ, ◌≡◌, Bool, true, false, some, List, [], ◌∷◌, refl, arith, ◌>>=◌}
use ms.Core.Timer.{
  Channel, Timer, channel_tick, init, channel, write_control, latch_count, program, load_byte, read,
  set_gate, get_out, reset,
}
use ms.Core.Timer.Valid.{Op, do_tick, do_read, do_write, do_gate}
use ms.Core.Timer.Wave.{IsRunning, ticks, ticks-square_wave}
use ms.Core.Timer.Access.{set_divisor}

-- A channel that was given the divisor n in mode m.
abbrev counting_channel : ℕ → ℕ → Bool → Channel
counting_channel m n out = record {
  count = n;
  reload = n;
  latch = 0;
  latched = false;
  mode = m;
  rw_mode = 3;
  bcd = false;
  write_lsb_next = true;
  read_lsb_next = true;
  gate = true;
  out = out;
  counting = true;
  loaded = true;
}

abbrev idle : Channel
idle = record (counting_channel 1 3 true) { gate = false; counting = false }

abbrev timer : Timer
timer = record { ch0 = counting_channel 3 0x1234 true; ch1 = counting_channel 2 4 true; ch2 = idle }

-- Programming channel 2 for mode 3 with 0x0102 from the reset state.
programmed : (set_divisor init 2 3 2 1 >>= λ t. channel t 2) ≡ some (counting_channel 3 0x102 true)
unfolding set_divisor init write_control latch_count program load_byte
programmed = refl

-- The square wave of 5: two cycles high, two low.
square_runs : (ticks 2 (counting_channel 3 5 true)).out ≡ false
unfolding ticks channel_tick
square_runs = refl

control_is_write_only : read timer 3 ≡ some (0xff, timer)
unfolding read
control_is_write_only = refl

no_fourth_channel : get_out timer 3 ≡ false
unfolding get_out
no_fourth_channel = refl

reset_is_init : reset timer ≡ init
unfolding reset
reset_is_init = refl

set_gate_ignored : set_gate timer 3 false ≡ timer
unfolding set_gate
set_gate_ignored = refl

abbrev calls : List Op
calls =
    do_write 3 0x36 (omega arith)
    ∷ do_write 0 7 (omega arith)
    ∷ do_tick
    ∷ do_read 0
    ∷ do_gate 0 true
    ∷ []

-- The low byte of the divisor has gone in, and the low byte of the count out.
abbrev half_loaded : Channel
half_loaded = record {
  count = 0;
  reload = 7;
  latch = 0;
  latched = false;
  mode = 3;
  rw_mode = 3;
  bcd = false;
  write_lsb_next = false;
  read_lsb_next = false;
  gate = true;
  out = true;
  counting = false;
  loaded = false;
}

running : (m n : ℕ) (level : Bool) → IsRunning m (counting_channel m n level)
running m n level = record { counting = refl; loaded = refl; gate = refl; in_mode = refl }

ticks-square_wave_example :
    let c = counting_channel 3 5 true in
    ((ticks 1 c).out ≡ true) × ((ticks 3 c).out ≡ false) × (ticks 4 c ≡ c)
ticks-square_wave_example =
    ticks-square_wave (counting_channel 3 5 true) 1 (running 3 5 true) refl refl (omega arith)
      (omega arith) (omega arith)
