-- ===== src/Core/Timer.antt =====
-- src/core/src/timer.c and its header: the programmable interval timer (8253), three channels.
-- A register or channel number that would index past `ch[3]` is `none`.
pub mod Valid
pub mod Wave
pub mod Pulse
pub mod Access
mod Tests
use ms.Base.{
  ℕ, ◌/◌, ◌%◌, Bool, true, false, not, ◌&&◌, ◌||◌, Option, none, some, ◌==◌, ltb, if◌then◌else◌,
  has_bit, low, high, u8, with_low, with_high, dec16, dec16_two, ◌*◌, ◌+◌, ◌-◌,
}

-- `timer_channel_t`
pub record Channel : Type 0 where
  pub count : ℕ
  pub reload : ℕ
  pub latch : ℕ
  pub latched : Bool
  pub mode : ℕ
  pub rw_mode : ℕ
  pub bcd : Bool
  pub write_lsb_next : Bool
  pub read_lsb_next : Bool
  pub gate : Bool
  pub out : Bool
  pub counting : Bool
  pub loaded : Bool

-- `ms0515_timer_t`
pub record Timer : Type 0 where
  pub ch0 : Channel
  pub ch1 : Channel
  pub ch2 : Channel

-- `channel_init`: all zero and false, then the four flags that start high.
unfoldable pub channel_init : Channel
channel_init = record {
  count = 0;
  reload = 0;
  latch = 0;
  latched = false;
  mode = 0;
  rw_mode = 0;
  bcd = false;
  write_lsb_next = true;
  read_lsb_next = true;
  gate = true;
  out = true;
  counting = false;
  loaded = false;
}

-- `timer_init`, and `timer_reset`, which calls it.
unfoldable pub init : Timer
unfolding channel_init
init = record { ch0 = channel_init; ch1 = channel_init; ch2 = channel_init }

unfoldable pub reset : Timer → Timer
unfolding init
reset t = init

-- `timer->ch[i]`
abbrev pub channel : Timer → ℕ → Option Channel
channel t i =
    if i == 0
    then some t.ch0
    else if i == 1
    then some t.ch1
    else if i == 2
    then some t.ch2
    else none

abbrev pub set_channel : Timer → ℕ → Channel → Timer
set_channel t i c =
    if i == 0
    then record t { ch0 = c }
    else if i == 1
    then record t { ch1 = c }
    else record t { ch2 = c }

-- The cases of the switch in `channel_tick`, one function for each.
tick_count : Channel → Channel
tick_count c = let n = dec16 c.count in record c { count = n; out = if n == 0 then true else c.out }

tick_one_shot : Channel → Channel
tick_one_shot c =
    let n = dec16 c.count in
    if n == 0 then record c { count = n; out = true; counting = false } else record c { count = n }

tick_rate : Channel → Channel
tick_rate c =
    let n = dec16 c.count in
    if n == 1
    then record c { count = n; out = false }
    else if n == 0
    then record c { count = c.reload; out = true }
    else record c { count = n }

tick_square : Channel → Channel
tick_square c =
    let n = dec16_two c.count in
    if n == 0 || n == 1
    then record c { count = if c.out then c.reload / 2 * 2 else c.reload; out = not c.out }
    else record c { count = n }

tick_strobe : Channel → Channel
tick_strobe c =
    let n = dec16 c.count in
    if n == 0
    then record c { count = n; out = false; counting = false }
    else record c { count = n; out = true }

-- `channel_tick`
unfoldable pub channel_tick : Channel → Channel
unfolding tick_count tick_one_shot tick_rate tick_square tick_strobe
channel_tick c =
    if not c.counting || not c.loaded
    then c
    else if not c.gate && not (c.mode == 1) && not (c.mode == 5)
    then c
    else if c.mode == 0
    then tick_count c
    else if c.mode == 1
    then tick_one_shot c
    else if c.mode == 2
    then tick_rate c
    else if c.mode == 3
    then tick_square c
    else if c.mode == 4
    then tick_strobe c
    else if c.mode == 5
    then tick_strobe c
    else c

-- `timer_tick`
unfoldable pub tick : Timer → Timer
unfolding channel_tick
tick t = record { ch0 = channel_tick t.ch0; ch1 = channel_tick t.ch1; ch2 = channel_tick t.ch2 }

-- The counter latch command of `timer_write`.
unfoldable pub latch_count : Channel → Channel
latch_count c = record c { latch = c.count; latched = true; read_lsb_next = true }

-- Modes 6 and 7 stand for 2 and 3.
abbrev mode_of : ℕ → ℕ
mode_of value = let mode = value / 2 % 8 in if ltb 5 mode then mode % 4 else mode

-- The rest of a control word in `timer_write`.
unfoldable pub program : Channel → ℕ → ℕ → Channel
program c rw value = record c {
  mode = mode_of value;
  bcd = has_bit value 0;
  rw_mode = rw;
  write_lsb_next = rw == 1 || rw == 3;
  read_lsb_next = rw == 1 || rw == 3;
  counting = false;
  loaded = false;
  out = not (mode_of value == 0);
}

-- A data byte in `timer_write`.
unfoldable pub load_byte : Channel → ℕ → Channel
load_byte c value =
    if c.rw_mode == 1
    then record c { reload = value; count = value; loaded = true; counting = true }
    else if c.rw_mode == 2
    then record c { reload = value * 256; count = value * 256; loaded = true; counting = true }
    else if c.rw_mode == 3
    then if c.write_lsb_next
      then record c { reload = with_low c.reload value; write_lsb_next = false }
      else record c {
        reload = with_high c.reload value;
        count = with_high c.reload value;
        loaded = true;
        counting = true;
        write_lsb_next = true;
      }
    else c

abbrev on_channel : Timer → ℕ → (Channel → Channel) → Option Timer
on_channel t i f = elim (channel t i) [ none ↦ none | some c ↦ some (set_channel t i (f c)) ]

-- Register 3 in `timer_write`: the control word.
unfoldable pub write_control : Timer → ℕ → Option Timer
write_control t value =
    let ch_num = value / 64 % 4 in
    let rw = value / 16 % 4 in
    if ch_num == 3
    then some t
    else if rw == 0
    then on_channel t ch_num latch_count
    else on_channel t ch_num (λ c. program c rw value)

-- `timer_write`
unfoldable pub write : Timer → ℕ → ℕ → Option Timer
write t reg value =
    if reg == 3 then write_control t value else on_channel t reg (λ c. load_byte c value)

-- A data read in `timer_read`: the byte, and the channel after it.
unfoldable pub take_byte : Channel → ℕ × Channel
take_byte c =
    let val = if c.latched then c.latch else c.count in
    if c.rw_mode == 1
    then (low val, record c { latched = false })
    else if c.rw_mode == 2
    then (high val, record c { latched = false })
    else if c.rw_mode == 3
    then if c.read_lsb_next
      then (low val, record c { read_lsb_next = false })
      else (high val, record c { read_lsb_next = true; latched = false })
    else (0, c)

-- `timer_read`
unfoldable pub read : Timer → ℕ → Option (ℕ × Timer)
read t reg = if reg == 3 then some (0xff, t) else elim (channel t reg) [
  | none ↦ none
  | some c ↦ let (value, c') = take_byte c in some (value, set_channel t reg c')
]

-- The gate of one channel in `timer_set_gate`: on a rising edge the mode restarts, and a low gate
-- forces OUT high in modes 2 and 3.
unfoldable pub channel_gate : Channel → Bool → Channel
channel_gate c state =
    let rising = not c.gate && state in
    let d =
      if rising && (c.mode == 1 || c.mode == 5)
      then record c { gate = state; count = c.reload; out = false; counting = true }
      else if rising && (c.mode == 2 || c.mode == 3)
      then record c { gate = state; count = c.reload; counting = true }
      else record c { gate = state } in
    if not state && (c.mode == 2 || c.mode == 3) then record d { out = true } else d

-- `timer_set_gate`: a channel outside 0 to 2 is ignored.
unfoldable pub set_gate : Timer → ℕ → Bool → Timer
set_gate t i state = elim (channel t i) [
  | none ↦ t
  | some c ↦ set_channel t i (channel_gate c state)
]

-- `timer_get_out`
unfoldable pub get_out : Timer → ℕ → Bool
get_out t i = elim (channel t i) [ none ↦ false | some c ↦ c.out ]
