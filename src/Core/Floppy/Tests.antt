-- ===== src/Core/Floppy/Tests.antt =====
-- Runs of the controller of src/core/src/floppy.c, and the theorems about it on a double-sided disk.
use ms.Base.{
  ℕ, ◌+◌, ◌*◌, ◌-◌, ◌%◌, ◌<◌, ◌≡◌, true, false, none, some, refl, subst, sym, List, [], ◌∷◌, loads,
  arith, if◌then◌else◌, ◌==◌, pos,
}
use ms.Core.Floppy.Device.{
  Drive, Fdc, File, Handle, buffered, current_drive, current_track, disk_offset, drive_ready, gap,
  idle, is_set, mech, read_sector, schedule_finish, sector_in_range,
}
use ms.Core.Floppy.Mount.{attach, fopen, mech_motor, motor_of, select, set_drive}
use ms.Core.Floppy.Commands.{
  accept, arm_type1, depart, dispatch, if_ready, is_idle, seek_to, start_type1, start_type2, write,
  write_command,
}
use ms.Core.Floppy.Phases.{
  advance, await_pulse, by_phase, decay, elapse, finish, is_due, is_reading, light, move_head,
  present, pulsed, request, search, step_pulse, tick, transfer,
}
use ms.Core.Floppy.Ends.{tick-is_due}
use ms.Core.Floppy.Seek.{seek-ticks, ticks}
use ms.Core.Floppy.Reading.{serve}
use ms.Core.Floppy.Delivery.{sector_of, serve-write}
use ms.Core.Floppy.Locked.{Locked}
use ms.Core.Floppy.Protect.{run, run-Locked, writes, passes, resets}
use ms.Core.Floppy.Layout.{disk_offset-attach}

abbrev double_sided : File
double_sided = record { bytes = λ i. (i + 7) % 256; size = 819200; may_write = true }

abbrev opened : Handle
opened = record { path = 3; update = true }

abbrev upper_side : Drive ℕ
upper_side = record {
  image = some opened;
  read_only = false;
  backend_read = none;
  backend_write = none;
  motor_on = true;
  image_offset = 5120;
  track_stride = 10240;
  activity_remaining = 0;
}

abbrev fdc : Fdc ℕ
fdc = record {
  drives = λ _. upper_side;
  selected = 2;
  head_track = λ _. 5;
  status = 0;
  command = 0;
  track_reg = 5;
  sector_reg = 4;
  data_reg = 7;
  drq = false;
  intrq = false;
  busy = false;
  buffer = λ _. 0;
  buf_pos = 0;
  buf_len = 0;
  state = idle;
  cycles_remaining = pos 0;
  step_pulses_left = 0;
  step_inward = true;
  step_rate_cycles = 45000;
  settle_cycles = 0;
  next_status = 0;
  wt_bytes_left = 0;
  wt_field = gap;
  wt_count = 0;
  wt_id = λ _. 0;
  wt_id_valid = false;
  wt_sync = false;
  wt_starved = 0;
  mech_cb = none;
  spinning = λ _. false;
  files = λ path. if path == 3 then some double_sided else none;
  host = 0;
}

rate_armed : (write fdc 0 0x10).step_rate_cycles ≡ 45000
unfolding write write_command accept dispatch start_type1 seek_to arm_type1 depart mech
    current_track
rate_armed = refl

tick-is_due_example : is_due (tick (write fdc 0 0x10) 1000000) ≡ false
tick-is_due_example =
    tick-is_due (write fdc 0 0x10) 1000000 (subst (λ r. 0 < r) (sym rate_armed) (omega arith))

abbrev times : List ℕ
times = 45000 ∷ 45000 ∷ 240 ∷ []

seek_over : is_idle (ticks (write fdc 0 0x10) times).state ≡ true
unfolding write write_command accept dispatch start_type1 seek_to arm_type1 depart mech
    current_track ticks tick advance elapse decay light is_due by_phase step_pulse move_head pulsed
    await_pulse schedule_finish finish
seek_over = refl

seek-ticks_example :
    (current_track (ticks (write fdc 0 0x10) times) ≡ 7)
    × ((ticks (write fdc 0 0x10) times).intrq ≡ true)
seek-ticks_example = seek-ticks fdc 0x10 times refl seek_over

serve-write_example :
    (serve (240 ∷ 500 ∷ 240 ∷ []) (tick (write fdc 0 0x80) 40000)).0
    ≡ loads (sector_of fdc opened) 0 3
unfolding drive_ready current_drive sector_in_range is_set
serve-write_example =
    serve-write fdc 0x80 opened 40000 (240 ∷ 500 ∷ 240 ∷ []) (omega arith) refl refl refl refl refl
      (omega arith) (omega arith, (omega arith, (omega arith, tt))) (omega arith)

disk_offset-attach_example :
    disk_offset ((attach fdc 3 3 true).1.drives 3) 2 10 ≡ ((2 * 2 + 1) * 10 + (10 - 1)) * 512
unfolding fopen
disk_offset-attach_example = disk_offset-attach fdc 3 3 true double_sided 2 10 (omega arith) refl

abbrev locked : Fdc ℕ
locked = record fdc { drives = λ _. record upper_side { read_only = true } }

locked-Locked : Locked fdc.files locked
unfolding Locked
locked-Locked = (refl, λ i. refl)

run-Locked_example :
    Locked fdc.files (run locked (writes 0 0xa0 ∷ passes 40000 ∷ writes 3 9 ∷ resets ∷ []))
run-Locked_example =
    run-Locked fdc.files (writes 0 0xa0 ∷ passes 40000 ∷ writes 3 9 ∷ resets ∷ []) locked
      locked-Locked

-- A RESTORE of a head at track 0 makes no pulse, and leaves the track register as it was.
abbrev at_zero : Fdc ℕ
at_zero = record fdc { head_track = λ _. 0; track_reg = 9 }

restored : (ticks (write at_zero 0 0x00) (240 ∷ [])).track_reg ≡ 9
unfolding write write_command accept dispatch start_type1 seek_to arm_type1 current_track
    schedule_finish ticks tick advance elapse decay light is_due by_phase finish
restored = refl

-- Drive 2 of the lower side is the unit of drive 0's upper side.
drive_two : (select fdc 2 0 true).selected ≡ (select fdc 0 1 true).selected
unfolding select set_drive mech_motor motor_of mech
drive_two = refl

-- A tick of a long command: a byte that nobody takes is waited for.
waits_for_byte : (ticks (write fdc 0 0x80) (37500 ∷ 240 ∷ 240 ∷ [])).drq ≡ true
unfolding write write_command accept dispatch start_type2 if_ready drive_ready current_drive is_set
    ticks tick advance elapse decay light is_due by_phase search is_reading read_sector
    sector_in_range present request transfer buffered
waits_for_byte = refl
