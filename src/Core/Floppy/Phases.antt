-- ===== src/Core/Floppy/Phases.antt =====
-- The state machine of src/core/src/floppy.c: `fdc_tick`, a phase of it at a time.
use ms.Base.{
  ℕ, zero, suc, ◌+◌, ◌-◌, ◌%◌, Bool, true, false, not, ◌&&◌, ◌||◌, ◌==◌, ltb, leb, if◌then◌else◌,
  store, pos, ◌+ℤ◌, ◌-ℤ◌, ltb_ℤ, neg_part, bit_and, bit_or, has_bit, u8,
}
use ms.Core.Floppy.Device.{
  Fdc, Phase, idle, type1_step, type2_search, type2_data, type3_track, finishing, byte_cycles,
  current_track, finish_cycles, lamp_cycles, logical_units, min_cmd_cycles, read_sector,
  schedule_finish, sectors, st_busy, st_lost_data, st_seek_error, track_starve_cycles, tracks,
  type1_status, write_sector,
}
use ms.Core.Floppy.Commands.{is_idle}

-- The head's track after a pulse.
unfoldable pub pulsed : Bool → ℕ → ℕ
pulsed inward track =
    if inward then if leb tracks (track + 1) then tracks - 1 else track + 1 else track - 1

module _ {H : Type 0} where
  -- The processor has a byte to read or to write, and a byte time for it.
  unfoldable pub request : Fdc H → Fdc H
  request fdc = record fdc {
    drq = true;
    cycles_remaining = fdc.cycles_remaining +ℤ pos byte_cycles;
  }

  -- `tick_write_track`
  unfoldable pub tick_write_track : Fdc H → Fdc H
  tick_write_track fdc =
      let starved = fdc.wt_starved + byte_cycles in
      let starving = record fdc { wt_starved = starved } in
      if fdc.drq
      then if leb track_starve_cycles starved
        then schedule_finish starving (bit_or fdc.next_status st_lost_data) min_cmd_cycles
        else record starving { cycles_remaining = fdc.cycles_remaining +ℤ pos byte_cycles }
      else if ltb 0 fdc.wt_bytes_left
      then request (record fdc { wt_starved = 0 })
      else schedule_finish fdc fdc.next_status finish_cycles

  -- The head, the track register and the pulses of the TYPE1_STEP phase.
  unfoldable pub move_head : Fdc H → Fdc H
  move_head fdc =
      let cmd_grp = bit_and fdc.command 0xf0 in
      let track = pulsed fdc.step_inward (current_track fdc) in
      record fdc {
        head_track = store fdc.head_track (fdc.selected % 2) track;
        step_pulses_left = fdc.step_pulses_left - 1;
        track_reg =
            if cmd_grp == 0x00
            then 0
            else if cmd_grp == 0x10 || has_bit fdc.command 4
            then u8 track
            else fdc.track_reg;
      }

  -- The wait for the next pulse.
  unfoldable pub await_pulse : Fdc H → Fdc H
  await_pulse fdc = record fdc {
    cycles_remaining = fdc.cycles_remaining +ℤ pos fdc.step_rate_cycles;
    status = type1_status fdc true;
  }

  -- The TYPE1_STEP phase.
  unfoldable pub step_pulse : Fdc H → Fdc H
  step_pulse fdc =
      let moved = move_head fdc in
      if ltb 0 moved.step_pulses_left
      then await_pulse moved
      else schedule_finish moved (type1_status moved false) moved.settle_cycles

  -- `fdc->data_reg = fdc->buffer[fdc->buf_pos++]`, and a request to read it.
  unfoldable pub present : Fdc H → Fdc H
  present fdc =
      request (record fdc { data_reg = fdc.buffer fdc.buf_pos; buf_pos = suc fdc.buf_pos })

  unfoldable pub is_reading : Fdc H → Bool
  is_reading fdc = bit_and fdc.command 0xe0 == 0x80

  -- The TYPE2_SEARCH phase.
  unfoldable pub search : Fdc H → Fdc H
  search fdc =
      let (ok, found) = read_sector fdc in
      if is_reading fdc
      then if not ok
        then schedule_finish found st_seek_error min_cmd_cycles
        else present (record found { status = st_busy; state = type2_data })
      else request (record fdc { buf_pos = 0; status = st_busy; state = type2_data })

  -- The next sector of a READ SECTOR with the multiple flag.
  unfoldable pub read_next : Fdc H → Fdc H
  read_next fdc0 =
      let fdc = record fdc0 { sector_reg = u8 (fdc0.sector_reg + 1) } in
      let (ok, found) = read_sector fdc in
      if ltb sectors fdc.sector_reg
      then schedule_finish fdc fdc.status finish_cycles
      else if not ok
      then schedule_finish found (bit_or found.status st_seek_error) min_cmd_cycles
      else present found

  -- The TYPE2_DATA phase of a READ SECTOR that has been served.
  unfoldable pub read_byte : Fdc H → Fdc H
  read_byte fdc =
      if ltb fdc.buf_pos fdc.buf_len
      then present fdc
      else if has_bit fdc.command 4
      then read_next fdc
      else schedule_finish fdc fdc.status finish_cycles

  -- A full buffer of a WRITE SECTOR.
  unfoldable pub flush : Fdc H → Fdc H
  flush fdc =
      let (ok, written) = write_sector fdc in
      if not ok
      then schedule_finish written (bit_or written.status st_seek_error) min_cmd_cycles
      else if has_bit written.command 4 && ltb written.sector_reg sectors
      then request
          (record written { sector_reg = suc written.sector_reg; buffer = λ _. 0; buf_pos = 0 })
      else schedule_finish written written.status finish_cycles

  -- The TYPE2_DATA phase of a WRITE SECTOR that has been served.
  unfoldable pub write_byte : Fdc H → Fdc H
  write_byte fdc0 =
      let fdc = record fdc0 { buf_pos = suc fdc0.buf_pos } in
      if ltb fdc.buf_pos fdc.buf_len then request fdc else flush fdc

  -- The TYPE2_DATA phase.
  unfoldable pub transfer : Fdc H → Fdc H
  transfer fdc =
      if fdc.drq
      then record fdc { cycles_remaining = fdc.cycles_remaining +ℤ pos byte_cycles }
      else if is_reading fdc
      then read_byte fdc
      else write_byte fdc

  -- The FINISH phase.
  unfoldable pub finish : Fdc H → Fdc H
  finish fdc = record fdc {
    status = fdc.next_status;
    busy = false;
    drq = false;
    intrq = true;
    state = idle;
    cycles_remaining = pos 0;
  }

  -- The switch of `fdc_tick`.
  unfoldable pub by_phase : Fdc H → Phase → Fdc H
  by_phase fdc type1_step = step_pulse fdc
  by_phase fdc type2_search = search fdc
  by_phase fdc type2_data = transfer fdc
  by_phase fdc type3_track = tick_write_track fdc
  by_phase fdc finishing = finish fdc
  by_phase fdc idle = fdc

  -- The condition of the loop of `fdc_tick`.
  unfoldable pub is_due : Fdc H → Bool
  is_due fdc = not (ltb_ℤ (pos 0) fdc.cycles_remaining) && not (is_idle fdc.state)

  -- The loop, with so many rounds to spend.
  unfoldable pub advance : ℕ → Fdc H → Fdc H
  advance zero fdc = fdc
  advance (suc fuel) fdc =
      let rest = advance fuel (by_phase fdc fdc.state) in if is_due fdc then rest else fdc

  -- The lamps at the start of `fdc_tick`.
  unfoldable pub decay : Fdc H → ℕ → Fdc H
  decay fdc cycles = record fdc {
    drives = λ i. record (fdc.drives i) {
      activity_remaining = (fdc.drives i).activity_remaining - cycles;
    };
  }

  unfoldable pub light : Fdc H → Fdc H
  light fdc =
      if ltb fdc.selected logical_units
      then record fdc {
        drives =
            store fdc.drives fdc.selected
              (record (fdc.drives fdc.selected) { activity_remaining = lamp_cycles });
      }
      else fdc

  -- What `fdc_tick` does before its loop, when a command is under way.
  unfoldable pub elapse : Fdc H → ℕ → Fdc H
  elapse fdc0 cycles =
      let fdc = light (decay fdc0 cycles) in
      record fdc { cycles_remaining = fdc.cycles_remaining -ℤ pos cycles }

  -- `fdc_tick`
  unfoldable pub tick : Fdc H → ℕ → Fdc H
  tick fdc cycles =
      let late = elapse fdc cycles in
      if is_idle fdc.state
      then decay fdc cycles
      else advance (suc (neg_part late.cycles_remaining)) late
