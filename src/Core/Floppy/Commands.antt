-- ===== src/Core/Floppy/Commands.antt =====
-- The commands of src/core/src/floppy.c and its registers: `fdc_write` and `fdc_read`.
use ms.Base.{
  ℕ, suc, ◌+◌, ◌-◌, ◌%◌, Bool, true, false, not, ◌&&◌, ◌||◌, ◌==◌, ltb, leb, if◌then◌else◌, store,
  ℤ, pos, negsuc, bit_and, bit_or, has_bit, u8, sub_ℕ,
}
use ms.Core.Floppy.Device.{
  Fdc, Phase, idle, type1_step, type2_search, type2_data, type3_track, Field, gap, id_field,
  data_field, head_sought, current_drive, current_track, drive_ready, mech, min_cmd_cycles,
  schedule_finish, search_cycles, sector_size, sector_in_range, settle_delay, st_busy, st_index,
  st_not_ready, st_seek_error, st_write_fault, st_write_prot, step_rate, track_bytes, tracks,
  type1_status, write_sector_at,
}

abbrev pub is_idle : Phase → Bool
is_idle idle = true
is_idle _ = false

abbrev pub is_data : Phase → Bool
is_data type2_data = true
is_data _ = false

abbrev pub is_track : Phase → Bool
is_track type3_track = true
is_track _ = false

module _ {H : Type 0} where
  -- What `start_type1` sets before it looks at the number of pulses, for a target on the disk.
  unfoldable pub arm_type1 : Fdc H → ℕ → Fdc H
  arm_type1 fdc target = record fdc {
    step_inward =
        if ltb target (current_track fdc)
        then false
        else if ltb (current_track fdc) target
        then true
        else fdc.step_inward;
    step_pulses_left =
        if ltb target (current_track fdc)
        then current_track fdc - target
        else target - current_track fdc;
    step_rate_cycles = step_rate (fdc.command % 4);
    settle_cycles = if has_bit fdc.command 2 then settle_delay else 0;
  }

  -- The wait for the first pulse.
  unfoldable pub depart : Fdc H → Fdc H
  depart fdc = record fdc {
    state = type1_step;
    cycles_remaining = pos fdc.step_rate_cycles;
    status = type1_status fdc true;
  }

  -- `start_type1`, for a target on the disk.
  unfoldable pub seek_to : Fdc H → ℕ → Fdc H
  seek_to fdc target =
      let armed = arm_type1 fdc target in
      if armed.step_pulses_left == 0
      then schedule_finish armed (type1_status armed false) armed.settle_cycles
      else depart (mech armed head_sought (sub_ℕ target (current_track fdc)))

  -- `start_type1`
  unfoldable pub start_type1 : Fdc H → ℤ → Fdc H
  start_type1 fdc (negsuc n) = seek_to fdc 0
  start_type1 fdc (pos n) = seek_to fdc (if leb tracks n then tracks - 1 else n)

  -- The first checks of `start_type2` and `start_write_track`.
  unfoldable pub if_ready : Fdc H → Bool → Fdc H → Fdc H
  if_ready fdc writing started =
      if not (drive_ready fdc)
      then schedule_finish fdc st_not_ready min_cmd_cycles
      else if writing && (current_drive fdc).read_only
      then schedule_finish fdc st_write_prot min_cmd_cycles
      else started

  -- `start_type2`
  unfoldable pub start_type2 : Fdc H → Bool → Fdc H
  start_type2 fdc writing = if_ready fdc writing (record fdc {
    buffer = if writing then (λ _. 0) else fdc.buffer;
    buf_pos = 0;
    buf_len = sector_size;
    state = type2_search;
    cycles_remaining = pos search_cycles;
    status = st_busy;
  })

  -- `start_write_track`
  unfoldable pub start_write_track : Fdc H → Fdc H
  start_write_track fdc = if_ready fdc true (record fdc {
    wt_bytes_left = track_bytes;
    wt_field = gap;
    wt_count = 0;
    wt_id_valid = false;
    wt_sync = false;
    wt_starved = 0;
    next_status = 0;
    state = type3_track;
    cycles_remaining = pos search_cycles;
    status = st_busy;
  })

  -- `wt_close_data`
  unfoldable pub wt_close_data : Fdc H → Fdc H
  wt_close_data fdc =
      let whole = fdc.wt_id 3 == 2 && fdc.wt_count == sector_size in
      let (ok, fdc') = write_sector_at fdc (fdc.wt_id 2) fdc.buffer in
      let written =
        if whole && sector_in_range (fdc.wt_id 2)
        then if not ok
          then record fdc' { next_status = bit_or fdc'.next_status st_write_fault }
          else fdc'
        else fdc in
      record written { wt_id_valid = false; wt_field = gap }

  -- The cases of `wt_take_byte`.
  unfoldable pub take_id : Fdc H → ℕ → Fdc H
  take_id fdc b =
      let taken = record fdc {
        wt_id = store fdc.wt_id fdc.wt_count b;
        wt_count = suc fdc.wt_count;
      } in
      if taken.wt_count == 4 then record taken { wt_id_valid = true; wt_field = gap } else taken

  unfoldable pub take_data : Fdc H → ℕ → Fdc H
  take_data fdc b =
      if b == 0xf7
      then wt_close_data fdc
      else if ltb fdc.wt_count sector_size
      then record fdc { buffer = store fdc.buffer fdc.wt_count b; wt_count = suc fdc.wt_count }
      else record fdc { wt_count = sector_size + 1 }

  unfoldable pub take_gap : Fdc H → ℕ → Fdc H
  take_gap fdc b =
      let marked =
        if fdc.wt_sync && b == 0xfe
        then record fdc { wt_field = id_field; wt_count = 0 }
        else if fdc.wt_sync && fdc.wt_id_valid && (b == 0xfb || b == 0xf8)
        then record fdc { wt_field = data_field; wt_count = 0 }
        else fdc in
      record marked { wt_sync = b == 0xf5 }

  unfoldable pub take_by_field : Fdc H → Field → ℕ → Fdc H
  take_by_field fdc id_field b = take_id fdc b
  take_by_field fdc data_field b = take_data fdc b
  take_by_field fdc gap b = take_gap fdc b

  -- `wt_take_byte`
  unfoldable pub wt_take_byte : Fdc H → ℕ → Fdc H
  wt_take_byte fdc b =
      let taken = take_by_field fdc fdc.wt_field b in
      record taken { wt_bytes_left = taken.wt_bytes_left - 1 }

  -- `cmd_force_interrupt`
  unfoldable pub cmd_force_interrupt : Fdc H → Fdc H
  cmd_force_interrupt fdc = record fdc {
    state = idle;
    cycles_remaining = pos 0;
    busy = false;
    drq = false;
    status = type1_status fdc false;
    intrq = if fdc.command % 16 == 0 then fdc.intrq else true;
  }

  -- The READ ADDRESS of `fdc_write`.
  unfoldable pub read_address : Fdc H → Fdc H
  read_address fdc =
      if drive_ready fdc
      then schedule_finish (record fdc { sector_reg = u8 (current_track fdc) }) 0 min_cmd_cycles
      else schedule_finish fdc (bit_or st_seek_error st_not_ready) min_cmd_cycles

  -- The inner switch of `fdc_write`, on the command's upper four bits.
  unfoldable pub dispatch : Fdc H → ℕ → Fdc H
  dispatch fdc group =
      if group == 0x00
      then start_type1 fdc (pos 0)
      else if group == 0x10
      then start_type1 fdc (pos fdc.data_reg)
      else if group == 0x20 || group == 0x30
      then start_type1 fdc
          (if fdc.step_inward then pos (current_track fdc + 1) else sub_ℕ (current_track fdc) 1)
      else if group == 0x40 || group == 0x50
      then start_type1 (record fdc { step_inward = true }) (pos (current_track fdc + 1))
      else if group == 0x60 || group == 0x70
      then start_type1 (record fdc { step_inward = false }) (sub_ℕ (current_track fdc) 1)
      else if group == 0x80 || group == 0x90
      then start_type2 fdc false
      else if group == 0xa0 || group == 0xb0
      then start_type2 fdc true
      else if group == 0xc0
      then read_address fdc
      else if group == 0xf0
      then start_write_track fdc
      else schedule_finish fdc 0 min_cmd_cycles

  -- What `fdc_write` sets for any command but FORCE INTERRUPT; the state is dropped to idle.
  unfoldable pub accept : Fdc H → ℕ → Fdc H
  accept fdc value = record fdc {
    state = idle;
    cycles_remaining = if is_idle fdc.state then fdc.cycles_remaining else pos 0;
    command = value;
    intrq = false;
    drq = false;
    busy = true;
    status = st_busy;
  }

  unfoldable pub write_command : Fdc H → ℕ → Fdc H
  write_command fdc value =
      let group = bit_and value 0xf0 in
      if group == 0xd0
      then cmd_force_interrupt (record fdc { command = value })
      else dispatch (accept fdc value) group

  -- Whether a byte of data goes to the sector buffer: a WRITE SECTOR is moving its bytes.
  unfoldable pub takes_byte : Fdc H → Bool
  takes_byte fdc =
      is_data fdc.state && bit_and fdc.command 0xe0 == 0xa0 && ltb fdc.buf_pos sector_size

  unfoldable pub write_data : Fdc H → ℕ → Fdc H
  write_data fdc value =
      let latched = record fdc {
        data_reg = value;
        drq = false;
        buffer = if takes_byte fdc then store fdc.buffer fdc.buf_pos value else fdc.buffer;
      } in
      if is_track fdc.state && ltb 0 fdc.wt_bytes_left then wt_take_byte latched value else latched

  -- `fdc_write`
  unfoldable pub write : Fdc H → ℕ → ℕ → Fdc H
  write fdc reg value =
      if reg == 0
      then write_command fdc value
      else if reg == 1
      then record fdc { track_reg = value }
      else if reg == 2
      then record fdc { sector_reg = value }
      else if reg == 3
      then write_data fdc value
      else fdc

  -- The status of `fdc_read`.
  unfoldable pub shown_status : Fdc H → ℕ
  shown_status fdc =
      let s0 = bit_and fdc.status 253 in
      let s1 = if fdc.drq then bit_or s0 st_index else s0 in
      if drive_ready fdc then bit_and s1 127 else bit_or s1 st_not_ready

  -- `fdc_read`
  unfoldable pub read : Fdc H → ℕ → ℕ × Fdc H
  read fdc reg =
      if reg == 0
      then (shown_status fdc, record fdc { intrq = false })
      else if reg == 1
      then (fdc.track_reg, fdc)
      else if reg == 2
      then (fdc.sector_reg, fdc)
      else if reg == 3
      then (fdc.data_reg, record fdc { drq = false })
      else (0, fdc)
