-- ===== src/Core/Floppy/Device.antt =====
-- The sectors of src/core/src/floppy.c, its drives, and how it ends a command.
use ms.Base.{
  ℕ, ◌+◌, ◌-◌, ◌*◌, ◌%◌, Bool, true, false, not, ◌&&◌, ◌||◌, Option, none, some, ◌==◌, ltb, leb,
  if◌then◌else◌, Bytes, store, ℤ, pos, bit_and, bit_or,
}
pub use ms.Core.Floppy.State.{
  st_busy, st_index, st_track0, st_lost_data, st_seek_error, st_head_loaded, st_write_fault,
  st_write_prot, st_not_ready, tracks, sectors, sector_size, track_size, disk_size, logical_units,
  settle_delay, search_cycles, byte_cycles, track_bytes, track_starve_cycles, finish_cycles,
  min_cmd_cycles, lamp_cycles, step_rate, Phase, Field, MechEvent, File, Handle, Drive, Fdc, idle,
  type1_step, type2_search, type2_data, type3_track, finishing, gap, id_field, data_field,
  motor_started, motor_stopped, head_sought,
}

-- `fseek` and `fread` of a sector: what the file has not is zero.
unfoldable pub fread_sector : Option File → ℕ → Bytes
fread_sector none offset i = 0
fread_sector (some f) offset i = if ltb (offset + i) f.size then f.bytes (offset + i) else 0

-- `fseek` and `fwrite` of a sector: a gap behind the old end reads as zeros.
unfoldable pub fwrite_sector : File → ℕ → Bytes → File
fwrite_sector f offset bytes = record f {
  bytes = λ j.
      if leb offset j && ltb j (offset + sector_size)
      then bytes (j - offset)
      else if ltb j f.size
      then f.bytes j
      else 0;
  size = if ltb f.size (offset + sector_size) then offset + sector_size else f.size;
}

-- `x != NULL`
unfoldable pub is_set {ℓ} : {A : Type ℓ} → Option A → Bool
is_set none = false
is_set (some _) = true

unfoldable pub sector_in_range : ℕ → Bool
sector_in_range sector = not (ltb sector 1 || ltb sectors sector)

module _ {H : Type 0} where
  -- `current_drive`
  unfoldable pub current_drive : Fdc H → Drive H
  current_drive fdc = fdc.drives fdc.selected

  -- `disk_offset`, for a sector from 1 on: `read_sector` and `write_sector_at` refuse sector 0 before
  -- they ask for its offset, which the source has as a negative one.
  unfoldable pub disk_offset : Drive H → ℕ → ℕ → ℕ
  disk_offset drv track sector =
      drv.image_offset + track * drv.track_stride + (sector - 1) * sector_size

  -- `current_track`
  unfoldable pub current_track : Fdc H → ℕ
  current_track fdc = fdc.head_track (fdc.selected % 2)

  -- `drive_ready`
  unfoldable pub drive_ready : Fdc H → Bool
  drive_ready fdc =
      let drv = current_drive fdc in (is_set drv.image || is_set drv.backend_read) && drv.motor_on

  -- `type1_status`
  unfoldable pub type1_status : Fdc H → Bool → ℕ
  type1_status fdc is_busy =
      let drv = current_drive fdc in
      let s0 = if is_busy then st_busy else 0 in
      let s1 = if current_track fdc == 0 then bit_or s0 st_track0 else s0 in
      let s2 = if not (drive_ready fdc) then bit_or s1 st_not_ready else s1 in
      let s3 = if drv.read_only then bit_or s2 st_write_prot else s2 in
      if drv.motor_on then bit_or s3 st_head_loaded else s3

  -- The end of `read_sector`
  unfoldable pub buffered : Fdc H → Bytes → Fdc H
  buffered fdc bytes = record fdc { buffer = bytes; buf_pos = 0; buf_len = sector_size }

  -- `read_sector`
  unfoldable pub read_sector : Fdc H → Bool × Fdc H
  read_sector fdc =
      let drv = current_drive fdc in
      if not (sector_in_range fdc.sector_reg) then (false, fdc) else elim (drv.backend_read) [
        | some read_fn ↦
            let (ok, (bytes, host')) =
              read_fn fdc.host (current_track fdc) fdc.sector_reg fdc.buffer in
            let fdc' = record fdc { buffer = bytes; host = host' } in
            if ok then (true, buffered fdc' bytes) else (false, fdc')
        | none ↦ elim (drv.image) [
          | none ↦ (false, fdc)
          | some f ↦
              let offset = disk_offset drv (current_track fdc) fdc.sector_reg in
              (true, buffered fdc (fread_sector (fdc.files f.path) offset))
        ]
      ]

  -- The image branch of `write_sector_at`.
  unfoldable pub write_image : Fdc H → Handle → ℕ → Bytes → Bool × Fdc H
  write_image fdc f offset bytes = elim (fdc.files f.path) [
    | none ↦ (false, fdc)
    | some file ↦
        if f.update
        then (
          true,
          record fdc { files = store fdc.files f.path (some (fwrite_sector file offset bytes)) },
        )
        else (false, fdc)
  ]

  -- `write_sector_at`
  unfoldable pub write_sector_at : Fdc H → ℕ → Bytes → Bool × Fdc H
  write_sector_at fdc sector bytes =
      let drv = current_drive fdc in
      if drv.read_only
      then (false, fdc)
      else if not (sector_in_range sector)
      then (false, fdc)
      else elim (drv.backend_write) [
        | some write_fn ↦
            let (ok, host') = write_fn fdc.host (current_track fdc) sector bytes in
            (ok, record fdc { host = host' })
        | none ↦ elim (drv.image) [
          | none ↦ (false, fdc)
          | some f ↦ write_image fdc f (disk_offset drv (current_track fdc) sector) bytes
        ]
      ]

  -- `write_sector`
  unfoldable pub write_sector : Fdc H → Bool × Fdc H
  write_sector fdc = write_sector_at fdc fdc.sector_reg fdc.buffer

  -- `schedule_finish`
  unfoldable pub schedule_finish : Fdc H → ℕ → ℕ → Fdc H
  schedule_finish fdc final_status cycles = record fdc {
    state = finishing;
    cycles_remaining = pos (if ltb cycles min_cmd_cycles then min_cmd_cycles else cycles);
    next_status = bit_and final_status 254;
    status = bit_or st_busy (bit_and final_status 254);
    drq = false;
  }

  -- `mech`
  unfoldable pub mech : Fdc H → MechEvent → ℤ → Fdc H
  mech fdc event arg = elim (fdc.mech_cb) [
    | none ↦ fdc
    | some cb ↦ record fdc { host = cb fdc.host event arg }
  ]
