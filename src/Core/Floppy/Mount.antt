-- ===== src/Core/Floppy/Mount.antt =====
-- What src/core/src/floppy.c does outside its commands: its start and its reset, the images and
-- backends of the drives, the selection of one, and the motors.
use ms.Base.{
  ℕ, ◌+◌, ◌*◌, Bool, true, false, not, ◌&&◌, Option, none, some, ◌==◌, leb, if◌then◌else◌, differ,
  store, ℤ, pos,
}
use ms.Core.Floppy.Device.{
  Fdc, Drive, File, MechEvent, motor_started, motor_stopped, idle, gap, disk_size, logical_units,
  mech, step_rate, track_size,
}

-- `fopen` and the size of what it opens.
unfoldable pub fopen : (ℕ → Option File) → ℕ → Bool → Option File
fopen files path update = elim (files path) [
  | none ↦ none
  | some f ↦ if update && not f.may_write then none else some f
]

module _ {H : Type 0} where
  -- A drive of the zeroed structure.
  abbrev pub zero_drive : Drive H
  zero_drive = record {
    image = none;
    read_only = false;
    backend_read = none;
    backend_write = none;
    motor_on = false;
    image_offset = 0;
    track_stride = 0;
    activity_remaining = 0;
  }

  -- `fdc_init`, with the files and the host there are.
  unfoldable pub init : (ℕ → Option File) → H → Fdc H
  init files host = record {
    drives = λ _. zero_drive;
    selected = 0;
    head_track = λ _. 0;
    status = 0;
    command = 0;
    track_reg = 0;
    sector_reg = 0;
    data_reg = 0;
    drq = false;
    intrq = false;
    busy = false;
    buffer = λ _. 0;
    buf_pos = 0;
    buf_len = 0;
    state = idle;
    cycles_remaining = pos 0;
    step_pulses_left = 0;
    step_inward = true;
    step_rate_cycles = step_rate 0;
    settle_cycles = 0;
    next_status = 0;
    wt_bytes_left = 0;
    wt_field = gap;
    wt_count = 0;
    wt_id = λ _. 0;
    wt_id_valid = false;
    wt_sync = false;
    wt_starved = 0;
    mech_cb = none;
    spinning = λ _. false;
    files = files;
    host = host;
  }

  -- One round of the loop of `mech_motor`.
  unfoldable pub motor_of : Fdc H → ℕ → Bool → ℕ → Fdc H
  motor_of fdc drive on d =
      let spin = on && d == drive in
      if not (differ (fdc.spinning d) spin)
      then fdc
      else mech (record fdc { spinning = store fdc.spinning d spin })
          (if spin then motor_started else motor_stopped) (pos d)

  -- `mech_motor`
  unfoldable pub mech_motor : Fdc H → ℕ → Bool → Fdc H
  mech_motor fdc drive on = motor_of (motor_of fdc drive on 0) drive on 1

  unfoldable pub stopped : Fdc H → Fdc H
  stopped fdc = record fdc { drives = λ i. record (fdc.drives i) { motor_on = false } }

  -- `fdc_reset`
  unfoldable pub reset : Fdc H → Fdc H
  reset fdc = record (mech_motor (stopped fdc) 0 false) {
    head_track = λ _. 0;
    status = 0;
    command = 0;
    track_reg = 0;
    sector_reg = 1;
    data_reg = 0;
    drq = false;
    intrq = false;
    busy = false;
    buf_pos = 0;
    buf_len = 0;
    state = idle;
    cycles_remaining = pos 0;
    step_pulses_left = 0;
    step_inward = true;
    step_rate_cycles = step_rate 0;
    settle_cycles = 0;
    next_status = 0;
    wt_bytes_left = 0;
    wt_field = gap;
    wt_count = 0;
    wt_id_valid = false;
    wt_sync = false;
    wt_starved = 0;
  }

  unfoldable pub set_drive : Fdc H → ℕ → Drive H → Fdc H
  set_drive fdc unit drv = record fdc { drives = store fdc.drives unit drv }

  -- `fdc_detach`
  unfoldable pub detach : Fdc H → ℕ → Fdc H
  detach fdc unit =
      if leb logical_units unit
      then fdc
      else set_drive fdc unit (record (fdc.drives unit) {
        image = none;
        backend_read = none;
        backend_write = none;
        read_only = false;
        image_offset = 0;
        track_stride = track_size;
      })

  -- The layout of `fdc_attach`, by the file's size.
  unfoldable pub with_image : Drive H → ℕ → ℕ → Bool → ℕ → Drive H
  with_image drv unit path read_only size =
      let double = size == 2 * disk_size in
      record drv {
        image = some (record { path = path; update = not read_only });
        read_only = read_only;
        image_offset = if double && leb 2 unit then track_size else 0;
        track_stride = if double then 2 * track_size else track_size;
      }

  -- `fdc_attach`
  unfoldable pub attach : Fdc H → ℕ → ℕ → Bool → Bool × Fdc H
  attach fdc unit path read_only =
      if leb logical_units unit
      then (false, fdc)
      else let fdc' = detach fdc unit in
        elim (fopen fdc'.files path (not read_only)) [
          | none ↦ (false, fdc')
          | some f ↦
              (true, set_drive fdc' unit (with_image (fdc'.drives unit) unit path read_only f.size))
        ]

  -- `fdc_attach_backend`
  unfoldable pub attach_backend :
      Fdc H
      → ℕ
      → Option (H → ℕ → ℕ → (ℕ → ℕ) → Bool × ((ℕ → ℕ) × H))
      → Option (H → ℕ → ℕ → (ℕ → ℕ) → Bool × H)
      → Bool
      → Fdc H
  attach_backend fdc unit read_fn write_fn read_only =
      if leb logical_units unit
      then fdc
      else let fdc' = detach fdc unit in
        set_drive fdc' unit (record (fdc'.drives unit) {
          backend_read = read_fn;
          backend_write = write_fn;
          read_only = read_only;
        })

  -- `fdc_select`
  unfoldable pub select : Fdc H → ℕ → ℕ → Bool → Fdc H
  select fdc drive side motor =
      let unit = side * 2 + drive in
      if leb logical_units unit
      then fdc
      else mech_motor
          (set_drive (record fdc { selected = unit }) unit
            (record (fdc.drives unit) { motor_on = motor }))
          drive motor

  -- `fdc_set_mech_callback`
  unfoldable pub set_mech_callback : Fdc H → Option (H → MechEvent → ℤ → H) → Fdc H
  set_mech_callback fdc cb = record fdc { mech_cb = cb }
