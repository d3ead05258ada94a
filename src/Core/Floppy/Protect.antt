-- ===== src/Core/Floppy/Protect.antt =====
-- What the processor and the board can do to write-protected disks in src/core/src/floppy.c.
use ms.Base.{
  ℕ, suc, ◌+◌, ◌*◌, ◌≡◌, inl, inr, Bool, true, false, not, ◌&&◌, ◌||◌, ltb, leb, ◌==◌,
  if◌then◌else◌, differ, store, Bool-cases, Option, Option-cases, List, [], ◌∷◌, ℤ, pos, negsuc,
  bit_and, bit_or,
}
use ms.Core.Floppy.Device.{
  Fdc, File, Field, gap, id_field, data_field, MechEvent, head_sought, current_drive, drive_ready,
  logical_units, mech, schedule_finish, st_write_fault, sector_in_range, sector_size,
}
use ms.Core.Floppy.Mount.{mech_motor, motor_of, reset, select, set_drive, stopped}
use ms.Core.Floppy.Commands.{
  accept, arm_type1, cmd_force_interrupt, depart, dispatch, if_ready, is_track, read, read_address,
  seek_to, start_type1, start_type2, start_write_track, take_by_field, take_data, take_gap, take_id,
  write, write_command, write_data, wt_close_data, wt_take_byte,
}
use ms.Core.Floppy.Phases.{tick}
use ms.Core.Floppy.Locked.{Locked, Locked-if, finish-Locked, tick-Locked, write_sector_at-Locked}

-- What reaches a controller while its disks stay in their drives.
pub data Op : Type 0 where
  writes : ℕ → ℕ → Op
  reads : ℕ → Op
  passes : ℕ → Op
  selects : ℕ → ℕ → Bool → Op
  resets : Op

module _ {H : Type 0} where
  unfoldable pub apply : Fdc H → Op → Fdc H
  apply fdc (writes reg value) = write fdc reg value
  apply fdc (reads reg) = (read fdc reg).1
  apply fdc (passes cycles) = tick fdc cycles
  apply fdc (selects drive side motor) = select fdc drive side motor
  apply fdc resets = reset fdc

  unfoldable pub run : Fdc H → List Op → Fdc H
  run fdc [] = fdc
  run fdc (op ∷ ops) = run (apply fdc op) ops

module _ {H : Type 0} (fs : ℕ → Option File) where
  mech-Locked : (fdc : Fdc H) (v : MechEvent) (a : ℤ) → Locked fs fdc → Locked fs (mech fdc v a)
  unfolding mech Locked
  mech-Locked fdc v a k = elim (Option-cases fdc.mech_cb) [
    | inl e ↦ rw (e, mech) k
    | inr (cb, e) ↦ rw (e, mech) k
  ]

  seek_to-Locked : (fdc : Fdc H) (t : ℕ) → Locked fs fdc → Locked fs (seek_to fdc t)
  unfolding seek_to Locked schedule_finish depart arm_type1
  seek_to-Locked fdc t k =
      Locked-if fs ((arm_type1 fdc t).step_pulses_left == 0) _ _ k
        (mech-Locked (arm_type1 fdc t) head_sought _ k)

  start_type1-Locked : (fdc : Fdc H) (t : ℤ) → Locked fs fdc → Locked fs (start_type1 fdc t)
  unfolding start_type1
  start_type1-Locked fdc (negsuc n) k = seek_to-Locked fdc 0 k
  start_type1-Locked fdc (pos n) k = seek_to-Locked fdc _ k

  if_ready-Locked :
      (fdc x : Fdc H) (w : Bool) → Locked fs fdc → Locked fs x → Locked fs (if_ready fdc w x)
  unfolding if_ready
  if_ready-Locked fdc x w k l =
      Locked-if fs (not (drive_ready fdc)) _ _ (finish-Locked fs fdc _ _ k)
        (Locked-if fs (w && (current_drive fdc).read_only) _ _ (finish-Locked fs fdc _ _ k) l)

  read_address-Locked : (fdc : Fdc H) → Locked fs fdc → Locked fs (read_address fdc)
  unfolding read_address Locked schedule_finish
  read_address-Locked fdc k = Locked-if fs (drive_ready fdc) _ _ k k

  start_type2-Locked : (fdc : Fdc H) (w : Bool) → Locked fs fdc → Locked fs (start_type2 fdc w)
  unfolding start_type2 Locked
  start_type2-Locked fdc w k = if_ready-Locked fdc _ w k k

  start_write_track-Locked : (fdc : Fdc H) → Locked fs fdc → Locked fs (start_write_track fdc)
  unfolding start_write_track Locked
  start_write_track-Locked fdc k = if_ready-Locked fdc _ true k k

  dispatch-Locked : (fdc : Fdc H) (g : ℕ) → Locked fs fdc → Locked fs (dispatch fdc g)
  unfolding dispatch Locked
  dispatch-Locked fdc g k = Locked-if fs (g == 0x00) _ _ (start_type1-Locked fdc _ k) (
      Locked-if fs (g == 0x10) _ _ (start_type1-Locked fdc _ k) (
        Locked-if fs (g == 0x20 || g == 0x30) _ _ (start_type1-Locked fdc _ k) (
          Locked-if fs (g == 0x40 || g == 0x50) _ _
            (start_type1-Locked (record fdc { step_inward = true }) _ k)
            (Locked-if fs (g == 0x60 || g == 0x70) _ _
              (start_type1-Locked (record fdc { step_inward = false }) _ k)
              (Locked-if fs (g == 0x80 || g == 0x90) _ _ (start_type2-Locked fdc false k) (
                Locked-if fs (g == 0xa0 || g == 0xb0) _ _ (start_type2-Locked fdc true k) (
                  Locked-if fs (g == 0xc0) _ _ (read_address-Locked fdc k) (
                    Locked-if fs (g == 0xf0) _ _ (start_write_track-Locked fdc k)
                      (finish-Locked fs fdc _ _ k)))))))))

  write_command-Locked : (fdc : Fdc H) (v : ℕ) → Locked fs fdc → Locked fs (write_command fdc v)
  unfolding write_command Locked accept cmd_force_interrupt
  write_command-Locked fdc v k =
      Locked-if fs (bit_and v 0xf0 == 0xd0) _ _ k (dispatch-Locked (accept fdc v) _ k)

  wt_close_data-Locked : (fdc : Fdc H) → Locked fs fdc → Locked fs (wt_close_data fdc)
  unfolding wt_close_data Locked
  wt_close_data-Locked fdc k = rw (write_sector_at-Locked fs fdc (fdc.wt_id 2) fdc.buffer k) (
      Locked-if fs
        (fdc.wt_id 3 == 2 && fdc.wt_count == sector_size && sector_in_range (fdc.wt_id 2))
        (record fdc { next_status = bit_or fdc.next_status st_write_fault }) fdc k k)

  take_by_field-Locked :
      (fdc : Fdc H) (f : Field) (b : ℕ) → Locked fs fdc → Locked fs (take_by_field fdc f b)
  unfolding take_by_field Locked take_id take_data take_gap
  take_by_field-Locked fdc id_field b k = Locked-if fs (suc fdc.wt_count == 4) _ _ k k
  take_by_field-Locked fdc data_field b k =
      Locked-if fs (b == 0xf7) _ _ (wt_close_data-Locked fdc k)
        (Locked-if fs (ltb fdc.wt_count sector_size) _ _ k k)
  take_by_field-Locked fdc gap b k =
      Locked-if fs (fdc.wt_sync && b == 0xfe) _ _ k
        (Locked-if fs (fdc.wt_sync && fdc.wt_id_valid && (b == 0xfb || b == 0xf8)) _ _ k k)

  write_data-Locked : (fdc : Fdc H) (v : ℕ) → Locked fs fdc → Locked fs (write_data fdc v)
  unfolding write_data Locked wt_take_byte
  write_data-Locked fdc v k =
      Locked-if fs (is_track fdc.state && ltb 0 fdc.wt_bytes_left) _ _
        (take_by_field-Locked _ fdc.wt_field v k) k

  write-Locked : (fdc : Fdc H) (reg v : ℕ) → Locked fs fdc → Locked fs (write fdc reg v)
  unfolding write Locked
  write-Locked fdc reg v k = Locked-if fs (reg == 0) _ _ (write_command-Locked fdc v k) (
      Locked-if fs (reg == 1) _ _ k
        (Locked-if fs (reg == 2) _ _ k (Locked-if fs (reg == 3) _ _ (write_data-Locked fdc v k) k)))

  Locked-if_pair :
      (b : Bool) (x y : ℕ × Fdc H)
      → Locked fs x.1
      → Locked fs y.1
      → Locked fs (if b then x else y).1
  Locked-if_pair true x y p q = p
  Locked-if_pair false x y p q = q

  read-Locked : (fdc : Fdc H) (reg : ℕ) → Locked fs fdc → Locked fs (read fdc reg).1
  unfolding read Locked
  read-Locked fdc reg k = Locked-if_pair (reg == 0) _ _ k (
      Locked-if_pair (reg == 1) _ _ k
        (Locked-if_pair (reg == 2) _ _ k (Locked-if_pair (reg == 3) _ _ k k)))

  abbrev spun : Fdc H → ℕ → Bool → Fdc H
  spun fdc n spin = record fdc { spinning = store fdc.spinning n spin }

  motor_of-Locked :
      (fdc : Fdc H) (d : ℕ) (on : Bool) (n : ℕ) → Locked fs fdc → Locked fs (motor_of fdc d on n)
  unfolding motor_of Locked
  motor_of-Locked fdc d on n k = elim (Bool-cases (not (differ (fdc.spinning n) (on && n == d)))) [
    | inl e ↦ rw e k
    | inr e ↦ rw e (mech-Locked (spun fdc n (on && n == d)) _ (pos n) k)
  ]

  mech_motor-Locked :
      (fdc : Fdc H) (d : ℕ) (on : Bool) → Locked fs fdc → Locked fs (mech_motor fdc d on)
  unfolding mech_motor
  mech_motor-Locked fdc d on k = motor_of-Locked _ d on 1 (motor_of-Locked fdc d on 0 k)

  select-Locked :
      (fdc : Fdc H) (drive side : ℕ) (motor : Bool)
      → Locked fs fdc
      → Locked fs (select fdc drive side motor)
  unfolding select Locked set_drive
  select-Locked fdc drive side motor (f, r) =
      Locked-if fs (leb logical_units (side * 2 + drive)) _ _ (f, r)
        (mech_motor-Locked _ drive motor (f, λ i. turned i))
    where
      turned :
          (i : ℕ)
          → (store fdc.drives
              (side * 2 + drive)
              (record (fdc.drives (side * 2 + drive)) { motor_on = motor })
              i).read_only
            ≡ true
      turned i = elim (Bool-cases (i == side * 2 + drive)) [
        | inl e ↦ rw e (r (side * 2 + drive))
        | inr e ↦ rw e (r i)
      ]

  reset-Locked : (fdc : Fdc H) → Locked fs fdc → Locked fs (reset fdc)
  unfolding reset Locked stopped
  reset-Locked fdc k = mech_motor-Locked (stopped fdc) 0 false k

  apply-Locked : (fdc : Fdc H) (op : Op) → Locked fs fdc → Locked fs (apply fdc op)
  unfolding apply
  apply-Locked fdc (writes reg value) k = write-Locked fdc reg value k
  apply-Locked fdc (reads reg) k = read-Locked fdc reg k
  apply-Locked fdc (passes cycles) k = tick-Locked fs fdc cycles k
  apply-Locked fdc (selects drive side motor) k = select-Locked fdc drive side motor k
  apply-Locked fdc resets k = reset-Locked fdc k

  -- While every drive is write-protected, no run of commands, bytes of data, reads, time, selections
  -- and resets changes a file.
  pub run-Locked : (ops : List Op) (fdc : Fdc H) → Locked fs fdc → Locked fs (run fdc ops)
  unfolding run
  run-Locked [] fdc k = k
  run-Locked (op ∷ ops) fdc k = run-Locked ops (apply fdc op) (apply-Locked fdc op k)
