-- ===== src/Core/Floppy/State.antt =====
-- The constants and the state of src/core/src/floppy.c and its header.
use ms.Base.{ℕ, ◌*◌, Bool, Option, ◌==◌, if◌then◌else◌, Bytes, ℤ}

abbrev pub st_busy : ℕ
st_busy = 0x01

abbrev pub st_index : ℕ
st_index = 0x02

abbrev pub st_track0 : ℕ
st_track0 = 0x04

abbrev pub st_lost_data : ℕ
st_lost_data = 0x04

abbrev pub st_seek_error : ℕ
st_seek_error = 0x10

abbrev pub st_head_loaded : ℕ
st_head_loaded = 0x20

abbrev pub st_write_fault : ℕ
st_write_fault = 0x20

abbrev pub st_write_prot : ℕ
st_write_prot = 0x40

abbrev pub st_not_ready : ℕ
st_not_ready = 0x80

abbrev pub tracks : ℕ
tracks = 80

abbrev pub sectors : ℕ
sectors = 10

abbrev pub sector_size : ℕ
sector_size = 512

abbrev pub track_size : ℕ
track_size = 5120

abbrev pub disk_size : ℕ
disk_size = 409600

abbrev pub logical_units : ℕ
logical_units = 4

abbrev pub settle_delay : ℕ
settle_delay = 112500

abbrev pub search_cycles : ℕ
search_cycles = 37500

abbrev pub byte_cycles : ℕ
byte_cycles = 240

abbrev pub track_bytes : ℕ
track_bytes = 6250

abbrev pub track_starve_cycles : ℕ
track_starve_cycles = track_bytes * byte_cycles

abbrev pub finish_cycles : ℕ
finish_cycles = 240

abbrev pub min_cmd_cycles : ℕ
min_cmd_cycles = 240

abbrev pub lamp_cycles : ℕ
lamp_cycles = 750000

-- `step_rate_table`
abbrev pub step_rate : ℕ → ℕ
step_rate n = if n == 0 then 45000 else if n == 1 then 90000 else if n == 2 then 150000 else 225000

-- `fdc_state_t`
pub data Phase : Type 0 where
  idle : Phase
  type1_step : Phase
  type2_search : Phase
  type2_data : Phase
  type3_track : Phase
  finishing : Phase

-- `fdc_wt_field_t`
pub data Field : Type 0 where
  gap : Field
  id_field : Field
  data_field : Field

-- `ms0515_fdc_mech_event`
pub data MechEvent : Type 0 where
  motor_started : MechEvent
  motor_stopped : MechEvent
  head_sought : MechEvent

-- A file of the C library, whether it may be opened for writing, and an open one.
pub record File : Type 0 where
  pub bytes : Bytes
  pub size : ℕ
  pub may_write : Bool

pub record Handle : Type 0 where
  pub path : ℕ
  pub update : Bool

-- `fdc_drive_t`
pub record Drive (H : Type 0) : Type 0 where
  pub image : Option Handle
  pub read_only : Bool
  pub backend_read : Option (H → ℕ → ℕ → Bytes → Bool × (Bytes × H))
  pub backend_write : Option (H → ℕ → ℕ → Bytes → Bool × H)
  pub motor_on : Bool
  pub image_offset : ℕ
  pub track_stride : ℕ
  pub activity_remaining : ℕ

-- `ms0515_floppy_t`, with the files and the host it works on. `step_inward` says that
-- `step_direction` is 1, and not -1.
pub record Fdc (H : Type 0) : Type 0 where
  pub drives : ℕ → Drive H
  pub selected : ℕ
  pub head_track : ℕ → ℕ
  pub status : ℕ
  pub command : ℕ
  pub track_reg : ℕ
  pub sector_reg : ℕ
  pub data_reg : ℕ
  pub drq : Bool
  pub intrq : Bool
  pub busy : Bool
  pub buffer : Bytes
  pub buf_pos : ℕ
  pub buf_len : ℕ
  pub state : Phase
  pub cycles_remaining : ℤ
  pub step_pulses_left : ℕ
  pub step_inward : Bool
  pub step_rate_cycles : ℕ
  pub settle_cycles : ℕ
  pub next_status : ℕ
  pub wt_bytes_left : ℕ
  pub wt_field : Field
  pub wt_count : ℕ
  pub wt_id : ℕ → ℕ
  pub wt_id_valid : Bool
  pub wt_sync : Bool
  pub wt_starved : ℕ
  pub mech_cb : Option (H → MechEvent → ℤ → H)
  pub spinning : ℕ → Bool
  pub files : ℕ → Option File
  pub host : H
