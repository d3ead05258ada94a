-- ===== src/Core/Hd/Device.antt =====
-- The state of src/core/src/hd.c, what it is mounted on, and its reset.
use ms.Base.{
  ℕ, ◌+◌, ◌/◌, ◌%◌, Bool, true, false, ◌||◌, not, Option, none, some, ◌==◌, ltb, if◌then◌else◌,
  Bytes,
}

abbrev pub block_size : ℕ
block_size = 512

abbrev pub max_blocks : ℕ
max_blocks = 65535

abbrev pub io_csr : ℕ
io_csr = 0xd0

abbrev pub io_csr_hi : ℕ
io_csr_hi = 0xd1

abbrev pub io_data : ℕ
io_data = 0xd2

abbrev pub cmd_set_unit : ℕ
cmd_set_unit = 1

abbrev pub cmd_set_block : ℕ
cmd_set_block = 2

abbrev pub cmd_set_buf : ℕ
cmd_set_buf = 3

abbrev pub cmd_set_wcnt : ℕ
cmd_set_wcnt = 4

abbrev pub cmd_read : ℕ
cmd_read = 5

abbrev pub cmd_write : ℕ
cmd_write = 6

abbrev pub cmd_get_size : ℕ
cmd_get_size = 7

abbrev pub cs_ready : ℕ
cs_ready = 0x80

abbrev pub cs_error : ℕ
cs_error = 0x8000

abbrev pub activity_decay_cycles : ℕ
activity_decay_cycles = 750000

-- `ms0515_hd_t`. The host's state stands for what `write_ud` and `backend_ud` point to.
pub record Hd (H : Type 0) : Type 0 where
  pub enabled : Bool
  pub image : Option Bytes
  pub image_size : ℕ
  pub dirty : Bool
  pub unit : ℕ
  pub block : ℕ
  pub bufaddr : ℕ
  pub addr_hi : ℕ
  pub wcount : ℕ
  pub data_reg : ℕ
  pub status : ℕ
  pub activity_remaining : ℕ
  pub write_cb : Option (H → ℕ → ℕ → Bytes → H)
  pub backend_read : Option (H → ℕ → ℕ → Bytes × H)
  pub backend_write : Option (H → ℕ → ℕ → Bytes → H)
  pub backend_blocks : ℕ
  pub host : H

module _ {H : Type 0} where
  -- `hd_init`, on a device with the host behind it.
  unfoldable pub init : H → Hd H
  init host = record {
    enabled = false;
    image = none;
    image_size = 0;
    dirty = false;
    unit = 0;
    block = 0;
    bufaddr = 0;
    addr_hi = 0;
    wcount = 0;
    data_reg = 0;
    status = cs_ready;
    activity_remaining = 0;
    write_cb = none;
    backend_read = none;
    backend_write = none;
    backend_blocks = 0;
    host = host;
  }

  -- `hd_unmount`: the controller stays enabled.
  unfoldable pub unmount : Hd H → Hd H
  unmount hd = record hd {
    image = none;
    image_size = 0;
    dirty = false;
    write_cb = none;
    backend_read = none;
    backend_write = none;
    backend_blocks = 0;
  }

  -- `hd_reset`: the image is kept.
  unfoldable pub reset : Hd H → Hd H
  reset hd = record hd {
    unit = 0;
    block = 0;
    bufaddr = 0;
    addr_hi = 0;
    wcount = 0;
    data_reg = 0;
    status = cs_ready;
    activity_remaining = 0;
  }

  -- `hd_mount`: whole blocks only, copied from `bytes` or cleared.
  unfoldable pub mount : (ℕ → Bool) → Hd H → Option Bytes → ℕ → Bool × Hd H
  unfolding unmount reset
  mount malloc hd bytes size =
      if size == 0 || not (size % block_size == 0)
      then (false, hd)
      else if not (malloc size)
      then (false, unmount hd)
      else (
        true,
        reset (record (unmount hd) {
          image = some (elim bytes [ none ↦ λ _. 0 | some b ↦ b ]);
          image_size = size;
          dirty = false;
          enabled = true;
        }),
      )

  -- `hd_set_enabled`
  unfoldable pub set_enabled : Hd H → Bool → Hd H
  set_enabled hd enabled = record hd { enabled = enabled }

  -- `hd_set_write_through`
  unfoldable pub set_write_through : Hd H → Option (H → ℕ → ℕ → Bytes → H) → Hd H
  set_write_through hd cb = record hd { write_cb = cb }

  -- `hd_set_backend`
  unfoldable pub set_backend :
      Hd H → Option (H → ℕ → ℕ → Bytes × H) → Option (H → ℕ → ℕ → Bytes → H) → ℕ → Hd H
  unfolding unmount reset
  set_backend hd read_fn write_fn blocks =
      let hd' = record (unmount hd) {
        backend_read = read_fn;
        backend_write = write_fn;
        backend_blocks = blocks;
      } in
      elim read_fn [ none ↦ hd' | some _ ↦ reset (record hd' { enabled = true }) ]

  -- The blocks of the image, or of the backend where there is no image.
  unfoldable pub media_blocks : Hd H → ℕ
  media_blocks hd = elim (hd.image) [
    | some _ ↦ hd.image_size / block_size
    | none ↦ elim (hd.backend_read) [ none ↦ 0 | some _ ↦ hd.backend_blocks ]
  ]

  -- `hd_unit_blocks`
  unfoldable pub unit_blocks : Hd H → ℕ
  unfolding media_blocks
  unit_blocks hd =
      if not (hd.unit == 0)
      then 0
      else if ltb max_blocks (media_blocks hd)
      then max_blocks
      else media_blocks hd

  abbrev pub failed : Hd H → Hd H
  failed hd = record hd { status = cs_ready + cs_error }

  abbrev pub moved : Hd H → Hd H
  moved hd = record hd { status = cs_ready; activity_remaining = activity_decay_cycles }
