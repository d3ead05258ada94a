-- ===== src/Core/Ramdisk.antt =====
-- src/core/src/ramdisk.c and its header: the 512 KB RAM disk of the expansion board. `ram` is
-- `none` while nothing is allocated. Whether the C library grants the memory is an argument.
pub mod Valid
pub mod Transfer
mod Tests
use ms.Base.{
  ℕ, zero, suc, ◌+◌, ◌*◌, ◌/◌, ◌%◌, Bool, true, false, ◌&&◌, ◌||◌, Option, none, some, ◌==◌, leb,
  if◌then◌else◌, has_bit, set_bit, clear_bit, u8, u32, Bytes, store,
}

abbrev pub ramdisk_size : ℕ
ramdisk_size = 512 * 1024

-- The registers, as offsets into the I/O page.
abbrev pub io_ppi_rd_a : ℕ
io_ppi_rd_a = 0x48

abbrev pub io_ppi_rd_b : ℕ
io_ppi_rd_b = 0x4a

abbrev pub io_ppi_rd_c : ℕ
io_ppi_rd_c = 0x4c

abbrev pub io_ppi_rd_ctrl : ℕ
io_ppi_rd_ctrl = 0x4e

abbrev pub io_ppi_wr_a : ℕ
io_ppi_wr_a = 0x58

abbrev pub io_ppi_wr_b : ℕ
io_ppi_wr_b = 0x5a

abbrev pub io_ppi_wr_c : ℕ
io_ppi_wr_c = 0x5c

abbrev pub io_ppi_wr_ctrl : ℕ
io_ppi_wr_ctrl = 0x5e

abbrev pub io_data : ℕ
io_data = 0x68

abbrev pub io_data_alias : ℕ
io_data_alias = 0x78

-- `ms0515_ramdisk_t`
pub record Ramdisk : Type 0 where
  pub enabled : Bool
  pub ppi_a : ℕ
  pub ppi_b : ℕ
  pub ppi_c : ℕ
  pub ppi_ctrl : ℕ
  pub port_a_input : Bool
  pub port_b_input : Bool
  pub counter : ℕ
  pub ram : Option Bytes

-- `compute_address`
unfoldable pub compute_address : Ramdisk → ℕ
compute_address rd = (rd.ppi_b % 8 * 65536 + rd.ppi_a * 256 + rd.counter) % ramdisk_size

-- `ppi_set_control`: a mode set, or bit set and reset on port C.
unfoldable pub ppi_set_control : Ramdisk → ℕ → Ramdisk
ppi_set_control rd value =
    let bit = value / 2 % 8 in
    if has_bit value 7
    then record rd {
      ppi_ctrl = value;
      port_a_input = has_bit value 4;
      port_b_input = has_bit value 1;
      ppi_a = 0;
      ppi_b = 0;
      ppi_c = 0;
      counter = 0;
    }
    else record rd {
      ppi_c = if has_bit value 0 then set_bit rd.ppi_c bit else clear_bit rd.ppi_c bit;
    }

-- `ramdisk_init`
unfoldable pub init : Ramdisk
init = record {
  enabled = false;
  ppi_a = 0;
  ppi_b = 0;
  ppi_c = 0;
  ppi_ctrl = 0;
  port_a_input = false;
  port_b_input = false;
  counter = 0;
  ram = none;
}

-- The seed after `i` rounds of the generator in `ramdisk_enable`.
pub seed_after : ℕ → ℕ
seed_after zero = 0xdeadbeef
seed_after (suc i) = u32 (u32 (seed_after i * 1103515245) + 12345)

-- `ramdisk_enable`
unfoldable pub enable : Bool → Ramdisk → Ramdisk
enable granted rd = elim (rd.ram) [
  | some _ ↦ rd
  | none ↦
      if granted
      then record rd { ram = some (λ i. u8 (seed_after (suc i) / 65536)); enabled = true }
      else rd
]

-- `ramdisk_free`
unfoldable pub free : Ramdisk → Ramdisk
free rd = record rd { ram = none; enabled = false }

-- `ramdisk_reset`
unfoldable pub reset : Ramdisk → Ramdisk
reset rd = record rd {
  ppi_a = 0;
  ppi_b = 0;
  ppi_c = 0;
  ppi_ctrl = 0;
  port_a_input = false;
  port_b_input = false;
  counter = 0;
}

-- `offset == RAMDISK_IO_DATA || …`: the data port and its mirror.
abbrev pub is_data : ℕ → Bool
is_data offset =
    offset == io_data
    || offset == io_data + 1
    || offset == io_data_alias
    || offset == io_data_alias + 1

-- `ramdisk_handles`
unfoldable pub handles : ℕ → Bool
handles offset =
    if leb io_ppi_rd_a offset && leb offset io_ppi_rd_ctrl
    then true
    else if leb io_ppi_wr_a offset && leb offset io_ppi_wr_ctrl
    then true
    else is_data offset

-- The data port of `ramdisk_read`.
unfoldable pub read_data : Ramdisk → ℕ × Ramdisk
unfolding compute_address
read_data rd = elim (rd.ram) [
  | none ↦ (0xff, rd)
  | some ram ↦ (ram (compute_address rd), record rd { counter = u8 (rd.counter + 1) })
]

-- `ramdisk_read`
unfoldable pub read : Ramdisk → ℕ → ℕ × Ramdisk
read rd offset =
    if offset == io_ppi_rd_a
    then (rd.ppi_a, rd)
    else if offset == io_ppi_rd_b
    then (rd.ppi_b, rd)
    else if offset == io_ppi_rd_c
    then (rd.ppi_c, rd)
    else if offset == io_ppi_rd_ctrl
    then (rd.ppi_ctrl, rd)
    else if is_data offset
    then read_data rd
    else (0, rd)

-- The data port of `ramdisk_write`.
unfoldable pub write_data : Ramdisk → ℕ → Ramdisk
unfolding compute_address
write_data rd value = elim (rd.ram) [
  | none ↦ rd
  | some ram ↦ record rd {
    ram = some (store ram (compute_address rd) value);
    counter = u8 (rd.counter + 1);
  }
]

-- `ramdisk_write`
unfoldable pub write : Ramdisk → ℕ → ℕ → Ramdisk
write rd offset value =
    if offset == io_ppi_wr_a
    then record rd { ppi_a = value }
    else if offset == io_ppi_wr_b
    then record rd { ppi_b = value; counter = if has_bit value 5 then 0 else rd.counter }
    else if offset == io_ppi_wr_c
    then record rd { ppi_c = value }
    else if offset == io_ppi_wr_ctrl
    then ppi_set_control rd value
    else if is_data offset
    then write_data rd value
    else rd
