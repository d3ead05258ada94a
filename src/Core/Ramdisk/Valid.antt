-- ===== src/Core/Ramdisk/Valid.antt =====
-- Ranges of the registers of src/core/src/ramdisk.c, and which offsets its ports answer to.
use ms.Base.{
  ℕ, zero, suc, ◌+◌, ◌*◌, ◌/◌, ◌%◌, ◌<◌, ◌≡◌, Bool, true, false, List, [], ◌∷◌, arith, set_bit,
  clear_bit,
}
use ms.Core.Ramdisk.{
  Ramdisk, init, compute_address, ppi_set_control, enable, free, reset, handles, read_data, read,
  write_data, write, ramdisk_size, is_data, io_data,
}

pub record IsValid (rd : Ramdisk) : Type 0 where
  pub a_fits : rd.ppi_a < 256
  pub b_fits : rd.ppi_b < 256
  pub c_fits : rd.ppi_c < 256
  pub ctrl_fits : rd.ppi_ctrl < 256
  pub counter_fits : rd.counter < 256

-- One bit of a byte set or cleared leaves a byte.
set_bit_fits : (x k : ℕ) → x < 256 → k < 8 → set_bit x k < 256
set_bit_fits x zero h b = ground arith
set_bit_fits x (suc zero) h b = ground arith
set_bit_fits x (suc (suc zero)) h b = ground arith
set_bit_fits x (suc (suc (suc zero))) h b = ground arith
set_bit_fits x (suc (suc (suc (suc zero)))) h b = ground arith
set_bit_fits x (suc (suc (suc (suc (suc zero))))) h b = ground arith
set_bit_fits x (suc (suc (suc (suc (suc (suc zero)))))) h b = ground arith
set_bit_fits x (suc (suc (suc (suc (suc (suc (suc zero))))))) h b = ground arith
set_bit_fits x (suc (suc (suc (suc (suc (suc (suc (suc k)))))))) h b = absurd (omega arith)

clear_bit_fits : (x k : ℕ) → x < 256 → clear_bit x k < 256
clear_bit_fits x k h = ground arith

ppi_set_control-IsValid :
    (rd : Ramdisk) (value : ℕ) → value < 256 → IsValid rd → IsValid (ppi_set_control rd value)
unfolding ppi_set_control
ppi_set_control-IsValid rd value h v =
    ground (arith, set_bit_fits rd.ppi_c (value / 2 % 8), clear_bit_fits rd.ppi_c (value / 2 % 8))

-- What can happen to the device: an allocation that the C library grants or not, and a byte
-- written where a write passes one.
pub data Op : Type 0 where
  do_enable : Bool → Op
  do_free do_reset : Op
  do_read : (offset : ℕ) → Op
  do_write : (offset value : ℕ) → value < 256 → Op

unfoldable pub apply : Ramdisk → Op → Ramdisk
apply rd (do_enable granted) = enable granted rd
apply rd do_free = free rd
apply rd do_reset = reset rd
apply rd (do_read offset) = (read rd offset).1
apply rd (do_write offset value h) = write rd offset value

unfoldable pub run : Ramdisk → List Op → Ramdisk
unfolding apply
run rd [] = rd
run rd (op ∷ ops) = run (apply rd op) ops

apply-IsValid : (rd : Ramdisk) (op : Op) → IsValid rd → IsValid (apply rd op)
unfolding apply
apply-IsValid rd (do_enable granted) v = unfold enable in ground arith
apply-IsValid rd do_free v = unfold free in ground arith
apply-IsValid rd do_reset v = unfold reset in ground arith
apply-IsValid rd (do_read offset) v = unfold read read_data in ground arith
apply-IsValid rd (do_write offset value h) v =
    unfold write write_data in ground (arith, ppi_set_control-IsValid rd value h v)

run-IsValid : (ops : List Op) (rd : Ramdisk) → IsValid rd → IsValid (run rd ops)
unfolding run
run-IsValid [] rd v = v
run-IsValid (op ∷ ops) rd v = run-IsValid ops (apply rd op) (apply-IsValid rd op v)

-- From power-on, whatever the CPU writes and reads: the registers stay bytes, and the address is
-- the bank, the page and the counter side by side, inside the 512 KB.
pub compute_address-run :
    (ops : List Op)
    → let rd = run init ops in
      IsValid rd
      × (compute_address rd < ramdisk_size)
      × (compute_address rd ≡ rd.ppi_b % 8 * 65536 + rd.ppi_a * 256 + rd.counter)
unfolding compute_address
compute_address-run ops =
    let v = run-IsValid ops init (unfold init in omega arith) in (v, omega arith, omega arith)

-- An offset outside the ports is not answered: it reads 0, and neither a read nor a write there
-- changes anything.
pub not_handled :
    (rd : Ramdisk) (offset value : ℕ)
    → handles offset ≡ false
    → (read rd offset ≡ (0, rd)) × (write rd offset value ≡ rd)
unfolding handles read write
not_handled rd offset value h = (ground arith, ground arith)

-- The mirror of the data port, and the odd bytes of both, behave as the data port does.
pub data_mirror :
    (rd : Ramdisk) (offset value : ℕ)
    → is_data offset ≡ true
    → (read rd offset ≡ read rd io_data) × (write rd offset value ≡ write rd io_data value)
unfolding read write
data_mirror rd offset value h = (ground arith, ground arith)
