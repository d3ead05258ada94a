-- ===== src/Core/Ramdisk/Tests.antt =====
-- Runs of src/core/src/ramdisk.c, and the theorems about it at a board with cleared memory.
use ms.Base.{◌≡◌, true, false, some, List, [], ◌∷◌, refl, arith}
use ms.Core.Ramdisk.{
  Ramdisk, init, seed_after, enable, free, reset, read, write, read_data, ppi_set_control,
  io_ppi_wr_ctrl,
}
use ms.Core.Ramdisk.Valid.{Op, do_enable, do_write}
use ms.Core.Ramdisk.Transfer.{seek, write_all, read_all, read_all-write_all}

abbrev board : Ramdisk
board = record {
  enabled = true;
  ppi_a = 7;
  ppi_b = 0x80;
  ppi_c = 0;
  ppi_ctrl = 0x80;
  port_a_input = false;
  port_b_input = false;
  counter = 255;
  ram = some (λ _. 0);
}

-- The counter wraps within its page.
counter_wraps : (read board 0x68).1.counter ≡ 0
unfolding read read_data
counter_wraps = refl

no_memory_floats : (read (free board) 0x78).0 ≡ 0xff
unfolding read free read_data
no_memory_floats = refl

-- Bit 3 of port C is set by the control word 0000 0111.
port_c_bit : (write board io_ppi_wr_ctrl 7).ppi_c ≡ 8
unfolding write ppi_set_control
port_c_bit = refl

first_seed : seed_after 1 ≡ 469847548
unfolding seed_after
first_seed = refl

refused_memory : enable false init ≡ init
unfolding enable init
refused_memory = refl

reset_keeps_memory : (reset board).ram ≡ board.ram
unfolding reset
reset_keeps_memory = refl

abbrev calls : List Op
calls = do_enable true ∷ do_write 0x5a 0x85 (omega arith) ∷ do_write 0x68 9 (omega arith) ∷ []

read_all-write_all_example :
    read_all (seek (write_all (seek board 5 200) (1 ∷ 2 ∷ 3 ∷ [])) 5 200) 3 ≡ 1 ∷ 2 ∷ 3 ∷ []
read_all-write_all_example =
    read_all-write_all board (λ _. 0) refl 5 200 (omega arith) (omega arith) (1 ∷ 2 ∷ 3 ∷ [])
      (omega arith)
