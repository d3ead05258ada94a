-- ===== src/Core/Cpu/Address.antt =====
-- The addressing modes of src/core/src/cpu_ops.c: effective addresses with their side effects and
-- times, operands, the brackets of a read-modify-write cycle, the fields of an opcode, the stack.
use ms.Base.{
  ℕ, ◌+◌, ◌*◌, ◌/◌, ◌%◌, ◌==◌, leb, if◌then◌else◌, u16, low, with_low, store, ◌-◌, differ, set_bit,
  clear_bit,
}
use ms.Core.Cpu.{
  Bus, Action, ◌>>=◌, ◌>>◌, pure, modify, gets, get_r, set_r, add_cycles, reg_sp, reg_pc, psw_c,
  psw_v, psw_z, psw_n, flag, set_v, board_write_word, board_write_byte, bus_read_word,
  bus_read_byte,
}

-- `ADDR_REGISTER`: the operand is in a register.
abbrev pub addr_register : ℕ
addr_register = 65535

abbrev pub bus_cycle : ℕ
bus_cycle = 6

abbrev pub reg_write_cycle : ℕ
reg_write_cycle = 3

abbrev pub autodec_cycle : ℕ
autodec_cycle = 3

abbrev pub index_cycle : ℕ
index_cycle = 3

abbrev pub microcycle : ℕ
microcycle = 3

-- `DST_MODE`, `DST_REG`, `SRC_MODE`, `SRC_REG` of an opcode.
abbrev pub dst_mode : ℕ → ℕ
dst_mode op = op / 8 % 8

abbrev pub dst_reg : ℕ → ℕ
dst_reg op = op % 8

abbrev pub src_mode : ℕ → ℕ
src_mode op = op / 512 % 8

abbrev pub src_reg : ℕ → ℕ
src_reg op = op / 64 % 8

-- `cpu->r[reg] += step` and `-= step`, for a step of 1 or 2.
abbrev pub step_up : {B : Type 0} → ℕ → ℕ → Action B (Unit {0})
step_up reg step = modify λ c. record c { r = store c.r reg (u16 (c.r reg + step)) }

abbrev pub step_down : {B : Type 0} → ℕ → ℕ → Action B (Unit {0})
step_down reg step = modify λ c. record c { r = store c.r reg (u16 (c.r reg + 65536 - step)) }

abbrev pub opcode : {B : Type 0} → Action B ℕ
opcode = gets λ c. c.instruction

-- `psw = (psw & ~(N | V | C)) | Z`
abbrev pub clear_flags : {B : Type 0} → Action B (Unit {0})
clear_flags = modify λ c. record c {
  psw = set_bit (clear_bit (clear_bit (clear_bit c.psw psw_n) psw_v) psw_c) psw_z;
}

-- `set_v(N ^ C)`, after a shift.
unfoldable pub set_v_of_nc : {B : Type 0} → Action B (Unit {0})
set_v_of_nc = do n ← flag psw_n; c ← flag psw_c; set_v (differ n c)

module _ {B : Type 0} ⦃bus : Bus B⦄ where
  -- Modes 6 and 7: the word at PC, and the register it is added to.
  unfoldable pub index_word : ℕ → Action B ℕ
  index_word reg = do
    pc ← get_r reg_pc
    addr ← bus_read_word pc
    step_up reg_pc 2
    base ← get_r reg
    pure (u16 (addr + base))

  -- Modes 1 to 7 of both switches, with the step of autoincrement and autodecrement.
  unfoldable pub address : ℕ → ℕ → ℕ → Action B ℕ
  address step mode reg =
      if mode == 1
      then get_r reg
      else if mode == 2
      then (do addr ← get_r reg; step_up reg step; pure addr)
      else if mode == 3
      then (do addr ← get_r reg; step_up reg 2; add_cycles bus_cycle; bus_read_word addr)
      else if mode == 4
      then (do add_cycles autodec_cycle; step_down reg step; get_r reg)
      else if mode == 5
      then (do
        add_cycles (autodec_cycle + bus_cycle)
        step_down reg 2
        addr ← get_r reg
        bus_read_word addr)
      else if mode == 6
      then (do add_cycles (index_cycle + bus_cycle); index_word reg)
      else if mode == 7
      then (do add_cycles (index_cycle + 2 * bus_cycle); addr ← index_word reg; bus_read_word addr)
      else pure 0

  unfoldable pub get_word_addr : ℕ → ℕ → Action B ℕ
  get_word_addr mode reg = if mode == 0 then pure addr_register else address 2 mode reg

  -- R0 to R5 step by one byte, SP and PC by a word.
  unfoldable pub get_byte_addr : ℕ → ℕ → Action B ℕ
  get_byte_addr mode reg =
      let step = if leb 6 reg then 2 else 1 in
      if mode == 0 then pure addr_register else address step mode reg

  unfoldable pub read_word_op : ℕ → ℕ → ℕ → Action B ℕ
  read_word_op mode reg addr =
      if mode == 0 then get_r reg else (do add_cycles bus_cycle; bus_read_word addr)

  unfoldable pub write_word_op : ℕ → ℕ → ℕ → ℕ → Action B (Unit {0})
  write_word_op mode reg addr val =
      if mode == 0
      then (do add_cycles reg_write_cycle; set_r reg val)
      else (do add_cycles bus_cycle; board_write_word addr (u16 val))

  unfoldable pub read_byte_op : ℕ → ℕ → ℕ → Action B ℕ
  read_byte_op mode reg addr =
      if mode == 0 then gets (λ c. low (c.r reg)) else (do add_cycles bus_cycle; bus_read_byte addr)

  unfoldable pub write_byte_op : ℕ → ℕ → ℕ → ℕ → Action B (Unit {0})
  write_byte_op mode reg addr val =
      if mode == 0
      then (do add_cycles reg_write_cycle; w ← get_r reg; set_r reg (with_low w (low val)))
      else (do add_cycles bus_cycle; board_write_byte addr (low val))

  -- A register source is read when the operation uses it, after the destination's address steps.
  unfoldable pub word_source_after : ℕ → ℕ → ℕ → Action B ℕ
  word_source_after sm sr read = gets λ c. if sm == 0 then c.r sr else read

  unfoldable pub byte_source_after : ℕ → ℕ → ℕ → Action B ℕ
  byte_source_after sm sr read = gets λ c. if sm == 0 then low (c.r sr) else read

  -- The read that precedes a write on the bus; what it returns is dropped.
  unfoldable pub discard_read_word : ℕ → ℕ → Action B (Unit {0})
  discard_read_word mode addr =
      if mode == 0 then pure tt else (do add_cycles bus_cycle; v ← bus_read_word addr; pure tt)

  unfoldable pub discard_read_byte : ℕ → ℕ → Action B (Unit {0})
  discard_read_byte mode addr =
      if mode == 0 then pure tt else (do add_cycles bus_cycle; v ← bus_read_byte addr; pure tt)

  unfoldable pub datio_begin : ℕ → Action B (Unit {0})
  datio_begin mode =
      if mode == 0 then pure tt else modify λ c. record c { board = bus.datio_begin c.board }

  unfoldable pub datio_end : ℕ → Action B (Unit {0})
  datio_end mode =
      if mode == 0 then pure tt else modify λ c. record c { board = bus.datio_end c.board }

  unfoldable pub push : ℕ → Action B (Unit {0})
  push val = do
    step_down reg_sp 2
    add_cycles bus_cycle
    sp ← get_r reg_sp
    board_write_word sp (u16 val)

  unfoldable pub pop : Action B ℕ
  pop = do
    add_cycles bus_cycle
    sp ← get_r reg_sp
    val ← bus_read_word sp
    step_up reg_sp 2
    pure val
