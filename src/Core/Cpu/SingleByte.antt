-- ===== src/Core/Cpu/SingleByte.antt =====
-- The single-operand instructions of src/core/src/cpu_ops.c on bytes.
use ms.Base.{◌+◌, ◌-◌, true, false, not, ◌&&◌, ◌==◌, if◌then◌else◌, u8}
use ms.Core.Cpu.{Bus, Action, ◌>>=◌, ◌>>◌, pure, add_cycles, set_nz_byte, set_c, set_v, get_c}
use ms.Core.Cpu.Address.{
  opcode, microcycle, dst_mode, dst_reg, get_byte_addr, read_byte_op, write_byte_op,
  discard_read_byte, datio_begin, datio_end, clear_flags,
}

module _ {B : Type 0} ⦃bus : Bus B⦄ where
  unfoldable pub op_clrb : Action B (Unit {0})
  op_clrb = do
    op ← opcode
    addr ← get_byte_addr (dst_mode op) (dst_reg op)
    datio_begin (dst_mode op)
    discard_read_byte (dst_mode op) addr
    write_byte_op (dst_mode op) (dst_reg op) addr 0
    datio_end (dst_mode op)
    clear_flags

  unfoldable pub op_comb : Action B (Unit {0})
  op_comb = do
    op ← opcode
    addr ← get_byte_addr (dst_mode op) (dst_reg op)
    datio_begin (dst_mode op)
    val ← read_byte_op (dst_mode op) (dst_reg op) addr
    result ← pure (255 - val)
    write_byte_op (dst_mode op) (dst_reg op) addr result
    datio_end (dst_mode op)
    set_nz_byte result
    set_v false
    set_c true

  unfoldable pub op_incb : Action B (Unit {0})
  op_incb = do
    op ← opcode
    addr ← get_byte_addr (dst_mode op) (dst_reg op)
    datio_begin (dst_mode op)
    val ← read_byte_op (dst_mode op) (dst_reg op) addr
    set_v (val == 127)
    result ← pure (u8 (val + 1))
    write_byte_op (dst_mode op) (dst_reg op) addr result
    datio_end (dst_mode op)
    set_nz_byte result

  unfoldable pub op_decb : Action B (Unit {0})
  op_decb = do
    op ← opcode
    addr ← get_byte_addr (dst_mode op) (dst_reg op)
    datio_begin (dst_mode op)
    val ← read_byte_op (dst_mode op) (dst_reg op) addr
    set_v (val == 128)
    result ← pure (u8 (val + 255))
    write_byte_op (dst_mode op) (dst_reg op) addr result
    datio_end (dst_mode op)
    set_nz_byte result

  unfoldable pub op_negb : Action B (Unit {0})
  op_negb = do
    op ← opcode
    addr ← get_byte_addr (dst_mode op) (dst_reg op)
    datio_begin (dst_mode op)
    val ← read_byte_op (dst_mode op) (dst_reg op) addr
    result ← pure (u8 (256 - val))
    write_byte_op (dst_mode op) (dst_reg op) addr result
    datio_end (dst_mode op)
    set_nz_byte result
    set_v (result == 128)
    set_c (not (result == 0))

  unfoldable pub op_tstb : Action B (Unit {0})
  op_tstb = do
    add_cycles microcycle
    op ← opcode
    addr ← get_byte_addr (dst_mode op) (dst_reg op)
    val ← read_byte_op (dst_mode op) (dst_reg op) addr
    set_nz_byte val
    set_v false
    set_c false

  unfoldable pub op_adcb : Action B (Unit {0})
  op_adcb = do
    op ← opcode
    addr ← get_byte_addr (dst_mode op) (dst_reg op)
    datio_begin (dst_mode op)
    val ← read_byte_op (dst_mode op) (dst_reg op) addr
    c ← get_c
    set_v (c && val == 127)
    set_c (c && val == 255)
    result ← pure (if c then u8 (val + 1) else val)
    write_byte_op (dst_mode op) (dst_reg op) addr result
    datio_end (dst_mode op)
    set_nz_byte result

  unfoldable pub op_sbcb : Action B (Unit {0})
  op_sbcb = do
    op ← opcode
    addr ← get_byte_addr (dst_mode op) (dst_reg op)
    datio_begin (dst_mode op)
    val ← read_byte_op (dst_mode op) (dst_reg op) addr
    c ← get_c
    set_v (val == 128)
    set_c (c && val == 0)
    result ← pure (if c then u8 (val + 255) else val)
    write_byte_op (dst_mode op) (dst_reg op) addr result
    datio_end (dst_mode op)
    set_nz_byte result
