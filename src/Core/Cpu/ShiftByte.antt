-- ===== src/Core/Cpu/ShiftByte.antt =====
-- The shifts and rotations of src/core/src/cpu_ops.c on bytes.
use ms.Base.{◌+◌, ◌*◌, ◌/◌, if◌then◌else◌, has_bit, u8}
use ms.Core.Cpu.{Bus, Action, ◌>>=◌, ◌>>◌, pure, set_nz_byte, set_c, get_c}
use ms.Core.Cpu.Address.{
  opcode, dst_mode, dst_reg, get_byte_addr, read_byte_op, write_byte_op, datio_begin, datio_end,
  set_v_of_nc,
}

module _ {B : Type 0} ⦃bus : Bus B⦄ where
  unfoldable pub op_asrb : Action B (Unit {0})
  op_asrb = do
    op ← opcode
    addr ← get_byte_addr (dst_mode op) (dst_reg op)
    datio_begin (dst_mode op)
    val ← read_byte_op (dst_mode op) (dst_reg op) addr
    set_c (has_bit val 0)
    result ← pure (if has_bit val 7 then val / 2 + 128 else val / 2)
    write_byte_op (dst_mode op) (dst_reg op) addr result
    datio_end (dst_mode op)
    set_nz_byte result
    set_v_of_nc

  unfoldable pub op_aslb : Action B (Unit {0})
  op_aslb = do
    op ← opcode
    addr ← get_byte_addr (dst_mode op) (dst_reg op)
    datio_begin (dst_mode op)
    val ← read_byte_op (dst_mode op) (dst_reg op) addr
    set_c (has_bit val 7)
    result ← pure (u8 (val * 2))
    write_byte_op (dst_mode op) (dst_reg op) addr result
    datio_end (dst_mode op)
    set_nz_byte result
    set_v_of_nc

  unfoldable pub op_rorb : Action B (Unit {0})
  op_rorb = do
    op ← opcode
    addr ← get_byte_addr (dst_mode op) (dst_reg op)
    datio_begin (dst_mode op)
    val ← read_byte_op (dst_mode op) (dst_reg op) addr
    old_c ← get_c
    set_c (has_bit val 0)
    result ← pure (if old_c then val / 2 + 128 else val / 2)
    write_byte_op (dst_mode op) (dst_reg op) addr result
    datio_end (dst_mode op)
    set_nz_byte result
    set_v_of_nc

  unfoldable pub op_rolb : Action B (Unit {0})
  op_rolb = do
    op ← opcode
    addr ← get_byte_addr (dst_mode op) (dst_reg op)
    datio_begin (dst_mode op)
    val ← read_byte_op (dst_mode op) (dst_reg op) addr
    old_c ← get_c
    set_c (has_bit val 7)
    result ← pure (if old_c then u8 (val * 2) + 1 else u8 (val * 2))
    write_byte_op (dst_mode op) (dst_reg op) addr result
    datio_end (dst_mode op)
    set_nz_byte result
    set_v_of_nc
