-- ===== src/Core/Cpu/ShiftWord.antt =====
-- The shifts and rotations of src/core/src/cpu_ops.c on words.
use ms.Base.{◌+◌, ◌*◌, ◌/◌, if◌then◌else◌, has_bit, u16}
use ms.Core.Cpu.{Bus, Action, ◌>>=◌, ◌>>◌, pure, set_nz_word, set_c, get_c}
use ms.Core.Cpu.Address.{
  opcode, dst_mode, dst_reg, get_word_addr, read_word_op, write_word_op, datio_begin, datio_end,
  set_v_of_nc,
}

module _ {B : Type 0} ⦃bus : Bus B⦄ where
  unfoldable pub op_asr : Action B (Unit {0})
  op_asr = do
    op ← opcode
    addr ← get_word_addr (dst_mode op) (dst_reg op)
    datio_begin (dst_mode op)
    val ← read_word_op (dst_mode op) (dst_reg op) addr
    set_c (has_bit val 0)
    result ← pure (if has_bit val 15 then val / 2 + 32768 else val / 2)
    write_word_op (dst_mode op) (dst_reg op) addr result
    datio_end (dst_mode op)
    set_nz_word result
    set_v_of_nc

  unfoldable pub op_asl : Action B (Unit {0})
  op_asl = do
    op ← opcode
    addr ← get_word_addr (dst_mode op) (dst_reg op)
    datio_begin (dst_mode op)
    val ← read_word_op (dst_mode op) (dst_reg op) addr
    set_c (has_bit val 15)
    result ← pure (u16 (val * 2))
    write_word_op (dst_mode op) (dst_reg op) addr result
    datio_end (dst_mode op)
    set_nz_word result
    set_v_of_nc

  unfoldable pub op_ror : Action B (Unit {0})
  op_ror = do
    op ← opcode
    addr ← get_word_addr (dst_mode op) (dst_reg op)
    datio_begin (dst_mode op)
    val ← read_word_op (dst_mode op) (dst_reg op) addr
    old_c ← get_c
    set_c (has_bit val 0)
    result ← pure (if old_c then val / 2 + 32768 else val / 2)
    write_word_op (dst_mode op) (dst_reg op) addr result
    datio_end (dst_mode op)
    set_nz_word result
    set_v_of_nc

  unfoldable pub op_rol : Action B (Unit {0})
  op_rol = do
    op ← opcode
    addr ← get_word_addr (dst_mode op) (dst_reg op)
    datio_begin (dst_mode op)
    val ← read_word_op (dst_mode op) (dst_reg op) addr
    old_c ← get_c
    set_c (has_bit val 15)
    result ← pure (if old_c then u16 (val * 2) + 1 else u16 (val * 2))
    write_word_op (dst_mode op) (dst_reg op) addr result
    datio_end (dst_mode op)
    set_nz_word result
    set_v_of_nc
