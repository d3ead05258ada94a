-- ===== src/Core/Cpu/SingleWord.antt =====
-- The single-operand instructions of src/core/src/cpu_ops.c on words.
use ms.Base.{◌+◌, ◌-◌, true, false, not, ◌&&◌, ◌==◌, if◌then◌else◌, u16}
use ms.Core.Cpu.{Bus, Action, ◌>>=◌, ◌>>◌, pure, add_cycles, set_nz_word, set_c, set_v, get_c}
use ms.Core.Cpu.Address.{
  opcode, microcycle, dst_mode, dst_reg, get_word_addr, read_word_op, write_word_op,
  discard_read_word, datio_begin, datio_end, clear_flags,
}

module _ {B : Type 0} ⦃bus : Bus B⦄ where
  unfoldable pub op_clr : Action B (Unit {0})
  op_clr = do
    op ← opcode
    addr ← get_word_addr (dst_mode op) (dst_reg op)
    datio_begin (dst_mode op)
    discard_read_word (dst_mode op) addr
    write_word_op (dst_mode op) (dst_reg op) addr 0
    datio_end (dst_mode op)
    clear_flags

  unfoldable pub op_com : Action B (Unit {0})
  op_com = do
    op ← opcode
    addr ← get_word_addr (dst_mode op) (dst_reg op)
    datio_begin (dst_mode op)
    val ← read_word_op (dst_mode op) (dst_reg op) addr
    result ← pure (65535 - val)
    write_word_op (dst_mode op) (dst_reg op) addr result
    datio_end (dst_mode op)
    set_nz_word result
    set_v false
    set_c true

  unfoldable pub op_inc : Action B (Unit {0})
  op_inc = do
    op ← opcode
    addr ← get_word_addr (dst_mode op) (dst_reg op)
    datio_begin (dst_mode op)
    val ← read_word_op (dst_mode op) (dst_reg op) addr
    set_v (val == 32767)
    result ← pure (u16 (val + 1))
    write_word_op (dst_mode op) (dst_reg op) addr result
    datio_end (dst_mode op)
    set_nz_word result

  unfoldable pub op_dec : Action B (Unit {0})
  op_dec = do
    op ← opcode
    addr ← get_word_addr (dst_mode op) (dst_reg op)
    datio_begin (dst_mode op)
    val ← read_word_op (dst_mode op) (dst_reg op) addr
    set_v (val == 32768)
    result ← pure (u16 (val + 65535))
    write_word_op (dst_mode op) (dst_reg op) addr result
    datio_end (dst_mode op)
    set_nz_word result

  unfoldable pub op_neg : Action B (Unit {0})
  op_neg = do
    op ← opcode
    addr ← get_word_addr (dst_mode op) (dst_reg op)
    datio_begin (dst_mode op)
    val ← read_word_op (dst_mode op) (dst_reg op) addr
    result ← pure (u16 (65536 - val))
    write_word_op (dst_mode op) (dst_reg op) addr result
    datio_end (dst_mode op)
    set_nz_word result
    set_v (result == 32768)
    set_c (not (result == 0))

  unfoldable pub op_tst : Action B (Unit {0})
  op_tst = do
    add_cycles microcycle
    op ← opcode
    addr ← get_word_addr (dst_mode op) (dst_reg op)
    val ← read_word_op (dst_mode op) (dst_reg op) addr
    set_nz_word val
    set_v false
    set_c false

  unfoldable pub op_adc : Action B (Unit {0})
  op_adc = do
    op ← opcode
    addr ← get_word_addr (dst_mode op) (dst_reg op)
    datio_begin (dst_mode op)
    val ← read_word_op (dst_mode op) (dst_reg op) addr
    c ← get_c
    set_v (c && val == 32767)
    set_c (c && val == 65535)
    result ← pure (if c then u16 (val + 1) else val)
    write_word_op (dst_mode op) (dst_reg op) addr result
    datio_end (dst_mode op)
    set_nz_word result

  unfoldable pub op_sbc : Action B (Unit {0})
  op_sbc = do
    op ← opcode
    addr ← get_word_addr (dst_mode op) (dst_reg op)
    datio_begin (dst_mode op)
    val ← read_word_op (dst_mode op) (dst_reg op) addr
    c ← get_c
    set_v (val == 32768)
    set_c (c && val == 0)
    result ← pure (if c then u16 (val + 65535) else val)
    write_word_op (dst_mode op) (dst_reg op) addr result
    datio_end (dst_mode op)
    set_nz_word result
