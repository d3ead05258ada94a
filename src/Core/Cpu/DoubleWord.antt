-- ===== src/Core/Cpu/DoubleWord.antt =====
-- The double-operand instructions of src/core/src/cpu_ops.c on words.
use ms.Base.{ℕ, ◌+◌, ◌-◌, false, not, ◌&&◌, has_bit, u16, bit_and, bit_or, bit_xor, differ, ltb}
use ms.Core.Cpu.{Bus, Action, ◌>>=◌, ◌>>◌, pure, get_r, add_cycles, set_nz_word, set_c, set_v}
use ms.Core.Cpu.Address.{
  opcode, microcycle, dst_mode, dst_reg, src_mode, src_reg, get_word_addr, read_word_op,
  write_word_op, discard_read_word, datio_begin, datio_end, word_source_after,
}

module _ {B : Type 0} ⦃bus : Bus B⦄ where
  -- The operands of a double-operand instruction: the source's value and the destination's address.
  unfoldable pub word_operands : Action B (ℕ × ℕ)
  word_operands = do
    op ← opcode
    saddr ← get_word_addr (src_mode op) (src_reg op)
    read ← read_word_op (src_mode op) (src_reg op) saddr
    daddr ← get_word_addr (dst_mode op) (dst_reg op)
    s ← word_source_after (src_mode op) (src_reg op) read
    pure (s, daddr)

  unfoldable pub op_mov : Action B (Unit {0})
  op_mov = do
    op ← opcode
    (val, daddr) ← word_operands
    datio_begin (dst_mode op)
    discard_read_word (dst_mode op) daddr
    write_word_op (dst_mode op) (dst_reg op) daddr val
    datio_end (dst_mode op)
    set_nz_word val
    set_v false

  unfoldable pub op_cmp : Action B (Unit {0})
  op_cmp = do
    add_cycles microcycle
    op ← opcode
    (s, daddr) ← word_operands
    d ← read_word_op (dst_mode op) (dst_reg op) daddr
    result ← pure (u16 (s + 65536 - d))
    set_nz_word result
    set_v (differ (has_bit s 15) (has_bit d 15) && differ (has_bit s 15) (has_bit result 15))
    set_c (ltb s d)

  unfoldable pub op_bit : Action B (Unit {0})
  op_bit = do
    add_cycles microcycle
    op ← opcode
    (s, daddr) ← word_operands
    d ← read_word_op (dst_mode op) (dst_reg op) daddr
    result ← pure (u16 (bit_and s d))
    set_nz_word result
    set_v false

  unfoldable pub op_bic : Action B (Unit {0})
  op_bic = do
    op ← opcode
    (s, daddr) ← word_operands
    datio_begin (dst_mode op)
    d ← read_word_op (dst_mode op) (dst_reg op) daddr
    result ← pure (u16 (bit_and d (65535 - s)))
    write_word_op (dst_mode op) (dst_reg op) daddr result
    datio_end (dst_mode op)
    set_nz_word result
    set_v false

  unfoldable pub op_bis : Action B (Unit {0})
  op_bis = do
    op ← opcode
    (s, daddr) ← word_operands
    datio_begin (dst_mode op)
    d ← read_word_op (dst_mode op) (dst_reg op) daddr
    result ← pure (u16 (bit_or d s))
    write_word_op (dst_mode op) (dst_reg op) daddr result
    datio_end (dst_mode op)
    set_nz_word result
    set_v false

  unfoldable pub op_add : Action B (Unit {0})
  op_add = do
    op ← opcode
    (s, daddr) ← word_operands
    datio_begin (dst_mode op)
    d ← read_word_op (dst_mode op) (dst_reg op) daddr
    result ← pure (s + d)
    write_word_op (dst_mode op) (dst_reg op) daddr (u16 result)
    datio_end (dst_mode op)
    set_nz_word (u16 result)
    set_v (
        not (differ (has_bit s 15) (has_bit d 15))
        && differ (has_bit s 15) (has_bit (u16 result) 15))
    set_c (ltb 65535 result)

  unfoldable pub op_sub : Action B (Unit {0})
  op_sub = do
    op ← opcode
    (s, daddr) ← word_operands
    datio_begin (dst_mode op)
    d ← read_word_op (dst_mode op) (dst_reg op) daddr
    result ← pure (u16 (d + 65536 - s))
    write_word_op (dst_mode op) (dst_reg op) daddr result
    datio_end (dst_mode op)
    set_nz_word result
    set_v (differ (has_bit d 15) (has_bit s 15) && differ (not (has_bit s 15)) (has_bit result 15))
    set_c (ltb d s)

  unfoldable pub op_xor : Action B (Unit {0})
  op_xor = do
    op ← opcode
    daddr ← get_word_addr (dst_mode op) (dst_reg op)
    s ← get_r (src_reg op)
    datio_begin (dst_mode op)
    d ← read_word_op (dst_mode op) (dst_reg op) daddr
    result ← pure (u16 (bit_xor s d))
    write_word_op (dst_mode op) (dst_reg op) daddr result
    datio_end (dst_mode op)
    set_nz_word result
    set_v false
