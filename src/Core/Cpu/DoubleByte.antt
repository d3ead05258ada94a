-- ===== src/Core/Cpu/DoubleByte.antt =====
-- The double-operand instructions of src/core/src/cpu_ops.c on bytes.
use ms.Base.{
  ℕ, ◌+◌, ◌-◌, false, ◌&&◌, ◌==◌, if◌then◌else◌, has_bit, u8, bit_and, bit_or, differ, ltb,
}
use ms.Core.Cpu.{Bus, Action, ◌>>=◌, ◌>>◌, pure, set_r, add_cycles, set_nz_byte, set_c, set_v}
use ms.Core.Cpu.Address.{
  opcode, microcycle, dst_mode, dst_reg, src_mode, src_reg, get_byte_addr, read_byte_op,
  write_byte_op, discard_read_byte, datio_begin, datio_end, byte_source_after,
}

module _ {B : Type 0} ⦃bus : Bus B⦄ where
  -- The operands of a double-operand instruction: the source's value and the destination's address.
  unfoldable pub byte_operands : Action B (ℕ × ℕ)
  byte_operands = do
    op ← opcode
    saddr ← get_byte_addr (src_mode op) (src_reg op)
    read ← read_byte_op (src_mode op) (src_reg op) saddr
    daddr ← get_byte_addr (dst_mode op) (dst_reg op)
    s ← byte_source_after (src_mode op) (src_reg op) read
    pure (s, daddr)

  -- To a register the byte is extended by its sign; to memory it is a byte.
  unfoldable pub movb_register : ℕ → ℕ → Action B (Unit {0})
  movb_register dr val = set_r dr (if has_bit val 7 then 65280 + val else val)

  unfoldable pub movb_memory : ℕ → ℕ → Action B ℕ
  movb_memory op read = do
    daddr ← get_byte_addr (dst_mode op) (dst_reg op)
    val ← byte_source_after (src_mode op) (src_reg op) read
    datio_begin (dst_mode op)
    discard_read_byte (dst_mode op) daddr
    write_byte_op (dst_mode op) (dst_reg op) daddr val
    datio_end (dst_mode op)
    pure val

  unfoldable pub op_movb : Action B (Unit {0})
  op_movb = do
    op ← opcode
    saddr ← get_byte_addr (src_mode op) (src_reg op)
    read ← read_byte_op (src_mode op) (src_reg op) saddr
    val ←
        if dst_mode op == 0
        then (do movb_register (dst_reg op) read; pure read)
        else movb_memory op read
    set_nz_byte val
    set_v false

  unfoldable pub op_cmpb : Action B (Unit {0})
  op_cmpb = do
    add_cycles microcycle
    op ← opcode
    (s, daddr) ← byte_operands
    d ← read_byte_op (dst_mode op) (dst_reg op) daddr
    result ← pure (u8 (s + 256 - d))
    set_nz_byte result
    set_v (differ (has_bit s 7) (has_bit d 7) && differ (has_bit s 7) (has_bit result 7))
    set_c (ltb s d)

  unfoldable pub op_bitb : Action B (Unit {0})
  op_bitb = do
    add_cycles microcycle
    op ← opcode
    (s, daddr) ← byte_operands
    d ← read_byte_op (dst_mode op) (dst_reg op) daddr
    result ← pure (u8 (bit_and s d))
    set_nz_byte result
    set_v false

  unfoldable pub op_bicb : Action B (Unit {0})
  op_bicb = do
    op ← opcode
    (s, daddr) ← byte_operands
    datio_begin (dst_mode op)
    d ← read_byte_op (dst_mode op) (dst_reg op) daddr
    result ← pure (u8 (bit_and d (255 - s)))
    write_byte_op (dst_mode op) (dst_reg op) daddr result
    datio_end (dst_mode op)
    set_nz_byte result
    set_v false

  unfoldable pub op_bisb : Action B (Unit {0})
  op_bisb = do
    op ← opcode
    (s, daddr) ← byte_operands
    datio_begin (dst_mode op)
    d ← read_byte_op (dst_mode op) (dst_reg op) daddr
    result ← pure (u8 (bit_or d s))
    write_byte_op (dst_mode op) (dst_reg op) daddr result
    datio_end (dst_mode op)
    set_nz_byte result
    set_v false
