-- ===== src/Core/Cpu/Special.antt =====
-- SXT, SWAB, MTPS and MFPS of src/core/src/cpu_ops.c.
use ms.Base.{
  ℕ, ◌+◌, ◌*◌, false, ◌==◌, if◌then◌else◌, has_bit, low, high, word, List, [], ◌∷◌, get_or,
}
use ms.Core.Cpu.{
  Bus, Action, ◌>>=◌, ◌>>◌, pure, modify, gets, set_r, set_cycles, add_cycles, flag, psw_n, psw_t,
  set_nz_word, set_nz_byte, set_c, set_v, put_bit,
}
use ms.Core.Cpu.Address.{
  opcode, microcycle, reg_write_cycle, dst_mode, dst_reg, get_word_addr, get_byte_addr,
  read_word_op, write_word_op, read_byte_op, write_byte_op, discard_read_word, discard_read_byte,
  datio_begin, datio_end,
}

-- `MTPS_MICROCYCLES`, by the mode.
abbrev pub mtps_microcycles : List ℕ
mtps_microcycles = 8 ∷ 10 ∷ 10 ∷ 12 ∷ 11 ∷ 13 ∷ 13 ∷ 15 ∷ []

-- `(psw & (0xFF00 | T)) | (val & ~T & 0xFF)`
abbrev pub moved_psw : ℕ → ℕ → ℕ
moved_psw psw val = high psw * 256 + put_bit (low val) psw_t (has_bit psw psw_t)

module _ {B : Type 0} ⦃bus : Bus B⦄ where
  unfoldable pub op_sxt : Action B (Unit {0})
  op_sxt = do
    op ← opcode
    addr ← get_word_addr (dst_mode op) (dst_reg op)
    n ← flag psw_n
    val ← pure (if n then 65535 else 0)
    datio_begin (dst_mode op)
    discard_read_word (dst_mode op) addr
    write_word_op (dst_mode op) (dst_reg op) addr val
    datio_end (dst_mode op)
    set_nz_word val
    set_v false

  unfoldable pub op_swab : Action B (Unit {0})
  op_swab = do
    op ← opcode
    addr ← get_word_addr (dst_mode op) (dst_reg op)
    datio_begin (dst_mode op)
    val ← read_word_op (dst_mode op) (dst_reg op) addr
    result ← pure (word (high val) (low val))
    write_word_op (dst_mode op) (dst_reg op) addr result
    datio_end (dst_mode op)
    set_nz_byte (low result)
    set_v false
    set_c false

  unfoldable pub op_mtps : Action B (Unit {0})
  op_mtps = do
    op ← opcode
    addr ← get_byte_addr (dst_mode op) (dst_reg op)
    val ← read_byte_op (dst_mode op) (dst_reg op) addr
    modify λ c. record c { psw = moved_psw c.psw val }
    set_cycles (get_or mtps_microcycles (dst_mode op) 0 * microcycle)

  unfoldable pub mfps_memory : ℕ → ℕ → Action B (Unit {0})
  mfps_memory op val = do
    addr ← get_byte_addr (dst_mode op) (dst_reg op)
    datio_begin (dst_mode op)
    discard_read_byte (dst_mode op) addr
    write_byte_op (dst_mode op) (dst_reg op) addr val
    datio_end (dst_mode op)

  unfoldable pub op_mfps : Action B (Unit {0})
  op_mfps = do
    op ← opcode
    val ← gets λ c. low c.psw
    (if dst_mode op == 0
        then (do
          add_cycles reg_write_cycle
          set_r (dst_reg op) (if has_bit val 7 then 65280 + val else val))
        else mfps_memory op val)
    set_nz_byte val
    set_v false
