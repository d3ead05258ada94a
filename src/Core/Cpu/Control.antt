-- ===== src/Core/Cpu/Control.antt =====
-- Control instructions of src/core/src/cpu_ops.c: traps and returns, jumps, and the condition codes.
use ms.Base.{
  ℕ, ◌+◌, ◌-◌, ◌*◌, ◌/◌, ◌%◌, true, false, ◌==◌, if◌then◌else◌, low, bit_and, bit_or, List, [], ◌∷◌,
  get_or,
}
use ms.Core.Cpu.{
  board_event, evt_halt, Bus, Action, ◌>>=◌, ◌>>◌, pure, modify, gets, get_r, set_r, set_psw,
  set_cycles, flag, psw_t, reg_pc,
}
use ms.Core.Cpu.Address.{opcode, microcycle, dst_mode, dst_reg, src_reg, get_word_addr, push, pop}

-- `JMP_MICROCYCLES` and `JSR_MICROCYCLES`, by the mode.
abbrev pub jmp_microcycles : List ℕ
jmp_microcycles = 0 ∷ 5 ∷ 6 ∷ 6 ∷ 6 ∷ 7 ∷ 7 ∷ 9 ∷ []

abbrev pub jsr_microcycles : List ℕ
jsr_microcycles = 0 ∷ 9 ∷ 10 ∷ 10 ∷ 10 ∷ 11 ∷ 11 ∷ 13 ∷ []

-- `psw &= ~mask` and `psw |= mask`, for a mask of four bits.
abbrev pub clear_low : ℕ → ℕ → ℕ
clear_low psw mask = psw / 16 * 16 + bit_and (psw % 16) (15 - mask)

abbrev pub set_low : ℕ → ℕ → ℕ
set_low psw mask = psw / 16 * 16 + bit_or (psw % 16) mask

module _ {B : Type 0} ⦃bus : Bus B⦄ where
  unfoldable pub op_unknown : Action B (Unit {0})
  op_unknown = modify λ c. record c { irq_reserved = true }

  unfoldable pub op_nop : Action B (Unit {0})
  op_nop = set_cycles (6 * microcycle)

  unfoldable pub op_halt : Action B (Unit {0})
  op_halt = do
    board_event evt_halt
    psw ← gets λ c. c.psw
    push psw
    pc ← get_r reg_pc
    push pc
    set_r reg_pc 0o172004
    set_psw 0o340
    modify λ c. record c { waiting = false }
    set_cycles (14 * microcycle)

  unfoldable pub op_wait : Action B (Unit {0})
  op_wait = do set_cycles (4 * microcycle); modify λ c. record c { waiting = true }

  -- It leaves the devices to the board.
  unfoldable pub op_reset : Action B (Unit {0})
  op_reset = set_cycles (39 * microcycle)

  unfoldable pub op_rti : Action B (Unit {0})
  op_rti = do
    pc ← pop
    set_r reg_pc pc
    psw ← pop
    set_psw (low psw)
    set_cycles (8 * microcycle)
    t ← flag psw_t
    if t then modify (λ c. record c { irq_tbit = true }) else pure tt

  unfoldable pub op_rtt : Action B (Unit {0})
  op_rtt = do
    pc ← pop
    set_r reg_pc pc
    psw ← pop
    set_psw (low psw)
    set_cycles (8 * microcycle)
    modify λ c. record c { irq_tbit = false }

  unfoldable pub op_bpt : Action B (Unit {0})
  op_bpt = do set_cycles (16 * microcycle); modify λ c. record c { irq_bpt = true }

  unfoldable pub op_iot : Action B (Unit {0})
  op_iot = do set_cycles (16 * microcycle); modify λ c. record c { irq_iot = true }

  unfoldable pub op_emt : Action B (Unit {0})
  op_emt = do set_cycles (16 * microcycle); modify λ c. record c { irq_emt = true }

  unfoldable pub op_trap : Action B (Unit {0})
  op_trap = do set_cycles (16 * microcycle); modify λ c. record c { irq_trap = true }

  unfoldable pub op_mfpt : Action B (Unit {0})
  op_mfpt = do set_cycles (5 * microcycle); set_r 0 4

  unfoldable pub op_jmp : Action B (Unit {0})
  op_jmp = do
    op ← opcode
    if dst_mode op == 0 then modify (λ c. record c { irq_reserved = true }) else (do
      addr ← get_word_addr (dst_mode op) (dst_reg op)
      set_r reg_pc addr
      set_cycles (get_or jmp_microcycles (dst_mode op) 0 * microcycle))

  unfoldable pub op_jsr : Action B (Unit {0})
  op_jsr = do
    op ← opcode
    if dst_mode op == 0 then modify (λ c. record c { irq_reserved = true }) else (do
      addr ← get_word_addr (dst_mode op) (dst_reg op)
      link ← get_r (src_reg op)
      push link
      pc ← get_r reg_pc
      set_r (src_reg op) pc
      set_r reg_pc addr
      set_cycles (get_or jsr_microcycles (dst_mode op) 0 * microcycle))

  unfoldable pub op_rts : Action B (Unit {0})
  op_rts = do
    op ← opcode
    link ← get_r (dst_reg op)
    set_r reg_pc link
    val ← pop
    set_r (dst_reg op) val
    set_cycles (7 * microcycle)

  unfoldable pub op_ccc : Action B (Unit {0})
  op_ccc = do
    set_cycles (6 * microcycle)
    op ← opcode
    modify λ c. record c { psw = clear_low c.psw (op % 16) }

  unfoldable pub op_scc : Action B (Unit {0})
  op_scc = do
    set_cycles (6 * microcycle)
    op ← opcode
    modify λ c. record c { psw = set_low c.psw (op % 16) }
