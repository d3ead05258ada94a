-- ===== src/Core/Cpu/Branch.antt =====
-- The branches of src/core/src/cpu_ops.c, and SOB.
use ms.Base.{
  ℕ, ◌+◌, ◌-◌, ◌*◌, ◌%◌, Bool, true, not, ◌||◌, store, ◌==◌, if◌then◌else◌, has_bit, u16, low,
  differ,
}
use ms.Core.Cpu.{
  Bus, Action, ◌>>=◌, ◌>>◌, pure, modify, get_r, set_r, set_cycles, flag, psw_c, psw_v, psw_z,
  psw_n, reg_pc,
}
use ms.Core.Cpu.Address.{opcode, microcycle, src_reg}

-- `(int16_t)(BRANCH_OFF(op) * 2)`, as the 16 bits that are added to PC.
abbrev pub branch_offset : ℕ → ℕ
branch_offset op = if has_bit op 7 then 65024 + low op * 2 else low op * 2

module _ {B : Type 0} ⦃bus : Bus B⦄ where
  unfoldable pub apply_branch : Bool → Action B (Unit {0})
  apply_branch take = do
    set_cycles (4 * microcycle)
    op ← opcode
    if take
        then modify (λ c. record c { r = store c.r reg_pc (u16 (c.r reg_pc + branch_offset op)) })
        else pure tt

  unfoldable pub op_br : Action B (Unit {0})
  op_br = apply_branch true

  unfoldable pub op_bne : Action B (Unit {0})
  op_bne = do z ← flag psw_z; apply_branch (not z)

  unfoldable pub op_beq : Action B (Unit {0})
  op_beq = do z ← flag psw_z; apply_branch z

  unfoldable pub op_bpl : Action B (Unit {0})
  op_bpl = do n ← flag psw_n; apply_branch (not n)

  unfoldable pub op_bmi : Action B (Unit {0})
  op_bmi = do n ← flag psw_n; apply_branch n

  unfoldable pub op_bvc : Action B (Unit {0})
  op_bvc = do v ← flag psw_v; apply_branch (not v)

  unfoldable pub op_bvs : Action B (Unit {0})
  op_bvs = do v ← flag psw_v; apply_branch v

  unfoldable pub op_bge : Action B (Unit {0})
  op_bge = do n ← flag psw_n; v ← flag psw_v; apply_branch (not (differ n v))

  unfoldable pub op_blt : Action B (Unit {0})
  op_blt = do n ← flag psw_n; v ← flag psw_v; apply_branch (differ n v)

  unfoldable pub op_bgt : Action B (Unit {0})
  op_bgt = do n ← flag psw_n; z ← flag psw_z; v ← flag psw_v; apply_branch (not (z || differ n v))

  unfoldable pub op_ble : Action B (Unit {0})
  op_ble = do n ← flag psw_n; z ← flag psw_z; v ← flag psw_v; apply_branch (z || differ n v)

  unfoldable pub op_bhi : Action B (Unit {0})
  op_bhi = do z ← flag psw_z; c ← flag psw_c; apply_branch (not (c || z))

  unfoldable pub op_blos : Action B (Unit {0})
  op_blos = do z ← flag psw_z; c ← flag psw_c; apply_branch (c || z)

  unfoldable pub op_bhis : Action B (Unit {0})
  op_bhis = do c ← flag psw_c; apply_branch (not c)

  unfoldable pub op_blo : Action B (Unit {0})
  op_blo = do c ← flag psw_c; apply_branch c

  unfoldable pub op_sob : Action B (Unit {0})
  op_sob = do
    set_cycles (6 * microcycle)
    op ← opcode
    v ← get_r (src_reg op)
    set_r (src_reg op) (v + 65535)
    left ← get_r (src_reg op)
    if left == 0
        then pure tt
        else modify
            (λ c. record c { r = store c.r reg_pc (u16 (c.r reg_pc + 65536 - op % 64 * 2)) })
