-- ===== src/Core/Cpu/KeptDouble.antt =====
-- The double-operand handlers of src/core/src/cpu_ops.c, and those of the status word, keep what every
-- instruction keeps.
use ms.Base.{ℕ, ◌*◌, ◌<◌, arith, ◌==◌, Bool-cases, inl, inr, get_or}
use ms.Core.Cpu.{Cpu, Bus}
use ms.Core.Cpu.Kept.{Keeps, keeping, assign_r}
use ms.Core.Cpu.Address.{dst_mode, dst_reg, get_byte_addr, read_byte_op, microcycle}
use ms.Core.Cpu.DoubleWord.{op_mov, op_cmp, op_bit, op_bic, op_bis, op_add, op_sub, op_xor}
use ms.Core.Cpu.DoubleByte.{movb_memory, movb_register, op_movb, op_cmpb, op_bitb, op_bicb, op_bisb}
use ms.Core.Cpu.Special.{
  mfps_memory, moved_psw, mtps_microcycles, op_sxt, op_swab, op_mtps, op_mfps,
}

moved_psw-lt : (p v : ℕ) → p < 256 → moved_psw p v < 256
moved_psw-lt p v h = ground arith

mtps_time : (m : ℕ) → m < 8 → 0 < get_or mtps_microcycles m 0 * microcycle
mtps_time m h = ground arith

module _ {B : Type 0} ⦃bus : Bus B⦄ {c₀ : Cpu B} where
  movb_memory-Keeps : (op v : ℕ) (c : Cpu B) → Keeps c₀ c → Keeps c₀ (movb_memory op v c).1
  unfolding movb_memory
  movb_memory-Keeps op v c k = search keeping depth 20

  movb_register-Keeps : (reg v : ℕ) (c : Cpu B) → Keeps c₀ c → Keeps c₀ (movb_register reg v c).1
  unfolding movb_register
  movb_register-Keeps reg v c k = assign_r _ _ _ _ _ _ k

  mfps_memory-Keeps : (op v : ℕ) (c : Cpu B) → Keeps c₀ c → Keeps c₀ (mfps_memory op v c).1
  unfolding mfps_memory
  mfps_memory-Keeps op v c k = search keeping depth 20

  pub op_movb-Keeps : (c : Cpu B) → Keeps c₀ c → Keeps c₀ (op_movb c).1
  unfolding op_movb
  op_movb-Keeps c k = elim (Bool-cases (dst_mode c.instruction == 0)) [
    | inl e ↦ rw e (search (keeping, movb_register-Keeps) depth 20)
    | inr e ↦ rw e (search (keeping, movb_memory-Keeps) depth 20)
  ]

  pub op_mfps-Keeps : (c : Cpu B) → Keeps c₀ c → Keeps c₀ (op_mfps c).1
  unfolding op_mfps
  op_mfps-Keeps c k = elim (Bool-cases (dst_mode c.instruction == 0)) [
    | inl e ↦ rw e (search keeping depth 20)
    | inr e ↦ rw e (search (keeping, mfps_memory-Keeps) depth 20)
  ]

  pub op_mtps-Keeps : (c : Cpu B) → Keeps c₀ c → Keeps c₀ (op_mtps c).1
  unfolding op_mtps
  op_mtps-Keeps c k =
      let l : Keeps c₀
          (read_byte_op (dst_mode c.instruction) (dst_reg c.instruction)
            (get_byte_addr (dst_mode c.instruction) (dst_reg c.instruction) c).0
            (get_byte_addr (dst_mode c.instruction) (dst_reg c.instruction) c).1).1 =
        search keeping depth 20 in
      record {
        registers = l.registers;
        psw_byte = λ w. moved_psw-lt _ _ (l.psw_byte w);
        busy = λ w. mtps_time (dst_mode c.instruction) (omega arith);
        halted_same = l.halted_same;
      }

  pub op_mov-Keeps : (c : Cpu B) → Keeps c₀ c → Keeps c₀ (op_mov c).1
  unfolding op_mov
  op_mov-Keeps c k = search keeping depth 20

  pub op_cmp-Keeps : (c : Cpu B) → Keeps c₀ c → Keeps c₀ (op_cmp c).1
  unfolding op_cmp
  op_cmp-Keeps c k = search keeping depth 20

  pub op_bit-Keeps : (c : Cpu B) → Keeps c₀ c → Keeps c₀ (op_bit c).1
  unfolding op_bit
  op_bit-Keeps c k = search keeping depth 20

  pub op_bic-Keeps : (c : Cpu B) → Keeps c₀ c → Keeps c₀ (op_bic c).1
  unfolding op_bic
  op_bic-Keeps c k = search keeping depth 20

  pub op_bis-Keeps : (c : Cpu B) → Keeps c₀ c → Keeps c₀ (op_bis c).1
  unfolding op_bis
  op_bis-Keeps c k = search keeping depth 20

  pub op_add-Keeps : (c : Cpu B) → Keeps c₀ c → Keeps c₀ (op_add c).1
  unfolding op_add
  op_add-Keeps c k = search keeping depth 20

  pub op_sub-Keeps : (c : Cpu B) → Keeps c₀ c → Keeps c₀ (op_sub c).1
  unfolding op_sub
  op_sub-Keeps c k = search keeping depth 20

  pub op_xor-Keeps : (c : Cpu B) → Keeps c₀ c → Keeps c₀ (op_xor c).1
  unfolding op_xor
  op_xor-Keeps c k = search keeping depth 20

  pub op_cmpb-Keeps : (c : Cpu B) → Keeps c₀ c → Keeps c₀ (op_cmpb c).1
  unfolding op_cmpb
  op_cmpb-Keeps c k = search keeping depth 20

  pub op_bitb-Keeps : (c : Cpu B) → Keeps c₀ c → Keeps c₀ (op_bitb c).1
  unfolding op_bitb
  op_bitb-Keeps c k = search keeping depth 20

  pub op_bicb-Keeps : (c : Cpu B) → Keeps c₀ c → Keeps c₀ (op_bicb c).1
  unfolding op_bicb
  op_bicb-Keeps c k = search keeping depth 20

  pub op_bisb-Keeps : (c : Cpu B) → Keeps c₀ c → Keeps c₀ (op_bisb c).1
  unfolding op_bisb
  op_bisb-Keeps c k = search keeping depth 20

  pub op_sxt-Keeps : (c : Cpu B) → Keeps c₀ c → Keeps c₀ (op_sxt c).1
  unfolding op_sxt
  op_sxt-Keeps c k = search keeping depth 20

  pub op_swab-Keeps : (c : Cpu B) → Keeps c₀ c → Keeps c₀ (op_swab c).1
  unfolding op_swab
  op_swab-Keeps c k = search keeping depth 20
