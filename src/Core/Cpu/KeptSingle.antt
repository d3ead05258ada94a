-- ===== src/Core/Cpu/KeptSingle.antt =====
-- The single-operand handlers of src/core/src/cpu_ops.c keep what every instruction keeps.
use ms.Base.{arith}
use ms.Core.Cpu.{Cpu, Bus}
use ms.Core.Cpu.Kept.{Keeps, keeping}
use ms.Core.Cpu.Address.{
  clear_flags, dst_mode, dst_reg, datio_begin, datio_end, get_word_addr, get_byte_addr,
  write_word_op, write_byte_op, discard_read_word, discard_read_byte,
}
use ms.Core.Cpu.SingleWord.{op_clr, op_com, op_inc, op_dec, op_neg, op_tst, op_adc, op_sbc}
use ms.Core.Cpu.SingleByte.{op_clrb, op_comb, op_incb, op_decb, op_negb, op_tstb, op_adcb, op_sbcb}
use ms.Core.Cpu.ShiftWord.{op_asr, op_asl, op_ror, op_rol}
use ms.Core.Cpu.ShiftByte.{op_asrb, op_aslb, op_rorb, op_rolb}

-- The states before CLR and CLRB set the flags.
module _ {B : Type 0} ⦃bus : Bus B⦄ where
  abbrev cleared : Cpu B → Cpu B
  cleared c =
      let (a, d) = get_word_addr (dst_mode c.instruction) (dst_reg c.instruction) c in
      (datio_end (dst_mode c.instruction)
        (write_word_op (dst_mode c.instruction) (dst_reg c.instruction) a 0
          (discard_read_word (dst_mode c.instruction) a
            (datio_begin (dst_mode c.instruction) d).1).1).1).1

  abbrev clearedb : Cpu B → Cpu B
  clearedb c =
      let (a, d) = get_byte_addr (dst_mode c.instruction) (dst_reg c.instruction) c in
      (datio_end (dst_mode c.instruction)
        (write_byte_op (dst_mode c.instruction) (dst_reg c.instruction) a 0
          (discard_read_byte (dst_mode c.instruction) a
            (datio_begin (dst_mode c.instruction) d).1).1).1).1

module _ {B : Type 0} ⦃bus : Bus B⦄ {c₀ : Cpu B} where
  clear_flags-Keeps : (c : Cpu B) → Keeps c₀ c → Keeps c₀ (clear_flags c).1
  clear_flags-Keeps c k = record {
    registers = k.registers;
    psw_byte = λ w. ground (arith, k.psw_byte w);
    busy = k.busy;
    halted_same = k.halted_same;
  }

  pub op_clr-Keeps : (c : Cpu B) → Keeps c₀ c → Keeps c₀ (op_clr c).1
  unfolding op_clr
  op_clr-Keeps c k =
      let l : Keeps c₀ (cleared c) = search keeping depth 20 in clear_flags-Keeps (cleared c) l

  pub op_clrb-Keeps : (c : Cpu B) → Keeps c₀ c → Keeps c₀ (op_clrb c).1
  unfolding op_clrb
  op_clrb-Keeps c k =
      let l : Keeps c₀ (clearedb c) = search keeping depth 20 in clear_flags-Keeps (clearedb c) l

  pub op_com-Keeps : (c : Cpu B) → Keeps c₀ c → Keeps c₀ (op_com c).1
  unfolding op_com
  op_com-Keeps c k = search keeping depth 20

  pub op_inc-Keeps : (c : Cpu B) → Keeps c₀ c → Keeps c₀ (op_inc c).1
  unfolding op_inc
  op_inc-Keeps c k = search keeping depth 20

  pub op_dec-Keeps : (c : Cpu B) → Keeps c₀ c → Keeps c₀ (op_dec c).1
  unfolding op_dec
  op_dec-Keeps c k = search keeping depth 20

  pub op_neg-Keeps : (c : Cpu B) → Keeps c₀ c → Keeps c₀ (op_neg c).1
  unfolding op_neg
  op_neg-Keeps c k = search keeping depth 20

  pub op_tst-Keeps : (c : Cpu B) → Keeps c₀ c → Keeps c₀ (op_tst c).1
  unfolding op_tst
  op_tst-Keeps c k = search keeping depth 20

  pub op_adc-Keeps : (c : Cpu B) → Keeps c₀ c → Keeps c₀ (op_adc c).1
  unfolding op_adc
  op_adc-Keeps c k = search keeping depth 20

  pub op_sbc-Keeps : (c : Cpu B) → Keeps c₀ c → Keeps c₀ (op_sbc c).1
  unfolding op_sbc
  op_sbc-Keeps c k = search keeping depth 20

  pub op_comb-Keeps : (c : Cpu B) → Keeps c₀ c → Keeps c₀ (op_comb c).1
  unfolding op_comb
  op_comb-Keeps c k = search keeping depth 20

  pub op_incb-Keeps : (c : Cpu B) → Keeps c₀ c → Keeps c₀ (op_incb c).1
  unfolding op_incb
  op_incb-Keeps c k = search keeping depth 20

  pub op_decb-Keeps : (c : Cpu B) → Keeps c₀ c → Keeps c₀ (op_decb c).1
  unfolding op_decb
  op_decb-Keeps c k = search keeping depth 20

  pub op_negb-Keeps : (c : Cpu B) → Keeps c₀ c → Keeps c₀ (op_negb c).1
  unfolding op_negb
  op_negb-Keeps c k = search keeping depth 20

  pub op_tstb-Keeps : (c : Cpu B) → Keeps c₀ c → Keeps c₀ (op_tstb c).1
  unfolding op_tstb
  op_tstb-Keeps c k = search keeping depth 20

  pub op_adcb-Keeps : (c : Cpu B) → Keeps c₀ c → Keeps c₀ (op_adcb c).1
  unfolding op_adcb
  op_adcb-Keeps c k = search keeping depth 20

  pub op_sbcb-Keeps : (c : Cpu B) → Keeps c₀ c → Keeps c₀ (op_sbcb c).1
  unfolding op_sbcb
  op_sbcb-Keeps c k = search keeping depth 20

  pub op_asr-Keeps : (c : Cpu B) → Keeps c₀ c → Keeps c₀ (op_asr c).1
  unfolding op_asr
  op_asr-Keeps c k = search keeping depth 20

  pub op_asl-Keeps : (c : Cpu B) → Keeps c₀ c → Keeps c₀ (op_asl c).1
  unfolding op_asl
  op_asl-Keeps c k = search keeping depth 20

  pub op_ror-Keeps : (c : Cpu B) → Keeps c₀ c → Keeps c₀ (op_ror c).1
  unfolding op_ror
  op_ror-Keeps c k = search keeping depth 20

  pub op_rol-Keeps : (c : Cpu B) → Keeps c₀ c → Keeps c₀ (op_rol c).1
  unfolding op_rol
  op_rol-Keeps c k = search keeping depth 20

  pub op_asrb-Keeps : (c : Cpu B) → Keeps c₀ c → Keeps c₀ (op_asrb c).1
  unfolding op_asrb
  op_asrb-Keeps c k = search keeping depth 20

  pub op_aslb-Keeps : (c : Cpu B) → Keeps c₀ c → Keeps c₀ (op_aslb c).1
  unfolding op_aslb
  op_aslb-Keeps c k = search keeping depth 20

  pub op_rorb-Keeps : (c : Cpu B) → Keeps c₀ c → Keeps c₀ (op_rorb c).1
  unfolding op_rorb
  op_rorb-Keeps c k = search keeping depth 20

  pub op_rolb-Keeps : (c : Cpu B) → Keeps c₀ c → Keeps c₀ (op_rolb c).1
  unfolding op_rolb
  op_rolb-Keeps c k = search keeping depth 20
