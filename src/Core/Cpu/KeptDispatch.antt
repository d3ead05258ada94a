-- ===== src/Core/Cpu/KeptDispatch.antt =====
-- Every entry of the dispatch table of src/core/src/cpu_ops.c keeps what an instruction keeps.
use ms.Core.Cpu.{Cpu, Bus}
use ms.Core.Cpu.KeptSingle.{
  op_clr-Keeps, op_clrb-Keeps, op_com-Keeps, op_inc-Keeps, op_dec-Keeps, op_neg-Keeps, op_tst-Keeps,
  op_adc-Keeps, op_sbc-Keeps, op_comb-Keeps, op_incb-Keeps, op_decb-Keeps, op_negb-Keeps,
  op_tstb-Keeps, op_adcb-Keeps, op_sbcb-Keeps, op_asr-Keeps, op_asl-Keeps, op_ror-Keeps,
  op_rol-Keeps, op_asrb-Keeps, op_aslb-Keeps, op_rorb-Keeps, op_rolb-Keeps,
}
use ms.Core.Cpu.KeptDouble.{
  op_movb-Keeps, op_mfps-Keeps, op_mtps-Keeps, op_mov-Keeps, op_cmp-Keeps, op_bit-Keeps,
  op_bic-Keeps, op_bis-Keeps, op_add-Keeps, op_sub-Keeps, op_xor-Keeps, op_cmpb-Keeps,
  op_bitb-Keeps, op_bicb-Keeps, op_bisb-Keeps, op_sxt-Keeps, op_swab-Keeps,
}
use ms.Core.Cpu.KeptControl.{
  op_sob-Keeps, op_halt-Keeps, op_rti-Keeps, op_rtt-Keeps, op_mfpt-Keeps, op_rts-Keeps,
  op_jmp-Keeps, op_jsr-Keeps, op_ccc-Keeps, op_scc-Keeps, op_br-Keeps, op_bne-Keeps, op_beq-Keeps,
  op_bpl-Keeps, op_bmi-Keeps, op_bvc-Keeps, op_bvs-Keeps, op_bge-Keeps, op_blt-Keeps, op_bgt-Keeps,
  op_ble-Keeps, op_bhi-Keeps, op_blos-Keeps, op_bhis-Keeps, op_blo-Keeps, op_unknown-Keeps,
  op_nop-Keeps, op_wait-Keeps, op_reset-Keeps, op_bpt-Keeps, op_iot-Keeps, op_emt-Keeps,
  op_trap-Keeps,
}
use ms.Core.Cpu.Kept.{Keeps}
use ms.Core.Cpu.Table.{
  Handler, dispatch, do_unknown, do_halt, do_wait, do_rti, do_bpt, do_iot, do_reset, do_rtt,
  do_mfpt, do_nop, do_ccc, do_scc, do_rts, do_jmp, do_swab, do_clr, do_clrb, do_com, do_comb,
  do_inc, do_incb, do_dec, do_decb, do_neg, do_negb, do_adc, do_adcb, do_sbc, do_sbcb, do_tst,
  do_tstb, do_ror, do_rorb, do_rol, do_rolb, do_asr, do_asrb, do_asl, do_aslb, do_sxt, do_mtps,
  do_mfps, do_mov, do_movb, do_cmp, do_cmpb, do_bit, do_bitb, do_bic, do_bicb, do_bis, do_bisb,
  do_add, do_sub, do_xor, do_jsr, do_sob, do_br, do_bne, do_beq, do_bge, do_blt, do_bgt, do_ble,
  do_bpl, do_bmi, do_bhi, do_blos, do_bvc, do_bvs, do_bhis, do_blo, do_emt, do_trap,
}

module _ {B : Type 0} ⦃bus : Bus B⦄ {c₀ : Cpu B} where
  -- An instruction leaves the registers 16 bits wide and the status word 8, takes some time, does not halt
  -- the processor, and leaves the requests on the lines.
  pub dispatch-Keeps : (h : Handler) (c : Cpu B) → Keeps c₀ c → Keeps c₀ (dispatch h c).1
  unfolding dispatch
  dispatch-Keeps do_unknown c k = op_unknown-Keeps c k
  dispatch-Keeps do_halt c k = op_halt-Keeps c k
  dispatch-Keeps do_wait c k = op_wait-Keeps c k
  dispatch-Keeps do_rti c k = op_rti-Keeps c k
  dispatch-Keeps do_bpt c k = op_bpt-Keeps c k
  dispatch-Keeps do_iot c k = op_iot-Keeps c k
  dispatch-Keeps do_reset c k = op_reset-Keeps c k
  dispatch-Keeps do_rtt c k = op_rtt-Keeps c k
  dispatch-Keeps do_mfpt c k = op_mfpt-Keeps c k
  dispatch-Keeps do_nop c k = op_nop-Keeps c k
  dispatch-Keeps do_ccc c k = op_ccc-Keeps c k
  dispatch-Keeps do_scc c k = op_scc-Keeps c k
  dispatch-Keeps do_rts c k = op_rts-Keeps c k
  dispatch-Keeps do_jmp c k = op_jmp-Keeps c k
  dispatch-Keeps do_swab c k = op_swab-Keeps c k
  dispatch-Keeps do_clr c k = op_clr-Keeps c k
  dispatch-Keeps do_clrb c k = op_clrb-Keeps c k
  dispatch-Keeps do_com c k = op_com-Keeps c k
  dispatch-Keeps do_comb c k = op_comb-Keeps c k
  dispatch-Keeps do_inc c k = op_inc-Keeps c k
  dispatch-Keeps do_incb c k = op_incb-Keeps c k
  dispatch-Keeps do_dec c k = op_dec-Keeps c k
  dispatch-Keeps do_decb c k = op_decb-Keeps c k
  dispatch-Keeps do_neg c k = op_neg-Keeps c k
  dispatch-Keeps do_negb c k = op_negb-Keeps c k
  dispatch-Keeps do_adc c k = op_adc-Keeps c k
  dispatch-Keeps do_adcb c k = op_adcb-Keeps c k
  dispatch-Keeps do_sbc c k = op_sbc-Keeps c k
  dispatch-Keeps do_sbcb c k = op_sbcb-Keeps c k
  dispatch-Keeps do_tst c k = op_tst-Keeps c k
  dispatch-Keeps do_tstb c k = op_tstb-Keeps c k
  dispatch-Keeps do_ror c k = op_ror-Keeps c k
  dispatch-Keeps do_rorb c k = op_rorb-Keeps c k
  dispatch-Keeps do_rol c k = op_rol-Keeps c k
  dispatch-Keeps do_rolb c k = op_rolb-Keeps c k
  dispatch-Keeps do_asr c k = op_asr-Keeps c k
  dispatch-Keeps do_asrb c k = op_asrb-Keeps c k
  dispatch-Keeps do_asl c k = op_asl-Keeps c k
  dispatch-Keeps do_aslb c k = op_aslb-Keeps c k
  dispatch-Keeps do_sxt c k = op_sxt-Keeps c k
  dispatch-Keeps do_mtps c k = op_mtps-Keeps c k
  dispatch-Keeps do_mfps c k = op_mfps-Keeps c k
  dispatch-Keeps do_mov c k = op_mov-Keeps c k
  dispatch-Keeps do_movb c k = op_movb-Keeps c k
  dispatch-Keeps do_cmp c k = op_cmp-Keeps c k
  dispatch-Keeps do_cmpb c k = op_cmpb-Keeps c k
  dispatch-Keeps do_bit c k = op_bit-Keeps c k
  dispatch-Keeps do_bitb c k = op_bitb-Keeps c k
  dispatch-Keeps do_bic c k = op_bic-Keeps c k
  dispatch-Keeps do_bicb c k = op_bicb-Keeps c k
  dispatch-Keeps do_bis c k = op_bis-Keeps c k
  dispatch-Keeps do_bisb c k = op_bisb-Keeps c k
  dispatch-Keeps do_add c k = op_add-Keeps c k
  dispatch-Keeps do_sub c k = op_sub-Keeps c k
  dispatch-Keeps do_xor c k = op_xor-Keeps c k
  dispatch-Keeps do_jsr c k = op_jsr-Keeps c k
  dispatch-Keeps do_sob c k = op_sob-Keeps c k
  dispatch-Keeps do_br c k = op_br-Keeps c k
  dispatch-Keeps do_bne c k = op_bne-Keeps c k
  dispatch-Keeps do_beq c k = op_beq-Keeps c k
  dispatch-Keeps do_bge c k = op_bge-Keeps c k
  dispatch-Keeps do_blt c k = op_blt-Keeps c k
  dispatch-Keeps do_bgt c k = op_bgt-Keeps c k
  dispatch-Keeps do_ble c k = op_ble-Keeps c k
  dispatch-Keeps do_bpl c k = op_bpl-Keeps c k
  dispatch-Keeps do_bmi c k = op_bmi-Keeps c k
  dispatch-Keeps do_bhi c k = op_bhi-Keeps c k
  dispatch-Keeps do_blos c k = op_blos-Keeps c k
  dispatch-Keeps do_bvc c k = op_bvc-Keeps c k
  dispatch-Keeps do_bvs c k = op_bvs-Keeps c k
  dispatch-Keeps do_bhis c k = op_bhis-Keeps c k
  dispatch-Keeps do_blo c k = op_blo-Keeps c k
  dispatch-Keeps do_emt c k = op_emt-Keeps c k
  dispatch-Keeps do_trap c k = op_trap-Keeps c k
