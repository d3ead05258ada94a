-- ===== src/Core/Cpu/Long.antt =====
-- Sums and differences of two words on the instructions of src/core/src/cpu_ops.c: the carry goes from
-- ADD through ADC, and from SUB through SBC.
use ms.Base.{ℕ, ◌+◌, ◌-◌, ◌*◌, ◌%◌, ◌<◌, ◌≡◌, refl, ltb, has_bit, store, u16, arith, if◌then◌else◌}
use ms.Core.Cpu.{Cpu, Bus, Action, ◌>>◌, modify, set_nz_word, set_v, set_c, get_c}
use ms.Core.Cpu.Address.{
  get_word_addr, read_word_op, write_word_op, word_source_after, datio_begin, datio_end,
}
use ms.Core.Cpu.Psw.{carry-set_c}
use ms.Core.Cpu.DoubleWord.{word_operands, op_add, op_sub}
use ms.Core.Cpu.SingleWord.{op_adc, op_sbc}

module _ {B : Type 0} ⦃bus : Bus B⦄ where
  abbrev pub runs : ℕ → Action B (Unit {0}) → Action B (Unit {0})
  runs op handler = modify (λ c. record c { instruction = op }) >> handler

  -- `ADD R0,R2`, `ADC R3`, `ADD R1,R3`, and the same with SUB and SBC.
  abbrev pub add_long : Action B (Unit {0})
  add_long = runs 0o060002 op_add >> runs 0o005503 op_adc >> runs 0o060103 op_add

  abbrev pub sub_long : Action B (Unit {0})
  sub_long = runs 0o160002 op_sub >> runs 0o005603 op_sbc >> runs 0o160103 op_sub

  -- What each instruction leaves in the registers and in C.
  add_low :
      (c : Cpu B) (i : ℕ)
      → (runs 0o060002 op_add c).1.r i ≡ store c.r 2 (u16 (u16 (c.r 0 + c.r 2))) i
  unfolding op_add word_operands get_word_addr read_word_op write_word_op word_source_after
      datio_begin datio_end set_nz_word set_v set_c get_c
  add_low c i = refl

  add_high :
      (c : Cpu B) (i : ℕ)
      → (runs 0o060103 op_add c).1.r i ≡ store c.r 3 (u16 (u16 (c.r 1 + c.r 3))) i
  unfolding op_add word_operands get_word_addr read_word_op write_word_op word_source_after
      datio_begin datio_end set_nz_word set_v set_c get_c
  add_high c i = refl

  sub_low :
      (c : Cpu B) (i : ℕ)
      → (runs 0o160002 op_sub c).1.r i ≡ store c.r 2 (u16 (u16 (c.r 2 + 65536 - c.r 0))) i
  unfolding op_sub word_operands get_word_addr read_word_op write_word_op word_source_after
      datio_begin datio_end set_nz_word set_v set_c get_c
  sub_low c i = refl

  sub_high :
      (c : Cpu B) (i : ℕ)
      → (runs 0o160103 op_sub c).1.r i ≡ store c.r 3 (u16 (u16 (c.r 3 + 65536 - c.r 1))) i
  unfolding op_sub word_operands get_word_addr read_word_op write_word_op word_source_after
      datio_begin datio_end set_nz_word set_v set_c get_c
  sub_high c i = refl

  add_carry : (c : Cpu B) → has_bit (runs 0o060002 op_add c).1.psw 0 ≡ ltb 65535 (c.r 0 + c.r 2)
  unfolding op_add word_operands get_word_addr read_word_op write_word_op word_source_after
      datio_begin datio_end set_nz_word set_v
  add_carry c = carry-set_c _ _

  sub_borrow : (c : Cpu B) → has_bit (runs 0o160002 op_sub c).1.psw 0 ≡ ltb (c.r 2) (c.r 0)
  unfolding op_sub word_operands get_word_addr read_word_op write_word_op word_source_after
      datio_begin datio_end set_nz_word set_v
  sub_borrow c = carry-set_c _ _

  adc_middle :
      (c : Cpu B) (i : ℕ)
      → (runs 0o005503 op_adc c).1.r i
        ≡ store c.r 3 (u16 (if has_bit c.psw 0 then u16 (c.r 3 + 1) else c.r 3)) i
  unfolding op_adc word_operands get_word_addr read_word_op write_word_op word_source_after
      datio_begin datio_end set_nz_word set_v set_c get_c
  adc_middle c i = refl

  sbc_middle :
      (c : Cpu B) (i : ℕ)
      → (runs 0o005603 op_sbc c).1.r i
        ≡ store c.r 3 (u16 (if has_bit c.psw 0 then u16 (c.r 3 + 65535) else c.r 3)) i
  unfolding op_sbc word_operands get_word_addr read_word_op write_word_op word_source_after
      datio_begin datio_end set_nz_word set_v set_c get_c
  sbc_middle c i = refl

  -- `ADD R0,R2; ADC R3; ADD R1,R3` adds R1:R0 to R3:R2 modulo 2^32.
  pub add_long_lem :
      (c : Cpu B)
      → ((i : ℕ) → c.r i < 65536)
      → (add_long c).1.r 2 + 65536 * (add_long c).1.r 3
        ≡ (c.r 2 + 65536 * c.r 3 + (c.r 0 + 65536 * c.r 1)) % 4294967296
  add_long_lem c h =
      let d = (runs 0o060002 op_add c).1 in
      let e = (runs 0o005503 op_adc d).1 in
      ground (
        arith,
        add_high e 2,
        add_high e 3,
        adc_middle d 1,
        adc_middle d 2,
        adc_middle d 3,
        add_low c 1,
        add_low c 2,
        add_low c 3,
        add_carry c,
        h 0,
        h 1,
        h 2,
        h 3,
      )

  -- `SUB R0,R2; SBC R3; SUB R1,R3` subtracts R1:R0 from R3:R2 modulo 2^32.
  pub sub_long_lem :
      (c : Cpu B)
      → ((i : ℕ) → c.r i < 65536)
      → (sub_long c).1.r 2 + 65536 * (sub_long c).1.r 3
        ≡ (c.r 2 + 65536 * c.r 3 + 4294967296 - (c.r 0 + 65536 * c.r 1)) % 4294967296
  sub_long_lem c h =
      let d = (runs 0o160002 op_sub c).1 in
      let e = (runs 0o005603 op_sbc d).1 in
      ground (
        arith,
        sub_high e 2,
        sub_high e 3,
        sbc_middle d 1,
        sbc_middle d 2,
        sbc_middle d 3,
        sub_low c 1,
        sub_low c 2,
        sub_low c 3,
        sub_borrow c,
        h 0,
        h 1,
        h 2,
        h 3,
      )
