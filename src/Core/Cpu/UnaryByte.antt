-- ===== src/Core/Cpu/UnaryByte.antt =====
-- The single-operand instructions of src/core/src/cpu_ops.c on bytes are the handbook's.
use ms.Base.{
  ℕ, ◌+◌, ◌-◌, ◌*◌, ◌/◌, ◌<◌, ◌≡◌, refl, true, false, not, ◌&&◌, ◌==◌, if◌then◌else◌, has_bit, u8,
  Bool-cases, inl, inr, set_bit, clear_bit,
}
use ms.Core.Cpu.{Cpu, Bus, put_bit, set_nz_byte, set_c, set_v, get_c}
use ms.Core.Cpu.Address.{
  dst_mode, dst_reg, get_byte_addr, read_byte_op, datio_begin, set_v_of_nc, discard_read_byte,
}
use ms.Core.Cpu.Registers.{read_byte_op-fits}
use ms.Core.Cpu.Psw.{flags, put_nz, set_nc, clear_z, around_byte}
use ms.Core.Cpu.ByteFlags.{
  com_result, com_flags, inc_result, inc_flags, dec_result, dec_flags, neg_result, neg_flags,
  adc_result, adc_flags, sbc_result, sbc_flags, asr_result, asr_flags, asl_result, asl_flags,
  ror_result, ror_flags, rol_result, rol_flags,
}
use ms.Core.Cpu.Handbook.{
  Unary, unary, unary_byte, clear, complement, increment, decrement, negate, add_carry,
  subtract_carry, arithmetic_right, arithmetic_left, rotate_right, rotate_left,
}
use ms.Core.Cpu.SingleByte.{op_clrb, op_comb, op_incb, op_decb, op_negb, op_adcb, op_sbcb}
use ms.Core.Cpu.ShiftByte.{op_asrb, op_aslb, op_rorb, op_rolb}
use ms.Core.Cpu.Table.{
  Handler, dispatch, do_clrb, do_comb, do_incb, do_decb, do_negb, do_adcb, do_sbcb, do_asrb,
  do_aslb, do_rorb, do_rolb,
}

-- The handler of an operation.
abbrev pub byte_handler : Unary → Handler
byte_handler clear = do_clrb
byte_handler complement = do_comb
byte_handler increment = do_incb
byte_handler decrement = do_decb
byte_handler negate = do_negb
byte_handler add_carry = do_adcb
byte_handler subtract_carry = do_sbcb
byte_handler arithmetic_right = do_asrb
byte_handler arithmetic_left = do_aslb
byte_handler rotate_right = do_rorb
byte_handler rotate_left = do_rolb

module _ {B : Type 0} ⦃bus : Bus B⦄ where
  -- The operand's address, the beginning of the cycle, and the read.
  abbrev place : Cpu B → ℕ × Cpu B
  place c =
      let (a, d) = get_byte_addr (dst_mode c.instruction) (dst_reg c.instruction) c in
      (a, (datio_begin (dst_mode c.instruction) d).1)

  abbrev operand : Cpu B → ℕ × Cpu B
  operand c = read_byte_op (dst_mode c.instruction) (dst_reg c.instruction) (place c).0 (place c).1

  operand-fits : (c : Cpu B) → (operand c).0 < 256
  operand-fits c =
      read_byte_op-fits (dst_mode c.instruction) (dst_reg c.instruction) (place c).0 (place c).1

  discarded : (m r a : ℕ) (c : Cpu B) → discard_read_byte m a c ≡ (tt, (read_byte_op m r a c).1)
  unfolding discard_read_byte read_byte_op
  discarded m r a c = elim (Bool-cases (m == 0)) [ inl e ↦ rw e refl | inr e ↦ rw e refl ]

  clrb_lem : (c : Cpu B) → op_clrb c ≡ unary_byte (unary 128 clear) c
  unfolding op_clrb
  clrb_lem c =
      let op = c.instruction in
      let d = (operand c).1 in
      rw (discarded (dst_mode op) (dst_reg op) (place c).0 (place c).1) (
        around_byte op (place c).0 0 0 d.psw
          (λ p. set_bit (clear_bit (clear_bit (clear_bit p 3) 1) 0) 2)
          (unary 128 clear (flags d.psw) (operand c).0).1 d refl (clear_z d.psw))

  comb_lem : (c : Cpu B) → op_comb c ≡ unary_byte (unary 128 complement) c
  unfolding op_comb set_nz_byte set_v set_c
  comb_lem c =
      let (val, d) = operand c in
      let lt = operand-fits c in
      around_byte c.instruction (place c).0 (255 - val) (unary 128 complement (flags d.psw) val).0
        (d.psw)
        (λ p.
          put_bit (put_bit (put_nz p ((255 - val) == 0) (has_bit (255 - val) 7)) 1 false) 0 (true))
        (unary 128 complement (flags d.psw) val).1 d (com_result d.psw val lt)
        (com_flags d.psw val lt)

  incb_lem : (c : Cpu B) → op_incb c ≡ unary_byte (unary 128 increment) c
  unfolding op_incb set_nz_byte set_v
  incb_lem c =
      let (val, d) = operand c in
      let lt = operand-fits c in
      around_byte c.instruction (place c).0 (u8 (val + 1)) (unary 128 increment (flags d.psw) val).0
        (put_bit d.psw 1 (val == 127))
        (λ p. put_nz p ((u8 (val + 1)) == 0) (has_bit (u8 (val + 1)) 7))
        (unary 128 increment (flags d.psw) val).1 d (inc_result d.psw val lt)
        (inc_flags d.psw val lt)

  decb_lem : (c : Cpu B) → op_decb c ≡ unary_byte (unary 128 decrement) c
  unfolding op_decb set_nz_byte set_v
  decb_lem c =
      let (val, d) = operand c in
      let lt = operand-fits c in
      around_byte c.instruction (place c).0 (u8 (val + 255))
        (unary 128 decrement (flags d.psw) val).0 (put_bit d.psw 1 (val == 128))
        (λ p. put_nz p ((u8 (val + 255)) == 0) (has_bit (u8 (val + 255)) 7))
        (unary 128 decrement (flags d.psw) val).1 d (dec_result d.psw val lt)
        (dec_flags d.psw val lt)

  negb_lem : (c : Cpu B) → op_negb c ≡ unary_byte (unary 128 negate) c
  unfolding op_negb set_nz_byte set_v set_c
  negb_lem c =
      let (val, d) = operand c in
      let lt = operand-fits c in
      around_byte c.instruction (place c).0 (u8 (256 - val)) (unary 128 negate (flags d.psw) val).0
        (d.psw)
        (λ p.
          put_bit
            (put_bit (put_nz p ((u8 (256 - val)) == 0) (has_bit (u8 (256 - val)) 7)) 1
              ((u8 (256 - val)) == 128))
            0 (not ((u8 (256 - val)) == 0)))
        (unary 128 negate (flags d.psw) val).1 d (neg_result d.psw val lt) (neg_flags d.psw val lt)

  adcb_lem : (c : Cpu B) → op_adcb c ≡ unary_byte (unary 128 add_carry) c
  unfolding op_adcb set_nz_byte set_v set_c get_c
  adcb_lem c =
      let (val, d) = operand c in
      let lt = operand-fits c in
      around_byte c.instruction (place c).0 (if (has_bit d.psw 0) then u8 (val + 1) else val)
        (unary 128 add_carry (flags d.psw) val).0
        (put_bit (put_bit d.psw 1 ((has_bit d.psw 0) && val == 127)) 0
          ((has_bit d.psw 0) && val == 255))
        (λ p.
          put_nz p ((if (has_bit d.psw 0) then u8 (val + 1) else val) == 0)
            (has_bit (if (has_bit d.psw 0) then u8 (val + 1) else val) 7))
        (unary 128 add_carry (flags d.psw) val).1 d (adc_result d.psw val lt)
        (adc_flags d.psw val lt)

  sbcb_lem : (c : Cpu B) → op_sbcb c ≡ unary_byte (unary 128 subtract_carry) c
  unfolding op_sbcb set_nz_byte set_v set_c get_c
  sbcb_lem c =
      let (val, d) = operand c in
      let lt = operand-fits c in
      around_byte c.instruction (place c).0 (if (has_bit d.psw 0) then u8 (val + 255) else val)
        (unary 128 subtract_carry (flags d.psw) val).0
        (put_bit (put_bit d.psw 1 (val == 128)) 0 ((has_bit d.psw 0) && val == 0))
        (λ p.
          put_nz p ((if (has_bit d.psw 0) then u8 (val + 255) else val) == 0)
            (has_bit (if (has_bit d.psw 0) then u8 (val + 255) else val) 7))
        (unary 128 subtract_carry (flags d.psw) val).1 d (sbc_result d.psw val lt)
        (sbc_flags d.psw val lt)

  asrb_lem : (c : Cpu B) → op_asrb c ≡ unary_byte (unary 128 arithmetic_right) c
  unfolding op_asrb set_nz_byte set_v set_c get_c set_v_of_nc
  asrb_lem c =
      let (val, d) = operand c in
      let lt = operand-fits c in
      around_byte c.instruction (place c).0 (if has_bit val 7 then val / 2 + 128 else val / 2)
        (unary 128 arithmetic_right (flags d.psw) val).0 (put_bit d.psw 0 (has_bit val 0))
        (λ p. set_nc (
          put_nz p ((if has_bit val 7 then val / 2 + 128 else val / 2) == 0)
            (has_bit (if has_bit val 7 then val / 2 + 128 else val / 2) 7)))
        (unary 128 arithmetic_right (flags d.psw) val).1 d (asr_result d.psw val lt)
        (asr_flags d.psw val lt)

  aslb_lem : (c : Cpu B) → op_aslb c ≡ unary_byte (unary 128 arithmetic_left) c
  unfolding op_aslb set_nz_byte set_v set_c get_c set_v_of_nc
  aslb_lem c =
      let (val, d) = operand c in
      let lt = operand-fits c in
      around_byte c.instruction (place c).0 (u8 (val * 2))
        (unary 128 arithmetic_left (flags d.psw) val).0 (put_bit d.psw 0 (has_bit val 7))
        (λ p. set_nc (put_nz p ((u8 (val * 2)) == 0) (has_bit (u8 (val * 2)) 7)))
        (unary 128 arithmetic_left (flags d.psw) val).1 d (asl_result d.psw val lt)
        (asl_flags d.psw val lt)

  rorb_lem : (c : Cpu B) → op_rorb c ≡ unary_byte (unary 128 rotate_right) c
  unfolding op_rorb set_nz_byte set_v set_c get_c set_v_of_nc
  rorb_lem c =
      let (val, d) = operand c in
      let lt = operand-fits c in
      around_byte c.instruction (place c).0 (if (has_bit d.psw 0) then val / 2 + 128 else val / 2)
        (unary 128 rotate_right (flags d.psw) val).0 (put_bit d.psw 0 (has_bit val 0))
        (λ p. set_nc (
          put_nz p ((if (has_bit d.psw 0) then val / 2 + 128 else val / 2) == 0)
            (has_bit (if (has_bit d.psw 0) then val / 2 + 128 else val / 2) 7)))
        (unary 128 rotate_right (flags d.psw) val).1 d (ror_result d.psw val lt)
        (ror_flags d.psw val lt)

  rolb_lem : (c : Cpu B) → op_rolb c ≡ unary_byte (unary 128 rotate_left) c
  unfolding op_rolb set_nz_byte set_v set_c get_c set_v_of_nc
  rolb_lem c =
      let (val, d) = operand c in
      let lt = operand-fits c in
      around_byte c.instruction (place c).0
        (if (has_bit d.psw 0) then u8 (val * 2) + 1 else u8 (val * 2))
        (unary 128 rotate_left (flags d.psw) val).0 (put_bit d.psw 0 (has_bit val 7))
        (λ p. set_nc (
          put_nz p ((if (has_bit d.psw 0) then u8 (val * 2) + 1 else u8 (val * 2)) == 0)
            (has_bit (if (has_bit d.psw 0) then u8 (val * 2) + 1 else u8 (val * 2)) 7)))
        (unary 128 rotate_left (flags d.psw) val).1 d (rol_result d.psw val lt)
        (rol_flags d.psw val lt)

  -- On a processor, a single-operand instruction on bytes does what
  -- the handbook says, in every addressing mode: it takes the operand's address, reads it, writes the
  -- result and sets N and Z by it. V: for INC, DEC, NEG and ADC, that the signed result has no pattern;
  -- for SBC, that the operand is 0200, with or without a borrow to subtract; for a shift or a rotation,
  -- that N and C of the result differ; for CLR and COM, clear. C: for ADC, SBC and NEG, the carry or the
  -- borrow of the unsigned numbers; for a shift or a rotation, the bit that leaves; for CLR clear, for
  -- COM set; INC and DEC leave it.
  pub unary-byte :
      (o : Unary) (c : Cpu B) → dispatch (byte_handler o) c ≡ unary_byte (unary 128 o) c
  unfolding dispatch
  unary-byte clear c = clrb_lem c
  unary-byte complement c = comb_lem c
  unary-byte increment c = incb_lem c
  unary-byte decrement c = decb_lem c
  unary-byte negate c = negb_lem c
  unary-byte add_carry c = adcb_lem c
  unary-byte subtract_carry c = sbcb_lem c
  unary-byte arithmetic_right c = asrb_lem c
  unary-byte arithmetic_left c = aslb_lem c
  unary-byte rotate_right c = rorb_lem c
  unary-byte rotate_left c = rolb_lem c
