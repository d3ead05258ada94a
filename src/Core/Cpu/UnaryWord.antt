-- ===== src/Core/Cpu/UnaryWord.antt =====
-- The single-operand instructions of src/core/src/cpu_ops.c on words are the handbook's.
use ms.Base.{
  ℕ, ◌+◌, ◌-◌, ◌*◌, ◌/◌, ◌<◌, ◌≡◌, refl, true, false, not, ◌&&◌, ◌==◌, if◌then◌else◌, has_bit, u16,
  Bool-cases, inl, inr, set_bit, clear_bit,
}
use ms.Core.Cpu.{Cpu, Bus, put_bit, set_nz_word, set_c, set_v, get_c}
use ms.Core.Cpu.Address.{
  dst_mode, dst_reg, get_word_addr, read_word_op, datio_begin, set_v_of_nc, discard_read_word,
}
use ms.Core.Cpu.Registers.{
  Registers, get_word_addr-Registers, datio_begin-Registers, read_word_op-fits,
}
use ms.Core.Cpu.Psw.{flags, put_nz, set_nc, clear_z, around_word}
use ms.Core.Cpu.WordFlags.{
  com_result, com_flags, inc_result, inc_flags, dec_result, dec_flags, neg_result, neg_flags,
  adc_result, adc_flags, sbc_result, sbc_flags, asr_result, asr_flags, asl_result, asl_flags,
  ror_result, ror_flags, rol_result, rol_flags,
}
use ms.Core.Cpu.Handbook.{
  Unary, unary, unary_word, clear, complement, increment, decrement, negate, add_carry,
  subtract_carry, arithmetic_right, arithmetic_left, rotate_right, rotate_left,
}
use ms.Core.Cpu.SingleWord.{op_clr, op_com, op_inc, op_dec, op_neg, op_adc, op_sbc}
use ms.Core.Cpu.ShiftWord.{op_asr, op_asl, op_ror, op_rol}
use ms.Core.Cpu.Table.{
  Handler, dispatch, do_clr, do_com, do_inc, do_dec, do_neg, do_adc, do_sbc, do_asr, do_asl, do_ror,
  do_rol,
}

-- The handler of an operation.
abbrev pub word_handler : Unary → Handler
word_handler clear = do_clr
word_handler complement = do_com
word_handler increment = do_inc
word_handler decrement = do_dec
word_handler negate = do_neg
word_handler add_carry = do_adc
word_handler subtract_carry = do_sbc
word_handler arithmetic_right = do_asr
word_handler arithmetic_left = do_asl
word_handler rotate_right = do_ror
word_handler rotate_left = do_rol

module _ {B : Type 0} ⦃bus : Bus B⦄ where
  -- The operand's address, the beginning of the cycle, and the read.
  abbrev place : Cpu B → ℕ × Cpu B
  place c =
      let (a, d) = get_word_addr (dst_mode c.instruction) (dst_reg c.instruction) c in
      (a, (datio_begin (dst_mode c.instruction) d).1)

  abbrev operand : Cpu B → ℕ × Cpu B
  operand c = read_word_op (dst_mode c.instruction) (dst_reg c.instruction) (place c).0 (place c).1

  operand-fits : (c : Cpu B) → Registers c → (operand c).0 < 65536
  operand-fits c h =
      let (a, d) = get_word_addr (dst_mode c.instruction) (dst_reg c.instruction) c in
      read_word_op-fits (dst_mode c.instruction) (dst_reg c.instruction) a (place c).1 (
        datio_begin-Registers (dst_mode c.instruction) d
          (get_word_addr-Registers (dst_mode c.instruction) (dst_reg c.instruction) c h))

  discarded : (m r a : ℕ) (c : Cpu B) → discard_read_word m a c ≡ (tt, (read_word_op m r a c).1)
  unfolding discard_read_word read_word_op
  discarded m r a c = elim (Bool-cases (m == 0)) [ inl e ↦ rw e refl | inr e ↦ rw e refl ]

  clr_lem : (c : Cpu B) → op_clr c ≡ unary_word (unary 32768 clear) c
  unfolding op_clr
  clr_lem c =
      let op = c.instruction in
      let d = (operand c).1 in
      rw (discarded (dst_mode op) (dst_reg op) (place c).0 (place c).1) (
        around_word op (place c).0 0 0 d.psw
          (λ p. set_bit (clear_bit (clear_bit (clear_bit p 3) 1) 0) 2)
          (unary 32768 clear (flags d.psw) (operand c).0).1 d refl (clear_z d.psw))

  com_lem : (c : Cpu B) → Registers c → op_com c ≡ unary_word (unary 32768 complement) c
  unfolding op_com set_nz_word set_v set_c
  com_lem c h =
      let (val, d) = operand c in
      let lt = operand-fits c h in
      around_word c.instruction (place c).0 (65535 - val)
        (unary 32768 complement (flags d.psw) val).0 (d.psw)
        (λ p.
          put_bit (put_bit (put_nz p ((65535 - val) == 0) (has_bit (65535 - val) 15)) 1 false) 0
            (true))
        (unary 32768 complement (flags d.psw) val).1 d (com_result d.psw val lt)
        (com_flags d.psw val lt)

  inc_lem : (c : Cpu B) → Registers c → op_inc c ≡ unary_word (unary 32768 increment) c
  unfolding op_inc set_nz_word set_v
  inc_lem c h =
      let (val, d) = operand c in
      let lt = operand-fits c h in
      around_word c.instruction (place c).0 (u16 (val + 1))
        (unary 32768 increment (flags d.psw) val).0 (put_bit d.psw 1 (val == 32767))
        (λ p. put_nz p ((u16 (val + 1)) == 0) (has_bit (u16 (val + 1)) 15))
        (unary 32768 increment (flags d.psw) val).1 d (inc_result d.psw val lt)
        (inc_flags d.psw val lt)

  dec_lem : (c : Cpu B) → Registers c → op_dec c ≡ unary_word (unary 32768 decrement) c
  unfolding op_dec set_nz_word set_v
  dec_lem c h =
      let (val, d) = operand c in
      let lt = operand-fits c h in
      around_word c.instruction (place c).0 (u16 (val + 65535))
        (unary 32768 decrement (flags d.psw) val).0 (put_bit d.psw 1 (val == 32768))
        (λ p. put_nz p ((u16 (val + 65535)) == 0) (has_bit (u16 (val + 65535)) 15))
        (unary 32768 decrement (flags d.psw) val).1 d (dec_result d.psw val lt)
        (dec_flags d.psw val lt)

  neg_lem : (c : Cpu B) → Registers c → op_neg c ≡ unary_word (unary 32768 negate) c
  unfolding op_neg set_nz_word set_v set_c
  neg_lem c h =
      let (val, d) = operand c in
      let lt = operand-fits c h in
      around_word c.instruction (place c).0 (u16 (65536 - val))
        (unary 32768 negate (flags d.psw) val).0 (d.psw)
        (λ p.
          put_bit
            (put_bit (put_nz p ((u16 (65536 - val)) == 0) (has_bit (u16 (65536 - val)) 15)) 1
              ((u16 (65536 - val)) == 32768))
            0 (not ((u16 (65536 - val)) == 0)))
        (unary 32768 negate (flags d.psw) val).1 d (neg_result d.psw val lt)
        (neg_flags d.psw val lt)

  adc_lem : (c : Cpu B) → Registers c → op_adc c ≡ unary_word (unary 32768 add_carry) c
  unfolding op_adc set_nz_word set_v set_c get_c
  adc_lem c h =
      let (val, d) = operand c in
      let lt = operand-fits c h in
      around_word c.instruction (place c).0 (if (has_bit d.psw 0) then u16 (val + 1) else val)
        (unary 32768 add_carry (flags d.psw) val).0
        (put_bit (put_bit d.psw 1 ((has_bit d.psw 0) && val == 32767)) 0
          ((has_bit d.psw 0) && val == 65535))
        (λ p.
          put_nz p ((if (has_bit d.psw 0) then u16 (val + 1) else val) == 0)
            (has_bit (if (has_bit d.psw 0) then u16 (val + 1) else val) 15))
        (unary 32768 add_carry (flags d.psw) val).1 d (adc_result d.psw val lt)
        (adc_flags d.psw val lt)

  sbc_lem : (c : Cpu B) → Registers c → op_sbc c ≡ unary_word (unary 32768 subtract_carry) c
  unfolding op_sbc set_nz_word set_v set_c get_c
  sbc_lem c h =
      let (val, d) = operand c in
      let lt = operand-fits c h in
      around_word c.instruction (place c).0 (if (has_bit d.psw 0) then u16 (val + 65535) else val)
        (unary 32768 subtract_carry (flags d.psw) val).0
        (put_bit (put_bit d.psw 1 (val == 32768)) 0 ((has_bit d.psw 0) && val == 0))
        (λ p.
          put_nz p ((if (has_bit d.psw 0) then u16 (val + 65535) else val) == 0)
            (has_bit (if (has_bit d.psw 0) then u16 (val + 65535) else val) 15))
        (unary 32768 subtract_carry (flags d.psw) val).1 d (sbc_result d.psw val lt)
        (sbc_flags d.psw val lt)

  asr_lem : (c : Cpu B) → Registers c → op_asr c ≡ unary_word (unary 32768 arithmetic_right) c
  unfolding op_asr set_nz_word set_v set_c get_c set_v_of_nc
  asr_lem c h =
      let (val, d) = operand c in
      let lt = operand-fits c h in
      around_word c.instruction (place c).0 (if has_bit val 15 then val / 2 + 32768 else val / 2)
        (unary 32768 arithmetic_right (flags d.psw) val).0 (put_bit d.psw 0 (has_bit val 0))
        (λ p. set_nc (
          put_nz p ((if has_bit val 15 then val / 2 + 32768 else val / 2) == 0)
            (has_bit (if has_bit val 15 then val / 2 + 32768 else val / 2) 15)))
        (unary 32768 arithmetic_right (flags d.psw) val).1 d (asr_result d.psw val lt)
        (asr_flags d.psw val lt)

  asl_lem : (c : Cpu B) → Registers c → op_asl c ≡ unary_word (unary 32768 arithmetic_left) c
  unfolding op_asl set_nz_word set_v set_c get_c set_v_of_nc
  asl_lem c h =
      let (val, d) = operand c in
      let lt = operand-fits c h in
      around_word c.instruction (place c).0 (u16 (val * 2))
        (unary 32768 arithmetic_left (flags d.psw) val).0 (put_bit d.psw 0 (has_bit val 15))
        (λ p. set_nc (put_nz p ((u16 (val * 2)) == 0) (has_bit (u16 (val * 2)) 15)))
        (unary 32768 arithmetic_left (flags d.psw) val).1 d (asl_result d.psw val lt)
        (asl_flags d.psw val lt)

  ror_lem : (c : Cpu B) → Registers c → op_ror c ≡ unary_word (unary 32768 rotate_right) c
  unfolding op_ror set_nz_word set_v set_c get_c set_v_of_nc
  ror_lem c h =
      let (val, d) = operand c in
      let lt = operand-fits c h in
      around_word c.instruction (place c).0 (if (has_bit d.psw 0) then val / 2 + 32768 else val / 2)
        (unary 32768 rotate_right (flags d.psw) val).0 (put_bit d.psw 0 (has_bit val 0))
        (λ p. set_nc (
          put_nz p ((if (has_bit d.psw 0) then val / 2 + 32768 else val / 2) == 0)
            (has_bit (if (has_bit d.psw 0) then val / 2 + 32768 else val / 2) 15)))
        (unary 32768 rotate_right (flags d.psw) val).1 d (ror_result d.psw val lt)
        (ror_flags d.psw val lt)

  rol_lem : (c : Cpu B) → Registers c → op_rol c ≡ unary_word (unary 32768 rotate_left) c
  unfolding op_rol set_nz_word set_v set_c get_c set_v_of_nc
  rol_lem c h =
      let (val, d) = operand c in
      let lt = operand-fits c h in
      around_word c.instruction (place c).0
        (if (has_bit d.psw 0) then u16 (val * 2) + 1 else u16 (val * 2))
        (unary 32768 rotate_left (flags d.psw) val).0 (put_bit d.psw 0 (has_bit val 15))
        (λ p. set_nc (
          put_nz p ((if (has_bit d.psw 0) then u16 (val * 2) + 1 else u16 (val * 2)) == 0)
            (has_bit (if (has_bit d.psw 0) then u16 (val * 2) + 1 else u16 (val * 2)) 15)))
        (unary 32768 rotate_left (flags d.psw) val).1 d (rol_result d.psw val lt)
        (rol_flags d.psw val lt)

  -- On a processor whose registers hold 16 bits, a single-operand instruction on words does what
  -- the handbook says, in every addressing mode: it takes the operand's address, reads it, writes the
  -- result and sets N and Z by it. V: for INC, DEC, NEG and ADC, that the signed result has no pattern;
  -- for SBC, that the operand is 0100000, with or without a borrow to subtract; for a shift or a rotation,
  -- that N and C of the result differ; for CLR and COM, clear. C: for ADC, SBC and NEG, the carry or the
  -- borrow of the unsigned numbers; for a shift or a rotation, the bit that leaves; for CLR clear, for
  -- COM set; INC and DEC leave it.
  pub unary-word :
      (o : Unary) (c : Cpu B)
      → Registers c
      → dispatch (word_handler o) c ≡ unary_word (unary 32768 o) c
  unfolding dispatch
  unary-word clear c h = clr_lem c
  unary-word complement c h = com_lem c h
  unary-word increment c h = inc_lem c h
  unary-word decrement c h = dec_lem c h
  unary-word negate c h = neg_lem c h
  unary-word add_carry c h = adc_lem c h
  unary-word subtract_carry c h = sbc_lem c h
  unary-word arithmetic_right c h = asr_lem c h
  unary-word arithmetic_left c h = asl_lem c h
  unary-word rotate_right c h = ror_lem c h
  unary-word rotate_left c h = rol_lem c h
