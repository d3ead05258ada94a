-- ===== src/Core/Cpu/Binary.antt =====
-- The double-operand instructions of src/core/src/cpu_ops.c are the handbook's.
use ms.Base.{
  ◌+◌, ◌-◌, ◌<◌, ◌≡◌, refl, ap, false, not, ◌&&◌, ◌==◌, ltb, has_bit, differ, u8, u16, bit_and,
  bit_or,
}
use ms.Core.Cpu.{Cpu, Bus, put_bit, set_nz_word, set_nz_byte, set_c, set_v}
use ms.Core.Cpu.Address.{microcycle, dst_mode, dst_reg, read_word_op, read_byte_op, datio_begin}
use ms.Core.Cpu.Registers.{
  Registers, word_operands-Registers, word_operands-fits, byte_operands-fits, datio_begin-Registers,
  read_word_op-fits, read_byte_op-fits,
}
use ms.Core.Cpu.Psw.{flags, put_nz, at_psw, around_word, around_byte}
use ms.Core.Cpu.WordFlags
use ms.Core.Cpu.ByteFlags
use ms.Core.Cpu.Handbook.{
  Binary, Test, binary, test, binary_word, binary_byte, test_word, test_byte, bits_clear, bits_set,
  add, subtract, compare, bits_test,
}
use ms.Core.Cpu.DoubleWord.{word_operands, op_cmp, op_bit, op_bic, op_bis, op_add, op_sub}
use ms.Core.Cpu.DoubleByte.{byte_operands, op_cmpb, op_bitb, op_bicb, op_bisb}
use ms.Core.Cpu.Table.{
  dispatch, do_cmp, do_bit, do_bic, do_bis, do_add, do_sub, do_cmpb, do_bitb, Handler,
}

abbrev pub double_handler : Binary → Handler
double_handler bits_clear = do_bic
double_handler bits_set = do_bis
double_handler add = do_add
double_handler subtract = do_sub

abbrev pub test_handler : Test → Handler
test_handler compare = do_cmp
test_handler bits_test = do_bit

abbrev pub test_byte_handler : Test → Handler
test_byte_handler compare = do_cmpb
test_byte_handler bits_test = do_bitb

module _ {B : Type 0} ⦃bus : Bus B⦄ where
  -- The state in which the destination is read, by an instruction that writes and by one that does not.
  abbrev begun : Cpu B → Cpu B
  begun c = (datio_begin (dst_mode c.instruction) (word_operands c).1).1

  abbrev later : Cpu B → Cpu B
  later c = record c { cycles = c.cycles + microcycle }

  read-fits :
      (c : Cpu B)
      → Registers c
      → (read_word_op
          (dst_mode c.instruction)
          (dst_reg c.instruction)
          (word_operands c).0.1
          (begun c)).0
        < 65536
  read-fits c h =
      read_word_op-fits (dst_mode c.instruction) (dst_reg c.instruction) (word_operands c).0.1
        (begun c)
        (datio_begin-Registers (dst_mode c.instruction) (word_operands c).1
          (word_operands-Registers c h))

  test-fits :
      (c : Cpu B)
      → Registers c
      → (read_word_op
          (dst_mode c.instruction)
          (dst_reg c.instruction)
          (word_operands c).0.1
          (word_operands c).1).0
        < 65536
  test-fits c h =
      read_word_op-fits (dst_mode c.instruction) (dst_reg c.instruction) (word_operands c).0.1
        (word_operands c).1 (word_operands-Registers c h)

  bic_lem : (c : Cpu B) → Registers c → op_bic c ≡ binary_word (binary 32768 bits_clear) c
  unfolding op_bic set_nz_word set_v
  bic_lem c h =
      let (s, a) = (word_operands c).0 in
      let (d, e) = read_word_op (dst_mode c.instruction) (dst_reg c.instruction) a (begun c) in
      around_word c.instruction a (u16 (bit_and d (65535 - s)))
        (binary 32768 bits_clear (flags e.psw) s d).0 e.psw
        (λ p.
          put_bit
            (put_nz p ((u16 (bit_and d (65535 - s))) == 0)
              (has_bit (u16 (bit_and d (65535 - s))) 15))
            1 false)
        (binary 32768 bits_clear (flags e.psw) s d).1 e refl
        (WordFlags.bic_flags e.psw s d (word_operands-fits c h) (read-fits c h))

  bis_lem : (c : Cpu B) → Registers c → op_bis c ≡ binary_word (binary 32768 bits_set) c
  unfolding op_bis set_nz_word set_v
  bis_lem c h =
      let (s, a) = (word_operands c).0 in
      let (d, e) = read_word_op (dst_mode c.instruction) (dst_reg c.instruction) a (begun c) in
      around_word c.instruction a (u16 (bit_or d s)) (binary 32768 bits_set (flags e.psw) s d).0
        e.psw
        (λ p. put_bit (put_nz p ((u16 (bit_or d s)) == 0) (has_bit (u16 (bit_or d s)) 15)) 1 false)
        (binary 32768 bits_set (flags e.psw) s d).1 e refl
        (WordFlags.bis_flags e.psw s d (word_operands-fits c h) (read-fits c h))

  add_lem : (c : Cpu B) → Registers c → op_add c ≡ binary_word (binary 32768 add) c
  unfolding op_add set_nz_word set_v set_c
  add_lem c h =
      let (s, a) = (word_operands c).0 in
      let (d, e) = read_word_op (dst_mode c.instruction) (dst_reg c.instruction) a (begun c) in
      around_word c.instruction a (u16 (s + d)) (binary 32768 add (flags e.psw) s d).0 e.psw
        (λ p.
          put_bit
            (put_bit (put_nz p ((u16 (s + d)) == 0) (has_bit (u16 (s + d)) 15)) 1 (
              not (differ (has_bit s 15) (has_bit d 15))
              && differ (has_bit s 15) (has_bit (u16 (s + d)) 15)))
            0 ((ltb 65535 (s + d))))
        (binary 32768 add (flags e.psw) s d).1 e refl
        (WordFlags.add_flags e.psw s d (word_operands-fits c h) (read-fits c h))

  sub_lem : (c : Cpu B) → Registers c → op_sub c ≡ binary_word (binary 32768 subtract) c
  unfolding op_sub set_nz_word set_v set_c
  sub_lem c h =
      let (s, a) = (word_operands c).0 in
      let (d, e) = read_word_op (dst_mode c.instruction) (dst_reg c.instruction) a (begun c) in
      around_word c.instruction a (u16 (d + 65536 - s)) (binary 32768 subtract (flags e.psw) s d).0
        e.psw
        (λ p.
          put_bit
            (put_bit (put_nz p ((u16 (d + 65536 - s)) == 0) (has_bit (u16 (d + 65536 - s)) 15)) 1 (
              differ (has_bit d 15) (has_bit s 15)
              && differ (not (has_bit s 15)) (has_bit (u16 (d + 65536 - s)) 15)))
            0 ((ltb d s)))
        (binary 32768 subtract (flags e.psw) s d).1 e refl
        (WordFlags.sub_flags e.psw s d (word_operands-fits c h) (read-fits c h))

  cmp_lem : (c : Cpu B) → Registers c → op_cmp c ≡ test_word (test 32768 compare) c
  unfolding op_cmp set_nz_word set_v set_c
  cmp_lem c h =
      let l = record c { cycles = c.cycles + microcycle } in
      let (s, a) = (word_operands l).0 in
      let (d, e) =
        read_word_op (dst_mode c.instruction) (dst_reg c.instruction) a (word_operands l).1 in
      ap (λ p. (tt, at_psw e p))
        (WordFlags.cmp_flags e.psw s d (word_operands-fits l h) (test-fits l h))

  bit_lem : (c : Cpu B) → Registers c → op_bit c ≡ test_word (test 32768 bits_test) c
  unfolding op_bit set_nz_word set_v
  bit_lem c h =
      let l = record c { cycles = c.cycles + microcycle } in
      let (s, a) = (word_operands l).0 in
      let (d, e) =
        read_word_op (dst_mode c.instruction) (dst_reg c.instruction) a (word_operands l).1 in
      ap (λ p. (tt, at_psw e p))
        (WordFlags.bit_flags e.psw s d (word_operands-fits l h) (test-fits l h))

  bicb_lem : (c : Cpu B) → op_bicb c ≡ binary_byte (binary 128 bits_clear) c
  unfolding op_bicb set_nz_byte set_v
  bicb_lem c =
      let (s, a) = (byte_operands c).0 in
      let (d, e) =
        read_byte_op (dst_mode c.instruction) (dst_reg c.instruction) a
          ((datio_begin (dst_mode c.instruction) (byte_operands c).1).1) in
      around_byte c.instruction a (u8 (bit_and d (255 - s)))
        (binary 128 bits_clear (flags e.psw) s d).0 e.psw
        (λ p.
          put_bit
            (put_nz p ((u8 (bit_and d (255 - s))) == 0) (has_bit (u8 (bit_and d (255 - s))) 7)) 1
            false)
        (binary 128 bits_clear (flags e.psw) s d).1 e refl
        (ByteFlags.bic_flags e.psw s d (byte_operands-fits c) (
          read_byte_op-fits (dst_mode c.instruction) (dst_reg c.instruction) a
            (datio_begin (dst_mode c.instruction) (byte_operands c).1).1))

  bisb_lem : (c : Cpu B) → op_bisb c ≡ binary_byte (binary 128 bits_set) c
  unfolding op_bisb set_nz_byte set_v
  bisb_lem c =
      let (s, a) = (byte_operands c).0 in
      let (d, e) =
        read_byte_op (dst_mode c.instruction) (dst_reg c.instruction) a
          ((datio_begin (dst_mode c.instruction) (byte_operands c).1).1) in
      around_byte c.instruction a (u8 (bit_or d s)) (binary 128 bits_set (flags e.psw) s d).0 e.psw
        (λ p. put_bit (put_nz p ((u8 (bit_or d s)) == 0) (has_bit (u8 (bit_or d s)) 7)) 1 false)
        (binary 128 bits_set (flags e.psw) s d).1 e refl
        (ByteFlags.bis_flags e.psw s d (byte_operands-fits c) (
          read_byte_op-fits (dst_mode c.instruction) (dst_reg c.instruction) a
            (datio_begin (dst_mode c.instruction) (byte_operands c).1).1))

  cmpb_lem : (c : Cpu B) → op_cmpb c ≡ test_byte (test 128 compare) c
  unfolding op_cmpb set_nz_byte set_v set_c
  cmpb_lem c =
      let l = record c { cycles = c.cycles + microcycle } in
      let (s, a) = (byte_operands l).0 in
      let (d, e) =
        read_byte_op (dst_mode c.instruction) (dst_reg c.instruction) a (byte_operands l).1 in
      ap (λ p. (tt, at_psw e p))
        (ByteFlags.cmp_flags e.psw s d (byte_operands-fits l) (
          read_byte_op-fits (dst_mode c.instruction) (dst_reg c.instruction) a (byte_operands l).1))

  bitb_lem : (c : Cpu B) → op_bitb c ≡ test_byte (test 128 bits_test) c
  unfolding op_bitb set_nz_byte set_v
  bitb_lem c =
      let l = record c { cycles = c.cycles + microcycle } in
      let (s, a) = (byte_operands l).0 in
      let (d, e) =
        read_byte_op (dst_mode c.instruction) (dst_reg c.instruction) a (byte_operands l).1 in
      ap (λ p. (tt, at_psw e p))
        (ByteFlags.bit_flags e.psw s d (byte_operands-fits l) (
          read_byte_op-fits (dst_mode c.instruction) (dst_reg c.instruction) a (byte_operands l).1))

  -- ADD, SUB, BIC and BIS do what the handbook says, in every pair of addressing modes.
  pub binary-word :
      (o : Binary) (c : Cpu B)
      → Registers c
      → dispatch (double_handler o) c ≡ binary_word (binary 32768 o) c
  unfolding dispatch
  binary-word bits_clear c h = bic_lem c h
  binary-word bits_set c h = bis_lem c h
  binary-word add c h = add_lem c h
  binary-word subtract c h = sub_lem c h

  -- CMP and BIT do what the handbook says.
  pub test-word :
      (o : Test) (c : Cpu B)
      → Registers c
      → dispatch (test_handler o) c ≡ test_word (test 32768 o) c
  unfolding dispatch
  test-word compare c h = cmp_lem c h
  test-word bits_test c h = bit_lem c h

  pub test-byte :
      (o : Test) (c : Cpu B) → dispatch (test_byte_handler o) c ≡ test_byte (test 128 o) c
  unfolding dispatch
  test-byte compare c = cmpb_lem c
  test-byte bits_test c = bitb_lem c

  -- BICB and BISB do what the handbook says.
  pub bits-byte :
      (c : Cpu B)
      → (op_bicb c ≡ binary_byte (binary 128 bits_clear) c)
        × (op_bisb c ≡ binary_byte (binary 128 bits_set) c)
  bits-byte c = (bicb_lem c, bisb_lem c)
