-- ===== src/Core/Cpu/Handbook.antt =====
-- The PDP-11 handbook's description of the arithmetic, for src/core/src/cpu_ops.c: results and flags
-- by the signed and unsigned values of the operands, where `h` is half the number of patterns, and
-- the course of an instruction around them.
use ms.Base.{
  ℕ, ◌+◌, ◌-◌, ◌*◌, ◌/◌, ◌%◌, Bool, true, false, not, ◌==◌, ltb, bit_and, bit_or, differ, pos, ◌+ℤ◌,
  ◌-ℤ◌, signed, fits,
}
use ms.Core.Cpu.{Bus, Action, ◌>>=◌, ◌>>◌, gets, modify, add_cycles}
use ms.Core.Cpu.Address.{
  opcode, microcycle, dst_mode, dst_reg, get_word_addr, get_byte_addr, read_word_op, write_word_op,
  read_byte_op, write_byte_op, datio_begin, datio_end,
}
use ms.Core.Cpu.DoubleWord.{word_operands}
use ms.Core.Cpu.DoubleByte.{byte_operands}
use ms.Core.Cpu.Psw.{Flags, flags, with_flags, bit, mk}

pub data Unary : Type 0 where
  clear complement increment decrement negate add_carry subtract_carry : Unary
  arithmetic_right arithmetic_left rotate_right rotate_left : Unary

pub data Binary : Type 0 where
  bits_clear bits_set add subtract : Binary

pub data Test : Type 0 where
  compare bits_test : Test

-- A result with N and Z by its value.
abbrev pub result : ℕ → ℕ → Bool → Bool → ℕ × Flags
result h r v c = (r, mk (not (ltb r h)) (r == 0) v c)

-- A shift sets V when N and C differ.
abbrev pub shifted : ℕ → ℕ → Bool → ℕ × Flags
shifted h r c = result h r (differ (not (ltb r h)) c) c

-- V, for sums and differences but SBC: the signed result has no pattern. SBC has the handbook's own
-- rule: the operand is the least number, with a borrow or without. C: the unsigned sum has a carry, the
-- difference a borrow; a shift and a rotation put the bit into it that leaves.
abbrev pub unary : ℕ → Unary → Flags → ℕ → ℕ × Flags
unary h clear f d = result h 0 false false
unary h complement f d = result h (h + h - 1 - d) false true
unary h increment f d = result h ((d + 1) % (h + h)) (not (fits h (signed h d +ℤ pos 1))) f.c
unary h decrement f d =
    result h ((d + (h + h - 1)) % (h + h)) (not (fits h (signed h d -ℤ pos 1))) f.c
unary h negate f d =
    result h ((h + h - d) % (h + h)) (not (fits h (pos 0 -ℤ signed h d))) (not (d == 0))
unary h add_carry f d =
    result h ((d + bit f.c) % (h + h)) (not (fits h (signed h d +ℤ pos (bit f.c))))
      (ltb (h + h - 1) (d + bit f.c))
unary h subtract_carry f d = result h ((d + (h + h - bit f.c)) % (h + h)) (d == h) (ltb d (bit f.c))
unary h arithmetic_right f d = shifted h (d / 2 + bit (not (ltb d h)) * h) (d % 2 == 1)
unary h arithmetic_left f d = shifted h (d * 2 % (h + h)) (ltb (h + h - 1) (d * 2))
unary h rotate_right f d = shifted h ((d + bit f.c * (h + h)) / 2) (d % 2 == 1)
unary h rotate_left f d =
    shifted h ((d * 2 + bit f.c) % (h + h)) (ltb (h + h - 1) (d * 2 + bit f.c))

-- The subtraction is destination minus source, the comparison source minus destination.
abbrev pub binary : ℕ → Binary → Flags → ℕ → ℕ → ℕ × Flags
binary h bits_clear f s d = result h (bit_and d (h + h - 1 - s) % (h + h)) false f.c
binary h bits_set f s d = result h (bit_or d s % (h + h)) false f.c
binary h add f s d =
    result h ((s + d) % (h + h)) (not (fits h (signed h s +ℤ signed h d))) (ltb (h + h - 1) (s + d))
binary h subtract f s d =
    result h ((d + (h + h) - s) % (h + h)) (not (fits h (signed h d -ℤ signed h s))) (ltb d s)

abbrev pub test : ℕ → Test → Flags → ℕ → ℕ → Flags
test h compare f s d =
    (result h ((s + (h + h) - d) % (h + h)) (not (fits h (signed h s -ℤ signed h d))) (ltb s d)).1
test h bits_test f s d = (result h (bit_and s d % (h + h)) false f.c).1

module _ {B : Type 0} ⦃bus : Bus B⦄ where
  -- The end of an instruction that writes: the write, the end of the cycle, the flags.
  abbrev pub finish_word : ℕ → ℕ → ℕ × Flags → Action B (Unit {0})
  finish_word op a (r, f) = do
    write_word_op (dst_mode op) (dst_reg op) a r
    datio_end (dst_mode op)
    modify λ c. record c { psw = with_flags c.psw f }

  abbrev pub finish_byte : ℕ → ℕ → ℕ × Flags → Action B (Unit {0})
  finish_byte op a (r, f) = do
    write_byte_op (dst_mode op) (dst_reg op) a r
    datio_end (dst_mode op)
    modify λ c. record c { psw = with_flags c.psw f }

  -- Address, read, write, in one cycle of the bus.
  abbrev pub unary_word : (Flags → ℕ → ℕ × Flags) → Action B (Unit {0})
  unary_word alu = do
    op ← opcode
    a ← get_word_addr (dst_mode op) (dst_reg op)
    datio_begin (dst_mode op)
    d ← read_word_op (dst_mode op) (dst_reg op) a
    f ← gets λ c. flags c.psw
    finish_word op a (alu f d)

  abbrev pub unary_byte : (Flags → ℕ → ℕ × Flags) → Action B (Unit {0})
  unary_byte alu = do
    op ← opcode
    a ← get_byte_addr (dst_mode op) (dst_reg op)
    datio_begin (dst_mode op)
    d ← read_byte_op (dst_mode op) (dst_reg op) a
    f ← gets λ c. flags c.psw
    finish_byte op a (alu f d)

  -- The source's operand comes first.
  abbrev pub binary_word : (Flags → ℕ → ℕ → ℕ × Flags) → Action B (Unit {0})
  binary_word alu = do
    op ← opcode
    (s, a) ← word_operands
    datio_begin (dst_mode op)
    d ← read_word_op (dst_mode op) (dst_reg op) a
    f ← gets λ c. flags c.psw
    finish_word op a (alu f s d)

  abbrev pub binary_byte : (Flags → ℕ → ℕ → ℕ × Flags) → Action B (Unit {0})
  binary_byte alu = do
    op ← opcode
    (s, a) ← byte_operands
    datio_begin (dst_mode op)
    d ← read_byte_op (dst_mode op) (dst_reg op) a
    f ← gets λ c. flags c.psw
    finish_byte op a (alu f s d)

  -- A test writes nothing, so it needs no cycle of read and write, and takes a microcycle more.
  abbrev pub test_word : (Flags → ℕ → ℕ → Flags) → Action B (Unit {0})
  test_word alu = do
    add_cycles microcycle
    op ← opcode
    (s, a) ← word_operands
    d ← read_word_op (dst_mode op) (dst_reg op) a
    modify λ c. record c { psw = with_flags c.psw (alu (flags c.psw) s d) }

  abbrev pub test_byte : (Flags → ℕ → ℕ → Flags) → Action B (Unit {0})
  test_byte alu = do
    add_cycles microcycle
    op ← opcode
    (s, a) ← byte_operands
    d ← read_byte_op (dst_mode op) (dst_reg op) a
    modify λ c. record c { psw = with_flags c.psw (alu (flags c.psw) s d) }
