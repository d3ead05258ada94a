-- ===== src/Core/Cpu/Timing.antt =====
-- The times of the instructions of src/core/src/cpu_ops.c: the source and destination columns of the
-- T-11's table of execution times, in microcycles of three clocks, after the nine clocks of the fetch.
use ms.Base.{ℕ, ◌+◌, ◌*◌, ◌<◌, ◌≡◌, ap, ◌∙◌, List, [], ◌∷◌, get_or, ◌==◌, arith, if◌then◌else◌}
use ms.Core.Cpu.{Cpu, Bus, bus_read_word, sample_requests, set_nz_word, set_v}
use ms.Core.Cpu.Address.{
  address, index_word, get_word_addr, read_word_op, write_word_op, datio_begin, datio_end,
  discard_read_word, word_source_after, dst_mode, dst_reg, src_mode, src_reg, microcycle,
}
use ms.Core.Cpu.Registers.{Registers}
use ms.Core.Cpu.Psw.{flags}
use ms.Core.Cpu.DoubleWord.{word_operands, op_mov}
use ms.Core.Cpu.Handbook.{Unary, Binary, Test, unary, binary}
use ms.Core.Cpu.UnaryWord.{word_handler, unary-word}
use ms.Core.Cpu.Binary.{double_handler, test_handler, binary-word, test-word}
use ms.Core.Cpu.Table.{dispatch}

-- By the mode: an operand that is read, and one that is written, after the read of its cycle.
abbrev pub source_microcycles : List ℕ
source_microcycles = 0 ∷ 2 ∷ 2 ∷ 4 ∷ 3 ∷ 5 ∷ 5 ∷ 7 ∷ []

abbrev pub destination_microcycles : List ℕ
destination_microcycles = 1 ∷ 4 ∷ 4 ∷ 6 ∷ 5 ∷ 7 ∷ 7 ∷ 9 ∷ []

abbrev address_clocks : List ℕ
address_clocks = 0 ∷ 0 ∷ 0 ∷ 6 ∷ 3 ∷ 9 ∷ 9 ∷ 15 ∷ []

-- The time of an access, if the operand is not in a register.
access : ℕ → ℕ
access m = if m == 0 then 0 else 6

source_sum :
    (m : ℕ) → m < 8 → get_or address_clocks m 0 + access m ≡ 3 * get_or source_microcycles m 0
unfolding access
source_sum m h = ground arith

destination_sum :
    (m : ℕ)
    → m < 8
    → get_or address_clocks m 0 + access m + (if m == 0 then 3 else 6)
      ≡ 3 * get_or destination_microcycles m 0
unfolding access
destination_sum m h = ground arith

module _ {B : Type 0} ⦃bus : Bus B⦄ where
  address_time :
      (m r : ℕ) (c : Cpu B)
      → m < 8
      → (get_word_addr m r c).1.cycles ≡ c.cycles + get_or address_clocks m 0
  unfolding get_word_addr address index_word bus_read_word sample_requests
  address_time m r c h = ground arith

  read_time : (m r a : ℕ) (c : Cpu B) → (read_word_op m r a c).1.cycles ≡ c.cycles + access m
  unfolding read_word_op bus_read_word sample_requests access
  read_time m r a c = ground arith

  discard_time : (m a : ℕ) (c : Cpu B) → (discard_read_word m a c).1.cycles ≡ c.cycles + access m
  unfolding discard_read_word bus_read_word sample_requests access
  discard_time m a c = ground arith

  write_time :
      (m r a v : ℕ) (c : Cpu B)
      → (write_word_op m r a v c).1.cycles ≡ c.cycles + (if m == 0 then 3 else 6)
  unfolding write_word_op
  write_time m r a v c = ground arith

  begin_time : (m : ℕ) (c : Cpu B) → (datio_begin m c).1.cycles ≡ c.cycles
  unfolding datio_begin
  begin_time m c = ground arith

  end_time : (m : ℕ) (c : Cpu B) → (datio_end m c).1.cycles ≡ c.cycles
  unfolding datio_end
  end_time m c = ground arith

  operands_time :
      (c : Cpu B)
      → (word_operands c).1.cycles
        ≡ c.cycles
          + 3 * get_or source_microcycles (src_mode c.instruction) 0
          + get_or address_clocks (dst_mode c.instruction) 0
  unfolding word_operands word_source_after
  operands_time c =
      let sm = src_mode c.instruction in
      let sr = src_reg c.instruction in
      let (a, d) = get_word_addr sm sr c in
      let e = (read_word_op sm sr a d).1 in
      omega (
        arith,
        address_time sm sr c (omega arith),
        read_time sm sr a d,
        address_time (dst_mode c.instruction) (dst_reg c.instruction) e (omega arith),
        source_sum sm (omega arith),
      )

  -- MOV takes the microcycles of its source's mode and of its destination's.
  pub mov_time :
      (c : Cpu B)
      → (op_mov c).1.cycles
        ≡ c.cycles
          + 3
            * (get_or source_microcycles (src_mode c.instruction) 0
                + get_or destination_microcycles (dst_mode c.instruction) 0)
  unfolding op_mov set_nz_word set_v
  mov_time c =
      let m = dst_mode c.instruction in
      let r = dst_reg c.instruction in
      let ((v, a), d) = word_operands c in
      let e = (datio_begin m d).1 in
      let f = (discard_read_word m a e).1 in
      let g = (write_word_op m r a v f).1 in
      omega (
        arith,
        operands_time c,
        begin_time m d,
        discard_time m a e,
        write_time m r a v f,
        end_time m g,
        destination_sum m (omega arith),
      )

  -- On a processor whose registers hold 16 bits, the handler of ADD, SUB, BIC and BIS takes three clocks
  -- for every microcycle that the T-11's table has for its two operands, for each addressing mode: by the
  -- source's mode, from 0 to 7, 0, 2, 2, 4, 3, 5, 5 and 7, and by the destination's, which is read and
  -- written, 1, 4, 4, 6, 5, 7, 7 and 9.
  pub binary_time :
      (o : Binary) (c : Cpu B)
      → Registers c
      → (dispatch (double_handler o) c).1.cycles
        ≡ c.cycles
          + 3
            * (get_or source_microcycles (src_mode c.instruction) 0
                + get_or destination_microcycles (dst_mode c.instruction) 0)
  binary_time o c h =
      let m = dst_mode c.instruction in
      let r = dst_reg c.instruction in
      let ((s, a), d) = word_operands c in
      let e = (datio_begin m d).1 in
      let (x, f) = read_word_op m r a e in
      let v = (binary 32768 o (flags f.psw) s x).0 in
      let g = (write_word_op m r a v f).1 in
      ap (λ k. k.1.cycles) (binary-word o c h)
      ∙ omega (
        arith,
        operands_time c,
        begin_time m d,
        read_time m r a e,
        write_time m r a v f,
        end_time m g,
        destination_sum m (omega arith),
      )

  -- CMP and BIT take a microcycle and those of two operands that are read.
  pub test_time :
      (o : Test) (c : Cpu B)
      → Registers c
      → (dispatch (test_handler o) c).1.cycles
        ≡ c.cycles
          + 3
            * (1
                + get_or source_microcycles (src_mode c.instruction) 0
                + get_or source_microcycles (dst_mode c.instruction) 0)
  test_time o c h =
      let l = record c { cycles = c.cycles + microcycle } in
      let m = dst_mode c.instruction in
      let r = dst_reg c.instruction in
      let ((s, a), d) = word_operands l in
      ap (λ k. k.1.cycles) (test-word o c h)
      ∙ omega (arith, operands_time l, read_time m r a d, source_sum m (omega arith))

  -- A single-operand instruction takes those of its operand, read and written.
  pub unary_time :
      (o : Unary) (c : Cpu B)
      → Registers c
      → (dispatch (word_handler o) c).1.cycles
        ≡ c.cycles + 3 * get_or destination_microcycles (dst_mode c.instruction) 0
  unary_time o c h =
      let m = dst_mode c.instruction in
      let r = dst_reg c.instruction in
      let (a, d) = get_word_addr m r c in
      let e = (datio_begin m d).1 in
      let (x, f) = read_word_op m r a e in
      let v = (unary 32768 o (flags f.psw) x).0 in
      let g = (write_word_op m r a v f).1 in
      ap (λ k. k.1.cycles) (unary-word o c h)
      ∙ omega (
        arith,
        address_time m r c (omega arith),
        begin_time m d,
        read_time m r a e,
        write_time m r a v f,
        end_time m g,
        destination_sum m (omega arith),
      )
