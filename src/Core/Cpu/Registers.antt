-- ===== src/Core/Cpu/Registers.antt =====
-- The registers of src/core/src/cpu_ops.c hold 16 bits, and so does what an operand reads.
use ms.Base.{ℕ, ◌<◌, ◌==◌, arith, Bool-cases, inl, inr}
use ms.Core.Cpu.{Cpu, Bus, bus_read_word, bus_read_byte, sample_requests}
use ms.Core.Cpu.Address.{
  src_mode, src_reg, dst_mode, dst_reg, index_word, address, get_word_addr, get_byte_addr,
  read_word_op, read_byte_op, word_source_after, byte_source_after, datio_begin,
}
use ms.Core.Cpu.DoubleWord.{word_operands}
use ms.Core.Cpu.DoubleByte.{byte_operands}

abbrev pub Registers : {B : Type 0} → Cpu B → Type 0
Registers c = (i : ℕ) → c.r i < 65536

module _ {B : Type 0} ⦃bus : Bus B⦄ where
  pub address-Registers :
      (step mode reg : ℕ) (c : Cpu B) → Registers c → Registers (address step mode reg c).1
  unfolding address index_word bus_read_word sample_requests
  address-Registers step mode reg c h i = ground (arith, h i, h reg)

  pub get_word_addr-Registers :
      (mode reg : ℕ) (c : Cpu B) → Registers c → Registers (get_word_addr mode reg c).1
  unfolding get_word_addr
  get_word_addr-Registers mode reg c h i = ground (arith, h i, address-Registers 2 mode reg c h i)

  pub get_byte_addr-Registers :
      (mode reg : ℕ) (c : Cpu B) → Registers c → Registers (get_byte_addr mode reg c).1
  unfolding get_byte_addr
  get_byte_addr-Registers mode reg c h i =
      ground (arith, h i, address-Registers 2 mode reg c h i, address-Registers 1 mode reg c h i)

  pub read_word_op-Registers :
      (mode reg a : ℕ) (c : Cpu B) → Registers c → Registers (read_word_op mode reg a c).1
  unfolding read_word_op bus_read_word sample_requests
  read_word_op-Registers mode reg a c h i = ground (arith, h i)

  pub read_word_op-fits :
      (mode reg a : ℕ) (c : Cpu B) → Registers c → (read_word_op mode reg a c).0 < 65536
  unfolding read_word_op bus_read_word sample_requests
  read_word_op-fits mode reg a c h = ground (arith, h reg, bus.read_word_fits c.board a)

  pub read_byte_op-Registers :
      (mode reg a : ℕ) (c : Cpu B) → Registers c → Registers (read_byte_op mode reg a c).1
  unfolding read_byte_op bus_read_byte sample_requests
  read_byte_op-Registers mode reg a c h i = ground (arith, h i)

  pub read_byte_op-fits : (mode reg a : ℕ) (c : Cpu B) → (read_byte_op mode reg a c).0 < 256
  unfolding read_byte_op bus_read_byte sample_requests
  read_byte_op-fits mode reg a c = ground (arith, bus.read_byte_fits c.board a)

  pub datio_begin-Registers :
      (mode : ℕ) (c : Cpu B) → Registers c → Registers (datio_begin mode c).1
  unfolding datio_begin
  datio_begin-Registers mode c h i = ground (arith, h i)

  -- The three states of `word_operands`: after the source's address, its read, the destination's.
  module _ (c : Cpu B) (h : Registers c) where
    abbrev source : Cpu B
    source = (get_word_addr (src_mode c.instruction) (src_reg c.instruction) c).1

    abbrev source_addr : ℕ
    source_addr = (get_word_addr (src_mode c.instruction) (src_reg c.instruction) c).0

    source_kept : Registers source
    source_kept = get_word_addr-Registers (src_mode c.instruction) (src_reg c.instruction) c h

    read_kept :
        Registers
          (read_word_op (src_mode c.instruction) (src_reg c.instruction) source_addr source).1
    read_kept =
        read_word_op-Registers (src_mode c.instruction) (src_reg c.instruction) source_addr source
          source_kept

    pub word_operands-Registers : Registers (word_operands c).1
    unfolding word_operands word_source_after
    word_operands-Registers =
        get_word_addr-Registers (dst_mode c.instruction) (dst_reg c.instruction)
          (read_word_op (src_mode c.instruction) (src_reg c.instruction) source_addr source).1
          read_kept

    pub word_operands-fits : (word_operands c).0.0 < 65536
    unfolding word_operands word_source_after
    word_operands-fits =
        let direct = word_operands-Registers (src_reg c.instruction) in
        let read =
          read_word_op-fits (src_mode c.instruction) (src_reg c.instruction) source_addr source
            source_kept in
        elim (Bool-cases (src_mode c.instruction == 0)) [ inl e ↦ rw e direct | inr e ↦ rw e read ]

  pub byte_operands-fits : (c : Cpu B) → (byte_operands c).0.0 < 256
  unfolding byte_operands byte_source_after
  byte_operands-fits c =
      let (a, d) = get_byte_addr (src_mode c.instruction) (src_reg c.instruction) c in
      let read = read_byte_op-fits (src_mode c.instruction) (src_reg c.instruction) a d in
      elim (Bool-cases (src_mode c.instruction == 0)) [
        | inl e ↦ rw e (omega arith)
        | inr e ↦ rw e read
      ]
