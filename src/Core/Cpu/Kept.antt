-- ===== src/Core/Cpu/Kept.antt =====
-- What every instruction of src/core/src/cpu_ops.c keeps: 16-bit registers, a status word of eight
-- bits, a time that has passed, and a processor that runs.
use ms.Base.{
  ℕ, ◌+◌, ◌%◌, ◌<◌, ◌≡◌, refl, Bool, ◌==◌, store, u16, arith, has_bit, Bool-cases, inl, inr,
}
use ms.Core.Cpu.{
  Cpu, Bus, put_bit, set_nz_word, set_nz_byte, set_c, set_v, get_c, sample_requests, bus_read_word,
  bus_read_byte,
}
use ms.Core.Cpu.Address.{
  index_word, address, get_word_addr, get_byte_addr, read_word_op, read_byte_op, write_word_op,
  write_byte_op, word_source_after, byte_source_after, datio_begin, datio_end, discard_read_word,
  discard_read_byte, push, pop, set_v_of_nc,
}
use ms.Core.Cpu.DoubleWord.{word_operands}
use ms.Core.Cpu.DoubleByte.{byte_operands}
use ms.Core.Cpu.Registers.{Registers}

-- The parts of a state that was reached from `c₀`.
pub record Kept {B : Type 0} (c₀ : Cpu B) (r : ℕ → ℕ) (psw cycles : ℕ) (halted : Bool)
    : Type 0 where
  pub registers : Registers c₀ → (i : ℕ) → r i < 65536
  pub psw_byte : c₀.psw < 256 → psw < 256
  pub busy : 0 < c₀.cycles → 0 < cycles
  pub halted_same : halted ≡ c₀.halted

abbrev pub Keeps : {B : Type 0} → Cpu B → Cpu B → Type 0
Keeps c₀ c = Kept c₀ c.r c.psw c.cycles c.halted

pub start-Keeps : {B : Type 0} (c : Cpu B) → Keeps c c
start-Keeps c = record { registers = λ h. h; psw_byte = λ h. h; busy = λ h. h; halted_same = refl }

module _ {B : Type 0} {c₀ : Cpu B} (r : ℕ → ℕ) (p n : ℕ) (h : Bool) where
  -- Assignments to the registers, to the time, and to the status word.
  pub assign_r : (reg v : ℕ) → Kept c₀ r p n h → Kept c₀ (store r reg (u16 v)) p n h
  assign_r reg v k = record {
    registers = λ w i. ground (arith, k.registers w i);
    psw_byte = k.psw_byte;
    busy = k.busy;
    halted_same = k.halted_same;
  }

  pub pass_time : (m : ℕ) → Kept c₀ r p n h → Kept c₀ r p (n + m) h
  pass_time m k = record {
    registers = k.registers;
    psw_byte = k.psw_byte;
    busy = λ w. omega (arith, k.busy w);
    halted_same = k.halted_same;
  }

  pub timed : (m : ℕ) → 0 < m → Kept c₀ r p n h → Kept c₀ r p m h
  timed m lt k = record {
    registers = k.registers;
    psw_byte = k.psw_byte;
    busy = λ w. lt;
    halted_same = k.halted_same;
  }

  pub assign_psw : (v : ℕ) → Kept c₀ r p n h → Kept c₀ r (v % 256) n h
  assign_psw v k = record {
    registers = k.registers;
    psw_byte = λ w. omega arith;
    busy = k.busy;
    halted_same = k.halted_same;
  }

  put_c : (b : Bool) → Kept c₀ r p n h → Kept c₀ r (put_bit p 0 b) n h
  put_c b k = record {
    registers = k.registers;
    psw_byte = λ w. ground (arith, k.psw_byte w);
    busy = k.busy;
    halted_same = k.halted_same;
  }

  put_v : (b : Bool) → Kept c₀ r p n h → Kept c₀ r (put_bit p 1 b) n h
  put_v b k = record {
    registers = k.registers;
    psw_byte = λ w. ground (arith, k.psw_byte w);
    busy = k.busy;
    halted_same = k.halted_same;
  }

  put_z : (b : Bool) → Kept c₀ r p n h → Kept c₀ r (put_bit p 2 b) n h
  put_z b k = record {
    registers = k.registers;
    psw_byte = λ w. ground (arith, k.psw_byte w);
    busy = k.busy;
    halted_same = k.halted_same;
  }

  put_n : (b : Bool) → Kept c₀ r p n h → Kept c₀ r (put_bit p 3 b) n h
  put_n b k = record {
    registers = k.registers;
    psw_byte = λ w. ground (arith, k.psw_byte w);
    busy = k.busy;
    halted_same = k.halted_same;
  }

module _ {B : Type 0} {c₀ : Cpu B} where
  pub set_c-Keeps : (b : Bool) (c : Cpu B) → Keeps c₀ c → Keeps c₀ (set_c b c).1
  unfolding set_c
  set_c-Keeps b c k = put_c c.r c.psw c.cycles c.halted b k

  pub set_v-Keeps : (b : Bool) (c : Cpu B) → Keeps c₀ c → Keeps c₀ (set_v b c).1
  unfolding set_v
  set_v-Keeps b c k = put_v c.r c.psw c.cycles c.halted b k

  put_nz_Keeps :
      (z n : Bool) (c : Cpu B)
      → Keeps c₀ c
      → Kept c₀ c.r (put_bit (put_bit c.psw 2 z) 3 n) c.cycles c.halted
  put_nz_Keeps z n c k =
      put_n c.r (put_bit c.psw 2 z) c.cycles c.halted n (put_z c.r c.psw c.cycles c.halted z k)

  pub set_nz_word-Keeps : (v : ℕ) (c : Cpu B) → Keeps c₀ c → Keeps c₀ (set_nz_word v c).1
  unfolding set_nz_word
  set_nz_word-Keeps v c k = put_nz_Keeps (v == 0) (has_bit v 15) c k

  pub set_nz_byte-Keeps : (v : ℕ) (c : Cpu B) → Keeps c₀ c → Keeps c₀ (set_nz_byte v c).1
  unfolding set_nz_byte
  set_nz_byte-Keeps v c k = put_nz_Keeps (v == 0) (has_bit v 7) c k

  pub get_c-Keeps : (c : Cpu B) → Keeps c₀ c → Keeps c₀ (get_c c).1
  unfolding get_c
  get_c-Keeps c k = k

  pub set_v_of_nc-Keeps : (c : Cpu B) → Keeps c₀ c → Keeps c₀ (set_v_of_nc c).1
  unfolding set_v_of_nc
  set_v_of_nc-Keeps c k = set_v-Keeps _ c k

module _ {B : Type 0} ⦃bus : Bus B⦄ {c₀ : Cpu B} where
  pub word_source_after-Keeps :
      (m r v : ℕ) (c : Cpu B) → Keeps c₀ c → Keeps c₀ (word_source_after m r v c).1
  unfolding word_source_after
  word_source_after-Keeps m r v c k = k

  pub byte_source_after-Keeps :
      (m r v : ℕ) (c : Cpu B) → Keeps c₀ c → Keeps c₀ (byte_source_after m r v c).1
  unfolding byte_source_after
  byte_source_after-Keeps m r v c k = k

  pub address-Keeps : (step m r : ℕ) (c : Cpu B) → Keeps c₀ c → Keeps c₀ (address step m r c).1
  unfolding address index_word bus_read_word sample_requests
  address-Keeps step m r c k = record {
    registers = λ w i. ground (arith, k.registers w i, k.registers w r);
    psw_byte = λ w. ground (arith, k.psw_byte w);
    busy = λ w. ground (arith, k.busy w);
    halted_same = ground (arith, k.halted_same);
  }

  pub get_word_addr-Keeps : (m r : ℕ) (c : Cpu B) → Keeps c₀ c → Keeps c₀ (get_word_addr m r c).1
  unfolding get_word_addr
  get_word_addr-Keeps m r c k = elim (Bool-cases (m == 0)) [
    | inl e ↦ rw e k
    | inr e ↦ rw e (address-Keeps _ m r c k)
  ]

  pub get_byte_addr-Keeps : (m r : ℕ) (c : Cpu B) → Keeps c₀ c → Keeps c₀ (get_byte_addr m r c).1
  unfolding get_byte_addr
  get_byte_addr-Keeps m r c k = elim (Bool-cases (m == 0)) [
    | inl e ↦ rw e k
    | inr e ↦ rw e (address-Keeps _ m r c k)
  ]

  pub read_word_op-Keeps : (m r a : ℕ) (c : Cpu B) → Keeps c₀ c → Keeps c₀ (read_word_op m r a c).1
  unfolding read_word_op bus_read_word sample_requests
  read_word_op-Keeps m r a c k = record {
    registers = λ w i. ground (arith, k.registers w i, k.registers w r);
    psw_byte = λ w. ground (arith, k.psw_byte w);
    busy = λ w. ground (arith, k.busy w);
    halted_same = ground (arith, k.halted_same);
  }

  pub write_word_op-Keeps :
      (m r a v : ℕ) (c : Cpu B) → Keeps c₀ c → Keeps c₀ (write_word_op m r a v c).1
  unfolding write_word_op
  write_word_op-Keeps m r a v c k = record {
    registers = λ w i. ground (arith, k.registers w i, k.registers w r);
    psw_byte = λ w. ground (arith, k.psw_byte w);
    busy = λ w. ground (arith, k.busy w);
    halted_same = ground (arith, k.halted_same);
  }

  pub discard_read_word-Keeps :
      (m a : ℕ) (c : Cpu B) → Keeps c₀ c → Keeps c₀ (discard_read_word m a c).1
  unfolding discard_read_word bus_read_word sample_requests
  discard_read_word-Keeps m a c k = record {
    registers = λ w i. ground (arith, k.registers w i);
    psw_byte = λ w. ground (arith, k.psw_byte w);
    busy = λ w. ground (arith, k.busy w);
    halted_same = ground (arith, k.halted_same);
  }

  pub read_byte_op-Keeps : (m r a : ℕ) (c : Cpu B) → Keeps c₀ c → Keeps c₀ (read_byte_op m r a c).1
  unfolding read_byte_op bus_read_byte sample_requests
  read_byte_op-Keeps m r a c k = record {
    registers = λ w i. ground (arith, k.registers w i, k.registers w r);
    psw_byte = λ w. ground (arith, k.psw_byte w);
    busy = λ w. ground (arith, k.busy w);
    halted_same = ground (arith, k.halted_same);
  }

  pub write_byte_op-Keeps :
      (m r a v : ℕ) (c : Cpu B) → Keeps c₀ c → Keeps c₀ (write_byte_op m r a v c).1
  unfolding write_byte_op
  write_byte_op-Keeps m r a v c k = record {
    registers = λ w i. ground (arith, k.registers w i, k.registers w r);
    psw_byte = λ w. ground (arith, k.psw_byte w);
    busy = λ w. ground (arith, k.busy w);
    halted_same = ground (arith, k.halted_same);
  }

  pub discard_read_byte-Keeps :
      (m a : ℕ) (c : Cpu B) → Keeps c₀ c → Keeps c₀ (discard_read_byte m a c).1
  unfolding discard_read_byte bus_read_byte sample_requests
  discard_read_byte-Keeps m a c k = record {
    registers = λ w i. ground (arith, k.registers w i);
    psw_byte = λ w. ground (arith, k.psw_byte w);
    busy = λ w. ground (arith, k.busy w);
    halted_same = ground (arith, k.halted_same);
  }

  pub datio_begin-Keeps : (m : ℕ) (c : Cpu B) → Keeps c₀ c → Keeps c₀ (datio_begin m c).1
  unfolding datio_begin
  datio_begin-Keeps m c k = record {
    registers = λ w i. ground (arith, k.registers w i);
    psw_byte = λ w. ground (arith, k.psw_byte w);
    busy = λ w. ground (arith, k.busy w);
    halted_same = ground (arith, k.halted_same);
  }

  pub datio_end-Keeps : (m : ℕ) (c : Cpu B) → Keeps c₀ c → Keeps c₀ (datio_end m c).1
  unfolding datio_end
  datio_end-Keeps m c k = record {
    registers = λ w i. ground (arith, k.registers w i);
    psw_byte = λ w. ground (arith, k.psw_byte w);
    busy = λ w. ground (arith, k.busy w);
    halted_same = ground (arith, k.halted_same);
  }

  pub push-Keeps : (v : ℕ) (c : Cpu B) → Keeps c₀ c → Keeps c₀ (push v c).1
  unfolding push
  push-Keeps v c k = record {
    registers = λ w i. ground (arith, k.registers w i);
    psw_byte = λ w. ground (arith, k.psw_byte w);
    busy = λ w. ground (arith, k.busy w);
    halted_same = ground (arith, k.halted_same);
  }

  pub pop-Keeps : (c : Cpu B) → Keeps c₀ c → Keeps c₀ (pop c).1
  unfolding pop bus_read_word sample_requests
  pop-Keeps c k = record {
    registers = λ w i. ground (arith, k.registers w i);
    psw_byte = λ w. ground (arith, k.psw_byte w);
    busy = λ w. ground (arith, k.busy w);
    halted_same = ground (arith, k.halted_same);
  }

  pub word_operands-Keeps : (c : Cpu B) → Keeps c₀ c → Keeps c₀ (word_operands c).1
  unfolding word_operands
  word_operands-Keeps c k =
      search (word_source_after-Keeps, get_word_addr-Keeps, read_word_op-Keeps) depth 8

  pub byte_operands-Keeps : (c : Cpu B) → Keeps c₀ c → Keeps c₀ (byte_operands c).1
  unfolding byte_operands
  byte_operands-Keeps c k =
      search (byte_source_after-Keeps, get_byte_addr-Keeps, read_byte_op-Keeps) depth 8

-- The rules that take a handler apart.
pub ruleset keeping = (
  start-Keeps, assign_r, pass_time, assign_psw, set_c-Keeps, set_v-Keeps, set_nz_word-Keeps,
  set_nz_byte-Keeps, get_c-Keeps, set_v_of_nc-Keeps, get_word_addr-Keeps, get_byte_addr-Keeps,
  read_word_op-Keeps, read_byte_op-Keeps, write_word_op-Keeps, write_byte_op-Keeps,
  discard_read_word-Keeps, discard_read_byte-Keeps, datio_begin-Keeps, datio_end-Keeps, push-Keeps,
  pop-Keeps, word_operands-Keeps, byte_operands-Keeps, byte_source_after-Keeps,
)
