-- ===== src/Core/Cpu/Delay.antt =====
-- The delay loop `SOB R,.` on op_sob of src/core/src/cpu_ops.c.
use ms.Base.{
  ℕ, zero, suc, ◌+◌, ◌-◌, ◌*◌, ◌%◌, ◌<◌, ◌≤◌, ◌≡◌, refl, ◌∙◌, ◌==◌, if◌then◌else◌, store, u16,
  arith,
}
use native.Mathlib.Decide.{dec_lt}
use ms.Core.Cpu.{Cpu, Bus}
use ms.Core.Cpu.Address.{src_reg}
use ms.Core.Cpu.Branch.{op_sob}

module _ {B : Type 0} ⦃bus : Bus B⦄ where
  -- PC past the opcode, and the instruction.
  abbrev pub round : Cpu B → Cpu B
  round c = (op_sob (record c { r = store c.r 7 (u16 (c.r 7 + 2)) })).1

  -- Rounds of the loop, with the clocks they take.
  abbrev pub spin : ℕ → Cpu B → ℕ × Cpu B
  spin zero c = (0, c)
  spin (suc k) c = let d = round c in let (t, e) = spin k d in (d.cycles + t, e)

  -- The instruction at `a` on a register that holds `n`.
  pub record At (reg a n : ℕ) (c : Cpu B) : Type 0 where
    pub opcode : c.instruction ≡ 0o77001 + reg * 64
    pub pc : c.r 7 ≡ a
    pub count : c.r reg ≡ n

  -- Before the last round PC is back at the instruction.
  round-At :
      (reg a n : ℕ) (c : Cpu B)
      → reg < 7
      → a < 65534
      → 1 < n
      → n < 65536
      → At reg a n c
      → At reg a (n - 1) (round c) × ((round c).cycles ≡ 18)
  unfolding op_sob
  round-At reg a n c hr ha h1 hn h =
      let er : src_reg c.instruction ≡ reg = omega (arith, h.opcode) in
      let eo : c.instruction % 64 ≡ 1 = omega (arith, h.opcode) in
      (
        record {
          opcode = ground (arith, er, eo, h.opcode);
          pc = ground (arith, er, eo, h.pc, h.count);
          count = ground (arith, er, eo, h.pc, h.count);
        },
        ground arith,
      )

  round-last :
      (reg a : ℕ) (c : Cpu B)
      → reg < 7
      → a < 65534
      → At reg a 1 c
      → At reg (a + 2) 0 (round c) × ((round c).cycles ≡ 18)
  unfolding op_sob
  round-last reg a c hr ha h =
      let er : src_reg c.instruction ≡ reg = omega (arith, h.opcode) in
      (
        record {
          opcode = ground (arith, er, h.opcode);
          pc = ground (arith, er, h.pc, h.count);
          count = ground (arith, er, h.pc, h.count);
        },
        ground arith,
      )

  moved : (reg a n a' n' : ℕ) (c : Cpu B) → a ≡ a' → n ≡ n' → At reg a n c → At reg a' n' c
  moved reg a n a' n' c ea en h = record { opcode = h.opcode; pc = h.pc ∙ ea; count = h.count ∙ en }

  -- `SOB R,.` on a register that holds n, from 1 to 65535: for n - 1 rounds PC is back at the
  -- instruction, and after n rounds it is past it, with the register at 0 and 18 clocks (six microcycles)
  -- for each round.
  pub spin-At :
      (reg a n k : ℕ) (c : Cpu B)
      → reg < 7
      → a < 65534
      → 0 < n
      → n < 65536
      → k ≤ n
      → At reg a n c
      → At reg (if k == n then a + 2 else a) (n - k) (spin k c).1 × ((spin k c).0 ≡ 18 * k)
  spin-At reg a n zero c hr ha h0 hn hk h =
      (moved reg a n _ _ c (ground arith) (omega arith) h, refl)
  spin-At reg a n (suc k) c hr ha h0 hn hk h = elim (dec_lt 1 n) [
    | no p ↦
        let z : k ≡ 0 = omega arith in
        let one : n ≡ 1 = omega arith in
        let (last, time) = round-last reg a c hr ha (moved reg a n a 1 c refl one h) in
        rw z (rw one (last, omega (arith, time)))
    | yes p ↦
        let (next, time) = round-At reg a n c hr ha p hn h in
        let (rest, times) =
          spin-At reg a (n - 1) k (round c) hr ha (omega arith) (omega arith) (omega arith) next in
        (
          moved reg _ _ _ _ (spin k (round c)).1 (ground arith) (omega arith) rest,
          omega (arith, time, times),
        )
  ]
