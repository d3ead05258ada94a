-- ===== src/Core/Cpu/KeptControl.antt =====
-- The branches and the control handlers of src/core/src/cpu_ops.c keep what every instruction keeps.
use ms.Base.{
  ℕ, ◌*◌, ◌%◌, ◌<◌, Bool, arith, ◌==◌, Bool-cases, inl, inr, true, false, get_or, ltb, ◌&&◌, ◌-◌,
  bit_and, bit_or, all_below, all_below_sound, refl, low, has_bit, ◌≡◌,
}
use ms.Core.Cpu.{Cpu, Bus, board_event, evt_halt, set_r}
use ms.Core.Cpu.Registers.{Registers}
use ms.Core.Cpu.Kept.{
  Kept, Keeps, keeping, timed, assign_r, push-Keeps, pop-Keeps, get_word_addr-Keeps,
}
use ms.Core.Cpu.Address.{dst_mode, dst_reg, src_reg, get_word_addr, push, pop, microcycle}
use ms.Core.Cpu.Branch.{
  apply_branch, op_br, op_bne, op_beq, op_bpl, op_bmi, op_bvc, op_bvs, op_bge, op_blt, op_bgt,
  op_ble, op_bhi, op_blos, op_bhis, op_blo, op_sob,
}
use ms.Core.Cpu.Control.{
  clear_low, set_low, jmp_microcycles, jsr_microcycles, op_unknown, op_nop, op_halt, op_wait,
  op_reset, op_rti, op_rtt, op_bpt, op_iot, op_emt, op_trap, op_mfpt, op_jmp, op_jsr, op_rts,
  op_ccc, op_scc,
}

jmp_time : (m : ℕ) → m < 8 → (m == 0) ≡ false → 0 < get_or jmp_microcycles m 0 * microcycle
jmp_time m h e = ground arith

jsr_time : (m : ℕ) → m < 8 → (m == 0) ≡ false → 0 < get_or jsr_microcycles m 0 * microcycle
jsr_time m h e = ground arith

-- Four bits stay four bits.
nibble : ℕ → ℕ → Bool
nibble x m = ltb (bit_and x (15 - m)) 16 && ltb (bit_or x m) 16

nibbles : all_below 16 (λ x. all_below 16 (nibble x)) ≡ true
unfolding nibble
nibbles = refl

nibble_lem : (x m : ℕ) → x < 16 → m < 16 → (bit_and x (15 - m) < 16) × (bit_or x m < 16)
unfolding nibble
nibble_lem x m hx hm =
    let h =
      all_below_sound 16 (nibble x) m
        (all_below_sound 16 (λ y. all_below 16 (nibble y)) x nibbles hx) hm in
    ground arith

clear_low-lt : (p m : ℕ) → m < 16 → p < 256 → clear_low p m < 256
clear_low-lt p m l h = omega (arith, (nibble_lem (p % 16) m (omega arith) l).0)

set_low-lt : (p m : ℕ) → m < 16 → p < 256 → set_low p m < 256
set_low-lt p m l h = omega (arith, (nibble_lem (p % 16) m (omega arith) l).1)

module _ {B : Type 0} ⦃bus : Bus B⦄ {c₀ : Cpu B} where
  -- What a handler changes of the registers and the status word; the time is set.
  changed :
      (r : ℕ → ℕ) (p n m : ℕ) (c : Cpu B)
      → Keeps c₀ c
      → (Registers c₀ → (i : ℕ) → r i < 65536)
      → (c₀.psw < 256 → p < 256)
      → 0 < m
      → Kept c₀ r p m c.halted
  changed r p n m c k hr hp hm = record {
    registers = hr;
    psw_byte = hp;
    busy = λ w. hm;
    halted_same = k.halted_same;
  }

  pub apply_branch-Keeps : (take : Bool) (c : Cpu B) → Keeps c₀ c → Keeps c₀ (apply_branch take c).1
  unfolding apply_branch
  apply_branch-Keeps true c k =
      changed _ c.psw 0 12 c k (λ w i. ground (arith, k.registers w i)) k.psw_byte (omega arith)
  apply_branch-Keeps false c k = changed c.r c.psw 0 12 c k k.registers k.psw_byte (omega arith)

  pub op_sob-Keeps : (c : Cpu B) → Keeps c₀ c → Keeps c₀ (op_sob c).1
  unfolding op_sob
  op_sob-Keeps c k = record {
    registers = λ w i. ground (arith, k.registers w i);
    psw_byte = λ w. ground (arith, k.psw_byte w);
    busy = λ w. ground arith;
    halted_same = ground (arith, k.halted_same);
  }

  pub op_halt-Keeps : (c : Cpu B) → Keeps c₀ c → Keeps c₀ (op_halt c).1
  unfolding op_halt
  op_halt-Keeps c k =
      let e = (board_event evt_halt c).1 in
      let d = (push c.psw e).1 in
      let l = push-Keeps (d.r 7) d (push-Keeps c.psw e k) in
      changed _ 224 0 42 (push (d.r 7) d).1 l (λ w i. ground (arith, l.registers w i))
        (λ w. omega arith) (omega arith)

  -- The two words that a return takes off the stack.
  returned : (c : Cpu B) → Keeps c₀ c → (let (pc, d) = pop c in Keeps c₀ (pop (set_r 7 pc d).1).1)
  returned c k =
      let (pc, d) = pop c in
      pop-Keeps (set_r 7 pc d).1 (assign_r d.r d.psw d.cycles d.halted 7 pc (pop-Keeps c k))

  pub op_rti-Keeps : (c : Cpu B) → Keeps c₀ c → Keeps c₀ (op_rti c).1
  unfolding op_rti
  op_rti-Keeps c k =
      let (pc, d) = pop c in
      let (psw, e) = pop (set_r 7 pc d).1 in
      let l = returned c k in
      let m = changed e.r (low psw) 0 24 e l l.registers (λ w. omega arith) (omega arith) in
      elim (Bool-cases (has_bit (low psw) 4)) [ inl t ↦ rw t m | inr t ↦ rw t m ]

  pub op_rtt-Keeps : (c : Cpu B) → Keeps c₀ c → Keeps c₀ (op_rtt c).1
  unfolding op_rtt
  op_rtt-Keeps c k =
      let (pc, d) = pop c in
      let (psw, e) = pop (set_r 7 pc d).1 in
      let l = returned c k in
      changed e.r (low psw) 0 24 e l l.registers (λ w. omega arith) (omega arith)

  pub op_mfpt-Keeps : (c : Cpu B) → Keeps c₀ c → Keeps c₀ (op_mfpt c).1
  unfolding op_mfpt
  op_mfpt-Keeps c k =
      changed _ c.psw 0 15 c k (λ w i. ground (arith, k.registers w i)) k.psw_byte (omega arith)

  pub op_rts-Keeps : (c : Cpu B) → Keeps c₀ c → Keeps c₀ (op_rts c).1
  unfolding op_rts
  op_rts-Keeps c k =
      let a = (set_r 7 (c.r (dst_reg c.instruction)) c).1 in
      let d = (pop a).1 in
      let l =
        pop-Keeps a (assign_r c.r c.psw c.cycles c.halted 7 (c.r (dst_reg c.instruction)) k) in
      changed _ d.psw 0 21 d l (λ w i. ground (arith, l.registers w i)) l.psw_byte (omega arith)

  pub op_jmp-Keeps : (c : Cpu B) → Keeps c₀ c → Keeps c₀ (op_jmp c).1
  unfolding op_jmp
  op_jmp-Keeps c k =
      let m = dst_mode c.instruction in
      let (a, d) = get_word_addr m (dst_reg c.instruction) c in
      let l = get_word_addr-Keeps m (dst_reg c.instruction) c k in
      elim (Bool-cases (m == 0)) [
        | inl e ↦ rw e k
        | inr e ↦ rw e (
            changed _ d.psw 0 (get_or jmp_microcycles m 0 * microcycle) d l
              (λ w i. ground (arith, l.registers w i)) l.psw_byte (jmp_time m (omega arith) e))
      ]

  pub op_jsr-Keeps : (c : Cpu B) → Keeps c₀ c → Keeps c₀ (op_jsr c).1
  unfolding op_jsr
  op_jsr-Keeps c k =
      let m = dst_mode c.instruction in
      let (a, d) = get_word_addr m (dst_reg c.instruction) c in
      let f = (push (d.r (src_reg c.instruction)) d).1 in
      let l =
        push-Keeps (d.r (src_reg c.instruction)) d
          (get_word_addr-Keeps m (dst_reg c.instruction) c k) in
      elim (Bool-cases (m == 0)) [
        | inl e ↦ rw e k
        | inr e ↦ rw e (
            changed _ f.psw 0 (get_or jsr_microcycles m 0 * microcycle) f l
              (λ w i. ground (arith, l.registers w i)) l.psw_byte (jsr_time m (omega arith) e))
      ]

  pub op_ccc-Keeps : (c : Cpu B) → Keeps c₀ c → Keeps c₀ (op_ccc c).1
  unfolding op_ccc
  op_ccc-Keeps c k =
      changed c.r _ 0 18 c k k.registers
        (λ w. clear_low-lt c.psw (c.instruction % 16) (omega arith) (k.psw_byte w)) (omega arith)

  pub op_scc-Keeps : (c : Cpu B) → Keeps c₀ c → Keeps c₀ (op_scc c).1
  unfolding op_scc
  op_scc-Keeps c k =
      changed c.r _ 0 18 c k k.registers
        (λ w. set_low-lt c.psw (c.instruction % 16) (omega arith) (k.psw_byte w)) (omega arith)

  pub op_br-Keeps : (c : Cpu B) → Keeps c₀ c → Keeps c₀ (op_br c).1
  unfolding op_br
  op_br-Keeps c k = apply_branch-Keeps _ c k

  pub op_bne-Keeps : (c : Cpu B) → Keeps c₀ c → Keeps c₀ (op_bne c).1
  unfolding op_bne
  op_bne-Keeps c k = apply_branch-Keeps _ c k

  pub op_beq-Keeps : (c : Cpu B) → Keeps c₀ c → Keeps c₀ (op_beq c).1
  unfolding op_beq
  op_beq-Keeps c k = apply_branch-Keeps _ c k

  pub op_bpl-Keeps : (c : Cpu B) → Keeps c₀ c → Keeps c₀ (op_bpl c).1
  unfolding op_bpl
  op_bpl-Keeps c k = apply_branch-Keeps _ c k

  pub op_bmi-Keeps : (c : Cpu B) → Keeps c₀ c → Keeps c₀ (op_bmi c).1
  unfolding op_bmi
  op_bmi-Keeps c k = apply_branch-Keeps _ c k

  pub op_bvc-Keeps : (c : Cpu B) → Keeps c₀ c → Keeps c₀ (op_bvc c).1
  unfolding op_bvc
  op_bvc-Keeps c k = apply_branch-Keeps _ c k

  pub op_bvs-Keeps : (c : Cpu B) → Keeps c₀ c → Keeps c₀ (op_bvs c).1
  unfolding op_bvs
  op_bvs-Keeps c k = apply_branch-Keeps _ c k

  pub op_bge-Keeps : (c : Cpu B) → Keeps c₀ c → Keeps c₀ (op_bge c).1
  unfolding op_bge
  op_bge-Keeps c k = apply_branch-Keeps _ c k

  pub op_blt-Keeps : (c : Cpu B) → Keeps c₀ c → Keeps c₀ (op_blt c).1
  unfolding op_blt
  op_blt-Keeps c k = apply_branch-Keeps _ c k

  pub op_bgt-Keeps : (c : Cpu B) → Keeps c₀ c → Keeps c₀ (op_bgt c).1
  unfolding op_bgt
  op_bgt-Keeps c k = apply_branch-Keeps _ c k

  pub op_ble-Keeps : (c : Cpu B) → Keeps c₀ c → Keeps c₀ (op_ble c).1
  unfolding op_ble
  op_ble-Keeps c k = apply_branch-Keeps _ c k

  pub op_bhi-Keeps : (c : Cpu B) → Keeps c₀ c → Keeps c₀ (op_bhi c).1
  unfolding op_bhi
  op_bhi-Keeps c k = apply_branch-Keeps _ c k

  pub op_blos-Keeps : (c : Cpu B) → Keeps c₀ c → Keeps c₀ (op_blos c).1
  unfolding op_blos
  op_blos-Keeps c k = apply_branch-Keeps _ c k

  pub op_bhis-Keeps : (c : Cpu B) → Keeps c₀ c → Keeps c₀ (op_bhis c).1
  unfolding op_bhis
  op_bhis-Keeps c k = apply_branch-Keeps _ c k

  pub op_blo-Keeps : (c : Cpu B) → Keeps c₀ c → Keeps c₀ (op_blo c).1
  unfolding op_blo
  op_blo-Keeps c k = apply_branch-Keeps _ c k

  pub op_unknown-Keeps : (c : Cpu B) → Keeps c₀ c → Keeps c₀ (op_unknown c).1
  unfolding op_unknown
  op_unknown-Keeps c k = search keeping depth 20

  pub op_nop-Keeps : (c : Cpu B) → Keeps c₀ c → Keeps c₀ (op_nop c).1
  unfolding op_nop
  op_nop-Keeps c k = timed c.r c.psw c.cycles c.halted _ (omega arith) k

  pub op_wait-Keeps : (c : Cpu B) → Keeps c₀ c → Keeps c₀ (op_wait c).1
  unfolding op_wait
  op_wait-Keeps c k = timed c.r c.psw c.cycles c.halted _ (omega arith) k

  pub op_reset-Keeps : (c : Cpu B) → Keeps c₀ c → Keeps c₀ (op_reset c).1
  unfolding op_reset
  op_reset-Keeps c k = timed c.r c.psw c.cycles c.halted _ (omega arith) k

  pub op_bpt-Keeps : (c : Cpu B) → Keeps c₀ c → Keeps c₀ (op_bpt c).1
  unfolding op_bpt
  op_bpt-Keeps c k = timed c.r c.psw c.cycles c.halted _ (omega arith) k

  pub op_iot-Keeps : (c : Cpu B) → Keeps c₀ c → Keeps c₀ (op_iot c).1
  unfolding op_iot
  op_iot-Keeps c k = timed c.r c.psw c.cycles c.halted _ (omega arith) k

  pub op_emt-Keeps : (c : Cpu B) → Keeps c₀ c → Keeps c₀ (op_emt c).1
  unfolding op_emt
  op_emt-Keeps c k = timed c.r c.psw c.cycles c.halted _ (omega arith) k

  pub op_trap-Keeps : (c : Cpu B) → Keeps c₀ c → Keeps c₀ (op_trap c).1
  unfolding op_trap
  op_trap-Keeps c k = timed c.r c.psw c.cycles c.halted _ (omega arith) k
