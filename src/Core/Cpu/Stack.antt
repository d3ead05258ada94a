-- ===== src/Core/Cpu/Stack.antt =====
-- The stack of src/core/src/cpu.c and src/core/src/cpu_ops.c: what is pushed is popped, RTS returns
-- from JSR, and RTI from an interrupt.
use ms.Base.{
  ℕ, ◌+◌, ◌-◌, ◌<◌, ◌≡◌, ◌≢◌, refl, ◌∙◌, ap, Bool, true, false, ◌==◌, store, u16, low, arith,
  has_bit, Bool-cases, inl, inr,
}
use ms.Core.Cpu.{Cpu, Bus, Event, evt_trap, sample_requests, bus_read_word}
use ms.Core.Cpu.Address.{push, pop, dst_mode, dst_reg, src_reg, get_word_addr}
use ms.Core.Cpu.Control.{op_jsr, op_rts, op_rti}
use ms.Core.Cpu.Interrupts.{cpu_push, service_interrupt}

-- The words of the memory that the stack lies in, as the bus reads and writes them: even addresses
-- with memory behind them.
pub record Ram {B : Type 0} ⦃bus : Bus B⦄ (load : B → ℕ → ℕ) (in_ram : ℕ → Bool) : Type 0 where
  pub reads : (b : B) (a : ℕ) → in_ram a ≡ true → bus.read_word b a ≡ (load b a, b)
  pub writes : (b : B) (a v : ℕ) → in_ram a ≡ true → v < 65536 → load (bus.write_word b a v) a ≡ v
  pub others :
      (b : B) (a v a' : ℕ)
      → in_ram a ≡ true
      → in_ram a' ≡ true
      → a' ≢ a
      → load (bus.write_word b a v) a' ≡ load b a'
  pub quiet : (b : B) (a a' : ℕ) → in_ram a' ≡ true → load (bus.read_word b a).1 a' ≡ load b a'
  pub traced : (b : B) (e : Event) (a' : ℕ) → in_ram a' ≡ true → load (bus.event b e) a' ≡ load b a'

-- The word below the one at `sp`.
abbrev pub below : ℕ → ℕ
below sp = u16 (sp + 65536 - 2)

module _ {B : Type 0} ⦃bus : Bus B⦄ where
  -- After the entry of an interrupt, and after the operand of JSR.
  abbrev pub interrupted : ℕ → Cpu B → Cpu B
  interrupted vector c = (service_interrupt vector c).1

  abbrev pub called : Cpu B → Cpu B
  called c = (get_word_addr (dst_mode c.instruction) (dst_reg c.instruction) c).1

module _ {B : Type 0} ⦃bus : Bus B⦄ (load : B → ℕ → ℕ) (in_ram : ℕ → Bool)
    (ram : Ram load in_ram) where
  -- A pop in RAM: the word at SP, and SP past it.
  pop_lem : (c : Cpu B) → in_ram (c.r 6) ≡ true → (pop c).0 ≡ load c.board (c.r 6)
  unfolding pop bus_read_word sample_requests
  pop_lem c h = ap (λ s. s.0) (ram.reads c.board (c.r 6) h)

  pop-board : (c : Cpu B) → in_ram (c.r 6) ≡ true → (pop c).1.board ≡ c.board
  unfolding pop bus_read_word sample_requests
  pop-board c h = ap (λ s. s.1) (ram.reads c.board (c.r 6) h)

  pop-r : (c : Cpu B) → (pop c).1.r ≡ store c.r 6 (u16 (c.r 6 + 2))
  unfolding pop bus_read_word sample_requests
  pop-r c = refl

  -- A push and a pop give the word back, and leave every register as it was.
  pub pop-push :
      (v : ℕ) (c : Cpu B)
      → v < 65536
      → c.r 6 < 65536
      → in_ram (below (c.r 6)) ≡ true
      → ((pop (push v c).1).0 ≡ v) × ((i : ℕ) → (pop (push v c).1).1.r i ≡ c.r i)
  unfolding push
  pop-push v c hv hr h =
      let d = (push v c).1 in
      let w = ram.writes c.board (below (c.r 6)) (u16 v) h (omega arith) in
      let e = pop_lem d h in (omega (arith, w, e), λ i. ground (arith, ap (λ f. f i) (pop-r d)))

  -- What RTI takes off the stack.
  rti_lem :
      (d : Cpu B)
      → in_ram (d.r 6) ≡ true
      → in_ram (u16 (d.r 6 + 2)) ≡ true
      → ((op_rti d).1.r 7 ≡ u16 (load d.board (d.r 6)))
        × ((op_rti d).1.psw ≡ low (load d.board (u16 (d.r 6 + 2))))
        × ((op_rti d).1.r 6 ≡ u16 (u16 (d.r 6 + 2) + 2))
  unfolding op_rti pop bus_read_word sample_requests
  rti_lem d h1 h2 = rw (ram.reads d.board (d.r 6) h1) (
      rw (ram.reads d.board (u16 (d.r 6 + 2)) h2)
        (elim (Bool-cases (has_bit (low (load d.board (u16 (d.r 6 + 2)))) 4)) [
          | inl t ↦ rw t (refl, refl, refl)
          | inr t ↦ rw t (refl, refl, refl)
        ]))

  -- The two words that the entry of an interrupt leaves on the stack.
  pub pushed :
      (vector : ℕ) (c : Cpu B)
      → c.r 7 < 65536
      → c.psw < 256
      → in_ram (below (c.r 6)) ≡ true
      → in_ram (below (below (c.r 6))) ≡ true
      → (load (interrupted vector c).board (below (below (c.r 6))) ≡ c.r 7)
        × (load (interrupted vector c).board (below (c.r 6)) ≡ c.psw)
  unfolding service_interrupt cpu_push sample_requests
  pushed vector c hp hw h1 h2 =
      let b = below (c.r 6) in
      let a = below (below (c.r 6)) in
      let traced = bus.event (bus.read_word c.board vector).1 (evt_trap (low vector)) in
      let first = bus.write_word traced b (u16 c.psw) in
      let second = bus.write_word first a (u16 (c.r 7)) in
      let pc : u16 (c.r 7) ≡ c.r 7 = omega arith in
      let psw : u16 c.psw ≡ c.psw = omega arith in
      (
        ram.quiet second (u16 (vector + 2)) a h2
            ∙ ram.writes first a (u16 (c.r 7)) h2 (omega arith)
            ∙ pc,
        ram.quiet second (u16 (vector + 2)) b h1
            ∙ ram.others first a (u16 (c.r 7)) b h2 h1 (λ e. absurd (omega arith))
            ∙ ram.writes traced b (u16 c.psw) h1 (omega arith)
            ∙ psw,
      )

  -- An interrupt, and a handler that comes to RTI with SP and the two words on the stack as they were: PC,
  -- the status word and SP are those of the interrupted program.
  pub rti-service_interrupt :
      (vector : ℕ) (c d : Cpu B)
      → ((i : ℕ) → c.r i < 65536)
      → c.psw < 256
      → in_ram (below (c.r 6)) ≡ true
      → in_ram (below (below (c.r 6))) ≡ true
      → d.r 6 ≡ (interrupted vector c).r 6
      → load d.board (below (below (c.r 6)))
        ≡ load (interrupted vector c).board (below (below (c.r 6)))
      → load d.board (below (c.r 6)) ≡ load (interrupted vector c).board (below (c.r 6))
      → ((op_rti d).1.r 7 ≡ c.r 7) × ((op_rti d).1.psw ≡ c.psw) × ((op_rti d).1.r 6 ≡ c.r 6)
  unfolding service_interrupt cpu_push sample_requests
  rti-service_interrupt vector c d hr hw h1 h2 sp top next =
      let a = below (below (c.r 6)) in
      let at_sp : d.r 6 ≡ a = sp in
      let up : u16 (d.r 6 + 2) ≡ below (c.r 6) = omega (arith, hr 6, at_sp) in
      let (pc, psw) = pushed vector c (hr 7) hw h1 h2 in
      let (e7, ew, e6) = rti_lem d (ap in_ram at_sp ∙ h2) (ap in_ram up ∙ h1) in
      (
        e7 ∙ ap (λ x. u16 (load d.board x)) at_sp ∙ ap u16 (top ∙ pc) ∙ omega (arith, hr 7),
        ew ∙ ap (λ x. low (load d.board x)) up ∙ ap low (next ∙ psw) ∙ omega arith,
        e6 ∙ omega (arith, hr 6, at_sp),
      )

  -- The registers after JSR and the word it pushes, for an address `a`.
  abbrev linked : ℕ → ℕ → (ℕ → ℕ) → ℕ → ℕ
  linked l a r = store (store (store r 6 (below (r 6))) l (u16 (r 7))) 7 (u16 a)

  jsr_lem :
      (c : Cpu B)
      → (dst_mode c.instruction == 0) ≡ false
      → src_reg c.instruction ≢ 6
      → (called c).r 7 < 65536
      → (called c).r (src_reg c.instruction) < 65536
      → in_ram (below ((called c).r 6)) ≡ true
      → ((op_jsr c).1.r
          ≡ linked
              (src_reg c.instruction)
              (get_word_addr (dst_mode c.instruction) (dst_reg c.instruction) c).0
              (called c).r)
        × (load (op_jsr c).1.board (below ((called c).r 6)) ≡ (called c).r (src_reg c.instruction))
  unfolding op_jsr push
  jsr_lem c m l6 h7 hl h =
      let v = (called c).r (src_reg c.instruction) in
      rw m (
        refl,
        ram.writes (called c).board (below ((called c).r 6)) (u16 v) h (omega arith) ∙ omega arith,
      )

  rts_lem :
      (d : Cpu B) (l : ℕ)
      → in_ram (d.r 6) ≡ true
      → dst_reg d.instruction ≡ l
      → (op_rts d).1.r
        ≡ store
            (store (store d.r 7 (u16 (d.r l))) 6 (u16 (d.r 6 + 2)))
            l
            (u16 (load d.board (d.r 6)))
  unfolding op_rts pop bus_read_word sample_requests
  rts_lem d l h e = rw e (rw (ram.reads d.board (d.r 6) h) refl)

  -- JSR to an address in memory with a link register other than SP, and a subroutine that comes to its
  -- RTS with the link register (if it is not PC), SP and the word on the stack as they were: PC, the link
  -- register and SP are as after JSR's operand.
  pub rts-jsr :
      (c d : Cpu B)
      → (dst_mode c.instruction == 0) ≡ false
      → src_reg c.instruction ≢ 6
      → ((i : ℕ) → (called c).r i < 65536)
      → in_ram (below ((called c).r 6)) ≡ true
      → dst_reg d.instruction ≡ src_reg c.instruction
      → (src_reg c.instruction ≢ 7
          → d.r (src_reg c.instruction) ≡ (op_jsr c).1.r (src_reg c.instruction))
      → d.r 6 ≡ (op_jsr c).1.r 6
      → load d.board (below ((called c).r 6)) ≡ load (op_jsr c).1.board (below ((called c).r 6))
      → ((op_rts d).1.r 7 ≡ (called c).r 7)
        × ((op_rts d).1.r (src_reg c.instruction) ≡ (called c).r (src_reg c.instruction))
        × ((op_rts d).1.r 6 ≡ (called c).r 6)
  rts-jsr c d m l6 hr h same link sp top =
      let l = src_reg c.instruction in
      let k = (called c).r in
      let a = (get_word_addr (dst_mode c.instruction) (dst_reg c.instruction) c).0 in
      let (er, ew) = jsr_lem c m l6 (hr 7) (hr l) h in
      let at_sp : d.r 6 ≡ below (k 6) = sp ∙ ap (λ f. f 6) er ∙ ground arith in
      let er' = rts_lem d l (ap in_ram at_sp ∙ h) same in
      let val : load d.board (d.r 6) ≡ k l = ap (load d.board) at_sp ∙ top ∙ ew in
      let back : l ≢ 7 → d.r l ≡ k 7 = λ ne. link ne ∙ ap (λ f. f l) er ∙ ground (arith, hr 7) in
      (
        ap (λ f. f 7) er' ∙ ground (arith, val, back, hr 7, hr l),
        ap (λ f. f l) er' ∙ ground (arith, val, hr l),
        ap (λ f. f 6) er' ∙ ground (arith, at_sp, hr 6),
      )
