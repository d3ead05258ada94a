-- ===== src/Core/Cpu/Wake.antt =====
-- How a request that the board makes reaches its handler in src/core/src/cpu.c, when the processor waits.
use ms.Base.{
  ℕ, ◌+◌, ◌<◌, ◌≤◌, ◌≡◌, ◌≢◌, ◌⊎◌, inl, inr, refl, ap, sym, subst, ◌∙◌, Bool, true, false, some,
  ltb, if◌then◌else◌, lt→ltb, eq→==, ltb→lt, ltb_false→le, store, u16, low, arith,
}
use mathlib.Core.Option.{some_inj}
use ms.Core.Cpu.{Cpu, Bus, evt_trap, first_request, sample_requests, encoder_order}
use ms.Core.Cpu.Interrupts.{
  Hooks, get_priority, check_interrupts, cpu_push, if_pending, interrupt, take_request,
  service_interrupt,
}
use ms.Core.Cpu.Valid.{take_request_lem, decide, looked, chosen}
use ms.Core.Cpu.Stack.{Ram, below, interrupted, pushed}
use ms.Core.Cpu.Requests.{
  Line, code_of, level_of, code_lt, code_nonzero, code_level_lem, sample_requests_lem,
}

-- No signal of HALT, no error and no trap waits for service.
pub record NoTraps {B : Type 0} (c : Cpu B) : Type 0 where
  pub halt_clear : c.irq_halt ≡ false
  pub bus_error_clear : c.irq_bus_error ≡ false
  pub reserved_clear : c.irq_reserved ≡ false
  pub bpt_clear : c.irq_bpt ≡ false
  pub iot_clear : c.irq_iot ≡ false
  pub emt_clear : c.irq_emt ≡ false
  pub trap_clear : c.irq_trap ≡ false
  pub tbit_clear : c.irq_tbit ≡ false

module _ {B : Type 0} ⦃bus : Bus B⦄ (hooks : Hooks B) where
  if_pending-clear :
      (irq : Cpu B → Bool) (clear : Cpu B → Cpu B) (serve : Cpu B → Unit {0} × Cpu B)
      (rest : Cpu B → Bool × Cpu B) (c : Cpu B)
      → irq c ≡ false
      → if_pending irq clear serve rest c ≡ rest c
  unfolding if_pending
  if_pending-clear irq clear serve rest c e = rw e refl

  check_interrupts-NoTraps :
      (c : Cpu B) → NoTraps c → check_interrupts hooks c ≡ take_request (get_priority c) c
  unfolding check_interrupts
  check_interrupts-NoTraps c n =
      if_pending-clear _ _ _ _ c n.halt_clear
      ∙ if_pending-clear _ _ _ _ c n.bus_error_clear
      ∙ if_pending-clear _ _ _ _ c n.reserved_clear
      ∙ if_pending-clear _ _ _ _ c n.bpt_clear
      ∙ if_pending-clear _ _ _ _ c n.iot_clear
      ∙ if_pending-clear _ _ _ _ c n.emt_clear
      ∙ if_pending-clear _ _ _ _ c n.trap_clear
      ∙ if_pending-clear _ _ _ _ c n.tbit_clear

  check_interrupts-request :
      (c : Cpu B)
      → NoTraps c
      → (let d = looked c in
          check_interrupts hooks c ≡ (
            if decide (get_priority c) d
            then (true, (service_interrupt (d.irq_virq_vec d.irq_seen) (chosen d)).1)
            else (false, d)))
  check_interrupts-request c n = check_interrupts-NoTraps c n ∙ take_request_lem (get_priority c) c

module _ {B : Type 0} ⦃bus : Bus B⦄ (load : B → ℕ → ℕ) (in_ram : ℕ → Bool)
    (ram : Ram load in_ram) where
  -- PC and the status word at the entry of a handler, from a vector that the stack does not run into.
  entry :
      (vector : ℕ) (c : Cpu B)
      → in_ram vector ≡ true
      → in_ram (u16 (vector + 2)) ≡ true
      → in_ram (below (c.r 6)) ≡ true
      → in_ram (below (below (c.r 6))) ≡ true
      → u16 (vector + 2) ≢ below (c.r 6)
      → u16 (vector + 2) ≢ below (below (c.r 6))
      → ((interrupted vector c).r 7 ≡ load c.board vector)
        × ((interrupted vector c).psw ≡ low (load c.board (u16 (vector + 2))))
  unfolding service_interrupt cpu_push sample_requests
  entry vector c h0 h2 hb ha nb na =
      let b = below (c.r 6) in
      let a = below (below (c.r 6)) in
      let v2 = u16 (vector + 2) in
      let traced = bus.event (bus.read_word c.board vector).1 (evt_trap (low vector)) in
      let first = bus.write_word traced b (u16 c.psw) in
      let second = bus.write_word first a (u16 (c.r 7)) in
      let got = ap (λ x. x.0) (ram.reads c.board vector h0) in
      let fits = bus.read_word_fits c.board vector in
      (
        omega (arith, got, fits),
        ap low (
            ap (λ x. x.0) (ram.reads second v2 h2)
            ∙ ram.others first a (u16 (c.r 7)) v2 ha h2 na
            ∙ ram.others traced b (u16 c.psw) v2 hb h2 nb
            ∙ ram.traced (bus.read_word c.board vector).1 (evt_trap (low vector)) v2 h2
            ∙ ram.quiet c.board vector v2 h2),
      )

  -- The board's request on a line that no other request is before.
  abbrev asking : Cpu B → Line → ℕ → Cpu B
  asking c l vector = record c {
    irq_virq = store c.irq_virq (code_of l) true;
    irq_virq_vec = store c.irq_virq_vec (code_of l) vector;
  }

  asking_lem :
      (c : Cpu B) (l : Line) (vector : ℕ)
      → interrupt c (code_of l) vector ≡ some (asking c l vector)
  unfolding interrupt
  asking_lem c l vector = rw (lt→ltb (code_of l) 16 (code_lt l)) refl

  seen_lem :
      (c : Cpu B) (l : Line) (vector : ℕ)
      → ((l' : Line) → c.irq_virq (code_of l') ≡ false)
      → first_request (asking c l vector).irq_virq encoder_order ≡ code_of l
  unfolding sample_requests
  seen_lem c l vector idle = elim (sample_requests_lem (asking c l vector)) [
    | inl (none, z) ↦ absurd (ground (arith, none l))
    | inr (m, e, r, first) ↦ ground (arith, idle m, e, r)
  ]

  -- A processor that has gone through its entry to a handler, from the state `c`.
  abbrev pub Entered : ℕ → Cpu B → Cpu B → Type 0
  Entered vector c e =
      (e.r 7 ≡ load c.board vector)
      × (e.psw ≡ low (load c.board (u16 (vector + 2))))
      × (load e.board (below (below (c.r 6))) ≡ c.r 7)
      × (load e.board (below (c.r 6)) ≡ c.psw)
      × (e.waiting ≡ false)

  -- The processor that has seen the request, and the one that takes it.
  abbrev seeing : Cpu B → Line → ℕ → Cpu B
  seeing c l vector = record (asking c l vector) { irq_seen = code_of l }

  looked_lem :
      (c : Cpu B) (l : Line) (vector : ℕ)
      → c.waiting ≡ true
      → ((l' : Line) → c.irq_virq (code_of l') ≡ false)
      → looked (asking c l vector) ≡ seeing c l vector
  unfolding sample_requests
  looked_lem c l vector w idle =
      let d = asking c l vector in
      ap (λ b. if b then (sample_requests d).1 else d) w
      ∙ ap (λ k. record d { irq_seen = k }) (seen_lem c l vector idle)

  decide_lem :
      (p : ℕ) (c : Cpu B) (l : Line) (vector : ℕ)
      → decide p (seeing c l vector) ≡ ltb p (level_of l)
  decide_lem p c l vector = rw (code_level_lem l) (rw (code_nonzero l) refl)

  vector_lem :
      (c : Cpu B) (l : Line) (vector : ℕ)
      → (seeing c l vector).irq_virq_vec (seeing c l vector).irq_seen ≡ vector
  vector_lem c l vector = rw (eq→== {a = code_of l} {b = code_of l} refl) refl

  asking-NoTraps : (c : Cpu B) (l : Line) (vector : ℕ) → NoTraps c → NoTraps (asking c l vector)
  asking-NoTraps c l vector n = record {
    halt_clear = n.halt_clear;
    bus_error_clear = n.bus_error_clear;
    reserved_clear = n.reserved_clear;
    bpt_clear = n.bpt_clear;
    iot_clear = n.iot_clear;
    emt_clear = n.emt_clear;
    trap_clear = n.trap_clear;
    tbit_clear = n.tbit_clear;
  }

  awake : (vector : ℕ) (c : Cpu B) → (interrupted vector c).waiting ≡ false
  unfolding service_interrupt
  awake vector c = refl

  abbrev Answered : Cpu B → Line → ℕ → Bool × Cpu B → Type 0
  Answered c l vector (taken, e) =
      ((get_priority c < level_of l) × (taken ≡ true) × Entered vector c e)
      ⊎ ((level_of l ≤ get_priority c)
          × (taken ≡ false)
          × (e.waiting ≡ true)
          × (e.r ≡ c.r)
          × (e.psw ≡ c.psw))

  answered :
      (c : Cpu B) (l : Line) (vector : ℕ)
      → c.waiting ≡ true
      → (b : Bool) → ltb (get_priority c) (level_of l) ≡ b
      → Entered vector c (interrupted vector (chosen (seeing c l vector)))
      → Answered c l vector (
          if b
          then (true, interrupted vector (chosen (seeing c l vector)))
          else (false, seeing c l vector))
  answered c l vector w true e h = inl (ltb→lt (get_priority c) (level_of l) e, refl, h)
  answered c l vector w false e h =
      inr (ltb_false→le (get_priority c) (level_of l) e, refl, w, refl, refl)

  module _ (hooks : Hooks B) where
    answer_lem :
        (c : Cpu B) (l : Line) (vector : ℕ)
        → NoTraps c
        → c.waiting ≡ true
        → ((l' : Line) → c.irq_virq (code_of l') ≡ false)
        → check_interrupts hooks (asking c l vector) ≡ (
            if ltb (get_priority c) (level_of l)
            then (true, interrupted vector (chosen (seeing c l vector)))
            else (false, seeing c l vector))
    answer_lem c l vector n w idle =
        check_interrupts-request hooks (asking c l vector) (asking-NoTraps c l vector n)
        ∙ ap
            (λ d.
              if decide (get_priority c) d
              then (true, (service_interrupt (d.irq_virq_vec d.irq_seen) (chosen d)).1)
              else (false, d))
            (looked_lem c l vector w idle)
        ∙ ap
            (λ b.
              if b
              then (
                true,
                (service_interrupt ((seeing c l vector).irq_virq_vec (seeing c l vector).irq_seen)
                    (chosen (seeing c l vector))).1,
              )
              else (false, seeing c l vector))
            (decide_lem (get_priority c) c l vector)
        ∙ ap
            (λ v.
              if ltb (get_priority c) (level_of l)
              then (true, (service_interrupt v (chosen (seeing c l vector))).1)
              else (false, seeing c l vector))
            (vector_lem c l vector)

    -- A processor that waits, with no trap and no request, is sent a request on one of the board's lines.
    -- If the line's level is above the processor's priority it wakes in the handler: PC and the status
    -- word are the two words of the vector, and those of the waiting program are on the stack. If not,
    -- it goes on waiting, with its registers and its status word as they were. The vector and the two
    -- words below SP are in RAM, and the vector's second word is not one of those two.
    pub check_interrupts-interrupt :
        (c d : Cpu B) (l : Line) (vector : ℕ)
        → NoTraps c
        → c.waiting ≡ true
        → ((l' : Line) → c.irq_virq (code_of l') ≡ false)
        → interrupt c (code_of l) vector ≡ some d
        → c.r 7 < 65536
        → c.psw < 256
        → in_ram vector ≡ true
        → in_ram (u16 (vector + 2)) ≡ true
        → in_ram (below (c.r 6)) ≡ true
        → in_ram (below (below (c.r 6))) ≡ true
        → u16 (vector + 2) ≢ below (c.r 6)
        → u16 (vector + 2) ≢ below (below (c.r 6))
        → let (taken, e) = check_interrupts hooks d in
          ((get_priority c < level_of l) × (taken ≡ true) × Entered vector c e)
          ⊎ ((level_of l ≤ get_priority c)
              × (taken ≡ false)
              × (e.waiting ≡ true)
              × (e.r ≡ c.r)
              × (e.psw ≡ c.psw))
    check_interrupts-interrupt c d l vector n w idle i h7 hp h0 h2 hb ha nb na =
        let x = chosen (seeing c l vector) in
        let (pc, psw) = entry vector x h0 h2 hb ha nb na in
        let (top, next) = pushed load in_ram ram vector x h7 hp hb ha in
        let asked : asking c l vector ≡ d = some_inj.0 (sym (asking_lem c l vector) ∙ i) in
        let answer =
          sym (ap (check_interrupts hooks) (sym asked) ∙ answer_lem c l vector n w idle) in
        subst (Answered c l vector) answer (
          answered c l vector w (ltb (get_priority c) (level_of l)) refl
            (pc, psw, top, next, awake vector x))
