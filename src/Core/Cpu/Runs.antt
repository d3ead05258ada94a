-- ===== src/Core/Cpu/Runs.antt =====
-- Steps and runs of src/core/src/cpu.c: the invariant through a step, the time that a step takes, and
-- the end of the loop of `cpu_execute`.
use ms.Base.{
  ℕ, zero, suc, ◌+◌, ◌<◌, ◌≤◌, ◌≡◌, ◌⊎◌, inl, inr, refl, ◌∙◌, ap, Bool, true, false, none, some, [],
  arith, ◌==◌, ltb, if◌then◌else◌, has_bit, Bool-cases, Option-cases, ltb_false→le, le→ltb_false,
  ==→eq, ==_false→ne,
}
use ms.Core.Cpu.{Cpu, Bus, Action, pure, sample_requests}
use ms.Core.Cpu.Kept.{start-Keeps}
use ms.Core.Cpu.KeptDispatch.{dispatch-Keeps}
use ms.Core.Cpu.Table.{Table, init_dispatch_table, dispatch}
use ms.Core.Cpu.Interrupts.{Hooks, get_priority, check_interrupts}
use ms.Core.Cpu.Step.{
  trace_priority, step_waiting, call_exec_hook, fetch, step_running, step, execute_from, execute,
  is_hooked,
}
use ms.Core.Cpu.Valid.{IsValid, Safe, check_interrupts-IsValid}

module _ {B : Type 0} ⦃bus : Bus B⦄ (hooks : Hooks B) where
  abbrev Holds : Cpu B → Type 0
  Holds c = IsValid c.r c.psw

  -- The state that an instruction starts in: interrupts taken, the hook called, the opcode read.
  abbrev entered : Cpu B → Cpu B
  entered c = let d = (check_interrupts hooks c).1 in record d { instruction_pc = d.r 7 }

  abbrev ready : Cpu B → Cpu B
  ready c = (fetch (call_exec_hook hooks (entered c).instruction_pc (entered c)).1).1

  abbrev executed : Table → Cpu B → Cpu B
  executed table c = let d = ready c in (dispatch (table d.instruction) d).1

  abbrev traced : ℕ → Bool → Cpu B → Cpu B
  traced prio t d = (trace_priority prio (if t then record d { irq_tbit = true } else d)).1

  trace_priority-parts :
      (prio : ℕ) (d : Cpu B)
      → (let e = (trace_priority prio d).1 in (e.r ≡ d.r) × (e.psw ≡ d.psw) × (e.cycles ≡ d.cycles))
  unfolding trace_priority
  trace_priority-parts prio d = elim (Bool-cases (get_priority d == prio)) [
    | inl e ↦ rw e (refl, refl, refl)
    | inr e ↦ rw e (refl, refl, refl)
  ]

  traced-parts :
      (prio : ℕ) (t : Bool) (d : Cpu B)
      → ((traced prio t d).r ≡ d.r)
        × ((traced prio t d).psw ≡ d.psw)
        × ((traced prio t d).cycles ≡ d.cycles)
  traced-parts prio true d = trace_priority-parts prio (record d { irq_tbit = true })
  traced-parts prio false d = trace_priority-parts prio d

  step_running_lem :
      (table : Table) (prio : ℕ) (c : Cpu B)
      → step_running hooks table prio c ≡ (
          let d = traced prio (has_bit (check_interrupts hooks c).1.psw 4) (executed table c) in
          (d.cycles, d))
  unfolding step_running
  step_running_lem table prio c = elim (Bool-cases (has_bit (check_interrupts hooks c).1.psw 4)) [
    | inl e ↦ rw e refl
    | inr e ↦ rw e refl
  ]

  fetch-IsValid : (c : Cpu B) → Holds c → Holds (fetch c).1
  unfolding fetch sample_requests
  fetch-IsValid c h = record {
    registers = λ i. ground (arith, h.registers i);
    psw_byte = h.psw_byte;
  }

  ready-busy : (c : Cpu B) → 0 < (ready c).cycles
  unfolding fetch
  ready-busy c = omega arith

  -- A step of a processor that runs takes at least one cycle.
  step_running-busy :
      (table : Table) (prio : ℕ) (c : Cpu B) → 0 < (step_running hooks table prio c).0
  step_running-busy table prio c =
      let t = has_bit (check_interrupts hooks c).1.psw 4 in
      let d = executed table c in
      let k = dispatch-Keeps (table (ready c).instruction) (ready c) (start-Keeps (ready c)) in
      let lt : 0 < d.cycles = k.busy (ready-busy c) in
      let same : (step_running hooks table prio c).0 ≡ d.cycles =
        ap (λ s. s.0) (step_running_lem table prio c) ∙ (traced-parts prio t d).2 in
      omega arith

  -- Only a processor that is halted or waits takes a step of no time.
  pub step-idle : (c : Cpu B) → (step hooks c).0 ≡ 0 → (c.halted ≡ true) ⊎ (c.waiting ≡ true)
  unfolding step
  step-idle c e = elim (Bool-cases c.halted) [
    | inl h ↦ inl h
    | inr h ↦ elim (Bool-cases c.waiting) [
      | inl w ↦ inr w
      | inr w ↦
          let lt = step_running-busy init_dispatch_table (get_priority c) c in
          absurd (ground (arith, h, w, e, lt))
    ]
  ]

  -- The loop of `cpu_execute` with a unit of fuel for each cycle that is left: it ends, with the cycles
  -- that were asked for or at a step that takes no time.
  Ended : ℕ → ℕ → ℕ → Cpu B → Type 0
  Ended fuel max_cycles total c =
      (n : ℕ) × (d : Cpu B) × (execute_from hooks fuel max_cycles total c ≡ some (n, d))
      × ((max_cycles ≤ n) ⊎ ((e : Cpu B) × (step hooks e ≡ (0, d))))

  enough_done :
      (fuel max_cycles total : ℕ) (c : Cpu B)
      → ltb total max_cycles ≡ false
      → Ended fuel max_cycles total c
  unfolding execute_from Ended
  enough_done zero max_cycles total c e =
      (total, c, rw e refl, inl (ltb_false→le total max_cycles e))
  enough_done (suc fuel) max_cycles total c e =
      (total, c, rw e refl, inl (ltb_false→le total max_cycles e))

  stops :
      (fuel max_cycles total : ℕ) (c : Cpu B)
      → ltb total max_cycles ≡ true
      → ((step hooks c).0 == 0) ≡ true
      → Ended (suc fuel) max_cycles total c
  unfolding execute_from Ended
  stops fuel max_cycles total c e z = (
    total,
    (step hooks c).1,
    rw e (rw z refl),
    inr (c, ap (λ n. (n, (step hooks c).1)) (==→eq (step hooks c).0 0 z)),
  )

  goes_on :
      (fuel max_cycles total : ℕ) (c : Cpu B)
      → ltb total max_cycles ≡ true
      → ((step hooks c).0 == 0) ≡ false
      → Ended fuel max_cycles (total + (step hooks c).0) (step hooks c).1
      → Ended (suc fuel) max_cycles total c
  unfolding execute_from Ended
  goes_on fuel max_cycles total c e z (n, d, run, how) = (n, d, rw e (rw z run), how)

  execute_from-Ended :
      (fuel max_cycles total : ℕ) (c : Cpu B)
      → max_cycles ≤ total + fuel
      → Ended fuel max_cycles total c
  execute_from-Ended zero max_cycles total c le =
      enough_done 0 max_cycles total c (le→ltb_false total max_cycles (omega arith))
  execute_from-Ended (suc fuel) max_cycles total c le = elim (Bool-cases (ltb total max_cycles)) [
    | inr e ↦ enough_done (suc fuel) max_cycles total c e
    | inl e ↦ elim (Bool-cases ((step hooks c).0 == 0)) [
      | inl z ↦ stops fuel max_cycles total c e z
      | inr z ↦
          let ne = ==_false→ne (step hooks c).0 0 z in
          goes_on fuel max_cycles total c e z (
            execute_from-Ended fuel max_cycles (total + (step hooks c).0) (step hooks c).1
              (omega arith))
    ]
  ]

  -- `cpu_execute` ends: with `max_cycles` units of fuel it returns, either with at least the cycles that
  -- were asked for, or at a step that took no time, of a processor that is halted or waits.
  pub execute-ends :
      (max_cycles : ℕ) (c : Cpu B)
      → (n : ℕ) × (d : Cpu B) × (execute hooks max_cycles max_cycles c ≡ some (n, d))
        × ((max_cycles ≤ n)
            ⊎ ((e : Cpu B) × (step hooks e ≡ (0, d)) × ((e.halted ≡ true) ⊎ (e.waiting ≡ true))))
  unfolding execute Ended
  execute-ends max_cycles c =
      let (n, d, run, how) = execute_from-Ended max_cycles max_cycles 0 c (omega arith) in
      (
        n,
        d,
        run,
        elim how [
          | inl le ↦ inl le
          | inr (e, last) ↦ inr (e, last, step-idle e (ap (λ s. s.0) last))
        ],
      )

  module _ (safe : Safe hooks) where
    call_exec_hook-IsValid : (pc : ℕ) (c : Cpu B) → Holds c → Holds (call_exec_hook hooks pc c).1
    unfolding call_exec_hook
    call_exec_hook-IsValid pc c h = elim (Option-cases hooks.exec_hook) [
      | inl e ↦ rw e h
      | inr (f, e) ↦ rw e (elim (Bool-cases (is_hooked hooks.exec_hook_pc pc)) [
        | inl t ↦ rw t (safe.hook f c e h)
        | inr t ↦ rw t h
      ])
    ]

    executed-IsValid : (table : Table) (c : Cpu B) → Holds c → Holds (executed table c)
    executed-IsValid table c h =
        let d = check_interrupts-IsValid hooks safe c h in
        let r = fetch-IsValid _ (call_exec_hook-IsValid (entered c).instruction_pc (entered c) d) in
        let k = dispatch-Keeps (table (ready c).instruction) (ready c) (start-Keeps (ready c)) in
        record { registers = k.registers r.registers; psw_byte = k.psw_byte r.psw_byte }

    moved : (r r' : ℕ → ℕ) (p p' : ℕ) → r' ≡ r → p' ≡ p → IsValid r p → IsValid r' p'
    moved r r' p p' er ep h = rw er (rw ep h)

    step_running-IsValid :
        (table : Table) (prio : ℕ) (c : Cpu B) → Holds c → Holds (step_running hooks table prio c).1
    step_running-IsValid table prio c h =
        let t = has_bit (check_interrupts hooks c).1.psw 4 in
        let d = executed table c in
        let (er, ep, _) = traced-parts prio t d in
        let e = step_running_lem table prio c in
        moved d.r (step_running hooks table prio c).1.r d.psw
          (step_running hooks table prio c).1.psw (ap (λ s. s.1.r) e ∙ er)
          (ap (λ s. s.1.psw) e ∙ ep) (executed-IsValid table c h)

    step_waiting-IsValid : (prio : ℕ) (c : Cpu B) → Holds c → Holds (step_waiting hooks prio c).1
    unfolding step_waiting
    step_waiting-IsValid prio c h =
        let (t, d) = check_interrupts hooks c in
        let k = check_interrupts-IsValid hooks safe c h in
        let (er, ep, _) = trace_priority-parts prio d in
        elim (Bool-cases t) [
          | inl e ↦
              rw e
                (moved d.r (trace_priority prio d).1.r d.psw (trace_priority prio d).1.psw er ep k)
          | inr e ↦ rw e k
        ]

    choice :
        (h w : Bool) (x y z : Action B ℕ) (c : Cpu B)
        → Holds (x c).1
        → Holds (y c).1
        → Holds (z c).1
        → Holds ((if h then x else if w then y else z) c).1
    choice true w x y z c hx hy hz = hx
    choice false true x y z c hx hy hz = hy
    choice false false x y z c hx hy hz = hz

    -- If the host's hooks leave the registers within 16 bits and the status word within 8, so does a step.
    step-IsValid : (c : Cpu B) → Holds c → Holds (step hooks c).1
    unfolding step
    step-IsValid c h =
        choice c.halted c.waiting (pure 0) (step_waiting hooks (get_priority c))
          (step_running hooks init_dispatch_table (get_priority c)) c h
          (step_waiting-IsValid (get_priority c) c h)
          (step_running-IsValid init_dispatch_table (get_priority c) c h)

-- A processor without hooks of the host.
abbrev pub bare : {B : Type 0} → Hooks B
bare = record { trap_thunk = none; exec_hook = none; exec_hook_pc = [] }

bare-Safe : {B : Type 0} → Safe {B = B} bare
bare-Safe = record {
  thunk = λ f v c e h. absurd (ground (arith, e));
  hook = λ f c e h. absurd (ground (arith, e));
}

module _ {B : Type 0} ⦃bus : Bus B⦄ where
  -- So many steps, one after the other.
  unfoldable pub steps : ℕ → Cpu B → Cpu B
  steps zero c = c
  steps (suc n) c = steps n (step bare c).1

  -- A processor without hooks of the host never sets a bit of its status word above the eighth, whose
  -- field has sixteen, nor lets a register pass its 16 bits: whatever opcodes, interrupts and traps the
  -- steps from a state in these bounds meet, the state they lead to is in them.
  pub steps-IsValid :
      (n : ℕ) (c : Cpu B) → IsValid c.r c.psw → IsValid (steps n c).r (steps n c).psw
  unfolding steps
  steps-IsValid zero c h = h
  steps-IsValid (suc n) c h = steps-IsValid n (step bare c).1 (step-IsValid bare bare-Safe c h)
