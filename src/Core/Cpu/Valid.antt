-- ===== src/Core/Cpu/Valid.antt =====
-- The invariant of the processor of src/core/src/cpu.c, kept by every step, and the end of its runs.
use ms.Base.{
  ℕ, ◌<◌, ◌≡◌, inl, inr, refl, Bool, true, false, not, ◌&&◌, some, arith, ◌==◌, ltb, if◌then◌else◌,
  store, Bool-cases, Option-cases,
}
use ms.Core.Cpu.{Cpu, Bus, sample_requests}
use ms.Core.Cpu.Interrupts.{
  Hooks, get_priority, code_level, cpu_push, service_interrupt, take_halt, service_trap, if_pending,
  take_request, check_interrupts,
}
use ms.Core.Cpu.Step.{init, reset}

-- The registers hold 16 bits, the status word 8.
pub record IsValid (r : ℕ → ℕ) (psw : ℕ) : Type 0 where
  pub registers : (i : ℕ) → r i < 65536
  pub psw_byte : psw < 256

pub init-IsValid : {B : Type 0} (b : B) → IsValid (init b).r (init b).psw
unfolding init
init-IsValid b = record { registers = λ i. omega arith; psw_byte = omega arith }

pub reset-IsValid : {B : Type 0} (c : Cpu B) → IsValid (reset c).r (reset c).psw
unfolding reset
reset-IsValid c = record { registers = λ i. ground arith; psw_byte = omega arith }

-- What is asked of the host's hooks: they leave a processor as they take it.
pub record Safe {B : Type 0} (hooks : Hooks B) : Type 0 where
  pub thunk :
      (f : ℕ → Cpu B → Bool × Cpu B) (v : ℕ) (c : Cpu B)
      → hooks.trap_thunk ≡ some f
      → IsValid c.r c.psw
      → IsValid (f v c).1.r (f v c).1.psw
  pub hook :
      (f : Cpu B → Unit {0} × Cpu B) (c : Cpu B)
      → hooks.exec_hook ≡ some f
      → IsValid c.r c.psw
      → IsValid (f c).1.r (f c).1.psw

module _ {B : Type 0} ⦃bus : Bus B⦄ where
  abbrev Holds : Cpu B → Type 0
  Holds c = IsValid c.r c.psw

  service_interrupt-IsValid : (v : ℕ) (c : Cpu B) → Holds c → Holds (service_interrupt v c).1
  unfolding service_interrupt cpu_push sample_requests
  service_interrupt-IsValid v c h = record {
    registers = λ i. ground (arith, h.registers i);
    psw_byte = omega arith;
  }

  take_halt-IsValid : (c : Cpu B) → Holds c → Holds (take_halt c).1
  unfolding take_halt cpu_push
  take_halt-IsValid c h = record {
    registers = λ i. ground (arith, h.registers i);
    psw_byte = omega arith;
  }

  if_pending-IsValid :
      (irq : Cpu B → Bool) (clear : Cpu B → Cpu B) (serve : Cpu B → Unit {0} × Cpu B)
      (rest : Cpu B → Bool × Cpu B)
      → ((c : Cpu B) → Holds c → Holds (clear c))
      → ((c : Cpu B) → Holds c → Holds (serve c).1)
      → ((c : Cpu B) → Holds c → Holds (rest c).1)
      → (c : Cpu B) → Holds c
      → Holds (if_pending irq clear serve rest c).1
  unfolding if_pending
  if_pending-IsValid irq clear serve rest hc hs hr c h = elim (Bool-cases (irq c)) [
    | inl e ↦ rw e (hs (clear c) (hc c h))
    | inr e ↦ rw e (hr c h)
  ]

  module _ (hooks : Hooks B) (safe : Safe hooks) where
    service_trap-IsValid : (v : ℕ) (c : Cpu B) → Holds c → Holds (service_trap hooks v c).1
    unfolding service_trap
    service_trap-IsValid v c h = elim (Option-cases hooks.trap_thunk) [
      | inl e ↦ rw e (service_interrupt-IsValid v c h)
      | inr (f, e) ↦ rw e (elim (Bool-cases (f v c).0) [
        | inl t ↦ rw t (safe.thunk f v c e h)
        | inr t ↦ rw t (service_interrupt-IsValid v (f v c).1 (safe.thunk f v c e h))
      ])
    ]

  -- The decision on the request that is seen, and the look at the lines before it.
  abbrev pub decide : ℕ → Cpu B → Bool
  decide p c = not (c.irq_seen == 0) && ltb p (code_level c.irq_seen)

  abbrev pub looked : Cpu B → Cpu B
  looked c = (if c.waiting then (sample_requests c).1 else c)

  abbrev pub chosen : Cpu B → Cpu B
  chosen c = record c { irq_seen = 0; irq_virq = store c.irq_virq c.irq_seen false }

  -- `take_request` by its two tests.
  pub take_request_lem :
      (p : ℕ) (c : Cpu B)
      → take_request p c ≡ (
          if decide p (looked c)
          then (
            true,
            (service_interrupt ((looked c).irq_virq_vec (looked c).irq_seen) (chosen (looked c))).1,
          )
          else (false, looked c))
  unfolding take_request sample_requests
  take_request_lem p c = elim (Bool-cases c.waiting) [
    | inl e ↦ rw e (elim (Bool-cases (decide p (sample_requests c).1)) [
      | inl t ↦ rw t refl
      | inr t ↦ rw t refl
    ])
    | inr e ↦ rw e (elim (Bool-cases (decide p c)) [ inl t ↦ rw t refl | inr t ↦ rw t refl ])
  ]

  looked-IsValid : (c : Cpu B) → Holds c → Holds (looked c)
  unfolding sample_requests
  looked-IsValid c h = elim (Bool-cases c.waiting) [ inl e ↦ rw e h | inr e ↦ rw e h ]

  take_request-IsValid : (p : ℕ) (c : Cpu B) → Holds c → Holds (take_request p c).1
  take_request-IsValid p c h = rw (take_request_lem p c) (elim (Bool-cases (decide p (looked c))) [
    | inl t ↦ rw t (
        service_interrupt-IsValid ((looked c).irq_virq_vec (looked c).irq_seen) (chosen (looked c))
          (looked-IsValid c h))
    | inr t ↦ rw t (looked-IsValid c h)
  ])

  module _ (hooks : Hooks B) (safe : Safe hooks) where
    -- Taking interrupts keeps the processor in range.
    pub check_interrupts-IsValid : (c : Cpu B) → Holds c → Holds (check_interrupts hooks c).1
    unfolding check_interrupts
    check_interrupts-IsValid c h =
        let same = λ (d : Cpu B) (k : Holds d). k in
        let trap = service_trap-IsValid hooks safe in
        if_pending-IsValid _ _ _ _ same take_halt-IsValid
          (if_pending-IsValid _ _ _ _ same (service_interrupt-IsValid 4) (
            if_pending-IsValid _ _ _ _ same (service_interrupt-IsValid 8) (
              if_pending-IsValid _ _ _ _ same (service_interrupt-IsValid 12) (
                if_pending-IsValid _ _ _ _ same (trap 16) (
                  if_pending-IsValid _ _ _ _ same (trap 24) (
                    if_pending-IsValid _ _ _ _ same (trap 28) (
                      if_pending-IsValid _ _ _ _ same (service_interrupt-IsValid 12)
                        (take_request-IsValid (get_priority c)))))))))
          c h
