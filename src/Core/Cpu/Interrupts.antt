-- ===== src/Core/Cpu/Interrupts.antt =====
-- Interrupts, src/core/src/cpu.c: the service of a vector, the order in which pending requests are
-- taken, and the lines of the board's encoder.
use ms.Base.{
  ℕ, ◌+◌, ◌/◌, ◌%◌, Bool, true, false, not, ◌&&◌, List, Option, none, some, ◌==◌, leb, ltb,
  if◌then◌else◌, low, u16, store,
}
use ms.Core.Cpu.{
  Cpu, Bus, Action, ◌>>=◌, ◌>>◌, pure, modify, gets, get_r, set_r, set_psw, reg_sp, reg_pc,
  board_read_word, board_write_word, board_event, evt_trap, sample_requests, vec_bus_error,
  vec_reserved, vec_bpt, vec_iot, vec_emt, vec_trap,
}
use ms.Core.Cpu.Address.{step_down}

-- `trap_thunk`, and `exec_hook` with the addresses of `exec_hook_pc` in use.
pub record Hooks (B : Type 0) : Type 0 where
  pub trap_thunk : Option (ℕ → Action B Bool)
  pub exec_hook : Option (Action B (Unit {0}))
  pub exec_hook_pc : List ℕ

-- `cpu_get_priority`
abbrev pub get_priority : {B : Type 0} → Cpu B → ℕ
get_priority c = c.psw / 32 % 8

unfoldable pub code_level : ℕ → ℕ
code_level code =
    if leb 0o14 code then 7 else if leb 0o10 code then 6 else if leb 4 code then 5 else 4

module _ {B : Type 0} ⦃bus : Bus B⦄ where
  unfoldable pub cpu_push : ℕ → Action B (Unit {0})
  cpu_push value = do step_down reg_sp 2; sp ← get_r reg_sp; board_write_word sp (u16 value)

  unfoldable pub service_interrupt : ℕ → Action B (Unit {0})
  service_interrupt vector = do
    sample_requests
    new_pc ← board_read_word vector
    board_event (evt_trap (low vector))
    psw ← gets λ c. c.psw
    cpu_push psw
    pc ← get_r reg_pc
    cpu_push pc
    set_r reg_pc new_pc
    new_psw ← board_read_word (u16 (vector + 2))
    set_psw (low new_psw)
    modify λ c. record c { waiting = false; halted = false }

  -- The HALT signal's entry.
  unfoldable pub take_halt : Action B (Unit {0})
  take_halt = do
    psw ← gets λ c. c.psw
    cpu_push psw
    pc ← get_r reg_pc
    cpu_push pc
    set_r reg_pc 0o172004
    set_psw 0o340
    modify λ c. record c { waiting = false }

  -- IOT, EMT and TRAP go to the thunk first, when there is one.
  unfoldable pub service_trap : Hooks B → ℕ → Action B (Unit {0})
  service_trap hooks vector = elim (hooks.trap_thunk) [
    | none ↦ service_interrupt vector
    | some thunk ↦ (do
      handled ← thunk vector
      if handled then pure tt else service_interrupt vector)
  ]

  -- `if (cpu->irq_x) { cpu->irq_x = false; ...; return true; }`, and what follows it.
  unfoldable pub if_pending :
      (Cpu B → Bool) → (Cpu B → Cpu B) → Action B (Unit {0}) → Action B Bool → Action B Bool
  if_pending irq clear serve rest = do
    pending ← gets irq
    if pending then (do modify clear; serve; pure true) else rest

  -- The request that the processor has seen, when its level is above the priority.
  unfoldable pub take_request : ℕ → Action B Bool
  take_request priority = do
    waiting ← gets λ c. c.waiting
    if waiting then sample_requests else pure tt
    code ← gets λ c. c.irq_seen
    vector ← gets λ c. c.irq_virq_vec code
    if not (code == 0) && ltb priority (code_level code)
        then (do
          modify λ c. record c { irq_seen = 0; irq_virq = store c.irq_virq code false }
          service_interrupt vector
          pure true)
        else pure false

  unfoldable pub check_interrupts : Hooks B → Action B Bool
  check_interrupts hooks = do
    priority ← gets get_priority
    if_pending (λ c. c.irq_halt) (λ c. record c { irq_halt = false }) take_halt
        (if_pending (λ c. c.irq_bus_error) (λ c. record c { irq_bus_error = false })
          (service_interrupt vec_bus_error)
          (if_pending (λ c. c.irq_reserved) (λ c. record c { irq_reserved = false })
            (service_interrupt vec_reserved)
            (if_pending (λ c. c.irq_bpt) (λ c. record c { irq_bpt = false })
              (service_interrupt vec_bpt)
              (if_pending (λ c. c.irq_iot) (λ c. record c { irq_iot = false })
                (service_trap hooks vec_iot)
                (if_pending (λ c. c.irq_emt) (λ c. record c { irq_emt = false })
                  (service_trap hooks vec_emt)
                  (if_pending (λ c. c.irq_trap) (λ c. record c { irq_trap = false })
                    (service_trap hooks vec_trap)
                    (if_pending (λ c. c.irq_tbit) (λ c. record c { irq_tbit = false })
                      (service_interrupt vec_bpt) (take_request priority))))))))

-- `cpu_interrupt` and `cpu_clear_interrupt`; `none` where the assertion fails.
unfoldable pub interrupt : {B : Type 0} → Cpu B → ℕ → ℕ → Option (Cpu B)
interrupt c irq vector =
    if ltb irq 16
    then some (record c {
      irq_virq = store c.irq_virq irq true;
      irq_virq_vec = store c.irq_virq_vec irq vector;
    })
    else none

unfoldable pub clear_interrupt : {B : Type 0} → Cpu B → ℕ → Option (Cpu B)
clear_interrupt c irq =
    if ltb irq 16 then some (record c { irq_virq = store c.irq_virq irq false }) else none
