-- ===== src/Core/Cpu/Step.antt =====
-- The processor's life, src/core/src/cpu.c: power-up, reset, one instruction, and a run of them.
use ms.Base.{
  ℕ, zero, suc, ◌+◌, Bool, true, false, ◌||◌, List, [], ◌∷◌, Option, none, some, ◌==◌, ltb,
  if◌then◌else◌, store,
}
use ms.Core.Cpu.{
  Cpu, Bus, Action, ◌>>=◌, ◌>>◌, pure, modify, gets, get_r, set_cycles, flag, psw_t, reg_sp, reg_pc,
  board_read_word, board_event, evt_psw, sample_requests,
}
use ms.Core.Cpu.Address.{step_up, opcode}
use ms.Core.Cpu.Interrupts.{Hooks, get_priority, check_interrupts}
use ms.Core.Cpu.Table.{Table, init_dispatch_table, dispatch}

-- `cpu_init`: all zero, and no hooks.
unfoldable pub init : {B : Type 0} → B → Cpu B
init b = record {
  r = λ _. 0;
  psw = 0;
  instruction = 0;
  instruction_pc = 0;
  halted = false;
  waiting = false;
  irq_halt = false;
  irq_bus_error = false;
  irq_reserved = false;
  irq_bpt = false;
  irq_iot = false;
  irq_emt = false;
  irq_trap = false;
  irq_tbit = false;
  irq_virq = λ _. false;
  irq_virq_vec = λ _. 0;
  irq_seen = 0;
  cycles = 0;
  board = b;
}

unfoldable pub reset : {B : Type 0} → Cpu B → Cpu B
reset c = record c {
  r = store (store (λ _. 0) reg_sp 0o376) reg_pc 0o172000;
  psw = 0o340;
  halted = false;
  waiting = false;
  cycles = 0;
  irq_halt = false;
  irq_bus_error = false;
  irq_reserved = false;
  irq_bpt = false;
  irq_iot = false;
  irq_emt = false;
  irq_trap = false;
  irq_tbit = false;
  irq_virq = λ _. false;
  irq_seen = 0;
}

unfoldable pub is_hooked : List ℕ → ℕ → Bool
is_hooked [] pc = false
is_hooked (a ∷ rest) pc = pc == a || is_hooked rest pc

module _ {B : Type 0} ⦃bus : Bus B⦄ where
  -- A change of the priority goes to the trace.
  unfoldable pub trace_priority : ℕ → Action B (Unit {0})
  trace_priority prev_prio = do
    now_prio ← gets get_priority
    if now_prio == prev_prio then pure tt else board_event (evt_psw now_prio prev_prio)

  -- The read of the opcode at PC.
  unfoldable pub fetch : Action B (Unit {0})
  fetch = do
    sample_requests
    pc ← get_r reg_pc
    op ← board_read_word pc
    modify λ c. record c { instruction = op }
    step_up reg_pc 2
    set_cycles 9

module _ {B : Type 0} ⦃bus : Bus B⦄ (hooks : Hooks B) where
  unfoldable pub step_waiting : ℕ → Action B ℕ
  step_waiting prev_prio = do
    taken ← check_interrupts hooks
    if taken then (do trace_priority prev_prio; pure 1) else pure 0

  unfoldable pub call_exec_hook : ℕ → Action B (Unit {0})
  call_exec_hook pc = elim (hooks.exec_hook) [
    | none ↦ pure tt
    | some hook ↦ if is_hooked hooks.exec_hook_pc pc then hook else pure tt
  ]

  unfoldable pub step_running : Table → ℕ → Action B ℕ
  step_running table prev_prio = do
    taken ← check_interrupts hooks
    tbit_was_set ← flag psw_t
    modify λ c. record c { instruction_pc = c.r reg_pc }
    pc ← gets λ c. c.instruction_pc
    call_exec_hook pc
    fetch
    op ← opcode
    dispatch (table op)
    if tbit_was_set then modify (λ c. record c { irq_tbit = true }) else pure tt
    trace_priority prev_prio
    gets λ c. c.cycles

  unfoldable pub step : Action B ℕ
  step = do
    halted ← gets λ c. c.halted
    waiting ← gets λ c. c.waiting
    prev_prio ← gets get_priority
    if halted
        then pure 0
        else if waiting
        then step_waiting prev_prio
        else step_running init_dispatch_table prev_prio

  -- The loop of `cpu_execute`, on fuel; `none` when the fuel is over before the cycles.
  unfoldable pub execute_from : ℕ → ℕ → ℕ → Cpu B → Option (ℕ × Cpu B)
  execute_from zero max_cycles total c = if ltb total max_cycles then none else some (total, c)
  execute_from (suc fuel) max_cycles total c =
      let (n, d) = step c in
      let rest = execute_from fuel max_cycles (total + n) d in
      if ltb total max_cycles then if n == 0 then some (total, d) else rest else some (total, c)

  unfoldable pub execute : ℕ → ℕ → Cpu B → Option (ℕ × Cpu B)
  execute fuel max_cycles = execute_from fuel max_cycles 0
