-- ===== src/Core/Cpu/Tests.antt =====
-- The theorems on src/core/src/cpu.c and src/core/src/cpu_ops.c at a processor with a board of plain
-- memory, and a run of a program.
use ms.Base.{
  ℕ, ◌+◌, ◌*◌, ◌%◌, ◌<◌, ◌≤◌, ◌≡◌, ◌⊎◌, refl, Bool, true, false, ◌||◌, none, some, [], ◌==◌, store,
  u8, u16, arith, if◌then◌else◌, get_or,
}
use ms.Core.Cpu.{
  Cpu, Bus, ◌>>◌, modify, first_request, sample_requests, bus_read_word, set_nz_word, set_v,
}
use ms.Core.Cpu.Address.{
  get_word_addr, address, read_word_op, write_word_op, word_source_after, datio_begin, datio_end,
  discard_read_word,
}
use ms.Core.Cpu.Registers.{Registers, get_word_addr-Registers}
use ms.Core.Cpu.Handbook.{
  unary, unary_word, unary_byte, binary, binary_word, add_carry, rotate_left, subtract,
}
use ms.Core.Cpu.UnaryWord.{word_handler, unary-word}
use ms.Core.Cpu.UnaryByte.{byte_handler, unary-byte}
use ms.Core.Cpu.Binary.{double_handler, binary-word}
use ms.Core.Cpu.Compare.{holds, branch_handler, operands, greater, branch-cmp}
use ms.Core.Cpu.DoubleWord.{op_cmp, op_mov, word_operands}
use ms.Core.Cpu.Branch.{apply_branch}
use ms.Core.Cpu.Control.{op_rti, op_jsr, op_rts}
use ms.Core.Cpu.Table.{fill, reg_range, dispatch, init_dispatch_table}
use ms.Core.Cpu.Decode.{decode, init_dispatch_table-decode}
use ms.Core.Cpu.Interrupts.{
  if_pending, take_request, Hooks, service_interrupt, check_interrupts, interrupt,
}
use ms.Core.Cpu.Step.{step, execute, step_running, call_exec_hook, fetch, trace_priority}
use ms.Core.Cpu.Valid.{IsValid}
use ms.Core.Cpu.Runs.{execute-ends, steps, steps-IsValid}
use ms.Core.Cpu.Stack.{Ram, interrupted, called, rti-service_interrupt, rts-jsr}
use ms.Core.Cpu.Requests.{Line, keyboard, code_of, place_of, sample_requests_lem}
use ms.Core.Cpu.Wake.{NoTraps, Entered, check_interrupts-interrupt}
use ms.Core.Cpu.Long.{add_long, add_long_lem}
use ms.Core.Cpu.Timing.{source_microcycles, destination_microcycles, binary_time}

abbrev Board : Type 0
Board = ℕ → ℕ

-- A board of words, one at each address. A write to the word 60 makes request 2.
instance abbrev words : Bus Board
words = record {
  read_word = λ b a. (u16 (b a), b);
  read_byte = λ b a. (u8 (b a), b);
  write_word = λ b a v. store b a v;
  write_byte = λ b a v. store b a v;
  word_lines = λ b a v l. if a == 60 then record l { requested = store l.requested 2 true } else l;
  byte_lines = λ b a v l. l;
  datio_begin = λ b. b;
  datio_end = λ b. b;
  event = λ b e. b;
  read_word_fits = λ b a. omega arith;
  read_byte_fits = λ b a. omega arith;
}

abbrev is_even : ℕ → Bool
is_even a = a % 2 == 0

words-Ram : Ram {B = Board} (λ b a. u16 (b a)) is_even
words-Ram = record {
  reads = λ b a h. refl;
  writes = λ b a v h lt. ground arith;
  others = λ b a v a' h h' ne. ground (arith, ne);
  quiet = λ b a a' h. refl;
  traced = λ b e a' h. refl;
}

-- R0 to R7 hold 0, 512, 1024, ...; memory holds its addresses.
abbrev cpu : ℕ → ℕ → Cpu Board
cpu op psw = record {
  r = λ i. 512 * (i % 8);
  psw = psw;
  instruction = op;
  instruction_pc = 0;
  halted = false;
  waiting = false;
  irq_halt = false;
  irq_bus_error = false;
  irq_reserved = false;
  irq_bpt = false;
  irq_iot = false;
  irq_emt = false;
  irq_trap = false;
  irq_tbit = false;
  irq_virq = λ i. i == 5 || i == 11;
  irq_virq_vec = λ i. 88;
  irq_seen = 5;
  cycles = 9;
  board = λ a. a;
}

cpu-Registers : (op psw : ℕ) → Registers (cpu op psw)
cpu-Registers op psw i = omega arith

abbrev no_hooks : Hooks Board
no_hooks = record { trap_thunk = none; exec_hook = none; exec_hook_pc = [] }

-- ADC @R3, with carry.
unary-word_example :
    dispatch (word_handler add_carry) (cpu 0o5513 1)
    ≡ unary_word (unary 32768 add_carry) (cpu 0o5513 1)
unary-word_example = unary-word add_carry (cpu 0o5513 1) (cpu-Registers 0o5513 1)

-- ROLB (R2)+, with carry.
unary-byte_example :
    dispatch (byte_handler rotate_left) (cpu 0o106122 1)
    ≡ unary_byte (unary 128 rotate_left) (cpu 0o106122 1)
unary-byte_example = unary-byte rotate_left (cpu 0o106122 1)

-- SUB @R3,R1
binary-word_example :
    dispatch (double_handler subtract) (cpu 0o161301 0)
    ≡ binary_word (binary 32768 subtract) (cpu 0o161301 0)
binary-word_example = binary-word subtract (cpu 0o161301 0) (cpu-Registers 0o161301 0)

-- CMP R3,R1 and BGT.
branch-cmp_example :
    (op_cmp >> modify (λ d. record d { instruction = 0o3002 }) >> dispatch (branch_handler greater))
      (cpu 0o20301 0)
    ≡ (op_cmp
          >> modify (λ d. record d { instruction = 0o3002 })
          >> apply_branch (holds greater (operands (cpu 0o20301 0)).0 (operands (cpu 0o20301 0)).1))
        (cpu 0o20301 0)
branch-cmp_example = branch-cmp greater 0o3002 (cpu 0o20301 0) (cpu-Registers 0o20301 0)

init_dispatch_table-decode_example : init_dispatch_table 0o160102 ≡ decode 0o160102
init_dispatch_table-decode_example = init_dispatch_table-decode 0o160102 (omega arith)

steps-IsValid_example : IsValid (steps 3 (cpu 0 0)).r (steps 3 (cpu 0 0)).psw
steps-IsValid_example =
    steps-IsValid 3 (cpu 0 0) (record { registers = cpu-Registers 0 0; psw_byte = omega arith })

execute-ends_example :
    (n : ℕ) × (d : Cpu Board) × (execute no_hooks 40 40 (cpu 0 0) ≡ some (n, d))
    × ((40 ≤ n)
        ⊎ ((e : Cpu Board) × (step no_hooks e ≡ (0, d)) × ((e.halted ≡ true) ⊎ (e.waiting ≡ true))))
execute-ends_example = execute-ends no_hooks 40 (cpu 0 0)

-- A handler that returns at once.
rti-service_interrupt_example :
    (let d = interrupted 64 (cpu 0 7) in
      ((op_rti d).1.r 7 ≡ 3584) × ((op_rti d).1.psw ≡ 7) × ((op_rti d).1.r 6 ≡ 3072))
unfolding service_interrupt
rti-service_interrupt_example =
    rti-service_interrupt (λ b a. u16 (b a)) is_even words-Ram 64 (cpu 0 7)
      (interrupted 64 (cpu 0 7)) (cpu-Registers 0 7) (omega arith) refl refl refl refl refl

-- JSR R5,@R1, and RTS R5 as its subroutine.
abbrev subroutine : Cpu Board
subroutine = record (op_jsr (cpu 0o4511 0)).1 { instruction = 0o205 }

rts-jsr_example :
    ((op_rts subroutine).1.r 7 ≡ (called (cpu 0o4511 0)).r 7)
    × ((op_rts subroutine).1.r 5 ≡ (called (cpu 0o4511 0)).r 5)
    × ((op_rts subroutine).1.r 6 ≡ (called (cpu 0o4511 0)).r 6)
unfolding get_word_addr address
rts-jsr_example =
    rts-jsr (λ b a. u16 (b a)) is_even words-Ram (cpu 0o4511 0) subroutine refl
      (λ e. absurd (omega (arith, e)))
      (get_word_addr-Registers 1 1 (cpu 0o4511 0) (cpu-Registers 0o4511 0)) refl refl (λ ne. refl)
      refl refl

sample_requests_lem_example :
    let code = (sample_requests (cpu 0 0)).1.irq_seen in
    (((l : Line) → (cpu 0 0).irq_virq (code_of l) ≡ false) × (code ≡ 0))
    ⊎ ((l : Line) × (code ≡ code_of l)
        × ((cpu 0 0).irq_virq (code_of l) ≡ true)
        × ((l' : Line) → (cpu 0 0).irq_virq (code_of l') ≡ true → place_of l ≤ place_of l'))
sample_requests_lem_example = sample_requests_lem (cpu 0 0)

-- The keyboard asks a processor of priority 0 that waits; SP is 3072 and the vector 0130.
abbrev sleeper : Cpu Board
sleeper = record (cpu 1 0) { waiting = true; irq_virq = λ _. false }

abbrev called_up : Cpu Board
called_up = record sleeper {
  irq_virq = store sleeper.irq_virq 5 true;
  irq_virq_vec = store sleeper.irq_virq_vec 5 0o130;
}

sleeper-NoTraps : NoTraps sleeper
sleeper-NoTraps = record {
  halt_clear = refl;
  bus_error_clear = refl;
  reserved_clear = refl;
  bpt_clear = refl;
  iot_clear = refl;
  emt_clear = refl;
  trap_clear = refl;
  tbit_clear = refl;
}

check_interrupts-interrupt_example :
    let (taken, e) = check_interrupts no_hooks called_up in
    ((0 < 5) × (taken ≡ true) × Entered (λ b a. u16 (b a)) is_even words-Ram 0o130 sleeper e)
    ⊎ ((5 ≤ 0) × (taken ≡ false) × (e.waiting ≡ true) × (e.r ≡ sleeper.r) × (e.psw ≡ 0))
unfolding interrupt
check_interrupts-interrupt_example =
    check_interrupts-interrupt (λ b a. u16 (b a)) is_even words-Ram no_hooks sleeper called_up
      keyboard 0o130 sleeper-NoTraps refl (λ l. refl) refl (omega arith) (omega arith) refl refl
      refl refl (λ e. absurd (omega (arith, e))) (λ e. absurd (omega (arith, e)))

add_long_lem_example :
    (add_long (cpu 0 0)).1.r 2 + 65536 * (add_long (cpu 0 0)).1.r 3
    ≡ (1024 + 65536 * 1536 + (0 + 65536 * 512)) % 4294967296
add_long_lem_example = add_long_lem (cpu 0 0) (cpu-Registers 0 0)

-- SUB @R3,R1: two microcycles and one, after the fetch.
binary_time_example :
    (dispatch (double_handler subtract) (cpu 0o161301 0)).1.cycles
    ≡ 9 + 3 * (get_or source_microcycles 1 0 + get_or destination_microcycles 0 0)
binary_time_example = binary_time subtract (cpu 0o161301 0) (cpu-Registers 0o161301 0)

-- `MOV #5,R1` at 0, executed by a step: R1, PC past the immediate, and 18 clocks.
abbrev immediate : Cpu Board
immediate = record (cpu 0 0) {
  r = λ i. 0;
  irq_virq = λ i. false;
  irq_seen = 0;
  board = store (store (λ a. 0) 0 0o12701) 2 5;
}

mov_immediate : (let (n, d) = step no_hooks immediate in (n ≡ 18) × (d.r 1 ≡ 5) × (d.r 7 ≡ 4))
unfolding step step_running check_interrupts if_pending take_request call_exec_hook fetch
    sample_requests first_request init_dispatch_table fill reg_range dispatch op_mov word_operands
    get_word_addr address read_word_op bus_read_word word_source_after datio_begin discard_read_word
    write_word_op datio_end set_nz_word set_v trace_priority
mov_immediate = (refl, refl, refl)
