-- ===== src/Core/Cpu.antt =====
-- src/core/include/ms0515/core/cpu.h, and the helpers at the top of src/core/src/cpu_ops.c: the
-- state of the processor, the board as it sees it, the processor status word, and the bus reads. A
-- handler of the source, which takes the processor by pointer, is an `Action`.
pub mod Address
pub mod SingleWord
pub mod SingleByte
pub mod ShiftWord
pub mod ShiftByte
pub mod DoubleWord
pub mod DoubleByte
pub mod Special
pub mod Branch
pub mod Control
pub mod Table
pub mod Interrupts
pub mod Step
pub mod Psw
pub mod Registers
pub mod Handbook
mod WordFlags
mod ByteFlags
pub mod UnaryWord
pub mod UnaryByte
pub mod Binary
pub mod Compare
pub mod Kept
pub mod KeptSingle
pub mod KeptDouble
pub mod KeptControl
mod KeptDispatch
pub mod Valid
pub mod Runs
pub mod Stack
pub mod Requests
pub mod Wake
pub mod Delay
pub mod Long
pub mod Timing
pub mod Decode
mod Tests
use ms.Base.{
  ℕ, ◌+◌, ◌*◌, ◌/◌, ◌%◌, ◌<◌, Bool, List, [], ◌∷◌, ◌==◌, if◌then◌else◌, has_bit, set_bit, clear_bit,
  u8, u16, store,
}

-- `ms0515_cpu_t`, with the board behind its pointer.
pub record Cpu (B : Type 0) : Type 0 where
  pub r : ℕ → ℕ
  pub psw : ℕ
  pub instruction : ℕ
  pub instruction_pc : ℕ
  pub halted : Bool
  pub waiting : Bool
  pub irq_halt : Bool
  pub irq_bus_error : Bool
  pub irq_reserved : Bool
  pub irq_bpt : Bool
  pub irq_iot : Bool
  pub irq_emt : Bool
  pub irq_trap : Bool
  pub irq_tbit : Bool
  pub irq_virq : ℕ → Bool
  pub irq_virq_vec : ℕ → ℕ
  pub irq_seen : ℕ
  pub cycles : ℕ
  pub board : B

-- What the processor records in the board's trace.
pub data Event : Type 0 where
  evt_trap : ℕ → Event
  evt_halt : Event
  evt_psw : ℕ → ℕ → Event

-- The processor's inputs for requests, `irq_virq` and `irq_virq_vec`.
pub record Lines : Type 0 where
  pub requested : ℕ → Bool
  pub vector : ℕ → ℕ

-- The board, as the processor calls it. A read may change it, since devices are mapped to memory; what
-- it returns is a `uint16_t` or a `uint8_t`. A write may also make or withdraw requests: the board has
-- `cpu_interrupt` and `cpu_clear_interrupt` for that, and calls them when the dispatcher is written.
pub record Bus (B : Type 0) : Type 0 where
  pub read_word : B → ℕ → ℕ × B
  pub read_byte : B → ℕ → ℕ × B
  pub write_word : B → ℕ → ℕ → B
  pub write_byte : B → ℕ → ℕ → B
  pub word_lines : B → ℕ → ℕ → Lines → Lines
  pub byte_lines : B → ℕ → ℕ → Lines → Lines
  pub datio_begin : B → B
  pub datio_end : B → B
  pub event : B → Event → B
  pub read_word_fits : (b : B) (a : ℕ) → (read_word b a).0 < 65536
  pub read_byte_fits : (b : B) (a : ℕ) → (read_byte b a).0 < 256

-- `CPU_REG_SP`, `CPU_REG_PC`, and the bits of the status word by their places.
abbrev pub reg_sp : ℕ
reg_sp = 6

abbrev pub reg_pc : ℕ
reg_pc = 7

abbrev pub psw_c : ℕ
psw_c = 0

abbrev pub psw_v : ℕ
psw_v = 1

abbrev pub psw_z : ℕ
psw_z = 2

abbrev pub psw_n : ℕ
psw_n = 3

abbrev pub psw_t : ℕ
psw_t = 4

-- The processor's codes of vectors.
abbrev pub vec_bus_error : ℕ
vec_bus_error = 0o4

abbrev pub vec_reserved : ℕ
vec_reserved = 0o10

abbrev pub vec_bpt : ℕ
vec_bpt = 0o14

abbrev pub vec_iot : ℕ
vec_iot = 0o20

abbrev pub vec_emt : ℕ
vec_emt = 0o30

abbrev pub vec_trap : ℕ
vec_trap = 0o34

-- A function of the source that takes the processor by pointer.
abbrev pub Action : Type 0 → Type 0 → Type 0
Action B A = Cpu B → A × Cpu B

infixl 5 ◌>>=◌ ◌>>◌
abbrev pub ◌>>=◌ : {B A D : Type 0} → Action B A → (A → Action B D) → Action B D
◌>>=◌ m f c = let (a, d) = m c in f a d

abbrev pub ◌>>◌ : {B A D : Type 0} → Action B A → Action B D → Action B D
m >> k = m >>= λ _. k

abbrev pub pure : {B A : Type 0} → A → Action B A
pure a c = (a, c)

abbrev pub modify : {B : Type 0} → (Cpu B → Cpu B) → Action B (Unit {0})
modify f c = (tt, f c)

abbrev pub gets : {B A : Type 0} → (Cpu B → A) → Action B A
gets f c = (f c, c)

-- `cpu->r[reg]`, and an assignment to it, which converts to `uint16_t`.
abbrev pub get_r : {B : Type 0} → ℕ → Action B ℕ
get_r reg = gets λ c. c.r reg

abbrev pub set_r : {B : Type 0} → ℕ → ℕ → Action B (Unit {0})
set_r reg v = modify λ c. record c { r = store c.r reg (u16 v) }

abbrev pub set_psw : {B : Type 0} → ℕ → Action B (Unit {0})
set_psw v = modify λ c. record c { psw = v }

abbrev pub set_cycles : {B : Type 0} → ℕ → Action B (Unit {0})
set_cycles n = modify λ c. record c { cycles = n }

abbrev pub add_cycles : {B : Type 0} → ℕ → Action B (Unit {0})
add_cycles n = modify λ c. record c { cycles = c.cycles + n }

-- `if (b) psw |= mask; else psw &= ~mask;`
abbrev pub put_bit : ℕ → ℕ → Bool → ℕ
put_bit p k b = if b then set_bit p k else clear_bit p k

abbrev pub flag : {B : Type 0} → ℕ → Action B Bool
flag k = gets λ c. has_bit c.psw k

module _ {B : Type 0} where
  unfoldable pub set_nz_word : ℕ → Action B (Unit {0})
  set_nz_word val = do
    modify λ c. record c { psw = put_bit c.psw psw_z (val == 0) }
    modify λ c. record c { psw = put_bit c.psw psw_n (has_bit val 15) }

  unfoldable pub set_nz_byte : ℕ → Action B (Unit {0})
  set_nz_byte val = do
    modify λ c. record c { psw = put_bit c.psw psw_z (val == 0) }
    modify λ c. record c { psw = put_bit c.psw psw_n (has_bit val 7) }

  unfoldable pub set_c : Bool → Action B (Unit {0})
  set_c b = modify λ c. record c { psw = put_bit c.psw psw_c b }

  unfoldable pub set_v : Bool → Action B (Unit {0})
  set_v b = modify λ c. record c { psw = put_bit c.psw psw_v b }

  unfoldable pub get_c : Action B Bool
  get_c = flag psw_c

-- `kEncoderOrder`: the inputs of the board's priority encoder, the first one first.
abbrev pub encoder_order : List ℕ
encoder_order = 2 ∷ 5 ∷ 11 ∷ 9 ∷ 8 ∷ 3 ∷ []

-- The loop of `cpu_sample_requests`.
unfoldable pub first_request : (ℕ → Bool) → List ℕ → ℕ
first_request virq [] = 0
first_request virq (code ∷ codes) = if virq code then code else first_request virq codes

unfoldable pub sample_requests : {B : Type 0} → Action B (Unit {0})
sample_requests = modify λ c. record c { irq_seen = first_request c.irq_virq encoder_order }

module _ {B : Type 0} where
  abbrev pub lines : Cpu B → Lines
  lines c = record { requested = c.irq_virq; vector = c.irq_virq_vec }

  -- The processor after a write has changed the board.
  abbrev pub with_lines : Lines → B → Cpu B → Cpu B
  with_lines l b c = record c { board = b; irq_virq = l.requested; irq_virq_vec = l.vector }

module _ {B : Type 0} ⦃bus : Bus B⦄ where
  -- `board_read_word`, `board_write_word` and the rest, on the board of the processor.
  abbrev pub board_read_word : ℕ → Action B ℕ
  board_read_word a c = let (v, b) = bus.read_word c.board a in (v, record c { board = b })

  abbrev pub board_read_byte : ℕ → Action B ℕ
  board_read_byte a c = let (v, b) = bus.read_byte c.board a in (v, record c { board = b })

  abbrev pub board_write_word : ℕ → ℕ → Action B (Unit {0})
  board_write_word a v =
      modify λ c. with_lines (bus.word_lines c.board a v (lines c)) (bus.write_word c.board a v) c

  abbrev pub board_write_byte : ℕ → ℕ → Action B (Unit {0})
  board_write_byte a v =
      modify λ c. with_lines (bus.byte_lines c.board a v (lines c)) (bus.write_byte c.board a v) c

  abbrev pub board_event : Event → Action B (Unit {0})
  board_event e = modify λ c. record c { board = bus.event c.board e }

  unfoldable pub bus_read_word : ℕ → Action B ℕ
  bus_read_word a = do sample_requests; board_read_word a

  unfoldable pub bus_read_byte : ℕ → Action B ℕ
  bus_read_byte a = do sample_requests; board_read_byte a
