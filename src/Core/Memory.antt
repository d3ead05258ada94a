-- ===== src/Core/Memory.antt =====
-- src/core/src/memory.c and its header: the address space, bank switching and the storage arrays.
-- An assert that fails is `none`. The write observer is the list of what it has been told, latest
-- first (`none`: no observer is installed).
pub mod Translate
pub mod Access
mod Tests
use ms.Base.{
  ◌>>=◌, ℕ, ◌+◌, ◌-◌, ◌*◌, ◌/◌, ◌%◌, Bool, true, false, ◌&&◌, Option, none, some, List, ◌∷◌, ltb,
  leb, ◌==◌, if◌then◌else◌, has_bit, u8, u16, low, high, word, Bytes, store,
}

abbrev pub bank_size : ℕ
bank_size = 8192

abbrev pub bank_count : ℕ
bank_count = 8

abbrev pub ram_size : ℕ
ram_size = bank_size * bank_count * 2

abbrev pub rom_size : ℕ
rom_size = 16384

abbrev pub vram_size : ℕ
vram_size = 16384

-- `mem_addr_type_t`
pub data AddrType : Type 0 where
  ram rom vram io denied : AddrType

-- `mem_translation_t`
pub record Translation : Type 0 where
  pub type : AddrType
  pub offset : ℕ

-- `ms0515_memory_t`
pub record Memory : Type 0 where
  pub ram_bytes : Bytes
  pub rom_bytes : Bytes
  pub vram_bytes : Bytes
  pub dispatcher : ℕ
  pub rom_extended : Bool
  pub vram_write_hook : Option (List (ℕ × ℕ))

-- `mem_init`
unfoldable pub init : Memory
init = record {
  ram_bytes = λ _. 0;
  rom_bytes = λ _. 0;
  vram_bytes = λ _. 0;
  dispatcher = 0x7f;
  rom_extended = false;
  vram_write_hook = none;
}

-- `mem_set_vram_write_hook`: a new observer has been told nothing, NULL detaches.
unfoldable pub set_vram_write_hook : Memory → Option (List (ℕ × ℕ)) → Memory
set_vram_write_hook m fn = record m { vram_write_hook = fn }

-- `mem_load_rom`: the first `size` bytes of the ROM, `none` where the assert fails.
unfoldable pub load_rom : Memory → Bytes → ℕ → Option Memory
load_rom m image size =
    if leb size rom_size
    then some (record m { rom_bytes = λ i. if ltb i size then image i else m.rom_bytes i })
    else none

-- `(dispatcher >> 10) & 3`
abbrev window : ℕ → ℕ
window dispatcher = dispatcher / 1024 % 4

unfoldable pub vram_window_start : ℕ → ℕ
vram_window_start dispatcher =
    if window dispatcher == 0 then 0 else if window dispatcher == 1 then 0o40000 else 0o100000

unfoldable pub vram_window_end : ℕ → ℕ
vram_window_end dispatcher =
    if window dispatcher == 0 then 0o37777 else if window dispatcher == 1 then 0o77777 else 0o137777

-- Step 4 of `mem_translate`: the bank, primary or extended.
unfoldable pub translate_ram : Memory → ℕ → Translation
translate_ram m address =
    let bank = address / 8192 in
    let offset_in_bank = address % bank_size in
    let phys_bank = if has_bit m.dispatcher bank then bank else bank + bank_count in
    record { type = AddrType.ram; offset = phys_bank * bank_size + offset_in_bank }

-- Steps 3 and 4: the VRAM window where it is enabled, and RAM below it and above it.
unfoldable pub translate_window : Memory → ℕ → Translation
translate_window m address =
    let win_start = vram_window_start m.dispatcher in
    let offset = address - win_start in
    if has_bit m.dispatcher 7 && leb win_start address && leb address (vram_window_end m.dispatcher)
    then record {
      type = AddrType.vram;
      offset = if leb vram_size offset then offset % vram_size else offset;
    }
    else translate_ram m address

-- `mem_translate`
unfoldable pub translate : Memory → ℕ → Translation
translate m address =
    if leb 0o177400 address
    then record { type = AddrType.io; offset = address - 0o177400 }
    else if m.rom_extended
    then if leb 0o140000 address
      then record { type = AddrType.rom; offset = address - 0o140000 }
      else translate_window m address
    else if leb 0o160000 address
    then record { type = AddrType.rom; offset = address - 0o160000 + bank_size }
    else translate_window m address

-- `mem_read_byte`
unfoldable pub read_byte : Memory → Translation → Option ℕ
read_byte m tr = elim (tr.type) [
  | AddrType.ram ↦ if ltb tr.offset ram_size then some (m.ram_bytes tr.offset) else none
  | AddrType.rom ↦ if ltb tr.offset rom_size then some (m.rom_bytes tr.offset) else none
  | AddrType.vram ↦ if ltb tr.offset vram_size then some (m.vram_bytes tr.offset) else none
  | _ ↦ some 0
]

abbrev pub next : Translation → Translation
next tr = record { type = tr.type; offset = tr.offset + 1 }

-- `mem_read_word`
unfoldable pub read_word : Memory → Translation → Option ℕ
unfolding read_byte
read_word m tr = do lo ← read_byte m tr; hi ← read_byte m (next tr); some (word lo hi)

-- What the observer hears of a write: the offset is cast to 16 bits.
abbrev pub notify : Option (List (ℕ × ℕ)) → ℕ → ℕ → Option (List (ℕ × ℕ))
notify none offset val = none
notify (some seen) offset val = some ((u16 offset, val) ∷ seen)

-- `mem_write_byte`
unfoldable pub write_byte : Memory → Translation → ℕ → Option Memory
write_byte m tr val = elim (tr.type) [
  | AddrType.ram ↦
      if ltb tr.offset ram_size
      then some (record m { ram_bytes = store m.ram_bytes tr.offset val })
      else none
  | AddrType.vram ↦
      if ltb tr.offset vram_size
      then some (record m {
        vram_bytes = store m.vram_bytes tr.offset val;
        vram_write_hook = notify m.vram_write_hook tr.offset val;
      })
      else none
  | _ ↦ some m
]

-- `mem_write_word`
unfoldable pub write_word : Memory → Translation → ℕ → Option Memory
unfolding write_byte
write_word m tr val = do m' ← write_byte m tr (u8 val); write_byte m' (next tr) (high val)
