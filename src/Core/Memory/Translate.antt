-- ===== src/Core/Memory/Translate.antt =====
-- `mem_translate` of src/core/src/memory.c: where an address of the CPU lands.
use ms.Base.{
  ℕ, ◌+◌, ◌/◌, ◌%◌, ◌<◌, ◌≡◌, ◌==◌, ◌&&◌, min, ◌-◌, if◌then◌else◌, leb, sym, ◌∙◌, arith, has_bit,
  ap,
}
use ms.Core.Memory.{
  AddrType, Translation, Memory, translate, translate_window, translate_ram, vram_window_start,
  vram_window_end, ram_size, rom_size, vram_size, next,
}

-- The size of the storage that a translation points into (the 128 registers for I/O).
abbrev pub extent : AddrType → ℕ
extent AddrType.ram = ram_size
extent AddrType.rom = rom_size
extent AddrType.vram = vram_size
extent AddrType.io = 256
extent AddrType.denied = 0

translate_window_bounds :
    (m : Memory) (address : ℕ)
    → address < 65536
    → (translate_window m address).offset < extent (translate_window m address).type
unfolding translate_window translate_ram vram_window_start vram_window_end
translate_window_bounds m address h = ground arith

translate_window-type :
    (m : Memory) (address : ℕ)
    → (translate_window m address).type ≡ (
        if has_bit m.dispatcher 7 && (address / 16384 == min 2 (m.dispatcher / 1024 % 4))
        then AddrType.vram
        else AddrType.ram)
unfolding translate_window translate_ram vram_window_start vram_window_end
translate_window-type m address = ground arith

-- Every 16-bit address lands inside the storage of its kind, so no assert of the accessors fails on
-- it; none is unmapped, since `denied` has no storage at all.
pub translate_bounds :
    (m : Memory) (address : ℕ)
    → address < 65536
    → (translate m address).offset < extent (translate m address).type
unfolding translate
translate_bounds m address h = ground (arith, translate_window_bounds m address h)

-- The kinds by address. I/O takes exactly the top 256 addresses; ROM the 8 KB below them, or the
-- 16 KB with extended ROM; VRAM an address below those inside the window of the dispatcher, when
-- it is enabled; RAM the rest.
pub translate-type :
    (m : Memory) (address : ℕ)
    → (translate m address).type ≡ (
        if leb 0o177400 address
        then AddrType.io
        else if leb (if m.rom_extended then 0o140000 else 0o160000) address
        then AddrType.rom
        else if has_bit m.dispatcher 7 && (address / 16384 == min 2 (m.dispatcher / 1024 % 4))
        then AddrType.vram
        else AddrType.ram)
unfolding translate
translate-type m address = ground (arith, translate_window-type m address)

-- The address that lands on a place of the storage.
abbrev pub address_of : Memory → Translation → ℕ
address_of m tr = elim (tr.type) [
  | AddrType.io ↦ tr.offset + 0o177400
  | AddrType.rom ↦ if m.rom_extended then tr.offset + 0o140000 else tr.offset + 0o160000 - 8192
  | AddrType.vram ↦ tr.offset + vram_window_start m.dispatcher
  | AddrType.ram ↦ tr.offset % 65536
  | AddrType.denied ↦ 0
]

address_of-translate_ram :
    (m : Memory) (address : ℕ) → address < 65536 → address_of m (translate_ram m address) ≡ address
unfolding translate_ram
address_of-translate_ram m address h = ground arith

address_of-translate_window :
    (m : Memory) (address : ℕ)
    → address < 65536
    → address_of m (translate_window m address) ≡ address
unfolding translate_window vram_window_start vram_window_end
address_of-translate_window m address h = ground (arith, address_of-translate_ram m address h)

-- The address can be read back from where it lands.
pub address_of-translate :
    (m : Memory) (address : ℕ) → address < 65536 → address_of m (translate m address) ≡ address
unfolding translate
address_of-translate m address h = ground (arith, address_of-translate_window m address h)

-- No two addresses of the CPU land on the same byte: within one setting of the dispatcher the
-- mapping has no aliases.
pub translate_injective :
    (m : Memory) (a b : ℕ) → a < 65536 → b < 65536 → translate m a ≡ translate m b → a ≡ b
translate_injective m a b ha hb e =
    sym (address_of-translate m a ha) ∙ ap (address_of m) e ∙ address_of-translate m b hb

same_bank : (address : ℕ) → address % 2 ≡ 0 → (address + 1) / 8192 ≡ address / 8192
same_bank address even = omega arith

translate_ram-next :
    (m : Memory) (address : ℕ)
    → address % 2 ≡ 0
    → translate_ram m (address + 1) ≡ next (translate_ram m address)
unfolding translate_ram
translate_ram-next m address even = ground (arith, same_bank address even)

window_edges :
    (d address : ℕ)
    → address % 2 ≡ 0
    → (leb (vram_window_start d) (address + 1) ≡ leb (vram_window_start d) address)
      × (leb (address + 1) (vram_window_end d) ≡ leb address (vram_window_end d))
unfolding vram_window_start vram_window_end
window_edges d address even = (ground arith, ground arith)

translate_window-next :
    (m : Memory) (address : ℕ)
    → address % 2 ≡ 0
    → address < 0o160000
    → translate_window m (address + 1) ≡ next (translate_window m address)
unfolding translate_window vram_window_start vram_window_end
translate_window-next m address even h =
    ground (arith, translate_ram-next m address even, window_edges m.dispatcher address even)

-- The two bytes of a word at an even address are neighbours in the storage too: the word does
-- not cross a bank, a window or the edge of the ROM.
pub translate-next :
    (m : Memory) (address : ℕ)
    → address < 65536
    → address % 2 ≡ 0
    → translate m (address + 1) ≡ next (translate m address)
unfolding translate
translate-next m address h even = ground (arith, translate_window-next m address even)
