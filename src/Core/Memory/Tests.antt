-- ===== src/Core/Memory/Tests.antt =====
-- Runs of src/core/src/memory.c on small inputs, and the theorems at a machine with the VRAM
-- window open at 0 and bank 2 switched to its extended half.
use ms.Base.{◌%◌, ◌≡◌, false, none, some, [], refl, arith, inr}
use ms.Core.Memory.{
  AddrType, Translation, Memory, init, load_rom, translate, translate_window, translate_ram,
  vram_window_start, vram_window_end, read_word, write_word,
}
use ms.Core.Memory.Access.{load, written_word, load-write_word}

abbrev machine : Memory
machine = record {
  ram_bytes = λ i. i % 251;
  rom_bytes = λ i. i % 7;
  vram_bytes = λ _. 0;
  dispatcher = 0xfb;
  rom_extended = false;
  vram_write_hook = some [];
}

-- The window, an extended bank, a primary bank, the ROM and the I/O page.
translate_runs :
    (translate machine 0o100 ≡ record { type = AddrType.vram; offset = 64 })
    × (translate machine 0o40002 ≡ record { type = AddrType.ram; offset = 81922 })
    × (translate machine 0o120000 ≡ record { type = AddrType.ram; offset = 40960 })
    × (translate machine 0o160000 ≡ record { type = AddrType.rom; offset = 8192 })
    × (translate machine 0o177402 ≡ record { type = AddrType.io; offset = 2 })
unfolding translate translate_window translate_ram vram_window_start vram_window_end
translate_runs = (refl, refl, refl, refl, refl)

-- A word access at the last byte of the window runs past the VRAM: the assert fails.
word_past_window : read_word machine (translate machine 0o37777) ≡ none
unfolding translate translate_window vram_window_start vram_window_end read_word
word_past_window = refl

load_rom_limit : load_rom init (λ _. 1) 16385 ≡ none
unfolding load_rom
load_rom_limit = refl

load-write_word_example :
    let n = written_word machine (translate machine 0o100) 0x1234 in
    (write_word machine (translate machine 0o100) 0x1234 ≡ some n) × (load n 0o101 ≡ some 0x12)
unfolding translate translate_window vram_window_start vram_window_end
load-write_word_example =
    load-write_word machine 0o100 0x1234 (omega arith) refl (omega arith) (inr refl) 0o101
      (omega arith)

abbrev window_place : Translation
window_place = record { type = AddrType.vram; offset = 64 }
