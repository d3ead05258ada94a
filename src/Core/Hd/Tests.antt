-- ===== src/Core/Hd/Tests.antt =====
-- Runs of src/core/src/hd.c, and the theorems about it at a disk of two blocks.
use ms.Base.{ℕ, ◌+◌, ◌%◌, ◌<◌, ◌≡◌, Bool, true, false, none, some, refl, arith, Bytes, ◌>>=◌}
use mathlib.Core.Option
use ms.Core.Memory.{Memory, read_byte, read_word, translate, translate_window, translate_ram}
use ms.Core.Memory.Translate.{translate-type}
use ms.Core.Memory.Access.{load}
use ms.Core.Hd.Device.{
  Hd, mount, failed, set_backend, set_enabled, set_write_through, unmount, reset,
}
use ms.Core.Hd.Controller.{
  transfer, transfer_backend, handles, read_register_byte, tick, finish, write_back, dma, dma_word,
}
use ms.Core.Hd.Dma.{IsBytes}
use ms.Core.Hd.Load.{IsBuffer}
use ms.Core.Hd.Commands.{transfer-refused}
use ms.Core.Hd.Driver.{request, request-write_read}

abbrev image : Bytes
image i = i % 256

abbrev disk : Hd ℕ
disk = record {
  enabled = true;
  image = some image;
  image_size = 1024;
  dirty = false;
  unit = 0;
  block = 0;
  bufaddr = 0;
  addr_hi = 0;
  wcount = 0;
  data_reg = 0;
  status = 0x80;
  activity_remaining = 5;
  write_cb = none;
  backend_read = none;
  backend_write = none;
  backend_blocks = 0;
  host = 0;
}

abbrev granted : ℕ → Bool
granted _ = true

abbrev plain : Memory
plain = record {
  ram_bytes = λ i. i % 256;
  rom_bytes = λ _. 0;
  vram_bytes = λ _. 0;
  dispatcher = 0x7f;
  rom_extended = false;
  vram_write_hook = none;
}

odd_size : (mount granted disk none 700).0 ≡ false
unfolding mount
odd_size = refl

lamp_goes_out : (tick disk 9).activity_remaining ≡ 0
unfolding tick
lamp_goes_out = refl

registers : (handles 0xd3 ≡ true) × (read_register_byte disk 0xd0 ≡ 0x80)
unfolding handles read_register_byte
registers = (refl, refl)

-- A backend that fills every block with its number of reads so far.
abbrev counting_host : ℕ → ℕ → ℕ → Bytes × ℕ
counting_host h block n = ((λ _. h), h + 1)

backend_runs :
    Option.map
      (λ s. s.0.host)
      (transfer granted
        (record (set_backend disk (some counting_host) none 4) { wcount = 1 })
        plain
        true)
    ≡ some 1
unfolding transfer transfer_backend set_backend dma dma_word write_back read_word translate
    translate_window translate_ram
backend_runs = refl

switches :
    ((set_enabled disk false).enabled ≡ false)
    × ((unmount disk).image_size ≡ 0)
    × ((reset disk).activity_remaining ≡ 0)
unfolding set_enabled unmount reset
switches = (refl, refl, refl)

told : (finish (set_write_through disk (some (λ h base n b. base + n))) true 512 4 image).host ≡ 516
unfolding finish set_write_through
told = refl

plain-IsBytes : IsBytes plain
unfolding load read_byte
plain-IsBytes a v h = ground arith

plain-IsBuffer : IsBuffer plain 0o2000 0 2
plain-IsBuffer i a b = ground (arith, translate-type plain (0o2000 + i))

transfer-refused_example :
    transfer granted (record disk { block = 1; wcount = 257 }) plain true
    ≡ some (failed (record disk { block = 1; wcount = 257 }), plain)
transfer-refused_example =
    transfer-refused granted (record disk { block = 1; wcount = 257 }) plain true (omega arith) refl

request-write_read_example :
    (out : Hd ℕ) × (mem : Memory) × ((request granted true 1 0o1000 2 (disk, plain)
        >>= request granted false 1 0o2000 2)
      ≡ some (out, mem))
    × ((i : ℕ) → i < 4 → load mem (0o2000 + i) ≡ load plain (0o1000 + i))
request-write_read_example =
    request-write_read granted disk plain image 1 0o1000 0o2000 2 refl refl (omega arith) refl
      (omega arith) refl (omega arith) (omega arith) (λ j. omega arith) plain-IsBytes plain-IsBuffer
