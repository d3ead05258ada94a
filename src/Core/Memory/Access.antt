-- ===== src/Core/Memory/Access.antt =====
-- The accessors of src/core/src/memory.c at the addresses of the CPU: reads after writes, what a
-- write leaves alone, and where the asserts hold.
use ms.Base.{
  ℕ, ◌+◌, ◌%◌, ◌<◌, ◌≡◌, ◌≢◌, ◌⊎◌, Option, none, some, arith, ◌==◌, if◌then◌else◌, high, u8, word,
  refl, sym, ap, ◌∙◌, subst, List, ◌∷◌, u16,
}
use ms.Core.Memory.{
  AddrType, Translation, Memory, translate, translate_window, translate_ram, read_byte, read_word,
  write_byte, write_word, next,
}
use ms.Core.Memory.Translate.{extent, translate_bounds, translate_injective, translate-next}

-- The storage that a write changes.
abbrev pub IsWritable : AddrType → Type 0
IsWritable t = (t ≡ AddrType.ram) ⊎ (t ≡ AddrType.vram)

-- The bus view: what the CPU finds at an address.
unfoldable pub load : Memory → ℕ → Option ℕ
load m address = read_byte m (translate m address)

-- Where an address lands hangs on the dispatcher and the ROM switch only.
pub translate_frame :
    (m n : Memory) (address : ℕ)
    → n.dispatcher ≡ m.dispatcher
    → n.rom_extended ≡ m.rom_extended
    → translate n address ≡ translate m address
unfolding translate translate_window translate_ram
translate_frame m n address d r = rw (d, r)

-- A read inside the storage passes its assert.
pub read_byte-total :
    (m : Memory) (tr : Translation)
    → tr.offset < extent tr.type
    → (v : ℕ) × (read_byte m tr ≡ some v)
unfolding read_byte
read_byte-total m tr h = go tr.type refl
  where
    go : (t : AddrType) → tr.type ≡ t → (v : ℕ) × (read_byte m tr ≡ some v)
    go AddrType.ram e = (m.ram_bytes tr.offset, ground arith)
    go AddrType.rom e = (m.rom_bytes tr.offset, ground arith)
    go AddrType.vram e = (m.vram_bytes tr.offset, ground arith)
    go AddrType.io e = (0, ground arith)
    go AddrType.denied e = (0, ground arith)

-- A write to ROM, to an I/O place or to nowhere is ignored.
pub write_byte_ignored :
    (m : Memory) (tr : Translation) (v : ℕ)
    → (tr.type ≢ AddrType.ram)
    → (tr.type ≢ AddrType.vram)
    → write_byte m tr v ≡ some m
unfolding write_byte
write_byte_ignored m tr v a b = ground arith

place_ne : (tr tr' : Translation) → tr' ≢ tr → tr'.type ≡ tr.type → tr'.offset ≢ tr.offset
place_ne tr tr' ne t o = ne (λ i. record { type = t i; offset = o i })

-- What a write to RAM or VRAM makes of the memory.
unfoldable pub written : Memory → Translation → ℕ → Memory
unfolding write_byte
written m tr v = elim (write_byte m tr v) [ none ↦ m | some n ↦ n ]

pub write_byte-total :
    (m : Memory) (tr : Translation) (v : ℕ)
    → tr.offset < extent tr.type
    → write_byte m tr v ≡ some (written m tr v)
unfolding written
write_byte-total m tr v h = ground arith

read_byte-written_self :
    (m : Memory) (tr : Translation) (v : ℕ)
    → IsWritable tr.type
    → tr.offset < extent tr.type
    → read_byte (written m tr v) tr ≡ some v
unfolding written read_byte
read_byte-written_self m tr v w h = ground arith

read_byte-written_ne :
    (m : Memory) (tr tr' : Translation) (v : ℕ)
    → tr' ≢ tr
    → read_byte (written m tr v) tr' ≡ read_byte m tr'
unfolding written read_byte
read_byte-written_ne m tr tr' v ne = ground (arith, place_ne tr tr' ne)

written_frame :
    (m : Memory) (tr : Translation) (v : ℕ)
    → ((written m tr v).dispatcher ≡ m.dispatcher)
      × ((written m tr v).rom_extended ≡ m.rom_extended)
unfolding written
written_frame m tr v = ground arith

-- A byte written at a RAM or VRAM address reads back there, every other address of the CPU reads
-- as before, and the write itself succeeds.
pub load-write_byte :
    (m : Memory) (a b v : ℕ)
    → a < 65536
    → b < 65536
    → IsWritable (translate m a).type
    → let n = written m (translate m a) v in
      (write_byte m (translate m a) v ≡ some n) × (load n b ≡ (if b == a then some v else load m b))
unfolding load
load-write_byte m a b v ha hb w = (
  write_byte-total m (translate m a) v (translate_bounds m a ha),
  ground (
    arith,
    translate_frame m (written m (translate m a) v) b,
    written_frame m (translate m a) v,
    read_byte-written_self m (translate m a) v w (translate_bounds m a ha),
    read_byte-written_ne m (translate m a) (translate m b) v,
    translate_injective m b a hb ha,
  ),
)

-- A word read at an even address never fails an assert, and is made of the bytes at the address
-- and at the one after it, low byte first.
pub read_word-load :
    (m : Memory) (a : ℕ)
    → a < 65536
    → a % 2 ≡ 0
    → (lo : ℕ) × (hi : ℕ) × (load m a ≡ some lo)
      × (load m (a + 1) ≡ some hi)
      × (read_word m (translate m a) ≡ some (word lo hi))
unfolding load read_word
read_word-load m a h even =
    let l = read_byte-total m (translate m a) (translate_bounds m a h) in
    let r = read_byte-total m (translate m (a + 1)) (translate_bounds m (a + 1) (omega arith)) in
    (l.0, r.0, l.1, r.1, ground (arith, l.1, r.1, translate-next m a h even))

-- What a word write makes of the memory.
unfoldable pub written_word : Memory → Translation → ℕ → Memory
unfolding written
written_word m tr v = written (written m tr (u8 v)) (next tr) (high v)

module _ (m : Memory) (a v : ℕ) (ha : a < 65536) (even : a % 2 ≡ 0) (hv : v < 65536)
    (w : IsWritable (translate m a).type) where
  abbrev mid : Memory
  mid = written m (translate m a) (u8 v)

  mid_next : next (translate m a) ≡ translate mid (a + 1)
  mid_next =
      sym (translate-next m a ha even)
      ∙ sym (
          translate_frame m mid (a + 1) (written_frame m (translate m a) (u8 v)).0
            (written_frame m (translate m a) (u8 v)).1)

  mid_writable : IsWritable (translate mid (a + 1)).type
  mid_writable = subst (λ tr. IsWritable tr.type) mid_next w

  written_word-mid : written_word m (translate m a) v ≡ written mid (translate mid (a + 1)) (high v)
  unfolding written_word
  written_word-mid = ap (λ tr. written mid tr (high v)) mid_next

  write_word-total : write_word m (translate m a) v ≡ some (written_word m (translate m a) v)
  unfolding write_word written_word
  write_word-total = cc (
    write_byte-total m (translate m a) (u8 v) (translate_bounds m a ha),
    mid_next,
    write_byte-total mid (translate mid (a + 1)) (high v)
        (translate_bounds mid (a + 1) (omega arith)),
  )

  -- A word written at an even RAM or VRAM address succeeds: its low byte reads back there, its
  -- high byte at the address after it, and every other address of the CPU reads as before.
  pub load-write_word :
      (b : ℕ)
      → b < 65536
      → (write_word m (translate m a) v ≡ some (written_word m (translate m a) v))
        × (load (written_word m (translate m a) v) b
            ≡ (if b == a then some (u8 v) else if b == a + 1 then some (high v) else load m b))
  load-write_word b hb = (
    write_word-total,
    ground (
      arith,
      written_word-mid,
      (load-write_byte m a b (u8 v) ha hb w).1,
      (load-write_byte mid (a + 1) b (high v) (omega arith) hb mid_writable).1,
    ),
  )

-- The observer of VRAM writes hears of a word write twice, low byte first, and of no write that
-- lands elsewhere.
pub write_word-hook :
    (m n : Memory) (tr : Translation) (v : ℕ) (seen : List (ℕ × ℕ))
    → m.vram_write_hook ≡ some seen
    → write_word m tr v ≡ some n
    → n.vram_write_hook
      ≡ some (elim (tr.type) [
        | AddrType.vram ↦ (u16 (tr.offset + 1), high v) ∷ (u16 tr.offset, u8 v) ∷ seen
        | _ ↦ seen
      ])
unfolding write_word
write_word-hook m n tr v seen e h = ground arith

-- A word write leaves the mapping as it is.
pub translate-written_word :
    (m : Memory) (tr : Translation) (v b : ℕ) → translate (written_word m tr v) b ≡ translate m b
unfolding written_word
translate-written_word m tr v b =
    let f = written_frame m tr (u8 v) in
    let g = written_frame (written m tr (u8 v)) (next tr) (high v) in
    translate_frame m (written (written m tr (u8 v)) (next tr) (high v)) b (g.0 ∙ f.0) (g.1 ∙ f.1)
