-- ===== src/Core/Hd/Commands.antt =====
-- `hd_transfer` and `hd_execute` of src/core/src/hd.c: the ranges that they refuse, and the sizes
-- that they report.
use ms.Base.{
  leb, Option-cases, inl, inr, ℕ, ◌+◌, ◌*◌, ◌/◌, ◌%◌, ◌<◌, ◌≡◌, Bool, false, none, some, arith,
  refl, ◌==◌, if◌then◌else◌, u16, Bytes, min, word, ◌>>=◌,
}
use ms.Core.Memory.{Memory}
use ms.Core.Hd.Device.{Hd, media_blocks, unit_blocks, failed, io_data, io_csr, cmd_get_size}
use ms.Core.Hd.Controller.{
  transfer, transfer_image, transfer_backend, execute, write_register, write_register_byte,
  read_register,
}

module _ {H : Type 0} (malloc : ℕ → Bool) (hd : Hd H) (mem : Memory) where
  transfer_image-past_end :
      (writing : Bool) (img : Bytes)
      → hd.block < 65536
      → hd.image_size < hd.block * 512 + hd.wcount * 2
      → transfer_image hd mem writing img ≡ some (failed hd, mem)
  unfolding transfer_image
  transfer_image-past_end writing img hb past = ground arith

  transfer_backend-past_end :
      (writing : Bool) (read_fn : H → ℕ → ℕ → Bytes × H)
      → hd.backend_blocks < hd.block + (hd.wcount * 2 + 511) / 512
      → transfer_backend malloc hd mem writing read_fn ≡ some (failed hd, mem)
  unfolding transfer_backend
  transfer_backend-past_end writing read_fn past = ground arith

  -- What a transfer needs of the media: an image, or a backend, on which the whole range lies.
  abbrev pub fits : Bool
  fits = elim (hd.image) [
    | some _ ↦ leb (hd.block * 512 + hd.wcount * 2) hd.image_size
    | none ↦ elim (hd.backend_read) [
      | none ↦ false
      | some _ ↦ leb (hd.block + (hd.wcount * 2 + 511) / 512) hd.backend_blocks
    ]
  ]

  -- A transfer whose range does not lie on the media as a whole (or with no media at all) moves
  -- nothing: the command ends in an error, and the device and the memory are otherwise as they were.
  pub transfer-refused :
      (writing : Bool)
      → hd.block < 65536
      → fits ≡ false
      → transfer malloc hd mem writing ≡ some (failed hd, mem)
  unfolding transfer
  transfer-refused writing hb past = elim (Option-cases hd.image) [
    | inr (img, e) ↦ ground (arith, e, transfer_image-past_end writing img hb)
    | inl e ↦ elim (Option-cases hd.backend_read) [
      | inl n ↦ ground (arith, e, n)
      | inr (read_fn, s) ↦ ground (arith, e, s, transfer_backend-past_end writing read_fn)
    ]
  ]

  -- The driver reads back the size of unit 0 as the blocks on the media, at most 65535; another unit
  -- has none.
  pub execute-get_size :
      (cmd : ℕ)
      → cmd % 256 ≡ cmd_get_size
      → (out : Hd H) × (execute malloc hd mem cmd hd.data_reg ≡ some (out, mem))
        × (read_register out io_data ≡ (if hd.unit == 0 then min (media_blocks hd) 65535 else 0))
        × (read_register out io_csr ≡ 0x80)
  unfolding execute read_register unit_blocks media_blocks
  execute-get_size cmd c =
      let ready : Hd H = record hd { status = 0x80 } in
      (record ready { data_reg = u16 (unit_blocks ready) }, ground arith, ground arith, refl)

-- A register set through its two bytes, low first, is the register set as a word; so the commands of
-- a driver that writes bytes are those of one that writes words.
pub write_register_byte-word :
    {H : Type 0} (malloc : ℕ → Bool) (hd : Hd H) (mem : Memory) (lo hi : ℕ)
    → lo < 256
    → hi < 256
    → (write_register_byte malloc hd mem io_data lo >>= λ s.
        write_register_byte malloc s.0 s.1 (io_data + 1) hi)
      ≡ write_register malloc hd mem io_data (word lo hi)
unfolding write_register_byte write_register
write_register_byte-word malloc hd mem lo hi hl hh = ground arith
