-- ===== src/Core/Hd/Controller.antt =====
-- The commands of src/core/src/hd.c, their transfers, and the registers that the board reads and writes.
use ms.Base.{
  ℕ, zero, suc, ◌+◌, ◌-◌, ◌*◌, ◌/◌, ◌%◌, Bool, true, false, ◌||◌, not, Option, none, some, ◌==◌,
  ltb, if◌then◌else◌, u8, u16, u32, low, high, word, with_low, with_high, Bytes, store, ◌>>=◌,
}
use ms.Core.Memory.{Memory, translate, read_word, write_word}
use ms.Core.Hd.Device.{
  Hd, block_size, cmd_get_size, cmd_read, cmd_set_block, cmd_set_buf, cmd_set_unit, cmd_set_wcnt,
  cmd_write, cs_ready, failed, io_csr, io_csr_hi, io_data, moved, unit_blocks,
}

-- `hd_handles`
unfoldable pub handles : ℕ → Bool
handles offset =
    offset == io_csr || offset == io_csr_hi || offset == io_data || offset == io_data + 1

-- One round of the loops of `hd_transfer` and `hd_transfer_backend`: word `w` of the transfer,
-- between the bytes from `base` on and the memory from `bufaddr` on.
unfoldable pub dma_word : Bool → ℕ → ℕ → ℕ → Bytes × Memory → Option (Bytes × Memory)
dma_word writing base bufaddr w (img, mem) =
    let off = base + w * 2 in
    let tr = translate mem (u16 (bufaddr + w * 2)) in
    if writing
    then (read_word mem tr >>= λ v. some (store (store img off (low v)) (off + 1) (high v), mem))
    else write_word mem tr (word (img off) (img (off + 1))) >>= λ mem'. some (img, mem')

-- The loop, with so many words left from word `w` on.
unfoldable pub dma : Bool → ℕ → ℕ → ℕ → ℕ → Bytes × Memory → Option (Bytes × Memory)
dma writing base bufaddr zero w s = some s
dma writing base bufaddr (suc left) w s =
    dma_word writing base bufaddr w s >>= λ s'. dma writing base bufaddr left (w + 1) s'

module _ {H : Type 0} where
  -- The end of `hd_transfer` after its loop: on a write the host is told of the range.
  unfoldable pub finish : Hd H → Bool → ℕ → ℕ → Bytes → Hd H
  finish hd writing base bytes img =
      if writing
      then moved (record hd {
        image = some img;
        dirty = true;
        host = elim (hd.write_cb) [
          | none ↦ hd.host
          | some cb ↦ cb hd.host base bytes (λ i. img (base + i))
        ];
      })
      else moved (record hd { image = some img })

  -- The image branch of `hd_transfer`.
  unfoldable pub transfer_image : Hd H → Memory → Bool → Bytes → Option (Hd H × Memory)
  transfer_image hd mem writing img =
      let bytes = hd.wcount * 2 in
      let base = u32 (hd.block * block_size) in
      if ltb hd.image_size base || ltb (hd.image_size - base) bytes
      then some (failed hd, mem)
      else dma writing base hd.bufaddr hd.wcount 0 (img, mem) >>= λ s.
          some (finish hd writing base bytes s.0, s.1)

  -- The end of `hd_transfer_backend`: a write hands the whole blocks back to the host.
  unfoldable pub write_back : Hd H → Bool → ℕ → Bytes → Hd H
  write_back hd writing nblk buf =
      if writing
      then elim (hd.backend_write) [
        | none ↦ moved hd
        | some write_fn ↦ moved (record hd { host = write_fn hd.host hd.block nblk buf })
      ]
      else moved hd

  -- `hd_transfer_backend`
  unfoldable pub transfer_backend :
      (ℕ → Bool) → Hd H → Memory → Bool → (H → ℕ → ℕ → Bytes × H) → Option (Hd H × Memory)
  transfer_backend malloc hd mem writing read_fn =
      let nblk = (hd.wcount * 2 + block_size - 1) / block_size in
      let (buf, host') = read_fn hd.host hd.block nblk in
      if ltb hd.backend_blocks hd.block || ltb (hd.backend_blocks - hd.block) nblk
      then some (failed hd, mem)
      else if nblk == 0
      then some (record hd { status = cs_ready }, mem)
      else if not (malloc (nblk * block_size))
      then some (failed hd, mem)
      else dma writing 0 hd.bufaddr hd.wcount 0 (buf, mem) >>= λ s.
          some (write_back (record hd { host = host' }) writing nblk s.0, s.1)

  -- `hd_transfer`
  unfoldable pub transfer : (ℕ → Bool) → Hd H → Memory → Bool → Option (Hd H × Memory)
  transfer malloc hd mem writing = elim (hd.image) [
    | some img ↦ transfer_image hd mem writing img
    | none ↦ elim (hd.backend_read) [
      | none ↦ some (failed hd, mem)
      | some read_fn ↦ transfer_backend malloc hd mem writing read_fn
    ]
  ]

  -- `hd_execute`
  unfoldable pub execute : (ℕ → Bool) → Hd H → Memory → ℕ → ℕ → Option (Hd H × Memory)
  execute malloc hd0 mem cmd arg =
      let hd = record hd0 { status = cs_ready } in
      let c = u8 cmd in
      if c == cmd_set_unit
      then some (record hd { unit = arg % 8 }, mem)
      else if c == cmd_set_block
      then some (record hd { block = arg }, mem)
      else if c == cmd_set_buf
      then some (record hd { bufaddr = arg + hd.addr_hi * 65536; addr_hi = 0 }, mem)
      else if c == cmd_set_wcnt
      then some (record hd { wcount = arg }, mem)
      else if c == cmd_read
      then transfer malloc hd mem false
      else if c == cmd_write
      then transfer malloc hd mem true
      else if c == cmd_get_size
      then some (record hd { data_reg = u16 (unit_blocks hd) }, mem)
      else some (failed hd, mem)

  -- `hd_read_word`
  unfoldable pub read_register : Hd H → ℕ → ℕ
  read_register hd offset =
      if offset == io_csr then hd.status else if offset == io_data then hd.data_reg else 0

  -- `hd_read_byte`
  unfoldable pub read_register_byte : Hd H → ℕ → ℕ
  read_register_byte hd offset =
      if offset == io_csr
      then low hd.status
      else if offset == io_csr_hi
      then high hd.status
      else if offset == io_data
      then low hd.data_reg
      else if offset == io_data + 1
      then high hd.data_reg
      else 0

  -- `hd_write_word`
  unfoldable pub write_register : (ℕ → Bool) → Hd H → Memory → ℕ → ℕ → Option (Hd H × Memory)
  write_register malloc hd mem offset value =
      if offset == io_data
      then some (record hd { data_reg = value }, mem)
      else if offset == io_csr
      then execute malloc hd mem value hd.data_reg
      else if offset == io_csr_hi
      then some (record hd { addr_hi = low value }, mem)
      else some (hd, mem)

  -- `hd_write_byte`
  unfoldable pub write_register_byte : (ℕ → Bool) → Hd H → Memory → ℕ → ℕ → Option (Hd H × Memory)
  write_register_byte malloc hd mem offset value =
      if offset == io_data
      then some (record hd { data_reg = with_low hd.data_reg value }, mem)
      else if offset == io_data + 1
      then some (record hd { data_reg = with_high hd.data_reg value }, mem)
      else if offset == io_csr_hi
      then some (record hd { addr_hi = value }, mem)
      else if offset == io_csr
      then execute malloc hd mem value hd.data_reg
      else some (hd, mem)

  -- `hd_tick`
  unfoldable pub tick : Hd H → ℕ → Hd H
  tick hd cycles =
      if ltb cycles hd.activity_remaining
      then record hd { activity_remaining = hd.activity_remaining - cycles }
      else record hd { activity_remaining = 0 }
