-- ===== src/Core/Hd/Driver.antt =====
-- What the RT-11 driver does with the registers of src/core/src/hd.c: it gives the block, the buffer
-- and the word count, and starts the transfer.
use ms.Base.{
  ℕ, ◌+◌, ◌*◌, ◌%◌, ◌<◌, ◌≤◌, ◌≡◌, Bool, true, false, Option, some, arith, refl, ◌∙◌, sym, ap,
  if◌then◌else◌, Bytes, ◌>>=◌, u32,
}
use ms.Core.Memory.{Memory}
use ms.Core.Memory.Access.{load}
use ms.Core.Hd.Device.{
  Hd, io_data, io_csr, cmd_set_block, cmd_set_buf, cmd_set_wcnt, cmd_read, cmd_write,
}
use ms.Core.Hd.Controller.{transfer, transfer_image, dma, finish, execute, write_register}
use ms.Core.Hd.Dma.{IsBytes, Stored, Stored-bytes, dma-Stored}
use ms.Core.Hd.Load.{Loaded, IsBuffer, dma-Loaded}

module _ {H : Type 0} (malloc : ℕ → Bool) where
  -- The argument to HDDAT, then the command to HDCSR.
  unfoldable pub command : Hd H × Memory → ℕ → ℕ → Option (Hd H × Memory)
  unfolding write_register execute
  command (hd, mem) cmd arg =
      write_register malloc hd mem io_data arg >>= λ s. write_register malloc s.0 s.1 io_csr cmd

  -- A transfer of `n` words between block `b` and the buffer at `a`.
  unfoldable pub request : Bool → ℕ → ℕ → ℕ → Hd H × Memory → Option (Hd H × Memory)
  unfolding command
  request writing b a n s = command s cmd_set_block b >>= λ s. command s cmd_set_buf a >>= λ s.
      command s cmd_set_wcnt n >>= λ s.
      write_register malloc s.0 s.1 io_csr (if writing then cmd_write else cmd_read)

  -- The device when the transfer starts.
  abbrev requested : Hd H → ℕ → ℕ → ℕ → Hd H
  requested hd b a n = record hd {
    block = b;
    bufaddr = a + hd.addr_hi * 65536;
    addr_hi = 0;
    wcount = n;
    data_reg = n;
    status = 0x80;
  }

  request-transfer :
      (writing : Bool) (hd : Hd H) (mem : Memory) (b a n : ℕ)
      → request writing b a n (hd, mem) ≡ transfer malloc (requested hd b a n) mem writing
  unfolding request
  request-transfer true hd mem b a n = refl
  request-transfer false hd mem b a n = refl

  module _ (hd : Hd H) (mem : Memory) (img : Bytes) (b a n : ℕ) (mounted : hd.image ≡ some img)
      (low_buffer : hd.addr_hi ≡ 0) (block_fits : b < 65536) (even : a % 2 ≡ 0)
      (in_space : a + n * 2 ≤ 65536) (on_image : b * 512 + n * 2 ≤ hd.image_size) where
    -- The range check of the transfer passes, and its loop runs from the first byte of the block.
    transfer_image-runs :
        (writing : Bool)
        → transfer_image (requested hd b a n) mem writing img ≡ (
            dma writing (b * 512) a n 0 (img, mem) >>= λ s.
            some (finish (requested hd b a n) writing (b * 512) (n * 2) s.0, s.1))
    unfolding transfer_image
    transfer_image-runs writing =
        let base : u32 (b * 512) ≡ b * 512 = omega arith in
        let buffer : a + hd.addr_hi * 65536 ≡ a = omega arith in ground (arith, base, buffer)

    request-runs :
        (writing : Bool)
        → request writing b a n (hd, mem) ≡ (
            dma writing (b * 512) a n 0 (img, mem) >>= λ s.
            some (finish (requested hd b a n) writing (b * 512) (n * 2) s.0, s.1))
    unfolding transfer
    request-runs writing =
        request-transfer writing hd mem b a n ∙ ground (arith, mounted, transfer_image-runs writing)

    -- A write command stores the buffer in the block: each byte of the buffer is in the image at its
    -- place, the rest of the image and the memory are as they were, the image is marked dirty, and the
    -- command ends ready, with no error.
    pub request-write :
        IsBytes mem
        → (out : Hd H) × (new : Bytes) × (request true b a n (hd, mem) ≡ some (out, mem))
          × (out.image ≡ some new)
          × (out.dirty ≡ true)
          × (out.status ≡ 0x80)
          × (out.image_size ≡ hd.image_size)
          × (out.addr_hi ≡ 0)
          × Stored (b * 512) a 0 n img mem new
    unfolding finish
    request-write bytes =
        let (new, e, s) = dma-Stored (b * 512) a n 0 img mem even bytes in
        (
          finish (requested hd b a n) true (b * 512) (n * 2) new,
          new,
          request-runs true ∙ rw e,
          refl,
          refl,
          refl,
          refl,
          refl,
          s,
        )

    -- A read command loads the block into a buffer in RAM and VRAM: each byte of the block is in the
    -- buffer at its place, every other address reads as it did, the image is as it was, and the
    -- command ends ready, with no error.
    pub request-read :
        ((j : ℕ) → img j < 256)
        → IsBuffer mem a 0 n
        → (out : Hd H) × (mem' : Memory) × (request false b a n (hd, mem) ≡ some (out, mem'))
          × (out.image ≡ some img)
          × (out.status ≡ 0x80)
          × Loaded (b * 512) a 0 n img mem mem'
    unfolding finish
    request-read bytes buffer =
        let (mem', e, l) = dma-Loaded (b * 512) a n 0 img mem even (omega arith) bytes buffer in
        (
          finish (requested hd b a n) false (b * 512) (n * 2) img,
          mem',
          request-runs false ∙ rw e,
          refl,
          refl,
          l,
        )

-- What was written to a block comes back: after a write command from the buffer at `a` and a read
-- command of the same block into the buffer at `a'` (in RAM and VRAM), the buffer at `a'` holds what
-- the buffer at `a` held.
pub request-write_read :
    {H : Type 0} (malloc : ℕ → Bool) (hd : Hd H) (mem : Memory) (img : Bytes) (b a a' n : ℕ)
    → hd.image ≡ some img
    → hd.addr_hi ≡ 0
    → b < 65536
    → a % 2 ≡ 0
    → a + n * 2 ≤ 65536
    → a' % 2 ≡ 0
    → a' + n * 2 ≤ 65536
    → b * 512 + n * 2 ≤ hd.image_size
    → ((j : ℕ) → img j < 256)
    → IsBytes mem
    → IsBuffer mem a' 0 n
    → (out : Hd H) × (mem' : Memory) × ((request malloc true b a n (hd, mem)
          >>= request malloc false b a' n)
        ≡ some (out, mem'))
      × ((i : ℕ) → i < n * 2 → load mem' (a' + i) ≡ load mem (a + i))
request-write_read malloc hd mem img b a a' n mounted lo hb even space even' space' fits bytes mb
      buffer =
    let w = request-write malloc hd mem img b a n mounted lo hb even space fits mb in
    let new = w.1 in
    let s = w.8 in
    let r =
      request-read malloc w.0 mem new b a' n w.3 w.7 hb even' space' (rw w.6 fits)
        (Stored-bytes (b * 512) a n img mem new s mb bytes) buffer in
    (
      r.0,
      r.1,
      rw w.2 r.2,
      λ i h.
          r.5.inside i (omega arith) (omega arith)
          ∙ sym (s.inside i (omega arith) (omega arith))
          ∙ (let e : (a + i) % 65536 ≡ a + i = omega arith in ap (load mem) e),
    )
