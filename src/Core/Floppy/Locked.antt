-- ===== src/Core/Floppy/Locked.antt =====
-- Write protection in src/core/src/floppy.c.
use ms.Base.{
  ℕ, zero, suc, ◌+◌, ◌≡◌, inl, inr, refl, ◌∙◌, Bool, true, false, ltb, leb, if◌then◌else◌, Option,
  Bytes, has_bit, u8,
}
use ms.Core.Floppy.Device.{
  Fdc, File, Phase, idle, type1_step, type2_search, type2_data, type3_track, finishing, byte_cycles,
  current_drive, schedule_finish, sectors, track_starve_cycles, write_sector, write_sector_at,
}
use ms.Core.Floppy.Commands.{is_idle}
use ms.Core.Floppy.Phases.{
  advance, await_pulse, by_phase, decay, elapse, finish, flush, is_due, is_reading, move_head,
  present, read_byte, read_next, request, search, step_pulse, tick, tick_write_track, transfer,
  write_byte,
}
use ms.Core.Floppy.Sectors.{read_sector-cases}
use ms.Core.Floppy.Reading.{elapse_drive}
use ms.Core.Floppy.Delivery.{elapse_keeps}

module _ {H : Type 0} where
  -- Every drive is write-protected, and the files are these.
  unfoldable pub Locked : (ℕ → Option File) → Fdc H → Type 0
  Locked fs fdc = (fdc.files ≡ fs) × ((i : ℕ) → (fdc.drives i).read_only ≡ true)

module _ {H : Type 0} (fs : ℕ → Option File) where
  pub Locked-if :
      (b : Bool) (x y : Fdc H) → Locked fs x → Locked fs y → Locked fs (if b then x else y)
  Locked-if true x y p q = p
  Locked-if false x y p q = q

  pub write_sector_at-Locked :
      (fdc : Fdc H) (sector : ℕ) (bytes : Bytes)
      → Locked fs fdc
      → write_sector_at fdc sector bytes ≡ (false, fdc)
  unfolding Locked write_sector_at current_drive
  write_sector_at-Locked fdc sector bytes (f, r) = rw (r fdc.selected) refl

  pub finish-Locked : (fdc : Fdc H) (s c : ℕ) → Locked fs fdc → Locked fs (schedule_finish fdc s c)
  unfolding Locked schedule_finish
  finish-Locked fdc s c k = k

  request-Locked : (fdc : Fdc H) → Locked fs fdc → Locked fs (request fdc)
  unfolding Locked request
  request-Locked fdc k = k

  present-Locked : (fdc : Fdc H) → Locked fs fdc → Locked fs (present fdc)
  unfolding Locked present request
  present-Locked fdc k = k

  step_pulse-Locked : (fdc : Fdc H) → Locked fs fdc → Locked fs (step_pulse fdc)
  unfolding Locked step_pulse move_head await_pulse schedule_finish
  step_pulse-Locked fdc k = Locked-if (ltb 0 (move_head fdc).step_pulses_left) _ _ k k

  search-Locked : (fdc : Fdc H) → Locked fs fdc → Locked fs (search fdc)
  unfolding Locked search present request schedule_finish
  search-Locked fdc k = elim (read_sector-cases fdc) [
    | inl (b, h, e) ↦ rw e (Locked-if (is_reading fdc) _ _ k k)
    | inr (b, h, e) ↦ rw e (Locked-if (is_reading fdc) _ _ k k)
  ]

  read_next-Locked : (fdc : Fdc H) → Locked fs fdc → Locked fs (read_next fdc)
  unfolding Locked read_next present request schedule_finish
  read_next-Locked fdc k =
      let next = record fdc { sector_reg = u8 (fdc.sector_reg + 1) } in
      elim (read_sector-cases next) [
        | inl (b, h, e) ↦ rw e (Locked-if (ltb sectors next.sector_reg) _ _ k k)
        | inr (b, h, e) ↦ rw e (Locked-if (ltb sectors next.sector_reg) _ _ k k)
      ]

  read_byte-Locked : (fdc : Fdc H) → Locked fs fdc → Locked fs (read_byte fdc)
  unfolding read_byte
  read_byte-Locked fdc k =
      Locked-if (ltb fdc.buf_pos fdc.buf_len) _ _ (present-Locked fdc k)
        (Locked-if (has_bit fdc.command 4) _ _ (read_next-Locked fdc k) (finish-Locked fdc _ _ k))

  flush-Locked : (fdc : Fdc H) → Locked fs fdc → Locked fs (flush fdc)
  unfolding flush write_sector
  flush-Locked fdc k =
      rw (write_sector_at-Locked fdc fdc.sector_reg fdc.buffer k) (finish-Locked fdc _ _ k)

  write_byte-Locked : (fdc : Fdc H) → Locked fs fdc → Locked fs (write_byte fdc)
  unfolding write_byte request Locked
  write_byte-Locked fdc k =
      Locked-if (ltb (suc fdc.buf_pos) fdc.buf_len) _ _ k
        (flush-Locked (record fdc { buf_pos = suc fdc.buf_pos }) k)

  transfer-Locked : (fdc : Fdc H) → Locked fs fdc → Locked fs (transfer fdc)
  unfolding transfer Locked
  transfer-Locked fdc k =
      Locked-if fdc.drq _ _ k
        (Locked-if (is_reading fdc) _ _ (read_byte-Locked fdc k) (write_byte-Locked fdc k))

  tick_write_track-Locked : (fdc : Fdc H) → Locked fs fdc → Locked fs (tick_write_track fdc)
  unfolding tick_write_track Locked request schedule_finish
  tick_write_track-Locked fdc k =
      Locked-if fdc.drq _ _
        (Locked-if (leb track_starve_cycles (fdc.wt_starved + byte_cycles)) _ _ k k)
        (Locked-if (ltb 0 fdc.wt_bytes_left) _ _ k k)

  by_phase-Locked : (fdc : Fdc H) (p : Phase) → Locked fs fdc → Locked fs (by_phase fdc p)
  unfolding by_phase finish Locked
  by_phase-Locked fdc type1_step k = step_pulse-Locked fdc k
  by_phase-Locked fdc type2_search k = search-Locked fdc k
  by_phase-Locked fdc type2_data k = transfer-Locked fdc k
  by_phase-Locked fdc type3_track k = tick_write_track-Locked fdc k
  by_phase-Locked fdc finishing k = k
  by_phase-Locked fdc idle k = k

  advance-Locked : (n : ℕ) (fdc : Fdc H) → Locked fs fdc → Locked fs (advance n fdc)
  unfolding advance
  advance-Locked zero fdc k = k
  advance-Locked (suc n) fdc k =
      Locked-if (is_due fdc) _ _
        (advance-Locked n (by_phase fdc fdc.state) (by_phase-Locked fdc fdc.state k)) k

  elapse-Locked : (fdc : Fdc H) (c : ℕ) → Locked fs fdc → Locked fs (elapse fdc c)
  unfolding Locked
  elapse-Locked fdc c (f, r) = (
    elapse_keeps (λ x. x.files) fdc (λ ds n. refl) c ∙ f,
    λ i. elapse_drive (λ drv. drv.read_only) (λ drv n. refl) fdc c i ∙ r i,
  )

  pub tick-Locked : (fdc : Fdc H) (c : ℕ) → Locked fs fdc → Locked fs (tick fdc c)
  unfolding tick Locked decay
  tick-Locked fdc c k =
      Locked-if (is_idle fdc.state) _ _ k (advance-Locked _ (elapse fdc c) (elapse-Locked fdc c k))
