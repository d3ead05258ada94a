-- ===== src/Core/Floppy/Ends.antt =====
-- That the loop of `fdc_tick` in src/core/src/floppy.c ends.
use ms.Base.{
  ℕ, zero, suc, ◌+◌, ◌<◌, ◌≡◌, ◌⊎◌, inl, inr, refl, ap, Bool, true, false, ◌&&◌, not, ltb, leb,
  if◌then◌else◌, Bool-cases, ℤ, pos, negsuc, ◌+ℤ◌, ltb_ℤ, neg_part, subst, sym, u8, has_bit, arith,
}
use ms.Core.Floppy.Device.{
  Fdc, Phase, idle, type1_step, type2_search, type2_data, type3_track, finishing, byte_cycles,
  write_sector, schedule_finish, sectors, track_starve_cycles,
}
use ms.Core.Floppy.Commands.{is_idle}
use ms.Core.Floppy.Sectors.{read_sector-cases, write_sector_at-cases}
use ms.Core.Floppy.Phases.{
  advance, await_pulse, by_phase, is_due, elapse, decay, light, finish, flush, is_reading,
  move_head, present, read_byte, read_next, request, search, step_pulse, tick, tick_write_track,
  transfer, write_byte,
}

-- A due time that something is added to.
later :
    (r : ℤ) (k : ℕ)
    → ltb_ℤ (pos 0) r ≡ false
    → 0 < k
    → (ltb_ℤ (pos 0) (r +ℤ pos k) ≡ true) ⊎ (neg_part (r +ℤ pos k) < neg_part r)
later (pos n) k e h = inl (ground arith)
later (negsuc n) k e h = elim (Bool-cases (ltb_ℤ (pos 0) (negsuc n +ℤ pos k))) [
  | inl d ↦ inl d
  | inr d ↦ inr (ground arith)
]

module _ {H : Type 0} where
  -- What a round of the loop does to the time: it is over, or there is a byte time more, or a pulse's.
  unfoldable Moves : Fdc H → Fdc H → Type 0
  Moves fdc fdc' =
      (is_due fdc' ≡ false)
      ⊎ ((k : ℕ) × (0 < k)
          × (fdc'.cycles_remaining ≡ fdc.cycles_remaining +ℤ pos k)
          × (fdc'.step_rate_cycles ≡ fdc.step_rate_cycles))

  finish_over : (fdc : Fdc H) (s c : ℕ) → is_due (schedule_finish fdc s c) ≡ false
  unfolding is_due schedule_finish
  finish_over fdc s c = ground arith

  schedule_finish-Moves : (fdc fdc' : Fdc H) (s c : ℕ) → Moves fdc (schedule_finish fdc' s c)
  unfolding Moves
  schedule_finish-Moves fdc fdc' s c = inl (finish_over fdc' s c)

  more-Moves :
      (fdc fdc' : Fdc H) (k : ℕ)
      → 0 < k
      → fdc'.cycles_remaining ≡ fdc.cycles_remaining +ℤ pos k
      → fdc'.step_rate_cycles ≡ fdc.step_rate_cycles
      → Moves fdc fdc'
  unfolding Moves
  more-Moves fdc fdc' k h e r = inr (k, h, e, r)

  Moves-if :
      (fdc x y : Fdc H) (b : Bool) → Moves fdc x → Moves fdc y → Moves fdc (if b then x else y)
  Moves-if fdc x y true p q = p
  Moves-if fdc x y false p q = q

  request-Moves :
      (fdc fdc' : Fdc H)
      → fdc'.cycles_remaining ≡ fdc.cycles_remaining
      → fdc'.step_rate_cycles ≡ fdc.step_rate_cycles
      → Moves fdc (request fdc')
  unfolding request
  request-Moves fdc fdc' e r =
      more-Moves fdc (request fdc') byte_cycles (omega arith) (ap (λ c. c +ℤ pos byte_cycles) e) r

  step_pulse-Moves : (fdc : Fdc H) → 0 < fdc.step_rate_cycles → Moves fdc (step_pulse fdc)
  unfolding step_pulse move_head await_pulse
  step_pulse-Moves fdc h =
      Moves-if fdc _ _ (ltb 0 (move_head fdc).step_pulses_left)
        (more-Moves fdc _ fdc.step_rate_cycles h refl refl) (schedule_finish-Moves fdc _ _ _)

  found-Moves :
      (fdc : Fdc H) (reading : Fdc H → Fdc H) (ok : Bool) (fdc' : Fdc H) (s : ℕ)
      → Moves fdc (reading fdc')
      → Moves fdc (if not ok then schedule_finish fdc' s 240 else reading fdc')
  found-Moves fdc reading ok fdc' s h =
      Moves-if fdc _ _ (not ok) (schedule_finish-Moves fdc _ _ _) h

  search-Moves : (fdc : Fdc H) → Moves fdc (search fdc)
  unfolding search present
  search-Moves fdc = elim (read_sector-cases fdc) [
    | inl (b, h, e) ↦ rw e (
        Moves-if fdc _ _ (is_reading fdc) (request-Moves fdc _ refl refl)
          (request-Moves fdc _ refl refl))
    | inr (b, h, e) ↦ rw e (
        Moves-if fdc _ _ (is_reading fdc) (schedule_finish-Moves fdc _ _ _)
          (request-Moves fdc _ refl refl))
  ]

  read_next-Moves : (fdc : Fdc H) → Moves fdc (read_next fdc)
  unfolding read_next present
  read_next-Moves fdc =
      let next = record fdc { sector_reg = u8 (fdc.sector_reg + 1) } in
      elim (read_sector-cases next) [
        | inl (b, h, e) ↦ rw e (
            Moves-if fdc _ _ (ltb sectors next.sector_reg) (schedule_finish-Moves fdc _ _ _)
              (request-Moves fdc _ refl refl))
        | inr (b, h, e) ↦ rw e (
            Moves-if fdc _ _ (ltb sectors next.sector_reg) (schedule_finish-Moves fdc _ _ _)
              (schedule_finish-Moves fdc _ _ _))
      ]

  read_byte-Moves : (fdc : Fdc H) → Moves fdc (read_byte fdc)
  unfolding read_byte present
  read_byte-Moves fdc =
      Moves-if fdc _ _ (ltb fdc.buf_pos fdc.buf_len) (request-Moves fdc _ refl refl) (
        Moves-if fdc _ _ (has_bit fdc.command 4) (read_next-Moves fdc)
          (schedule_finish-Moves fdc _ _ _))

  flush-Moves : (fdc : Fdc H) → Moves fdc (flush fdc)
  unfolding flush write_sector
  flush-Moves fdc =
      let (ok, fs, h, e) = write_sector_at-cases fdc fdc.sector_reg fdc.buffer in
      rw e (
        Moves-if fdc _ _ (not ok) (schedule_finish-Moves fdc _ _ _) (
          Moves-if fdc _ _ (has_bit fdc.command 4 && ltb fdc.sector_reg sectors)
            (request-Moves fdc _ refl refl) (schedule_finish-Moves fdc _ _ _)))

  write_byte-Moves : (fdc : Fdc H) → Moves fdc (write_byte fdc)
  unfolding write_byte flush Moves
  write_byte-Moves fdc =
      Moves-if fdc _ _ (ltb (suc fdc.buf_pos) fdc.buf_len) (request-Moves fdc _ refl refl)
        (flush-Moves (record fdc { buf_pos = suc fdc.buf_pos }))

  transfer-Moves : (fdc : Fdc H) → Moves fdc (transfer fdc)
  unfolding transfer
  transfer-Moves fdc =
      Moves-if fdc _ _ fdc.drq (more-Moves fdc _ byte_cycles (omega arith) refl refl)
        (Moves-if fdc _ _ (is_reading fdc) (read_byte-Moves fdc) (write_byte-Moves fdc))

  tick_write_track-Moves : (fdc : Fdc H) → Moves fdc (tick_write_track fdc)
  unfolding tick_write_track
  tick_write_track-Moves fdc =
      Moves-if fdc _ _ fdc.drq
        (Moves-if fdc _ _ (leb track_starve_cycles (fdc.wt_starved + byte_cycles))
          (schedule_finish-Moves fdc _ _ _) (more-Moves fdc _ byte_cycles (omega arith) refl refl))
        (Moves-if fdc _ _ (ltb 0 fdc.wt_bytes_left) (request-Moves fdc _ refl refl)
          (schedule_finish-Moves fdc _ _ _))

  by_phase-Moves :
      (fdc : Fdc H) (p : Phase)
      → fdc.state ≡ p
      → 0 < fdc.step_rate_cycles
      → Moves fdc (by_phase fdc p)
  unfolding by_phase Moves is_due finish
  by_phase-Moves fdc type1_step e h = step_pulse-Moves fdc h
  by_phase-Moves fdc type2_search e h = search-Moves fdc
  by_phase-Moves fdc type2_data e h = transfer-Moves fdc
  by_phase-Moves fdc type3_track e h = tick_write_track-Moves fdc
  by_phase-Moves fdc finishing e h = inl refl
  by_phase-Moves fdc idle e h = inl (ground (arith, ap is_idle e))

  advance_over : (fuel : ℕ) (fdc : Fdc H) → is_due fdc ≡ false → advance fuel fdc ≡ fdc
  unfolding advance
  advance_over zero fdc e = refl
  advance_over (suc fuel) fdc e = rw e refl

  later_or_over :
      (fdc fdc' : Fdc H)
      → is_due fdc ≡ true
      → Moves fdc fdc'
      → (is_due fdc' ≡ false)
        ⊎ ((neg_part fdc'.cycles_remaining < neg_part fdc.cycles_remaining)
            × (fdc'.step_rate_cycles ≡ fdc.step_rate_cycles))
  unfolding Moves is_due
  later_or_over fdc fdc' d (inl e) = inl e
  later_or_over fdc fdc' d (inr (k, h, c, r)) =
      elim (later fdc.cycles_remaining k (ground arith) h) [
        | inl e ↦ inl (ground (arith, ap (ltb_ℤ (pos 0)) c, e))
        | inr l ↦ inr (subst (λ x. neg_part x < neg_part fdc.cycles_remaining) (sym c) l, r)
      ]

  -- With more rounds to spend than cycles are overdue the loop is over, whatever the phases do.
  advance-over :
      (fuel : ℕ) (fdc : Fdc H)
      → neg_part fdc.cycles_remaining < fuel
      → 0 < fdc.step_rate_cycles
      → is_due (advance fuel fdc) ≡ false
  unfolding advance
  advance-over zero fdc l h = absurd (omega arith)
  advance-over (suc fuel) fdc l h = elim (Bool-cases (is_due fdc)) [
    | inr e ↦ rw e e
    | inl d ↦ rw d (elim (later_or_over fdc _ d (by_phase-Moves fdc fdc.state refl h)) [
      | inl e ↦ rw (advance_over fuel (by_phase fdc fdc.state) e) e
      | inr (m, r) ↦
          advance-over fuel (by_phase fdc fdc.state) (omega arith) (subst (λ x. 0 < x) (sym r) h)
    ])
  ]

  decay_over :
      (fdc : Fdc H) (cycles : ℕ) → is_idle fdc.state ≡ true → is_due (decay fdc cycles) ≡ false
  unfolding is_due decay
  decay_over fdc cycles e = ground arith

  elapse_rate :
      (fdc : Fdc H) (cycles : ℕ)
      → 0 < fdc.step_rate_cycles
      → 0 < (elapse fdc cycles).step_rate_cycles
  unfolding elapse decay light
  elapse_rate fdc cycles h = elim (Bool-cases (ltb fdc.selected 4)) [
    | inl e ↦ rw e h
    | inr e ↦ rw e h
  ]

  -- If the step rate is above zero, a tick of any length leaves the controller idle or with cycles to
  -- wait: the loop of `fdc_tick` ends, however many byte times and pulses fall into the tick.
  pub tick-is_due :
      (fdc : Fdc H) (cycles : ℕ) → 0 < fdc.step_rate_cycles → is_due (tick fdc cycles) ≡ false
  unfolding tick
  tick-is_due fdc cycles h = elim (Bool-cases (is_idle fdc.state)) [
    | inl e ↦ rw e (decay_over fdc cycles e)
    | inr e ↦ rw e (advance-over _ (elapse fdc cycles) (omega arith) (elapse_rate fdc cycles h))
  ]
