-- ===== src/Core/Floppy/Seek.antt =====
-- Where the head of src/core/src/floppy.c is during a SEEK.
use ms.Base.{
  ℕ, zero, suc, ◌+◌, ◌-◌, ◌<◌, ◌≡◌, ◌⊎◌, inl, inr, refl, sym, subst, ◌∙◌, Bool, true, false, ltb,
  leb, if◌then◌else◌, Bool-cases, Option-cases, List, [], ◌∷◌, ◌==◌, ==→eq, ltb→lt, ℤ, bit_and,
  arith,
}
use ms.Core.Floppy.Device.{
  Fdc, Phase, idle, type1_step, type2_search, type2_data, type3_track, finishing, current_track,
  head_sought, mech, schedule_finish, tracks,
}
use ms.Core.Floppy.Commands.{
  accept, arm_type1, depart, dispatch, is_idle, seek_to, start_type1, write, write_command,
}
use ms.Core.Floppy.Phases.{
  advance, await_pulse, by_phase, decay, elapse, finish, is_due, light, move_head, pulsed,
  step_pulse, tick,
}

-- A head that so many pulses take to a track.
abbrev pub Near : Bool → ℕ → ℕ → ℕ → Type 0
Near true t left head = head + left ≡ t
Near false t left head = head ≡ t + left

-- The head on the way to a track, or on it: what is left of the command's pulses is the distance.
unfoldable pub OnCourse : ℕ → ℕ → ℕ → Bool → Bool → Phase → Type 0
OnCourse t head left inward intrq type1_step = (0 < left) × Near inward t left head
OnCourse t head left inward intrq finishing = head ≡ t
OnCourse t head left inward intrq idle = (head ≡ t) × (intrq ≡ true)
OnCourse t head left inward intrq _ = ⊥

pulsed-Near :
    (inward : Bool) (t head left : ℕ)
    → t < tracks
    → 0 < left
    → Near inward t left head
    → Near inward t (left - 1) (pulsed inward head)
unfolding pulsed
pulsed-Near true t head left l h e = ground arith
pulsed-Near false t head left l h e = ground arith

pulsed_last :
    (inward : Bool) (t x left : ℕ) → ltb 0 (left - 1) ≡ false → Near inward t (left - 1) x → x ≡ t
pulsed_last true t x left e h = ground arith
pulsed_last false t x left e h = ground arith

course_by_state :
    (t head left : ℕ) (inward intrq : Bool) (p : Phase)
    → OnCourse t head left inward intrq p
    → is_idle p ≡ true
    → (head ≡ t) × (intrq ≡ true)
unfolding OnCourse
course_by_state t head left inward intrq idle c i = c
course_by_state t head left inward intrq type1_step c i = absurd (ground arith)
course_by_state t head left inward intrq finishing c i = absurd (ground arith)
course_by_state t head left inward intrq type2_search c i = absurd c
course_by_state t head left inward intrq type2_data c i = absurd c
course_by_state t head left inward intrq type3_track c i = absurd c

module _ {H : Type 0} where
  -- A controller on its way to a track.
  abbrev pub Course : ℕ → Fdc H → Type 0
  Course t fdc =
      OnCourse t (current_track fdc) fdc.step_pulses_left fdc.step_inward fdc.intrq fdc.state

  -- What the processor's time does to a controller, a tick after the other.
  unfoldable pub ticks : Fdc H → List ℕ → Fdc H
  ticks fdc [] = fdc
  ticks fdc (c ∷ cs) = ticks (tick fdc c) cs

  move_head_track :
      (fdc : Fdc H) → current_track (move_head fdc) ≡ pulsed fdc.step_inward (current_track fdc)
  unfolding current_track move_head
  move_head_track fdc = ground arith

  to_course :
      (fdc : Fdc H) (t : ℕ) (p : Phase)
      → fdc.state ≡ p
      → OnCourse t (current_track fdc) fdc.step_pulses_left fdc.step_inward fdc.intrq p
      → Course t fdc
  to_course fdc t p e c =
      subst (OnCourse t (current_track fdc) fdc.step_pulses_left fdc.step_inward fdc.intrq) (sym e)
        c

  step_pulse-Course :
      (fdc : Fdc H) (t : ℕ)
      → t < tracks
      → fdc.state ≡ type1_step
      → OnCourse t (current_track fdc) fdc.step_pulses_left fdc.step_inward fdc.intrq type1_step
      → Course t (step_pulse fdc)
  unfolding OnCourse step_pulse await_pulse move_head current_track schedule_finish
  step_pulse-Course fdc t l s (h, c) =
      let near =
        subst (Near fdc.step_inward t (fdc.step_pulses_left - 1)) (sym (move_head_track fdc))
          (pulsed-Near fdc.step_inward t (current_track fdc) fdc.step_pulses_left l h c) in
      elim (Bool-cases (ltb 0 (fdc.step_pulses_left - 1))) [
        | inl e ↦
            rw e (to_course (await_pulse (move_head fdc)) t type1_step s ((ltb→lt _ _ e, near)))
        | inr e ↦ rw e (
            pulsed_last fdc.step_inward t (current_track (move_head fdc)) fdc.step_pulses_left e
              near)
      ]

  by_phase-Course :
      (fdc : Fdc H) (t : ℕ) (p : Phase)
      → t < tracks
      → fdc.state ≡ p
      → OnCourse t (current_track fdc) fdc.step_pulses_left fdc.step_inward fdc.intrq p
      → Course t (by_phase fdc p)
  unfolding OnCourse by_phase finish current_track
  by_phase-Course fdc t type1_step l e c = step_pulse-Course fdc t l e c
  by_phase-Course fdc t finishing l e c = (c, refl)
  by_phase-Course fdc t idle l e c = to_course fdc t idle e c
  by_phase-Course fdc t type2_search l e c = absurd c
  by_phase-Course fdc t type2_data l e c = absurd c
  by_phase-Course fdc t type3_track l e c = absurd c

  advance-Course :
      (fuel : ℕ) (fdc : Fdc H) (t : ℕ) → t < tracks → Course t fdc → Course t (advance fuel fdc)
  unfolding advance
  advance-Course zero fdc t l c = c
  advance-Course (suc fuel) fdc t l c = elim (Bool-cases (is_due fdc)) [
    | inr e ↦ rw e c
    | inl e ↦ rw e (advance-Course fuel _ t l (by_phase-Course fdc t fdc.state l refl c))
  ]

  elapse-Course : (fdc : Fdc H) (cycles t : ℕ) → Course t fdc → Course t (elapse fdc cycles)
  unfolding elapse light decay current_track
  elapse-Course fdc cycles t c = elim (Bool-cases (ltb fdc.selected 4)) [
    | inl e ↦ rw e c
    | inr e ↦ rw e c
  ]

  tick-Course :
      (fdc : Fdc H) (cycles t : ℕ) → t < tracks → Course t fdc → Course t (tick fdc cycles)
  unfolding tick decay current_track
  tick-Course fdc cycles t l c = elim (Bool-cases (is_idle fdc.state)) [
    | inl e ↦ rw e c
    | inr e ↦ rw e (advance-Course _ (elapse fdc cycles) t l (elapse-Course fdc cycles t c))
  ]

  ticks-Course :
      (cs : List ℕ) (fdc : Fdc H) (t : ℕ) → t < tracks → Course t fdc → Course t (ticks fdc cs)
  unfolding ticks
  ticks-Course [] fdc t l c = c
  ticks-Course (k ∷ cs) fdc t l c = ticks-Course cs (tick fdc k) t l (tick-Course fdc k t l c)

  arm-Near :
      (fdc : Fdc H) (t : ℕ)
      → Near (arm_type1 fdc t).step_inward t (arm_type1 fdc t).step_pulses_left (current_track fdc)
        ⊎ ((arm_type1 fdc t).step_pulses_left ≡ 0)
  unfolding arm_type1
  arm-Near fdc t = ground arith

  arm_there : (fdc : Fdc H) (t : ℕ) → (arm_type1 fdc t).step_pulses_left ≡ 0 → current_track fdc ≡ t
  unfolding arm_type1
  arm_there fdc t e = ground arith

  depart-Course :
      (fdc : Fdc H) (t : ℕ) (a : ℤ)
      → 0 < fdc.step_pulses_left
      → Near fdc.step_inward t fdc.step_pulses_left (current_track fdc)
      → Course t (depart (mech fdc head_sought a))
  unfolding mech depart current_track OnCourse
  depart-Course fdc t a h n = elim (Option-cases fdc.mech_cb) [
    | inl e ↦ rw (e, mech) ((h, n))
    | inr (cb, e) ↦ rw (e, mech) ((h, n))
  ]

  arm_track : (fdc : Fdc H) (t : ℕ) → current_track (arm_type1 fdc t) ≡ current_track fdc
  unfolding arm_type1 current_track
  arm_track fdc t = refl

  arrived-Course :
      (fdc : Fdc H) (t s c : ℕ) → current_track fdc ≡ t → Course t (schedule_finish fdc s c)
  unfolding schedule_finish current_track OnCourse
  arrived-Course fdc t s c e = e

  seek_to-Course : (fdc : Fdc H) (t : ℕ) → Course t (seek_to fdc t)
  unfolding seek_to
  seek_to-Course fdc t = elim (Bool-cases ((arm_type1 fdc t).step_pulses_left == 0)) [
    | inl e ↦
        rw e
          (arrived-Course (arm_type1 fdc t) t _ _ (arm_track fdc t ∙ arm_there fdc t (==→eq _ _ e)))
    | inr e ↦ rw e (elim (arm-Near fdc t) [
      | inr z ↦ absurd (ground arith)
      | inl n ↦ depart-Course (arm_type1 fdc t) t _ (ground arith) (
          subst (Near (arm_type1 fdc t).step_inward t (arm_type1 fdc t).step_pulses_left)
            (sym (arm_track fdc t)) n)
    ])
  ]

  seek_write :
      (fdc : Fdc H) (value : ℕ)
      → bit_and value 0xf0 ≡ 0x10
      → write fdc 0 value
        ≡ seek_to (accept fdc value) (if leb tracks fdc.data_reg then 79 else fdc.data_reg)
  unfolding write write_command accept dispatch start_type1
  seek_write fdc value v = rw v refl

  Course-end :
      (fdc : Fdc H) (t : ℕ)
      → Course t fdc
      → is_idle fdc.state ≡ true
      → (current_track fdc ≡ t) × (fdc.intrq ≡ true)
  Course-end fdc t =
      course_by_state t (current_track fdc) fdc.step_pulses_left fdc.step_inward fdc.intrq fdc.state

  -- After a SEEK the head is at the track of the data register, or at the last one for a track past
  -- it, whenever the controller is idle again, however the time is cut into ticks; the end of the
  -- command has been signalled by then.
  pub seek-ticks :
      (fdc : Fdc H) (value : ℕ) (cs : List ℕ)
      → bit_and value 0xf0 ≡ 0x10
      → is_idle (ticks (write fdc 0 value) cs).state ≡ true
      → (current_track (ticks (write fdc 0 value) cs)
          ≡ (if leb tracks fdc.data_reg then 79 else fdc.data_reg))
        × ((ticks (write fdc 0 value) cs).intrq ≡ true)
  seek-ticks fdc value cs v i =
      let t = if leb tracks fdc.data_reg then 79 else fdc.data_reg in
      let on =
        subst (Course t) (sym (seek_write fdc value v)) (seek_to-Course (accept fdc value) t) in
      Course-end _ t (ticks-Course cs (write fdc 0 value) t (ground arith) on) i
