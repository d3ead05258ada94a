-- ===== src/Core/Floppy/Reading.antt =====
-- A READ SECTOR of src/core/src/floppy.c from its command to the bytes that the processor gets.
use ms.Base.{
  ℕ, zero, suc, ◌+◌, ◌<◌, ◌≤◌, ◌≡◌, inl, inr, refl, ap, ap₂, sym, subst, ◌∙◌, true, false, ltb,
  ◌==◌, Bool-cases, List, [], ◌∷◌, length, All, Bytes, loads, ℤ, pos, negsuc, pos_part, neg_part,
  ltb_ℤ, ◌+ℤ◌, ◌-ℤ◌, arith, ==→eq,
}
use native.Mathlib.Nat.{le_trans}
use ms.Core.Floppy.Device.{Fdc, Drive, type2_data, sector_size, byte_cycles}
use ms.Core.Floppy.Commands.{is_idle, read}
use ms.Core.Floppy.Phases.{
  advance, by_phase, decay, elapse, is_due, is_reading, light, present, read_byte, request, tick,
  transfer,
}

-- A processor that reads the data register and lets so much time pass, for each number of the list.
unfoldable pub serve : {H : Type 0} → List ℕ → Fdc H → List ℕ × Fdc H
serve [] fdc = ([], fdc)
serve (c ∷ cs) fdc =
    let (value, read') = read fdc 3 in
    let rest = serve cs (tick read' c) in (value ∷ rest.0, rest.1)

pub bounded_add : (r : ℤ) → ltb_ℤ (pos 0) r ≡ false → pos_part (r +ℤ pos byte_cycles) ≤ byte_cycles
bounded_add (pos n) e = ground arith
bounded_add (negsuc n) e = ground arith

pub overdue : (r : ℤ) (c : ℕ) → pos_part r ≤ c → ltb_ℤ (pos 0) (r -ℤ pos c) ≡ false
overdue (pos n) c h = ground arith
overdue (negsuc n) c h = ground arith

module _ {H : Type 0} where
  -- Byte `p` of the sector is in the data register, and the processor is asked to read it.
  unfoldable pub Waiting : Bytes → ℕ → Fdc H → Type 0
  Waiting b p fdc =
      (fdc.state ≡ type2_data)
      × (fdc.drq ≡ true)
      × (is_reading fdc ≡ true)
      × (fdc.buffer ≡ b)
      × (fdc.buf_pos ≡ suc p)
      × (fdc.buf_len ≡ sector_size)
      × (fdc.data_reg ≡ b p)
      × (pos_part fdc.cycles_remaining ≤ byte_cycles)

  transfer_waits :
      (fdc : Fdc H)
      → fdc.state ≡ type2_data
      → fdc.drq ≡ true
      → by_phase fdc fdc.state
        ≡ record fdc { cycles_remaining = fdc.cycles_remaining +ℤ pos byte_cycles }
  unfolding by_phase transfer
  transfer_waits fdc s q = rw s (rw q refl)

  transfer-Waiting :
      (b : Bytes) (p : ℕ) (fdc : Fdc H)
      → is_due fdc ≡ true
      → Waiting b p fdc
      → Waiting b p (by_phase fdc fdc.state)
  unfolding Waiting is_due is_reading
  transfer-Waiting b p fdc d (s, q, r, f, o, n, v, l) =
      subst (Waiting b p) (sym (transfer_waits fdc s q))
        (s, q, r, f, o, n, v, bounded_add fdc.cycles_remaining (ground arith))

  pub advance-Waiting :
      (fuel : ℕ) (b : Bytes) (p : ℕ) (fdc : Fdc H)
      → Waiting b p fdc
      → Waiting b p (advance fuel fdc)
  unfolding advance
  advance-Waiting zero b p fdc w = w
  advance-Waiting (suc fuel) b p fdc w = elim (Bool-cases (is_due fdc)) [
    | inl e ↦
        rw e (advance-Waiting fuel b p (by_phase fdc fdc.state) (transfer-Waiting b p fdc e w))
    | inr e ↦ rw e w
  ]

  -- A byte served: one to go to the data register.
  unfoldable Served : Bytes → ℕ → Fdc H → Type 0
  Served b p fdc =
      (fdc.state ≡ type2_data)
      × (fdc.drq ≡ false)
      × (is_reading fdc ≡ true)
      × (fdc.buffer ≡ b)
      × (fdc.buf_pos ≡ p)
      × (fdc.buf_len ≡ sector_size)

  Served-busy : (b : Bytes) (p : ℕ) (fdc : Fdc H) → Served b p fdc → is_idle fdc.state ≡ false
  unfolding Served
  Served-busy b p fdc (s, q, r, f, o, n) = ap is_idle s

  Served-due :
      (b : Bytes) (p : ℕ) (fdc : Fdc H)
      → Served b p fdc
      → ltb_ℤ (pos 0) fdc.cycles_remaining ≡ false
      → is_due fdc ≡ true
  unfolding is_due
  Served-due b p fdc w d = rw d (rw (Served-busy b p fdc w) refl)

  transfer_serves :
      (fdc : Fdc H)
      → fdc.state ≡ type2_data
      → fdc.drq ≡ false
      → is_reading fdc ≡ true
      → ltb fdc.buf_pos fdc.buf_len ≡ true
      → by_phase fdc fdc.state ≡ present fdc
  unfolding by_phase transfer read_byte is_reading present
  transfer_serves fdc s q r l = rw s (rw q (rw r (rw l refl)))

  present-Waiting :
      (b : Bytes) (p : ℕ) (fdc : Fdc H)
      → Served b p fdc
      → ltb_ℤ (pos 0) fdc.cycles_remaining ≡ false
      → p < sector_size
      → Waiting b p (by_phase fdc fdc.state)
  unfolding Waiting Served present request is_reading
  present-Waiting b p fdc (s, q, r, f, o, n) d l =
      subst (Waiting b p) (sym (transfer_serves fdc s q r (ground arith))) (
        s,
        refl,
        r,
        f,
        ap (λ i. suc i) o,
        n,
        ap₂ (λ g i. g i) f o,
        bounded_add fdc.cycles_remaining d,
      )

  read-Served :
      (b : Bytes) (p : ℕ) (fdc : Fdc H) → Waiting b p fdc → Served b (suc p) (read fdc 3).1
  unfolding Waiting Served read is_reading
  read-Served b p fdc (s, q, r, f, o, n, v, l) = (s, refl, r, f, o, n)

  elapse-Served :
      (b : Bytes) (p : ℕ) (fdc : Fdc H) (c : ℕ) → Served b p fdc → Served b p (elapse fdc c)
  unfolding Served elapse decay light is_reading
  elapse-Served b p fdc c w = elim (Bool-cases (ltb fdc.selected 4)) [
    | inl e ↦ rw e w
    | inr e ↦ rw e w
  ]

  pub elapse_remaining :
      (fdc : Fdc H) (c : ℕ) → (elapse fdc c).cycles_remaining ≡ fdc.cycles_remaining -ℤ pos c
  unfolding elapse decay light
  elapse_remaining fdc c = elim (Bool-cases (ltb fdc.selected 4)) [
    | inl e ↦ rw e refl
    | inr e ↦ rw e refl
  ]

  pub tick_due :
      (fdc : Fdc H) (c : ℕ)
      → is_idle fdc.state ≡ false
      → is_due (elapse fdc c) ≡ true
      → tick fdc c
        ≡ advance
            (neg_part (elapse fdc c).cycles_remaining)
            (by_phase (elapse fdc c) (elapse fdc c).state)
  unfolding tick advance
  tick_due fdc c s d = rw s (rw d refl)

  tick-Served :
      (b : Bytes) (p : ℕ) (fdc : Fdc H) (c : ℕ)
      → Served b p fdc
      → pos_part fdc.cycles_remaining ≤ c
      → p < sector_size
      → Waiting b p (tick fdc c)
  tick-Served b p fdc c w h l =
      let x = elapse fdc c in
      let d = ap (ltb_ℤ (pos 0)) (elapse_remaining fdc c) ∙ overdue fdc.cycles_remaining c h in
      let w' = elapse-Served b p fdc c w in
      subst (Waiting b p) (sym (tick_due fdc c (Served-busy b p fdc w) (Served-due b p x w' d)))
        (advance-Waiting _ b p (by_phase x x.state) (present-Waiting b p x w' d l))

  Waiting-byte : (b : Bytes) (p : ℕ) (fdc : Fdc H) → Waiting b p fdc → (read fdc 3).0 ≡ b p
  unfolding Waiting read
  Waiting-byte b p fdc (s, q, r, f, o, n, v, l) = v

  Waiting-time :
      (b : Bytes) (p : ℕ) (fdc : Fdc H)
      → Waiting b p fdc
      → pos_part (read fdc 3).1.cycles_remaining ≤ byte_cycles
  unfolding Waiting read
  Waiting-time b p fdc (s, q, r, f, o, n, v, l) = l

  -- From a byte in the data register on, the processor gets the sector's bytes in their order.
  pub serve-Waiting :
      (b : Bytes) (cs : List ℕ) (p : ℕ) (fdc : Fdc H)
      → Waiting b p fdc
      → All (λ c. byte_cycles ≤ c) cs
      → p + length cs ≤ sector_size
      → (serve cs fdc).0 ≡ loads b p (length cs)
  unfolding serve loads
  serve-Waiting b [] p fdc w a l = refl
  serve-Waiting b (c ∷ []) p fdc w a l = ap (λ v. v ∷ []) (Waiting-byte b p fdc w)
  serve-Waiting b (c ∷ d ∷ cs) p fdc w (h, a) l =
      let next =
        tick-Served b (suc p) (read fdc 3).1 c (read-Served b p fdc w)
          (le_trans (Waiting-time b p fdc w) h) (omega arith) in
      ap₂ ◌∷◌ (Waiting-byte b p fdc w) (
        serve-Waiting b (d ∷ cs) (suc p) (tick (read fdc 3).1 c) next a (omega arith)
        ∙ ap (λ i. loads b i (length (d ∷ cs))) (omega arith))

  pub elapse_drive {ℓ} :
      {A : Type ℓ} (f : Drive H → A)
      → ((drv : Drive H) (n : ℕ) → f (record drv { activity_remaining = n }) ≡ f drv)
      → (fdc : Fdc H) (c i : ℕ) → f ((elapse fdc c).drives i) ≡ f (fdc.drives i)
  unfolding elapse decay light
  elapse_drive f k fdc c i = elim (Bool-cases (ltb fdc.selected 4)) [
    | inr e ↦ rw e (k (fdc.drives i) _)
    | inl e ↦ rw e (elim (Bool-cases (i == fdc.selected)) [
      | inl s ↦ rw s (
          k (fdc.drives fdc.selected) _ ∙ ap (λ j. f (fdc.drives j)) (sym (==→eq i fdc.selected s)))
      | inr s ↦ rw s (k (fdc.drives i) _)
    ])
  ]
