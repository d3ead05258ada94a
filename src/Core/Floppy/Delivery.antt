-- ===== src/Core/Floppy/Delivery.antt =====
-- A READ SECTOR of src/core/src/floppy.c on an image, from its command to its last byte.
use ms.Base.{
  ℕ, ◌<◌, ◌≤◌, ◌≡◌, ◌⊎◌, inl, inr, refl, ap, ap₂, sym, subst, ◌∙◌, true, false, not, ◌||◌, ltb,
  ◌==◌, Bool-cases, none, some, List, length, All, Bytes, loads, ℤ, pos, ltb_ℤ, ◌-ℤ◌, bit_and,
  arith, all_below_sound, eq→==,
}
use ms.Core.Floppy.Device.{
  Fdc, Drive, type2_search, type2_data, Handle, buffered, current_drive, current_track, disk_offset,
  drive_ready, fread_sector, read_sector, sector_in_range, sector_size, byte_cycles, search_cycles,
  st_busy,
}
use ms.Core.Floppy.Commands.{accept, dispatch, if_ready, is_idle, start_type2, write, write_command}
use ms.Core.Floppy.Phases.{
  by_phase, decay, elapse, is_due, is_reading, light, present, request, search, tick,
}
use ms.Core.Floppy.Reading.{
  Waiting, advance-Waiting, bounded_add, elapse_drive, elapse_remaining, overdue, serve,
  serve-Waiting, tick_due,
}

-- The two commands of the group: one sector, and many.
read_group :
    (value : ℕ)
    → value < 256
    → bit_and value 0xe0 ≡ 0x80
    → (bit_and value 0xf0 ≡ 0x80) ⊎ (bit_and value 0xf0 ≡ 0x90)
read_group value l e = ground (
  arith,
  all_below_sound 256
      (λ v. not (bit_and v 224 == 128) || bit_and v 240 == 128 || bit_and v 240 == 144) value refl
      l,
)

module _ {H : Type 0} where
  -- What `start_type2` makes of a READ SECTOR on a drive that is ready.
  abbrev searching : Fdc H → ℕ → Fdc H
  searching fdc value = record (accept fdc value) {
    buffer = fdc.buffer;
    buf_pos = 0;
    buf_len = sector_size;
    state = type2_search;
    cycles_remaining = pos search_cycles;
    status = st_busy;
  }

  write-searching :
      (fdc : Fdc H) (value : ℕ)
      → value < 256
      → bit_and value 0xe0 ≡ 0x80
      → drive_ready fdc ≡ true
      → write fdc 0 value ≡ searching fdc value
  unfolding write write_command dispatch start_type2 if_ready accept drive_ready current_drive
  write-searching fdc value l e r = elim (read_group value l e) [
    | inl g ↦ rw g (rw r refl)
    | inr g ↦ rw g (rw r refl)
  ]

  -- The sector that the controller reads from an image.
  unfoldable pub sector_of : Fdc H → Handle → Bytes
  sector_of fdc f =
      fread_sector (fdc.files f.path)
        (disk_offset (current_drive fdc) (current_track fdc) fdc.sector_reg)

  read_image :
      (fdc : Fdc H) (f : Handle)
      → sector_in_range fdc.sector_reg ≡ true
      → (current_drive fdc).backend_read ≡ none
      → (current_drive fdc).image ≡ some f
      → read_sector fdc ≡ (true, buffered fdc (sector_of fdc f))
  unfolding read_sector sector_of current_drive
  read_image fdc f s b i = rw s (rw b (rw i refl))

  search_found :
      (fdc : Fdc H) (b : Bytes)
      → fdc.state ≡ type2_search
      → is_reading fdc ≡ true
      → read_sector fdc ≡ (true, buffered fdc b)
      → by_phase fdc fdc.state
        ≡ present (record (buffered fdc b) { status = st_busy; state = type2_data })
  unfolding by_phase search is_reading present request buffered
  search_found fdc b s r e = ap (by_phase fdc) s ∙ rw e (rw r refl)

  search-Waiting :
      (fdc : Fdc H) (b : Bytes)
      → fdc.state ≡ type2_search
      → is_reading fdc ≡ true
      → ltb_ℤ (pos 0) fdc.cycles_remaining ≡ false
      → read_sector fdc ≡ (true, buffered fdc b)
      → Waiting b 0 (by_phase fdc fdc.state)
  unfolding Waiting present request buffered is_reading
  search-Waiting fdc b s r d e =
      subst (Waiting b 0) (sym (search_found fdc b s r e))
        (refl, refl, r, refl, refl, refl, refl, bounded_add fdc.cycles_remaining d)

  search_due :
      (fdc : Fdc H)
      → fdc.state ≡ type2_search
      → ltb_ℤ (pos 0) fdc.cycles_remaining ≡ false
      → is_due fdc ≡ true
  unfolding is_due
  search_due fdc s d = rw d (rw s refl)

  pub elapse_keeps {ℓ} :
      {A : Type ℓ} (f : Fdc H → A) (fdc : Fdc H)
      → ((ds : ℕ → Drive H) (r : ℤ) → f (record fdc { drives = ds; cycles_remaining = r }) ≡ f fdc)
      → (c : ℕ) → f (elapse fdc c) ≡ f fdc
  unfolding elapse decay light
  elapse_keeps f fdc k c = elim (Bool-cases (ltb fdc.selected 4)) [
    | inl e ↦ rw e (k _ _)
    | inr e ↦ rw e (k _ _)
  ]

  elapse_current {ℓ} :
      {A : Type ℓ} (f : Drive H → A)
      → ((drv : Drive H) (n : ℕ) → f (record drv { activity_remaining = n }) ≡ f drv)
      → (fdc : Fdc H) (c : ℕ) → f (current_drive (elapse fdc c)) ≡ f (current_drive fdc)
  unfolding current_drive
  elapse_current f k fdc c =
      elapse_drive f k fdc c (elapse fdc c).selected
      ∙ ap (λ i. f (fdc.drives i)) (elapse_keeps (λ x. x.selected) fdc (λ ds r. refl) c)

  elapse_of : (fdc : Fdc H) (c : ℕ) (f : Handle) → sector_of (elapse fdc c) f ≡ sector_of fdc f
  unfolding sector_of current_track disk_offset
  elapse_of fdc c f =
      let x = elapse fdc c in
      ap₂ fread_sector (ap (λ g. g f.path) (elapse_keeps (λ y. y.files) fdc (λ ds r. refl) c)) (
        elapse_current (λ drv. disk_offset drv (current_track x) x.sector_reg) (λ drv n. refl) fdc c
        ∙ ap₂ (disk_offset (current_drive fdc)) (elapse_keeps current_track fdc (λ ds r. refl) c)
            (elapse_keeps (λ y. y.sector_reg) fdc (λ ds r. refl) c))

  searching-Waiting :
      (fdc : Fdc H) (f : Handle) (c : ℕ)
      → fdc.state ≡ type2_search
      → is_reading fdc ≡ true
      → sector_in_range fdc.sector_reg ≡ true
      → (current_drive fdc).backend_read ≡ none
      → (current_drive fdc).image ≡ some f
      → fdc.cycles_remaining ≡ pos search_cycles
      → search_cycles ≤ c
      → Waiting (sector_of fdc f) 0 (tick fdc c)
  unfolding is_reading
  searching-Waiting fdc f c s r g b i t l =
      let x = elapse fdc c in
      let s' = elapse_keeps (λ y. y.state) fdc (λ ds n. refl) c ∙ s in
      let d =
        ap (ltb_ℤ (pos 0)) (elapse_remaining fdc c)
        ∙ ap (λ n. ltb_ℤ (pos 0) (n -ℤ pos c)) t
        ∙ overdue (pos search_cycles) c l in
      let found =
        read_image x f
          (ap sector_in_range (elapse_keeps (λ y. y.sector_reg) fdc (λ ds n. refl) c) ∙ g)
          (elapse_current (λ drv. drv.backend_read) (λ drv n. refl) fdc c ∙ b)
          (elapse_current (λ drv. drv.image) (λ drv n. refl) fdc c ∙ i) in
      let w =
        search-Waiting x (sector_of x f) s' (elapse_keeps is_reading fdc (λ ds n. refl) c ∙ r) d
          found in
      subst (λ bytes. Waiting bytes 0 (tick fdc c)) (elapse_of fdc c f)
        (subst (Waiting (sector_of x f) 0) (sym (tick_due fdc c (ap is_idle s) (search_due x s' d)))
          (advance-Waiting _ _ 0 (by_phase x x.state) w))

  -- A READ SECTOR of a sector that exists, on a ready drive with an image, gives the processor that
  -- sector of the image, byte after byte, zeros for what a short file has not, if the processor
  -- waits for the search and then for a byte time after every byte; it may take longer than that.
  pub serve-write :
      (fdc : Fdc H) (value : ℕ) (f : Handle) (c : ℕ) (cs : List ℕ)
      → value < 256
      → bit_and value 0xe0 ≡ 0x80
      → drive_ready fdc ≡ true
      → sector_in_range fdc.sector_reg ≡ true
      → (current_drive fdc).backend_read ≡ none
      → (current_drive fdc).image ≡ some f
      → search_cycles ≤ c
      → All (λ k. byte_cycles ≤ k) cs
      → length cs ≤ sector_size
      → (serve cs (tick (write fdc 0 value) c)).0 ≡ loads (sector_of fdc f) 0 (length cs)
  unfolding is_reading accept current_drive sector_of current_track
  serve-write fdc value f c cs v e r g b i l a n =
      let w = searching-Waiting (searching fdc value) f c refl (eq→== e) g b i refl l in
      ap (λ x. (serve cs (tick x c)).0) (write-searching fdc value v e r)
      ∙ serve-Waiting (sector_of fdc f) cs 0 (tick (searching fdc value) c) w a (omega arith)
