-- ===== src/Core/Floppy/Sectors.antt =====
-- What the transfers of a sector in src/core/src/floppy.c leave as it is.
use ms.Base.{
  ℕ, ◌≡◌, refl, ◌⊎◌, inl, inr, Bool, true, false, Bool-cases, Option, some, Option-cases, Bytes,
  store,
}
use ms.Core.Floppy.Device.{
  Fdc, File, Handle, current_drive, current_track, read_sector, buffered, write_image,
  write_sector_at, fread_sector, fwrite_sector, disk_offset, sector_in_range, sector_size,
}

module _ {H : Type 0} where
  abbrev pub with_buffer : Fdc H → Bytes → H → Fdc H
  with_buffer fdc bytes host = record fdc { buffer = bytes; host = host }

  abbrev pub with_sector : Fdc H → Bytes → H → Fdc H
  with_sector fdc bytes host = record fdc {
    buffer = bytes;
    host = host;
    buf_pos = 0;
    buf_len = sector_size;
  }

  abbrev pub with_files : Fdc H → (ℕ → Option File) → H → Fdc H
  with_files fdc files host = record fdc { files = files; host = host }

  -- A sector read fills the buffer or fails, and touches nothing else.
  pub read_sector-cases :
      (fdc : Fdc H)
      → ((b : Bytes) × (h : H) × (read_sector fdc ≡ (true, with_sector fdc b h)))
        ⊎ ((b : Bytes) × (h : H) × (read_sector fdc ≡ (false, with_buffer fdc b h)))
  unfolding read_sector buffered
  read_sector-cases fdc = elim (Bool-cases (sector_in_range fdc.sector_reg)) [
    | inr e ↦ rw e (inr (fdc.buffer, fdc.host, refl))
    | inl e ↦ rw e (elim (Option-cases ((current_drive fdc).backend_read)) [
      | inr (read_fn, d) ↦
          let got = read_fn fdc.host (current_track fdc) fdc.sector_reg fdc.buffer in
          rw d (elim (Bool-cases got.0) [
            | inl g ↦ rw g (inl (got.1.0, got.1.1, refl))
            | inr g ↦ rw g (inr (got.1.0, got.1.1, refl))
          ])
      | inl d ↦ rw d (elim (Option-cases ((current_drive fdc).image)) [
        | inl i ↦ rw i (inr (fdc.buffer, fdc.host, refl))
        | inr (f, i) ↦ rw i (
            inl (
              fread_sector (fdc.files f.path)
                  (disk_offset (current_drive fdc) (current_track fdc) fdc.sector_reg),
              fdc.host,
              refl,
            ))
      ])
    ])
  ]

  write_image-cases :
      (fdc : Fdc H) (f : Handle) (offset : ℕ) (bytes : Bytes)
      → (ok : Bool) × (fs : ℕ → Option File) × (h : H) × (write_image fdc f offset bytes
          ≡ (ok, with_files fdc fs h))
  unfolding write_image
  write_image-cases fdc f offset bytes = elim (Option-cases (fdc.files f.path)) [
    | inl n ↦ rw (n, write_image) ((false, fdc.files, fdc.host, refl))
    | inr (file, n) ↦
        rw (n, write_image)
          (elim (Bool-cases f.update) [
            | inl u ↦
                let written = store fdc.files f.path (some (fwrite_sector file offset bytes)) in
                rw u ((true, written, fdc.host, refl))
            | inr u ↦ rw u ((false, fdc.files, fdc.host, refl))
          ])
  ]

  -- A sector written changes the files or the host, and touches nothing else.
  pub write_sector_at-cases :
      (fdc : Fdc H) (sector : ℕ) (bytes : Bytes)
      → (ok : Bool) × (fs : ℕ → Option File) × (h : H) × (write_sector_at fdc sector bytes
          ≡ (ok, with_files fdc fs h))
  unfolding write_sector_at
  write_sector_at-cases fdc sector bytes = elim (Bool-cases ((current_drive fdc).read_only)) [
    | inl e ↦ rw e ((false, fdc.files, fdc.host, refl))
    | inr e ↦ rw e (elim (Bool-cases (sector_in_range sector)) [
      | inr s ↦ rw s ((false, fdc.files, fdc.host, refl))
      | inl s ↦ rw s (elim (Option-cases ((current_drive fdc).backend_write)) [
        | inr (write_fn, d) ↦
            let got = write_fn fdc.host (current_track fdc) sector bytes in
            rw d ((got.0, fdc.files, got.1, refl))
        | inl d ↦ rw d (elim (Option-cases ((current_drive fdc).image)) [
          | inl i ↦ rw i ((false, fdc.files, fdc.host, refl))
          | inr (f, i) ↦ rw i (write_image-cases fdc f _ bytes)
        ])
      ])
    ])
  ]
