-- ===== src/Core/Floppy/Layout.antt =====
-- Where the units that `fdc_attach` of src/core/src/floppy.c has mounted keep their sectors.
use ms.Base.{
  ℕ, ◌+◌, ◌-◌, ◌*◌, ◌<◌, ◌≡◌, inl, inr, refl, ap, ◌∙◌, Bool, not, leb, ◌==◌, if◌then◌else◌,
  Bool-cases, some, lt→leb_false, eq→==, arith,
}
use ms.Core.Floppy.Device.{Fdc, Drive, File, disk_offset, disk_size, logical_units}
use ms.Core.Floppy.Mount.{attach, detach, fopen, set_drive, with_image}

-- The sides that an image of so many bytes has, and which of them a unit is.
abbrev pub sides_of : ℕ → ℕ
sides_of size = if size == 2 * disk_size then 2 else 1

abbrev pub side_of : ℕ → ℕ → ℕ
side_of size unit = if size == 2 * disk_size then if leb 2 unit then 1 else 0 else 0

module _ {H : Type 0} where
  image_offset :
      (drv : Drive H) (unit path : ℕ) (ro : Bool) (size t s : ℕ)
      → disk_offset (with_image drv unit path ro size) t s
        ≡ ((t * sides_of size + side_of size unit) * 10 + (s - 1)) * 512
  unfolding disk_offset with_image
  image_offset drv unit path ro size t s = elim (Bool-cases (size == 819200)) [
    | inl e ↦ elim (Bool-cases (leb 2 unit)) [
      | inl d ↦ rw e (rw d (omega arith))
      | inr d ↦ rw e (rw d (omega arith))
    ]
    | inr e ↦ rw e (omega arith)
  ]

  attached :
      (fdc : Fdc H) (unit path : ℕ) (ro : Bool) (f : File)
      → unit < logical_units
      → fopen fdc.files path (not ro) ≡ some f
      → (drv : Drive H) × ((attach fdc unit path ro).1.drives unit
          ≡ with_image drv unit path ro f.size)
  unfolding attach detach set_drive
  attached fdc unit path ro f l o =
      rw (lt→leb_false logical_units unit l)
        (rw o (rw (eq→== {a = unit} {b = unit} refl) (((detach fdc unit).drives unit, refl))))

  -- A unit that `fdc_attach` has mounted keeps sector `s` of track `t` where the image has it: the
  -- tracks one after the other, on each of them the sides that the file's size says it has, on each
  -- side ten sectors; the units from 2 on are the second side of a double-sided image.
  pub disk_offset-attach :
      (fdc : Fdc H) (unit path : ℕ) (ro : Bool) (f : File) (t s : ℕ)
      → unit < logical_units
      → fopen fdc.files path (not ro) ≡ some f
      → disk_offset ((attach fdc unit path ro).1.drives unit) t s
        ≡ ((t * sides_of f.size + side_of f.size unit) * 10 + (s - 1)) * 512
  disk_offset-attach fdc unit path ro f t s l o =
      let (drv, e) = attached fdc unit path ro f l o in
      ap (λ d. disk_offset d t s) e ∙ image_offset drv unit path ro f.size t s
