-- ===== src/Disk/Layout/Floppy.antt =====
-- One side of a diskette in src/disk/src/Layout.cpp: the interleave and skew of the OS driver and
-- their inverse.
use ms.Base.{
  ℕ, zero, suc, ◌+◌, ◌-◌, ◌*◌, ◌/◌, ◌%◌, ◌<◌, ◌≤◌, ◌≡◌, Bool, true, false, arith, refl, ap, ap₂,
  ◌∙◌, if◌then◌else◌, ltb, pos, sub_ℕ, wrap,
}
use ms.Disk.Layout.{interleave, inverse, lbn_to_byte_floppy, lbn_from_phys}

-- The tables as arithmetic: even sectors first, then odd ones.
interleave-eq : (i : ℕ) → i < 10 → interleave i ≡ (if ltb i 5 then 2 * i else 2 * i - 9)
unfolding interleave
interleave-eq zero h = refl
interleave-eq (suc zero) h = refl
interleave-eq (suc (suc zero)) h = refl
interleave-eq (suc (suc (suc zero))) h = refl
interleave-eq (suc (suc (suc (suc zero)))) h = refl
interleave-eq (suc (suc (suc (suc (suc zero))))) h = refl
interleave-eq (suc (suc (suc (suc (suc (suc zero)))))) h = refl
interleave-eq (suc (suc (suc (suc (suc (suc (suc zero))))))) h = refl
interleave-eq (suc (suc (suc (suc (suc (suc (suc (suc zero)))))))) h = refl
interleave-eq (suc (suc (suc (suc (suc (suc (suc (suc (suc zero))))))))) h = refl
interleave-eq (suc (suc (suc (suc (suc (suc (suc (suc (suc (suc i)))))))))) h = absurd (omega arith)

inverse-eq : (i : ℕ) → i < 10 → inverse i ≡ i / 2 + i % 2 * 5
unfolding inverse
inverse-eq zero h = refl
inverse-eq (suc zero) h = refl
inverse-eq (suc (suc zero)) h = refl
inverse-eq (suc (suc (suc zero))) h = refl
inverse-eq (suc (suc (suc (suc zero)))) h = refl
inverse-eq (suc (suc (suc (suc (suc zero))))) h = refl
inverse-eq (suc (suc (suc (suc (suc (suc zero)))))) h = refl
inverse-eq (suc (suc (suc (suc (suc (suc (suc zero))))))) h = refl
inverse-eq (suc (suc (suc (suc (suc (suc (suc (suc zero)))))))) h = refl
inverse-eq (suc (suc (suc (suc (suc (suc (suc (suc (suc zero))))))))) h = refl
inverse-eq (suc (suc (suc (suc (suc (suc (suc (suc (suc (suc i)))))))))) h = absurd (omega arith)

-- The physical place of a block: its track and its sector, counted from 0.
abbrev pub track_of : ℕ → ℕ
track_of n = (n / 10 + 1) % 80

abbrev pub sector_of : ℕ → ℕ
sector_of n = wrap (sub_ℕ (interleave (n % 10) + 2 * track_of n) 2) 10

-- `sub_ℕ` and `wrap` together are a remainder with enough tens added.
wrap-sub_ℕ : (a b : ℕ) → b ≤ 160 → wrap (sub_ℕ a b) 10 ≡ (a + 160 - b) % 10
wrap-sub_ℕ a b h = ground arith

sector_of-eq : (n : ℕ) → sector_of n ≡ (interleave (n % 10) + 2 * track_of n + 158) % 10
sector_of-eq n = wrap-sub_ℕ (interleave (n % 10) + 2 * track_of n) 2 (omega arith) ∙ omega arith

pub sector_of-lt : (n : ℕ) → sector_of n < 10
sector_of-lt n = omega (arith, sector_of-eq n)

interleave-lt : (i : ℕ) → i < 10 → interleave i < 10
interleave-lt i h = ground (arith, interleave-eq i h)

inverse-interleave : (i : ℕ) → i < 10 → inverse (interleave i) ≡ i
inverse-interleave i h =
    ground (arith, interleave-eq i h, inverse-eq (interleave i) (interleave-lt i h))

interleave-inverse : (i : ℕ) → i < 10 → interleave (inverse i) ≡ i
interleave-inverse i h =
    ground (arith, inverse-eq i h, interleave-eq (inverse i) (rw (inverse-eq i h) (omega arith)))

-- Where the two formulas of a block lie in the image.
pub floppy-eq :
    (n side : ℕ) (ds : Bool)
    → n < 800
    → lbn_to_byte_floppy (pos n) side ds
      ≡ (if ds then side * 5120 else 0)
        + track_of n * (if ds then 10240 else 5120)
        + sector_of n * 512
unfolding lbn_to_byte_floppy
floppy-eq n side ds h = let e : n % 800 ≡ n = omega arith in rw e (ground arith)

phys-eq :
    (track sector : ℕ)
    → track < 80
    → lbn_from_phys track sector
      ≡ (track + 79) % 80 * 10 + inverse ((sector + 161 - 2 * track) % 10)
unfolding lbn_from_phys
phys-eq track sector h =
    let lt : (track + 80 - 1) % 80 ≡ (track + 79) % 80 = omega arith in
    let s : wrap (sub_ℕ (sector + 1) (2 * track)) 10 ≡ (sector + 161 - 2 * track) % 10 =
      wrap-sub_ℕ (sector + 1) (2 * track) (omega arith) ∙ omega arith in
    ap₂ (λ a b. a * 10 + inverse b) lt s

phys-place : (n : ℕ) → n < 800 → lbn_from_phys (track_of n) (sector_of n + 1) ≡ n
phys-place n h =
    let il = interleave-lt (n % 10) (omega arith) in
    let unskew : (sector_of n + 1 + 161 - 2 * track_of n) % 10 ≡ interleave (n % 10) =
      omega (arith, sector_of-eq n, il) in
    phys-eq (track_of n) (sector_of n + 1) (omega arith)
    ∙ ap (λ k. (track_of n + 79) % 80 * 10 + inverse k) unskew
    ∙ ap (λ k. (track_of n + 79) % 80 * 10 + k) (inverse-interleave (n % 10) (omega arith))
    ∙ omega arith

-- The disk controller finds a block where the image keeps it: from the byte offset of block `n`, the
-- track and the 1-based sector that hold it lead back to `n`. The offset is a whole block inside the
-- 400 KB side.
pub phys-floppy :
    (n : ℕ)
    → n < 800
    → let off = lbn_to_byte_floppy (pos n) 0 false in
      (lbn_from_phys (off / 5120) (off % 5120 / 512 + 1) ≡ n)
      × (off % 512 ≡ 0)
      × (off + 512 ≤ 409600)
phys-floppy n h =
    let e = floppy-eq n 0 false h in
    let t = sector_of-lt n in
    let track : lbn_to_byte_floppy (pos n) 0 false / 5120 ≡ track_of n = omega (arith, e, t) in
    let sector : lbn_to_byte_floppy (pos n) 0 false % 5120 / 512 ≡ sector_of n =
      omega (arith, e, t) in
    (
      ap₂ (λ a b. lbn_from_phys a (b + 1)) track sector ∙ phys-place n h,
      omega (arith, e, t),
      omega (arith, e, t),
    )

-- Every sector of the side holds a block: `lbnFromPhys` names it, and the image keeps that block in
-- that sector of that track.
pub floppy-phys :
    (track sector : ℕ)
    → track < 80
    → 1 ≤ sector
    → sector ≤ 10
    → (lbn_from_phys track sector < 800)
      × (lbn_to_byte_floppy (pos (lbn_from_phys track sector)) 0 false
          ≡ track * 5120 + (sector - 1) * 512)
floppy-phys track sector ht hs h =
    let q : ℕ = (sector + 161 - 2 * track) % 10 in
    let n : ℕ = (track + 79) % 80 * 10 + inverse q in
    let n_lt : n < 800 = omega (arith, inverse-eq q (omega arith)) in
    let e = phys-eq track sector ht in
    let digit : n % 10 ≡ inverse q = omega (arith, inverse-eq q (omega arith)) in
    let place : sector_of n ≡ sector - 1 =
      sector_of-eq n ∙ omega (arith, ap interleave digit, interleave-inverse q (omega arith)) in
    let track' : track_of n ≡ track = omega (arith, inverse-eq q (omega arith)) in
    (
      rw e n_lt,
      ap (λ k. lbn_to_byte_floppy (pos k) 0 false) e
          ∙ floppy-eq n 0 false n_lt
          ∙ omega (arith, place, track'),
    )

-- On a double-sided image the two sides share no block: a block's offset tells its side and the
-- offset that the block has on a single-sided image.
pub floppy-double :
    (n side : ℕ)
    → n < 800
    → side < 2
    → let off = lbn_to_byte_floppy (pos n) side true in
      (off % 10240 / 5120 ≡ side)
      × (off / 10240 * 5120 + off % 5120 ≡ lbn_to_byte_floppy (pos n) 0 false)
      × (off + 512 ≤ 819200)
floppy-double n side h hs =
    let e = floppy-eq n side true h in
    let s = floppy-eq n 0 false h in
    let t = sector_of-lt n in (omega (arith, e, t), omega (arith, e, s, t), omega (arith, e, t))
