-- ===== src/Disk/Dates/Codes.antt =====
-- Dates and their words in src/disk/src/Build.cpp.
use ms.Base.{
  ℕ, ◌+◌, ◌-◌, ◌*◌, ◌/◌, ◌%◌, ◌<◌, ◌≤◌, ◌≡◌, refl, arith, false, inr, ◌==◌, pos, le→leb,
  ne→==_false, ap, ◌∙◌,
}
use ms.Disk.Dates.{DateParts, decode_date, encode_date}

abbrev word_of : ℕ → ℕ → ℕ → ℕ
word_of y m d = (y - 1972) / 32 * 16384 + m * 1024 + d * 32 + (y - 1972) % 32

encode_date-in_range :
    (y m d : ℕ)
    → 1972 ≤ y
    → y ≤ 2099
    → 1 ≤ m
    → m ≤ 12
    → 1 ≤ d
    → d ≤ 31
    → encode_date (pos y) (pos m) (pos d) ≡ inr (word_of y m d)
unfolding encode_date
encode_date-in_range y m d hy hy' hm hm' hd hd' = rw (ne→==_false y 0 (λ e. omega arith)) (
    rw (le→leb 1972 y hy) (
      rw (le→leb y 2099 hy') (
        rw (le→leb 1 m hm) (
          rw (le→leb m 12 hm')
            (rw (le→leb 1 d hd) (rw (le→leb d 31 hd') (ap inr (omega arith))))))))

date_ext :
    {y y' m m' d d' : ℕ}
    → y ≡ y'
    → m ≡ m'
    → d ≡ d'
    → ◌≡◌ {A = DateParts}
        (record { year = y; month = m; day = d })
        (record { year = y'; month = m'; day = d' })
date_ext {y = y} {y' = y'} {m = m} {m' = m'} {d = d} {d' = d'} a b c =
    ap (λ x. record { year = x; month = m; day = d }) a
    ∙ ap (λ x. record { year = y'; month = x; day = d }) b
    ∙ ap (λ x. record { year = y'; month = m'; day = x }) c

abbrev parts_of : ℕ → DateParts
parts_of w = record {
  year = 1972 + w / 16384 % 4 * 32 + w % 32;
  month = w / 1024 % 16;
  day = w / 32 % 32;
}

decode_date-parts : (w : ℕ) → (w == 0) ≡ false → decode_date w ≡ parts_of w
unfolding decode_date
decode_date-parts w h = rw h refl

not_zero : (w : ℕ) → 1 ≤ (decode_date w).month → (w == 0) ≡ false
unfolding decode_date
not_zero w h = ground arith

-- A year from 1972 to 2099, a month and a day from 1 to 31 have a 16-bit word, which decodes to them.
pub decode_date-encode_date :
    (y m d : ℕ)
    → 1972 ≤ y
    → y ≤ 2099
    → 1 ≤ m
    → m ≤ 12
    → 1 ≤ d
    → d ≤ 31
    → (w : ℕ) × (encode_date (pos y) (pos m) (pos d) ≡ inr w)
      × (w < 65536)
      × (decode_date w ≡ record { year = y; month = m; day = d })
decode_date-encode_date y m d hy hy' hm hm' hd hd' = (
  word_of y m d,
  encode_date-in_range y m d hy hy' hm hm' hd hd',
  omega arith,
  decode_date-parts (word_of y m d) (ne→==_false (word_of y m d) 0 (λ e. omega arith))
      ∙ date_ext (omega arith) (omega arith) (omega arith),
)

-- A word whose month and day fields are in range comes back from the date that it decodes to.
pub encode_date-decode_date :
    (w : ℕ)
    → w < 65536
    → 1 ≤ (decode_date w).month
    → (decode_date w).month ≤ 12
    → 1 ≤ (decode_date w).day
    → encode_date (pos (decode_date w).year) (pos (decode_date w).month) (pos (decode_date w).day)
      ≡ inr w
encode_date-decode_date w h m m' d =
    let e = decode_date-parts w (not_zero w m) in
    let f : (decode_date w).month ≡ w / 1024 % 16 = ap (λ p. p.month) e in
    let g : (decode_date w).day ≡ w / 32 % 32 = ap (λ p. p.day) e in
    rw e (
      encode_date-in_range (1972 + w / 16384 % 4 * 32 + w % 32) (w / 1024 % 16) (w / 32 % 32)
        (omega arith) (omega arith) (omega arith) (omega arith) (omega arith) (omega arith)
      ∙ ap inr (omega arith))
