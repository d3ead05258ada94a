-- ===== src/Disk/Dates.antt =====
-- The date word of an RT-11 directory entry: `encodeDate` and `decodeDate` of src/disk/src/Build.cpp.
pub mod Codes
mod Tests
use ms.Base.{
  ℕ, ◌+◌, ◌-◌, ◌*◌, ◌/◌, ◌%◌, ◌^◌, Bool, true, false, ◌&&◌, not, ◌⊎◌, inl, inr, ◌==◌, leb,
  if◌then◌else◌, ℤ, pos, negsuc, u16,
}

-- `DateParts`
pub record DateParts : Type 0 where
  pub year : ℕ
  pub month : ℕ
  pub day : ℕ

-- What `encodeDate` throws.
pub data DateError : Type 0 where
  bad_year bad_month bad_day : DateError

-- `decodeDate`, on a 16-bit word.
unfoldable pub decode_date : ℕ → DateParts
decode_date encoded =
    let age = encoded / 2 ^ 14 % 4 in
    let month = encoded / 2 ^ 10 % 16 in
    let day = encoded / 2 ^ 5 % 32 in
    let yr = encoded % 32 in
    if encoded == 0
    then record { year = 0; month = 0; day = 0 }
    else record { year = 1972 + age * 32 + yr; month = month; day = day }

-- An `int` in a range of positive numbers, and equal to zero.
abbrev pub in_range : ℤ → ℕ → ℕ → Bool
in_range (pos n) lo hi = leb lo n && leb n hi
in_range (negsuc n) lo hi = false

abbrev pub is_zero : ℤ → Bool
is_zero (pos n) = n == 0
is_zero (negsuc n) = false

-- An `int` known not to be negative.
abbrev pub value : ℤ → ℕ
value (pos n) = n
value (negsuc n) = 0

-- `encodeDate`
unfoldable pub encode_date : ℤ → ℤ → ℤ → DateError ⊎ ℕ
encode_date year month day =
    let n = value year - 1972 in
    let age = n / 2 ^ 5 % 4 in
    let yr = n % 32 in
    if is_zero year && is_zero month && is_zero day
    then inr 0
    else if not (in_range year 1972 2099)
    then inl DateError.bad_year
    else if not (in_range month 1 12)
    then inl DateError.bad_month
    else if not (in_range day 1 31)
    then inl DateError.bad_day
    else inr (u16 (age * 2 ^ 14 + value month % 16 * 2 ^ 10 + value day % 32 * 2 ^ 5 + yr % 32))
