-- ===== src/Disk/Dates/Tests.antt =====
-- Dates of src/disk/src/Build.cpp that can be followed by hand.
use ms.Base.{ℕ, ◌≡◌, ◌<◌, refl, arith, inl, inr, pos, negsuc}
use ms.Disk.Dates.{DateError, encode_date, decode_date}
use ms.Disk.Dates.Codes.{decode_date-encode_date, encode_date-decode_date}

-- 26 November 1989, no date, and dates that are refused.
dates_run :
    (encode_date (pos 1989) (pos 11) (pos 26) ≡ inr 12113)
    × (encode_date (pos 0) (pos 0) (pos 0) ≡ inr 0)
    × (encode_date (pos 1971) (pos 11) (pos 26) ≡ inl DateError.bad_year)
    × (encode_date (pos 1989) (pos 13) (pos 26) ≡ inl DateError.bad_month)
    × (encode_date (pos 1989) (pos 11) (negsuc 0) ≡ inl DateError.bad_day)
unfolding encode_date
dates_run = (refl, refl, refl, refl, refl)

decode_date-encode_date_example :
    (w : ℕ) × (encode_date (pos 1989) (pos 11) (pos 26) ≡ inr w)
    × (w < 65536)
    × (decode_date w ≡ record { year = 1989; month = 11; day = 26 })
decode_date-encode_date_example =
    decode_date-encode_date 1989 11 26 (omega arith) (omega arith) (omega arith) (omega arith)
      (omega arith) (omega arith)

encode_date-decode_date_example : encode_date (pos 1989) (pos 11) (pos 26) ≡ inr 12113
unfolding decode_date
encode_date-decode_date_example =
    encode_date-decode_date 12113 (omega arith) (omega arith) (omega arith) (omega arith)
