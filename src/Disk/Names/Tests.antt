-- ===== src/Disk/Names/Tests.antt =====
-- Names of src/disk/src/Internal.hpp that can be followed by hand.
use ms.Base.{ℕ, ◌≡◌, refl, arith, none, some, List, [], ◌∷◌}
use ms.Disk.Names.{index_from, encode_rad50, rad50_word, decode_rad50_name, split_name, name_words}
use ms.Disk.Names.Fields.{decode_rad50_name-name_words}

-- "hd.sys" and "HD.SYS"
abbrev hd_sys : List ℕ
hd_sys = 104 ∷ 100 ∷ 46 ∷ 115 ∷ 121 ∷ 115 ∷ []

names_run :
    (name_words hd_sys ≡ some (12960, 0, 31419))
    × (name_words (46 ∷ 95 ∷ []) ≡ none)
    × (name_words (65 ∷ 65 ∷ 65 ∷ 65 ∷ 65 ∷ 65 ∷ 65 ∷ []) ≡ none)
    × (decode_rad50_name 12960 0 0 ≡ 72 ∷ 68 ∷ [])
unfolding name_words split_name encode_rad50 index_from decode_rad50_name rad50_word
names_run = (refl, refl, refl, refl)

words-hd_sys : name_words hd_sys ≡ some (12960, 0, 31419)
unfolding name_words split_name encode_rad50 index_from
words-hd_sys = refl

decode_rad50_name-name_words_example :
    decode_rad50_name 12960 0 31419 ≡ 72 ∷ 68 ∷ 46 ∷ 83 ∷ 89 ∷ 83 ∷ []
decode_rad50_name-name_words_example =
    decode_rad50_name-name_words hd_sys 12960 0 31419
      (
        (λ e. omega arith),
        (
          (λ e. omega arith),
          (
            (λ e. omega arith),
            ((λ e. omega arith), ((λ e. omega arith), ((λ e. omega arith), tt))),
          ),
        ),
      )
      words-hd_sys
