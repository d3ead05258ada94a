-- ===== src/Disk/Names.antt =====
-- RAD50 file names: src/disk/src/Internal.hpp writes them (`encodeRad50`, `splitName`), and
-- src/disk/src/Directory.cpp reads them (`decodeRad50Name`). A string is the list of its characters'
-- codes; `none` stands for an exception.
pub mod Rad50
pub mod Fields
mod Tests
use ms.Base.{
  ℕ, zero, suc, ◌+◌, ◌-◌, ◌*◌, ◌/◌, ◌%◌, Bool, true, false, ◌&&◌, ◌||◌, not, Option, none, some,
  ◌>>=◌, ◌==◌, leb, ltb, if◌then◌else◌, List, [], ◌∷◌, ◌++◌, length, get_or, replicate, u16,
}

-- `kRad50`: " ABCDEFGHIJKLMNOPQRSTUVWXYZ$.?0123456789"
abbrev pub rad50 : List ℕ
rad50 =
    32 ∷ 65 ∷ 66 ∷ 67 ∷ 68 ∷ 69 ∷ 70 ∷ 71 ∷ 72 ∷ 73 ∷ 74 ∷ 75 ∷ 76 ∷ 77 ∷ 78 ∷ 79 ∷ 80 ∷ 81 ∷ 82
    ∷ 83 ∷ 84 ∷ 85 ∷ 86 ∷ 87 ∷ 88 ∷ 89 ∷ 90 ∷ 36 ∷ 46 ∷ 63 ∷ 48 ∷ 49 ∷ 50 ∷ 51 ∷ 52 ∷ 53 ∷ 54 ∷ 55
    ∷ 56 ∷ 57 ∷ []

-- The loop of `rad50Index`, on the characters that are left, from index `i` on.
unfoldable pub index_from : List ℕ → ℕ → ℕ → Option ℕ
index_from [] i c = none
index_from (x ∷ xs) i c = let rest = index_from xs (i + 1) c in if x == c then some i else rest

-- `rad50Index`
abbrev pub rad50_index : ℕ → Option ℕ
rad50_index c = index_from rad50 0 c

-- `encodeRad50`
unfoldable pub encode_rad50 : ℕ → ℕ → ℕ → Option ℕ
encode_rad50 p0 p1 p2 = rad50_index p0 >>= λ a.
    rad50_index p1 >>= λ b. rad50_index p2 >>= λ c. some (u16 (a * 1600 + b * 40 + c))

-- `rad50Word`; a word out of range reads as "???".
unfoldable pub rad50_word : ℕ → List ℕ
rad50_word w =
    if leb 64000 w
    then 63 ∷ 63 ∷ 63 ∷ []
    else get_or rad50 (w / 1600) 0 ∷ get_or rad50 (w / 40 % 40) 0 ∷ get_or rad50 (w % 40) 0 ∷ []

-- `rstrip`: a character stays if it is not a space or something stays behind it.
abbrev pub rstrip : List ℕ → List ℕ
rstrip [] = []
rstrip (c ∷ s) = elim (rstrip s) [ [] ↦ if c == 32 then [] else c ∷ [] | ◌∷◌ x xs ↦ c ∷ x ∷ xs ]

-- `decodeRad50Name`
unfoldable pub decode_rad50_name : ℕ → ℕ → ℕ → List ℕ
unfolding rad50_word
decode_rad50_name n1 n2 ext =
    let name = rstrip (rad50_word n1 ++ rad50_word n2) in
    elim (rstrip (rad50_word ext)) [ [] ↦ name | ◌∷◌ x xs ↦ name ++ (46 ∷ x ∷ xs) ]

-- `up` in `splitName`
abbrev pub up : ℕ → ℕ
up c = if leb 97 c && leb c 122 then c - 97 + 65 else c

abbrev pub map_up : List ℕ → List ℕ
map_up [] = []
map_up (c ∷ s) = up c ∷ map_up s

-- `filename.substr(0, dot)` and `filename.substr(dot + 1)` for the first dot; without one the first is
-- the whole name and the second is empty.
abbrev pub before_dot : List ℕ → List ℕ
before_dot [] = []
before_dot (c ∷ s) = let rest = before_dot s in if c == 46 then [] else c ∷ rest

abbrev pub after_dot : List ℕ → List ℕ
after_dot [] = []
after_dot (c ∷ s) = let rest = after_dot s in if c == 46 then s else rest

-- A field of `n` characters, filled up with spaces.
abbrev pub padded : ℕ → List ℕ → List ℕ
padded n s = s ++ replicate (n - length s) 32

-- `splitName`
unfoldable pub split_name : List ℕ → Option (List ℕ × List ℕ)
split_name filename =
    let base = before_dot filename in
    let e = after_dot filename in
    if ltb 6 (length base) || ltb 3 (length e)
    then none
    else some (padded 6 (map_up base), padded 3 (map_up e))

-- The three words of a name, as `putNewFile` and `removeFile` of src/disk/src/Build.cpp compute them.
unfoldable pub name_words : List ℕ → Option (ℕ × ℕ × ℕ)
unfolding split_name encode_rad50
name_words filename = split_name filename >>= λ s.
    encode_rad50 (get_or s.0 0 0) (get_or s.0 1 0) (get_or s.0 2 0) >>= λ w1.
    encode_rad50 (get_or s.0 3 0) (get_or s.0 4 0) (get_or s.0 5 0) >>= λ w2.
    encode_rad50 (get_or s.1 0 0) (get_or s.1 1 0) (get_or s.1 2 0) >>= λ we. some (w1, w2, we)
