-- ===== src/Base/Words.antt =====
-- Machine words as native numbers. C's operators on unsigned values are written as arithmetic:
-- `x & (2^k - 1)` is `x % 2 ^ k`, `x >> k` is `x / 2 ^ k`, a cast to a width is `%`, and `|` of
-- fields that share no bit is `+`.
use Prim.Native.Nat.{ℕ, ◌+◌, ◌-◌, ◌*◌, ◌/◌, ◌%◌, ◌^◌}
use mathlib.Core.Bool.{Bool}
use ms.Base.Tests.{◌==◌, if◌then◌else◌}

-- Casts to the fixed widths.
abbrev pub u8 : ℕ → ℕ
u8 n = n % 256

abbrev pub u16 : ℕ → ℕ
u16 n = n % 65536

abbrev pub u32 : ℕ → ℕ
u32 n = n % 4294967296

-- `(x & (1 << k)) != 0`
abbrev pub has_bit : ℕ → ℕ → Bool
has_bit x k = x / 2 ^ k % 2 == 1

-- `x |= 1 << k` and `x &= ~(1 << k)`
abbrev pub set_bit : ℕ → ℕ → ℕ
set_bit x k = if has_bit x k then x else x + 2 ^ k

abbrev pub clear_bit : ℕ → ℕ → ℕ
clear_bit x k = if has_bit x k then x - 2 ^ k else x

-- The two bytes of a word, and the word of two bytes: `lo | (hi << 8)`.
abbrev pub low : ℕ → ℕ
low w = w % 256

abbrev pub high : ℕ → ℕ
high w = w / 256

abbrev pub word : ℕ → ℕ → ℕ
word lo hi = lo + hi * 256

-- `(w & 0xFF00) | v` and `(w & 0x00FF) | (v << 8)`
abbrev pub with_low : ℕ → ℕ → ℕ
with_low w v = word v (high w)

abbrev pub with_high : ℕ → ℕ → ℕ
with_high w v = word (low w) v

-- `x--` and `x -= 2` on a uint16_t.
abbrev pub dec16 : ℕ → ℕ
dec16 x = u16 (x + 65535)

abbrev pub dec16_two : ℕ → ℕ
dec16_two x = u16 (x + 65534)
