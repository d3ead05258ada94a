-- ===== src/Core/Cpu/Psw.antt =====
-- The status word as four flags and the rest, for src/core/src/cpu_ops.c: what its helpers of the
-- status word leave, and that stores and brackets do not touch it.
use ms.Base.{
  ℕ, ◌+◌, ◌*◌, ◌/◌, ◌%◌, ◌<◌, ◌≡◌, refl, ap, ◌∙◌, sym, Bool, true, false, has_bit, if◌then◌else◌,
  ◌==◌, arith, set_bit, clear_bit, differ, Bool-cases, inl, inr,
}
use ms.Core.Cpu.{Cpu, Bus, Action, set_c, put_bit, ◌>>◌, modify}
use ms.Core.Cpu.Address.{dst_mode, dst_reg, write_word_op, write_byte_op, datio_end}

pub record Flags : Type 0 where
  pub n : Bool
  pub z : Bool
  pub v : Bool
  pub c : Bool

abbrev pub flags : ℕ → Flags
flags p = record { n = has_bit p 3; z = has_bit p 2; v = has_bit p 1; c = has_bit p 0 }

abbrev pub bit : Bool → ℕ
bit b = if b then 1 else 0

abbrev pub flag_bits : Flags → ℕ
flag_bits f = bit f.n * 8 + bit f.z * 4 + bit f.v * 2 + bit f.c

-- The status word with other flags.
abbrev pub with_flags : ℕ → Flags → ℕ
with_flags p f = p / 16 * 16 + flag_bits f

pub bit-lt : (b : Bool) → bit b < 2
bit-lt b = ground arith

put_bit_c : (p : ℕ) (b : Bool) → put_bit p 0 b ≡ p / 2 * 2 + bit b
put_bit_c p b = ground arith

put_bit_v : (p : ℕ) (b : Bool) → put_bit p 1 b ≡ p / 4 * 4 + bit b * 2 + p % 2
put_bit_v p b = ground arith

put_bit_z : (p : ℕ) (b : Bool) → put_bit p 2 b ≡ p / 8 * 8 + bit b * 4 + p % 4
put_bit_z p b = ground arith

put_bit_n : (p : ℕ) (b : Bool) → put_bit p 3 b ≡ p / 16 * 16 + bit b * 8 + p % 8
put_bit_n p b = ground arith

-- The orders in which the handlers set the flags.
abbrev pub put_nz : ℕ → Bool → Bool → ℕ
put_nz p z n = put_bit (put_bit p 2 z) 3 n

put_nz_bits : (p : ℕ) (z n : Bool) → put_nz p z n ≡ p / 16 * 16 + bit n * 8 + bit z * 4 + p % 4
put_nz_bits p z n =
    rw (put_bit_n (put_bit p 2 z) n) (rw (put_bit_z p z) (omega (arith, bit-lt z, bit-lt n)))

abbrev pub mk : Bool → Bool → Bool → Bool → Flags
mk n z v c = record { n = n; z = z; v = v; c = c }

has_bit_zero : (p : ℕ) → p % 2 ≡ bit (has_bit p 0)
has_bit_zero p = ground arith

pub nz_v_c :
    (p : ℕ) (n z v c : Bool) → put_bit (put_bit (put_nz p z n) 1 v) 0 c ≡ with_flags p (mk n z v c)
nz_v_c p n z v c = rw (put_bit_c (put_bit (put_nz p z n) 1 v) c) (
    rw (put_bit_v (put_nz p z n) v)
      (rw (put_nz_bits p z n) (omega (arith, bit-lt n, bit-lt z, bit-lt v, bit-lt c))))

pub nz_v :
    (p : ℕ) (n z v : Bool) → put_bit (put_nz p z n) 1 v ≡ with_flags p (mk n z v (has_bit p 0))
nz_v p n z v =
    rw (put_bit_v (put_nz p z n) v)
      (rw (put_nz_bits p z n) (omega (arith, bit-lt n, bit-lt z, bit-lt v, has_bit_zero p)))

pub v_nz :
    (p : ℕ) (n z v : Bool) → put_nz (put_bit p 1 v) z n ≡ with_flags p (mk n z v (has_bit p 0))
v_nz p n z v =
    rw (put_nz_bits (put_bit p 1 v) z n)
      (rw (put_bit_v p v) (omega (arith, bit-lt n, bit-lt z, bit-lt v, has_bit_zero p)))

pub v_c_nz :
    (p : ℕ) (n z v c : Bool) → put_nz (put_bit (put_bit p 1 v) 0 c) z n ≡ with_flags p (mk n z v c)
v_c_nz p n z v c = rw (put_nz_bits (put_bit (put_bit p 1 v) 0 c) z n) (
    rw (put_bit_c (put_bit p 1 v) c)
      (rw (put_bit_v p v) (omega (arith, bit-lt n, bit-lt z, bit-lt v, bit-lt c))))

c_nz_bits :
    (p : ℕ) (n z c : Bool)
    → put_nz (put_bit p 0 c) z n ≡ p / 16 * 16 + bit n * 8 + bit z * 4 + p / 2 % 2 * 2 + bit c
c_nz_bits p n z c =
    rw (put_nz_bits (put_bit p 0 c) z n)
      (rw (put_bit_c p c) (omega (arith, bit-lt n, bit-lt z, bit-lt c)))

numeral :
    (q : ℕ) (n z c : Bool) (p : ℕ)
    → q ≡ p / 16 * 16 + bit n * 8 + bit z * 4 + p / 2 % 2 * 2 + bit c
    → (has_bit q 3 ≡ n) × (has_bit q 0 ≡ c)
numeral q true z true p e = ground arith
numeral q true z false p e = ground arith
numeral q false z true p e = ground arith
numeral q false z false p e = ground arith

abbrev pub set_nc : ℕ → ℕ
set_nc q = put_bit q 1 (differ (has_bit q 3) (has_bit q 0))

-- After a shift V is the sum of N and C without carry.
pub c_nz_v :
    (p : ℕ) (n z c : Bool)
    → set_nc (put_nz (put_bit p 0 c) z n) ≡ with_flags p (mk n z (differ n c) c)
c_nz_v p n z c =
    let q = put_nz (put_bit p 0 c) z n in
    let (en, ec) = numeral q n z c p (c_nz_bits p n z c) in
    rw en (
      rw ec (
        rw (put_bit_v q (differ n c)) (
          rw (c_nz_bits p n z c)
            (omega (arith, bit-lt n, bit-lt z, bit-lt c, bit-lt (differ n c))))))

pub clear_z :
    (p : ℕ)
    → set_bit (clear_bit (clear_bit (clear_bit p 3) 1) 0) 2
      ≡ with_flags p (mk false true false false)
clear_z p = rw (put_bit_z (put_bit (put_bit (put_bit p 3 false) 1 false) 0 false) true) (
    rw (put_bit_c (put_bit (put_bit p 3 false) 1 false) false)
      (rw (put_bit_v (put_bit p 3 false) false) (rw (put_bit_n p false) (omega arith))))

eq_bit : (q : ℕ) (b : Bool) → q ≡ bit b → (q == 1) ≡ b
eq_bit q true e = ground arith
eq_bit q false e = ground arith

-- C after C is set, and after the other flags are.
pub carry-put_c : (p : ℕ) (b : Bool) → has_bit (put_bit p 0 b) 0 ≡ b
carry-put_c p b = eq_bit (put_bit p 0 b / 1 % 2) b (omega (arith, put_bit_c p b, bit-lt b))

pub carry-set_c : {B : Type 0} (b : Bool) (c : Cpu B) → has_bit (set_c b c).1.psw 0 ≡ b
unfolding set_c
carry-set_c b c = carry-put_c c.psw b

pub carry-put_v : (p : ℕ) (v : Bool) → has_bit (put_bit p 1 v) 0 ≡ has_bit p 0
carry-put_v p v =
    eq_bit (put_bit p 1 v / 1 % 2) (has_bit p 0)
      (omega (arith, put_bit_v p v, bit-lt v, has_bit_zero p))

-- The flags and the other bits of a status word with other flags.
pub flags-with_flags : (p : ℕ) (f : Flags) → flags (with_flags p f) ≡ f
flags-with_flags p f =
    let q = with_flags p f in
    let en =
      eq_bit (q / 8 % 2) f.n (omega (arith, bit-lt f.n, bit-lt f.z, bit-lt f.v, bit-lt f.c)) in
    let ez =
      eq_bit (q / 4 % 2) f.z (omega (arith, bit-lt f.n, bit-lt f.z, bit-lt f.v, bit-lt f.c)) in
    let ev =
      eq_bit (q / 2 % 2) f.v (omega (arith, bit-lt f.n, bit-lt f.z, bit-lt f.v, bit-lt f.c)) in
    let ec =
      eq_bit (q / 1 % 2) f.c (omega (arith, bit-lt f.n, bit-lt f.z, bit-lt f.v, bit-lt f.c)) in
    λ i. mk (en i) (ez i) (ev i) (ec i)

pub with_flags-rest : (p : ℕ) (f : Flags) → with_flags p f / 16 ≡ p / 16
with_flags-rest p f = omega (arith, bit-lt f.n, bit-lt f.z, bit-lt f.v, bit-lt f.c)

module _ {B : Type 0} ⦃bus : Bus B⦄ where
  -- The write and the end of the cycle, around which the handlers set the flags.
  abbrev pub write_word_end : ℕ → ℕ → ℕ → Action B (Unit {0})
  write_word_end op a r = do write_word_op (dst_mode op) (dst_reg op) a r; datio_end (dst_mode op)

  abbrev pub write_byte_end : ℕ → ℕ → ℕ → Action B (Unit {0})
  write_byte_end op a r = do write_byte_op (dst_mode op) (dst_reg op) a r; datio_end (dst_mode op)

  abbrev pub at_psw : Cpu B → ℕ → Cpu B
  at_psw c p = record c { psw = p }

  write_word_end-at_psw :
      (op a r p : ℕ) (c : Cpu B)
      → write_word_end op a r (at_psw c p) ≡ (tt, at_psw (write_word_end op a r c).1 p)
  unfolding write_word_op datio_end
  write_word_end-at_psw op a r p c = elim (Bool-cases (dst_mode op == 0)) [
    | inl e ↦ rw e refl
    | inr e ↦ rw e refl
  ]

  write_byte_end-at_psw :
      (op a r p : ℕ) (c : Cpu B)
      → write_byte_end op a r (at_psw c p) ≡ (tt, at_psw (write_byte_end op a r c).1 p)
  unfolding write_byte_op datio_end
  write_byte_end-at_psw op a r p c = elim (Bool-cases (dst_mode op == 0)) [
    | inl e ↦ rw e refl
    | inr e ↦ rw e refl
  ]

  -- What is set before the write and what is set after it come to one change of the status word.
  pub around_word :
      (op a r r' p : ℕ) (post : ℕ → ℕ) (f : Flags) (c : Cpu B)
      → r ≡ r'
      → post p ≡ with_flags c.psw f
      → (write_word_end op a r >> modify (λ d. at_psw d (post d.psw))) (at_psw c p)
        ≡ (write_word_end op a r' >> modify (λ d. at_psw d (with_flags d.psw f))) c
  around_word op a r r' p post f c er e =
      let moved = write_word_end-at_psw op a r p c in
      let same = write_word_end-at_psw op a r c.psw c in
      ap (λ s. (tt, at_psw s.1 (post s.1.psw))) moved
      ∙ ap (λ q. (tt, at_psw (write_word_end op a r c).1 q)) e
      ∙ sym (ap (λ s. (tt, at_psw s.1 (with_flags s.1.psw f))) same)
      ∙ ap (λ v. (write_word_end op a v >> modify (λ d. at_psw d (with_flags d.psw f))) c) er

  pub around_byte :
      (op a r r' p : ℕ) (post : ℕ → ℕ) (f : Flags) (c : Cpu B)
      → r ≡ r'
      → post p ≡ with_flags c.psw f
      → (write_byte_end op a r >> modify (λ d. at_psw d (post d.psw))) (at_psw c p)
        ≡ (write_byte_end op a r' >> modify (λ d. at_psw d (with_flags d.psw f))) c
  around_byte op a r r' p post f c er e =
      let moved = write_byte_end-at_psw op a r p c in
      let same = write_byte_end-at_psw op a r c.psw c in
      ap (λ s. (tt, at_psw s.1 (post s.1.psw))) moved
      ∙ ap (λ q. (tt, at_psw (write_byte_end op a r c).1 q)) e
      ∙ sym (ap (λ s. (tt, at_psw s.1 (with_flags s.1.psw f))) same)
      ∙ ap (λ v. (write_byte_end op a v >> modify (λ d. at_psw d (with_flags d.psw f))) c) er
