-- ===== src/Disk/Names/Rad50.antt =====
-- Names written by src/disk/src/Internal.hpp and read by src/disk/src/Directory.cpp.
use ms.Base.{
  bind_some, ℕ, zero, suc, ◌+◌, ◌-◌, ◌*◌, ◌/◌, ◌%◌, ◌<◌, ◌≤◌, ◌≡◌, ◌≢◌, ◌⊎◌, refl, ap, ap₂, ◌∙◌,
  arith, Bool, true, false, inl, inr, ==→eq, ne→==_false, lt→leb_false, Option, some, ◌==◌,
  if◌then◌else◌, List, [], ◌∷◌, ◌++◌, length, get_or, replicate, All, u16,
}
use mathlib.Core.Option.{some_inj}
use ms.Disk.Names.{rad50, index_from, rad50_index, encode_rad50, rad50_word, rstrip, up, map_up}

sub_self : (i k : ℕ) → i ≡ k → k - i ≡ 0
sub_self i k e = omega arith

sub_next : (i k : ℕ) → i + 1 ≤ k → k - i ≡ suc (k - (i + 1))
sub_next i k h = omega arith

if_some :
    (b : Bool) (i k : ℕ) (rest : Option ℕ)
    → (if b then some i else rest) ≡ some k
    → ((b ≡ true) × (i ≡ k)) ⊎ ((b ≡ false) × (rest ≡ some k))
if_some true i k rest e = inl (refl, some_inj.0 e)
if_some false i k rest e = inr (refl, e)

index_from-get_or :
    (xs : List ℕ) (i c k : ℕ)
    → index_from xs i c ≡ some k
    → (i ≤ k) × (k < i + length xs) × (get_or xs (k - i) 0 ≡ c)
unfolding index_from
index_from-get_or [] i c k e = absurd (ground arith)
index_from-get_or (x ∷ xs) i c k e = elim (if_some (x == c) i k (index_from xs (i + 1) c) e) [
  | inl (t, q) ↦
      (omega arith, omega arith, ap (λ j. get_or (x ∷ xs) j 0) (sub_self i k q) ∙ ==→eq x c t)
  | inr (t, r) ↦
      let (l, h, g) = index_from-get_or xs (i + 1) c k r in
      (omega arith, omega arith, ap (λ j. get_or (x ∷ xs) j 0) (sub_next i k l) ∙ g)
]

sub_zero : (k : ℕ) → k ≡ k - 0
sub_zero k = omega arith

rad50_index-get_or : (c k : ℕ) → rad50_index c ≡ some k → (k < 40) × (get_or rad50 k 0 ≡ c)
rad50_index-get_or c k e =
    let (_, h, g) = index_from-get_or rad50 0 c k e in
    (omega arith, ap (λ j. get_or rad50 j 0) (sub_zero k) ∙ g)

word_lem :
    (a b c p0 p1 p2 w : ℕ)
    → (a < 40) × (get_or rad50 a 0 ≡ p0)
    → (b < 40) × (get_or rad50 b 0 ≡ p1)
    → (c < 40) × (get_or rad50 c 0 ≡ p2)
    → u16 (a * 1600 + b * 40 + c) ≡ w
    → rad50_word w ≡ p0 ∷ p1 ∷ p2 ∷ []
unfolding rad50_word
word_lem a b c p0 p1 p2 w (la, ga) (lb, gb) (lc, gc) e =
    let a' : w / 1600 ≡ a = omega arith in
    let b' : w / 40 % 40 ≡ b = omega arith in
    let c' : w % 40 ≡ c = omega arith in
    rw (lt→leb_false 64000 w (omega arith)) (
      ap₂ ◌∷◌ (ap (λ j. get_or rad50 j 0) a' ∙ ga) (
        ap₂ ◌∷◌ (ap (λ j. get_or rad50 j 0) b' ∙ gb)
          (ap (λ x. x ∷ []) (ap (λ j. get_or rad50 j 0) c' ∙ gc))))

pub rad50_word-encode_rad50 :
    (p0 p1 p2 w : ℕ) → encode_rad50 p0 p1 p2 ≡ some w → rad50_word w ≡ p0 ∷ p1 ∷ p2 ∷ []
unfolding encode_rad50
rad50_word-encode_rad50 p0 p1 p2 w e =
    let (a, ea, e1) = bind_some (rad50_index p0) _ w e in
    let (b, eb, e2) = bind_some (rad50_index p1) _ w e1 in
    let (c, ec, e3) = bind_some (rad50_index p2) _ w e2 in
    word_lem a b c p0 p1 p2 w (rad50_index-get_or p0 a ea) (rad50_index-get_or p1 b eb)
      (rad50_index-get_or p2 c ec) (some_inj.0 e3)

rstrip-spaces : (n : ℕ) → rstrip (replicate n 32) ≡ []
rstrip-spaces zero = refl
rstrip-spaces (suc n) = rw (rstrip-spaces n) refl

rstrip_keeps : (c : ℕ) (s t : List ℕ) → c ≢ 32 → rstrip t ≡ s → rstrip (c ∷ t) ≡ c ∷ s
rstrip_keeps c [] t h e = rw e (rw (ne→==_false c 32 h) refl)
rstrip_keeps c (x ∷ s) t h e = rw e refl

pub rstrip-padded : (s : List ℕ) (n : ℕ) → All (λ c. c ≢ 32) s → rstrip (s ++ replicate n 32) ≡ s
rstrip-padded [] n a = rstrip-spaces n
rstrip-padded (c ∷ s) n (h, a) = rstrip_keeps c s (s ++ replicate n 32) h (rstrip-padded s n a)

up-space : (c : ℕ) → c ≢ 32 → up c ≢ 32
up-space c h = ground arith

pub map_up-spaces : (s : List ℕ) → All (λ c. c ≢ 32) s → All (λ c. c ≢ 32) (map_up s)
map_up-spaces [] a = tt
map_up-spaces (c ∷ s) (h, a) = (up-space c h, map_up-spaces s a)
