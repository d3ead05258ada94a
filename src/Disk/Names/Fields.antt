-- ===== src/Disk/Names/Fields.antt =====
-- A file name through `splitName` and `encodeRad50` of src/disk/src/Internal.hpp and back through
-- `decodeRad50Name` of src/disk/src/Directory.cpp.
use ms.Base.{
  bind_some, if_not, ℕ, zero, suc, ◌-◌, ◌≤◌, ◌≡◌, ◌≢◌, refl, sym, ap, ap₂, ◌∙◌, arith, ◌||◌, inl,
  inr, Bool-cases, or_false, ltb_false→le, some, ◌==◌, ltb, List, [], ◌∷◌, ◌++◌, length,
  length-append, get_or, replicate, All,
}
use mathlib.Core.Option.{some_inj}
use ms.Disk.Names.{
  encode_rad50, rad50_word, rstrip, decode_rad50_name, map_up, before_dot, after_dot, padded,
  split_name, name_words,
}
use ms.Disk.Names.Rad50.{rad50_word-encode_rad50, rstrip-padded, map_up-spaces}

before_dot-All : (P : ℕ → Type 0) (s : List ℕ) → All P s → All P (before_dot s)
before_dot-All P [] a = tt
before_dot-All P (c ∷ s) (h, a) = elim (Bool-cases (c == 46)) [
  | inl e ↦ rw e tt
  | inr e ↦ rw e ((h, before_dot-All P s a))
]

after_dot-All : (P : ℕ → Type 0) (s : List ℕ) → All P s → All P (after_dot s)
after_dot-All P [] a = tt
after_dot-All P (c ∷ s) (h, a) = elim (Bool-cases (c == 46)) [
  | inl e ↦ rw e a
  | inr e ↦ rw e (after_dot-All P s a)
]

length-map_up : (s : List ℕ) → length (map_up s) ≡ length s
length-map_up [] = refl
length-map_up (c ∷ s) = ap suc (length-map_up s)

length-replicate : (n c : ℕ) → length (replicate n c) ≡ n
length-replicate zero c = refl
length-replicate (suc n) c = ap suc (length-replicate n c)

length-padded : (n : ℕ) (s : List ℕ) → length s ≤ n → length (padded n s) ≡ n
length-padded n s h =
    omega (arith, length-append s (replicate (n - length s) 32), length-replicate (n - length s) 32)

three_of : (l : List ℕ) → length l ≡ 3 → get_or l 0 0 ∷ get_or l 1 0 ∷ get_or l 2 0 ∷ [] ≡ l
three_of [] h = absurd (omega arith)
three_of (a ∷ []) h = absurd (omega arith)
three_of (a ∷ b ∷ []) h = absurd (omega arith)
three_of (a ∷ b ∷ c ∷ []) h = refl
three_of (a ∷ b ∷ c ∷ d ∷ l) h = absurd (omega arith)

six_of :
    (l : List ℕ)
    → length l ≡ 6
    → (get_or l 0 0 ∷ get_or l 1 0 ∷ get_or l 2 0 ∷ [])
        ++ (get_or l 3 0 ∷ get_or l 4 0 ∷ get_or l 5 0 ∷ [])
      ≡ l
six_of [] h = absurd (omega arith)
six_of (a ∷ []) h = absurd (omega arith)
six_of (a ∷ b ∷ []) h = absurd (omega arith)
six_of (a ∷ b ∷ c ∷ l) h = ap (λ t. a ∷ b ∷ c ∷ t) (three_of l (omega arith))

-- What `splitName` gives has the fixed lengths.
split_name-padded :
    (f : List ℕ) (s : List ℕ × List ℕ)
    → split_name f ≡ some s
    → (length (before_dot f) ≤ 6)
      × (length (after_dot f) ≤ 3)
      × (s.0 ≡ padded 6 (map_up (before_dot f)))
      × (s.1 ≡ padded 3 (map_up (after_dot f)))
unfolding split_name
split_name-padded f s e =
    let (b, q) = if_not (ltb 6 (length (before_dot f)) || ltb 3 (length (after_dot f))) _ s e in
    let (l6, l3) = or_false (ltb 6 (length (before_dot f))) _ b in
    let r = sym (some_inj.0 q) in
    (
      ltb_false→le 6 (length (before_dot f)) l6,
      ltb_false→le 3 (length (after_dot f)) l3,
      ap (λ p. p.0) r,
      ap (λ p. p.1) r,
    )

-- The name that a directory shows: the dot stands only before an extension.
abbrev pub shown : List ℕ → List ℕ → List ℕ
shown base [] = base
shown base (c ∷ e) = base ++ (46 ∷ c ∷ e)

-- The words are those of the two fields.
name_words-fields :
    (f : List ℕ) (w1 w2 we : ℕ)
    → name_words f ≡ some (w1, w2, we)
    → (rad50_word w1 ++ rad50_word w2 ≡ padded 6 (map_up (before_dot f)))
      × (rad50_word we ≡ padded 3 (map_up (after_dot f)))
unfolding name_words
name_words-fields f w1 w2 we e =
    let (s, es, e0) = bind_some (split_name f) _ (w1, w2, we) e in
    let (v1, q1, e1) =
      bind_some (encode_rad50 (get_or s.0 0 0) (get_or s.0 1 0) (get_or s.0 2 0)) _ _ e0 in
    let (v2, q2, e2) =
      bind_some (encode_rad50 (get_or s.0 3 0) (get_or s.0 4 0) (get_or s.0 5 0)) _ _ e1 in
    let (ve, qe, e3) =
      bind_some (encode_rad50 (get_or s.1 0 0) (get_or s.1 1 0) (get_or s.1 2 0)) _ _ e2 in
    let r = some_inj.0 e3 in
    let (l6, l3, p6, p3) = split_name-padded f s es in
    let base = map_up (before_dot f) in
    let ext = map_up (after_dot f) in
    let n6 : length s.0 ≡ 6 =
      ap length p6 ∙ length-padded 6 base (omega (arith, length-map_up (before_dot f))) in
    let n3 : length s.1 ≡ 3 =
      ap length p3 ∙ length-padded 3 ext (omega (arith, length-map_up (after_dot f))) in
    (
      ap₂ (λ x y. rad50_word x ++ rad50_word y) (sym (ap (λ t. t.0) r)) (sym (ap (λ t. t.1) r))
          ∙ ap₂ ◌++◌ (rad50_word-encode_rad50 _ _ _ v1 q1) (rad50_word-encode_rad50 _ _ _ v2 q2)
          ∙ six_of s.0 n6
          ∙ p6,
      ap rad50_word (sym (ap (λ t. t.2) r))
          ∙ rad50_word-encode_rad50 _ _ _ ve qe
          ∙ three_of s.1 n3
          ∙ p3,
    )

-- A file name without spaces that has the three words decodes from them to itself in capital letters:
-- the part before its first dot, and a dot and the rest where there is a rest.
pub decode_rad50_name-name_words :
    (f : List ℕ) (w1 w2 we : ℕ)
    → All (λ c. c ≢ 32) f
    → name_words f ≡ some (w1, w2, we)
    → decode_rad50_name w1 w2 we ≡ shown (map_up (before_dot f)) (map_up (after_dot f))
unfolding decode_rad50_name
decode_rad50_name-name_words f w1 w2 we a e =
    let (en, ee) = name_words-fields f w1 w2 we e in
    let base = map_up (before_dot f) in
    let ext = map_up (after_dot f) in
    let ab = map_up-spaces (before_dot f) (before_dot-All (λ c. c ≢ 32) f a) in
    let ae = map_up-spaces (after_dot f) (after_dot-All (λ c. c ≢ 32) f a) in
    ap₂ shown (ap rstrip en ∙ rstrip-padded base (6 - length base) ab)
      (ap rstrip ee ∙ rstrip-padded ext (3 - length ext) ae)
