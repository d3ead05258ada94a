-- ===== src/Disk/Sparse/Entries.antt =====
-- The loop of `parse` in src/disk/src/SparseVolume.cpp, read backwards.
use ms.Base.{
  or_false, ℕ, zero, suc, ◌+◌, ◌*◌, ◌≤◌, ◌<◌, ◌≡◌, refl, sym, ap, ap₂, ◌∙◌, arith, Bool, true,
  false, ◌||◌, ltb, leb, if◌then◌else◌, leb_false→lt, ltb_false→le, List, [], ◌∷◌, ◌++◌, ◌⊎◌, inl,
  inr, length, take, drop, get_or, All-take, All-drop, append_nil, append_assoc, take-append-drop,
  drop-drop, length-take, length-drop, All, Map, Rising,
}
use mathlib.Core.Sum.{inr-injective, inl-ne-inr}
use ms.Disk.Sparse.{
  SparseVolume, Refusal, put16, put32, get16, get32, parse_blocks, serialize_blocks,
}
use ms.Disk.Sparse.Serial.{All-below_next, emplace_next, Stored}

abbrev pub Small : ℕ → Type 0
Small x = x < 256

pub get_or-drop : (bs : List ℕ) (n i j : ℕ) → j ≡ n + i → get_or (drop n bs) i 0 ≡ get_or bs j 0
get_or-drop bs zero i j e = ap (λ k. get_or bs k 0) (omega arith)
get_or-drop [] (suc n) i j e = refl
get_or-drop (b ∷ bs) (suc n) i zero e = absurd (omega arith)
get_or-drop (b ∷ bs) (suc n) i (suc j) e = get_or-drop bs n i j (omega arith)

pub put16-get16 :
    (bs : List ℕ) → 2 ≤ length bs → All Small bs → put16 (get16 bs 0) ++ drop 2 bs ≡ bs
put16-get16 [] h a = absurd (omega arith)
put16-get16 (x ∷ []) h a = absurd (omega arith)
put16-get16 (x ∷ y ∷ bs) h (p, (q, a)) = ap₂ ◌∷◌ (omega arith) (ap (λ z. z ∷ bs) (omega arith))

pub put32-get32 :
    (bs : List ℕ) → 4 ≤ length bs → All Small bs → put32 (get32 bs 0) ++ drop 4 bs ≡ bs
put32-get32 [] h a = absurd (omega arith)
put32-get32 (x ∷ []) h a = absurd (omega arith)
put32-get32 (x ∷ y ∷ []) h a = absurd (omega arith)
put32-get32 (x ∷ y ∷ z ∷ []) h a = absurd (omega arith)
put32-get32 (x ∷ y ∷ z ∷ w ∷ bs) h (p, (q, (r, (s, a)))) =
    ap₂ ◌∷◌ (omega arith)
      (ap₂ ◌∷◌ (omega arith) (ap₂ ◌∷◌ (omega arith) (ap (λ z. z ∷ bs) (omega arith))))

-- One entry of the serial form, cut off its front.
entry_lem :
    (rest : List ℕ)
    → 516 ≤ length rest
    → All Small rest
    → put32 (get32 rest 0) ++ (take 512 (drop 4 rest) ++ drop 516 rest) ≡ rest
entry_lem rest h a =
    ap (λ l. put32 (get32 rest 0) ++ (take 512 (drop 4 rest) ++ l))
      (sym (drop-drop rest 4 512 516 refl))
    ∙ ap (λ l. put32 (get32 rest 0) ++ l) (take-append-drop 512 (drop 4 rest))
    ∙ put32-get32 rest (omega arith) a

-- What the loop of `parse` adds to the map.
abbrev Parsed : ℕ → ℕ → Map (List ℕ) → List ℕ → SparseVolume → Type 0
Parsed n f acc rest v =
    (m : Map (List ℕ)) × (v ≡ record { blocks = n; held = acc ++ m })
    × (serialize_blocks m ≡ rest)
    × (516 * length m ≡ length rest)
    × Rising f m
    × All (Stored n) m

-- A test that did not refuse.
pub passed :
    (c : Bool) (r : Refusal) (x : Refusal ⊎ SparseVolume) (v : SparseVolume)
    → (if c then inl r else x) ≡ inr v
    → (c ≡ false) × (x ≡ inr v)
passed true r x v e = absurd (inl-ne-inr e)
passed false r x v e = (refl, e)

parse_blocks_step :
    (n left f : ℕ) (acc : Map (List ℕ)) (rest : List ℕ) (v : SparseVolume)
    → All (λ e. e.0 < f) acc
    → parse_blocks n (suc left) f acc rest ≡ inr v
    → let k = get32 rest 0 in
      (k < n)
      × (f ≤ k)
      × (parse_blocks n left (k + 1) (acc ++ ((k, take 512 (drop 4 rest)) ∷ [])) (drop 516 rest)
          ≡ inr v)
unfolding parse_blocks
parse_blocks_step n left f acc rest v low e =
    let k = get32 rest 0 in
    let b = take 512 (drop 4 rest) in
    let (c, e') = passed (leb n k || ltb k f) Refusal.out_of_order _ v e in
    let (c1, c2) = or_false (leb n k) (ltb k f) c in
    let q = ltb_false→le k f c2 in
    (
      leb_false→lt n k c1,
      q,
      ap (λ m. parse_blocks n left (k + 1) m (drop 516 rest)) (sym (emplace_next acc f k b q low))
          ∙ e',
    )

pub parse_blocks_inv :
    (n left f : ℕ) (acc : Map (List ℕ)) (rest : List ℕ) (v : SparseVolume)
    → length rest ≡ 516 * left
    → All Small rest
    → All (λ e. e.0 < f) acc
    → parse_blocks n left f acc rest ≡ inr v
    → Parsed n f acc rest v
unfolding parse_blocks serialize_blocks
parse_blocks_inv n zero f acc [] v l a low e = (
  [],
  sym (inr-injective _ _ e) ∙ ap (λ l. record { blocks = n; held = l }) (sym (append_nil acc)),
  refl,
  refl,
  tt,
  tt,
)
parse_blocks_inv n zero f acc (x ∷ rest) v l a low e = absurd (omega arith)
parse_blocks_inv n (suc left) f acc rest v l a low e =
    let k = get32 rest 0 in
    let b = take 512 (drop 4 rest) in
    let (h, q, e') = parse_blocks_step n left f acc rest v low e in
    let (m, ev, es, el, r, st) =
      parse_blocks_inv n left (k + 1) (acc ++ ((k, b) ∷ [])) (drop 516 rest) v
        (omega (arith, length-drop 516 rest)) (All-drop Small 516 rest a)
        (All-below_next acc f k b q low) e' in
    (
      (k, b) ∷ m,
      ev ∙ ap (λ l. record { blocks = n; held = l }) (append_assoc acc ((k, b) ∷ []) m),
      ap (λ l. put32 k ++ (b ++ l)) es ∙ entry_lem rest (omega arith) a,
      omega (arith, length-drop 516 rest),
      (q, r),
      (
        (
          h,
          (
            omega (arith, length-take 512 (drop 4 rest), length-drop 4 rest),
            All-take Small 512 (drop 4 rest) (All-drop Small 4 rest a),
          ),
        ),
        st,
      ),
    )
