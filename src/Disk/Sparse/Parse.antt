-- ===== src/Disk/Sparse/Parse.antt =====
-- What `parse` of src/disk/src/SparseVolume.cpp accepts is exactly the serial form of a volume.
use ms.Base.{
  or_false, ℕ, ◌+◌, ◌-◌, ◌*◌, ◌/◌, ◌%◌, ◌≤◌, ◌<◌, ◌≡◌, refl, subst, sym, ap, ap₂, ◌∙◌, arith, Bool,
  true, false, not, ◌||◌, ◌==◌, ltb, ltb_false→le, ==→eq, List, [], ◌∷◌, ◌++◌, inr, length, take,
  drop, All-drop, take-append-drop, drop-drop, length-drop, All, Map, Rising,
}
use ms.Disk.Sparse.{
  SparseVolume, same_bytes, Refusal, magic, put16, put32, get16, get32, parse, parse_blocks,
  serialize, serialize_blocks,
}
use ms.Disk.Sparse.Serial.{Stored}
use ms.Disk.Sparse.Entries.{Small, get_or-drop, put16-get16, put32-get32, passed, parse_blocks_inv}

same_bytes_lem : (xs ys : List ℕ) → same_bytes xs ys ≡ true → xs ≡ ys
same_bytes_lem [] [] e = refl
same_bytes_lem [] (y ∷ ys) e = absurd (ground arith)
same_bytes_lem (x ∷ xs) [] e = absurd (ground arith)
same_bytes_lem (x ∷ xs) (y ∷ ys) e = ap₂ ◌∷◌ (ground arith) (same_bytes_lem xs ys (ground arith))

get16-drop : (bs : List ℕ) (n : ℕ) → get16 (drop n bs) 0 ≡ get16 bs n
get16-drop bs n =
    ap₂ (λ x y. x + y * 256) (get_or-drop bs n 0 n (omega arith)) (get_or-drop bs n 1 (n + 1) refl)

get32-drop : (bs : List ℕ) (n : ℕ) → get32 (drop n bs) 0 ≡ get32 bs n
get32-drop bs n =
    ap₂ (λ x y. x + y * 65536) (get16-drop bs n)
      (ap₂ (λ x y. x + y * 256) (get_or-drop bs n 2 (n + 2) refl)
        (get_or-drop bs n 3 (n + 2 + 1) (omega arith)))

put16_at :
    (bs : List ℕ) (n j : ℕ)
    → j ≡ n + 2
    → j ≤ length bs
    → All Small bs
    → put16 (get16 bs n) ++ drop j bs ≡ drop n bs
put16_at bs n j e h a =
    ap₂ (λ x l. put16 x ++ l) (sym (get16-drop bs n)) (sym (drop-drop bs n 2 j e))
    ∙ put16-get16 (drop n bs) (omega (arith, length-drop n bs)) (All-drop Small n bs a)

put32_at :
    (bs : List ℕ) (n j : ℕ)
    → j ≡ n + 4
    → j ≤ length bs
    → All Small bs
    → put32 (get32 bs n) ++ drop j bs ≡ drop n bs
put32_at bs n j e h a =
    ap₂ (λ x l. put32 x ++ l) (sym (get32-drop bs n)) (sym (drop-drop bs n 4 j e))
    ∙ put32-get32 (drop n bs) (omega (arith, length-drop n bs)) (All-drop Small n bs a)

-- The twenty bytes of a header, and the rest.
header_lem :
    (bs : List ℕ)
    → 20 ≤ length bs
    → All Small bs
    → take 8 bs
        ++ (put16 (get16 bs 8)
            ++ (put16 (get16 bs 10)
                ++ (put32 (get32 bs 12) ++ (put32 (get32 bs 16) ++ drop 20 bs))))
      ≡ bs
header_lem bs h a =
    ap
      (λ l.
        take 8 bs ++ (put16 (get16 bs 8) ++ (put16 (get16 bs 10) ++ (put32 (get32 bs 12) ++ l))))
      (put32_at bs 16 20 refl h a)
    ∙ ap (λ l. take 8 bs ++ (put16 (get16 bs 8) ++ (put16 (get16 bs 10) ++ l)))
        (put32_at bs 12 16 refl (omega arith) a)
    ∙ ap (λ l. take 8 bs ++ (put16 (get16 bs 8) ++ l)) (put16_at bs 10 12 refl (omega arith) a)
    ∙ ap (λ l. take 8 bs ++ l) (put16_at bs 8 10 refl (omega arith) a)
    ∙ take-append-drop 8 bs

-- What a successful `parse` has tested.
abbrev Accepted : List ℕ → SparseVolume → Type 0
Accepted bs v =
    (20 ≤ length bs)
    × (take 8 bs ≡ magic)
    × (get16 bs 8 ≡ 1)
    × (get16 bs 10 ≡ 512)
    × (length bs - 20 ≡ 516 * get32 bs 16)
    × (parse_blocks (get32 bs 12) (get32 bs 16) 0 [] (drop 20 bs) ≡ inr v)

not-false : (b : Bool) → not b ≡ false → b ≡ true
not-false true e = refl
not-false false e = absurd (ground arith)

parse_inv : (bs : List ℕ) (v : SparseVolume) → parse bs ≡ inr v → Accepted bs v
unfolding parse
parse_inv bs v e0 =
    let x = length bs - 20 in
    let t1 = same_bytes (take 8 bs) magic in
    let t4 = x % 516 == 0 in
    let t5 = x / 516 == get32 bs 16 in
    let t3 = ltb 2147483647 (get32 bs 12) in
    let (c1, e1) = passed (ltb (length bs) 20 || not t1) Refusal.not_sparse _ v e0 in
    let (c2, e2) = passed (not (get16 bs 8 == 1)) Refusal.unknown_version _ v e1 in
    let (c3, e3) = passed (not (get16 bs 10 == 512)) Refusal.other_block_size _ v e2 in
    let (c4, e4) = passed (t3 || not t4 || not t5) Refusal.wrong_count _ v e3 in
    let (s, m) = or_false (ltb (length bs) 20) (not t1) c1 in
    let (b, q) = or_false (t3 || not t4) (not t5) c4 in
    let (_, d) = or_false t3 (not t4) b in
    (
      ltb_false→le (length bs) 20 s,
      same_bytes_lem (take 8 bs) magic (not-false t1 m),
      ==→eq (get16 bs 8) 1 (not-false (get16 bs 8 == 1) c2),
      ==→eq (get16 bs 10) 512 (not-false (get16 bs 10 == 512) c3),
      omega (
        arith,
        ==→eq (x % 516) 0 (not-false t4 d),
        ==→eq (x / 516) (get32 bs 16) (not-false t5 q),
      ),
      e4,
    )

abbrev laid : List ℕ → ℕ → ℕ → ℕ → ℕ → List ℕ → List ℕ
laid l v b n c rest = l ++ (put16 v ++ (put16 b ++ (put32 n ++ (put32 c ++ rest))))

laid_ap :
    (bs : List ℕ) (m : Map (List ℕ))
    → take 8 bs ≡ magic
    → get16 bs 8 ≡ 1
    → get16 bs 10 ≡ 512
    → length m ≡ get32 bs 16
    → serialize_blocks m ≡ drop 20 bs
    → laid (take 8 bs) (get16 bs 8) (get16 bs 10) (get32 bs 12) (get32 bs 16) (drop 20 bs)
      ≡ laid magic 1 512 (get32 bs 12) (length m) (serialize_blocks m)
laid_ap bs m em ev eb ec es =
    ap (λ x. laid x (get16 bs 8) (get16 bs 10) (get32 bs 12) (get32 bs 16) (drop 20 bs)) em
    ∙ ap (λ x. laid magic x (get16 bs 10) (get32 bs 12) (get32 bs 16) (drop 20 bs)) ev
    ∙ ap (λ x. laid magic 1 x (get32 bs 12) (get32 bs 16) (drop 20 bs)) eb
    ∙ ap₂ (λ x y. laid magic 1 512 (get32 bs 12) x y) (sym ec) (sym es)

-- Bytes that `parse` accepts are the serial form of the volume it returns, whose blocks stand in
-- rising order, in range and whole: there is one serial form of a volume, and `parse` takes no other.
pub serialize-parse :
    (bs : List ℕ) (v : SparseVolume)
    → All (λ x. x < 256) bs
    → parse bs ≡ inr v
    → (serialize v ≡ bs) × Rising 0 v.held × All (Stored v.blocks) v.held
unfolding serialize
serialize-parse bs v a e =
    let (h, em, ev, eb, el, ep) = parse_inv bs v e in
    let n = get32 bs 12 in
    let c = get32 bs 16 in
    let (m, en, es, len, r, st) =
      parse_blocks_inv n c 0 [] (drop 20 bs) v (omega (arith, length-drop 20 bs))
        (All-drop Small 20 bs a) tt ep in
    subst (λ w. (serialize w ≡ bs) × Rising 0 w.held × All (Stored w.blocks) w.held) (sym en)
      ((
        sym (laid_ap bs m em ev eb (omega (arith, length-drop 20 bs)) es) ∙ header_lem bs h a,
        r,
        st,
      ))
