-- ===== src/Disk/Sparse/Serial.antt =====
-- The serial form of src/disk/src/SparseVolume.cpp: `serialize` and `parse` undo each other.
use ms.Base.{
  ℕ, suc, ◌+◌, ◌-◌, ◌*◌, ◌/◌, ◌%◌, ◌≤◌, ◌<◌, ◌≡◌, refl, sym, ap, ◌∙◌, arith, true, false, ◌==◌, ltb,
  eq→==, lt→leb_false, le→ltb_false, List, [], ◌∷◌, ◌++◌, inr, none, some, length, take, drop,
  append_nil, append_assoc, take-append, drop-append, length-append, All, Map, find, put, Rising,
  find_above, put_above,
}
use ms.Disk.Sparse.{
  SparseVolume, same_bytes, magic, version, block_size, put16, put32, get16, get32, parse,
  parse_blocks, serialize, serialize_blocks,
}
use ms.Disk.Sparse.Valid.{IsBlock, IsValid, Held, All-impl}

get32-put32 : (n : ℕ) (rest : List ℕ) → n < 4294967296 → get32 (put32 n ++ rest) 0 ≡ n
get32-put32 n rest h = omega arith

-- An entry of the serial form: a block in range, all zeros or not.
abbrev pub Stored : ℕ → ℕ × List ℕ → Type 0
Stored n e = (e.0 < n) × IsBlock e.1

length-serialize_blocks :
    (n : ℕ) (m : Map (List ℕ)) → All (Stored n) m → length (serialize_blocks m) ≡ 516 * length m
unfolding serialize_blocks
length-serialize_blocks n [] a = refl
length-serialize_blocks n ((k, b) ∷ m) ((h, (l, c)), a) =
    omega (arith, length-append b (serialize_blocks m), length-serialize_blocks n m a)

-- Rising keys below a bound are no more than fit below it.
length_bound : (n f : ℕ) (m : Map (List ℕ)) → Rising f m → All (Stored n) m → length m ≤ n - f
length_bound n f [] r a = omega arith
length_bound n f ((k, b) ∷ m) (q, r) ((h, c), a) = omega (arith, length_bound n (k + 1) m r a)

-- One more key at the end stays below the next floor.
pub All-below_next :
    (acc : Map (List ℕ)) (f k : ℕ) (b : List ℕ)
    → f ≤ k
    → All (λ e. e.0 < f) acc
    → All (λ e. e.0 < k + 1) (acc ++ ((k, b) ∷ []))
All-below_next [] f k b h a = (omega arith, tt)
All-below_next ((j, c) ∷ acc) f k b h (p, a) = (omega arith, All-below_next acc f k b h a)

pub emplace_next :
    (acc : Map (List ℕ)) (f k : ℕ) (b : List ℕ)
    → f ≤ k
    → All (λ e. e.0 < f) acc
    → elim (find acc k) [ none ↦ put acc k b | some _ ↦ acc ] ≡ acc ++ ((k, b) ∷ [])
emplace_next acc f k b h a =
    let a' = All-impl (λ e. e.0 < f) (λ e. e.0 < k) acc (λ e p. omega arith) a in
    rw (find_above acc k a') (put_above acc k b a')

parse_block_lem :
    (n f left : ℕ) (acc : Map (List ℕ)) (k : ℕ) (b rest : List ℕ)
    → n ≤ 2147483647
    → f ≤ k
    → k < n
    → length b ≡ 512
    → All (λ e. e.0 < f) acc
    → parse_blocks n (suc left) f acc (put32 k ++ (b ++ rest))
      ≡ parse_blocks n left (k + 1) (acc ++ ((k, b) ∷ [])) rest
unfolding parse_blocks
parse_block_lem n f left acc k b rest hn q h l low = rw (get32-put32 k (b ++ rest) (omega arith)) (
    rw (lt→leb_false n k h) (
      rw (le→ltb_false k f q) (
        rw (take-append b rest 512 l)
          (rw (drop-append b rest 512 l) (rw (emplace_next acc f k b q low) refl)))))

parse_blocks-serialize_blocks :
    (n f : ℕ) (m acc : Map (List ℕ))
    → n ≤ 2147483647
    → Rising f m
    → All (Stored n) m
    → All (λ e. e.0 < f) acc
    → parse_blocks n (length m) f acc (serialize_blocks m)
      ≡ inr (record { blocks = n; held = acc ++ m })
unfolding parse_blocks serialize_blocks
parse_blocks-serialize_blocks n f [] acc hn r a low =
    ap (λ l. inr (record { blocks = n; held = l })) (sym (append_nil acc))
parse_blocks-serialize_blocks n f ((k, b) ∷ m) acc hn (q, r) ((h, (l, c)), a) low =
    parse_block_lem n f (length m) acc k b (serialize_blocks m) hn q h l low
    ∙ parse_blocks-serialize_blocks n (k + 1) m (acc ++ ((k, b) ∷ [])) hn r a
        (All-below_next acc f k b q low)
    ∙ ap (λ l. inr (record { blocks = n; held = l })) (append_assoc acc ((k, b) ∷ []) m)

pub extra_lem :
    (bs : List ℕ) (c : ℕ)
    → length bs ≡ 20 + 516 * c
    → (ltb (length bs) 20 ≡ false)
      × (((length bs - 20) % 516 == 0) ≡ true)
      × (((length bs - 20) / 516 == c) ≡ true)
extra_lem bs c l =
    (le→ltb_false (length bs) 20 (omega arith), eq→== (omega arith), eq→== (omega arith))

parse_lem :
    (bs : List ℕ) (n c : ℕ)
    → length bs ≡ 20 + 516 * c
    → same_bytes (take 8 bs) magic ≡ true
    → get16 bs 8 ≡ 1
    → get16 bs 10 ≡ 512
    → get32 bs 12 ≡ n
    → get32 bs 16 ≡ c
    → n ≤ 2147483647
    → parse bs ≡ parse_blocks n c 0 [] (drop 20 bs)
unfolding parse
parse_lem bs n c l m g8 g10 g12 g16 h = rw ((extra_lem bs c l).0) (
    rw m (
      rw (eq→== g8) (
        rw (eq→== g10) (
          rw g12 (
            rw g16 (
              rw (le→ltb_false 2147483647 n h)
                (rw ((extra_lem bs c l).1) (rw ((extra_lem bs c l).2) refl))))))))

-- The header of the serial form, and what stands behind it.
parse_header :
    (n c : ℕ) (rest : List ℕ)
    → n ≤ 2147483647
    → c ≤ n
    → length rest ≡ 516 * c
    → parse (magic ++ put16 version ++ put16 block_size ++ put32 n ++ put32 c ++ rest)
      ≡ parse_blocks n c 0 [] rest
parse_header n c rest hn hc l =
    parse_lem (magic ++ put16 version ++ put16 block_size ++ put32 n ++ put32 c ++ rest) n c
      (omega arith) refl refl refl (omega arith) (omega arith) hn

-- A valid volume of at most 2 ^ 31 - 1 blocks is what `parse` makes of its serial form.
pub parse-serialize :
    (v : SparseVolume) → IsValid v → v.blocks ≤ 2147483647 → parse (serialize v) ≡ inr v
unfolding serialize
parse-serialize v (r, a) h =
    let a' = All-impl (Held v.blocks) (Stored v.blocks) v.held (λ e p. (p.0, p.1)) a in
    parse_header v.blocks (length v.held) (serialize_blocks v.held) h
      (omega (arith, length_bound v.blocks 0 v.held r a'))
      (length-serialize_blocks v.blocks v.held a')
    ∙ parse_blocks-serialize_blocks v.blocks 0 v.held [] h r a' tt
