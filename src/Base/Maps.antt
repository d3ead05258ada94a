-- ===== src/Base/Maps.antt =====
-- `std::map` with numbers as keys: its pairs in rising order of the keys.
use Prim.Native.Nat.{ℕ, ◌+◌, ◌≤◌, ◌<◌}
use mathlib.Core.Path.{subst, ◌≡◌, refl, sym, ap₂, ◌∙◌}
use mathlib.Core.Logic.{inl, inr}
use mathlib.Core.Option.{Option, none, some, some_inj}
use mathlib.Core.List.{List, [], ◌∷◌, ◌++◌}
use native.Mathlib.Nat.{le_refl, le_antisymm}
use mathlib.Core.Bool.{false}
use native.Mathlib.Omega.{arith}
use ms.Base.Tests.{Bool-cases, ltb→lt, ◌==◌, ltb, if◌then◌else◌}
use ms.Base.Arrays.{All}

abbrev pub Map {ℓ} : Type ℓ → Type ℓ
Map A = List (ℕ × A)

module _ {ℓ} {A : Type ℓ} where
  abbrev pub find : Map A → ℕ → Option A
  find [] k = none
  find ((j, a) ∷ m) k = if j == k then some a else find m k

  -- `m[k] = v`
  abbrev pub put : Map A → ℕ → A → Map A
  put [] k v = (k, v) ∷ []
  put ((j, a) ∷ m) k v =
      let rest = put m k v in
      if ltb k j then (k, v) ∷ (j, a) ∷ m else if k == j then (k, v) ∷ m else (j, a) ∷ rest

  -- `m.emplace(k, v)`: what the map holds already stays.
  abbrev pub emplace : Map A → ℕ → A → Map A
  emplace m k v = elim (find m k) [ none ↦ put m k v | some _ ↦ m ]

  -- `m.erase(k)`
  abbrev pub erase : Map A → ℕ → Map A
  erase [] k = []
  erase ((j, a) ∷ m) k = let rest = erase m k in if j == k then rest else (j, a) ∷ rest

  -- `m.erase(m.lower_bound(n), m.end())`
  abbrev pub below : Map A → ℕ → Map A
  below [] n = []
  below ((j, a) ∷ m) n = let rest = below m n in if ltb j n then (j, a) ∷ rest else []

  -- The keys rise, from `floor` on.
  abbrev pub Rising : ℕ → Map A → Type 0
  Rising floor [] = Unit
  Rising floor ((k, v) ∷ m) = (floor ≤ k) × Rising (k + 1) m

module _ {ℓ} {A : Type ℓ} where
  pub Rising-le : (m : Map A) (f g : ℕ) → g ≤ f → Rising f m → Rising g m
  Rising-le [] f g h r = r
  Rising-le ((k, v) ∷ m) f g h (a, r) = (omega arith, r)

  pub find_below_floor : (m : Map A) (f k : ℕ) → Rising f m → k < f → find m k ≡ none
  find_below_floor [] f k r h = refl
  find_below_floor ((j, a) ∷ m) f k (b, r) h =
      ground (arith, find_below_floor m (j + 1) k r (omega arith))

  pub put-Rising : (m : Map A) (f k : ℕ) (v : A) → Rising f m → f ≤ k → Rising f (put m k v)
  put-Rising [] f k v r h = (h, tt)
  put-Rising ((j, a) ∷ m) f k v (b, r) h = elim (Bool-cases (ltb k j)) [
    | inl e ↦ rw e ((h, (ground arith, r)))
    | inr e ↦ rw e (elim (Bool-cases (k == j)) [
      | inl e' ↦ rw e' ((h, Rising-le m (j + 1) (k + 1) (ground arith) r))
      | inr e' ↦ rw e' ((b, put-Rising m (j + 1) k v r (ground arith)))
    ])
  ]

  pub erase-Rising : (m : Map A) (f k : ℕ) → Rising f m → Rising f (erase m k)
  erase-Rising [] f k r = r
  erase-Rising ((j, a) ∷ m) f k (b, r) = elim (Bool-cases (j == k)) [
    | inl e ↦ rw e (erase-Rising m f k (Rising-le m (j + 1) f (omega arith) r))
    | inr e ↦ rw e ((b, erase-Rising m (j + 1) k r))
  ]

  pub below-Rising : (m : Map A) (f n : ℕ) → Rising f m → Rising f (below m n)
  below-Rising [] f n r = r
  below-Rising ((j, a) ∷ m) f n (b, r) = elim (Bool-cases (ltb j n)) [
    | inl e ↦ rw e ((b, below-Rising m (j + 1) n r))
    | inr e ↦ rw e tt
  ]

  pub find-put :
      (m : Map A) (f k : ℕ) (v : A) (i : ℕ)
      → Rising f m
      → find (put m k v) i ≡ (if k == i then some v else find m i)
  find-put [] f k v i r = refl
  find-put ((j, a) ∷ m) f k v i (b, r) = ground (arith, find-put m (j + 1) k v i r)

  pub find-erase : (m : Map A) (k i : ℕ) → find (erase m k) i ≡ (if k == i then none else find m i)
  find-erase [] k i = ground arith
  find-erase ((j, a) ∷ m) k i = ground (arith, find-erase m k i)

  pub find-below :
      (m : Map A) (f n i : ℕ)
      → Rising f m
      → find (below m n) i ≡ (if ltb i n then find m i else none)
  find-below [] f n i r = ground arith
  find-below ((j, a) ∷ m) f n i (b, r) =
      ground (arith, find-below m (j + 1) n i r, find_below_floor m (j + 1) i r)

module _ {ℓ κ} {A : Type ℓ} (P : ℕ × A → Type κ) where
  pub put-All : (m : Map A) (k : ℕ) (v : A) → All P m → P (k, v) → All P (put m k v)
  put-All [] k v a p = (p, tt)
  put-All ((j, x) ∷ m) k v (b, a) p = elim (Bool-cases (ltb k j)) [
    | inl e ↦ rw e ((p, (b, a)))
    | inr e ↦ rw e (elim (Bool-cases (k == j)) [
      | inl e' ↦ rw e' ((p, a))
      | inr e' ↦ rw e' ((b, put-All m k v a p))
    ])
  ]

  pub erase-All : (m : Map A) (k : ℕ) → All P m → All P (erase m k)
  erase-All [] k a = a
  erase-All ((j, x) ∷ m) k (b, a) = elim (Bool-cases (j == k)) [
    | inl e ↦ rw e (erase-All m k a)
    | inr e ↦ rw e ((b, erase-All m k a))
  ]

  pub below-All : (m : Map A) (n : ℕ) → All P m → All P (below m n)
  below-All [] n a = a
  below-All ((j, x) ∷ m) n (b, a) = elim (Bool-cases (ltb j n)) [
    | inl e ↦ rw e ((b, below-All m n a))
    | inr e ↦ rw e tt
  ]

  pub All-find : (m : Map A) (k : ℕ) (v : A) → All P m → find m k ≡ some v → P (k, v)
  All-find [] k v a e = absurd (ground arith)
  All-find ((j, x) ∷ m) k v (b, a) e = elim (Bool-cases (j == k)) [
    | inl d ↦ subst P (ground arith) b
    | inr d ↦ All-find m k v a (ground arith)
  ]

module _ {ℓ} {A : Type ℓ} where
  -- What `below` keeps is below the bound.
  pub below_keys : (m : Map A) (n : ℕ) → All (λ e. e.0 < n) (below m n)
  below_keys [] n = tt
  below_keys ((j, x) ∷ m) n = elim (Bool-cases (ltb j n)) [
    | inl e ↦ rw e ((ltb→lt j n e, below_keys m n))
    | inr e ↦ rw e tt
  ]

  pub find_above : (m : Map A) (k : ℕ) → All (λ e. e.0 < k) m → find m k ≡ none
  find_above [] k a = refl
  find_above ((j, x) ∷ m) k (b, a) = ground (arith, find_above m k a)

  pub put_above :
      (m : Map A) (k : ℕ) (v : A) → All (λ e. e.0 < k) m → put m k v ≡ m ++ ((k, v) ∷ [])
  put_above [] k v a = refl
  put_above ((j, x) ∷ m) k v (b, a) = ground (arith, put_above m k v a)

  find_head : (m : Map A) (j : ℕ) (x : A) → find ((j, x) ∷ m) j ≡ some x
  find_head m j x = ground arith

  find_next : (m : Map A) (j k : ℕ) (x : A) → (j == k) ≡ false → find ((j, x) ∷ m) k ≡ find m k
  find_next m j k x e = rw e refl

  head_le :
      (m m' : Map A) (j j' : ℕ) (x x' : A)
      → Rising (j' + 1) m'
      → ((k : ℕ) → find ((j, x) ∷ m) k ≡ find ((j', x') ∷ m') k)
      → j' ≤ j
  head_le m m' j j' x x' r h =
      ground (arith, h j, find_head m j x, find_below_floor ((j', x') ∷ m') j' j (le_refl j', r))

  tail_agree :
      (m m' : Map A) (j : ℕ) (x x' : A)
      → Rising (j + 1) m
      → Rising (j + 1) m'
      → ((k : ℕ) → find ((j, x) ∷ m) k ≡ find ((j, x') ∷ m') k)
      → (k : ℕ) → find m k ≡ find m' k
  tail_agree m m' j x x' r r' h k = elim (Bool-cases (j == k)) [
    | inl e ↦
        find_below_floor m (j + 1) k r (ground arith)
        ∙ sym (find_below_floor m' (j + 1) k r' (ground arith))
    | inr e ↦ sym (find_next m j k x e) ∙ h k ∙ find_next m' j k x' e
  ]

  map_ext_heads :
      (m m' : Map A) (j j' : ℕ) (x x' : A)
      → Rising (j + 1) m
      → Rising (j' + 1) m'
      → ((k : ℕ) → find ((j, x) ∷ m) k ≡ find ((j', x') ∷ m') k)
      → j ≡ j'
      → (Rising (j + 1) m' → ((k : ℕ) → find m k ≡ find m' k) → m ≡ m')
      → ◌≡◌ {A = Map A} ((j, x) ∷ m) ((j', x') ∷ m')
  map_ext_heads m m' j j' x x' r r' h e ih =
      let s = subst (λ i. Rising (i + 1) m') (sym e) r' in
      let h' = subst (λ i. (k : ℕ) → find ((j, x) ∷ m) k ≡ find ((i, x') ∷ m') k) (sym e) h in
      ap₂ ◌∷◌
        (ap₂ (λ (i : ℕ) (y : A). (i, y)) e
          (some_inj.0 (sym (find_head m j x) ∙ h' j ∙ find_head m' j x')))
        (ih s (tail_agree m m' j x x' r s h'))

  -- A map is what it holds.
  pub map_ext :
      (m m' : Map A) (f : ℕ) → Rising f m → Rising f m' → ((k : ℕ) → find m k ≡ find m' k) → m ≡ m'
  map_ext [] [] f r r' h = refl
  map_ext [] ((j, x) ∷ m') f r r' h = absurd (ground (arith, h j, find_head m' j x))
  map_ext ((j, x) ∷ m) [] f r r' h = absurd (ground (arith, h j, find_head m j x))
  map_ext ((j, x) ∷ m) ((j', x') ∷ m') f (b, r) (b', r') h =
      map_ext_heads m m' j j' x x' r r' h
        (le_antisymm (head_le m' m j' j x' x r (λ k. sym (h k))) (head_le m m' j j' x x' r' h))
        (map_ext m m' (j + 1) r)
