-- ===== src/Base/Blocks.antt =====
-- Runs of consecutive cells of an array: written from a list, and read into one.
use Prim.Native.Nat.{ℕ, zero, suc, ◌+◌, ◌<◌, ◌≤◌}
use mathlib.Core.Path.{◌≡◌, refl, ap, ap₂, ◌∙◌}
use mathlib.Core.Logic.{◌⊎◌, inl}
use mathlib.Core.List.{List, [], ◌∷◌}
use native.Mathlib.Omega.{arith}
use ms.Base.Arrays.{store, length}

module _ {ℓ} {A : Type ℓ} where
  unfoldable pub stores : (ℕ → A) → ℕ → List A → ℕ → A
  stores r base [] = r
  stores r base (v ∷ vs) = stores (store r base v) (base + 1) vs

  unfoldable pub loads : (ℕ → A) → ℕ → ℕ → List A
  loads r base zero = []
  loads r base (suc n) = r base ∷ loads r (base + 1) n

module _ {ℓ} {A : Type ℓ} where
  -- Nothing changes outside the run.
  pub stores_outside :
      (r : ℕ → A) (base : ℕ) (vs : List A) (j : ℕ)
      → (j < base) ⊎ (base + length vs ≤ j)
      → stores r base vs j ≡ r j
  unfolding stores
  stores_outside r base [] j h = refl
  stores_outside r base (v ∷ vs) j h =
      stores_outside (store r base v) (base + 1) vs j (omega arith) ∙ ground arith

  pub loads-stores :
      (r : ℕ → A) (base : ℕ) (vs : List A) → loads (stores r base vs) base (length vs) ≡ vs
  unfolding stores loads
  loads-stores r base [] = refl
  loads-stores r base (v ∷ vs) =
      ap₂ ◌∷◌
        (stores_outside (store r base v) (base + 1) vs base (inl (omega arith)) ∙ ground arith)
        (loads-stores (store r base v) (base + 1) vs)

  pub length-loads : (r : ℕ → A) (base n : ℕ) → length (loads r base n) ≡ n
  unfolding loads
  length-loads r base zero = refl
  length-loads r base (suc n) = ap suc (length-loads r (base + 1) n)

  pub loads_ext :
      (r s : ℕ → A) (base n : ℕ)
      → ((j : ℕ) → base ≤ j → j < base + n → r j ≡ s j)
      → loads r base n ≡ loads s base n
  unfolding loads
  loads_ext r s base zero h = refl
  loads_ext r s base (suc n) h =
      ap₂ ◌∷◌ (h base (omega arith) (omega arith))
        (loads_ext r s (base + 1) n (λ j a b. h j (omega arith) (omega arith)))
