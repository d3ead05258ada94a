-- ===== src/Core/Cpu/Requests.antt =====
-- The requests of src/core/src/cpu.c: the board's lines, and the code that its encoder gives.
use ms.Base.{
  ℕ, ◌<◌, ◌≤◌, ◌≡◌, ◌⊎◌, inl, inr, refl, Bool, true, false, List, [], ◌∷◌, All, ◌==◌, if◌then◌else◌,
  arith,
}
use native.Mathlib.Nat.{le_refl}
use ms.Core.Cpu.{Cpu, first_request, sample_requests}
use ms.Core.Cpu.Interrupts.{code_level}

-- The lines of the board's encoder: the monitor's, the MS 7004 keyboard's, the timer's, the serial
-- port's receiver and transmitter, and the MS 7007 keyboard's; with the code of each on CP0-CP3, its
-- place in the encoder, and the level of the code in the T-11's coding.
pub data Line : Type 0 where
  monitor keyboard timer receiver transmitter matrix : Line

abbrev pub code_of : Line → ℕ
code_of monitor = 2
code_of keyboard = 5
code_of timer = 11
code_of receiver = 9
code_of transmitter = 8
code_of matrix = 3

abbrev pub place_of : Line → ℕ
place_of monitor = 0
place_of keyboard = 1
place_of timer = 2
place_of receiver = 3
place_of transmitter = 4
place_of matrix = 5

abbrev pub level_of : Line → ℕ
level_of monitor = 4
level_of keyboard = 5
level_of timer = 6
level_of receiver = 6
level_of transmitter = 6
level_of matrix = 4

abbrev lines : List Line
lines = monitor ∷ keyboard ∷ timer ∷ receiver ∷ transmitter ∷ matrix ∷ []

abbrev codes : List Line → List ℕ
codes [] = []
codes (l ∷ ls) = code_of l ∷ codes ls

abbrev Ordered : List Line → Type 0
Ordered [] = Unit
Ordered (l ∷ ls) = All (λ l'. place_of l ≤ place_of l') ls × Ordered ls

lines-Ordered : Ordered lines
lines-Ordered = ground arith

-- What the encoder gives among some of its lines.
abbrev Given : (ℕ → Bool) → List Line → ℕ → Type 0
Given virq ls code =
    (All (λ l. virq (code_of l) ≡ false) ls × (code ≡ 0))
    ⊎ ((l : Line) × (code ≡ code_of l)
        × (virq (code_of l) ≡ true)
        × All (λ l'. virq (code_of l') ≡ true → place_of l ≤ place_of l') ls)

unasked :
    (virq : ℕ → Bool) (l : Line) (ls : List Line)
    → All (λ l'. place_of l ≤ place_of l') ls
    → All (λ l'. virq (code_of l') ≡ true → place_of l ≤ place_of l') ls
unasked virq l [] a = tt
unasked virq l (x ∷ xs) (h, a) = (λ _. h, unasked virq l xs a)

Given-skip :
    (virq : ℕ → Bool) (l : Line) (ls : List Line) (code : ℕ)
    → virq (code_of l) ≡ false
    → Given virq ls code
    → Given virq (l ∷ ls) code
Given-skip virq l ls code e (inl (none, z)) = inl ((e, none), z)
Given-skip virq l ls code e (inr (m, c, r, first)) =
    inr (m, c, r, (λ h. absurd (ground (arith, e, h)), first))

Given-step :
    (virq : ℕ → Bool) (l : Line) (ls : List Line) (rest : ℕ) (b : Bool)
    → virq (code_of l) ≡ b
    → All (λ l'. place_of l ≤ place_of l') ls
    → Given virq ls rest
    → Given virq (l ∷ ls) (if b then code_of l else rest)
Given-step virq l ls rest true e h g =
    inr (l, refl, e, (λ _. le_refl (place_of l), unasked virq l ls h))
Given-step virq l ls rest false e h g = Given-skip virq l ls rest e g

first_request-Given :
    (virq : ℕ → Bool) (ls : List Line) → Ordered ls → Given virq ls (first_request virq (codes ls))
unfolding first_request
first_request-Given virq [] o = inl (tt, refl)
first_request-Given virq (l ∷ ls) (h, o) =
    Given-step virq l ls (first_request virq (codes ls)) (virq (code_of l)) refl h
      (first_request-Given virq ls o)

pub code_nonzero : (l : Line) → (code_of l == 0) ≡ false
code_nonzero monitor = refl
code_nonzero keyboard = refl
code_nonzero timer = refl
code_nonzero receiver = refl
code_nonzero transmitter = refl
code_nonzero matrix = refl

pub code_level_lem : (l : Line) → code_level (code_of l) ≡ level_of l
unfolding code_level
code_level_lem monitor = refl
code_level_lem keyboard = refl
code_level_lem timer = refl
code_level_lem receiver = refl
code_level_lem transmitter = refl
code_level_lem matrix = refl

everywhere : (P : Line → Type 0) → All P lines → (l : Line) → P l
everywhere P a monitor = a.0
everywhere P a keyboard = a.1.0
everywhere P a timer = a.1.1.0
everywhere P a receiver = a.1.1.1.0
everywhere P a transmitter = a.1.1.1.1.0
everywhere P a matrix = a.1.1.1.1.1.0

pub code_lt : (l : Line) → code_of l < 16
code_lt = everywhere (λ l. code_of l < 16) (ground arith)

-- What the processor sees of the requests in a read cycle: 0 if none of the board's six lines makes
-- one, whatever its other inputs do, else the code of a line that does and that is before every other
-- such line in the encoder, which has them in the order monitor, MS 7004, timer, receiver,
-- transmitter, MS 7007.
pub sample_requests_lem :
    {B : Type 0} (c : Cpu B)
    → let code = (sample_requests c).1.irq_seen in
      (((l : Line) → c.irq_virq (code_of l) ≡ false) × (code ≡ 0))
      ⊎ ((l : Line) × (code ≡ code_of l)
          × (c.irq_virq (code_of l) ≡ true)
          × ((l' : Line) → c.irq_virq (code_of l') ≡ true → place_of l ≤ place_of l'))
unfolding sample_requests
sample_requests_lem c = elim (first_request-Given c.irq_virq lines lines-Ordered) [
  | inl (none, z) ↦ inl (everywhere (λ l. c.irq_virq (code_of l) ≡ false) none, z)
  | inr (l, e, r, first) ↦
      inr (
        l,
        e,
        r,
        everywhere (λ l'. c.irq_virq (code_of l') ≡ true → place_of l ≤ place_of l') first,
      )
]
