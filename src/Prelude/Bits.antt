-- ===== src/Prelude/Bits.antt =====
-- `|` and `&` as arithmetic, from the recursion on digits that the native operation stands for.
use Prim.Native.Nat.{
  ℕ, zero, suc, ◌+◌, ◌*◌, ◌/◌, ◌%◌, ◌^◌, ◌≤◌, ◌<◌, min, max, bit_and, bit_or, digits,
  bit_and-bitwise, bit_or-bitwise,
}
use mathlib.Core.Path.{◌∙◌, ◌≡◌, refl, ap}
use native.Mathlib.Nat.{pow-suc}
use native.Mathlib.Omega.{arith}

-- An operation on digits, and what becomes of the second number when the first has run out.
module _ (left : ℕ → ℕ) (op : ℕ → ℕ → ℕ) where
  spent : (b i j : ℕ) → digits left op i 0 b ≡ digits left op j 0 b
  spent b zero zero = refl
  spent b zero (suc j) = refl
  spent b (suc i) zero = refl
  spent b (suc i) (suc j) = refl

  -- Any two amounts of fuel that are at least the first number give the same.
  same_digits : (b a i j : ℕ) → a ≤ i → a ≤ j → digits left op i a b ≡ digits left op j a b
  same_digits b zero i j _ _ = spent b i j
  same_digits b (suc a) zero j h k = absurd (omega arith)
  same_digits b (suc a) (suc i) zero h k = absurd (omega arith)
  same_digits b (suc a) (suc i) (suc j) h k =
      let halves = same_digits (b / 2) (suc a / 2) i j (omega arith) (omega arith) in
      ap (λ (rest : ℕ). rest * 2 + op (suc a % 2) (b % 2)) halves

-- The lowest digit of `a | b`, and the rest.
pub bit_or_digit : (a b : ℕ) → bit_or a b ≡ max (a % 2) (b % 2) + 2 * bit_or (a / 2) (b / 2)
bit_or_digit zero b = omega (arith, bit_or-bitwise 0 (b / 2), bit_or-bitwise 0 b)
bit_or_digit (suc a) b =
    let half = suc a / 2 in
    let rest = same_digits (λ c. c) max (b / 2) half a half (omega arith) (omega arith) in
    omega (arith, rest, bit_or-bitwise half (b / 2), bit_or-bitwise (suc a) b)

-- The lowest digit of `a & b`, and the rest.
pub bit_and_digit : (a b : ℕ) → bit_and a b ≡ min (a % 2) (b % 2) + 2 * bit_and (a / 2) (b / 2)
bit_and_digit zero b = omega (arith, bit_and-bitwise 0 (b / 2), bit_and-bitwise 0 b)
bit_and_digit (suc a) b =
    let half = suc a / 2 in
    let rest = same_digits (λ c. zero) min (b / 2) half a half (omega arith) (omega arith) in
    omega (arith, rest, bit_and-bitwise half (b / 2), bit_and-bitwise (suc a) b)

-- Two functions with the same law for half of a number agree if they do at 0.
module _ (g h k : ℕ → ℕ) (start : g 0 ≡ h 0) (law : (a : ℕ) → g a ≡ k a + 2 * g (a / 2))
    (law' : (a : ℕ) → h a ≡ k a + 2 * h (a / 2)) where
  agree : (a bound : ℕ) → a ≤ bound → g a ≡ h a
  agree zero bound _ = start
  agree (suc a) zero le = absurd (omega arith)
  agree (suc a) (suc bound) le =
      omega (arith, agree (suc a / 2) bound (omega arith), law (suc a), law' (suc a))

pub bit_or-zero : (a : ℕ) → bit_or a 0 ≡ a
bit_or-zero a =
    agree (λ a. bit_or a 0) (λ a. a) (λ a. a % 2) refl (λ a. omega (arith, bit_or_digit a 0))
      (λ a. omega arith) a a (omega arith)

bit_and-zero : (a : ℕ) → bit_and a 0 ≡ 0
bit_and-zero a =
    agree (λ a. bit_and a 0) (λ a. 0) (λ a. 0) refl (λ a. omega (arith, bit_and_digit a 0))
      (λ a. refl) a a (omega arith)

-- A number whose `k` low bits are clear takes `k` more bits by `|` as by `+`.
pub bit_or-eq-add : (k q r : ℕ) → r < 2 ^ k → bit_or (q * 2 ^ k) r ≡ q * 2 ^ k + r
bit_or-eq-add zero q r h = ground (arith, bit_or-zero q)
bit_or-eq-add (suc k) q r h = ground (
  arith,
  pow-suc 2 k,
  ap (λ (t : ℕ). q * t) (pow-suc 2 k),
  bit_or_digit (q * 2 ^ suc k) r,
  bit_or-eq-add k q (r / 2) (omega arith),
)

-- The masks 1 and 3 give the last binary digit, and the last two.
pub bit_and-one : (n : ℕ) → bit_and n 1 ≡ n % 2
bit_and-one n = let above = bit_and-zero (n / 2) in omega (arith, above, bit_and_digit n 1)

pub bit_and-three : (n : ℕ) → bit_and n 3 ≡ n % 4
bit_and-three n = let above = bit_and-one (n / 2) in omega (arith, above, bit_and_digit n 3)

halve : (m : ℕ) → (2 * m) / 2 ≡ m
halve m = omega arith

or_half : (a m : ℕ) → bit_or a (2 * m) / 2 ≡ bit_or (a / 2) m
or_half a m =
    let digit : bit_or a (2 * m) ≡ max (a % 2) ((2 * m) % 2) + 2 * bit_or (a / 2) m =
      bit_or_digit a (2 * m)
      ∙ ap (λ k. max (a % 2) ((2 * m) % 2) + 2 * bit_or (a / 2) k) (halve m) in
    omega arith

-- A bit that is set is found: one place further on, the same of the halves.
mask_step : (a m : ℕ) → bit_and (bit_or a (2 * m)) (2 * m) ≡ 2 * bit_and (bit_or (a / 2) m) m
mask_step a m =
    let digit : bit_and (bit_or a (2 * m)) (2 * m)
        ≡ min (bit_or a (2 * m) % 2) ((2 * m) % 2) + 2 * bit_and (bit_or (a / 2) m) m =
      bit_and_digit (bit_or a (2 * m)) (2 * m)
      ∙ ap (λ k. min (bit_or a (2 * m) % 2) ((2 * m) % 2) + 2 * bit_and k ((2 * m) / 2))
          (or_half a m)
      ∙ ap (λ k. min (bit_or a (2 * m) % 2) ((2 * m) % 2) + 2 * bit_and (bit_or (a / 2) m) k)
          (halve m) in
    omega arith

mask_one : (a : ℕ) → 1 ≤ bit_and (bit_or a 1) 1
mask_one a = let up = bit_or_digit a 1 in let down = bit_and_digit (bit_or a 1) 1 in omega arith

pub mask_32 : (a : ℕ) → 32 ≤ bit_and (bit_or a 32) 32
mask_32 a =
    let s1 = mask_step a 16 in
    let s2 = mask_step (a / 2) 8 in
    let s3 = mask_step (a / 2 / 2) 4 in
    let s4 = mask_step (a / 2 / 2 / 2) 2 in
    let s5 = mask_step (a / 2 / 2 / 2 / 2) 1 in
    let s6 = mask_one (a / 2 / 2 / 2 / 2 / 2) in omega arith
