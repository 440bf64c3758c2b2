-- ===== src/Base/Bits.antt =====
-- Laws of `bit_and` and `bit_or` at variables, digit by digit from the lowest: each binary digit of
-- the result is the minimum, or the maximum, of the two digits.
use Prim.Native.Nat.{
  ℕ, zero, suc, ◌+◌, ◌*◌, ◌/◌, ◌%◌, ◌≤◌, min, max, bit_and, bit_or, digits, bitwise,
  bit_and-bitwise, bit_or-bitwise,
}
use mathlib.Core.Path.{◌≡◌, refl, ap}
use native.Mathlib.Omega.{arith}

module _ (rest : ℕ → ℕ) (digit : ℕ → ℕ → ℕ) where
  -- One round after the first number has come to its end changes nothing, so each number of rounds
  -- from there on gives the same.
  spare_round :
      (rounds a b : ℕ)
      → a ≤ rounds
      → digits rest digit (suc rounds) a b ≡ digits rest digit rounds a b
  spare_round zero zero b h = refl
  spare_round (suc rounds) zero b h = refl
  spare_round zero (suc a) b h = absurd (omega arith)
  spare_round (suc rounds) (suc a) b h = rw (spare_round rounds (suc a / 2) (b / 2) (omega arith))

  all_rounds :
      (rounds a b : ℕ) → a ≤ rounds → digits rest digit rounds a b ≡ digits rest digit a a b
  all_rounds zero a b h = ground arith
  all_rounds (suc rounds) a b h = grind (arith, spare_round rounds a b, all_rounds rounds a b)

  halves :
      (a b : ℕ) → digits rest digit a (suc a / 2) b ≡ digits rest digit (suc a / 2) (suc a / 2) b
  halves a b = all_rounds a (suc a / 2) b (omega arith)

  bitwise_halves :
      (a b : ℕ)
      → bitwise rest digit (suc a) b
        ≡ bitwise rest digit (suc a / 2) (b / 2) * 2 + digit (suc a % 2) (b % 2)
  bitwise_halves a b = ap (λ n. n * 2 + digit (suc a % 2) (b % 2)) (halves a (b / 2))

pub bit_and_step : (a b : ℕ) → bit_and a b ≡ bit_and (a / 2) (b / 2) * 2 + min (a % 2) (b % 2)
bit_and_step zero b = rw (bit_and-bitwise 0 b, bit_and-bitwise 0 (b / 2)) (omega arith)
bit_and_step (suc a) b =
    rw (bit_and-bitwise (suc a) b, bit_and-bitwise (suc a / 2) (b / 2)) (bitwise_halves _ min a b)

pub bit_or_step : (a b : ℕ) → bit_or a b ≡ bit_or (a / 2) (b / 2) * 2 + max (a % 2) (b % 2)
bit_or_step zero b = rw (bit_or-bitwise 0 b, bit_or-bitwise 0 (b / 2)) (omega arith)
bit_or_step (suc a) b =
    rw (bit_or-bitwise (suc a) b, bit_or-bitwise (suc a / 2) (b / 2)) (bitwise_halves _ max a b)

-- The digit of weight 2 ^ i.
pub bit_at : ℕ → ℕ → ℕ
bit_at zero a = a % 2
bit_at (suc i) a = bit_at i (a / 2)

pub bit_at-bit_and : (i a b : ℕ) → bit_at i (bit_and a b) ≡ min (bit_at i a) (bit_at i b)
unfolding bit_at
bit_at-bit_and zero a b = omega (arith, bit_and_step a b)
bit_at-bit_and (suc i) a b =
    let half : bit_and a b / 2 ≡ bit_and (a / 2) (b / 2) = omega (arith, bit_and_step a b) in
    rw half (bit_at-bit_and i (a / 2) (b / 2))

pub bit_at-bit_or : (i a b : ℕ) → bit_at i (bit_or a b) ≡ max (bit_at i a) (bit_at i b)
unfolding bit_at
bit_at-bit_or zero a b = omega (arith, bit_or_step a b)
bit_at-bit_or (suc i) a b =
    let half : bit_or a b / 2 ≡ bit_or (a / 2) (b / 2) = omega (arith, bit_or_step a b) in
    rw half (bit_at-bit_or i (a / 2) (b / 2))

pub bit_at_zero : (i : ℕ) → bit_at i 0 ≡ 0
unfolding bit_at
bit_at_zero zero = refl
bit_at_zero (suc i) = bit_at_zero i

-- Numbers are equal where all their digits are; `n` bounds both.
eq_of_bits_fuel : (n a b : ℕ) → a ≤ n → b ≤ n → ((i : ℕ) → bit_at i a ≡ bit_at i b) → a ≡ b
unfolding bit_at
eq_of_bits_fuel zero a b p q h = omega arith
eq_of_bits_fuel (suc n) a b p q h =
    omega
      (arith, h 0, eq_of_bits_fuel n (a / 2) (b / 2) (omega arith) (omega arith) (λ i. h (suc i)))

pub eq_of_bits : (a b : ℕ) → ((i : ℕ) → bit_at i a ≡ bit_at i b) → a ≡ b
eq_of_bits a b h = eq_of_bits_fuel (a + b) a b (omega arith) (omega arith) h

pub bit_and_assoc : (a b c : ℕ) → bit_and (bit_and a b) c ≡ bit_and a (bit_and b c)
bit_and_assoc a b c = eq_of_bits _ _ λ i. omega (
  arith,
  bit_at-bit_and i (bit_and a b) c,
  bit_at-bit_and i a (bit_and b c),
  bit_at-bit_and i a b,
  bit_at-bit_and i b c,
)

pub bit_and_comm : (a b : ℕ) → bit_and a b ≡ bit_and b a
bit_and_comm a b = eq_of_bits _ _ λ i. omega (arith, bit_at-bit_and i a b, bit_at-bit_and i b a)

pub bit_and_self : (a : ℕ) → bit_and a a ≡ a
bit_and_self a = eq_of_bits _ _ λ i. omega (arith, bit_at-bit_and i a a)

pub bit_and-or : (a b c : ℕ) → bit_and a (bit_or b c) ≡ bit_or (bit_and a b) (bit_and a c)
bit_and-or a b c = eq_of_bits _ _ λ i. omega (
  arith,
  bit_at-bit_and i a (bit_or b c),
  bit_at-bit_or i b c,
  bit_at-bit_or i (bit_and a b) (bit_and a c),
  bit_at-bit_and i a b,
  bit_at-bit_and i a c,
)

-- A part of the bits that a mask selects is selected from what the mask leaves.
pub bit_and_within : (t m s : ℕ) → bit_and m s ≡ s → bit_and t s ≡ bit_and (bit_and t m) s
bit_and_within t m s h = rw (bit_and_assoc t m s, h)
