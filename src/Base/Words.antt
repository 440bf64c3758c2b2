-- ===== src/Base/Words.antt =====
-- The lower and the upper half of a word by `bit_and` and `bit_or`.
use sc_memory_knowledge_sync.Base.Bits.{
  bit_at-bit_and, bit_and_step, bit_or_step, bit_at-bit_or, bit_at_zero, eq_of_bits,
}
use Prim.Native.Nat.{ℕ, zero, suc, ◌+◌, ◌*◌, ◌/◌, ◌%◌, ◌<◌, bit_and, bit_or}
use mathlib.Core.Path.{◌≡◌, ap, ◌∙◌, subst}
use native.Mathlib.Omega.{arith}

pub bit_or_zero : (a : ℕ) → bit_or a 0 ≡ a
bit_or_zero a = eq_of_bits _ _ λ i. omega (arith, bit_at-bit_or i a 0, bit_at_zero i)

bit_and_zero : (a : ℕ) → bit_and a 0 ≡ 0
bit_and_zero a = eq_of_bits _ _ λ i. omega (arith, bit_at-bit_and i a 0, bit_at_zero i)

-- The mask of the `k` lowest bits, what it selects, and the bound of what it selects.
ones : ℕ → ℕ
ones zero = 0
ones (suc k) = ones k * 2 + 1

low : ℕ → ℕ → ℕ
low zero a = 0
low (suc k) a = low k (a / 2) * 2 + a % 2

bound : ℕ → ℕ
bound zero = 1
bound (suc k) = bound k * 2

bit_and_odd : (a m : ℕ) → bit_and a (m * 2 + 1) ≡ bit_and (a / 2) m * 2 + a % 2
bit_and_odd a m =
    let half : (m * 2 + 1) / 2 ≡ m = omega arith in
    rw (bit_and_step a (m * 2 + 1), half) (omega arith)

bit_or_even : (m b : ℕ) → bit_or (m * 2) b ≡ bit_or m (b / 2) * 2 + b % 2
bit_or_even m b =
    let half : m * 2 / 2 ≡ m = omega arith in rw (bit_or_step (m * 2) b, half) (omega arith)

bit_and-ones : (k a : ℕ) → bit_and a (ones k) ≡ low k a
unfolding ones low
bit_and-ones zero a = bit_and_zero a
bit_and-ones (suc k) a = bit_and_odd a (ones k) ∙ ap (λ n. n * 2 + a % 2) (bit_and-ones k (a / 2))

-- A number moved up by `k` bits.
moved : ℕ → ℕ → ℕ
moved zero a = a
moved (suc k) a = moved k a * 2

bit_or-moved : (k a b : ℕ) → b < bound k → bit_or (moved k a) b ≡ moved k a + b
unfolding bound moved
bit_or-moved zero a b h =
    let none_left : b ≡ 0 = omega arith in rw none_left (bit_or_zero a ∙ omega arith)
bit_or-moved (suc k) a b h =
    bit_or_even (moved k a) b
    ∙ ap (λ n. n * 2 + b % 2) (bit_or-moved k a (b / 2) (omega arith))
    ∙ omega arith

pub bit_and-low_half : (a : ℕ) → bit_and a 65535 ≡ a % 65536
unfolding ones low
bit_and-low_half a = bit_and-ones 16 a ∙ omega arith

pub bit_or-halves : (a b : ℕ) → b < 65536 → bit_or (a * 65536) b ≡ a * 65536 + b
unfolding bound moved
bit_or-halves a b h =
    let upper : moved 16 a ≡ a * 65536 = omega arith in
    subst (λ n. bit_or n b ≡ n + b) upper (bit_or-moved 16 a b h)
