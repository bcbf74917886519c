-- ===== src/Codec/Bits.antt =====
-- A `u64` as a set of bits: `w & (1 << k) != 0` and `w | 1 << k`.
use Prim.Native.Nat.{min, max, digits, bitwise, bit_and, bit_or, bit_and-bitwise, bit_or-bitwise}
use native.Mathlib.Nat.{le_refl, pow-suc}
use sygma_substrate_pallets.Prelude.{
  ℕ, zero, suc, ◌+◌, ◌*◌, ◌/◌, ◌%◌, ◌^◌, ◌≤◌, ◌<◌, ◌≡◌, refl, Bool, false, not, ◌||◌, ◌==◌, arith,
}

unfoldable pub has_bit : ℕ → ℕ → Bool
has_bit w k = not (bit_and w (2 ^ k) == 0)

unfoldable pub set_bit : ℕ → ℕ → ℕ
set_bit w k = bit_or w (2 ^ k)

-- The library states both operations as a recursion on binary digits with fuel; it suffices.
module _ (z : ℕ → ℕ) (f : ℕ → ℕ → ℕ) where
  digits_enough : (n m a b : ℕ) → a ≤ n → a ≤ m → digits z f n a b ≡ digits z f m a b
  digits_enough zero zero a b p q = refl
  digits_enough zero (suc m) zero b p q = refl
  digits_enough zero (suc m) (suc a) b p q = absurd (omega arith)
  digits_enough (suc n) zero zero b p q = refl
  digits_enough (suc n) zero (suc a) b p q = absurd (omega arith)
  digits_enough (suc n) (suc m) zero b p q = refl
  digits_enough (suc n) (suc m) (suc a) b p q =
      rw (digits_enough n m (suc a / 2) (b / 2) (omega arith) (omega arith))

  lowest_digit :
      (a b : ℕ)
      → bitwise z f (suc a) b ≡ bitwise z f (suc a / 2) (b / 2) * 2 + f (suc a % 2) (b % 2)
  lowest_digit a b =
      omega (arith, digits_enough a (suc a / 2) (suc a / 2) (b / 2) (omega arith) (le_refl _))

or_digit : (a b : ℕ) → bit_or a b ≡ bit_or (a / 2) (b / 2) * 2 + max (a % 2) (b % 2)
or_digit zero b = simp bit_or-bitwise (omega arith)
or_digit (suc a) b = simp bit_or-bitwise (lowest_digit (λ y. y) max a b)

and_digit : (a b : ℕ) → bit_and a b ≡ bit_and (a / 2) (b / 2) * 2 + min (a % 2) (b % 2)
and_digit zero b = simp bit_and-bitwise (omega arith)
and_digit (suc a) b = simp bit_and-bitwise (lowest_digit (λ y. 0) min a b)

and_zero_below : (n a : ℕ) → a ≤ n → bit_and a 0 ≡ 0
and_zero_below n zero h = refl
and_zero_below zero (suc a) h = absurd (omega arith)
and_zero_below (suc n) (suc a) h =
    omega (arith, and_digit (suc a) 0, and_zero_below n (suc a / 2) (omega arith))

or_zero_below : (n a : ℕ) → a ≤ n → bit_or a 0 ≡ a
or_zero_below n zero h = refl
or_zero_below zero (suc a) h = absurd (omega arith)
or_zero_below (suc n) (suc a) h =
    omega (arith, or_digit (suc a) 0, or_zero_below n (suc a / 2) (omega arith))

and_lowest : (w : ℕ) → bit_and w (2 ^ 0) ≡ w % 2
and_lowest w = omega (arith, and_digit w 1, and_zero_below (w / 2) (w / 2) (le_refl _))

and_higher : (w k : ℕ) → bit_and w (2 ^ suc k) ≡ bit_and (w / 2) (2 ^ k) * 2
and_higher w k =
    let half : 2 ^ suc k / 2 ≡ 2 ^ k = omega (arith, pow-suc 2 k) in
    let even : 2 ^ suc k % 2 ≡ 0 = omega (arith, pow-suc 2 k) in
    rw (and_digit w (2 ^ suc k), half, even) (omega arith)

or_lowest : (w : ℕ) → bit_or w (2 ^ 0) ≡ w / 2 * 2 + 1
or_lowest w = omega (arith, or_digit w 1, or_zero_below (w / 2) (w / 2) (le_refl _))

or_higher : (w k : ℕ) → bit_or w (2 ^ suc k) ≡ bit_or (w / 2) (2 ^ k) * 2 + w % 2
or_higher w k =
    let half : 2 ^ suc k / 2 ≡ 2 ^ k = omega (arith, pow-suc 2 k) in
    let even : 2 ^ suc k % 2 ≡ 0 = omega (arith, pow-suc 2 k) in
    rw (or_digit w (2 ^ suc k), half, even) (omega arith)

-- Setting a bit sets that bit and no other.
pub has_bit-set_bit : (w j k : ℕ) → has_bit (set_bit w j) k ≡ (j == k || has_bit w k)
unfolding has_bit set_bit
has_bit-set_bit w zero zero = ground (arith, and_lowest (bit_or w (2 ^ 0)), or_lowest w)
has_bit-set_bit w zero (suc k) =
    let same : (w / 2 * 2 + 1) / 2 ≡ w / 2 = omega arith in
    rw (or_lowest w, and_higher (w / 2 * 2 + 1) k, and_higher w k, same) (ground arith)
has_bit-set_bit w (suc j) zero =
    ground (arith, and_lowest (bit_or w (2 ^ suc j)), or_higher w j, and_lowest w)
has_bit-set_bit w (suc j) (suc k) =
    let same : (bit_or (w / 2) (2 ^ j) * 2 + w % 2) / 2 ≡ bit_or (w / 2) (2 ^ j) = omega arith in
    let ih = has_bit-set_bit (w / 2) j k in
    rw (or_higher w j, and_higher (bit_or (w / 2) (2 ^ j) * 2 + w % 2) k, and_higher w k, same)
      (ground (arith, ih))

-- Zero has no bit.
pub has_bit-zero : (k : ℕ) → has_bit 0 k ≡ false
unfolding has_bit
has_bit-zero zero = refl
has_bit-zero (suc k) = rw (and_higher 0 k) (ground (arith, has_bit-zero k))

-- A word of n bits stays one.
pub set_bit-lt : (n w j : ℕ) → j < n → w < 2 ^ n → set_bit w j < 2 ^ n
unfolding set_bit
set_bit-lt zero w j p h = absurd (omega arith)
set_bit-lt (suc n) w zero p h = omega (arith, or_lowest w, pow-suc 2 n)
set_bit-lt (suc n) w (suc j) p h = omega (
  arith,
  or_higher w j,
  pow-suc 2 n,
  set_bit-lt n (w / 2) j (omega arith) (omega (arith, pow-suc 2 n)),
)
