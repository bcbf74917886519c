-- ===== src/ParachainRuntime/Fixed.antt =====
-- `FixedU128<U16>` of the `fixed` crate: 128 bits, 16 of them after the point. A value is its bits,
-- so that it stands for its bits divided by 2 ^ 16. The operations are parameters; the laws say what
-- their documentation says where the result fits.
use sygma_substrate_pallets.Prelude.{ℕ, ◌*◌, ◌/◌, ◌-◌, ◌^◌, ◌<◌, ◌≤◌, ◌≡◌, Option, some}

pub record Fixed : Type 0 where
  pub from_num : ℕ → ℕ
  pub to_num : ℕ → ℕ
  pub checked_div : ℕ → ℕ → Option ℕ
  pub saturating_mul : ℕ → ℕ → ℕ

-- An integer below this is representable: `x > U112F16::MAX` for the others
abbrev pub integer_limit : ℕ
integer_limit = 2 ^ 112

pub record IsFixed (F : Fixed) : Type 0 where
  pub from_num_is : (n : ℕ) → n < 2 ^ 112 → F.from_num n ≡ n * 2 ^ 16
  pub to_num_is : (x : ℕ) → F.to_num x ≡ x / 2 ^ 16
  pub checked_div_is :
      (n m : ℕ)
      → n < 2 ^ 112
      → 0 < m
      → m < 2 ^ 112
      → F.checked_div (n * 2 ^ 16) (m * 2 ^ 16) ≡ some (n * 2 ^ 16 / m)
  pub saturating_mul_fits :
      (n m : ℕ)
      → n < 2 ^ 112
      → m < 2 ^ 112
      → n * m < 2 ^ 112
      → F.saturating_mul (n * 2 ^ 16) (m * 2 ^ 16) ≡ n * m * 2 ^ 16
  pub saturating_mul_saturates :
      (n m : ℕ)
      → n < 2 ^ 112
      → m < 2 ^ 112
      → 2 ^ 112 ≤ n * m
      → F.saturating_mul (n * 2 ^ 16) (m * 2 ^ 16) ≡ 2 ^ 128 - 1
