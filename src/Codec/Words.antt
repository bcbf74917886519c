-- ===== src/Codec/Words.antt =====
-- Big-endian words: `to_be_bytes` of a fixed width and `U256::from_big_endian`.
use sygma_substrate_pallets.Prelude.{
  ℕ, zero, suc, ◌+◌, ◌*◌, ◌/◌, ◌%◌, ◌^◌, ◌<◌, ◌≡◌, refl, [], ◌∷◌, ◌++◌, arith, length,
  length-append, ap, ◌∙◌,
}
use native.Mathlib.Nat.{pow-suc, div-div-eq-div-mul, div-one, zero-add}
use mathlib.Core.Path.{◌≡⟨◌⟩◌, ◌∎}
use mathlib.Core.List.{append-nil, append_assoc}
use sygma_substrate_pallets.Traits.{Bytes}

-- The lowest `w` bytes of a number, the highest first.
unfoldable pub be_bytes : ℕ → ℕ → Bytes
be_bytes zero n = []
be_bytes (suc w) n = be_bytes w (n / 256) ++ n % 256 ∷ []

unfoldable pub from_be_loop : ℕ → Bytes → ℕ
from_be_loop acc [] = acc
from_be_loop acc (b ∷ bs) = from_be_loop (acc * 256 + b) bs

-- `U256::from_big_endian`
unfoldable pub from_be : Bytes → ℕ
unfolding from_be_loop
from_be = from_be_loop 0

pub length-be_bytes : (w n : ℕ) → length (be_bytes w n) ≡ w
unfolding be_bytes
length-be_bytes zero n = refl
length-be_bytes (suc w) n =
    omega (arith, length-append (be_bytes w (n / 256)) (n % 256 ∷ []), length-be_bytes w (n / 256))

from_be_loop-append :
    (acc : ℕ) (xs : Bytes) (b : ℕ) → from_be_loop acc (xs ++ b ∷ []) ≡ from_be_loop acc xs * 256 + b
unfolding from_be_loop
from_be_loop-append acc [] b = refl
from_be_loop-append acc (x ∷ xs) b = from_be_loop-append (acc * 256 + x) xs b

-- Reading back what was written.
pub from_be-be_bytes : (w n : ℕ) → n < 256 ^ w → from_be (be_bytes w n) ≡ n
unfolding from_be be_bytes
from_be-be_bytes zero n h = omega arith
from_be-be_bytes (suc w) n h = omega (
  arith,
  from_be_loop-append 0 (be_bytes w (n / 256)) (n % 256),
  from_be-be_bytes w (n / 256) (omega (arith, pow-suc 256 w)),
)

-- A word of `w + v` bytes is its high `v` bytes followed by its low `w`.
pub be_bytes-add : (v w n : ℕ) → be_bytes (w + v) n ≡ be_bytes v (n / 256 ^ w) ++ be_bytes w n
unfolding be_bytes
be_bytes-add v zero n = simp (append-nil, zero-add, div-one)
be_bytes-add v (suc w) n =
    be_bytes (suc w + v) n
    ≡⟨ ap (λ (k : ℕ). be_bytes k n) {x = suc w + v} {y = suc (w + v)} (omega arith) ⟩
      be_bytes (w + v) (n / 256) ++ n % 256 ∷ []
    ≡⟨ ap (λ (xs : Bytes). xs ++ n % 256 ∷ []) (be_bytes-add v w (n / 256)) ⟩
      (be_bytes v (n / 256 / 256 ^ w) ++ be_bytes w (n / 256)) ++ n % 256 ∷ []
    ≡⟨ append_assoc (be_bytes v (n / 256 / 256 ^ w)) _ _ ⟩
      be_bytes v (n / 256 / 256 ^ w) ++ be_bytes (suc w) n
    ≡⟨ ap (λ (k : ℕ). be_bytes v k ++ be_bytes (suc w) n)
        (div-div-eq-div-mul n 256 (256 ^ w)
          ∙ ap (◌/◌ n) {x = 256 * 256 ^ w} {y = 256 ^ suc w} (omega (arith, pow-suc 256 w))) ⟩
      be_bytes v (n / 256 ^ suc w) ++ be_bytes (suc w) n ∎

-- Eight bytes see a number modulo 2 ^ 64.
pub be_bytes-mod_word : (n : ℕ) → be_bytes 8 (n % 2 ^ 64) ≡ be_bytes 8 n
unfolding be_bytes
be_bytes-mod_word n = ground arith
