-- ===== src/ParachainRuntime/Keys.antt =====
-- `slice_to_generalkey`, and the slice `data[..length]` of a general key, which panics if the
-- length is above 32.
use sygma_substrate_pallets.Prelude.{
  ℕ, ◌-◌, ◌≤◌, ◌≡◌, refl, ◌++◌, leb, if◌then◌else◌, length, take, replicate, arith, take-append,
}
use sygma_substrate_pallets.Traits.{Bytes}
use sygma_substrate_pallets.Xcm.{Junction, general_key}

-- A Rust computation that returns or panics.
pub data Outcome (A : Type 0) : Type 0 where
  returns : A → Outcome A
  panics : Outcome A

infixl 5 ◌>>=◌
abbrev pub ◌>>=◌ : {A B : Type 0} → Outcome A → (A → Outcome B) → Outcome B
returns a >>= f = f a
panics >>= f = panics

-- The array of 32 bytes that begins with the key
abbrev pub padded : Bytes → Bytes
padded key = key ++ replicate (32 - length key) 0

unfoldable pub slice_to_generalkey : Bytes → Outcome Junction
slice_to_generalkey key =
    if leb (length key) 32 then returns (general_key (length key) (padded key)) else panics

-- `data[..len]` of an array of 32 bytes
unfoldable pub prefix : ℕ → Bytes → Outcome Bytes
prefix len d = if leb len 32 then returns (take len d) else panics

-- The key of a general key made of a slice is the slice.
pub prefix-padded : (key : Bytes) → length key ≤ 32 → prefix (length key) (padded key) ≡ returns key
unfolding prefix
prefix-padded key h =
    ground (arith, take-append (length key) key (replicate (32 - length key) 0) refl)
