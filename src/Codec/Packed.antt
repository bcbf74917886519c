-- ===== src/Codec/Packed.antt =====
-- bridge/src/encode.rs: Solidity's packed encoding.
use sygma_substrate_pallets.Prelude.{
  ℕ, zero, suc, ◌+◌, ◌-◌, ◌*◌, ◌/◌, ◌%◌, ◌^◌, ◌≡◌, List, [], ◌∷◌, ◌++◌, arith, Bool, if◌then◌else◌,
  drop, length, ap, ◌∙◌, sym, drop-append,
}
use mathlib.Core.List.{reverse, flatten, foldl, map, append_assoc, append-nil}
use native.Mathlib.Nat.{div-div-eq-div-mul}
use sygma_substrate_pallets.Traits.{Bytes}
use sygma_substrate_pallets.Codec.Words.{be_bytes, be_bytes-add, be_bytes-mod_word, length-be_bytes}

-- A text is its UTF-8 bytes, an address its twenty bytes.
pub data SolidityDataType : Type 0 where
  string address bytes : Bytes → SolidityDataType
  bool : Bool → SolidityDataType
  number : ℕ → SolidityDataType
  number_with_shift : ℕ → ℕ → SolidityDataType

-- The limbs of a `U256`, four words of 64 bits, the lowest first.
limbs : ℕ → ℕ → List ℕ
limbs zero n = []
limbs (suc k) n = n % 2 ^ 64 ∷ limbs k (n / 2 ^ 64)

-- `n.0.iter().rev()`, with the bytes of each limb appended to those so far
number_bytes : ℕ → Bytes
unfolding limbs
number_bytes n = foldl (λ acc limb. acc ++ be_bytes 8 limb) [] (reverse (limbs 4 n))

-- `local_res.len() - (to_take.0 / 8)` is a subtraction of `usize`, which wraps in a release build
to_skip : Bytes → ℕ → ℕ
to_skip local_res to_take = (length local_res + 2 ^ 32 - to_take / 8) % 2 ^ 32

unfoldable pub pack : SolidityDataType → Bytes
unfolding number_bytes to_skip
pack (string s) = s
pack (address a) = a
pack (bytes b) = b
pack (bool b) = if b then 1 ∷ [] else 0 ∷ []
pack (number n) = number_bytes n
pack (number_with_shift n to_take) =
    let local_res = number_bytes n in drop (to_skip local_res to_take) local_res

-- The packs are gathered in a list and joined with an empty separator.
unfoldable pub encode_packed : List SolidityDataType → Bytes
encode_packed items = flatten (foldl (λ acc i. acc ++ pack i ∷ []) [] items)

gather :
    (items : List SolidityDataType) (acc : List Bytes)
    → foldl (λ acc i. acc ++ pack i ∷ []) acc items ≡ acc ++ map pack items
gather [] acc = simp append-nil
gather (i ∷ items) acc = simp (gather items (acc ++ pack i ∷ []), append_assoc)

-- The packed encoding of a list of items is the packs of its items, one after another.
pub encode_packed-cons :
    (i : SolidityDataType) (items : List SolidityDataType)
    → encode_packed (i ∷ items) ≡ pack i ++ encode_packed items
unfolding encode_packed flatten
encode_packed-cons i items =
    ap flatten (gather (i ∷ items) [])
    ∙ ap (λ xs. pack i ++ xs) (ap flatten (sym (gather items [])))

number_bytes-eq : (n : ℕ) → number_bytes n ≡ be_bytes 32 n
unfolding number_bytes
number_bytes-eq n =
    rw
      (
        be_bytes-add 8 24 n,
        be_bytes-add 8 16 n,
        be_bytes-add 8 8 n,
        be_bytes-mod_word (n / 2 ^ 64 / 2 ^ 64 / 2 ^ 64),
        be_bytes-mod_word (n / 2 ^ 64 / 2 ^ 64),
        be_bytes-mod_word (n / 2 ^ 64),
        be_bytes-mod_word n,
        div-div-eq-div-mul n (2 ^ 64) (2 ^ 64),
        div-div-eq-div-mul n (2 ^ 64 * 2 ^ 64) (2 ^ 64),
      )
      (append_assoc (be_bytes 8 (n / 256 ^ 24) ++ be_bytes 8 (n / 256 ^ 16)) _ _
        ∙ append_assoc (be_bytes 8 (n / 256 ^ 24)) _ _)

-- A number is packed as its 32 big-endian bytes, though the code goes limb by limb.
pub pack-number : (n : ℕ) → pack (number n) ≡ be_bytes 32 n
unfolding pack
pack-number n = number_bytes-eq n

-- A number with a shift of 8 * w bits, at most 256, is packed as its lowest w bytes.
pub pack-number_with_shift :
    (n v w : ℕ) → w + v ≡ 32 → pack (number_with_shift n (8 * w)) ≡ be_bytes w n
unfolding pack to_skip
pack-number_with_shift n v w h =
    let split : number_bytes n ≡ be_bytes v (n / 256 ^ w) ++ be_bytes w n =
      number_bytes-eq n ∙ ap (λ (k : ℕ). be_bytes k n) (sym h) ∙ be_bytes-add v w n in
    let skip : (length (number_bytes n) + 2 ^ 32 - 8 * w / 8) % 2 ^ 32 ≡ v =
      omega (arith, ap length (number_bytes-eq n), length-be_bytes 32 n) in
    ap (λ (k : ℕ). drop k (number_bytes n)) skip
    ∙ ap (drop v) split
    ∙ drop-append v _ _ (length-be_bytes v _)
