-- ===== src/Xcm.antt =====
-- The values of the `xcm::latest` types that the pallets take apart: junctions, locations, asset
-- ids and assets. A location's `X1` to `X8` is the list of its junctions, outermost first, and
-- `Here` is the empty list. 32-byte ids are numbers, read big-endian; they are only compared.
-- `other` stands for the junctions that the pallets do not name.
pub mod Api
use sygma_substrate_pallets.Prelude.{ℕ, List, [], ◌∷◌, Option, none, ℕ_discrete}

pub data Junction : Type 0 where
  parachain : ℕ → Junction
  account_id32 : Option ℕ → ℕ → Junction
  account_key20 : Option ℕ → ℕ → Junction
  general_index : ℕ → Junction
  general_key : ℕ → List ℕ → Junction
  other : ℕ → Junction

pub record MultiLocation : Type 0 where
  pub parents : ℕ
  pub interior : List Junction

pub data AssetId : Type 0 where
  concrete : MultiLocation → AssetId
  abstract_id : ℕ → AssetId

pub data Fungibility : Type 0 where
  fungible : ℕ → Fungibility
  non_fungible : ℕ → Fungibility

pub record MultiAsset : Type 0 where
  pub id : AssetId
  pub fun : Fungibility

-- `MultiLocation::here()`
abbrev pub here : MultiLocation
here = record { parents = 0; interior = [] }

-- `MultiLocation::parent()`
abbrev pub parent : MultiLocation
parent = record { parents = 1; interior = [] }

-- `Junction::AccountId32 { network: None, id }.into()`
abbrev pub account_location : ℕ → MultiLocation
account_location id = record { parents = 0; interior = account_id32 none id ∷ [] }

-- `(id, Fungible(amount)).into()`
abbrev pub fungible_asset : AssetId → ℕ → MultiAsset
fungible_asset id amount = record { id = id; fun = fungible amount }

unfoldable pub MultiLocation-discrete : Discrete MultiLocation
MultiLocation-discrete = hlevel ℕ_discrete

unfoldable pub AssetId-discrete : Discrete AssetId
AssetId-discrete = hlevel ℕ_discrete
