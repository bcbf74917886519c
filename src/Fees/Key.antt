-- ===== src/Fees/Key.antt =====
-- The key of the fee maps: (domain, asset).
use sygma_substrate_pallets.Prelude.{ℕ_discrete}
use sygma_substrate_pallets.Traits.{DomainId}
use sygma_substrate_pallets.Xcm.{AssetId}

unfoldable pub FeeKey-discrete : Discrete (DomainId × AssetId)
FeeKey-discrete = hlevel ℕ_discrete
