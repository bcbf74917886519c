-- ===== src/Examples/Fees.antt =====
-- Fees that the root sets, and what is charged then.
use sygma_substrate_pallets.Prelude.{ℕ, ◌≡◌, ◌≤◌, ◌<◌, refl, some, is, if◌then◌else◌, arith}
use sygma_substrate_pallets.Frame.Dispatch.{root}
use sygma_substrate_pallets.Xcm.{fungible_asset}
use sygma_substrate_pallets.Runtime.{basic_fee_handler}
use sygma_substrate_pallets.AccessSegregator.{has_access}
use sygma_substrate_pallets.Fees.Key.{FeeKey-discrete}
use sygma_substrate_pallets.Fees.Basic
use sygma_substrate_pallets.Fees.Basic.{set_fee}
use sygma_substrate_pallets.Fees.Percentage
use sygma_substrate_pallets.Fees.Percentage.{set_fee_rate}
use sygma_substrate_pallets.Fees.Router
use sygma_substrate_pallets.Fees.Router.{set_fee_handler}
use sygma_substrate_pallets.Fees.Charged.{set_fee_rate-get_fee, set_fee_handler-get_fee}
use sygma_substrate_pallets.Examples.World.{access, start, token}

set_fee_rate-get_fee_example :
    (fee : ℕ) × (Percentage.get_fee 1
        (fungible_asset token 5000)
        (set_fee_rate access 13 root 1 token 500 10 200 start).1
      ≡ some fee)
    × (10 ≤ fee)
    × (fee ≤ 200)
    × (fee < 5000)
unfolding set_fee_rate has_access
set_fee_rate-get_fee_example =
    set_fee_rate-get_fee access 13 start root 1 token 500 10 200 5000 (omega arith) refl

set_fee_handler-get_fee_example :
    Router.get_fee 1
      (fungible_asset token 30)
      (set_fee_handler access 12 root 1 token basic_fee_handler start).1
    ≡ (if is (FeeKey-discrete (1, token) (1, token))
        then Basic.get_fee 1 (fungible_asset token 30) start
        else Router.get_fee 1 (fungible_asset token 30) start)
unfolding has_access
set_fee_handler-get_fee_example =
    set_fee_handler-get_fee access 12 start root 1 token basic_fee_handler 1
      (fungible_asset token 30) refl
