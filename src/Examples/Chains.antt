-- ===== src/Examples/Chains.antt =====
-- The chain specifications that the nodes load, and the tables of the standalone runtime at work.
use sygma_substrate_pallets.Prelude.{
  ◌≡◌, replicate, ◌*◌, ◌^◌, refl, true, false, some, [], ◌∷◌, map, code_bytes, ℕ_discrete,
}
use sygma_substrate_pallets.Frame.Dispatch.{ok, err, root}
use sygma_substrate_pallets.Frame.StorageMap.{get, insert}
use sygma_substrate_pallets.Traits.{Bytes-discrete, is_clear}
use sygma_substrate_pallets.Codec.Words.{from_be}
use sygma_substrate_pallets.Xcm.{
  AssetId-discrete, MultiLocation-discrete, concrete, fungible_asset, here,
}
use sygma_substrate_pallets.Bridge.Deposit.{get_token_reserved_account}
use sygma_substrate_pallets.Node.Genesis.{
  Keyring, seed_alice, dev_seeds, test_seeds, testnet_genesis, standalone_development_config,
  parachain_local_testnet_config, standalone_load_spec, parachain_load_spec,
}
use sygma_substrate_pallets.StandaloneRuntime.Registry.{
  bridge_accounts, usdc_location, decimal_pairs,
}
use sygma_substrate_pallets.ParachainRuntime.Decimals.{saturating_pow_ten}
use sygma_substrate_pallets.StandaloneRuntime.Decimals.{converter_to}
use sygma_substrate_pallets.StandaloneRuntime.Config.{
  Surroundings, sygma_bridge_config, standalone_chain,
}
use sygma_substrate_pallets.StandaloneRuntime.Assets.{foreign_asset_of}
use sygma_substrate_pallets.System.{administer, dispatch}
use sygma_substrate_pallets.System.Genesis.{genesis_state}
use sygma_substrate_pallets.Bridge.Admin.Call.{set_mpc, admin}
use sygma_substrate_pallets.Bridge.Admin.{set_mpc_address}
use sygma_substrate_pallets.AccessSegregator.{has_access}
use sygma_substrate_pallets.Examples.World.{Balances, bank, crypto, fixed, locations}

abbrev keyring : Keyring
keyring = record { account = from_be; aura = from_be; grandpa = from_be; xcm_version = 3 }

standalone_dev :
    standalone_load_spec keyring true (λ path. err []) (code_bytes "dev")
    ≡ standalone_development_config keyring true
unfolding standalone_load_spec Bytes-discrete ℕ_discrete code_bytes
standalone_dev = refl

standalone_without_code :
    standalone_load_spec keyring false (λ path. err []) (code_bytes "dev")
    ≡ err (code_bytes "Development wasm not available")
unfolding standalone_load_spec standalone_development_config Bytes-discrete ℕ_discrete code_bytes
standalone_without_code = refl

-- Only the parachain node knows this id; the other takes it for a file.
standalone_rococo :
    standalone_load_spec keyring true (λ path. err path) (code_bytes "template-rococo")
    ≡ err (code_bytes "template-rococo")
unfolding standalone_load_spec Bytes-discrete ℕ_discrete code_bytes
standalone_rococo = refl

parachain_rococo :
    parachain_load_spec keyring (λ path. err path) (code_bytes "template-rococo")
    ≡ ok (parachain_local_testnet_config keyring)
unfolding parachain_load_spec Bytes-discrete ℕ_discrete code_bytes
parachain_rococo = refl

local_balances :
    (parachain_local_testnet_config keyring).genesis.funds.balances
    ≡ map (λ k. (k, 2 ^ 60)) (map from_be test_seeds)
unfolding parachain_local_testnet_config
local_balances = refl

dev_funds :
    (testnet_genesis [] (from_be seed_alice) (map from_be dev_seeds)).funds.sudo_key
    ≡ from_be seed_alice
unfolding testnet_genesis
dev_funds = refl

abbrev surroundings : Surroundings Balances
surroundings = record {
  fixed = fixed;
  location_api = locations;
  crypto = crypto;
  is_root = λ o. true;
  asset_transactors = bank;
  native_account = 100;
  other_token_account = 101;
  pallet_account = 0 ∷ [];
}

native_account_of :
    get_token_reserved_account (sygma_bridge_config surroundings) (concrete here) ≡ some 100
unfolding sygma_bridge_config get_token_reserved_account bridge_accounts get insert AssetId-discrete
    MultiLocation-discrete Bytes-discrete ℕ_discrete code_bytes
native_account_of = refl

usdc_to_relayers :
    (sygma_bridge_config surroundings).decimal_converter.convert_to
      (fungible_asset (concrete usdc_location) 5)
    ≡ some (5 * 10 ^ 6)
unfolding sygma_bridge_config converter_to saturating_pow_ten decimal_pairs AssetId-discrete
    MultiLocation-discrete Bytes-discrete ℕ_discrete code_bytes
usdc_to_relayers = refl

usdc_is_foreign : foreign_asset_of (fungible_asset (concrete usdc_location) 30) ≡ some (2000, 30)
unfolding foreign_asset_of AssetId-discrete MultiLocation-discrete Bytes-discrete ℕ_discrete
    code_bytes
usdc_is_foreign = refl

-- The committee of the standalone runtime sets the MPC address at genesis.
standalone_setup :
    (dispatch
      (standalone_chain surroundings)
      root
      (administer (set_mpc (replicate 20 1)))
      (genesis_state (λ j w. 0))).0
    ≡ ok tt
unfolding dispatch admin set_mpc_address has_access is_clear Bytes-discrete ℕ_discrete
standalone_setup = refl
