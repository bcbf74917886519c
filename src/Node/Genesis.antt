-- ===== src/Node/Genesis.antt =====
-- substrate-node/*/node/src/chain_spec.rs, and `load_spec` of the two command.rs: the genesis
-- configurations of the two nodes. The keys of a seed and the reader of a JSON file are parameters;
-- the code of the runtime, which a build makes, is there or not; without it the parachain node panics.
use sygma_substrate_pallets.Prelude.{
  ℕ, ◌*◌, ◌^◌, Bool, true, false, ◌||◌, is, List, [], ◌∷◌, map, code_bytes, if◌then◌else◌,
}
use sygma_substrate_pallets.Frame.Dispatch.{Result, ok, err}
use sygma_substrate_pallets.Traits.{AccountId, Bytes, Bytes-discrete}

-- The account and the session keys that are derived from a seed, and `XCM_VERSION` of the xcm crate
pub record Keyring : Type 0 where
  pub account : Bytes → AccountId
  pub aura : Bytes → ℕ
  pub grandpa : Bytes → ℕ
  pub xcm_version : ℕ

-- What both nodes configure: the funded accounts, the administrator and the parachain id
pub record Funds : Type 0 where
  pub balances : List (AccountId × ℕ)
  pub sudo_key : AccountId
  pub parachain_id : ℕ

-- `RuntimeGenesisConfig` of the standalone node, without the defaults
pub record StandaloneGenesis : Type 0 where
  pub funds : Funds
  pub aura_authorities : List ℕ
  pub grandpa_authorities : List (ℕ × ℕ)

-- `RuntimeGenesisConfig` of the parachain node, without the defaults
pub record ParachainGenesis : Type 0 where
  pub funds : Funds
  pub invulnerables : List AccountId
  pub candidacy_bond : ℕ
  pub session_keys : List (AccountId × AccountId × ℕ)
  pub safe_xcm_version : ℕ

pub data ChainType : Type 0 where
  development local : ChainType

pub record ChainSpec (G : Type 0) : Type 0 where
  pub id : Bytes
  pub chain_type : ChainType
  pub genesis : G

abbrev endow : List AccountId → List (AccountId × ℕ)
endow accounts = map (λ k. (k, 2 ^ 60)) accounts

unfoldable pub testnet_genesis : List (ℕ × ℕ) → AccountId → List AccountId → StandaloneGenesis
testnet_genesis initial_authorities root_key endowed_accounts = record {
  funds = record { balances = endow endowed_accounts; sudo_key = root_key; parachain_id = 1000 };
  aura_authorities = map (λ x. x.0) initial_authorities;
  grandpa_authorities = map (λ x. (x.1, 1)) initial_authorities;
}

abbrev existential_deposit : ℕ
existential_deposit = 1_000_000_000

unfoldable pub parachain_testnet_genesis :
    ℕ → List (AccountId × ℕ) → List AccountId → AccountId → ℕ → ParachainGenesis
parachain_testnet_genesis xcm_version invulnerables endowed_accounts root id = record {
  funds = record { balances = endow endowed_accounts; sudo_key = root; parachain_id = id };
  invulnerables = map (λ x. x.0) invulnerables;
  candidacy_bond = existential_deposit * 16;
  session_keys = map (λ x. (x.0, x.0, x.1)) invulnerables;
  safe_xcm_version = xcm_version;
}

abbrev pub seed_alice : Bytes
seed_alice = code_bytes "Alice"

abbrev seed_bob : Bytes
seed_bob = code_bytes "Bob"

abbrev pub dev_seeds : List Bytes
dev_seeds = seed_alice ∷ seed_bob ∷ code_bytes "Alice//stash" ∷ code_bytes "Bob//stash" ∷ []

abbrev other_test_seeds : List Bytes
other_test_seeds =
    seed_bob
    ∷ code_bytes "Charlie"
    ∷ code_bytes "Dave"
    ∷ code_bytes "Eve"
    ∷ code_bytes "Ferdie"
    ∷ code_bytes "Alice//stash"
    ∷ code_bytes "Bob//stash"
    ∷ code_bytes "Charlie//stash"
    ∷ code_bytes "Dave//stash"
    ∷ code_bytes "Eve//stash"
    ∷ code_bytes "Ferdie//stash"
    ∷ []

abbrev pub test_seeds : List Bytes
test_seeds = seed_alice ∷ other_test_seeds

abbrev named : Bytes → Bytes → Bool
named id name = is (Bytes-discrete id name)

module _ (K : Keyring) where
  abbrev authority_keys_from_seed : Bytes → ℕ × ℕ
  authority_keys_from_seed s = (K.aura s, K.grandpa s)

  abbrev collator : Bytes → AccountId × ℕ
  collator s = (K.account s, K.aura s)

  -- `WASM_BINARY.ok_or_else(..)?`
  abbrev with_code : {G : Type 0} → Bool → ChainSpec G → Result Bytes (ChainSpec G)
  with_code true spec = ok spec
  with_code false spec = err (code_bytes "Development wasm not available")

  unfoldable pub standalone_development_config : Bool → Result Bytes (ChainSpec StandaloneGenesis)
  unfolding testnet_genesis
  standalone_development_config has_wasm = with_code has_wasm (record {
    id = code_bytes "dev";
    chain_type = development;
    genesis =
        testnet_genesis (authority_keys_from_seed seed_alice ∷ []) (K.account seed_alice)
          (map K.account dev_seeds);
  })

  unfoldable pub standalone_local_testnet_config : Bool → Result Bytes (ChainSpec StandaloneGenesis)
  unfolding testnet_genesis
  standalone_local_testnet_config has_wasm = with_code has_wasm (record {
    id = code_bytes "local_testnet";
    chain_type = local;
    genesis =
        testnet_genesis
          (authority_keys_from_seed seed_alice ∷ authority_keys_from_seed seed_bob ∷ [])
          (K.account seed_alice) (map K.account test_seeds);
  })

  abbrev parachain_genesis : ParachainGenesis
  parachain_genesis =
      parachain_testnet_genesis K.xcm_version (collator seed_alice ∷ collator seed_bob ∷ [])
        (map K.account test_seeds) (K.account seed_alice) 1000

  unfoldable pub parachain_development_config : ChainSpec ParachainGenesis
  unfolding parachain_testnet_genesis
  parachain_development_config = record {
    id = code_bytes "dev";
    chain_type = development;
    genesis = parachain_genesis;
  }

  unfoldable pub parachain_local_testnet_config : ChainSpec ParachainGenesis
  unfolding parachain_testnet_genesis
  parachain_local_testnet_config = record {
    id = code_bytes "local_testnet";
    chain_type = local;
    genesis = parachain_genesis;
  }

  -- `load_spec` of the standalone node
  unfoldable pub standalone_load_spec :
      Bool
      → (Bytes → Result Bytes (ChainSpec StandaloneGenesis))
      → Bytes
      → Result Bytes (ChainSpec StandaloneGenesis)
  unfolding standalone_development_config standalone_local_testnet_config
  standalone_load_spec has_wasm from_json_file id =
      if named id (code_bytes "dev")
      then standalone_development_config has_wasm
      else if named id [] || named id (code_bytes "local")
      then standalone_local_testnet_config has_wasm
      else from_json_file id

  -- `load_spec` of the parachain node
  unfoldable pub parachain_load_spec :
      (Bytes → Result Bytes (ChainSpec ParachainGenesis))
      → Bytes
      → Result Bytes (ChainSpec ParachainGenesis)
  unfolding parachain_development_config parachain_local_testnet_config
  parachain_load_spec from_json_file id =
      if named id (code_bytes "dev")
      then ok parachain_development_config
      else if named id (code_bytes "template-rococo")
      then ok parachain_local_testnet_config
      else if named id [] || named id (code_bytes "local")
      then ok parachain_local_testnet_config
      else from_json_file id
