-- ===== src/Bridge/Deposit/Accepted.antt =====
-- What an accepted deposit was given, and what it writes besides the ledger.
use sygma_substrate_pallets.Prelude.{
  ℕ, ◌+◌, ◌-◌, ◌^◌, ◌<◌, ◌≡◌, ◌∙◌, true, false, some, [], arith, ℕ_discrete, Option-cases, inl, inr,
}
use sygma_substrate_pallets.Frame.StorageMap.{get_or, insert}
use sygma_substrate_pallets.Frame.Dispatch.{Origin, signed, ok, ◌>>=◌, ◌>>◌}
use sygma_substrate_pallets.Frame.Inversion.{>>=-ok, transactional-ok}
use sygma_substrate_pallets.Traits.{
  DomainId, DepositNonce, ResourceId, AccountId, Bytes, TransferType, fungible_transfer,
}
use sygma_substrate_pallets.Xcm.{MultiAsset, MultiLocation, fungible_asset}
use sygma_substrate_pallets.Runtime.{
  State, BridgeConfig, RuntimeEvent, deposit_sent, fee_collected, add_event,
}
use sygma_substrate_pallets.Bridge.Admin.{mpc_set, domain_paused, domain_supported}
use sygma_substrate_pallets.Bridge.DepositData.{create_deposit_data}
use sygma_substrate_pallets.Bridge.Deposit.{
  extract_asset, quote, checked_deposit, move_funds, bump_deposit_nonce, checked_add_one, announce,
  record_deposit, transfer_out, deposit,
}

module _ {L : Type 0} (T : BridgeConfig L) where
  -- The state in which the funds have moved is `moved`.
  pub record Accepted (o : Origin) (asset : MultiAsset) (dest : MultiLocation) (s s' : State L)
      : Type 0 where
    pub sender : AccountId
    pub recipient : Bytes
    pub domain : DomainId
    pub resource : ResourceId
    pub amount : ℕ
    pub fee : ℕ
    pub converted : ℕ
    pub moved : State L
    pub signed_by : o ≡ signed sender
    pub dest_is : T.extract_dest dest ≡ some (recipient, domain)
    pub mpc_is_set : mpc_set s ≡ true
    pub not_paused : domain_paused domain s ≡ false
    pub supported : domain_supported domain s ≡ true
    pub asset_is : asset ≡ fungible_asset asset.id amount
    pub bound : extract_asset T asset ≡ some (resource, amount, fungible_transfer)
    pub fee_is : T.fee_handler.get_fee domain asset s ≡ some fee
    pub covers : fee < amount
    pub funds_moved : move_funds T sender asset amount fee s ≡ (ok tt, moved)
    pub nonce_fits : get_or ℕ_discrete 0 domain moved.deposit_counts + 1 < 2 ^ 64
    pub converts :
        T.decimal_converter.convert_to (fungible_asset asset.id (amount - fee)) ≡ some converted
    pub result_is :
        s'
        ≡ add_event
            (add_event
              (record moved {
                deposit_counts =
                    insert ℕ_discrete domain
                      (get_or ℕ_discrete 0 domain moved.deposit_counts + 1)
                      moved.deposit_counts;
              })
              (RuntimeEvent.bridge (
                deposit_sent domain resource
                  (get_or ℕ_discrete 0 domain moved.deposit_counts)
                  sender
                  fungible_transfer
                  (create_deposit_data converted recipient)
                  [])))
            (RuntimeEvent.bridge (fee_collected sender domain resource fee asset.id))

  checked_deposit_ok :
      (o : Origin) (dest : MultiLocation) (s t : State L) (sender : AccountId) (recipient : Bytes)
      (d : DomainId)
      → checked_deposit T o dest s ≡ (ok (sender, recipient, d), t)
      → (t ≡ s)
        × (o ≡ signed sender)
        × (T.extract_dest dest ≡ some (recipient, d))
        × (mpc_set s ≡ true)
        × (domain_paused d s ≡ false)
        × (domain_supported d s ≡ true)
  unfolding checked_deposit
  checked_deposit_ok o dest s t sender recipient d h = ground arith

  extract_asset_fungible :
      (asset : MultiAsset) {rid : ResourceId} {amount : ℕ} {kind : TransferType}
      → extract_asset T asset ≡ some (rid, amount, kind)
      → (asset ≡ fungible_asset asset.id amount) × (kind ≡ fungible_transfer)
  unfolding extract_asset
  extract_asset_fungible asset h = ground arith

  quote_ok :
      (asset : MultiAsset) (d : DomainId) (s t : State L) (rid : ResourceId) (amount : ℕ)
      (kind : TransferType) (fee : ℕ)
      → quote T asset d s ≡ (ok (rid, amount, kind, fee), t)
      → (t ≡ s)
        × (extract_asset T asset ≡ some (rid, amount, kind))
        × (T.fee_handler.get_fee d asset s ≡ some fee)
        × (fee < amount)
  unfolding quote
  quote_ok asset d s t rid amount kind fee h = ground arith

  bump_ok :
      (d : DomainId) (s t : State L) (n : DepositNonce)
      → bump_deposit_nonce T d s ≡ (ok n, t)
      → (n ≡ get_or ℕ_discrete 0 d s.deposit_counts)
        × (n + 1 < 2 ^ 64)
        × (t ≡ record s { deposit_counts = insert ℕ_discrete d (n + 1) s.deposit_counts })
  unfolding bump_deposit_nonce checked_add_one
  bump_ok d s t n h = ground arith

  announce_ok :
      (sender : AccountId) (asset : MultiAsset) (recipient : Bytes) (d : DomainId)
      (rid : ResourceId) (amount : ℕ) (kind : TransferType) (fee : ℕ) (n : DepositNonce)
      (s t : State L)
      → announce T sender asset.id recipient d (rid, amount, kind, fee) n s ≡ (ok tt, t)
      → (converted : ℕ) × (T.decimal_converter.convert_to (fungible_asset asset.id (amount - fee))
          ≡ some converted)
        × (t
            ≡ add_event
                (add_event s (
                  RuntimeEvent.bridge (
                    deposit_sent d rid n sender kind (create_deposit_data converted recipient) [])))
                (RuntimeEvent.bridge (fee_collected sender d rid fee asset.id)))
  unfolding announce
  announce_ok sender asset recipient d rid amount kind fee n s t h =
      elim (Option-cases
        (T.decimal_converter.convert_to (fungible_asset asset.id (amount - fee)))) [
          | inl e ↦ ground (arith, h)
          | inr (c, e) ↦ (c, e, ground (arith, h))
        ]

  -- The state after the funds have moved, and the result, of a recorded deposit.
  recorded : ℕ → AccountId → MultiAsset → Bytes → DomainId → ResourceId → ℕ → ℕ → State L → State L
  recorded converted sender asset recipient d rid amount fee s =
      let n = get_or ℕ_discrete 0 d s.deposit_counts in
      add_event
        (add_event (record s { deposit_counts = insert ℕ_discrete d (n + 1) s.deposit_counts })
          (RuntimeEvent.bridge (
            deposit_sent d rid n sender fungible_transfer (create_deposit_data converted recipient)
              [])))
        (RuntimeEvent.bridge (fee_collected sender d rid fee asset.id))

  record_deposit_ok :
      (sender : AccountId) (asset : MultiAsset) (recipient : Bytes) (d : DomainId)
      (rid : ResourceId) (amount fee : ℕ) (s t : State L)
      → record_deposit T sender asset.id recipient d (rid, amount, fungible_transfer, fee) s
        ≡ (ok tt, t)
      → (converted : ℕ) × (T.decimal_converter.convert_to (fungible_asset asset.id (amount - fee))
          ≡ some converted)
        × (get_or ℕ_discrete 0 d s.deposit_counts + 1 < 2 ^ 64)
        × (t ≡ recorded converted sender asset recipient d rid amount fee s)
  unfolding record_deposit recorded
  record_deposit_ok sender asset recipient d rid amount fee s t h =
      let (n, s1, e1, k1) =
        >>=-ok (bump_deposit_nonce T d)
          (announce T sender asset.id recipient d (rid, amount, fungible_transfer, fee)) s h in
      let (n_is, fits, s1_is) = bump_ok d s s1 n e1 in
      let (c, converts, t_is) =
        announce_ok sender asset recipient d rid amount fungible_transfer fee n s1 t k1 in
      (c, converts, rw (← n_is) fits, ground (arith, n_is, s1_is, t_is))

  accept :
      (o : Origin) (asset : MultiAsset) (dest : MultiLocation) (s s' : State L)
      (target : AccountId × Bytes × DomainId) (s1 : State L)
      (quoted : ResourceId × ℕ × TransferType × ℕ) (s2 s3 : State L)
      → checked_deposit T o dest s ≡ (ok target, s1)
      → quote T asset target.2 s1 ≡ (ok quoted, s2)
      → move_funds T target.0 asset quoted.1 quoted.3 s2 ≡ (ok tt, s3)
      → record_deposit T target.0 asset.id target.1 target.2 quoted s3 ≡ (ok tt, s')
      → Accepted o asset dest s s'
  unfolding recorded
  accept o asset dest s s' (sender, recipient, d) s1 (rid, amount, kind, fee) s2 s3 checked priced
        moved_ok recorded_ok =
      let (s1_is, signed_by, dest_is, mpc, unpaused, supported) =
        checked_deposit_ok o dest s s1 sender recipient d checked in
      let (s2_is, bound, fee_is, covers) = quote_ok asset d s1 s2 rid amount kind fee priced in
      let (asset_is, kind_is) = extract_asset_fungible asset bound in
      let (c, converts, fits, result) =
        record_deposit_ok sender asset recipient d rid amount fee s3 s'
          (rw kind_is at recorded_ok) in
      record {
        sender = sender;
        recipient = recipient;
        domain = d;
        resource = rid;
        amount = amount;
        fee = fee;
        converted = c;
        moved = s3;
        signed_by = signed_by;
        dest_is = dest_is;
        mpc_is_set = mpc;
        not_paused = unpaused;
        supported = supported;
        asset_is = asset_is;
        bound = rw kind_is at bound;
        fee_is = rw s1_is at fee_is;
        covers = covers;
        funds_moved = rw (s2_is ∙ s1_is) at moved_ok;
        nonce_fits = fits;
        converts = converts;
        result_is = result;
      }

  -- A deposit that succeeds was signed, to a destination that names a recipient and a domain, which
  -- is registered and not paused, while the MPC address was set; the asset was a fungible amount of
  -- an asset bound to a resource, and the fee of the handler was below that amount. It moved the
  -- funds, and afterwards it took the nonce of the domain, whose count is one more then and still
  -- fits 64 bits, and announced the deposit, with the data made of the converted rest and the
  -- recipient, and the fee. Besides what the transactor wrote, nothing else changed.
  pub deposit-Accepted :
      (o : Origin) (asset : MultiAsset) (dest : MultiLocation) (s s' : State L)
      → deposit T o asset dest s ≡ (ok tt, s')
      → Accepted o asset dest s s'
  unfolding deposit transfer_out
  deposit-Accepted o asset dest s s' h =
      let rest = λ (target : AccountId × Bytes × DomainId).
        transfer_out T target.0 asset target.1 target.2 in
      let (target, s1, e1, k1) =
        >>=-ok (checked_deposit T o dest) rest s
          (transactional-ok (checked_deposit T o dest >>= rest) s h) in
      let (quoted, s2, e2, k2) =
        >>=-ok (quote T asset target.2)
          (λ q.
            move_funds T target.0 asset q.1 q.3
            >> record_deposit T target.0 asset.id target.1 target.2 q)
          s1 k1 in
      let (_, s3, e3, k3) =
        >>=-ok (move_funds T target.0 asset quoted.1 quoted.3)
          (λ _. record_deposit T target.0 asset.id target.1 target.2 quoted) s2 k2 in
      accept o asset dest s s' target s1 quoted s2 s3 e1 e2 e3 k3
