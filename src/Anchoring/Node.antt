-- ===== src/Anchoring/Node.antt =====
-- A node of the chain that runs the registry: what packages/api/src/lib/chain/types.ts says of a
-- `ChainAdapter`, for packages/contracts/contracts/MaterialRegistry.sol at one address.
use trace_public.Common.{
  ℕ, true, false, Option, none, some, String, ◌≡◌, ◌⊎◌, sym, ◌∙◌, subst, some-injective,
}
use trace_public.Errors.{Result, ok, err, Failure}
use trace_public.Anchoring.{Wallet}
use trace_public.Anchoring.Chain.{ChainAdapter, OnchainAnchor, Submitted, ChainReceipt}
use trace_public.Anchoring.Registry.{
  PassportRecord, Registry, grant_hub_role, register_passport, update_passport_hash,
  transfer_passport,
}

module _ {C : Type 0} (adapter : ChainAdapter C) (view : C → Registry) where
  -- A submission that the chain takes and confirms in time, and of whose registry `Q` then holds.
  abbrev pub IsConfirmed : (Registry → Type 0) → C × Result Submitted → Type 0
  IsConfirmed Q outcome =
      (c : C) × (tx : Submitted) × (receipt : ChainReceipt) × (outcome ≡ (c, ok tx))
      × (adapter.wait_for_receipt tx.tx_id c ≡ some receipt)
      × (receipt.reverted ≡ false)
      × Q (view c)

  -- A call that the contract takes is confirmed and has its effect; one that reverts is refused at once
  -- or has a receipt that says so, and has none.
  abbrev pub Executes : Registry → Option Registry → C × Result Submitted → Type 0
  Executes before none outcome =
      (c : C) × (view c ≡ before)
      × (((e : Failure) × (outcome ≡ (c, err e)))
          ⊎ ((tx : Submitted) × (receipt : ChainReceipt) × (outcome ≡ (c, ok tx))
              × (adapter.wait_for_receipt tx.tx_id c ≡ some receipt)
              × (receipt.reverted ≡ true)))
  Executes before (some after) outcome = IsConfirmed (λ r. r ≡ after) outcome

  pub Executes-some :
      (Q : Registry → Type 0) (before after : Registry) (taken : Option Registry)
      (outcome : C × Result Submitted)
      → taken ≡ some after
      → Q after
      → Executes before taken outcome
      → IsConfirmed Q outcome
  Executes-some Q before after none outcome e q x = cc
  Executes-some Q before after (some r) outcome e q (c, tx, receipt, out, mined, fine, seen) =
      (c, tx, receipt, out, mined, fine, subst Q (sym (seen ∙ some-injective e)) q)

-- What `getPassportAnchor` answers for a record of the registry.
abbrev pub Shows : (String → String) → Option PassportRecord → OnchainAnchor → Type 0
Shows to_lower none anchor = anchor.registered ≡ false
Shows to_lower (some rec) anchor =
    (anchor.registered ≡ true)
    × ((hash : String) × (anchor.data_hash ≡ some hash) × (to_lower hash ≡ rec.data_hash))
    × ((owner : String) × (anchor.owner ≡ some owner) × (to_lower owner ≡ rec.owner))

-- The node answers, and reads and runs the registry at this address; nobody else calls the registry
-- while a job runs. A call is sent by the address of the wallet that signs it.
pub record RunsRegistry {C : Type 0} (adapter : ChainAdapter C) (to_lower : String → String)
    (address : String) : Type 0 where
  pub view : C → Registry
  pub chain_read : (c : C) → (name : String) × (adapter.chain_id c ≡ ok name)
  pub anchor_read :
      (id : ℕ) (c : C)
      → (anchor : OnchainAnchor) × (adapter.get_passport_anchor address id c ≡ ok anchor)
        × Shows to_lower ((view c).records id) anchor
  pub role_read :
      (hub : String) (c : C)
      → adapter.has_hub_role address hub c ≡ ok ((view c).has_hub_role (to_lower hub))
  pub grants :
      (signer : Wallet) (hub : String) (c : C)
      → Executes adapter view
          (view c)
          (grant_hub_role (to_lower signer.address) (to_lower hub) (view c))
          (adapter.grant_hub_role signer address hub c)
  pub registers :
      (signer : Wallet) (id : ℕ) (hash uri : String) (c : C)
      → Executes adapter view
          (view c)
          (register_passport (to_lower signer.address) id (to_lower hash) (view c))
          (adapter.register_passport signer
            (record { registry_address = address; passport_id = id; data_hash = hash })
            uri
            c)
  pub updates :
      (signer : Wallet) (id : ℕ) (hash : String) (c : C)
      → Executes adapter view
          (view c)
          (update_passport_hash (to_lower signer.address) id (to_lower hash) (view c))
          (adapter.update_passport_hash signer
            (record { registry_address = address; passport_id = id; data_hash = hash })
            c)
  pub transfers :
      (signer : Wallet) (id : ℕ) (new_owner : String) (c : C)
      → Executes adapter view
          (view c)
          (transfer_passport (to_lower signer.address) id (to_lower new_owner) (view c))
          (adapter.transfer_passport signer address id new_owner c)
