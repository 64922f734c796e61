-- ===== src/Anchoring/Chain.antt =====
-- packages/api/src/lib/chain/types.ts: the chain as the worker calls it. Its state is of a type of the
-- adapter's own; a call that is refused or does not reach it is an error.
use trace_public.Common.{ℕ, Bool, Option, String}
use trace_public.Errors.{Result}
use trace_public.Anchoring.{Wallet}

-- `getPassportAnchor`.
pub record OnchainAnchor : Type 0 where
  pub registered : Bool
  pub data_hash : Option String
  pub owner : Option String

pub record ChainReceipt : Type 0 where
  pub reverted : Bool
  pub block_number : ℕ
  pub block_id : String

-- `SubmittedChainTransaction`, without its gas.
pub record Submitted : Type 0 where
  pub tx_id : String
  pub origin_address : String

-- The arguments of a call that registers a fingerprint or replaces it.
pub record AnchorInput : Type 0 where
  pub registry_address : String
  pub passport_id : ℕ
  pub data_hash : String

-- `ChainAdapter`, as far as the worker calls it.
pub record ChainAdapter (C : Type 0) : Type 0 where
  pub chain_id : C → Result String
  pub get_passport_anchor : String → ℕ → C → Result OnchainAnchor
  pub has_hub_role : String → String → C → Result Bool
  pub grant_hub_role : Wallet → String → String → C → C × Result Submitted
  pub register_passport : Wallet → AnchorInput → String → C → C × Result Submitted
  pub update_passport_hash : Wallet → AnchorInput → C → C × Result Submitted
  pub transfer_passport : Wallet → String → ℕ → String → C → C × Result Submitted
  pub wait_for_receipt : String → C → Option ChainReceipt
