-- ===== src/Anchoring.antt =====
-- packages/api/src/workers/anchor-passport.worker.ts and what it uses of packages/api/src/lib: the worker
-- that writes fingerprints to a chain, and the sweep that queues what is not there yet.
pub mod Work
pub mod Ends
pub mod Wallets
pub mod Claims
pub mod Chain
pub mod Registry
pub mod Node
pub mod Taken
pub mod Index
pub mod Registered
pub mod Decided
pub mod Ledger
pub mod Jobs
pub mod Confirms
pub mod Sends
pub mod Current
pub mod Submits
pub mod Settles
pub mod Sweep
pub mod Marked
pub mod Pending
pub mod Covers
pub mod Certificate
pub mod Certified
pub mod Late
pub mod Drafts
pub mod Unsealed
use trace_public.Common.{ℕ, Option, String}
use trace_public.Errors.{Failure}
use trace_public.Table.{Table}
use trace_public.Quality.{QualityDb}

-- `blockchain_transactions.status`.
pub data TxStatus : Type 0 where
  pending submitted succeeded failed : TxStatus

-- `resource_type` and `resource_id`.
pub data TxResource : Type 0 where
  of_passport of_organisation : (id : ℕ) → TxResource

-- `action`.
pub data TxAction : Type 0 where
  anchor reanchor transfer_owner grant_role : TxAction

-- `blockchain_transactions`, without what the gas cost and who paid for it; `certificate_hash` is in the
-- metadata.
pub record ChainTx : Type 0 where
  pub resource : TxResource
  pub action : TxAction
  pub organisation_id : ℕ
  pub chain_id : String
  pub origin_address : Option String
  pub status : TxStatus
  pub tx_hash : Option String
  pub certificate_hash : Option String
  pub block_number : Option ℕ
  pub block_id : Option String
  pub failure_reason : Option Failure
  pub submitted_at : Option ℕ
  pub confirmed_at : Option ℕ
  pub created_at : ℕ
  pub updated_at : ℕ

-- `organisations.blockchain_address` and `organisations.blockchain_private_key_enc`.
pub record OrganisationKeys : Type 0 where
  pub blockchain_address : Option String
  pub private_key_enc : Option String

-- The tables that the worker reads and writes.
pub record AnchoringDb : Type 0 where
  pub quality : QualityDb
  pub keys : Table OrganisationKeys
  pub chain_txs : Table ChainTx

-- `CustodialWallet`, and `ChainSigner` of packages/api/src/lib/chain/types.ts.
pub record Wallet : Type 0 where
  pub address : String
  pub private_key : String
