-- ===== src/Anchoring/Ledger.antt =====
-- packages/api/src/lib/anchor-decision.ts, the rows of packages/api/src/lib/audit.ts that an anchor job
-- logs, and `syncAlreadyAnchored` of packages/api/src/workers/anchor-passport.worker.ts.
use text.Mathlib.Text.{◌==◌ as str_eq}
use trace_public.Common.{
  ℕ, Bool, true, false, not, ◌&&◌, Option, none, some, String, ◌==◌, ltb, is_some, ◌or_else◌,
  if◌then◌else◌, keep, sort_by, first?,
}
use trace_public.Errors.{Failure}
use trace_public.Store.{Passport}
use trace_public.Table.{Table, modify}
use trace_public.Quality.{Anchor}
use trace_public.Quality.Anchors.{CanonicalDocument}
use trace_public.Anchoring.{AnchoringDb, ChainTx, TxStatus, TxResource, TxAction, Wallet}
use trace_public.Anchoring.Chain.{OnchainAnchor, Submitted, ChainReceipt}
use trace_public.Anchoring.Wallets.{Vault}

pub data AnchorAction : Type 0 where
  register update skip : AnchorAction

-- `a?.toLowerCase() === b.toLowerCase()`.
abbrev pub is_same_text : (String → String) → Option String → String → Bool
is_same_text to_lower none b = false
is_same_text to_lower (some a) b = str_eq (to_lower a) (to_lower b)

unfoldable pub decide_anchor_action : (String → String) → OnchainAnchor → String → AnchorAction
decide_anchor_action to_lower onchain recomputed_hash =
    if not onchain.registered
    then AnchorAction.register
    else if is_same_text to_lower onchain.data_hash recomputed_hash
    then AnchorAction.skip
    else AnchorAction.update

-- The environment of the worker: what it takes from its settings and from the libraries that it calls.
pub record Setting : Type 0 where
  pub digest : CanonicalDocument → String
  pub to_lower : String → String
  pub vault : Vault
  pub registry_address : Option String
  pub deployer : Option Wallet
  pub api_passport_url : ℕ → String

-- What one run of the job brings: the time, a new wallet, and the ids of the rows that it may log.
pub record Run : Type 0 where
  pub now : ℕ
  pub made : Wallet
  pub anchor_log : ℕ
  pub other_log : ℕ

-- The database, the chain.
pub record WorkerState (C : Type 0) : Type 0 where
  pub db : AnchoringDb
  pub chain : C

-- `createBlockchainTransaction`.
abbrev pub new_tx : TxResource → TxAction → ℕ → String → Option String → Option String → ℕ → ChainTx
new_tx resource action organisation_id chain_id origin hash now = record {
  resource = resource;
  action = action;
  organisation_id = organisation_id;
  chain_id = chain_id;
  origin_address = origin;
  status = TxStatus.pending;
  tx_hash = none;
  certificate_hash = hash;
  block_number = none;
  block_id = none;
  failure_reason = none;
  submitted_at = none;
  confirmed_at = none;
  created_at = now;
  updated_at = now;
}

abbrev pub failed_tx : Failure → ℕ → ChainTx → ChainTx
failed_tx reason now tx = record tx {
  status = TxStatus.failed;
  failure_reason = some reason;
  updated_at = now;
}

abbrev pub submitted_tx : Submitted → ℕ → ChainTx → ChainTx
submitted_tx submitted now tx = record tx {
  status = TxStatus.submitted;
  tx_hash = some submitted.tx_id;
  origin_address = some submitted.origin_address;
  submitted_at = some now;
  updated_at = now;
}

abbrev pub succeeded_tx : ChainReceipt → ℕ → ChainTx → ChainTx
succeeded_tx receipt now tx = record tx {
  status = TxStatus.succeeded;
  block_number = some receipt.block_number;
  block_id = some receipt.block_id;
  confirmed_at = some now;
  updated_at = now;
}

abbrev pub write_txs : (Table ChainTx → Table ChainTx) → AnchoringDb → AnchoringDb
write_txs f db = record db { chain_txs = f db.chain_txs }

-- The columns of a fingerprint as a confirmed transaction leaves them.
abbrev pub write_anchored : ℕ → Anchor → String → ℕ → AnchoringDb → AnchoringDb
write_anchored id anchor chain_id now db = record db {
  quality = record db.quality {
    market = record db.quality.market {
      passports =
          modify id (λ (p : Passport). record p { chain_id = some chain_id; updated_at = now })
            db.quality.market.passports;
    };
    anchors = modify id (λ _. anchor) db.quality.anchors;
  };
}

abbrev is_succeeded : TxStatus → Bool
is_succeeded TxStatus.succeeded = true
is_succeeded _ = false

abbrev is_of_passport : ℕ → TxResource → Bool
is_of_passport id (TxResource.of_passport j) = j == id
is_of_passport id (TxResource.of_organisation j) = false

abbrev has_hash : String → Option String → Bool
has_hash data_hash none = false
has_hash data_hash (some hash) = str_eq hash data_hash

-- The order of a column of dates in Postgres, where a missing one is above all others.
abbrev is_dated_before : Option ℕ → Option ℕ → Bool
is_dated_before none b = false
is_dated_before (some a) none = true
is_dated_before (some a) (some b) = ltb a b

-- The transaction that anchored this fingerprint, the last confirmed one first.
unfoldable pub anchoring_tx : ℕ → String → Table ChainTx → Option (ℕ × ChainTx)
unfolding sort_by
anchoring_tx id data_hash chain_txs =
    first? (λ (row : ℕ × ChainTx). has_hash data_hash row.1.certificate_hash)
      (sort_by (λ (a b : ℕ × ChainTx). is_dated_before a.1.confirmed_at b.1.confirmed_at)
        (keep (λ (row : ℕ × ChainTx). is_of_passport id row.1.resource && is_succeeded row.1.status)
          chain_txs))

abbrev pub either : {A : Type 0} → Option A → Option A → Option A
either none other = other
either (some x) other = some x

abbrev pub tx_hash_of : Option (ℕ × ChainTx) → Option String
tx_hash_of none = none
tx_hash_of (some (id, tx)) = tx.tx_hash

abbrev pub confirmed_of : Option (ℕ × ChainTx) → Option ℕ
confirmed_of none = none
confirmed_of (some (id, tx)) = tx.confirmed_at

abbrev pub is_text : Option String → String → Bool
is_text none b = false
is_text (some a) b = str_eq a b

-- The columns say already that the fingerprint is on this chain.
abbrev pub is_synced : Anchor → Option String → String → String → Bool
is_synced anchor on_chain data_hash chain_id =
    is_some anchor.tx_hash && is_text anchor.passport_hash data_hash && is_text on_chain chain_id

unfoldable pub sync_already_anchored :
    ℕ → Passport → Anchor → String → String → ℕ → AnchoringDb → AnchoringDb
unfolding modify anchoring_tx
sync_already_anchored id passport anchor data_hash chain_id now db =
    let tx = anchoring_tx id data_hash db.chain_txs in
    let synced : Anchor = record {
      passport_hash = some data_hash;
      tx_hash = either (tx_hash_of tx) anchor.tx_hash;
      anchored_at = some (either (confirmed_of tx) anchor.anchored_at or_else now);
    } in
    if is_synced anchor passport.chain_id data_hash chain_id
    then db
    else write_anchored id synced chain_id now db
