-- ===== src/Anchoring/Jobs.antt =====
-- packages/api/src/workers/anchor-passport.worker.ts, from `ensureHubRole` to `processAnchorJob`.
-- The audit record and the log of the process are left out.
use text.Mathlib.Text.{◌==◌ as str_eq}
use trace_public.Common.{ℕ, Bool, true, false, not, Option, none, some, String, ◌or_else◌}
use trace_public.Errors.{Result, ok, Failure}
use trace_public.Store.{Passport}
use trace_public.Table.{Table, find, insert, modify}
use trace_public.Quality.{Anchor}
use trace_public.Quality.Anchors.{compute_passport_hash}
use trace_public.Anchoring.{
  AnchoringDb, ChainTx, TxStatus, TxResource, TxAction, Wallet, OrganisationKeys,
}
use trace_public.Anchoring.Chain.{ChainAdapter, OnchainAnchor, Submitted, ChainReceipt, AnchorInput}
use trace_public.Anchoring.Ledger.{
  Setting, Run, WorkerState, AnchorAction, decide_anchor_action, new_tx, failed_tx, submitted_tx,
  succeeded_tx, write_txs, write_anchored, sync_already_anchored,
}
use trace_public.Anchoring.Wallets.{ensure_organisation_wallet}
use trace_public.Anchoring.Work.{Work, ◌>>=◌, ◌>>◌, done, throw, catching, writes}

module _ {C : Type 0} (adapter : ChainAdapter C) (setting : Setting) (run : Run) where
  -- A call of the chain that reads it, one that sends it something, and a write to the database.
  unfoldable pub reads : {A : Type 0} → (C → Result A) → Work (WorkerState C) A
  reads f = λ s. (s, f s.chain)

  abbrev pub sent : WorkerState C → C × Result Submitted → WorkerState C × Result Submitted
  sent s (c, outcome) = (record s { chain = c }, outcome)

  unfoldable pub sends : (C → C × Result Submitted) → Work (WorkerState C) Submitted
  sends f = λ s. sent s (f s.chain)

  unfoldable pub logs : (AnchoringDb → AnchoringDb) → Work (WorkerState C) (Unit {0})
  logs f = writes (λ (s : WorkerState C). record s { db = f s.db })

  -- `!receipt || receipt.reverted` throws.
  unfoldable pub confirmed : Option ChainReceipt → Work (WorkerState C) ChainReceipt
  confirmed none = throw
  confirmed (some receipt) = elim receipt.reverted [ true ↦ throw | false ↦ done receipt ]

  unfoldable pub wait_confirmed : String → Work (WorkerState C) ChainReceipt
  wait_confirmed tx_id = λ s. confirmed (adapter.wait_for_receipt tx_id s.chain) s

  unfoldable pub need : {A : Type 0} → Option A → Work (WorkerState C) A
  need none = throw
  need (some x) = done x

  abbrev pub fail_log : ℕ → Failure → WorkerState C → WorkerState C
  fail_log log reason s = record s { db = write_txs (modify log (failed_tx reason run.now)) s.db }

  unfoldable pub grant_role : String → String → ℕ → Wallet → Work (WorkerState C) (Unit {0})
  unfolding insert modify wait_confirmed
  grant_role registry hub_address organisation_id deployer = do
    chain_id ← reads adapter.chain_id
    let log =
        new_tx (TxResource.of_organisation organisation_id) TxAction.grant_role organisation_id
          chain_id (some deployer.address) none run.now
    logs (write_txs (insert run.other_log log))
    catching (fail_log run.other_log) (do
      submitted ← sends (adapter.grant_hub_role deployer registry hub_address)
      logs (
          write_txs (
            modify run.other_log (λ (tx : ChainTx). record tx {
              status = TxStatus.submitted;
              tx_hash = some submitted.tx_id;
              submitted_at = some run.now;
              updated_at = run.now;
            })))
      receipt ← wait_confirmed submitted.tx_id
      logs (write_txs (modify run.other_log (succeeded_tx receipt run.now))))

  unfoldable pub ensure_hub_role : String → String → ℕ → Work (WorkerState C) (Unit {0})
  unfolding grant_role
  ensure_hub_role registry hub_address organisation_id = do
    has_role ← reads (adapter.has_hub_role registry hub_address)
    elim has_role [
      | true ↦ done tt
      | false ↦ need setting.deployer >>= grant_role registry hub_address organisation_id
    ]

  unfoldable pub transfer_back :
      String → ℕ → ℕ → String → String → Wallet → Work (WorkerState C) (Unit {0})
  unfolding insert modify wait_confirmed
  transfer_back registry id organisation_id to_owner chain_id deployer = do
    let log =
        new_tx (TxResource.of_passport id) TxAction.transfer_owner organisation_id chain_id
          (some deployer.address) none run.now
    logs (write_txs (insert run.other_log log))
    catching (fail_log run.other_log) (do
      submitted ← sends (adapter.transfer_passport deployer registry id to_owner)
      receipt ← wait_confirmed submitted.tx_id
      logs (
          write_txs (
            modify run.other_log (λ (tx : ChainTx). record (succeeded_tx receipt run.now tx) {
              tx_hash = some submitted.tx_id;
              submitted_at = some run.now;
            }))))

  unfoldable pub repair_passport_ownership :
      String → ℕ → ℕ → String → String → Work (WorkerState C) (Unit {0})
  unfolding transfer_back
  repair_passport_ownership registry id organisation_id to_owner chain_id = do
    deployer ← need setting.deployer
    transfer_back registry id organisation_id to_owner chain_id deployer

  -- `ensureOrganisationWallet`, on the worker's state.
  abbrev pub keep_keys :
      WorkerState C → Table OrganisationKeys × Result Wallet → WorkerState C × Result Wallet
  keep_keys s (keys, wallet) = (record s { db = record s.db { keys = keys } }, wallet)

  unfoldable pub organisation_wallet : ℕ → Work (WorkerState C) Wallet
  unfolding ensure_organisation_wallet
  organisation_wallet organisation_id =
      λ s. keep_keys s (ensure_organisation_wallet setting.vault run.made organisation_id s.db.keys)

  abbrev pub needs_repair : Option String → String → Bool
  needs_repair none address = false
  needs_repair (some owner) address =
      not (str_eq (setting.to_lower owner) (setting.to_lower address))

  -- The transaction of either action.
  unfoldable pub submit :
      AnchorAction
      → Passport
      → AnchorInput
      → OnchainAnchor
      → String
      → Wallet
      → Work (WorkerState C) Submitted
  unfolding ensure_hub_role repair_passport_ownership
  submit AnchorAction.register passport input onchain chain_id wallet = do
    ensure_hub_role input.registry_address wallet.address passport.organisation_id
    sends (
        adapter.register_passport wallet input
          (passport.digital_link_uri or_else setting.api_passport_url input.passport_id))
  submit _ passport input onchain chain_id wallet = do
    elim (needs_repair onchain.owner wallet.address) [
      | true ↦
          repair_passport_ownership input.registry_address input.passport_id
            passport.organisation_id wallet.address chain_id
      | false ↦ done tt
    ]
    sends (adapter.update_passport_hash wallet input)

  abbrev pub anchored_by : Submitted → String → Anchor
  anchored_by submitted data_hash = record {
    passport_hash = some data_hash;
    tx_hash = some submitted.tx_id;
    anchored_at = some run.now;
  }

  -- The body of the `try`.
  unfoldable pub attempt :
      AnchorAction
      → Passport
      → AnchorInput
      → OnchainAnchor
      → String
      → Work (WorkerState C) (Unit {0})
  unfolding organisation_wallet submit wait_confirmed modify
  attempt action passport input onchain chain_id = do
    wallet ← organisation_wallet passport.organisation_id
    submitted ← submit action passport input onchain chain_id wallet
    logs (write_txs (modify run.anchor_log (submitted_tx submitted run.now)))
    receipt ← wait_confirmed submitted.tx_id
    logs (write_anchored input.passport_id (anchored_by submitted input.data_hash) chain_id run.now)
    logs (write_txs (modify run.anchor_log (succeeded_tx receipt run.now)))

  abbrev pub action_name : AnchorAction → TxAction
  action_name AnchorAction.register = TxAction.anchor
  action_name _ = TxAction.reanchor

  unfoldable pub anchor_passport :
      AnchorAction
      → Passport
      → AnchorInput
      → OnchainAnchor
      → String
      → Work (WorkerState C) (Unit {0})
  unfolding insert attempt
  anchor_passport action passport input onchain chain_id = do
    let log =
        new_tx (TxResource.of_passport input.passport_id) (action_name action)
          passport.organisation_id chain_id none (some input.data_hash) run.now
    logs (write_txs (insert run.anchor_log log))
    catching (fail_log run.anchor_log) (attempt action passport input onchain chain_id)

  abbrev pub anchor_columns : Option Anchor → Anchor
  anchor_columns none = record { passport_hash = none; tx_hash = none; anchored_at = none }
  anchor_columns (some anchor) = anchor

  unfoldable pub act :
      AnchorAction
      → Passport
      → AnchorInput
      → OnchainAnchor
      → String
      → Work (WorkerState C) (Unit {0})
  unfolding find anchor_passport sync_already_anchored
  act AnchorAction.skip passport input onchain chain_id = λ s.
      logs
        (sync_already_anchored input.passport_id passport
          (anchor_columns (find input.passport_id s.db.quality.anchors)) input.data_hash chain_id
          run.now)
        s
  act AnchorAction.register passport input onchain chain_id =
      anchor_passport AnchorAction.register passport input onchain chain_id
  act AnchorAction.update passport input onchain chain_id =
      anchor_passport AnchorAction.update passport input onchain chain_id

  abbrev pub anchor_input : String → ℕ → Passport → AnchorInput
  anchor_input registry id passport = record {
    registry_address = registry;
    passport_id = id;
    data_hash = compute_passport_hash setting.digest id passport;
  }

  -- The job of a material that is there.
  unfoldable pub process_passport : ℕ → Passport → Work (WorkerState C) (Unit {0})
  unfolding compute_passport_hash decide_anchor_action act
  process_passport id passport = do
    registry ← need setting.registry_address
    onchain ← reads (adapter.get_passport_anchor registry id)
    chain_id ← reads adapter.chain_id
    let input = anchor_input registry id passport
    act (decide_anchor_action setting.to_lower onchain input.data_hash) passport input onchain
        chain_id

  unfoldable pub process_anchor_job : ℕ → Work (WorkerState C) (Unit {0})
  unfolding find process_passport
  process_anchor_job id = λ s. elim (find id s.db.quality.market.passports) [
    | none ↦ (s, ok tt)
    | some passport ↦ process_passport id passport s
  ]
