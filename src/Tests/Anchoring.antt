-- ===== src/Tests/Anchoring.antt =====
-- The anchoring worker, run: a chain that holds one fingerprint, and a queue that is a function.
use trace_public.Common.{
  insert_by, sort_by, ℕ, ◌≤◌, arith, true, false, [], ◌∷◌, Option, none, some, ◌≡◌, ◌⊎◌, refl,
  String, ◌==◌, ==_self, ==_ne, is_some, if◌then◌else◌, length,
}
use trace_public.Errors.{ok}
use trace_public.Store.{Passport}
use trace_public.Table.{modify, Table, find}
use trace_public.Quality.{QualityDb, Anchor}
use trace_public.Quality.Anchors.{compute_passport_hash, no_anchor}
use trace_public.Anchoring.{OrganisationKeys, Wallet}
use trace_public.Anchoring.Chain.{ChainAdapter, ChainReceipt, Submitted}
use trace_public.Anchoring.Wallets.{Vault, claim_organisation_wallet, read_wallet, WalletRead}
use trace_public.Anchoring.Ledger.{Setting, Run, WorkerState}
use trace_public.Anchoring.Sweep.{
  is_finished, anchored, unanchored, process_sweep_job, backfill_passport_identifiers,
  sweep_batch_size, reconcile_batch_size, mark_stale, reconcile_stale_anchors,
  find_passports_missing_identifiers, issue_each, JobQueue, QueueLaws, JobState,
}
use trace_public.Anchoring.Claims.{run_claims, first_claim_stands}
use trace_public.Anchoring.Covers.{sweep_covers}
use trace_public.Tests.Samples.{timber}
use trace_public.Tests.Quality.{digest, db_start}
use trace_public.Tests.Passports.{issuer}

abbrev pub tx : Submitted
tx = record { tx_id = "0x01"; origin_address = "0xabc" }

abbrev pub receipt : ChainReceipt
receipt = record { reverted = false; block_number = 12; block_id = "0x0c" }

-- A chain whose state is the one fingerprint that it holds.
abbrev pub adapter : ChainAdapter (Option String)
adapter = record {
  chain_id = λ c. ok "vechain:solo";
  get_passport_anchor =
      λ registry id c. ok (record { registered = is_some c; data_hash = c; owner = none });
  has_hub_role = λ registry address c. ok false;
  grant_hub_role = λ deployer registry address c. (c, ok tx);
  register_passport = λ wallet input uri c. (some input.data_hash, ok tx);
  update_passport_hash = λ wallet input c. (some input.data_hash, ok tx);
  transfer_passport = λ deployer registry id owner c. (c, ok tx);
  wait_for_receipt = λ id c. some receipt;
}

abbrev pub wallet : Wallet
wallet = record { address = "0xabc"; private_key = "key" }

abbrev pub vault : Vault
vault = record {
  encrypt_private_key = λ key. key;
  decrypt_private_key = λ key. ok key;
  address_of_key = λ key. "0xabc";
}

abbrev pub setting : Setting
setting = record {
  digest = digest;
  to_lower = λ s. s;
  vault = vault;
  registry_address = some "0xregistry";
  deployer = some wallet;
  api_passport_url = λ id. "https://trace.example/api/v1/passports/10";
}

abbrev pub run : Run
run = record { now = 5000; made = wallet; anchor_log = 300; other_log = 301 }

abbrev pub no_keys : OrganisationKeys
no_keys = record { blockchain_address = none; private_key_enc = none }

abbrev pub keys : Table OrganisationKeys
keys = (7, no_keys) ∷ []

abbrev pub worker : Option String → WorkerState (Option String)
worker chain = record {
  db = record { quality = db_start; keys = keys; chain_txs = [] };
  chain = chain;
}

pub timber_found : find 10 db_start.market.passports ≡ some timber
unfolding find
timber_found = refl

pub columns_found : find 10 db_start.anchors ≡ some no_anchor
unfolding find
columns_found = refl

theirs : Wallet
theirs = record { address = "0xdef"; private_key = "other" }

keys_found : find 7 keys ≡ some no_keys
unfolding find
keys_found = refl

first_claim_stands_example :
    ((claim_organisation_wallet vault 7 wallet keys).1 ≡ true)
    × (read_wallet vault 7
          (run_claims vault ((7, theirs) ∷ []) (claim_organisation_wallet vault 7 wallet keys).0)
        ≡ WalletRead.has_wallet
            (run_claims vault ((7, theirs) ∷ []) (claim_organisation_wallet vault 7 wallet keys).0)
            (ok wallet))
first_claim_stands_example =
    first_claim_stands vault 7 wallet no_keys ((7, theirs) ∷ []) keys (λ key. refl) keys_found refl

-- A queue as the state of each job.
abbrev queue : JobQueue (ℕ → Option JobState)
queue = record {
  get_state = λ id q. q id;
  add = λ id organisation_id q j. if id == j then some JobState.waiting else q j;
  remove = λ id q j. if id == j then none else q j;
}

queue_laws : QueueLaws queue
queue_laws = record {
  state-add_self = λ id organisation_id q absent. rw (==_self id) refl;
  state-add_ne = λ id j organisation_id q other. rw (==_ne id j other) refl;
  state-remove_self = λ id q. rw (==_self id) refl;
  state-remove_ne = λ id j q other. rw (==_ne id j other) refl;
}

abbrev swept : QualityDb × ((ℕ → Option JobState) × ℕ)
swept = process_sweep_job queue digest false issuer 6000 db_start (λ j. none)

abbrev timber_identified : Passport
timber_identified = record timber {
  digital_link_uri = some "https://trace.example/passport/10";
  updated_at = 6000;
}

few_anchored :
    length (anchored (backfill_passport_identifiers issuer sweep_batch_size 6000 db_start).0)
    ≤ reconcile_batch_size
unfolding backfill_passport_identifiers anchored find_passports_missing_identifiers issue_each
    sort_by insert_by find modify
few_anchored = omega (arith)

few_unanchored : length (unanchored swept.0) ≤ sweep_batch_size
unfolding process_sweep_job backfill_passport_identifiers anchored unanchored
    find_passports_missing_identifiers issue_each sort_by insert_by find modify
    reconcile_stale_anchors mark_stale
few_unanchored = omega (arith)

swept_found : find 10 swept.0.market.passports ≡ some timber_identified
unfolding process_sweep_job backfill_passport_identifiers anchored unanchored
    find_passports_missing_identifiers issue_each sort_by insert_by find modify
    reconcile_stale_anchors mark_stale
swept_found = refl

sweep_covers_example :
    ((a : Anchor) × (find 10 swept.0.anchors ≡ some a)
      × (is_some a.tx_hash ≡ true)
      × (a.passport_hash ≡ some (compute_passport_hash digest 10 timber_identified)))
    ⊎ ((state : JobState) × (queue.get_state 10 swept.1.0 ≡ some state)
        × (is_finished state ≡ false))
sweep_covers_example =
    sweep_covers digest queue queue_laws issuer 6000 db_start (λ j. none) 10 timber_identified
      few_anchored few_unanchored swept_found refl
