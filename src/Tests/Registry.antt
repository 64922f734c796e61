-- ===== src/Tests/Registry.antt =====
-- A node whose state is the registry itself, and anchor jobs that run on it.
use trace_public.Common.{◌∷◌, List, [], true, false, Option, none, some, ◌≡◌, refl, inl}
use trace_public.Errors.{Result, ok, err, unexpected}
use trace_public.Table.{find}
use trace_public.Quality.Anchors.{no_anchor, compute_passport_hash}
use trace_public.Anchoring.Chain.{ChainAdapter, OnchainAnchor, Submitted}
use trace_public.Anchoring.Registry.{
  PassportRecord, Registry, grant_hub_role, register_passport, update_passport_hash,
  transfer_passport,
}
use trace_public.Anchoring.Node.{Executes, Shows, RunsRegistry}
use trace_public.Anchoring.Registered.{RegistryCall, constructed, constructed-IsIndexed}
use trace_public.Anchoring.Current.{HasWallet}
use trace_public.Anchoring.Submits.{IsNonzero}
use trace_public.Anchoring.Ledger.{WorkerState, decide_anchor_action}
use trace_public.Anchoring.Wallets.{
  ensure_organisation_wallet, read_wallet, claim_organisation_wallet,
}
use trace_public.Anchoring.Jobs.{process_anchor_job}
use trace_public.Anchoring.Settles.{anchor_jobs_settle, Settled}
use trace_public.Tests.Samples.{timber}
use trace_public.Tests.Quality.{db_start}
use trace_public.Tests.Anchoring.{
  tx, receipt, wallet, setting, run, keys, timber_found, columns_found,
}

abbrev answer_call : Registry → Option Registry → Registry × Result Submitted
answer_call r none = (r, err unexpected)
answer_call r (some after) = (after, ok tx)

abbrev shown : Option PassportRecord → OnchainAnchor
shown none = record { registered = false; data_hash = none; owner = none }
shown (some rec) = record {
  registered = true;
  data_hash = some rec.data_hash;
  owner = some rec.owner;
}

abbrev solo : ChainAdapter Registry
solo = record {
  chain_id = λ r. ok "vechain:solo";
  get_passport_anchor = λ address id r. ok (shown (r.records id));
  has_hub_role = λ address hub r. ok (r.has_hub_role hub);
  grant_hub_role = λ signer address hub r. answer_call r (grant_hub_role signer.address hub r);
  register_passport = λ signer input uri r.
      answer_call r (register_passport signer.address input.passport_id input.data_hash r);
  update_passport_hash = λ signer input r.
      answer_call r (update_passport_hash signer.address input.passport_id input.data_hash r);
  transfer_passport = λ signer address id new_owner r.
      answer_call r (transfer_passport signer.address id new_owner r);
  wait_for_receipt = λ id r. some receipt;
}

answer_call-Executes :
    (r : Registry) (taken : Option Registry)
    → Executes solo (λ seen. seen) r taken (answer_call r taken)
answer_call-Executes r none = (r, refl, inl (unexpected, refl))
answer_call-Executes r (some after) = (after, tx, receipt, refl, refl, refl, refl)

shown-Shows : (rec : Option PassportRecord) → Shows (λ s. s) rec (shown rec)
shown-Shows none = refl
shown-Shows (some rec) = (refl, (rec.data_hash, refl, refl), (rec.owner, refl, refl))

abbrev solo_runs : RunsRegistry solo setting.to_lower "0xregistry"
solo_runs = record {
  view = λ r. r;
  chain_read = λ r. ("vechain:solo", refl);
  anchor_read = λ id r. (_, refl, shown-Shows (r.records id));
  role_read = λ hub r. refl;
  grants = λ signer hub r. answer_call-Executes r _;
  registers = λ signer id hash uri r. answer_call-Executes r _;
  updates = λ signer id hash r. answer_call-Executes r _;
  transfers = λ signer id new_owner r. answer_call-Executes r _;
}

-- A registry that the wallet of the samples has just deployed.
abbrev deployed : Registry
deployed = constructed "0xabc"

abbrev worker : WorkerState Registry
worker = record {
  db = record { quality = db_start; keys = keys; chain_txs = [] };
  chain = deployed;
}

wallet_made : HasWallet solo setting run 7 wallet keys
unfolding ensure_organisation_wallet read_wallet claim_organisation_wallet find
wallet_made = (_, refl)

nonzero : IsNonzero 10 "0xabc" (compute_passport_hash setting.digest 10 timber)
unfolding compute_passport_hash
nonzero = record { named = refl; real = refl; filled = refl }

anchor_jobs_settle_example :
    (onchain : OnchainAnchor) × (s' : WorkerState Registry) × (solo.get_passport_anchor "0xregistry"
        10 deployed
      ≡ ok onchain)
    × (process_anchor_job solo setting run 10 worker ≡ (s', ok tt))
    × Settled solo setting run "0xregistry" solo_runs wallet wallet refl 10 timber no_anchor
        db_start timber_found columns_found
        (decide_anchor_action setting.to_lower onchain
          (compute_passport_hash setting.digest 10 timber))
        s'
        tt
anchor_jobs_settle_example =
    anchor_jobs_settle solo setting run "0xregistry" solo_runs wallet wallet refl 10 timber
      no_anchor worker refl timber_found columns_found wallet_made nonzero (refl, refl)
      (constructed-IsIndexed "0xabc") (λ j rec found same. absurd (cc))

-- The wallet's address is granted the role and registers two materials; the second call for the first
-- material's fingerprint reverts.
abbrev calls : List RegistryCall
calls =
    RegistryCall.grant "0xadmin" "0xabc"
    ∷ RegistryCall.register "0xabc" 10 "0x01"
    ∷ RegistryCall.register "0xabc" 11 "0x01"
    ∷ RegistryCall.update "0xabc" 10 "0x02"
    ∷ RegistryCall.register "0xabc" 11 "0x01"
    ∷ RegistryCall.transfer "0xadmin" 11 "0xdef"
    ∷ []
