-- ===== src/Anchoring/Settles.antt =====
-- packages/api/src/workers/anchor-passport.worker.ts: what a whole anchor job leaves, in the database and
-- in the registry.
use trace_public.Common.{ℕ, ◌≡◌, ◌≢◌, ◌⊎◌, inl, inr, some, refl, sym, ◌∙◌, ap}
use trace_public.Errors.{ok-injective, ok}
use trace_public.Store.{Passport}
use trace_public.Table.{find}
use trace_public.Quality.{QualityDb, Anchor}
use trace_public.Quality.Anchors.{compute_passport_hash}
use trace_public.Anchoring.{String, Wallet}
use trace_public.Anchoring.Chain.{ChainAdapter, OnchainAnchor}
use trace_public.Anchoring.Registry.{PassportRecord, Registry}
use trace_public.Anchoring.Taken.{IsRunning, HoldsFor}
use trace_public.Anchoring.Index.{IsIndexed}
use trace_public.Anchoring.Decided.{IsAlone, Calls, decides}
use trace_public.Anchoring.Node.{RunsRegistry}
use trace_public.Anchoring.Confirms.{logs-Ends, reads-Ends, need-Ends}
use trace_public.Anchoring.Ends.{Ends-weaker, Ends, Ends-bind}
use trace_public.Anchoring.Jobs.{
  anchor_passport, process_passport, process_anchor_job, act, anchor_input,
}
use trace_public.Anchoring.Ledger.{
  sync_already_anchored, AnchorAction, Setting, Run, WorkerState, decide_anchor_action,
}
use trace_public.Anchoring.Current.{IsCurrent, HasTx, HasWallet, sync-IsCurrent}
use trace_public.Anchoring.Submits.{IsNonzero, anchor_passport-Ends}

module _ {C : Type 0} (adapter : ChainAdapter C) (setting : Setting) (run : Run) (registry : String)
    (node : RunsRegistry adapter setting.to_lower registry) (deployer wallet : Wallet)
    (has : setting.deployer ≡ some deployer) where
  module _ (id : ℕ) (passport : Passport) (anchor : Anchor) (quality : QualityDb)
      (found : find id quality.market.passports ≡ some passport)
      (columns : find id quality.anchors ≡ some anchor) where
    abbrev hash : String
    hash = setting.to_lower (compute_passport_hash setting.digest id passport)

    abbrev hub : String
    hub = setting.to_lower wallet.address

    abbrev Asked : AnchorAction → OnchainAnchor → Registry → Type 0
    Asked = Calls setting.to_lower (setting.to_lower deployer.address) id hash

    -- The registry holds the fingerprint of the material's data, and the database says so: with a
    -- transaction, and as the organisation's own, unless the registry held it before.
    abbrev pub Settled : AnchorAction → WorkerState C → Unit {0} → Type 0
    Settled action s x =
        (IsCurrent adapter setting run id s.db.quality (HasTx adapter setting run)
          × HoldsFor id hash hub (node.view s.chain))
        ⊎ ((action ≡ AnchorAction.skip)
            × IsCurrent adapter setting run id s.db.quality (λ _. Unit)
            × ((rec : PassportRecord) × ((node.view s.chain).records id ≡ some rec)
                × (rec.data_hash ≡ hash)))

    anchors :
        (action : AnchorAction) (onchain : OnchainAnchor) (chain_id : String) (s : WorkerState C)
        → IsNonzero id hub hash
        → HasWallet adapter setting run passport.organisation_id wallet s.db.keys
        → s.db.quality ≡ quality
        → action ≢ AnchorAction.skip
        → Asked action onchain (node.view s.chain)
        → Ends
            (anchor_passport adapter setting run action passport
              (anchor_input adapter setting run registry id passport)
              onchain
              chain_id)
            s
            (Settled action)
    anchors action onchain chain_id s nonzero made same acts asked =
        Ends-weaker _ s _ (Settled action)
          (anchor_passport-Ends adapter setting run registry node deployer wallet has id passport
            anchor quality found columns action onchain chain_id s nonzero acts made (same, asked))
          (λ s' x anchored. inl anchored)

    act-Ends :
        (action : AnchorAction) (onchain : OnchainAnchor) (chain_id : String) (s : WorkerState C)
        → IsNonzero id hub hash
        → HasWallet adapter setting run passport.organisation_id wallet s.db.keys
        → s.db.quality ≡ quality
        → Asked action onchain (node.view s.chain)
        → Ends
            (act adapter setting run action passport
              (anchor_input adapter setting run registry id passport)
              onchain
              chain_id)
            s
            (Settled action)
    unfolding act
    act-Ends AnchorAction.register onchain chain_id s nonzero made same asked =
        anchors AnchorAction.register onchain chain_id s nonzero made same (λ e. cc) asked
    act-Ends AnchorAction.update onchain chain_id s nonzero made same asked =
        anchors AnchorAction.update onchain chain_id s nonzero made same (λ e. cc) asked
    act-Ends AnchorAction.skip onchain chain_id s nonzero made same asked =
        let data_hash = compute_passport_hash setting.digest id passport in
        let there : find id s.db.quality.anchors ≡ some anchor =
          ap (λ (q : QualityDb). find id q.anchors) same ∙ columns in
        let synced =
          logs-Ends adapter setting run registry node
            (sync_already_anchored id passport anchor data_hash chain_id run.now) s
            (Settled AnchorAction.skip)
            (inr (
              refl,
              sync-IsCurrent adapter setting run id passport anchor quality found columns chain_id s
                  same,
              asked,
            )) in
        record {
          final = synced.final;
          value = synced.value;
          runs = rw (there, act) synced.runs;
          holds = synced.holds;
        }

    process_passport-Ends :
        (s : WorkerState C) (onchain : OnchainAnchor)
        → setting.registry_address ≡ some registry
        → IsNonzero id hub hash
        → HasWallet adapter setting run passport.organisation_id wallet s.db.keys
        → s.db.quality ≡ quality
        → adapter.get_passport_anchor registry id s.chain ≡ ok onchain
        → Asked
            (decide_anchor_action setting.to_lower onchain
              (compute_passport_hash setting.digest id passport))
            onchain
            (node.view s.chain)
        → Ends (process_passport adapter setting run id passport) s (
            Settled (
              decide_anchor_action setting.to_lower onchain
                (compute_passport_hash setting.digest id passport)))
    unfolding process_passport
    process_passport-Ends s onchain there nonzero made same read asked =
        let action =
          decide_anchor_action setting.to_lower onchain
            (compute_passport_hash setting.digest id passport) in
        Ends-bind _ _ s (λ s1 r. (r ≡ registry) × (s1 ≡ s)) (Settled action)
          (need-Ends adapter setting run registry node setting.registry_address registry s
            (λ s1 r. (r ≡ registry) × (s1 ≡ s)) there (refl, refl))
          (λ s1 r first.
            rw (first.0, first.1)
              (Ends-bind _ _ s
                (λ s2 o. (adapter.get_passport_anchor registry id s2.chain ≡ ok o) × (s2 ≡ s))
                (Settled action)
                (reads-Ends adapter setting run registry node
                  (adapter.get_passport_anchor registry id) s (λ s2. s2 ≡ s) (onchain, read) refl)
                (λ s2 o second.
                  let it : o ≡ onchain = ok-injective (
                    sym second.0
                    ∙ (ap (λ (z : WorkerState C). adapter.get_passport_anchor registry id z.chain)
                          second.1
                        ∙ read)) in
                  rw (it, second.1)
                    (Ends-bind _ _ s (λ s3 name. (adapter.chain_id s3.chain ≡ ok name) × (s3 ≡ s))
                      (Settled action)
                      (reads-Ends adapter setting run registry node adapter.chain_id s
                        (λ s3. s3 ≡ s) (node.chain_read s.chain) refl)
                      (λ s3 name third.
                        rw third.1 (act-Ends action onchain name s nonzero made same asked))))))

  -- On a node that runs the registry, where the worker has the registry's address, the key of its
  -- administrator and the organisation's wallet, the registry is not paused, its index is in order, no
  -- other material has this fingerprint there, and the id, the fingerprint and the wallet's address are
  -- not zero: a job of a material that is there, with its fingerprint's columns, ends without an error.
  -- The registry then holds the fingerprint of the material's data, and so does the database; with a
  -- transaction, a time and the organisation's wallet as the owner, unless the registry held that
  -- fingerprint before the job.
  pub anchor_jobs_settle :
      (id : ℕ) (passport : Passport) (anchor : Anchor) (s : WorkerState C)
      → setting.registry_address ≡ some registry
      → (found : find id s.db.quality.market.passports ≡ some passport)
      → (columns : find id s.db.quality.anchors ≡ some anchor)
      → HasWallet adapter setting run passport.organisation_id wallet s.db.keys
      → IsNonzero id
          (setting.to_lower wallet.address)
          (setting.to_lower (compute_passport_hash setting.digest id passport))
      → IsRunning (setting.to_lower deployer.address) (node.view s.chain)
      → IsIndexed (node.view s.chain)
      → IsAlone id
          (setting.to_lower (compute_passport_hash setting.digest id passport))
          (node.view s.chain)
      → (onchain : OnchainAnchor) × (s' : WorkerState C) × (adapter.get_passport_anchor registry id
            s.chain
          ≡ ok onchain)
        × (process_anchor_job adapter setting run id s ≡ (s', ok tt))
        × Settled id passport anchor s.db.quality found columns
            (decide_anchor_action setting.to_lower onchain
              (compute_passport_hash setting.digest id passport))
            s'
            tt
  unfolding process_anchor_job
  anchor_jobs_settle id passport anchor s there found columns made nonzero live indexed alone =
      let (onchain, read, shows) = node.anchor_read id s.chain in
      let asked =
        decides setting.to_lower (setting.to_lower deployer.address) id
          (compute_passport_hash setting.digest id passport) (node.view s.chain) onchain live
          indexed alone shows in
      let ended =
        process_passport-Ends id passport anchor s.db.quality found columns s onchain there nonzero
          made refl read asked in
      (onchain, ended.final, read, rw (found, process_anchor_job) ended.runs, ended.holds)
