-- ===== src/Anchoring/Submits.antt =====
-- packages/api/src/workers/anchor-passport.worker.ts: what the `try` of an anchor job leaves in the columns
-- of a fingerprint and in the registry.
use text.Mathlib.Text.{◌==◌ as str_eq}
use trace_public.Common.{ℕ, false, ◌≡◌, ◌≢◌, some, refl, ◌==◌}
use trace_public.Store.{Passport}
use trace_public.Table.{find}
use trace_public.Quality.{QualityDb, Anchor}
use trace_public.Quality.Anchors.{compute_passport_hash}
use trace_public.Anchoring.{String, Wallet}
use trace_public.Anchoring.Chain.{ChainAdapter, OnchainAnchor}
use trace_public.Anchoring.Registry.{zero_hash, zero_address}
use trace_public.Anchoring.Taken.{HoldsFor}
use trace_public.Anchoring.Decided.{Calls}
use trace_public.Anchoring.Node.{RunsRegistry}
use trace_public.Anchoring.Confirms.{Keeps, Awaits, logs-Ends, wait_confirmed-Ends}
use trace_public.Anchoring.Sends.{submit-Ends}
use trace_public.Anchoring.Current.{
  IsCurrent, HasTx, HasWallet, organisation_wallet-Ends, written_current,
}
use trace_public.Anchoring.Ends.{Ends, Ends-bind, Ends-then, Ends-catching}
use trace_public.Anchoring.Jobs.{attempt, anchor_passport, anchor_input, anchored_by}
use trace_public.Anchoring.Ledger.{AnchorAction, Setting, Run, WorkerState}

-- What a job needs besides the node: the texts of its id, wallet and fingerprint are not those of zeros.
pub record IsNonzero (id : ℕ) (owner hash : String) : Type 0 where
  pub named : (id == 0) ≡ false
  pub real : str_eq owner zero_address ≡ false
  pub filled : str_eq hash zero_hash ≡ false

module _ {C : Type 0} (adapter : ChainAdapter C) (setting : Setting) (run : Run) (registry : String)
    (node : RunsRegistry adapter setting.to_lower registry) (deployer wallet : Wallet)
    (has : setting.deployer ≡ some deployer) where
  module _ (id : ℕ) (passport : Passport) (anchor : Anchor) (quality : QualityDb)
      (found : find id quality.market.passports ≡ some passport)
      (columns : find id quality.anchors ≡ some anchor) where
    abbrev pub data_hash : String
    data_hash = compute_passport_hash setting.digest id passport

    abbrev pub hash : String
    hash = setting.to_lower data_hash

    abbrev pub hub : String
    hub = setting.to_lower wallet.address

    -- The material's fingerprint is stored, with a transaction, and the registry holds it as the
    -- organisation's.
    abbrev pub IsAnchored : WorkerState C → Unit {0} → Type 0
    IsAnchored s x =
        IsCurrent adapter setting run id s.db.quality (HasTx adapter setting run)
        × HoldsFor id hash hub (node.view s.chain)

    abbrev pub Prepared : AnchorAction → OnchainAnchor → WorkerState C → {A : Type 0} → A → Type 0
    Prepared action onchain s x =
        Keeps adapter setting run registry node quality
          (Calls setting.to_lower (setting.to_lower deployer.address) id hash action onchain) s x

    abbrev UnderWay : WorkerState C → {A : Type 0} → A → Type 0
    UnderWay s x = Keeps adapter setting run registry node quality (HoldsFor id hash hub) s x

    attempt-Ends :
        (action : AnchorAction) (onchain : OnchainAnchor) (chain_id : String) (s : WorkerState C)
        → IsNonzero id hub hash
        → action ≢ AnchorAction.skip
        → HasWallet adapter setting run passport.organisation_id wallet s.db.keys
        → Prepared action onchain s tt
        → Ends
            (attempt adapter setting run action passport
              (anchor_input adapter setting run registry id passport)
              onchain
              chain_id)
            s
            IsAnchored
    unfolding attempt
    attempt-Ends action onchain chain_id s nonzero acts made prepared =
        let Sent = Awaits adapter setting run registry node quality (HoldsFor id hash hub) in
        Ends-bind _ _ s (λ s1 w. (w ≡ wallet) × Prepared action onchain s1 w) IsAnchored
          (organisation_wallet-Ends adapter setting run passport.organisation_id wallet s
            (λ s1 w. (w ≡ wallet) × Prepared action onchain s1 w) made (λ keys. (refl, prepared)))
          (λ s1 w ready1. rw ready1.0 (
            Ends-bind _ _ s1 Sent IsAnchored
              (submit-Ends adapter setting run registry node deployer has wallet id data_hash
                quality action passport onchain chain_id s1 nonzero.named nonzero.real
                nonzero.filled acts ready1.1)
              (λ s2 tx awaited.
                Ends-then _ _ s2 (λ s3 x. Sent s3 tx) IsAnchored
                  (logs-Ends adapter setting run registry node _ s2 (λ s3 x. Sent s3 tx) awaited)
                  (λ s3 awaited3.
                    Ends-bind _ _ s3 (λ s4 x. UnderWay s4 x) IsAnchored
                      (wait_confirmed-Ends adapter setting run registry node tx s3 quality
                        (HoldsFor id hash hub) awaited3)
                      (λ s4 receipt kept4.
                        Ends-then _ _ s4 IsAnchored IsAnchored
                          (logs-Ends adapter setting run registry node _ s4 IsAnchored (
                            written_current adapter setting run id passport anchor quality found
                                columns (anchored_by adapter setting run tx data_hash) chain_id s4
                                kept4.0 refl (HasTx adapter setting run) (refl, refl),
                            kept4.1,
                          ))
                          (λ s5 current.
                            logs-Ends adapter setting run registry node _ s5 IsAnchored
                              current))))))

    pub anchor_passport-Ends :
        (action : AnchorAction) (onchain : OnchainAnchor) (chain_id : String) (s : WorkerState C)
        → IsNonzero id hub hash
        → action ≢ AnchorAction.skip
        → HasWallet adapter setting run passport.organisation_id wallet s.db.keys
        → Prepared action onchain s tt
        → Ends
            (anchor_passport adapter setting run action passport
              (anchor_input adapter setting run registry id passport)
              onchain
              chain_id)
            s
            IsAnchored
    unfolding anchor_passport
    anchor_passport-Ends action onchain chain_id s nonzero acts made prepared =
        let Before = λ (s1 : WorkerState C) (x : Unit {0}).
          HasWallet adapter setting run passport.organisation_id wallet s1.db.keys
          × Prepared action onchain s1 x in
        Ends-then _ _ s Before IsAnchored
          (logs-Ends adapter setting run registry node _ s Before (made, prepared))
          (λ s1 ready1.
            Ends-catching _ _ s1 IsAnchored
              (attempt-Ends action onchain chain_id s1 nonzero acts ready1.0 ready1.1))
