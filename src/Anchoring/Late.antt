-- ===== src/Anchoring/Late.antt =====
-- packages/api/src/workers/anchor-passport.worker.ts: a job that finds its fingerprint in the registry,
-- with no transaction of it logged as succeeded.
use trace_public.Common.{◌or_else◌, ℕ, Option, none, some, String, ◌≡◌, refl, sym, subst}
use trace_public.Errors.{ok}
use trace_public.Store.{Passport}
use trace_public.Table.{find}
use trace_public.Table.Search.{find-modify_self}
use trace_public.Quality.{Anchor}
use trace_public.Quality.Anchors.{compute_passport_hash}
use trace_public.Passports.{PassportViewer}
use trace_public.Passports.Reading.{ChainReader}
use trace_public.Anchoring.{AnchoringDb}
use trace_public.Anchoring.Certificate.{
  CertificateStatus, PassportCertificate, certificate_status, get_passport_certificate,
}
use trace_public.Anchoring.Certified.{made_of}
use trace_public.Anchoring.Chain.{ChainAdapter, OnchainAnchor}
use trace_public.Anchoring.Jobs.{process_anchor_job, process_passport, act, need, reads, logs}
use trace_public.Anchoring.Ledger.{
  Setting, Run, WorkerState, AnchorAction, decide_anchor_action, sync_already_anchored,
  anchoring_tx,
}
use trace_public.Anchoring.Work.{◌>>=◌, done, writes}

-- The columns of a fingerprint that has no transaction.
abbrev prepared : String → Option ℕ → Anchor
prepared hash at = record { passport_hash = some hash; tx_hash = none; anchored_at = at }

certificate_of_prepared :
    (reader : ChainReader) (label : Option String) (id : ℕ) (viewer : Option PassportViewer)
    (db : AnchoringDb) (c : PassportCertificate) (hash : String) (at : ℕ)
    → find id db.quality.anchors ≡ some (prepared hash (some at))
    → get_passport_certificate reader label id viewer db ≡ ok c
    → c.status ≡ CertificateStatus.simulated
unfolding certificate_status
certificate_of_prepared reader label id viewer db c hash at columns h =
    let (passport, same) = made_of reader label id viewer db c h in
    subst (λ (d : PassportCertificate). d.status ≡ CertificateStatus.simulated) (sym same)
      (rw columns refl)

module _ {C : Type 0} (adapter : ChainAdapter C) (setting : Setting) (run : Run) where
  sync_without_tx :
      (id : ℕ) (passport : Passport) (anchor : Anchor) (hash name : String) (db : AnchoringDb)
      → find id db.quality.anchors ≡ some anchor
      → anchor.tx_hash ≡ none
      → anchoring_tx id hash db.chain_txs ≡ none
      → (at : ℕ) × (find id
            (sync_already_anchored id passport anchor hash name run.now db).quality.anchors
          ≡ some (prepared hash (some at)))
  unfolding sync_already_anchored
  sync_without_tx id passport anchor hash name db columns no_tx unlogged =
      simp (no_tx, unlogged)
        (
          anchor.anchored_at or_else run.now,
          find-modify_self id (λ _. prepared hash (some (anchor.anchored_at or_else run.now)))
              db.quality.anchors columns,
        )

  -- The registry holds the fingerprint of the material's data, the material's columns have no
  -- transaction, and none is logged as succeeded that anchored it, as after a transaction that the
  -- chain confirmed only when the wait for it was over. The job then ends without an error, and every
  -- certificate of the material reads simulated, although the fingerprint is on the chain.
  pub late_confirmation_reads_simulated :
      (id : ℕ) (passport : Passport) (anchor : Anchor) (onchain : OnchainAnchor)
      (registry name : String) (s : WorkerState C)
      → setting.registry_address ≡ some registry
      → find id s.db.quality.market.passports ≡ some passport
      → find id s.db.quality.anchors ≡ some anchor
      → anchor.tx_hash ≡ none
      → adapter.get_passport_anchor registry id s.chain ≡ ok onchain
      → adapter.chain_id s.chain ≡ ok name
      → decide_anchor_action setting.to_lower onchain
          (compute_passport_hash setting.digest id passport)
        ≡ AnchorAction.skip
      → anchoring_tx id (compute_passport_hash setting.digest id passport) s.db.chain_txs ≡ none
      → (s' : WorkerState C) × (process_anchor_job adapter setting run id s ≡ (s', ok tt))
        × ((reader : ChainReader) (label : Option String) (viewer : Option PassportViewer)
              (c : PassportCertificate)
            → get_passport_certificate reader label id viewer s'.db ≡ ok c
            → c.status ≡ CertificateStatus.simulated)
  unfolding process_anchor_job process_passport act need reads logs ◌>>=◌ done writes
  late_confirmation_reads_simulated id passport anchor onchain registry name s there found columns
        no_tx read named skips unlogged =
      let hash = compute_passport_hash setting.digest id passport in
      let (at, stored) = sync_without_tx id passport anchor hash name s.db columns no_tx unlogged in
      (
        record s { db = sync_already_anchored id passport anchor hash name run.now s.db },
        rw (found, process_anchor_job)
            (rw (there, process_passport) (rw read (rw named (rw skips (rw columns refl))))),
        λ reader label viewer c h.
            certificate_of_prepared reader label id viewer _ c hash at stored h,
      )
