-- ===== src/Anchoring/Current.antt =====
-- packages/api/src/workers/anchor-passport.worker.ts: what the steps of an anchor job leave in the columns
-- of a fingerprint.
use text.Mathlib.TextEquality.{eq_iff}
use trace_public.Common.{
  ℕ, true, ◌≡◌, inl, inr, Option, none, some, is_some, refl, ap, and_left, and_right, Bool-cases,
}
use trace_public.Errors.{ok}
use trace_public.Store.{Passport}
use trace_public.Table.{find}
use trace_public.Table.Search.{find-modify_self}
use trace_public.Quality.{QualityDb, Anchor}
use trace_public.Quality.Anchors.{compute_passport_hash}
use trace_public.Anchoring.{String, Wallet, OrganisationKeys}
use trace_public.Anchoring.Chain.{ChainAdapter}
use trace_public.Anchoring.Ends.{Ends}
use trace_public.Anchoring.Jobs.{organisation_wallet}
use trace_public.Anchoring.Ledger.{
  is_synced, is_text, sync_already_anchored, Setting, Run, WorkerState, write_anchored,
}
use trace_public.Anchoring.Wallets.{ensure_organisation_wallet}
use trace_public.Table.{Table}

is_text-eq : (o : Option String) (s : String) → is_text o s ≡ true → o ≡ some s
is_text-eq none s h = cc
is_text-eq (some t) s h = ap some ((eq_iff t s).0 h)

module _ {C : Type 0} (adapter : ChainAdapter C) (setting : Setting) (run : Run) where
  -- The stored fingerprint of a material is the one of its data.
  abbrev pub IsCurrent : ℕ → QualityDb → (Anchor → Type 0) → Type 0
  IsCurrent id db Also =
      (passport : Passport) × (anchor : Anchor) × (find id db.market.passports ≡ some passport)
      × (find id db.anchors ≡ some anchor)
      × (anchor.passport_hash ≡ some (compute_passport_hash setting.digest id passport))
      × Also anchor

  abbrev pub HasTx : Anchor → Type 0
  HasTx anchor = (is_some anchor.tx_hash ≡ true) × (is_some anchor.anchored_at ≡ true)

  -- The wallet of an organisation can be had.
  abbrev pub HasWallet : ℕ → Wallet → Table OrganisationKeys → Type 0
  HasWallet organisation_id wallet keys =
      (keys' : Table OrganisationKeys) × (ensure_organisation_wallet setting.vault run.made
          organisation_id keys
        ≡ (keys', ok wallet))

  pub organisation_wallet-Ends :
      (organisation_id : ℕ) (wallet : Wallet) (s : WorkerState C)
      (Q : WorkerState C → Wallet → Type 0)
      → HasWallet organisation_id wallet s.db.keys
      → ((keys : Table OrganisationKeys) → Q (record s { db = record s.db { keys = keys } }) wallet)
      → Ends (organisation_wallet adapter setting run organisation_id) s Q
  unfolding organisation_wallet
  organisation_wallet-Ends organisation_id wallet s Q (keys, made) q = record {
    final = record s { db = record s.db { keys = keys } };
    value = wallet;
    runs = rw made refl;
    holds = q keys;
  }

  module _ (id : ℕ) (passport : Passport) (anchor : Anchor) (quality : QualityDb)
      (found : find id quality.market.passports ≡ some passport)
      (columns : find id quality.anchors ≡ some anchor) where
    pub written_current :
        (fresh : Anchor) (chain_id : String) (s : WorkerState C)
        → s.db.quality ≡ quality
        → fresh.passport_hash ≡ some (compute_passport_hash setting.digest id passport)
        → (Also : Anchor → Type 0) → Also fresh
        → IsCurrent id (write_anchored id fresh chain_id run.now s.db).quality Also
    unfolding compute_passport_hash
    written_current fresh chain_id s same hash Also also = rw same (
      record passport { chain_id = some chain_id; updated_at = run.now },
      fresh,
      find-modify_self id
          (λ (p : Passport). record p { chain_id = some chain_id; updated_at = run.now })
          quality.market.passports found,
      find-modify_self id (λ _. fresh) quality.anchors columns,
      hash,
      also,
    )

    -- A material whose fingerprint the registry has already.
    pub sync-IsCurrent :
        (chain_id : String) (s : WorkerState C)
        → s.db.quality ≡ quality
        → IsCurrent id
            (sync_already_anchored id passport anchor
              (compute_passport_hash setting.digest id passport)
              chain_id
              run.now
              s.db).quality
            (λ _. Unit)
    unfolding sync_already_anchored
    sync-IsCurrent chain_id s same =
        let hash = compute_passport_hash setting.digest id passport in
        elim (Bool-cases (is_synced anchor passport.chain_id hash chain_id)) [
          | inl synced ↦
              rw (synced, same)
                (
                  passport,
                  anchor,
                  found,
                  columns,
                  is_text-eq anchor.passport_hash hash (
                      and_right (is_some anchor.tx_hash) _
                        (and_left _ (is_text passport.chain_id chain_id) synced)),
                  tt,
                )
          | inr behind ↦ rw behind (written_current _ chain_id s same refl (λ _. Unit) tt)
        ]
