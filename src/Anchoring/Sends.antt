-- ===== src/Anchoring/Sends.antt =====
-- packages/api/src/workers/anchor-passport.worker.ts: what an anchor job sends to a node that runs the
-- registry.
use text.Mathlib.Text.{◌==◌ as str_eq}
use text.Mathlib.TextEquality.{eq_iff}
use trace_public.Common.{
  subst, inl, inr, Bool-cases, ◌or_else◌, ℕ, false, some, String, ◌==◌, ◌≡◌, ◌≢◌, refl, sym, ap,
  ◌∙◌, eq_true_of_not,
}
use trace_public.Errors.{ok-injective, ok}
use trace_public.Store.{Passport}
use trace_public.Quality.{QualityDb}
use trace_public.Anchoring.{Wallet}
use trace_public.Anchoring.Chain.{ChainAdapter, OnchainAnchor, AnchorInput}
use trace_public.Anchoring.Registry.{Registry, zero_hash, zero_address}
use trace_public.Anchoring.Node.{RunsRegistry, Executes-some, Shows}
use trace_public.Anchoring.Decided.{Calls}
use trace_public.Anchoring.Taken.{
  IsVacant, IsOpen, IsOutdated, IsOwned, HoldsFor, grant_hub_role-taken, register_passport-taken,
  transfer_passport-taken, update_passport_hash-taken,
}
use trace_public.Anchoring.Ends.{Ends, Ends-done, Ends-catching, Ends-bind, Ends-then}
use trace_public.Anchoring.Jobs.{
  needs_repair, repair_passport_ownership, submit, transfer_back, grant_role, ensure_hub_role,
}
use trace_public.Anchoring.Ledger.{AnchorAction, Setting, Run, WorkerState}
use trace_public.Anchoring.Confirms.{
  Keeps, Awaits, reads-Ends, need-Ends, sends-Ends, logs-Ends, wait_confirmed-Ends,
}

module _ {C : Type 0} (adapter : ChainAdapter C) (setting : Setting) (run : Run) (registry : String)
    (node : RunsRegistry adapter setting.to_lower registry) where
  module _ (deployer : Wallet) (has : setting.deployer ≡ some deployer) (wallet : Wallet) (id : ℕ)
      (data_hash : String) (quality : QualityDb) where
    abbrev admin : String
    admin = setting.to_lower deployer.address

    abbrev hub : String
    hub = setting.to_lower wallet.address

    abbrev hash : String
    hash = setting.to_lower data_hash

    abbrev pub input : AnchorInput
    input = record { registry_address = registry; passport_id = id; data_hash = data_hash }

    grant_role-Ends :
        (organisation_id : ℕ) (s : WorkerState C)
        → Keeps adapter setting run registry node quality (IsVacant admin id hash) s tt
        → Ends
            (grant_role adapter setting run registry wallet.address organisation_id deployer)
            s
            (Keeps adapter setting run registry node quality (IsOpen admin id hash hub))
    unfolding grant_role
    grant_role-Ends organisation_id s (same, vacant) =
        let Vacant = IsVacant admin id hash in
        let Open = IsOpen admin id hash hub in
        Ends-bind _ _ s
          (λ s1 name.
            (adapter.chain_id s1.chain ≡ ok name)
            × Keeps adapter setting run registry node quality Vacant s1 name)
          (Keeps adapter setting run registry node quality Open)
          (reads-Ends adapter setting run registry node adapter.chain_id s
            (λ s1. Keeps adapter setting run registry node quality Vacant s1 tt)
            (node.chain_read s.chain) (same, vacant))
          (λ s1 chain_id kept1.
            Ends-then _ _ s1 (Keeps adapter setting run registry node quality Vacant)
              (Keeps adapter setting run registry node quality Open)
              (logs-Ends adapter setting run registry node _ s1
                (Keeps adapter setting run registry node quality Vacant) kept1.1)
              (λ s2 kept2.
                Ends-catching _ _ s2 (Keeps adapter setting run registry node quality Open) (
                  let (takes, opened) =
                    grant_hub_role-taken admin id hash hub (node.view s2.chain) kept2.1 in
                  Ends-bind _ _ s2 (Awaits adapter setting run registry node quality Open)
                    (Keeps adapter setting run registry node quality Open)
                    (sends-Ends adapter setting run registry node
                      (adapter.grant_hub_role deployer registry wallet.address) s2 quality Open
                      (Executes-some adapter node.view Open _ _ _ _ takes opened
                        (node.grants deployer wallet.address s2.chain))
                      kept2.0)
                    (λ s3 tx awaited.
                      Ends-then _ _ s3
                        (λ s4 x. Awaits adapter setting run registry node quality Open s4 tx)
                        (Keeps adapter setting run registry node quality Open)
                        (logs-Ends adapter setting run registry node _ s3
                          (λ s4 x. Awaits adapter setting run registry node quality Open s4 tx)
                          awaited)
                        (λ s4 awaited4.
                          Ends-bind _ _ s4 (Keeps adapter setting run registry node quality Open)
                            (Keeps adapter setting run registry node quality Open)
                            (wait_confirmed-Ends adapter setting run registry node tx s4 quality
                              Open awaited4)
                            (λ s5 receipt kept5.
                              logs-Ends adapter setting run registry node _ s5
                                (Keeps adapter setting run registry node quality Open) kept5))))))

    ensure_hub_role-Ends :
        (organisation_id : ℕ) (s : WorkerState C)
        → Keeps adapter setting run registry node quality (IsVacant admin id hash) s tt
        → Ends
            (ensure_hub_role adapter setting run registry wallet.address organisation_id)
            s
            (Keeps adapter setting run registry node quality (IsOpen admin id hash hub))
    unfolding ensure_hub_role
    ensure_hub_role-Ends organisation_id s kept =
        let Vacant = IsVacant admin id hash in
        let Open = IsOpen admin id hash hub in
        Ends-bind _ _ s
          (λ s1 b.
            (adapter.has_hub_role registry wallet.address s1.chain ≡ ok b)
            × Keeps adapter setting run registry node quality Vacant s1 b)
          (Keeps adapter setting run registry node quality Open)
          (reads-Ends adapter setting run registry node
            (adapter.has_hub_role registry wallet.address) s
            (λ s1. Keeps adapter setting run registry node quality Vacant s1 tt)
            ((node.view s.chain).has_hub_role hub, node.role_read wallet.address s.chain) kept)
          (λ s1 b kept1. elim (Bool-cases b) [
            | inl granted ↦
                let shown = ok-injective (sym (node.role_read wallet.address s1.chain) ∙ kept1.0) in
                rw granted (
                  Ends-done tt s1 (Keeps adapter setting run registry node quality Open)
                    (kept1.1.0, (kept1.1.1, shown ∙ granted)))
            | inr missing ↦ rw missing (
                Ends-bind _ _ s1
                  (λ s2 d.
                    (d ≡ deployer) × Keeps adapter setting run registry node quality Vacant s2 d)
                  (Keeps adapter setting run registry node quality Open)
                  (need-Ends adapter setting run registry node setting.deployer deployer s1
                    (λ s2 d.
                      (d ≡ deployer) × Keeps adapter setting run registry node quality Vacant s2 d)
                    has (refl, kept1.1))
                  (λ s2 d kept2. rw kept2.0 (grant_role-Ends organisation_id s2 kept2.1)))
          ])

    transfer_back-Ends :
        (organisation_id : ℕ) (chain_id : String) (s : WorkerState C)
        → str_eq hub zero_address ≡ false
        → Keeps adapter setting run registry node quality (IsOutdated admin id hash) s tt
        → Ends
            (transfer_back adapter setting run registry id organisation_id wallet.address chain_id
              deployer)
            s
            (Keeps adapter setting run registry node quality (IsOwned id hash hub))
    unfolding transfer_back
    transfer_back-Ends organisation_id chain_id s real kept =
        let Outdated = IsOutdated admin id hash in
        let Owned = IsOwned id hash hub in
        Ends-then _ _ s (Keeps adapter setting run registry node quality Outdated)
          (Keeps adapter setting run registry node quality Owned)
          (logs-Ends adapter setting run registry node _ s
            (Keeps adapter setting run registry node quality Outdated) kept)
          (λ s1 kept1.
            Ends-catching _ _ s1 (Keeps adapter setting run registry node quality Owned) (
              let (after, takes, owned) =
                transfer_passport-taken admin id hash hub (node.view s1.chain) real kept1.1 in
              Ends-bind _ _ s1 (Awaits adapter setting run registry node quality Owned)
                (Keeps adapter setting run registry node quality Owned)
                (sends-Ends adapter setting run registry node
                  (adapter.transfer_passport deployer registry id wallet.address) s1 quality Owned
                  (Executes-some adapter node.view Owned _ after _ _ takes owned
                    (node.transfers deployer id wallet.address s1.chain))
                  kept1.0)
                (λ s2 tx awaited.
                  Ends-bind _ _ s2 (Keeps adapter setting run registry node quality Owned)
                    (Keeps adapter setting run registry node quality Owned)
                    (wait_confirmed-Ends adapter setting run registry node tx s2 quality Owned
                      awaited)
                    (λ s3 receipt kept3.
                      logs-Ends adapter setting run registry node _ s3
                        (Keeps adapter setting run registry node quality Owned) kept3))))

    repair-Ends :
        (organisation_id : ℕ) (chain_id : String) (s : WorkerState C)
        → str_eq hub zero_address ≡ false
        → Keeps adapter setting run registry node quality (IsOutdated admin id hash) s tt
        → Ends
            (repair_passport_ownership adapter setting run registry id organisation_id
              wallet.address chain_id)
            s
            (Keeps adapter setting run registry node quality (IsOwned id hash hub))
    unfolding repair_passport_ownership
    repair-Ends organisation_id chain_id s real kept =
        Ends-bind _ _ s
          (λ s1 d.
            (d ≡ deployer)
            × Keeps adapter setting run registry node quality (IsOutdated admin id hash) s1 d)
          (Keeps adapter setting run registry node quality (IsOwned id hash hub))
          (need-Ends adapter setting run registry node setting.deployer deployer s
            (λ s1 d.
              (d ≡ deployer)
              × Keeps adapter setting run registry node quality (IsOutdated admin id hash) s1 d)
            has (refl, kept))
          (λ s1 d kept1. rw kept1.0 (transfer_back-Ends organisation_id chain_id s1 real kept1.1))

    -- An owner that needs no repair is the wallet.
    needs_repair-IsOwned :
        (r : Registry) (onchain : OnchainAnchor)
        → needs_repair adapter setting run onchain.owner wallet.address ≡ false
        → Shows setting.to_lower (r.records id) onchain
        → IsOutdated admin id hash r
        → IsOwned id hash hub r
    needs_repair-IsOwned r onchain fine shows ((live, _), (rec, found), free) =
        let shown : Shows setting.to_lower (some rec) onchain =
          subst (λ o. Shows setting.to_lower o onchain) found shows in
        let (registered, hashed, (owner, known, same)) = shown in
        let checked : needs_repair adapter setting run (some owner) wallet.address ≡ false =
          ap (λ o. needs_repair adapter setting run o wallet.address) (sym known) ∙ fine in
        (
          live,
          (
            rec,
            found,
            sym same ∙ (eq_iff (setting.to_lower owner) hub).0 (eq_true_of_not _ checked),
          ),
          free,
        )

    updates-Ends :
        (passport : Passport) (onchain : OnchainAnchor) (chain_id : String) (s : WorkerState C)
        → str_eq hub zero_address ≡ false
        → str_eq hash zero_hash ≡ false
        → Shows setting.to_lower ((node.view s.chain).records id) onchain
        → Keeps adapter setting run registry node quality (IsOutdated admin id hash) s tt
        → Ends
            (submit adapter setting run AnchorAction.update passport input onchain chain_id wallet)
            s
            (Awaits adapter setting run registry node quality (HoldsFor id hash hub))
    unfolding submit
    updates-Ends passport onchain chain_id s real filled shows kept =
        let Owned = IsOwned id hash hub in
        let Holds = HoldsFor id hash hub in
        Ends-then _ _ s (Keeps adapter setting run registry node quality Owned)
          (Awaits adapter setting run registry node quality Holds)
          (elim (Bool-cases (needs_repair adapter setting run onchain.owner wallet.address)) [
            | inl lost ↦ rw lost (repair-Ends passport.organisation_id chain_id s real kept)
            | inr owned ↦ rw owned (
                Ends-done tt s (Keeps adapter setting run registry node quality Owned)
                  (kept.0, needs_repair-IsOwned (node.view s.chain) onchain owned shows kept.1))
          ])
          (λ s1 kept1.
            let (after, takes, held) =
              update_passport_hash-taken id hash hub (node.view s1.chain) filled kept1.1 in
            sends-Ends adapter setting run registry node (adapter.update_passport_hash wallet input)
              s1 quality Holds
              (Executes-some adapter node.view Holds _ after _ _ takes held
                (node.updates wallet id data_hash s1.chain))
              kept1.0)

    registers-Ends :
        (passport : Passport) (onchain : OnchainAnchor) (chain_id : String) (s : WorkerState C)
        → (id == 0) ≡ false
        → str_eq hash zero_hash ≡ false
        → Keeps adapter setting run registry node quality (IsVacant admin id hash) s tt
        → Ends
            (submit adapter setting run AnchorAction.register passport input onchain chain_id
              wallet)
            s
            (Awaits adapter setting run registry node quality (HoldsFor id hash hub))
    unfolding submit
    registers-Ends passport onchain chain_id s named filled kept =
        let Open = IsOpen admin id hash hub in
        let Holds = HoldsFor id hash hub in
        let uri = passport.digital_link_uri or_else setting.api_passport_url id in
        Ends-then _ _ s (Keeps adapter setting run registry node quality Open)
          (Awaits adapter setting run registry node quality Holds)
          (ensure_hub_role-Ends passport.organisation_id s kept)
          (λ s1 kept1.
            let (takes, held) =
              register_passport-taken admin id hash hub (node.view s1.chain) named filled kept1.1 in
            sends-Ends adapter setting run registry node
              (adapter.register_passport wallet input uri) s1 quality Holds
              (Executes-some adapter node.view Holds _ _ _ _ takes held
                (node.registers wallet id data_hash uri s1.chain))
              kept1.0)

    pub submit-Ends :
        (action : AnchorAction) (passport : Passport) (onchain : OnchainAnchor) (chain_id : String)
        (s : WorkerState C)
        → (id == 0) ≡ false
        → str_eq hub zero_address ≡ false
        → str_eq hash zero_hash ≡ false
        → (action ≢ AnchorAction.skip)
        → Keeps adapter setting run registry node quality
            (Calls setting.to_lower admin id hash action onchain)
            s
            tt
        → Ends
            (submit adapter setting run action passport input onchain chain_id wallet)
            s
            (Awaits adapter setting run registry node quality (HoldsFor id hash hub))
    submit-Ends AnchorAction.register passport onchain chain_id s named real filled acts kept =
        registers-Ends passport onchain chain_id s named filled kept
    submit-Ends AnchorAction.update passport onchain chain_id s named real filled acts
          (same, calls) =
        updates-Ends passport onchain chain_id s real filled calls.0 (same, calls.1)
    submit-Ends AnchorAction.skip passport onchain chain_id s named real filled acts kept =
        absurd (acts refl)
