-- ===== src/Anchoring/Decided.antt =====
-- packages/api/src/lib/anchor-decision.ts on what packages/contracts/contracts/MaterialRegistry.sol holds.
use text.Mathlib.Text.{◌==◌ as str_eq}
use text.Mathlib.TextEquality.{eq_iff}
use trace_public.Common.{
  ℕ, true, false, none, some, String, ◌≡◌, inl, inr, sym, ap, ◌∙◌, Bool-cases, Option-cases, subst,
  true_is_false, some-injective,
}
use trace_public.Anchoring.Chain.{OnchainAnchor}
use trace_public.Anchoring.Registry.{Registry, PassportRecord}
use trace_public.Anchoring.Taken.{IsRunning, IsVacant, IsOutdated}
use trace_public.Anchoring.Index.{IsIndexed, free_hash}
use trace_public.Anchoring.Node.{Shows}
use trace_public.Anchoring.Ledger.{AnchorAction, decide_anchor_action}

-- No other material has this fingerprint in the registry.
abbrev pub IsAlone : ℕ → String → Registry → Type 0
IsAlone id hash r =
    (j : ℕ) (rec : PassportRecord) → r.records j ≡ some rec → rec.data_hash ≡ hash → j ≡ id

-- What the registry holds when the worker decides on this action.
abbrev pub Calls :
    (String → String) → String → ℕ → String → AnchorAction → OnchainAnchor → Registry → Type 0
Calls to_lower deployer id hash AnchorAction.register onchain r = IsVacant deployer id hash r
Calls to_lower deployer id hash AnchorAction.update onchain r =
    Shows to_lower (r.records id) onchain × IsOutdated deployer id hash r
Calls to_lower deployer id hash AnchorAction.skip onchain r =
    (rec : PassportRecord) × (r.records id ≡ some rec) × (rec.data_hash ≡ hash)

module _ (to_lower : String → String) (deployer : String) (id : ℕ) (data_hash : String)
    (r : Registry) (onchain : OnchainAnchor) (live : IsRunning deployer r) (indexed : IsIndexed r)
    (alone : IsAlone id (to_lower data_hash) r) where
  abbrev Decides : Type 0
  Decides =
      Calls to_lower deployer id (to_lower data_hash)
        (decide_anchor_action to_lower onchain data_hash) onchain r

  decides_new : r.records id ≡ none → onchain.registered ≡ false → Decides
  unfolding decide_anchor_action
  decides_new vacant new = rw new (
    live,
    vacant,
    free_hash r id (to_lower data_hash) indexed (λ rec found same. absurd (cc)) alone,
  )

  decides_known :
      (rec : PassportRecord) (hash : String)
      → r.records id ≡ some rec
      → Shows to_lower (r.records id) onchain
      → onchain.registered ≡ true
      → onchain.data_hash ≡ some hash
      → to_lower hash ≡ rec.data_hash
      → Decides
  unfolding decide_anchor_action
  decides_known rec hash found shows registered stored same =
      elim (Bool-cases (str_eq (to_lower hash) (to_lower data_hash))) [
        | inl current ↦
            rw (registered, stored, current)
              (rec, found, sym same ∙ (eq_iff (to_lower hash) (to_lower data_hash)).0 current)
        | inr old ↦
            let differs : (other : PassportRecord)
                → r.records id ≡ some other
                → other.data_hash ≡ to_lower data_hash
                → ⊥ =
              λ other there equal.
                let it = some-injective (sym found ∙ there) in
                let equal' = same ∙ (ap (λ (z : PassportRecord). z.data_hash) it ∙ equal) in
                true_is_false
                  (sym ((eq_iff (to_lower hash) (to_lower data_hash)).1 equal') ∙ old) in
            let free = free_hash r id (to_lower data_hash) indexed differs alone in
            let updates : decide_anchor_action to_lower onchain data_hash ≡ AnchorAction.update =
              simp (registered, stored, old) in
            subst (λ action. Calls to_lower deployer id (to_lower data_hash) action onchain r)
              (sym updates) (shows, (live, (rec, found), free))
      ]

  pub decides : Shows to_lower (r.records id) onchain → Decides
  decides shows = elim (Option-cases (r.records id)) [
    | inl vacant ↦ decides_new vacant (subst (λ o. Shows to_lower o onchain) vacant shows)
    | inr (rec, found) ↦
        let shown : Shows to_lower (some rec) onchain =
          subst (λ o. Shows to_lower o onchain) found shows in
        let (registered, (hash, stored, same), owned) = shown in
        decides_known rec hash found shows registered stored same
  ]
