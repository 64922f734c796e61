-- ===== src/Anchoring/Claims.antt =====
-- packages/api/src/lib/wallet.ts: jobs of one organisation that make a wallet for it at the same time.
use trace_public.Common.{
  ℕ, true, false, none, some, List, [], ◌∷◌, ◌≡◌, inl, inr, refl, sym, ◌∙◌, ap, String, is_some,
  Bool-cases,
}
use trace_public.Errors.{ok}
use trace_public.Table.{Table, find}
use trace_public.Table.Search.{find-modify_self, find-modify_split}
use trace_public.Anchoring.{OrganisationKeys, Wallet}
use trace_public.Anchoring.Wallets.{
  Vault, WalletRead, claimed, has_key, claim_organisation_wallet, read_wallet,
}

-- Claims of several jobs, for whatever organisations, one after the other as the database takes them.
unfoldable pub run_claims :
    Vault → List (ℕ × Wallet) → Table OrganisationKeys → Table OrganisationKeys
unfolding claim_organisation_wallet
run_claims vault [] table = table
run_claims vault ((id, wallet) ∷ claims) table =
    run_claims vault claims (claim_organisation_wallet vault id wallet table).0

module _ (vault : Vault) (id : ℕ) (wallet : Wallet) (keys : OrganisationKeys) where
  -- A stored key is not claimed again.
  claim-find :
      (other : ℕ) (theirs : Wallet) (table : Table OrganisationKeys)
      → find id table ≡ some (claimed vault wallet keys)
      → find id (claim_organisation_wallet vault other theirs table).0
        ≡ some (claimed vault wallet keys)
  unfolding claim_organisation_wallet
  claim-find other theirs table stored = elim (Bool-cases (has_key (find other table))) [
    | inl taken ↦ rw (taken, claim_organisation_wallet) stored
    | inr free ↦ elim (find-modify_split other id (claimed vault theirs) table) [
      | inl same ↦ absurd (clash (sym (ap has_key (ap (λ k. find k table) same ∙ stored)) ∙ free))
      | inr kept ↦ rw (free, claim_organisation_wallet) (kept ∙ stored)
    ]
  ]
    where
      clash : true ≡ false → ⊥
      clash e = cc

  run_claims-find :
      (claims : List (ℕ × Wallet)) (table : Table OrganisationKeys)
      → find id table ≡ some (claimed vault wallet keys)
      → find id (run_claims vault claims table) ≡ some (claimed vault wallet keys)
  unfolding run_claims
  run_claims-find [] table stored = stored
  run_claims-find ((other, theirs) ∷ claims) table stored =
      run_claims-find claims _ (claim-find other theirs table stored)

  -- An organisation has no key yet, and a claim of a wallet for it is the first that the database takes:
  -- it succeeds, and whatever claims follow, of the organisation's other jobs too, a job that reads its
  -- wallet afterwards gets that one, where the cipher gives back what it was given.
  pub first_claim_stands :
      (claims : List (ℕ × Wallet)) (table : Table OrganisationKeys)
      → ((key : String) → vault.decrypt_private_key (vault.encrypt_private_key key) ≡ ok key)
      → find id table ≡ some keys
      → keys.private_key_enc ≡ none
      → ((claim_organisation_wallet vault id wallet table).1 ≡ true)
        × (read_wallet vault id
              (run_claims vault claims (claim_organisation_wallet vault id wallet table).0)
            ≡ WalletRead.has_wallet
                (run_claims vault claims (claim_organisation_wallet vault id wallet table).0)
                (ok wallet))
  unfolding claim_organisation_wallet read_wallet
  first_claim_stands claims table opens found no_key =
      let free : has_key (find id table) ≡ false = ap has_key found ∙ ap is_some no_key in
      let stored : find id (claim_organisation_wallet vault id wallet table).0
          ≡ some (claimed vault wallet keys) =
        rw (free, claim_organisation_wallet)
          (find-modify_self id (claimed vault wallet) table found) in
      (
        rw (free, claim_organisation_wallet) refl,
        rw (run_claims-find claims _ stored, read_wallet) (simp (opens wallet.private_key)),
      )
