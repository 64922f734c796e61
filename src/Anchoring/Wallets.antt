-- ===== src/Anchoring/Wallets.antt =====
-- packages/api/src/lib/wallet.ts: the wallet of an organisation, made on first use. The cipher and the
-- random wallet are the argument `Vault`.
use trace_public.Common.{ℕ, Bool, true, false, Option, none, some, String, is_some}
use trace_public.Errors.{Result, ok, err, unexpected}
use trace_public.Table.{find, modify, Table}
use trace_public.Anchoring.{OrganisationKeys, Wallet}

pub record Vault : Type 0 where
  pub encrypt_private_key : String → String
  pub decrypt_private_key : String → Result String
  pub address_of_key : String → String

-- `claimOrganisationWallet`: stores a wallet where there is none.
abbrev pub claimed : Vault → Wallet → OrganisationKeys → OrganisationKeys
claimed vault wallet keys = record {
  blockchain_address = some wallet.address;
  private_key_enc = some (vault.encrypt_private_key wallet.private_key);
}

abbrev pub has_key : Option OrganisationKeys → Bool
has_key none = true
has_key (some keys) = is_some keys.private_key_enc

unfoldable pub claim_organisation_wallet :
    Vault → ℕ → Wallet → Table OrganisationKeys → Table OrganisationKeys × Bool
unfolding find modify
claim_organisation_wallet vault organisation_id wallet table =
    elim (has_key (find organisation_id table)) [
      | true ↦ (table, false)
      | false ↦ (modify organisation_id (claimed vault wallet) table, true)
    ]

abbrev addressed : String → OrganisationKeys → OrganisationKeys
addressed address keys = record keys { blockchain_address = some address }

-- The branch of an organisation that has a key: its address, or else the one of its key, which is then
-- stored.
abbrev with_address :
    Vault
    → ℕ
    → Option String
    → String
    → Table OrganisationKeys
    → Table OrganisationKeys × Result Wallet
with_address vault organisation_id (some known) key table =
    (table, ok (record { address = known; private_key = key }))
with_address vault organisation_id none key table = (
  modify organisation_id (addressed (vault.address_of_key key)) table,
  ok (record { address = vault.address_of_key key; private_key = key }),
)

abbrev with_key :
    Vault
    → ℕ
    → OrganisationKeys
    → Result String
    → Table OrganisationKeys
    → Table OrganisationKeys × Result Wallet
with_key vault organisation_id keys (err e) table = (table, err e)
with_key vault organisation_id keys (ok key) table =
    with_address vault organisation_id keys.blockchain_address key table

-- What `ensureOrganisationWallet` does when it reads a key, and what it reads: no organisation, no key
-- yet, or a wallet.
pub data WalletRead : Type 0 where
  no_organisation no_key : WalletRead
  has_wallet : (table : Table OrganisationKeys) → Result Wallet → WalletRead

abbrev read_result : Table OrganisationKeys × Result Wallet → WalletRead
read_result (table, wallet) = WalletRead.has_wallet table wallet

abbrev read_key : Vault → ℕ → OrganisationKeys → Option String → Table OrganisationKeys → WalletRead
read_key vault organisation_id keys none table = WalletRead.no_key
read_key vault organisation_id keys (some enc) table =
    read_result (with_key vault organisation_id keys (vault.decrypt_private_key enc) table)

unfoldable pub read_wallet : Vault → ℕ → Table OrganisationKeys → WalletRead
unfolding find modify
read_wallet vault organisation_id table = elim (find organisation_id table) [
  | none ↦ WalletRead.no_organisation
  | some keys ↦ read_key vault organisation_id keys keys.private_key_enc table
]

-- `ensureOrganisationWallet`, where nobody else claims between its read and its claim: the claim then
-- stores the wallet `made` that it made.
unfoldable pub ensure_organisation_wallet :
    Vault → Wallet → ℕ → Table OrganisationKeys → Table OrganisationKeys × Result Wallet
unfolding read_wallet claim_organisation_wallet
ensure_organisation_wallet vault made organisation_id table =
    elim (read_wallet vault organisation_id table) [
      | WalletRead.no_organisation ↦ (table, err unexpected)
      | WalletRead.has_wallet table' wallet ↦ (table', wallet)
      | WalletRead.no_key ↦
          ((claim_organisation_wallet vault organisation_id made table).0, ok made)
    ]
