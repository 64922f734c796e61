-- ===== src/Anchoring/Certificate.antt =====
-- passport.service.ts: `getPassportCertificate`, what the public page says of a material on the chain.
-- The name of its hub is left out.
use trace_public.Common.{
  ℕ, Bool, true, false, not, ◌&&◌, ◌||◌, Option, none, some, List, [], ◌∷◌, String, ◌==◌, ltb,
  is_some, if◌then◌else◌, keep, sort_by,
}
use trace_public.Errors.{Result, ok, ◌>>=◌, Failure}
use trace_public.Table.{Table, find}
use trace_public.Quality.{Anchor}
use trace_public.Passports.{PassportViewer, load_visible_passport, hash_of}
use trace_public.Passports.Reading.{ChainReader, verify_passport, tx_of, anchored_at_of}
use trace_public.Anchoring.{AnchoringDb, ChainTx, TxStatus, TxResource}

-- `PassportCertificate.status`.
pub data CertificateStatus : Type 0 where
  pending verified failed simulated : CertificateStatus

-- `failureReason`: the one of the check, or the one of a transaction.
pub data FailureReason : Type 0 where
  hash_does_not_match : FailureReason
  of_transaction : Failure → FailureReason

pub record PassportCertificate : Type 0 where
  pub passport_id : ℕ
  pub status : CertificateStatus
  pub certificate_hash : Option String
  pub tx_hash : Option String
  pub registered_at : Option ℕ
  pub block_number : Option ℕ
  pub block_id : Option String
  pub onchain_verified : Option Bool
  pub failure_reason : Option FailureReason
  pub last_attempt_at : Option ℕ
  pub chain_id : Option String
  pub network_label : Option String

abbrev is_about : ℕ → TxResource → Bool
is_about id (TxResource.of_passport j) = j == id
is_about id (TxResource.of_organisation j) = false

abbrev latest_of : List (ℕ × ChainTx) → Option ChainTx
latest_of [] = none
latest_of ((id, tx) ∷ rows) = some tx

unfoldable pub latest_chain_tx : ℕ → Table ChainTx → Option ChainTx
unfolding sort_by
latest_chain_tx id chain_txs = latest_of (
    sort_by (λ (a b : ℕ × ChainTx). ltb a.1.created_at b.1.created_at)
      (keep (λ (row : ℕ × ChainTx). is_about id row.1.resource) chain_txs))

abbrev pub is_false : Option Bool → Bool
is_false (some false) = true
is_false _ = false

abbrev pub is_failed : Option ChainTx → Bool
is_failed none = false
is_failed (some tx) = elim tx.status [ TxStatus.failed ↦ true | _ ↦ false ]

-- A fingerprint that was prepared and not submitted.
abbrev pub is_simulated : Option Anchor → Bool
is_simulated anchor =
    not (is_some (tx_of anchor)) && is_some (anchored_at_of anchor) && is_some (hash_of anchor)

abbrev pub is_anchored_on_chain : Option Anchor → Option Bool → Bool
is_anchored_on_chain anchor onchain_verified =
    is_some (tx_of anchor) && is_some (anchored_at_of anchor) && not (is_false onchain_verified)

unfoldable pub certificate_status : Option Anchor → Option Bool → Option ChainTx → CertificateStatus
certificate_status anchor onchain_verified latest =
    if is_anchored_on_chain anchor onchain_verified
    then CertificateStatus.verified
    else if is_simulated anchor
    then CertificateStatus.simulated
    else if is_failed latest || is_false onchain_verified
    then CertificateStatus.failed
    else CertificateStatus.pending

abbrev reason_of : Option ChainTx → Option FailureReason
reason_of none = none
reason_of (some tx) = elim tx.failure_reason [
  | none ↦ none
  | some reason ↦ some (FailureReason.of_transaction reason)
]

abbrev block_number_of : Option ChainTx → Option ℕ
block_number_of none = none
block_number_of (some tx) = tx.block_number

abbrev block_id_of : Option ChainTx → Option String
block_id_of none = none
block_id_of (some tx) = tx.block_id

abbrev attempt_of : Option ChainTx → Option ℕ
attempt_of none = none
attempt_of (some tx) = some tx.updated_at

abbrev pub is_verified : CertificateStatus → Bool
is_verified CertificateStatus.verified = true
is_verified _ = false

-- `label` is `CHAIN_NETWORK_LABEL`.
abbrev pub certificate_of :
    Option String
    → ℕ
    → Option Anchor
    → Option String
    → Option Bool
    → Option ChainTx
    → PassportCertificate
certificate_of label id anchor chain_id onchain_verified latest =
    let status = certificate_status anchor onchain_verified latest in
    record {
      passport_id = id;
      status = status;
      certificate_hash = hash_of anchor;
      tx_hash = tx_of anchor;
      registered_at = anchored_at_of anchor;
      block_number = block_number_of latest;
      block_id = block_id_of latest;
      onchain_verified = onchain_verified;
      failure_reason =
          if is_simulated anchor
          then none
          else if is_false onchain_verified
          then some FailureReason.hash_does_not_match
          else reason_of latest;
      last_attempt_at = attempt_of latest;
      chain_id = if is_verified status then chain_id else none;
      network_label = if is_verified status && is_some chain_id then label else none;
    }

unfoldable pub get_passport_certificate :
    ChainReader
    → Option String
    → ℕ
    → Option PassportViewer
    → AnchoringDb
    → Result PassportCertificate
unfolding find load_visible_passport verify_passport latest_chain_tx certificate_status
get_passport_certificate reader label id viewer db = do
  passport ← load_visible_passport id viewer db.quality
  standing ← verify_passport reader id db.quality
  ok (
      certificate_of label id (find id db.quality.anchors) passport.chain_id
        standing.onchain_verified (latest_chain_tx id db.chain_txs))
