-- ===== src/Tests/Certificates.antt =====
-- Certificates, run: after an anchoring, after an edit, after a late confirmation, and of a draft.
use trace_public.Common.{true, false, [], ◌∷◌, Option, none, some, ◌≡◌, ◌⊎◌, refl, String}
use trace_public.Config.{PassportStatus}
use trace_public.Errors.{ok, err, not_found, Resource}
use trace_public.Store.{Passport, EventData}
use trace_public.Table.{find, modify}
use trace_public.Quality.{Anchor}
use trace_public.Quality.Anchors.{compute_passport_hash, no_anchor}
use trace_public.Passports.{PassportViewer, verify_passport_integrity, load_visible_passport}
use trace_public.Passports.Edits.{
  update_passport, may_edit, edited, amend, log_event, anchor_or_queue,
}
use trace_public.Passports.Reading.{
  ChainReader, get_passport_by_id, get_passport_verification, get_passport_history, verify_passport,
}
use trace_public.Anchoring.{AnchoringDb}
use trace_public.Anchoring.Certificate.{
  CertificateStatus, PassportCertificate, get_passport_certificate, certificate_of, is_failed,
  latest_chain_tx,
}
use trace_public.Anchoring.Certified.{IsHonest, get_passport_certificate-IsHonest}
use trace_public.Anchoring.Chain.{OnchainAnchor}
use trace_public.Anchoring.Drafts.{drafts_are_not_found}
use trace_public.Anchoring.Jobs.{process_anchor_job}
use trace_public.Anchoring.Late.{late_confirmation_reads_simulated}
use trace_public.Anchoring.Ledger.{WorkerState, AnchorAction, decide_anchor_action, anchoring_tx}
use trace_public.Anchoring.Unsealed.{edits_unseal}
use trace_public.Tests.Anchoring.{adapter, setting, run, worker, timber_found, columns_found, keys}
use trace_public.Tests.Passports.{new_notes}
use trace_public.Tests.Quality.{digest, db_start}
use trace_public.Tests.Samples.{timber}

abbrev reader : ChainReader
reader = record {
  registry_address = some "0xregistry";
  verify_on_chain = λ registry id hash. some true;
}

-- The material with its fingerprint on the chain.
abbrev sealed_anchor : Anchor
sealed_anchor = record {
  passport_hash = some "0x00";
  tx_hash = some "0x01";
  anchored_at = some 5000;
}

abbrev db_sealed : AnchoringDb
db_sealed = record {
  quality = record db_start { anchors = (10, sealed_anchor) ∷ [] };
  keys = keys;
  chain_txs = [];
}

abbrev certificate : PassportCertificate
certificate = certificate_of (some "Thor") 10 (some sealed_anchor) none (some true) none

certified : get_passport_certificate reader (some "Thor") 10 none db_sealed ≡ ok certificate
unfolding get_passport_certificate load_visible_passport verify_passport find latest_chain_tx
certified = refl

get_passport_certificate-IsHonest_example : IsHonest certificate
get_passport_certificate-IsHonest_example =
    get_passport_certificate-IsHonest reader (some "Thor") 10 none db_sealed certificate certified

abbrev db_amended : AnchoringDb
db_amended = record db_sealed {
  quality =
      anchor_or_queue digest false 10 (edited new_notes 6000 timber) (some 6000) 6000
        (log_event 10 (EventData.amended "0x00") 5 (amend 10 new_notes 6000 db_sealed.quality));
}

amends :
    update_passport digest false 10 new_notes 5 7 6000 db_sealed.quality
    ≡ ok (db_amended.quality, edited new_notes 6000 timber)
unfolding update_passport may_edit find compute_passport_hash
amends = refl

abbrev unsealed : PassportCertificate
unsealed = certificate_of (some "Thor") 10 (some no_anchor) none none none

unsealed_certified : get_passport_certificate reader (some "Thor") 10 none db_amended ≡ ok unsealed
unfolding get_passport_certificate load_visible_passport verify_passport find modify latest_chain_tx
unsealed_certified = refl

sealed_columns : find 10 db_sealed.quality.anchors ≡ some sealed_anchor
unfolding find
sealed_columns = refl

edits_unseal_example :
    ((unsealed.status ≡ CertificateStatus.pending)
      ⊎ ((unsealed.status ≡ CertificateStatus.failed)
          × (is_failed (latest_chain_tx 10 db_amended.chain_txs) ≡ true)))
    × (unsealed.certificate_hash ≡ none)
    × (unsealed.tx_hash ≡ none)
    × (unsealed.chain_id ≡ none)
edits_unseal_example =
    edits_unseal digest 10 new_notes 5 7 6000 db_sealed db_amended (edited new_notes 6000 timber)
      sealed_anchor reader (some "Thor") none unsealed sealed_columns amends unsealed_certified

abbrev held : OnchainAnchor
held = record { registered = true; data_hash = some "0x00"; owner = none }

skips :
    decide_anchor_action setting.to_lower held (compute_passport_hash setting.digest 10 timber)
    ≡ AnchorAction.skip
unfolding decide_anchor_action compute_passport_hash
skips = refl

unlogged :
    anchoring_tx 10
      (compute_passport_hash setting.digest 10 timber)
      (worker (some "0x00")).db.chain_txs
    ≡ none
unfolding anchoring_tx
unlogged = refl

late_confirmation_reads_simulated_example :
    (s' : WorkerState (Option String)) × (process_anchor_job adapter setting run 10
        (worker (some "0x00"))
      ≡ (s', ok tt))
    × ((r : ChainReader) (label : Option String) (viewer : Option PassportViewer)
          (c : PassportCertificate)
        → get_passport_certificate r label 10 viewer s'.db ≡ ok c
        → c.status ≡ CertificateStatus.simulated)
late_confirmation_reads_simulated_example =
    late_confirmation_reads_simulated adapter setting run 10 timber no_anchor held "0xregistry"
      "vechain:solo" (worker (some "0x00")) refl timber_found columns_found refl refl refl skips
      unlogged

abbrev draft : Passport
draft = record timber { status = PassportStatus.draft }

abbrev db_draft : AnchoringDb
db_draft = record db_sealed {
  quality = record db_start { market = record db_start.market { passports = (10, draft) ∷ [] } };
}

draft_found : find 10 db_draft.quality.market.passports ≡ some draft
unfolding find
draft_found = refl

drafts_are_not_found_example :
    (get_passport_by_id 10 none 1000 db_draft.quality ≡ err (not_found Resource.passport))
    × (get_passport_verification reader 10 none 1000 db_draft.quality
        ≡ err (not_found Resource.passport))
    × (verify_passport_integrity digest 10 none db_draft.quality
        ≡ err (not_found Resource.passport))
    × (get_passport_certificate reader (some "Thor") 10 none db_draft
        ≡ err (not_found Resource.passport))
    × (get_passport_history 10 none db_draft.quality ≡ err (not_found Resource.passport))
drafts_are_not_found_example =
    drafts_are_not_found digest reader (some "Thor") 10 none 1000 db_draft draft draft_found refl
      refl
