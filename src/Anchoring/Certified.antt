-- ===== src/Anchoring/Certified.antt =====
-- passport.service.ts and packages/api/src/workers/anchor-passport.worker.ts: when a certificate says
-- what.
use trace_public.Common.{
  ℕ, Bool, true, false, not, ◌&&◌, ◌||◌, Option, none, some, String, ◌≡◌, ◌≢◌, inl, inr, refl, sym,
  ◌∙◌, ap, subst, is_some, Bool-cases, true_is_false,
}
use trace_public.Errors.{ok, >>=-eq-ok, require-eq-ok, ok-injective}
use trace_public.Store.{Passport}
use trace_public.Table.{find}
use trace_public.Quality.{Anchor}
use trace_public.Passports.{PassportViewer, load_visible_passport, hash_of}
use trace_public.Passports.Reading.{
  ChainReader, Standing, verify_passport, standing_of, tx_of, anchored_at_of, ask_chain,
}
use trace_public.Anchoring.{AnchoringDb, ChainTx}
use trace_public.Anchoring.Certificate.{
  is_false, is_failed, CertificateStatus, PassportCertificate, certificate_status, certificate_of,
  get_passport_certificate, latest_chain_tx, is_simulated, is_anchored_on_chain,
}

-- What a certificate is made of.
pub made_of :
    (reader : ChainReader) (label : Option String) (id : ℕ) (viewer : Option PassportViewer)
    (db : AnchoringDb) (c : PassportCertificate)
    → get_passport_certificate reader label id viewer db ≡ ok c
    → (passport : Passport) × (c
        ≡ certificate_of label id
            (find id db.quality.anchors)
            passport.chain_id
            (standing_of reader id (find id db.quality.anchors)).onchain_verified
            (latest_chain_tx id db.chain_txs))
unfolding get_passport_certificate verify_passport
made_of reader label id viewer db c h =
    let (passport, loaded, h1) = >>=-eq-ok (load_visible_passport id viewer db.quality) _ h in
    let (standing, stood, h2) = >>=-eq-ok (verify_passport reader id db.quality) _ h1 in
    let (row, found, h3) = require-eq-ok (find id db.quality.market.passports) _ _ stood in
    let same : standing_of reader id (find id db.quality.anchors) ≡ standing = ok-injective h3 in
    (
      passport,
      sym (ok-injective h2)
          ∙ ap
              (λ (st : Standing).
                certificate_of label id (find id db.quality.anchors) passport.chain_id
                  st.onchain_verified (latest_chain_tx id db.chain_txs))
              (sym same),
    )

-- Where a certificate names the chain, and where it is simulated.
abbrev pub IsHonest : PassportCertificate → Type 0
IsHonest c =
    (c.status ≡ CertificateStatus.verified
      → (is_some c.tx_hash ≡ true)
        × (is_some c.registered_at ≡ true)
        × (c.onchain_verified ≢ some false))
    × (c.status ≢ CertificateStatus.verified → (c.chain_id ≡ none) × (c.network_label ≡ none))
    × (c.status ≡ CertificateStatus.simulated
        → (c.tx_hash ≡ none)
          × (c.failure_reason ≡ none)
          × (c.onchain_verified ≡ none)
          × (is_some c.certificate_hash ≡ true))

-- Neither verified nor simulated.
unsettled :
    (label : Option String) (id : ℕ) (anchor : Option Anchor) (chain_id : Option String)
    (asked : Option Bool) (latest : Option ChainTx)
    → is_anchored_on_chain anchor asked ≡ false
    → is_simulated anchor ≡ false
    → IsHonest (certificate_of label id anchor chain_id asked latest)
unfolding certificate_status
unsettled label id anchor chain_id asked latest off unsimulated =
    elim (Bool-cases (is_failed latest || is_false asked)) [
      | inl bad ↦
          simp (off, unsimulated, bad)
            ((
              λ e. absurd (failed_not_verified e),
              λ e. (refl, refl),
              λ e. absurd (failed_not_simulated e),
            ))
      | inr fine ↦
          simp (off, unsimulated, fine)
            ((
              λ e. absurd (pending_not_verified e),
              λ e. (refl, refl),
              λ e. absurd (pending_not_simulated e),
            ))
    ]
  where
    failed_not_verified : CertificateStatus.failed ≡ CertificateStatus.verified → ⊥
    failed_not_verified e = cc

    failed_not_simulated : CertificateStatus.failed ≡ CertificateStatus.simulated → ⊥
    failed_not_simulated e = cc

    pending_not_verified : CertificateStatus.pending ≡ CertificateStatus.verified → ⊥
    pending_not_verified e = cc

    pending_not_simulated : CertificateStatus.pending ≡ CertificateStatus.simulated → ⊥
    pending_not_simulated e = cc

three : (a b c : Bool) → (a && b && c) ≡ true → (a ≡ true) × (b ≡ true) × (c ≡ true)
three true true true h = (refl, refl, refl)
three true true false h = cc
three true false c h = cc
three false b c h = cc

not_some : (o : Option String) → not (is_some o) ≡ true → o ≡ none
not_some none h = refl
not_some (some x) h = cc

unasked :
    (reader : ChainReader) (id : ℕ) (hash tx : Option String)
    → tx ≡ none
    → ask_chain reader id hash tx ≡ none
unasked reader id none tx h = refl
unasked reader id (some stored) none h = refl
unasked reader id (some stored) (some tx) h = cc

verified_is_not_simulated : CertificateStatus.verified ≡ CertificateStatus.simulated → ⊥
verified_is_not_simulated e = cc

certificate_of-IsHonest :
    (reader : ChainReader) (label : Option String) (id : ℕ) (anchor : Option Anchor)
    (chain_id : Option String) (latest : Option ChainTx)
    → IsHonest (
        certificate_of label id anchor chain_id
          (standing_of reader id anchor).onchain_verified
          latest)
unfolding certificate_status
certificate_of-IsHonest reader label id anchor chain_id latest =
    let asked = ask_chain reader id (hash_of anchor) (tx_of anchor) in
    elim (Bool-cases (is_anchored_on_chain anchor asked)) [
      | inl on ↦
          let (tx, at, fits) =
            three (is_some (tx_of anchor)) (is_some (anchored_at_of anchor)) (not (is_false asked))
              on in
          simp on (
            (
              λ e. (tx, at, λ denied. true_is_false (sym fits ∙ ap (λ o. not (is_false o)) denied)),
              λ ne. absurd (ne refl),
              λ e. absurd (verified_is_not_simulated e),
            ))
      | inr off ↦ elim (Bool-cases (is_simulated anchor)) [
        | inl prepared ↦
            let (no_tx, at, hash) =
              three (not (is_some (tx_of anchor))) (is_some (anchored_at_of anchor))
                (is_some (hash_of anchor)) prepared in
            let gone = not_some (tx_of anchor) no_tx in
            simp (off, prepared)
              ((
                λ e. absurd (verified_is_not_simulated (sym e)),
                λ ne. (refl, refl),
                λ e. (gone, refl, unasked reader id (hash_of anchor) (tx_of anchor) gone, hash),
              ))
        | inr live ↦ unsettled label id anchor chain_id asked latest off live
      ]
    ]

-- Whatever certificate a viewer is answered: one that is verified has a transaction and a time, and the
-- chain, where it was asked, did not deny the fingerprint; one that is not verified names no chain and
-- no network; and one that is simulated has a fingerprint, no transaction, no reason of a failure, and
-- the chain was not asked.
pub get_passport_certificate-IsHonest :
    (reader : ChainReader) (label : Option String) (id : ℕ) (viewer : Option PassportViewer)
    (db : AnchoringDb) (c : PassportCertificate)
    → get_passport_certificate reader label id viewer db ≡ ok c
    → IsHonest c
get_passport_certificate-IsHonest reader label id viewer db c h =
    let (passport, same) = made_of reader label id viewer db c h in
    subst IsHonest (sym same) (
      certificate_of-IsHonest reader label id (find id db.quality.anchors) passport.chain_id
        (latest_chain_tx id db.chain_txs))
