-- ===== src/Anchoring/Unsealed.antt =====
-- passport.service.ts: the certificate of a material after an edit, on a deployment with a live chain.
use trace_public.Common.{
  ℕ, true, false, Option, none, some, ◌≡◌, ◌⊎◌, inl, inr, refl, ap, subst, String, Bool-cases,
}
use trace_public.Errors.{ok, ok-injective, >>=-eq-ok}
use trace_public.Store.{Passport}
use trace_public.Table.{find}
use trace_public.Table.Search.{find-modify_self}
use trace_public.Quality.{QualityDb, Anchor}
use trace_public.Quality.Anchors.{CanonicalDocument, no_anchor}
use trace_public.Passports.{PassportViewer}
use trace_public.Passports.Edits.{update_passport, may_edit}
use trace_public.Passports.Inputs.{UpdatePassport}
use trace_public.Passports.Reading.{ChainReader}
use trace_public.Anchoring.{AnchoringDb}
use trace_public.Anchoring.Certificate.{
  CertificateStatus, PassportCertificate, certificate_status, get_passport_certificate,
  latest_chain_tx, is_failed,
}
use trace_public.Anchoring.Certified.{made_of}

module _ (digest : CanonicalDocument → String) where
  edit_clears :
      (id : ℕ) (input : UpdatePassport) (user_id organisation_id now : ℕ) (db db' : QualityDb)
      (answer : Passport) (anchor : Anchor)
      → find id db.anchors ≡ some anchor
      → update_passport digest false id input user_id organisation_id now db ≡ ok (db', answer)
      → find id db'.anchors ≡ some no_anchor
  unfolding update_passport
  edit_clears id input user_id organisation_id now db db' answer anchor columns h =
      let (old, let_through, made) = >>=-eq-ok (may_edit id input organisation_id db) _ h in
      subst (λ d. find id d.anchors ≡ some no_anchor) (ap (λ p. p.0) (ok-injective made))
        (find-modify_self id (λ _. no_anchor) db.anchors columns)

  -- Where the chain is not simulated, the certificate that anybody is answered after an edit that
  -- succeeded, before its job has run, is pending, or failed where the last transaction of the material
  -- failed: never verified, and never simulated. It has no fingerprint, no transaction and no chain.
  pub edits_unseal :
      (id : ℕ) (input : UpdatePassport) (user_id organisation_id now : ℕ) (db db' : AnchoringDb)
      (answer : Passport) (anchor : Anchor) (reader : ChainReader) (label : Option String)
      (viewer : Option PassportViewer) (c : PassportCertificate)
      → find id db.quality.anchors ≡ some anchor
      → update_passport digest false id input user_id organisation_id now db.quality
        ≡ ok (db'.quality, answer)
      → get_passport_certificate reader label id viewer db' ≡ ok c
      → ((c.status ≡ CertificateStatus.pending)
          ⊎ ((c.status ≡ CertificateStatus.failed)
              × (is_failed (latest_chain_tx id db'.chain_txs) ≡ true)))
        × (c.certificate_hash ≡ none)
        × (c.tx_hash ≡ none)
        × (c.chain_id ≡ none)
  unfolding certificate_status
  edits_unseal id input user_id organisation_id now db db' answer anchor reader label viewer c
        columns edit h =
      let (passport, same) = made_of reader label id viewer db' c h in
      let gone =
        edit_clears id input user_id organisation_id now db.quality db'.quality answer anchor
          columns edit in
      elim (Bool-cases (is_failed (latest_chain_tx id db'.chain_txs))) [
        | inl bad ↦ rw same (rw (gone, bad) (inr (refl, refl), refl, refl, refl))
        | inr fine ↦ rw same (rw (gone, fine) (inl refl, refl, refl, refl))
      ]
