-- ===== src/Anchoring/Drafts.antt =====
-- passport.service.ts: the public reads of a draft.
use trace_public.Common.{ℕ, true, false, Option, some, ◌≡◌, refl, is_id, String}
use trace_public.Errors.{err, not_found, Resource}
use trace_public.Store.{Passport}
use trace_public.Table.{find}
use trace_public.Quality.Anchors.{CanonicalDocument}
use trace_public.Quality.Reports.{is_draft}
use trace_public.Passports.{PassportViewer, organisation_of, verify_passport_integrity}
use trace_public.Passports.Privacy.{load_visible_passport-draft}
use trace_public.Passports.Reading.{
  ChainReader, get_passport_by_id, get_passport_verification, get_passport_history,
}
use trace_public.Anchoring.{AnchoringDb}
use trace_public.Anchoring.Certificate.{get_passport_certificate}

-- A draft is not found, on each of the five public requests, by anybody who is not of its organisation,
-- signed in or not, a platform administrator too.
pub drafts_are_not_found :
    (digest : CanonicalDocument → String) (reader : ChainReader) (label : Option String) (id : ℕ)
    (viewer : Option PassportViewer) (now : ℕ) (db : AnchoringDb) (passport : Passport)
    → find id db.quality.market.passports ≡ some passport
    → is_draft passport.status ≡ true
    → is_id (organisation_of viewer) passport.organisation_id ≡ false
    → (get_passport_by_id id viewer now db.quality ≡ err (not_found Resource.passport))
      × (get_passport_verification reader id viewer now db.quality
          ≡ err (not_found Resource.passport))
      × (verify_passport_integrity digest id viewer db.quality ≡ err (not_found Resource.passport))
      × (get_passport_certificate reader label id viewer db ≡ err (not_found Resource.passport))
      × (get_passport_history id viewer db.quality ≡ err (not_found Resource.passport))
unfolding get_passport_by_id get_passport_verification verify_passport_integrity
    get_passport_certificate get_passport_history
drafts_are_not_found digest reader label id viewer now db passport found draft other =
    let hidden = load_visible_passport-draft id viewer db.quality passport found draft other in
    (
      rw (hidden, get_passport_by_id) refl,
      rw (hidden, get_passport_verification) refl,
      rw (hidden, verify_passport_integrity) refl,
      rw (hidden, get_passport_certificate) refl,
      rw (hidden, get_passport_history) refl,
    )
