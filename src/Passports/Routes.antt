-- ===== src/Passports/Routes.antt =====
-- packages/api/src/modules/passport/passport.routes.ts: the requests that register a material and that
-- edit one, and the guards before them. The audit record is left out.
use trace_public.Common.{ℕ, Bool, not, Option, String}
use trace_public.Errors.{
  Result, ok, err, ◌>>=◌, ◌>>◌, require, refuse, forbidden, validation, Reason,
}
use trace_public.Session.{
  Claims, Session, Profile, Method, is_request_allowed, load_session, authorize,
}
use trace_public.Store.{Passport}
use trace_public.Market.Routes.{parse, selling_roles}
use trace_public.Quality.{QualityDb}
use trace_public.Quality.Anchors.{CanonicalDocument}
use trace_public.Passports.Inputs.{
  CreatePassport, UpdatePassport, create_passport_schema, update_passport_schema,
}
use trace_public.Passports.Edits.{Issuer, create_passport, update_passport}

pub data PassportCall : Type 0 where
  post_passport : (new_id : ℕ) → CreatePassport → PassportCall
  patch_passport : (id : ℕ) → UpdatePassport → PassportCall

abbrev pub method_of_passport : PassportCall → Method
method_of_passport (post_passport new_id input) = Method.post
method_of_passport (patch_passport id input) = Method.patch

-- The role of the session, the body, then the session's organisation.
unfoldable pub seller_organisation : Bool → Session → Result ℕ
unfolding authorize
seller_organisation valid session =
    authorize selling_roles session
    >> parse valid
    >> require session.organisation_id (validation Reason.no_organisation)

-- The state to go back to where a handler throws before it writes.
abbrev pub or_stay : QualityDb → Result (QualityDb × Passport) → QualityDb × Result Passport
or_stay db (err e) = (db, err e)
or_stay db (ok (db', passport)) = (db', ok passport)

module _ (digest : CanonicalDocument → String) (simulate : Bool) (issuer : Issuer) where
  unfoldable pub serve_passport :
      PassportCall → Session → ℕ → QualityDb → QualityDb × Result Passport
  unfolding seller_organisation create_passport update_passport create_passport_schema
      update_passport_schema
  serve_passport (post_passport new_id input) session now db =
      elim (seller_organisation (create_passport_schema input) session) [
        | err e ↦ (db, err e)
        | ok organisation ↦
            create_passport digest simulate issuer new_id input session.sub organisation now db
      ]
  serve_passport (patch_passport id input) session now db = or_stay db (
      seller_organisation (update_passport_schema input) session >>= λ organisation.
      update_passport digest simulate id input session.sub organisation now db)

  unfoldable pub handle_passport :
      Profile → Option Claims → PassportCall → ℕ → QualityDb → QualityDb × Result Passport
  unfolding is_request_allowed load_session serve_passport
  handle_passport profile verified call now db =
      elim (refuse (not (is_request_allowed profile (method_of_passport call)))
          (forbidden Reason.read_only)
        >> load_session verified db.market) [
          | err e ↦ (db, err e)
          | ok session ↦ serve_passport call session now db
        ]
