-- ===== src/Quality/Routes.antt =====
-- packages/api/src/modules/quality/quality.routes.ts: the two requests that write, and the guards before
-- them. A score's whole number and a photo's address are checked by the schema library, and a grade by its
-- type.
use trace_public.Market.Routes.{parse}
use trace_public.Common.{
  leb, utf16_length, ◌or_else◌, ◌&&◌, ℕ, Bool, true, not, Option, none, some, List, [], ◌∷◌, String,
}
use trace_public.Config.{Role}
use trace_public.Errors.{Result, ok, err, ◌>>=◌, ◌>>◌, refuse, forbidden, Reason}
use trace_public.Session.{
  Claims, Session, Profile, Method, is_request_allowed, load_session, authorize,
}
use trace_public.Quality.{QualityDb, QualityReport, CreateQualityReport, Reporter}
use trace_public.Quality.Anchors.{CanonicalDocument}
use trace_public.Quality.Reports.{create_quality_report, dispute_report}

pub data QualityCall : Type 0 where
  post_report : (new_id : ℕ) → CreateQualityReport → QualityCall
  post_dispute : (id : ℕ) → QualityCall

-- `z.number().int().min(1).max(10).optional()`.
abbrev is_score : Option ℕ → Bool
is_score none = true
is_score (some n) = leb 1 n && leb n 10

-- `CreateQualityReportSchema` of packages/core/src/validators/quality.schema.ts.
unfoldable pub create_report_schema : CreateQualityReport → Bool
create_report_schema input =
    is_score input.structural_score
    && is_score input.aesthetic_score
    && is_score input.environmental_score
    && leb (utf16_length (input.report_notes or_else "")) 4000

-- `reporterOf`.
abbrev pub reporter_of : Session → Reporter
reporter_of session = record {
  id = session.sub;
  role = session.role;
  organisation_id = session.organisation_id;
}

abbrev pub reporting_roles : List Role
reporting_roles = Role.inspector ∷ Role.hub_admin ∷ Role.platform_admin ∷ []

module _ (digest : CanonicalDocument → String) (simulate : Bool) where
  unfoldable pub serve_quality :
      QualityCall → Session → ℕ → QualityDb → Result (QualityDb × QualityReport)
  unfolding authorize create_quality_report dispute_report
  serve_quality (post_report new_id input) session now db =
      authorize reporting_roles session
      >> parse (create_report_schema input)
      >> create_quality_report digest simulate new_id input (reporter_of session) now db
  serve_quality (post_dispute id) session now db = dispute_report id (reporter_of session) db

  unfoldable pub answer_quality :
      Profile → Option Claims → QualityCall → ℕ → QualityDb → Result (QualityDb × QualityReport)
  unfolding is_request_allowed load_session serve_quality
  answer_quality profile verified call now db =
      refuse (not (is_request_allowed profile Method.post)) (forbidden Reason.read_only)
      >> load_session verified db.market
      >>= λ session. serve_quality call session now db

  -- A refused request writes nothing.
  unfoldable pub handle_quality :
      Profile → Option Claims → QualityCall → ℕ → QualityDb → QualityDb × Result QualityReport
  unfolding answer_quality
  handle_quality profile verified call now db = elim (answer_quality profile verified call now db) [
    | err e ↦ (db, err e)
    | ok (db', report) ↦ (db', ok report)
  ]
