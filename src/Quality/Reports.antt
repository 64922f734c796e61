-- ===== src/Quality/Reports.antt =====
-- packages/api/src/modules/quality/quality.service.ts: filing, reading and flagging reports. The list of
-- materials to inspect and its search by text are left out.
use trace_public.Common.{
  ℕ, Bool, true, false, not, ◌&&◌, Option, none, some, List, String, map, ltb, ◌==◌, is_id, is_some,
  if◌then◌else◌, keep, sort_by,
}
use trace_public.Config.{Role, Grade, PassportStatus, InspectionSource, is_platform_admin}
use trace_public.Errors.{
  Result, ok, ◌>>=◌, ◌>>◌, require, refuse, forbidden, conflict, not_found, Reason, Resource,
}
use trace_public.Store.{Passport, User}
use trace_public.Table.{Table, find, insert, modify, first_where}
use trace_public.Quality.{QualityReport, QualityDb, CreateQualityReport, Reporter}
use trace_public.Quality.Anchors.{CanonicalDocument, reanchor_passport}

-- `inspectionSource` of packages/core/src/constants/config.ts.
abbrev pub inspection_source : Option Role → InspectionSource
inspection_source (some Role.inspector) = InspectionSource.independent
inspection_source (some Role.platform_admin) = InspectionSource.platform
inspection_source _ = InspectionSource.seller

abbrev pub is_seller_source : InspectionSource → Bool
is_seller_source InspectionSource.seller = true
is_seller_source _ = false

abbrev pub role_now : Option User → Option Role
role_now none = none
role_now (some user) = some user.role

-- The role recorded on a report, or else the reporter's role now.
abbrev pub role_of_report : QualityReport → Table User → Option Role
role_of_report report users = elim report.inspector_role [
  | none ↦ role_now (find report.inspector_id users)
  | some role ↦ some role
]

pub record PublicInspector : Type 0 where
  pub name : String
  pub role : Role

-- `PublicQualityReport`: a report as anyone may see it.
pub record PublicQualityReport : Type 0 where
  pub id : ℕ
  pub passport_id : ℕ
  pub structural_score : Option ℕ
  pub aesthetic_score : Option ℕ
  pub environmental_score : Option ℕ
  pub overall_grade : Option Grade
  pub report_notes : Option String
  pub photo_urls : List String
  pub blockchain_tx_hash : Option String
  pub disputed : Bool
  pub created_at : ℕ
  pub inspector : Option PublicInspector
  pub source : InspectionSource

abbrev shown_inspector : Option User → Option Role → Option PublicInspector
shown_inspector none role = none
shown_inspector (some user) none = none
shown_inspector (some user) (some role) = some (record { name = user.name; role = role })

unfoldable pub to_public : Table User → ℕ × QualityReport → PublicQualityReport
unfolding find
to_public users (id, report) =
    let role = role_of_report report users in
    record {
      id = id;
      passport_id = report.passport_id;
      structural_score = report.structural_score;
      aesthetic_score = report.aesthetic_score;
      environmental_score = report.environmental_score;
      overall_grade = report.overall_grade;
      report_notes = report.report_notes;
      photo_urls = report.photo_urls;
      blockchain_tx_hash = report.blockchain_tx_hash;
      disputed = report.disputed;
      created_at = report.created_at;
      inspector = shown_inspector (find report.inspector_id users) role;
      source = inspection_source role;
    }

abbrev pub is_independent : InspectionSource → Bool
is_independent InspectionSource.independent = true
is_independent _ = false

-- The condition of the queries for an independent inspection with a grade.
abbrev pub inspects : ℕ → Table User → QualityReport → Bool
inspects passport_id users report =
    report.passport_id == passport_id
    && is_some report.overall_grade
    && is_independent (inspection_source (role_of_report report users))

unfoldable pub has_independent_inspection : ℕ → QualityDb → Bool
unfolding first_where find
has_independent_inspection passport_id db =
    is_some (first_where (inspects passport_id db.market.users) db.reports)

abbrev pub reports_on_every_organisation : Role → Bool
reports_on_every_organisation Role.inspector = true
reports_on_every_organisation Role.platform_admin = true
reports_on_every_organisation _ = false

abbrev pub is_draft : PassportStatus → Bool
is_draft PassportStatus.draft = true
is_draft _ = false

abbrev same_grade : Grade → Grade → Bool
same_grade Grade.a Grade.a = true
same_grade Grade.b Grade.b = true
same_grade Grade.c Grade.c = true
same_grade Grade.d Grade.d = true
same_grade _ _ = false

abbrev pub is_graded : Option Grade → Grade → Bool
is_graded none grade = false
is_graded (some g) grade = same_grade g grade

abbrev pub new_report : CreateQualityReport → Reporter → ℕ → QualityReport
new_report input inspector now = record {
  passport_id = input.passport_id;
  inspector_id = inspector.id;
  inspector_role = some inspector.role;
  structural_score = input.structural_score;
  aesthetic_score = input.aesthetic_score;
  environmental_score = input.environmental_score;
  overall_grade = some input.overall_grade;
  report_notes = input.report_notes;
  photo_urls = input.photo_urls;
  blockchain_tx_hash = none;
  disputed = false;
  created_at = now;
}

abbrev pub graded : Grade → ℕ → Passport → Passport
graded grade now passport = record passport { condition_grade = some grade; updated_at = now }

-- `disputeReport`: only the holder of the material and the platform may flag a report.
abbrev pub holds : Option Passport → Option ℕ → Bool
holds none organisation_id = false
holds (some passport) organisation_id = is_id organisation_id passport.organisation_id

unfoldable pub dispute_report : ℕ → Reporter → QualityDb → Result (QualityDb × QualityReport)
unfolding find modify
dispute_report report_id viewer db = do
  report ← require (find report_id db.reports) (not_found Resource.quality_report)
  refuse
      (not (holds (find report.passport_id db.market.passports) viewer.organisation_id)
        && not (is_platform_admin viewer.role))
      (forbidden Reason.not_holder)
  refuse report.disputed (conflict Reason.already_flagged)
  ok (
    record db { reports = modify report_id (λ r. record r { disputed = true }) db.reports },
    record report { disputed = true },
  )

module _ (digest : CanonicalDocument → String) (simulate : Bool) where
  -- The update of the material's grade and its fingerprint.
  unfoldable pub regrade : ℕ → Passport → Grade → ℕ → QualityDb → QualityDb
  unfolding modify reanchor_passport
  regrade id passport grade now db =
      reanchor_passport digest simulate id (graded grade now passport) now (record db {
        market = record db.market { passports = modify id (graded grade now) db.market.passports };
      })

  -- The tables once a report is in: `gradeStands`, and the new grade unless it does.
  unfoldable pub filed_report :
      ℕ → CreateQualityReport → Reporter → ℕ → QualityDb → Passport → QualityDb
  unfolding insert regrade has_independent_inspection
  filed_report new_id input inspector now db passport =
      let report = new_report input inspector now in
      let filed : QualityDb = record db { reports = insert new_id report db.reports } in
      let grade_stands =
        is_seller_source (inspection_source (some inspector.role))
        && has_independent_inspection input.passport_id filed in
      let regraded = regrade input.passport_id passport input.overall_grade now filed in
      if not grade_stands && not (is_graded passport.condition_grade input.overall_grade)
      then regraded
      else filed

  unfoldable pub create_quality_report :
      ℕ → CreateQualityReport → Reporter → ℕ → QualityDb → Result (QualityDb × QualityReport)
  unfolding find filed_report
  create_quality_report new_id input inspector now db = do
    passport ← require (find input.passport_id db.market.passports) (not_found Resource.passport)
    refuse (is_draft passport.status) (conflict Reason.not_registered)
    refuse
        (not (reports_on_every_organisation inspector.role)
          && not (is_id inspector.organisation_id passport.organisation_id))
        (forbidden Reason.other_hubs_material)
    ok (filed_report new_id input inspector now db passport, new_report input inspector now)

-- `orderBy: [desc(createdAt)]`.
abbrev newest_reports : Table QualityReport → Table QualityReport
newest_reports reports =
    sort_by (λ (a b : ℕ × QualityReport). ltb a.1.created_at b.1.created_at) reports

unfoldable pub get_reports_by_passport : ℕ → QualityDb → Result (List PublicQualityReport)
unfolding find sort_by to_public
get_reports_by_passport passport_id db = do
  passport ← require (find passport_id db.market.passports) (not_found Resource.passport)
  ok (
      map (to_public db.market.users) (
        newest_reports
          (keep (λ (r : ℕ × QualityReport). r.1.passport_id == passport_id) db.reports)))

unfoldable pub get_report_by_id : ℕ → QualityDb → Result PublicQualityReport
unfolding find to_public
get_report_by_id id db = do
  report ← require (find id db.reports) (not_found Resource.quality_report)
  ok (to_public db.market.users (id, report))
