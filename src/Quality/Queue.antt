-- ===== src/Quality/Queue.antt =====
-- packages/api/src/modules/quality/quality.service.ts: the conditions of the materials to inspect and the
-- numbers of a reporter's dashboard (`inspectionConditions`, `getInspectionSummary`). The search by
-- text and by category, and the pages of the list, are left out.
use trace_public.Common.{
  ℕ, ◌+◌, Bool, true, false, not, ◌&&◌, ◌||◌, [], ◌∷◌, ◌==◌, is_id, is_some, if◌then◌else◌,
}
use trace_public.Store.{Passport, User}
use trace_public.Table.{Table, find, first_where, count_where}
use trace_public.Quality.{QualityDb, QualityReport, Reporter}
use trace_public.Quality.Reports.{
  role_of_report, is_independent, inspection_source, reports_on_every_organisation, is_draft,
}

-- `independentReportsOf`: a report by an inspector, with a grade or without.
abbrev pub inspects_any : ℕ → Table User → QualityReport → Bool
inspects_any passport_id users report =
    report.passport_id == passport_id
    && is_independent (inspection_source (role_of_report report users))

unfoldable pub inspection_conditions : Bool → Reporter → QualityDb → ℕ → Passport → Bool
unfolding find first_where
inspection_conditions uninspected reporter db id passport =
    not (is_draft passport.status)
    && (reports_on_every_organisation reporter.role
        || is_id reporter.organisation_id passport.organisation_id)
    && (not uninspected || not (is_some (first_where (inspects_any id db.market.users) db.reports)))

-- `count(*)` of the materials that satisfy the conditions.
unfoldable pub count_materials : (ℕ → Passport → Bool) → Table Passport → ℕ
count_materials p [] = 0
count_materials p ((id, passport) ∷ t) = (if p id passport then 1 else 0) + count_materials p t

pub record InspectionSummary : Type 0 where
  pub materials : ℕ
  pub not_independently_inspected : ℕ
  pub my_reports : ℕ

unfoldable pub get_inspection_summary : Reporter → QualityDb → InspectionSummary
unfolding count_where inspection_conditions count_materials
get_inspection_summary reporter db = record {
  materials = count_materials (inspection_conditions false reporter db) db.market.passports;
  not_independently_inspected =
      count_materials (inspection_conditions true reporter db) db.market.passports;
  my_reports = count_where (λ (r : QualityReport). r.inspector_id == reporter.id) db.reports;
}
