-- ===== src/Tests/Quality.antt =====
-- Reports of inspections, run: an inspector grades a material, then its hub files a check of its own.
use trace_public.Common.{
  true, false, [], ◌∷◌, none, some, ◌≡◌, refl, sym, String, ◌==◌, inl, inr, ap, Bool-cases,
  some-injective,
}
use trace_public.Config.{Role, Grade}
use trace_public.Errors.{ok, ok-injective}
use trace_public.Session.{Profile, Session, load_session, load_user}
use trace_public.Table.{find, insert, first_where}
use trace_public.Market.Invariant.{IsSound}
use trace_public.Market.Invariant.Reach.{opening, opening-IsSound}
use trace_public.Quality.{Reporter, QualityDb, CreateQualityReport, Anchor}
use trace_public.Quality.Anchors.{CanonicalDocument}
use trace_public.Quality.Reports.{
  new_report, has_independent_inspection, reports_on_every_organisation, create_quality_report,
}
use trace_public.Quality.Routes.{create_report_schema, QualityCall, handle_quality}
use trace_public.Quality.Seals.{AllSealed, seals_stay_fresh}
use trace_public.Passports.{PassportIntegrityResult, verify_passport_integrity}
use trace_public.Tests.Samples.{passports}
use trace_public.Tests.People.{people, claims_of}

abbrev pub digest : CanonicalDocument → String
digest document = "0x00"

abbrev pub report : Grade → CreateQualityReport
report grade = record {
  passport_id = 10;
  structural_score = some 8;
  aesthetic_score = none;
  environmental_score = none;
  overall_grade = grade;
  report_notes = none;
  photo_urls = [];
}

abbrev pub db_start : QualityDb
db_start = record {
  market = opening passports people;
  anchors = (10, record { passport_hash = none; tx_hash = none; anchored_at = none }) ∷ [];
  reports = [];
  jobs = [];
}

abbrev pub inspect : QualityCall
inspect = QualityCall.post_report 60 (report Grade.b)

abbrev pub check : QualityCall
check = QualityCall.post_report 61 (report Grade.a)

abbrev pub db_inspected : QualityDb
db_inspected =
    (handle_quality digest true Profile.self_hosted (claims_of 4) inspect 1000 db_start).0

abbrev db_checked : QualityDb
db_checked =
    (handle_quality digest true Profile.self_hosted (claims_of 5) check 2000 db_inspected).0

pub inspected : has_independent_inspection 10 db_inspected ≡ true
unfolding handle_quality has_independent_inspection create_quality_report find insert first_where
    load_session load_user create_report_schema
inspected = refl

pub hub_session :
    (session : Session)
    → load_session (claims_of 5) db_inspected.market ≡ ok session
    → reports_on_every_organisation session.role ≡ false
unfolding handle_quality has_independent_inspection create_quality_report find insert first_where
    load_session load_user create_report_schema
hub_session session h =
    ap (λ (s : Session). reports_on_every_organisation s.role) (sym (ok-injective h))

pub sealed : AllSealed digest db_start.market.passports db_start.anchors
unfolding find
sealed id passport anchor e e' = elim (Bool-cases (10 == id)) [
  | inl here ↦
      inl (ap (λ (a : Anchor). a.passport_hash) (sym (some-injective (rw (here, find) at e'))))
  | inr there ↦ absurd (missing (rw (there, find) at e'))
]
  where
    missing : {a : Anchor} → none ≡ some a → ⊥
    missing h = cc

seals_stay_fresh_example :
    AllSealed digest db_inspected.market.passports db_inspected.anchors
    × IsSound db_inspected.market
seals_stay_fresh_example =
    seals_stay_fresh digest true Profile.self_hosted (claims_of 4) inspect 1000 db_start sealed
      (opening-IsSound passports people)

abbrev inspector : Reporter
inspector = record { id = 4; role = Role.inspector; organisation_id = none }

inspection :
    create_quality_report digest true 60 (report Grade.b) inspector 1000 db_start
    ≡ ok (db_inspected, new_report (report Grade.b) inspector 1000)
unfolding handle_quality has_independent_inspection create_quality_report find insert first_where
    load_session load_user create_report_schema
inspection = refl

abbrev seal_checked : PassportIntegrityResult
seal_checked = record {
  matches = true;
  pending = false;
  recomputed_hash = "0x00";
  stored_hash = some "0x00";
}

seal_check : verify_passport_integrity digest 10 none db_inspected ≡ ok seal_checked
unfolding handle_quality has_independent_inspection create_quality_report find insert first_where
    load_session load_user create_report_schema verify_passport_integrity
seal_check = refl
