-- ===== src/Tests/Passports.antt =====
-- Materials, run: a seller edits a material that an inspector has graded, and its public pages are read.
use trace_public.Config.{ListingStatus}
use trace_public.Market.Listings.{create_listing}
use trace_public.Market.Routes.{handle}
use trace_public.Passports.Privacy.{with_private, private_columns_stay_private}
use trace_public.Passports.Reading.{
  PassportListingSummary, passport_listing, summary_of_lot, get_passport_by_id,
}
use trace_public.Passports.Shown.{IsCandidate, passport_listing_iff}
use trace_public.Passports.Edited.{FollowsInput, update_passport-writes}
use trace_public.Store.{Listing, EventData}
use trace_public.Quality.Anchors.{compute_passport_hash}
use trace_public.Common.{◌↔◌, ℕ, ◌||◌, true, false, none, some, ◌≡◌, refl, is_some}
use trace_public.Config.{Grade}
use trace_public.Errors.{ok}
use trace_public.Session.{Profile, load_session, load_user}
use trace_public.Store.{EventData, Passport}
use trace_public.Table.{find, insert, modify, first_where, IsKeyed}
use trace_public.Market.Invariant.{IsSound}
use trace_public.Market.Invariant.Reach.{opening-IsSound}
use trace_public.Quality.{QualityDb}
use trace_public.Quality.Reports.{has_independent_inspection, create_quality_report}
use trace_public.Quality.Routes.{create_report_schema, handle_quality}
use trace_public.Quality.Grades.{grade_of}
use trace_public.Passports.{PassportIntegrityResult, verify_passport_integrity}
use trace_public.Passports.Edits.{
  is_locked, amend, log_event, anchor_or_queue, Issuer, update_passport, edited, may_edit,
  is_locked, amend, log_event, anchor_or_queue,
}
use trace_public.Passports.Inputs.{UpdatePassport, update_passport_schema}
use trace_public.Passports.Routes.{PassportCall, handle_passport}
use trace_public.Passports.Trust.{Requests, edits_cause_no_mismatch, inspected_grade_outlasts_edits}
use trace_public.Tests.Samples.{db_listed, timber, passports}
use trace_public.Tests.People.{people, claims_of}
use trace_public.Tests.Market.{db_listed-IsSound}
use trace_public.Tests.Quality.{digest, db_start, db_inspected, inspected, sealed}

abbrev pub nothing_given : UpdatePassport
nothing_given = record {
  product_name = none;
  category_l1 = none;
  category_l2 = none;
  unit_of_measure = none;
  serial_number = none;
  material_composition = none;
  dimensions = none;
  technical_specs = none;
  manufacturer_name = none;
  country_of_origin = none;
  production_date = none;
  gwp_total = none;
  embodied_carbon = none;
  recycled_content = none;
  epd_reference = none;
  ce_marking = none;
  declaration_of_performance = none;
  harmonised_standard = none;
  origin = none;
  previous_building_id = none;
  deconstruction_date = none;
  deconstruction_method = none;
  reclaimed_by = none;
  condition_grade = none;
  condition_notes = none;
  original_age = none;
  remaining_life_estimate = none;
  carbon_savings_vs_new = none;
  circularity_score = none;
  reuse_suitability = none;
  handling_requirements = none;
  hazardous_substances = none;
  custom_attributes = none;
}

abbrev pub new_notes : UpdatePassport
new_notes = record nothing_given { condition_notes = some "Planed on two sides." }

abbrev pub issuer : Issuer
issuer = record {
  passport_public_url = λ id. "https://trace.example/passport/10";
  qr_code_of = λ id. ok none;
}

abbrev edit : PassportCall
edit = PassportCall.patch_passport 10 new_notes

abbrev upgrade : PassportCall
upgrade = PassportCall.patch_passport 10 (record nothing_given { condition_grade = some Grade.a })

abbrev db_edited : QualityDb
db_edited =
    (handle_passport digest true issuer Profile.self_hosted (claims_of 5) edit 3000 db_start).0

abbrev db_upgraded : QualityDb
db_upgraded =
    (handle_passport digest true issuer Profile.self_hosted (claims_of 5) upgrade 3000
      db_inspected).0

abbrev seal_edited : PassportIntegrityResult
seal_edited = record {
  matches = true;
  pending = false;
  recomputed_hash = "0x00";
  stored_hash = some "0x00";
}

seal_check_edited : verify_passport_integrity digest 10 none db_edited ≡ ok seal_edited
unfolding handle_passport load_session load_user find update_passport_schema
    verify_passport_integrity update_passport
seal_check_edited = refl

db_start-IsSound : IsSound db_start.market
db_start-IsSound = opening-IsSound passports people

edits_cause_no_mismatch_example :
    ((seal_edited.matches || seal_edited.pending) ≡ true) × IsSound db_edited.market
edits_cause_no_mismatch_example =
    edits_cause_no_mismatch digest true issuer 10 none seal_edited sealed db_start-IsSound
      (Requests.material Profile.self_hosted (claims_of 5) edit 3000 Requests.here tt)
      seal_check_edited

material_there : is_some (find 10 db_inspected.market.passports) ≡ true
unfolding handle_quality has_independent_inspection create_quality_report find insert first_where
    load_session load_user create_report_schema
material_there = refl

inspected_grade_outlasts_edits_example :
    grade_of (find 10 db_upgraded.market.passports)
    ≡ grade_of (find 10 db_inspected.market.passports)
inspected_grade_outlasts_edits_example =
    inspected_grade_outlasts_edits digest true issuer 10 db_inspected db_upgraded material_there
      inspected (Requests.material Profile.self_hosted (claims_of 5) upgrade 3000 Requests.here tt)

-- What the page of the sample material shows once it is on sale.
abbrev on_sale : PassportListingSummary
on_sale = record {
  id = 100;
  status = ListingStatus.active;
  price_pence = 2500;
  currency = "GBP";
  listed_at = 1000;
}

db_listed-IsKeyed : IsKeyed db_listed.listings
unfolding IsKeyed find handle create_listing insert
db_listed-IsKeyed = (refl, tt)

passport_listing_iff_example : (passport_listing 10 1000 db_listed ≡ some on_sale) ↔ (
    (row : ℕ × Listing) × IsCandidate 1000 db_listed 10 row
    × (on_sale ≡ summary_of_lot row)
    × ((other : ℕ × Listing) → IsCandidate 1000 db_listed 10 other → other ≡ row))
passport_listing_iff_example =
    passport_listing_iff 1000 db_listed 10 on_sale db_listed-IsKeyed db_listed-IsSound

edit_runs :
    update_passport digest true 10 new_notes 5 7 3000 db_start
    ≡ ok (
      anchor_or_queue digest true 10
          (edited new_notes 3000 timber)
          (some 3000)
          3000
          (log_event 10 (EventData.amended "0x00") 5 (amend 10 new_notes 3000 db_start)),
      edited new_notes 3000 timber,
    )
unfolding update_passport may_edit find has_independent_inspection compute_passport_hash
edit_runs = refl

update_passport-writes_example :
    (old new : Passport) × (find 10 db_start.market.passports ≡ some old)
    × (find 10
          (anchor_or_queue digest true 10 (edited new_notes 3000 timber) (some 3000) 3000 (
            log_event 10
              (EventData.amended "0x00")
              5
              (amend 10 new_notes 3000 db_start))).market.passports
        ≡ some new)
    × (old.organisation_id ≡ 7)
    × (is_locked old.status ≡ false)
    × FollowsInput new_notes old new
update_passport-writes_example =
    update_passport-writes digest true 10 new_notes 5 7 3000 db_start _
      (edited new_notes 3000 timber) edit_runs

timber_found : find 10 db_start.market.passports ≡ some timber
unfolding find
timber_found = refl

private_columns_stay_private_example :
    get_passport_by_id 10 none 1000 (record db_start {
      market = record db_start.market {
        passports =
            modify 10
              (with_private none (record { seed_source = none; other_attributes = "{}" }) 77)
              db_start.market.passports;
      };
    })
    ≡ get_passport_by_id 10 none 1000 db_start
private_columns_stay_private_example =
    private_columns_stay_private 10 none 1000 db_start timber none
      (record { seed_source = none; other_attributes = "{}" }) 77 timber_found refl
