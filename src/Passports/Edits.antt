-- ===== src/Passports/Edits.antt =====
-- passport.service.ts: `createPassport` and `updatePassport`. The draft is stored before its identifiers
-- are issued, and outside a transaction: where the image of the code is not stored, the draft stays.
use trace_public.Common.{
  ℕ, Bool, true, false, not, ◌&&◌, ◌||◌, Option, none, some, [], ◌∷◌, ◌++◌, String, ◌==◌, ◌or_else◌,
  if◌then◌else◌,
}
use text.Mathlib.Text.{◌==◌ as str_eq}
use trace_public.Config.{PassportStatus, Grade}
use trace_public.Errors.{
  Result, ok, err, ◌>>=◌, ◌>>◌, require, refuse, not_found, forbidden, conflict, unexpected,
  Resource, Reason,
}
use trace_public.Store.{Passport, PassportEvent, EventData}
use trace_public.Store.Details.{PassportDetails}
use trace_public.Table.{find, insert, modify}
use trace_public.Quality.{QualityDb, AnchorJob}
use trace_public.Quality.Anchors.{
  CanonicalDocument, compute_passport_hash, simulate_passport_anchor, no_anchor,
}
use trace_public.Quality.Reports.{has_independent_inspection, is_graded}
use trace_public.Passports.Inputs.{CreatePassport, UpdatePassport}

-- A field that is not given leaves the column as it is.
infixr 30 ◌over◌
abbrev pub ◌over◌ {ℓ} : {A : Type ℓ} → Option A → Option A → Option A
none over old = old
some new over old = some new

-- `buildInsertValues`, with `buildUpdateValues` below.
abbrev pub insert_values : CreatePassport → PassportDetails
insert_values input = record {
  product_name = input.product_name;
  category_l1 = input.category_l1;
  category_l2 = input.category_l2;
  unit_of_measure = input.unit_of_measure;
  serial_number = input.serial_number;
  material_composition = input.material_composition or_else "[]";
  dimensions = input.dimensions;
  technical_specs = input.technical_specs or_else "{}";
  manufacturer_name = input.manufacturer_name;
  country_of_origin = input.country_of_origin;
  production_date = input.production_date;
  gwp_total = input.gwp_total;
  embodied_carbon = input.embodied_carbon;
  recycled_content = input.recycled_content;
  epd_reference = input.epd_reference;
  ce_marking = input.ce_marking or_else false;
  declaration_of_performance = input.declaration_of_performance;
  harmonised_standard = input.harmonised_standard;
  origin = input.origin;
  previous_building_id = input.previous_building_id;
  deconstruction_date = input.deconstruction_date;
  deconstruction_method = input.deconstruction_method;
  reclaimed_by = input.reclaimed_by;
  condition_notes = input.condition_notes;
  original_age = input.original_age;
  remaining_life_estimate = input.remaining_life_estimate;
  carbon_savings_vs_new = input.carbon_savings_vs_new;
  circularity_score = input.circularity_score;
  reuse_suitability = input.reuse_suitability or_else "[]";
  handling_requirements = input.handling_requirements;
  hazardous_substances = input.hazardous_substances or_else "[]";
}

abbrev pub update_values : UpdatePassport → PassportDetails → PassportDetails
update_values input details = record {
  product_name = input.product_name or_else details.product_name;
  category_l1 = input.category_l1 or_else details.category_l1;
  category_l2 = input.category_l2 over details.category_l2;
  unit_of_measure = input.unit_of_measure over details.unit_of_measure;
  serial_number = input.serial_number over details.serial_number;
  material_composition = input.material_composition or_else details.material_composition;
  dimensions = input.dimensions over details.dimensions;
  technical_specs = input.technical_specs or_else details.technical_specs;
  manufacturer_name = input.manufacturer_name over details.manufacturer_name;
  country_of_origin = input.country_of_origin over details.country_of_origin;
  production_date = input.production_date over details.production_date;
  gwp_total = input.gwp_total over details.gwp_total;
  embodied_carbon = input.embodied_carbon over details.embodied_carbon;
  recycled_content = input.recycled_content over details.recycled_content;
  epd_reference = input.epd_reference over details.epd_reference;
  ce_marking = input.ce_marking or_else details.ce_marking;
  declaration_of_performance =
      input.declaration_of_performance over details.declaration_of_performance;
  harmonised_standard = input.harmonised_standard over details.harmonised_standard;
  origin = input.origin over details.origin;
  previous_building_id = input.previous_building_id over details.previous_building_id;
  deconstruction_date = input.deconstruction_date over details.deconstruction_date;
  deconstruction_method = input.deconstruction_method over details.deconstruction_method;
  reclaimed_by = input.reclaimed_by over details.reclaimed_by;
  condition_notes = input.condition_notes over details.condition_notes;
  original_age = input.original_age over details.original_age;
  remaining_life_estimate = input.remaining_life_estimate over details.remaining_life_estimate;
  carbon_savings_vs_new = input.carbon_savings_vs_new over details.carbon_savings_vs_new;
  circularity_score = input.circularity_score over details.circularity_score;
  reuse_suitability = input.reuse_suitability or_else details.reuse_suitability;
  handling_requirements = input.handling_requirements over details.handling_requirements;
  hazardous_substances = input.hazardous_substances or_else details.hazardous_substances;
}

-- `!productName || !categoryL1`.
abbrev pub is_unnamed : CreatePassport → Bool
is_unnamed input = str_eq input.product_name "" || str_eq input.category_l1 ""

-- The row that `createPassport` inserts.
abbrev pub new_passport : CreatePassport → ℕ → ℕ → ℕ → Passport
new_passport input user_id organisation_id now = record {
  organisation_id = organisation_id;
  gtin = none;
  digital_link_uri = none;
  qr_code_url = none;
  details = insert_values input;
  condition_grade = input.condition_grade;
  condition_photos = some [];
  reuse_count = 0;
  custom_attributes =
      input.custom_attributes or_else record { seed_source = none; other_attributes = "{}" };
  status = PassportStatus.draft;
  chain_id = none;
  registered_by = some user_id;
  created_at = now;
  updated_at = now;
}

-- `issuePassportIdentifiers` of packages/api/src/lib/passport-identifiers.ts: the material's public
-- address, and where the store keeps the image of it, or its error.
pub record Issuer : Type 0 where
  pub passport_public_url : ℕ → String
  pub qr_code_of : ℕ → Result (Option String)

abbrev pub identified : String → Option String → ℕ → Passport → Passport
identified link qr now passport = record passport {
  digital_link_uri = some link;
  qr_code_url = qr;
  updated_at = now;
}

abbrev pub activated : ℕ → Passport → Passport
activated now passport = record passport { status = PassportStatus.active; updated_at = now }

abbrev pub log_event : ℕ → EventData → ℕ → QualityDb → QualityDb
log_event id event_data actor_id db =
    let event : PassportEvent = record {
      passport_id = id;
      event_data = event_data;
      actor_id = some actor_id;
    } in
    record db { market = record db.market { passport_events = event ∷ db.market.passport_events } }

-- Where an edit is locked.
abbrev pub is_locked : PassportStatus → Bool
is_locked PassportStatus.listed = true
is_locked PassportStatus.reserved = true
is_locked PassportStatus.sold = true
is_locked PassportStatus.decommissioned = true
is_locked _ = false

-- A grade is given and is not the one that the material has.
abbrev pub changes_grade : Option Grade → Option Grade → Bool
changes_grade none old = false
changes_grade (some grade) old = not (is_graded old grade)

abbrev pub edited : UpdatePassport → ℕ → Passport → Passport
edited input now passport = record passport {
  details = update_values input passport.details;
  condition_grade = input.condition_grade over passport.condition_grade;
  custom_attributes = input.custom_attributes or_else passport.custom_attributes;
  updated_at = now;
}

unfoldable pub may_edit : ℕ → UpdatePassport → ℕ → QualityDb → Result Passport
unfolding find has_independent_inspection
may_edit id input organisation_id db = do
  existing ← require (find id db.market.passports) (not_found Resource.passport)
  refuse (not (existing.organisation_id == organisation_id))
      (forbidden Reason.passport_of_other_organisation)
  refuse (is_locked existing.status) (conflict (Reason.locked existing.status))
  refuse
      (changes_grade input.condition_grade existing.condition_grade
        && has_independent_inspection id db)
      (conflict Reason.grade_is_inspected)
  ok existing

-- A new material as a draft, with no fingerprint yet.
abbrev pub store_draft : ℕ → Passport → QualityDb → QualityDb
store_draft id passport db = record db {
  market = record db.market { passports = insert id passport db.market.passports };
  anchors = insert id no_anchor db.anchors;
}

-- The update that activates a material, and the one before it that gives it its identifiers.
abbrev pub activate : ℕ → String → Option String → ℕ → QualityDb → QualityDb
activate id link qr now db = record db {
  market = record db.market {
    passports = modify id (activated now) (modify id (identified link qr now) db.market.passports);
  };
}

-- The update of an edit, which clears the fingerprint's columns.
abbrev pub amend : ℕ → UpdatePassport → ℕ → QualityDb → QualityDb
amend id input now db = record db {
  market = record db.market { passports = modify id (edited input now) db.market.passports };
  anchors = modify id (λ _. no_anchor) db.anchors;
}

module _ (digest : CanonicalDocument → String) (simulate : Bool) where
  -- What both leave behind: a fingerprint, or a job that will anchor one.
  abbrev pub anchor_or_queue : ℕ → Passport → Option ℕ → ℕ → QualityDb → QualityDb
  anchor_or_queue id passport job_time now db =
      let job : AnchorJob = record {
        passport_id = id;
        organisation_id = passport.organisation_id;
        queued_at = job_time;
      } in
      if simulate
      then simulate_passport_anchor digest simulate id passport now db
      else record db { jobs = db.jobs ++ (job ∷ []) }

  unfoldable pub create_passport :
      Issuer → ℕ → CreatePassport → ℕ → ℕ → ℕ → QualityDb → QualityDb × Result Passport
  unfolding insert modify simulate_passport_anchor
  create_passport issuer id input user_id organisation_id now db =
      let draft = new_passport input user_id organisation_id now in
      let link = issuer.passport_public_url id in
      if is_unnamed input then (db, err unexpected) else elim (issuer.qr_code_of id) [
        | err e ↦ (store_draft id draft db, err e)
        | ok qr ↦
            let active = activated now (identified link qr now draft) in
            (
              anchor_or_queue id active none now (
                  log_event id EventData.commissioned user_id
                    (activate id link qr now (store_draft id draft db))),
              ok active,
            )
      ]

  unfoldable pub update_passport :
      ℕ → UpdatePassport → ℕ → ℕ → ℕ → QualityDb → Result (QualityDb × Passport)
  unfolding may_edit modify simulate_passport_anchor compute_passport_hash
  update_passport id input user_id organisation_id now db = do
    existing ← may_edit id input organisation_id db
    let updated = edited input now existing
    let fingerprint = compute_passport_hash digest id updated
    ok (
      anchor_or_queue id updated (some now) now
          (log_event id (EventData.amended fingerprint) user_id (amend id input now db)),
      updated,
    )
