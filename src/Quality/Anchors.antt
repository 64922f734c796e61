-- ===== src/Quality/Anchors.antt =====
-- packages/api/src/lib/anchor.ts and packages/db/src/passport-hash.ts: the fingerprint of a material,
-- and what happens to it when hashed data changes.
use trace_public.Common.{ℕ, Bool, Option, none, some, [], ◌∷◌, ◌++◌, String, if◌then◌else◌}
use trace_public.Config.{Grade}
use trace_public.Store.{Passport}
use trace_public.Store.Details.{Json}
use trace_public.Table.{modify}
use trace_public.Quality.{Anchor, AnchorJob, QualityDb}

-- The document of `buildCanonicalJsonLd`. Neither a material's status nor its origin, nor the time of
-- its last update, is in it.
pub record CanonicalDocument : Type 0 where
  pub id : ℕ
  pub organisation_id : ℕ
  pub gtin : Option String
  pub product_name : String
  pub category_l1 : String
  pub category_l2 : Option String
  pub serial_number : Option String
  pub material_composition : Json
  pub dimensions : Option Json
  pub technical_specs : Json
  pub manufacturer_name : Option String
  pub country_of_origin : Option String
  pub production_date : Option ℕ
  pub gwp_total : Option String
  pub embodied_carbon : Option String
  pub recycled_content : Option String
  pub epd_reference : Option String
  pub ce_marking : Bool
  pub condition_grade : Option Grade
  pub condition_notes : Option String
  pub deconstruction_date : Option ℕ
  pub deconstruction_method : Option String
  pub reclaimed_by : Option String
  pub remaining_life_estimate : Option ℕ
  pub carbon_savings_vs_new : Option String
  pub hazardous_substances : Json
  pub created_at : ℕ

abbrev pub canonical : ℕ → Passport → CanonicalDocument
canonical id passport = record {
  id = id;
  organisation_id = passport.organisation_id;
  gtin = passport.gtin;
  product_name = passport.details.product_name;
  category_l1 = passport.details.category_l1;
  category_l2 = passport.details.category_l2;
  serial_number = passport.details.serial_number;
  material_composition = passport.details.material_composition;
  dimensions = passport.details.dimensions;
  technical_specs = passport.details.technical_specs;
  manufacturer_name = passport.details.manufacturer_name;
  country_of_origin = passport.details.country_of_origin;
  production_date = passport.details.production_date;
  gwp_total = passport.details.gwp_total;
  embodied_carbon = passport.details.embodied_carbon;
  recycled_content = passport.details.recycled_content;
  epd_reference = passport.details.epd_reference;
  ce_marking = passport.details.ce_marking;
  condition_grade = passport.condition_grade;
  condition_notes = passport.details.condition_notes;
  deconstruction_date = passport.details.deconstruction_date;
  deconstruction_method = passport.details.deconstruction_method;
  reclaimed_by = passport.details.reclaimed_by;
  remaining_life_estimate = passport.details.remaining_life_estimate;
  carbon_savings_vs_new = passport.details.carbon_savings_vs_new;
  hazardous_substances = passport.details.hazardous_substances;
  created_at = passport.created_at;
}

abbrev pub touch : ℕ → Passport → Passport
touch now passport = record passport { updated_at = now }

-- The columns of a fingerprint that is yet to come.
abbrev pub no_anchor : Anchor
no_anchor = record { passport_hash = none; tx_hash = none; anchored_at = none }

abbrev pub write_anchor : ℕ → Anchor → ℕ → QualityDb → QualityDb
write_anchor id anchor now db = record db {
  market = record db.market { passports = modify id (touch now) db.market.passports };
  anchors = modify id (λ _. anchor) db.anchors;
}

-- `digest` is the text of the document under keccak256.
unfoldable pub compute_passport_hash : (CanonicalDocument → String) → ℕ → Passport → String
compute_passport_hash digest id passport = digest (canonical id passport)

-- `simulate` is `DEMO_SIMULATE_ANCHOR`.
module _ (digest : CanonicalDocument → String) (simulate : Bool) where
  unfoldable pub simulate_passport_anchor : ℕ → Passport → ℕ → QualityDb → QualityDb
  unfolding compute_passport_hash
  simulate_passport_anchor id passport now db =
      write_anchor id
        (record {
          passport_hash = some (compute_passport_hash digest id passport);
          tx_hash = none;
          anchored_at = some now;
        })
        now db

  -- On chain the anchor is cleared and a job is queued.
  unfoldable pub reanchor_passport : ℕ → Passport → ℕ → QualityDb → QualityDb
  unfolding simulate_passport_anchor
  reanchor_passport id passport now db =
      let cleared : QualityDb = write_anchor id no_anchor now db in
      let job : AnchorJob = record {
        passport_id = id;
        organisation_id = passport.organisation_id;
        queued_at = some now;
      } in
      if simulate
      then simulate_passport_anchor id passport now db
      else record cleared { jobs = db.jobs ++ (job ∷ []) }
