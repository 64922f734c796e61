-- ===== src/Store/Details.antt =====
-- packages/db/drizzle/schema.ts: the columns of a material that its seller describes it by, without its
-- grade. A JSON value stands as its text, and so does a number of a `numeric` column.
use trace_public.Common.{ℕ, Bool, Option, String}

-- The text of a `jsonb` value.
abbrev pub Json : Type 0
Json = String

-- `custom_attributes`, with the one key that the marketplace reads.
pub record CustomAttributes : Type 0 where
  pub seed_source : Option String
  pub other_attributes : Json

-- The columns of `material_passports` from the name of the product to its hazardous substances.
pub record PassportDetails : Type 0 where
  pub product_name : String
  pub category_l1 : String
  pub category_l2 : Option String
  pub unit_of_measure : Option String
  pub serial_number : Option String
  pub material_composition : Json
  pub dimensions : Option Json
  pub technical_specs : Json
  pub manufacturer_name : Option String
  pub country_of_origin : Option String
  pub production_date : Option ℕ
  pub gwp_total : Option String
  pub embodied_carbon : Option String
  pub recycled_content : Option String
  pub epd_reference : Option String
  pub ce_marking : Bool
  pub declaration_of_performance : Option String
  pub harmonised_standard : Option String
  pub origin : Option String
  pub previous_building_id : Option String
  pub deconstruction_date : Option ℕ
  pub deconstruction_method : Option String
  pub reclaimed_by : Option String
  pub condition_notes : Option String
  pub original_age : Option ℕ
  pub remaining_life_estimate : Option ℕ
  pub carbon_savings_vs_new : Option String
  pub circularity_score : Option ℕ
  pub reuse_suitability : Json
  pub handling_requirements : Option String
  pub hazardous_substances : Json
