-- ===== src/Passports/Inputs.antt =====
-- packages/core/src/validators/passport.schema.ts: what a seller sends of a material. A number of a
-- `numeric` column is given as the text that `String` writes of it, a date as its time, a serial number
-- trimmed and a country in upper case. What is inside a JSON value, a number's sign and an address are
-- checked by the schema library.
use text.Mathlib.Text.{◌==◌ as str_eq}
use trace_public.Common.{
  ℕ, Bool, true, Option, none, some, List, [], ◌∷◌, String, leb, any, ◌&&◌, utf16_length,
}
use trace_public.Config.{Grade}
use trace_public.Store.Details.{Json, CustomAttributes}

-- `CreatePassportInput`.
pub record CreatePassport : Type 0 where
  pub product_name : String
  pub category_l1 : String
  pub category_l2 : Option String
  pub unit_of_measure : Option String
  pub serial_number : Option String
  pub material_composition : Option Json
  pub dimensions : Option Json
  pub technical_specs : Option Json
  pub manufacturer_name : Option String
  pub country_of_origin : Option String
  pub production_date : Option ℕ
  pub gwp_total : Option String
  pub embodied_carbon : Option String
  pub recycled_content : Option String
  pub epd_reference : Option String
  pub ce_marking : Option Bool
  pub declaration_of_performance : Option String
  pub harmonised_standard : Option String
  pub origin : Option String
  pub previous_building_id : Option String
  pub deconstruction_date : Option ℕ
  pub deconstruction_method : Option String
  pub reclaimed_by : Option String
  pub condition_grade : Option Grade
  pub condition_notes : Option String
  pub original_age : Option ℕ
  pub remaining_life_estimate : Option ℕ
  pub carbon_savings_vs_new : Option String
  pub circularity_score : Option ℕ
  pub reuse_suitability : Option Json
  pub handling_requirements : Option String
  pub hazardous_substances : Option Json
  pub custom_attributes : Option CustomAttributes

-- `UpdatePassportInput`.
pub record UpdatePassport : Type 0 where
  pub product_name : Option String
  pub category_l1 : Option String
  pub category_l2 : Option String
  pub unit_of_measure : Option String
  pub serial_number : Option String
  pub material_composition : Option Json
  pub dimensions : Option Json
  pub technical_specs : Option Json
  pub manufacturer_name : Option String
  pub country_of_origin : Option String
  pub production_date : Option ℕ
  pub gwp_total : Option String
  pub embodied_carbon : Option String
  pub recycled_content : Option String
  pub epd_reference : Option String
  pub ce_marking : Option Bool
  pub declaration_of_performance : Option String
  pub harmonised_standard : Option String
  pub origin : Option String
  pub previous_building_id : Option String
  pub deconstruction_date : Option ℕ
  pub deconstruction_method : Option String
  pub reclaimed_by : Option String
  pub condition_grade : Option Grade
  pub condition_notes : Option String
  pub original_age : Option ℕ
  pub remaining_life_estimate : Option ℕ
  pub carbon_savings_vs_new : Option String
  pub circularity_score : Option ℕ
  pub reuse_suitability : Option Json
  pub handling_requirements : Option String
  pub hazardous_substances : Option Json
  pub custom_attributes : Option CustomAttributes

abbrev material_categories : List String
material_categories =
    "structural-steel" ∷ "structural-timber" ∷ "masonry" ∷ "roofing" ∷ "cladding-facades"
    ∷ "insulation" ∷ "doors-windows" ∷ "partitions-linings" ∷ "flooring" ∷ "mep-components"
    ∷ "fixings-fittings" ∷ []

abbrev units_of_measure : List String
units_of_measure = "each" ∷ "m2" ∷ "m" ∷ "kg" ∷ "tonne" ∷ "pallet" ∷ "set" ∷ "pack" ∷ []

abbrev deconstruction_methods : List String
deconstruction_methods = "selective" ∷ "mechanical" ∷ "manual" ∷ "mixed" ∷ []

abbrev passport_origins : List String
passport_origins = "reclaimed" ∷ "surplus" ∷ "new" ∷ []

abbrev is_one_of : List String → String → Bool
is_one_of texts s = any (str_eq s) texts

abbrev is_long : ℕ → ℕ → String → Bool
is_long from to s = leb from (utf16_length s) && leb (utf16_length s) to

-- `.optional()`.
abbrev if_given : {A : Type 0} → (A → Bool) → Option A → Bool
if_given check none = true
if_given check (some x) = check x

-- `CreatePassportSchema`.
unfoldable pub create_passport_schema : CreatePassport → Bool
create_passport_schema input =
    is_long 1 255 input.product_name
    && is_one_of material_categories input.category_l1
    && if_given (is_one_of units_of_measure) input.unit_of_measure
    && if_given (is_long 1 100) input.serial_number
    && if_given (is_long 0 255) input.manufacturer_name
    && if_given (is_long 2 2) input.country_of_origin
    && if_given (is_one_of passport_origins) input.origin
    && if_given (is_one_of deconstruction_methods) input.deconstruction_method
    && if_given (is_long 0 2000) input.condition_notes
    && if_given (λ score. leb score 100) input.circularity_score

-- `UpdatePassportSchema`.
unfoldable pub update_passport_schema : UpdatePassport → Bool
update_passport_schema input =
    if_given (is_long 1 255) input.product_name
    && if_given (is_one_of material_categories) input.category_l1
    && if_given (is_one_of units_of_measure) input.unit_of_measure
    && if_given (is_long 1 100) input.serial_number
    && if_given (is_long 0 255) input.manufacturer_name
    && if_given (is_long 2 2) input.country_of_origin
    && if_given (is_one_of passport_origins) input.origin
    && if_given (is_one_of deconstruction_methods) input.deconstruction_method
    && if_given (is_long 0 2000) input.condition_notes
    && if_given (λ score. leb score 100) input.circularity_score
