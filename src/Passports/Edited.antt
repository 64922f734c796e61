-- ===== src/Passports/Edited.antt =====
-- passport.service.ts: when an edit is let through, and what it leaves.
use trace_public.Common.{
  subst, Bool-cases, ℕ, Bool, true, false, ◌&&◌, Option, none, some, ◌≡◌, ◌⊎◌, ◌↔◌, inl, inr, refl,
  ap, ◌==◌, ==_iff, String, ◌or_else◌,
}
use trace_public.Errors.{ok, ok-injective, >>=-eq-ok}
use trace_public.Store.{Passport}
use trace_public.Table.{find}
use trace_public.Table.Search.{find-modify_self}
use trace_public.Quality.{QualityDb}
use trace_public.Quality.Anchors.{touch, simulate_passport_anchor, CanonicalDocument}
use trace_public.Quality.Reports.{has_independent_inspection}
use trace_public.Passports.Edits.{
  anchor_or_queue, ◌over◌, may_edit, is_locked, changes_grade, update_passport, edited,
}
use trace_public.Passports.Inputs.{UpdatePassport}
use trace_public.Passports.Upkeep.{may_edit-eq-ok}

-- An edit is let through exactly when the material is there, is the organisation's, is neither listed,
-- reserved, sold nor decommissioned, and the edit gives no grade other than the one it has or the
-- material has no independent inspection.
pub may_edit_iff :
    (id : ℕ) (input : UpdatePassport) (organisation_id : ℕ) (db : QualityDb) (existing : Passport)
    → (may_edit id input organisation_id db ≡ ok existing) ↔ (
        (find id db.market.passports ≡ some existing)
        × (existing.organisation_id ≡ organisation_id)
        × (is_locked existing.status ≡ false)
        × ((changes_grade input.condition_grade existing.condition_grade ≡ false)
            ⊎ (has_independent_inspection id db ≡ false)))
unfolding may_edit
may_edit_iff id input organisation_id db existing = (
  λ h.
      let (found, his, unlocked, free) = may_edit-eq-ok id input organisation_id db existing h in
      (
        found,
        (==_iff existing.organisation_id organisation_id).0 his,
        unlocked,
        either_false _ _ free,
      ),
  λ allowed.
      let (found, his, unlocked, free) = allowed in
      let same : (existing.organisation_id == organisation_id) ≡ true =
        (==_iff existing.organisation_id organisation_id).1 his in
      rw (found, may_edit) (rw (same, unlocked) (rw (both_false _ _ free) refl)),
)
  where
    either_false : (a b : Bool) → (a && b) ≡ false → (a ≡ false) ⊎ (b ≡ false)
    either_false true b h = inr h
    either_false false b h = inl refl

    both_false : (a b : Bool) → (a ≡ false) ⊎ (b ≡ false) → (a && b) ≡ false
    both_false true b (inl h) = cc
    both_false true b (inr h) = h
    both_false false b h = refl

-- A field of a seller's description, read before and after an edit.
module _ {A : Type 0} where
  -- A required column, and one that may be empty: a field that is not given stays, and one that is given
  -- is written.
  abbrev pub Follows : Option A → A → A → Type 0
  Follows none old new = new ≡ old
  Follows (some given) old new = new ≡ given

  abbrev pub FollowsTo : Option A → Option A → Option A → Type 0
  FollowsTo none old new = new ≡ old
  FollowsTo (some given) old new = new ≡ some given

  or_else-Follows : (given : Option A) (old : A) → Follows given old (given or_else old)
  or_else-Follows none old = refl
  or_else-Follows (some x) old = refl

  over-FollowsTo : (given old : Option A) → FollowsTo given old (given over old)
  over-FollowsTo none old = refl
  over-FollowsTo (some x) old = refl

-- Each column of the description, the grade and the seller's attributes, each by the field of its name.
pub record FollowsInput (input : UpdatePassport) (old new : Passport) : Type 0 where
  pub product_name : Follows input.product_name old.details.product_name new.details.product_name
  pub category_l1 : Follows input.category_l1 old.details.category_l1 new.details.category_l1
  pub category_l2 : FollowsTo input.category_l2 old.details.category_l2 new.details.category_l2
  pub unit_of_measure :
      FollowsTo input.unit_of_measure old.details.unit_of_measure new.details.unit_of_measure
  pub serial_number :
      FollowsTo input.serial_number old.details.serial_number new.details.serial_number
  pub material_composition :
      Follows input.material_composition old.details.material_composition
        new.details.material_composition
  pub dimensions : FollowsTo input.dimensions old.details.dimensions new.details.dimensions
  pub technical_specs :
      Follows input.technical_specs old.details.technical_specs new.details.technical_specs
  pub manufacturer_name :
      FollowsTo input.manufacturer_name old.details.manufacturer_name new.details.manufacturer_name
  pub country_of_origin :
      FollowsTo input.country_of_origin old.details.country_of_origin new.details.country_of_origin
  pub production_date :
      FollowsTo input.production_date old.details.production_date new.details.production_date
  pub gwp_total : FollowsTo input.gwp_total old.details.gwp_total new.details.gwp_total
  pub embodied_carbon :
      FollowsTo input.embodied_carbon old.details.embodied_carbon new.details.embodied_carbon
  pub recycled_content :
      FollowsTo input.recycled_content old.details.recycled_content new.details.recycled_content
  pub epd_reference :
      FollowsTo input.epd_reference old.details.epd_reference new.details.epd_reference
  pub ce_marking : Follows input.ce_marking old.details.ce_marking new.details.ce_marking
  pub declaration_of_performance :
      FollowsTo input.declaration_of_performance old.details.declaration_of_performance
        new.details.declaration_of_performance
  pub harmonised_standard :
      FollowsTo input.harmonised_standard old.details.harmonised_standard
        new.details.harmonised_standard
  pub origin : FollowsTo input.origin old.details.origin new.details.origin
  pub previous_building_id :
      FollowsTo input.previous_building_id old.details.previous_building_id
        new.details.previous_building_id
  pub deconstruction_date :
      FollowsTo input.deconstruction_date old.details.deconstruction_date
        new.details.deconstruction_date
  pub deconstruction_method :
      FollowsTo input.deconstruction_method old.details.deconstruction_method
        new.details.deconstruction_method
  pub reclaimed_by : FollowsTo input.reclaimed_by old.details.reclaimed_by new.details.reclaimed_by
  pub condition_notes :
      FollowsTo input.condition_notes old.details.condition_notes new.details.condition_notes
  pub original_age : FollowsTo input.original_age old.details.original_age new.details.original_age
  pub remaining_life_estimate :
      FollowsTo input.remaining_life_estimate old.details.remaining_life_estimate
        new.details.remaining_life_estimate
  pub carbon_savings_vs_new :
      FollowsTo input.carbon_savings_vs_new old.details.carbon_savings_vs_new
        new.details.carbon_savings_vs_new
  pub circularity_score :
      FollowsTo input.circularity_score old.details.circularity_score new.details.circularity_score
  pub reuse_suitability :
      Follows input.reuse_suitability old.details.reuse_suitability new.details.reuse_suitability
  pub handling_requirements :
      FollowsTo input.handling_requirements old.details.handling_requirements
        new.details.handling_requirements
  pub hazardous_substances :
      Follows input.hazardous_substances old.details.hazardous_substances
        new.details.hazardous_substances
  pub condition_grade : FollowsTo input.condition_grade old.condition_grade new.condition_grade
  pub custom_attributes :
      Follows input.custom_attributes old.custom_attributes new.custom_attributes
  pub organisation_id : new.organisation_id ≡ old.organisation_id
  pub status : new.status ≡ old.status
  pub condition_photos : new.condition_photos ≡ old.condition_photos
  pub created_at : new.created_at ≡ old.created_at

edited-FollowsInput :
    (input : UpdatePassport) (now : ℕ) (old : Passport)
    → FollowsInput input old (edited input now old)
edited-FollowsInput input now old = record {
  product_name = or_else-Follows input.product_name old.details.product_name;
  category_l1 = or_else-Follows input.category_l1 old.details.category_l1;
  category_l2 = over-FollowsTo input.category_l2 old.details.category_l2;
  unit_of_measure = over-FollowsTo input.unit_of_measure old.details.unit_of_measure;
  serial_number = over-FollowsTo input.serial_number old.details.serial_number;
  material_composition =
      or_else-Follows input.material_composition old.details.material_composition;
  dimensions = over-FollowsTo input.dimensions old.details.dimensions;
  technical_specs = or_else-Follows input.technical_specs old.details.technical_specs;
  manufacturer_name = over-FollowsTo input.manufacturer_name old.details.manufacturer_name;
  country_of_origin = over-FollowsTo input.country_of_origin old.details.country_of_origin;
  production_date = over-FollowsTo input.production_date old.details.production_date;
  gwp_total = over-FollowsTo input.gwp_total old.details.gwp_total;
  embodied_carbon = over-FollowsTo input.embodied_carbon old.details.embodied_carbon;
  recycled_content = over-FollowsTo input.recycled_content old.details.recycled_content;
  epd_reference = over-FollowsTo input.epd_reference old.details.epd_reference;
  ce_marking = or_else-Follows input.ce_marking old.details.ce_marking;
  declaration_of_performance =
      over-FollowsTo input.declaration_of_performance old.details.declaration_of_performance;
  harmonised_standard = over-FollowsTo input.harmonised_standard old.details.harmonised_standard;
  origin = over-FollowsTo input.origin old.details.origin;
  previous_building_id = over-FollowsTo input.previous_building_id old.details.previous_building_id;
  deconstruction_date = over-FollowsTo input.deconstruction_date old.details.deconstruction_date;
  deconstruction_method =
      over-FollowsTo input.deconstruction_method old.details.deconstruction_method;
  reclaimed_by = over-FollowsTo input.reclaimed_by old.details.reclaimed_by;
  condition_notes = over-FollowsTo input.condition_notes old.details.condition_notes;
  original_age = over-FollowsTo input.original_age old.details.original_age;
  remaining_life_estimate =
      over-FollowsTo input.remaining_life_estimate old.details.remaining_life_estimate;
  carbon_savings_vs_new =
      over-FollowsTo input.carbon_savings_vs_new old.details.carbon_savings_vs_new;
  circularity_score = over-FollowsTo input.circularity_score old.details.circularity_score;
  reuse_suitability = or_else-Follows input.reuse_suitability old.details.reuse_suitability;
  handling_requirements =
      over-FollowsTo input.handling_requirements old.details.handling_requirements;
  hazardous_substances =
      or_else-Follows input.hazardous_substances old.details.hazardous_substances;
  condition_grade = over-FollowsTo input.condition_grade old.condition_grade;
  custom_attributes = or_else-Follows input.custom_attributes old.custom_attributes;
  organisation_id = refl;
  status = refl;
  condition_photos = refl;
  created_at = refl;
}

-- The row that an edit leaves, on a deployment that simulates the chain and on one that does not.
module _ (digest : CanonicalDocument → String) (simulate : Bool) where
  anchor_or_queue-row :
      (id : ℕ) (input : UpdatePassport) (old : Passport) (now : ℕ) (db : QualityDb)
      → find id db.market.passports ≡ some (edited input now old)
      → find id
          (anchor_or_queue digest simulate id
            (edited input now old)
            (some now)
            now
            db).market.passports
        ≡ some (edited input now old)
  unfolding simulate_passport_anchor
  anchor_or_queue-row id input old now db row = elim (Bool-cases simulate) [
    | inl on ↦ rw on (find-modify_self id (touch now) db.market.passports row)
    | inr off ↦ rw off row
  ]

  edited_row :
      (id : ℕ) (input : UpdatePassport) (user_id organisation_id now : ℕ) (db db' : QualityDb)
      (answer : Passport)
      → update_passport digest simulate id input user_id organisation_id now db ≡ ok (db', answer)
      → (old : Passport) × (find id db.market.passports ≡ some old)
        × (find id db'.market.passports ≡ some (edited input now old))
        × (old.organisation_id ≡ organisation_id)
        × (is_locked old.status ≡ false)
  unfolding update_passport simulate_passport_anchor
  edited_row id input user_id organisation_id now db db' answer h =
      let (old, let_through, made) = >>=-eq-ok (may_edit id input organisation_id db) _ h in
      let (found, his, unlocked, free) =
        may_edit-eq-ok id input organisation_id db old let_through in
      let row = find-modify_self id (edited input now) db.market.passports found in
      (
        old,
        found,
        subst (λ d. find id d.market.passports ≡ some (edited input now old))
            (ap (λ p. p.0) (ok-injective made)) (anchor_or_queue-row id input old now _ row),
        (==_iff old.organisation_id organisation_id).0 his,
        unlocked,
      )

  -- An edit that succeeds is of a material of the seller's organisation that is neither listed, reserved,
  -- sold nor decommissioned. Of each column of the description, the grade and the attributes it leaves
  -- what the request gives for it, and what it was where the request gives nothing; it leaves the
  -- organisation, the status, the photos and the time of registration as they were.
  pub update_passport-writes :
      (id : ℕ) (input : UpdatePassport) (user_id organisation_id now : ℕ) (db db' : QualityDb)
      (answer : Passport)
      → update_passport digest simulate id input user_id organisation_id now db ≡ ok (db', answer)
      → (old new : Passport) × (find id db.market.passports ≡ some old)
        × (find id db'.market.passports ≡ some new)
        × (old.organisation_id ≡ organisation_id)
        × (is_locked old.status ≡ false)
        × FollowsInput input old new
  update_passport-writes id input user_id organisation_id now db db' answer h =
      let (old, found, row, his, unlocked) =
        edited_row id input user_id organisation_id now db db' answer h in
      (old, edited input now old, found, row, his, unlocked, edited-FollowsInput input now old)
