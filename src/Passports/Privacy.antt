-- ===== src/Passports/Privacy.antt =====
-- passport.service.ts: what a viewer outside a material's organisation and the platform cannot read.
use trace_public.Common.{
  ℕ, Bool, true, false, not, ◌&&◌, Option, some, ◌≡◌, refl, is_id, Bool-cases, inl, inr,
}
use trace_public.Errors.{◌>>◌, refuse, ok, err, not_found, Resource}
use trace_public.Store.{Passport}
use trace_public.Store.Details.{CustomAttributes}
use trace_public.Table.{find, modify}
use trace_public.Table.Search.{find-modify_self}
use trace_public.Quality.{QualityDb}
use trace_public.Quality.Reports.{is_draft}
use trace_public.Passports.{
  PassportViewer, load_visible_passport, sees_whole_passport, organisation_of,
}
use trace_public.Passports.Reading.{
  get_passport_by_id, passport_listing, candidates, to_public_passport,
}

-- Other values of the columns that the public does not read.
abbrev pub with_private : Option ℕ → CustomAttributes → ℕ → Passport → Passport
with_private registered_by custom_attributes updated_at passport = record passport {
  registered_by = registered_by;
  custom_attributes = custom_attributes;
  updated_at = updated_at;
}

-- A draft that is another organisation's is not there.
pub load_visible_passport-draft :
    (id : ℕ) (viewer : Option PassportViewer) (db : QualityDb) (passport : Passport)
    → find id db.market.passports ≡ some passport
    → is_draft passport.status ≡ true
    → is_id (organisation_of viewer) passport.organisation_id ≡ false
    → load_visible_passport id viewer db ≡ err (not_found Resource.passport)
unfolding load_visible_passport
load_visible_passport-draft id viewer db passport found draft other =
    rw (found, load_visible_passport) (rw (draft, other) refl)

-- What is loaded of a row that is there.
load_visible_passport-found :
    (id : ℕ) (viewer : Option PassportViewer) (db : QualityDb) (passport : Passport)
    → find id db.market.passports ≡ some passport
    → load_visible_passport id viewer db ≡ (
        refuse
          (is_draft passport.status
            && not (is_id (organisation_of viewer) passport.organisation_id))
          (not_found Resource.passport)
        >> ok passport)
unfolding load_visible_passport
load_visible_passport-found id viewer db passport found = rw (found, load_visible_passport) refl

-- Who registered a material, its seller's own attributes and when it was last updated: whatever they
-- are, a viewer who is neither of its organisation nor of the platform is answered the same page, or
-- the same error.
pub private_columns_stay_private :
    (id : ℕ) (viewer : Option PassportViewer) (now : ℕ) (db : QualityDb) (passport : Passport)
    (registered_by : Option ℕ) (custom_attributes : CustomAttributes) (updated_at : ℕ)
    → find id db.market.passports ≡ some passport
    → sees_whole_passport passport viewer ≡ false
    → get_passport_by_id id viewer now (record db {
      market = record db.market {
        passports =
            modify id (with_private registered_by custom_attributes updated_at) db.market.passports;
      };
    })
      ≡ get_passport_by_id id viewer now db
unfolding get_passport_by_id to_public_passport passport_listing candidates
private_columns_stay_private id viewer now db passport registered_by custom_attributes updated_at
      found outside =
    let row =
      find-modify_self id (with_private registered_by custom_attributes updated_at)
        db.market.passports found in
    let changed = with_private registered_by custom_attributes updated_at passport in
    let hidden : Bool =
      is_draft passport.status && not (is_id (organisation_of viewer) passport.organisation_id) in
    let other : QualityDb = record db {
      market = record db.market {
        passports =
            modify id (with_private registered_by custom_attributes updated_at) db.market.passports;
      };
    } in
    rw
      (
        load_visible_passport-found id viewer other changed row,
        load_visible_passport-found id viewer db passport found,
        get_passport_by_id,
      )
      (elim (Bool-cases hidden) [
        | inl refused ↦ rw refused refl
        | inr shown ↦ rw shown (rw outside refl)
      ])
