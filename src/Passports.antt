-- ===== src/Passports.antt =====
-- packages/api/src/modules/passport/passport.service.ts: who may read a material, and the public check of
-- its fingerprint. A material whose fingerprint's columns are not in the table has none yet.
pub mod Inputs
pub mod Edits
pub mod Routes
pub mod Writes
pub mod Upkeep
pub mod Edited
pub mod Integrity
pub mod Trust
pub mod Reading
pub mod Shown
pub mod Privacy
use text.Mathlib.Text.{◌==◌ as str_eq}
use trace_public.Common.{
  ℕ, Bool, true, false, not, ◌&&◌, ◌||◌, Option, none, some, String, is_id, is_some,
}
use trace_public.Config.{Role, is_platform_admin}
use trace_public.Errors.{Result, ok, err, ◌>>=◌, ◌>>◌, require, refuse, not_found, Resource}
use trace_public.Store.{Passport}
use trace_public.Table.{find}
use trace_public.Quality.{QualityDb, Anchor}
use trace_public.Quality.Anchors.{CanonicalDocument, compute_passport_hash}
use trace_public.Quality.Reports.{is_draft}

-- `PassportViewer`: a signed-in user, or nobody.
pub record PassportViewer : Type 0 where
  pub role : Role
  pub organisation_id : Option ℕ

abbrev pub organisation_of : Option PassportViewer → Option ℕ
organisation_of none = none
organisation_of (some viewer) = viewer.organisation_id

-- `seesWholePassport`.
abbrev pub sees_whole_passport : Passport → Option PassportViewer → Bool
sees_whole_passport passport none = false
sees_whole_passport passport (some viewer) =
    is_platform_admin viewer.role || is_id viewer.organisation_id passport.organisation_id

unfoldable pub load_visible_passport : ℕ → Option PassportViewer → QualityDb → Result Passport
unfolding find
load_visible_passport id viewer db = do
  passport ← require (find id db.market.passports) (not_found Resource.passport)
  refuse (is_draft passport.status && not (is_id (organisation_of viewer) passport.organisation_id))
      (not_found Resource.passport)
  ok passport

-- `PassportIntegrityResult`.
pub record PassportIntegrityResult : Type 0 where
  pub matches : Bool
  pub pending : Bool
  pub recomputed_hash : String
  pub stored_hash : Option String

abbrev pub hash_of : Option Anchor → Option String
hash_of none = none
hash_of (some anchor) = anchor.passport_hash

-- `storedHash !== null && recomputedHash === storedHash`.
abbrev pub is_same_hash : Option String → String → Bool
is_same_hash none recomputed = false
is_same_hash (some stored) recomputed = str_eq recomputed stored

module _ (digest : CanonicalDocument → String) where
  unfoldable pub verify_passport_integrity :
      ℕ → Option PassportViewer → QualityDb → Result PassportIntegrityResult
  unfolding find load_visible_passport compute_passport_hash
  verify_passport_integrity id viewer db = do
    passport ← load_visible_passport id viewer db
    let recomputed = compute_passport_hash digest id passport
    let stored = hash_of (find id db.anchors)
    ok (record {
      matches = is_same_hash stored recomputed;
      pending = not (is_some stored);
      recomputed_hash = recomputed;
      stored_hash = stored;
    })
