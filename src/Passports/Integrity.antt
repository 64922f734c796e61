-- ===== src/Passports/Integrity.antt =====
-- The public check of a material's fingerprint, on materials whose fingerprints are kept as
-- packages/api/src/lib/anchor.ts keeps them.
use text.Mathlib.TextPositions.{compare_refl}
use trace_public.Common.{
  subst, ℕ, Bool, true, not, ◌||◌, Option, none, some, ◌≡◌, ◌⊎◌, inl, inr, refl, ◌∙◌, ap, is_some,
  Option-cases, String, is_id, ◌&&◌,
}
use trace_public.Errors.{
  ok, require-eq-ok, refuse-eq-ok, >>=-eq-ok, ok-injective, not_found, Resource,
}
use trace_public.Session.{Claims, Profile}
use trace_public.Store.{Passport}
use trace_public.Table.{find}
use trace_public.Market.Invariant.{IsSound}
use trace_public.Quality.{QualityDb}
use trace_public.Quality.Anchors.{CanonicalDocument, compute_passport_hash}
use trace_public.Quality.Reports.{is_draft}
use trace_public.Quality.Routes.{QualityCall, handle_quality}
use trace_public.Quality.Seals.{AllSealed, seals_stay_fresh}
use trace_public.Passports.{
  PassportViewer, PassportIntegrityResult, organisation_of, load_visible_passport, hash_of,
  is_same_hash, verify_passport_integrity,
}

-- The check of a stored fingerprint that fits.
same_or_pending :
    (stored : Option String) (recomputed : String)
    → (stored ≡ none) ⊎ (stored ≡ some recomputed)
    → (is_same_hash stored recomputed || not (is_some stored)) ≡ true
same_or_pending stored recomputed (inl gone) = rw gone refl
same_or_pending stored recomputed (inr same) = rw (same, compare_refl recomputed) refl

load_visible_passport-find :
    (db : QualityDb) (id : ℕ) (viewer : Option PassportViewer) (passport : Passport)
    → load_visible_passport id viewer db ≡ ok passport
    → find id db.market.passports ≡ some passport
unfolding load_visible_passport
load_visible_passport-find db id viewer passport h =
    let (row, found, h1) = require-eq-ok (find id db.market.passports) _ _ h in
    let (shown, h2) =
      refuse-eq-ok (is_draft row.status && not (is_id (organisation_of viewer) row.organisation_id))
        (not_found Resource.passport) _ h1 in
    found ∙ ap some (ok-injective h2)

module _ (digest : CanonicalDocument → String) where
  stored_fits :
      (db : QualityDb) (id : ℕ) (passport : Passport)
      → AllSealed digest db.market.passports db.anchors
      → find id db.market.passports ≡ some passport
      → (hash_of (find id db.anchors) ≡ none)
        ⊎ (hash_of (find id db.anchors) ≡ some (compute_passport_hash digest id passport))
  stored_fits db id passport sealed found = elim (Option-cases (find id db.anchors)) [
    | inl absent ↦ inl (rw absent refl)
    | inr (anchor, there) ↦ rw there (sealed id passport anchor found there)
  ]

  pub verified_or_pending :
      (db : QualityDb) (id : ℕ) (viewer : Option PassportViewer) (result : PassportIntegrityResult)
      → AllSealed digest db.market.passports db.anchors
      → verify_passport_integrity digest id viewer db ≡ ok result
      → (result.matches || result.pending) ≡ true
  unfolding verify_passport_integrity
  verified_or_pending db id viewer result sealed h =
      let (passport, loaded, made) = >>=-eq-ok (load_visible_passport id viewer db) _ h in
      let found = load_visible_passport-find db id viewer passport loaded in
      subst (λ (r : PassportIntegrityResult). (r.matches || r.pending) ≡ true) (ok-injective made)
        (same_or_pending (hash_of (find id db.anchors)) (compute_passport_hash digest id passport)
          (stored_fits db id passport sealed found))

  -- From a state in which every stored fingerprint is the one of its material's data, whatever report
  -- anybody files or flags, the public check of any material then answers whoever may see it that it
  -- matches or that it is pending, and never a mismatch.
  pub reports_cause_no_mismatch :
      (simulate : Bool) (profile : Profile) (verified : Option Claims) (call : QualityCall)
      (now : ℕ) (db : QualityDb) (id : ℕ) (viewer : Option PassportViewer)
      (result : PassportIntegrityResult)
      → AllSealed digest db.market.passports db.anchors
      → IsSound db.market
      → verify_passport_integrity digest id viewer
          (handle_quality digest simulate profile verified call now db).0
        ≡ ok result
      → (result.matches || result.pending) ≡ true
  reports_cause_no_mismatch simulate profile verified call now db id viewer result sealed sound h =
      let (fresh, still_sound) =
        seals_stay_fresh digest simulate profile verified call now db sealed sound in
      verified_or_pending (handle_quality digest simulate profile verified call now db).0 id viewer
        result fresh h
