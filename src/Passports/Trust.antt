-- ===== src/Passports/Trust.antt =====
-- packages/api/src/modules/passport and packages/api/src/modules/quality together: registering, editing,
-- inspecting and flagging, in any order.
use trace_public.Common.{
  ℕ, Bool, true, false, Option, ◌≡◌, ◌||◌, inl, inr, refl, ◌∙◌, String, is_some,
}
use trace_public.Errors.{ok}
use trace_public.Session.{Claims, Profile, Session, load_session}
use trace_public.Table.{find}
use trace_public.Market.Invariant.{IsSound}
use trace_public.Market.Invariant.Reach.{Step, Step-IsSound}
use trace_public.Quality.{QualityDb}
use trace_public.Quality.Anchors.{CanonicalDocument}
use trace_public.Quality.Reports.{has_independent_inspection, reports_on_every_organisation}
use trace_public.Quality.Routes.{QualityCall, handle_quality, reporter_of}
use trace_public.Quality.Filing.{handle_quality-Files}
use trace_public.Quality.Grades.{grade_of, Files-Stands, Files-is_some}
use trace_public.Quality.Seals.{seals_stay_fresh}
use trace_public.Passports.{PassportViewer, PassportIntegrityResult, verify_passport_integrity}
use trace_public.Passports.Edits.{Issuer}
use trace_public.Passports.Integrity.{verified_or_pending}
use trace_public.Passports.Routes.{PassportCall, handle_passport}
use trace_public.Passports.Upkeep.{IsNewMaterial, handle_passport-Carries}
use trace_public.Passports.Writes.{Sealed, inspected-carried}

module _ (digest : CanonicalDocument → String) (simulate : Bool) (issuer : Issuer) where
  -- Requests about materials and inspections, those about inspections of sessions that `Allowed` names.
  pub data Requests (Allowed : Session → Type 0) (start : QualityDb) : QualityDb → Type 0 where
    here : Requests Allowed start start
    material :
        {db : QualityDb} (profile : Profile) (verified : Option Claims) (call : PassportCall)
        (now : ℕ)
        → Requests Allowed start db
        → IsNewMaterial call db
        → Requests Allowed start
            (handle_passport digest simulate issuer profile verified call now db).0
    inspection :
        {db : QualityDb} (profile : Profile) (verified : Option Claims) (call : QualityCall)
        (now : ℕ)
        → Requests Allowed start db
        → ((session : Session) → load_session verified db.market ≡ ok session → Allowed session)
        → Requests Allowed start (handle_quality digest simulate profile verified call now db).0

  Requests-IsSound :
      (Allowed : Session → Type 0) {db db' : QualityDb}
      → Requests Allowed db db'
      → Sealed digest db
      → IsSound db.market
      → Sealed digest db' × IsSound db'.market
  Requests-IsSound Allowed here sealed sound = (sealed, sound)
  Requests-IsSound Allowed (material {db = mid} profile verified call now before fresh) sealed
        sound =
      let (sealed', sound') = Requests-IsSound Allowed before sealed sound in
      let carried =
        handle_passport-Carries digest simulate issuer profile verified call now mid fresh in
      (carried.seals sealed', Step-IsSound (Step.elsewhere carried.market) sound')
  Requests-IsSound Allowed (inspection {db = mid} profile verified call now before allowed) sealed
        sound =
      let (sealed', sound') = Requests-IsSound Allowed before sealed sound in
      seals_stay_fresh digest simulate profile verified call now mid sealed' sound'

  -- From a state in which every stored fingerprint is the one of its material's data and the
  -- marketplace's invariant holds, after whatever requests of anybody to register, edit, inspect or
  -- flag materials, the marketplace's invariant holds, and the public check of any material answers
  -- whoever may see it that the fingerprint matches or is pending, never a mismatch. The id of a new
  -- material is one that no material has.
  pub edits_cause_no_mismatch :
      {db db' : QualityDb} (id : ℕ) (viewer : Option PassportViewer)
      (result : PassportIntegrityResult)
      → Sealed digest db
      → IsSound db.market
      → Requests (λ _. Unit) db db'
      → verify_passport_integrity digest id viewer db' ≡ ok result
      → ((result.matches || result.pending) ≡ true) × IsSound db'.market
  edits_cause_no_mismatch {db} {db'} id viewer result sealed sound requests h =
      let (fresh, still_sound) = Requests-IsSound (λ _. Unit) requests sealed sound in
      (verified_or_pending digest db' id viewer result fresh h, still_sound)

  -- Once an inspector has graded a material, no sequence of requests changes its grade in which anybody
  -- registers and edits materials, its seller too, and others than inspectors and the platform file
  -- and flag reports, whether they are answered or refused. The id of a new material is one that no
  -- material has.
  pub inspected_grade_outlasts_edits :
      (id : ℕ) (db db' : QualityDb)
      → is_some (find id db.market.passports) ≡ true
      → has_independent_inspection id db ≡ true
      → Requests (λ session. reports_on_every_organisation session.role ≡ false) db db'
      → grade_of (find id db'.market.passports) ≡ grade_of (find id db.market.passports)
  inspected_grade_outlasts_edits id db db' there inspected requests = (all_stand requests).0
    where
      all_stand :
          {after : QualityDb}
          → Requests (λ session. reports_on_every_organisation session.role ≡ false) db after
          → (grade_of (find id after.market.passports) ≡ grade_of (find id db.market.passports))
            × (has_independent_inspection id after ≡ true)
            × (is_some (find id after.market.passports) ≡ true)
      all_stand here = (refl, inspected, there)
      all_stand (material {db = mid} profile verified call now before fresh) =
          let (same_grade, still, kept) = all_stand before in
          let carried =
            handle_passport-Carries digest simulate issuer profile verified call now mid fresh in
          let (kept', same) = carried.grades id kept still in
          (
            same ∙ same_grade,
            inspected-carried digest mid _ id carried.reports carried.users ∙ still,
            kept',
          )
      all_stand (inspection {db = mid} profile verified call now before hubs) =
          let (same_grade, still, kept) = all_stand before in
          elim (handle_quality-Files digest simulate profile verified call now mid) [
            | inl same ↦ rw same (same_grade, still, kept)
            | inr (session, (signed_in, files)) ↦
                let (same, after) =
                  Files-Stands digest simulate id (reporter_of session) now mid _
                    (hubs session signed_in) still files in
                (
                  same ∙ same_grade,
                  after,
                  Files-is_some digest simulate id (reporter_of session) now mid _ kept files,
                )
          ]
