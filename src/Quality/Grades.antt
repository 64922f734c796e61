-- ===== src/Quality/Grades.antt =====
-- packages/api/src/modules/quality: the grade of a material that an inspector has graded.
use trace_public.Common.{
  true_is_false, subst, ℕ, Bool, true, false, Option, none, some, [], ◌∷◌, ◌≡◌, ◌≢◌, inl, inr, refl,
  sym, ◌∙◌, ap, is_some, ◌==◌, Bool-cases, String,
}
use trace_public.Config.{Role, Grade}
use trace_public.Errors.{ok}
use trace_public.Session.{Session, Claims, Profile, load_session}
use trace_public.Store.{Passport}
use trace_public.Table.{Table, find, insert, modify, first_where}
use trace_public.Quality.{QualityDb, QualityReport, Reporter}
use trace_public.Quality.Anchors.{
  touch, CanonicalDocument, reanchor_passport, simulate_passport_anchor,
}
use trace_public.Quality.Reports.{
  has_independent_inspection, inspects, new_report, regrade, reports_on_every_organisation, graded,
  is_seller_source, inspection_source,
}
use trace_public.Quality.Routes.{QualityCall, reporter_of, handle_quality}
use trace_public.Table.Laws.{find-modify_ne}
use trace_public.Table.Search.{is_some-find-modify}
use trace_public.Quality.Filing.{Files, handle_quality-Files}

module _ {A : Type 0} (p : A → Bool) where
  is_some-first_where-insert :
      (k : ℕ) (v : A) (t : Table A)
      → is_some (first_where p t) ≡ true
      → is_some (first_where p (insert k v t)) ≡ true
  unfolding first_where insert
  is_some-first_where-insert k v [] h = cc
  is_some-first_where-insert k v ((j, r) ∷ t) h = elim (Bool-cases (p r)) [
    | inl hit ↦ rw hit refl
    | inr miss ↦ rw miss (is_some-first_where-insert k v t (rw (miss, first_where) at h))
  ]

  is_some-first_where-modify :
      (k : ℕ) (f : A → A) (t : Table A)
      → ((r : A) → p (f r) ≡ p r)
      → is_some (first_where p (modify k f t)) ≡ is_some (first_where p t)
  unfolding first_where modify
  is_some-first_where-modify k f [] same = refl
  is_some-first_where-modify k f ((j, r) ∷ t) same = elim (Bool-cases (j == k)) [
    | inl here ↦ elim (Bool-cases (p r)) [
      | inl hit ↦ rw (here, same r, hit) refl
      | inr miss ↦ rw (here, same r, miss) refl
    ]
    | inr there ↦ elim (Bool-cases (p r)) [
      | inl hit ↦ rw (there, hit) refl
      | inr miss ↦ rw (there, miss) (is_some-first_where-modify k f t same)
    ]
  ]

abbrev pub grade_of : Option Passport → Option Grade
grade_of none = none
grade_of (some passport) = passport.condition_grade

-- Neither a report nor a flag makes an inspection any less one.
module _ (id : ℕ) where
  inspected-insert :
      (new_id : ℕ) (r : QualityReport) (db : QualityDb)
      → has_independent_inspection id db ≡ true
      → has_independent_inspection id (record db { reports = insert new_id r db.reports }) ≡ true
  unfolding has_independent_inspection
  inspected-insert new_id r db h =
      is_some-first_where-insert (inspects id db.market.users) new_id r db.reports h

  inspected-flag :
      (k : ℕ) (db : QualityDb)
      → has_independent_inspection id db ≡ true
      → has_independent_inspection id (record db {
        reports = modify k (λ (r : QualityReport). record r { disputed = true }) db.reports;
      })
        ≡ true
  unfolding has_independent_inspection
  inspected-flag k db h =
      is_some-first_where-modify (inspects id db.market.users) k
        (λ (r : QualityReport). record r { disputed = true }) db.reports (λ r. refl)
      ∙ h

seller_reports :
    (role : Role)
    → reports_on_every_organisation role ≡ false
    → is_seller_source (inspection_source (some role)) ≡ true
seller_reports Role.platform_admin h = cc
seller_reports Role.hub_admin h = refl
seller_reports Role.hub_staff h = refl
seller_reports Role.supplier h = refl
seller_reports Role.buyer h = refl
seller_reports Role.inspector h = cc

module _ (digest : CanonicalDocument → String) (simulate : Bool) where
  -- A new grade of one material is no grade of another, and no report.
  regrade-elsewhere :
      (k id : ℕ) (passport : Passport) (grade : Grade) (now : ℕ) (db : QualityDb)
      → k ≢ id
      → find id (regrade digest simulate k passport grade now db).market.passports
        ≡ find id db.market.passports
  unfolding regrade reanchor_passport simulate_passport_anchor
  regrade-elsewhere k id passport grade now db other = elim (Bool-cases simulate) [
    | inl on ↦ rw on (
        find-modify_ne k id (touch now) (modify k (graded grade now) db.market.passports) other
        ∙ find-modify_ne k id (graded grade now) db.market.passports other)
    | inr off ↦ rw off (
        find-modify_ne k id (touch now) (modify k (graded grade now) db.market.passports) other
        ∙ find-modify_ne k id (graded grade now) db.market.passports other)
  ]

  regrade-is_some :
      (k id : ℕ) (passport : Passport) (grade : Grade) (now : ℕ) (db : QualityDb)
      → is_some (find id db.market.passports) ≡ true
      → is_some (find id (regrade digest simulate k passport grade now db).market.passports) ≡ true
  unfolding regrade reanchor_passport simulate_passport_anchor
  regrade-is_some k id passport grade now db there =
      let written =
        is_some-find-modify k id (touch now) (modify k (graded grade now) db.market.passports)
          (is_some-find-modify k id (graded grade now) db.market.passports there) in
      elim (Bool-cases simulate) [ inl on ↦ rw on written | inr off ↦ rw off written ]

  inspected-regrade :
      (k id : ℕ) (passport : Passport) (grade : Grade) (now : ℕ) (db : QualityDb)
      → has_independent_inspection id (regrade digest simulate k passport grade now db)
        ≡ has_independent_inspection id db
  unfolding regrade reanchor_passport simulate_passport_anchor has_independent_inspection
  inspected-regrade k id passport grade now db = elim (Bool-cases simulate) [
    | inl on ↦ rw on refl
    | inr off ↦ rw off refl
  ]

  abbrev pub Stands : ℕ → QualityDb → QualityDb → Type 0
  Stands id db db' =
      (grade_of (find id db'.market.passports) ≡ grade_of (find id db.market.passports))
      × (has_independent_inspection id db' ≡ true)

  pub Files-Stands :
      (id : ℕ) (reporter : Reporter) (now : ℕ) (db db' : QualityDb)
      → reports_on_every_organisation reporter.role ≡ false
      → has_independent_inspection id db ≡ true
      → Files digest simulate reporter now db db'
      → Stands id db db'
  Files-Stands id reporter now db db' hub inspected (Files.files_only new_id input same) =
      rw same (refl, inspected-insert id new_id (new_report input reporter now) db inspected)
  Files-Stands id reporter now db db' hub inspected (Files.flags k same) =
      rw same (refl, inspected-flag id k db inspected)
  Files-Stands id reporter now db db' hub inspected
        (Files.regrades new_id input passport found open_to same) =
      let filed : QualityDb = record db {
        reports = insert new_id (new_report input reporter now) db.reports;
      } in
      let still : has_independent_inspection id filed ≡ true =
        inspected-insert id new_id (new_report input reporter now) db inspected in
      let other : input.passport_id ≢ id = λ e.
        let there : has_independent_inspection input.passport_id filed ≡ true =
          subst (λ k. has_independent_inspection k filed ≡ true) (sym e) still in
        true_is_false (sym (rw (seller_reports reporter.role hub, there) refl) ∙ open_to) in
      rw same (
        ap grade_of
            (regrade-elsewhere input.passport_id id passport input.overall_grade now filed other),
        inspected-regrade input.passport_id id passport input.overall_grade now filed ∙ still,
      )

  -- No report takes a material away.
  pub Files-is_some :
      (id : ℕ) (reporter : Reporter) (now : ℕ) (db db' : QualityDb)
      → is_some (find id db.market.passports) ≡ true
      → Files digest simulate reporter now db db'
      → is_some (find id db'.market.passports) ≡ true
  Files-is_some id reporter now db db' there (Files.files_only new_id input same) = rw same there
  Files-is_some id reporter now db db' there (Files.flags k same) = rw same there
  Files-is_some id reporter now db db' there
        (Files.regrades new_id input passport found open_to same) =
      let filed : QualityDb = record db {
        reports = insert new_id (new_report input reporter now) db.reports;
      } in
      rw same (regrade-is_some input.passport_id id passport input.overall_grade now filed there)

  -- Requests of anybody but inspectors and the platform.
  pub data HubRequests (start : QualityDb) : QualityDb → Type 0 where
    here : HubRequests start start
    next :
        {db : QualityDb} (profile : Profile) (verified : Option Claims) (call : QualityCall)
        (now : ℕ)
        → HubRequests start db
        → ((session : Session)
            → load_session verified db.market ≡ ok session
            → reports_on_every_organisation session.role ≡ false)
        → HubRequests start (handle_quality digest simulate profile verified call now db).0

  -- Once an inspector has graded a material, no sequence of requests of others than inspectors and the
  -- platform, answered or refused, changes its grade.
  pub inspected_grade_stands :
      (id : ℕ) (db db' : QualityDb)
      → has_independent_inspection id db ≡ true
      → HubRequests db db'
      → grade_of (find id db'.market.passports) ≡ grade_of (find id db.market.passports)
  inspected_grade_stands id db db' inspected requests = (all_stand requests).0
    where
      all_stand : {after : QualityDb} → HubRequests db after → Stands id db after
      all_stand here = (refl, inspected)
      all_stand (next {db = mid} profile verified call now before hubs) =
          let (same_grade, still) = all_stand before in
          elim (handle_quality-Files digest simulate profile verified call now mid) [
            | inl same ↦ rw same (same_grade, still)
            | inr (session, (signed_in, files)) ↦
                let (kept, after) =
                  Files-Stands id (reporter_of session) now mid _ (hubs session signed_in) still
                    files in
                (kept ∙ same_grade, after)
          ]
