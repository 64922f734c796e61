-- ===== src/Quality/Filing.antt =====
-- What a request to packages/api/src/modules/quality writes: a report, a grade, a flag.
use trace_public.Common.{
  any, subst, is_id, ℕ, Bool, true, false, not, ◌&&◌, Option, some, ◌≡◌, ◌⊎◌, inl, inr, refl, sym,
  ap, Bool-cases, String,
}
use trace_public.Config.{is_platform_admin}
use trace_public.Errors.{
  refuse, validation, ◌>>◌, conflict, forbidden, Reason, ok, require-eq-ok, refuse-eq-ok, >>=-eq-ok,
  ok-injective, Result-cases,
}
use trace_public.Session.{
  Method, authorize, same_role, is_request_allowed, Session, Claims, Profile, load_session,
}
use trace_public.Store.{Passport}
use trace_public.Table.{find, insert, modify}
use trace_public.Quality.{QualityDb, QualityReport, CreateQualityReport, Reporter}
use trace_public.Quality.Anchors.{CanonicalDocument}
use trace_public.Quality.Reports.{
  has_independent_inspection, new_report, filed_report, holds, regrade, create_quality_report,
  dispute_report, reports_on_every_organisation, is_graded, is_draft, is_seller_source,
  inspection_source,
}
use trace_public.Quality.Routes.{
  create_report_schema, reporting_roles, QualityCall, reporter_of, serve_quality, answer_quality,
  handle_quality,
}

-- What a new report writes: the report, and the grade unless it stands.
pub data Files (digest : CanonicalDocument → String) (simulate : Bool) (inspector : Reporter)
    (now : ℕ) (db : QualityDb) (db' : QualityDb) : Type 0 where
  files_only :
      (new_id : ℕ) (input : CreateQualityReport)
      → db' ≡ record db { reports = insert new_id (new_report input inspector now) db.reports }
      → Files digest simulate inspector now db db'
  regrades :
      (new_id : ℕ) (input : CreateQualityReport) (passport : Passport)
      → find input.passport_id db.market.passports ≡ some passport
      → (is_seller_source (inspection_source (some inspector.role))
          && has_independent_inspection input.passport_id
              (record db { reports = insert new_id (new_report input inspector now) db.reports }))
        ≡ false
      → db'
        ≡ regrade digest simulate input.passport_id passport input.overall_grade now
            (record db { reports = insert new_id (new_report input inspector now) db.reports })
      → Files digest simulate inspector now db db'
  flags :
      (id : ℕ)
      → db' ≡ record db {
        reports = modify id (λ (r : QualityReport). record r { disputed = true }) db.reports;
      }
      → Files digest simulate inspector now db db'

module _ (digest : CanonicalDocument → String) (simulate : Bool) where
  filed_report-Files :
      (new_id : ℕ) (input : CreateQualityReport) (inspector : Reporter) (now : ℕ) (db : QualityDb)
      (passport : Passport)
      → find input.passport_id db.market.passports ≡ some passport
      → Files digest simulate inspector now db
          (filed_report digest simulate new_id input inspector now db passport)
  unfolding filed_report
  filed_report-Files new_id input inspector now db passport found =
      let filed : QualityDb = record db {
        reports = insert new_id (new_report input inspector now) db.reports;
      } in
      let stands : Bool =
        is_seller_source (inspection_source (some inspector.role))
        && has_independent_inspection input.passport_id filed in
      elim (Bool-cases stands) [
        | inl held ↦ Files.files_only new_id input (rw (held, filed_report) refl)
        | inr open_to ↦ elim (Bool-cases (is_graded passport.condition_grade input.overall_grade)) [
          | inl same ↦ Files.files_only new_id input (rw (open_to, same, filed_report) refl)
          | inr other ↦
              Files.regrades new_id input passport found open_to
                (rw (open_to, other, filed_report) refl)
        ]
      ]

  create-Files :
      (new_id : ℕ) (input : CreateQualityReport) (inspector : Reporter) (now : ℕ)
      (db db' : QualityDb) (report : QualityReport)
      → create_quality_report digest simulate new_id input inspector now db ≡ ok (db', report)
      → Files digest simulate inspector now db db'
  unfolding create_quality_report
  create-Files new_id input inspector now db db' report h =
      let (passport, found, h1) =
        require-eq-ok (find input.passport_id db.market.passports) _ _ h in
      let (registered, h2) =
        refuse-eq-ok (is_draft passport.status) (conflict Reason.not_registered) _ h1 in
      let (his, h3) =
        refuse-eq-ok
          (not (reports_on_every_organisation inspector.role)
            && not (is_id inspector.organisation_id passport.organisation_id))
          (forbidden Reason.other_hubs_material) _ h2 in
      subst (λ d. Files digest simulate inspector now db d) (ap (λ p. p.0) (ok-injective h3))
        (filed_report-Files new_id input inspector now db passport found)

  dispute-Files :
      (id : ℕ) (viewer : Reporter) (now : ℕ) (db db' : QualityDb) (report : QualityReport)
      → dispute_report id viewer db ≡ ok (db', report)
      → Files digest simulate viewer now db db'
  unfolding dispute_report
  dispute-Files id viewer now db db' report h =
      let (r, found, h1) = require-eq-ok (find id db.reports) _ _ h in
      let (holder, h2) =
        refuse-eq-ok
          (not (holds (find r.passport_id db.market.passports) viewer.organisation_id)
            && not (is_platform_admin viewer.role))
          (forbidden Reason.not_holder) _ h1 in
      let (fresh, h3) = refuse-eq-ok r.disputed (conflict Reason.already_flagged) _ h2 in
      Files.flags id (ap (λ p. p.0) (sym (ok-injective h3)))

  serve_quality-Files :
      (call : QualityCall) (session : Session) (now : ℕ) (db db' : QualityDb)
      (report : QualityReport)
      → serve_quality digest simulate call session now db ≡ ok (db', report)
      → Files digest simulate (reporter_of session) now db db'
  unfolding serve_quality authorize
  serve_quality-Files (QualityCall.post_report new_id input) session now db db' report h =
      let (passed, guarded, h1) =
        >>=-eq-ok
          (refuse (not (any (same_role session.role) reporting_roles))
              (forbidden Reason.role_not_permitted)
            >> refuse (not (create_report_schema input)) (validation Reason.invalid_body))
          (λ _. create_quality_report digest simulate new_id input (reporter_of session) now db)
          h in
      create-Files new_id input (reporter_of session) now db db' report h1
  serve_quality-Files (QualityCall.post_dispute id) session now db db' report h =
      dispute-Files id (reporter_of session) now db db' report h

  answer_quality-Files :
      (profile : Profile) (verified : Option Claims) (call : QualityCall) (now : ℕ)
      (db db' : QualityDb) (report : QualityReport)
      → answer_quality digest simulate profile verified call now db ≡ ok (db', report)
      → (session : Session) × ((load_session verified db.market ≡ ok session)
          × Files digest simulate (reporter_of session) now db db')
  unfolding answer_quality
  answer_quality-Files profile verified call now db db' report h =
      let (session, loaded, served) =
        >>=-eq-ok
          (refuse (not (is_request_allowed profile Method.post)) (forbidden Reason.read_only)
            >> load_session verified db.market)
          (λ session. serve_quality digest simulate call session now db) h in
      let (allowed, signed_in) =
        refuse-eq-ok (not (is_request_allowed profile Method.post)) (forbidden Reason.read_only)
          (load_session verified db.market) loaded in
      (session, (signed_in, serve_quality-Files call session now db db' report served))

  -- The state after a request is the state before it, or what a signed-in user's report or flag made of
  -- it.
  pub handle_quality-Files :
      (profile : Profile) (verified : Option Claims) (call : QualityCall) (now : ℕ) (db : QualityDb)
      → ((handle_quality digest simulate profile verified call now db).0 ≡ db)
        ⊎ ((session : Session) × ((load_session verified db.market ≡ ok session)
              × Files digest simulate
                  (reporter_of session)
                  now
                  db
                  (handle_quality digest simulate profile verified call now db).0))
  unfolding handle_quality
  handle_quality-Files profile verified call now db =
      elim (Result-cases (answer_quality digest simulate profile verified call now db)) [
        | inl (e, failed) ↦ inl (rw (failed, handle_quality) refl)
        | inr ((db', report), done) ↦ inr (
            rw (done, handle_quality)
              (answer_quality-Files profile verified call now db db' report done))
      ]
