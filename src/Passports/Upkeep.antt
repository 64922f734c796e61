-- ===== src/Passports/Upkeep.antt =====
-- packages/api/src/modules/passport: a request that registers or edits a material, as a whole.
use trace_public.Common.{
  eq_true_of_not, ℕ, Bool, true, false, not, ◌&&◌, Option, none, some, ◌≡◌, inl, inr, refl, sym,
  ◌∙◌, ap, String, ◌++◌, ◌∷◌, [], ◌==◌, Bool-cases,
}
use trace_public.Config.{Grade}
use trace_public.Errors.{
  ◌>>◌, Reason, forbidden, refuse, Result-cases, ok, require-eq-ok, refuse-eq-ok, >>=-eq-ok,
  ok-injective,
}
use trace_public.Session.{load_session, is_request_allowed, Claims, Profile, Session}
use trace_public.Store.{Passport, EventData}
use trace_public.Table.{find, modify}
use trace_public.Table.Laws.{find-insert_self}
use trace_public.Table.Search.{find-modify_self}
use trace_public.Market.Listings.{is_listed_or_sold}
use trace_public.Quality.{QualityDb, AnchorJob}
use trace_public.Quality.Anchors.{CanonicalDocument, compute_passport_hash, no_anchor}
use trace_public.Quality.Reports.{has_independent_inspection, is_graded}
use trace_public.Quality.Seals.{AllSealed-same_document, AllSealed-modify}
use trace_public.Passports.Inputs.{
  update_passport_schema, create_passport_schema, CreatePassport, UpdatePassport,
}
use trace_public.Passports.Edits.{
  is_unnamed, Issuer, new_passport, identified, activated, edited, changes_grade, may_edit,
  is_locked, store_draft, activate, amend, log_event, anchor_or_queue, create_passport,
  update_passport, ◌over◌,
}
use trace_public.Passports.Routes.{
  method_of_passport, PassportCall, serve_passport, handle_passport, seller_organisation,
}
use trace_public.Passports.Writes.{
  Carries, Carries-same, Carries-then, Carries-modify, Carries-draft, Carries-log, Carries-queue,
  Carries-simulate,
}

-- The id of a new material is one that no material has.
abbrev pub IsNewMaterial : PassportCall → QualityDb → Type 0
IsNewMaterial (PassportCall.post_passport new_id input) db =
    (find new_id db.market.passports ≡ none) × (find new_id db.anchors ≡ none)
IsNewMaterial (PassportCall.patch_passport id input) db = Unit

is_graded-eq : (old : Option Grade) (grade : Grade) → is_graded old grade ≡ true → some grade ≡ old
is_graded-eq none grade h = cc
is_graded-eq (some Grade.a) Grade.a h = refl
is_graded-eq (some Grade.a) Grade.b h = cc
is_graded-eq (some Grade.a) Grade.c h = cc
is_graded-eq (some Grade.a) Grade.d h = cc
is_graded-eq (some Grade.b) Grade.a h = cc
is_graded-eq (some Grade.b) Grade.b h = refl
is_graded-eq (some Grade.b) Grade.c h = cc
is_graded-eq (some Grade.b) Grade.d h = cc
is_graded-eq (some Grade.c) Grade.a h = cc
is_graded-eq (some Grade.c) Grade.b h = cc
is_graded-eq (some Grade.c) Grade.c h = refl
is_graded-eq (some Grade.c) Grade.d h = cc
is_graded-eq (some Grade.d) Grade.a h = cc
is_graded-eq (some Grade.d) Grade.b h = cc
is_graded-eq (some Grade.d) Grade.c h = cc
is_graded-eq (some Grade.d) Grade.d h = refl

and_cases : (a b : Bool) → (a && b) ≡ false → b ≡ true → a ≡ false
and_cases true b h k = sym k ∙ h
and_cases false b h k = refl

grade_kept : (given old : Option Grade) → changes_grade given old ≡ false → (given over old) ≡ old
grade_kept none old h = refl
grade_kept (some grade) old h = is_graded-eq old grade (eq_true_of_not (is_graded old grade) h)

-- Why an edit was let through.
pub may_edit-eq-ok :
    (id : ℕ) (input : UpdatePassport) (organisation_id : ℕ) (db : QualityDb) (existing : Passport)
    → may_edit id input organisation_id db ≡ ok existing
    → (find id db.market.passports ≡ some existing)
      × ((existing.organisation_id == organisation_id) ≡ true)
      × (is_locked existing.status ≡ false)
      × ((changes_grade input.condition_grade existing.condition_grade
            && has_independent_inspection id db)
          ≡ false)
unfolding may_edit
may_edit-eq-ok id input organisation_id db existing h =
    let (row, found, h1) = require-eq-ok (find id db.market.passports) _ _ h in
    let (his, h2) = refuse-eq-ok (not (row.organisation_id == organisation_id)) _ _ h1 in
    let (unlocked, h3) = refuse-eq-ok (is_locked row.status) _ _ h2 in
    let (free, h4) =
      refuse-eq-ok
        (changes_grade input.condition_grade row.condition_grade
          && has_independent_inspection id db)
        _ _ h3 in
    let same : row ≡ existing = ok-injective h4 in
    (
      found ∙ ap some same,
      sym (ap (λ (p : Passport). p.organisation_id == organisation_id) same)
          ∙ eq_true_of_not (row.organisation_id == organisation_id) his,
      sym (ap (λ (p : Passport). is_locked p.status) same) ∙ unlocked,
      sym (
            ap
              (λ (p : Passport).
                changes_grade input.condition_grade p.condition_grade
                && has_independent_inspection id db)
              same)
          ∙ free,
    )

module _ (digest : CanonicalDocument → String) (simulate : Bool) where
  anchor_or_queue-Carries :
      (id : ℕ) (passport : Passport) (job_time : Option ℕ) (now : ℕ) (db : QualityDb)
      → find id db.market.passports ≡ some passport
      → Carries digest db (anchor_or_queue digest simulate id passport job_time now db)
  anchor_or_queue-Carries id passport job_time now db found = elim (Bool-cases simulate) [
    | inl on ↦ rw on (Carries-simulate digest true id passport now db found)
    | inr off ↦
        let job : AnchorJob = record {
          passport_id = id;
          organisation_id = passport.organisation_id;
          queued_at = job_time;
        } in
        rw off (Carries-queue digest (db.jobs ++ (job ∷ [])) db)
  ]

  activate-Carries :
      (id : ℕ) (link : String) (qr : Option String) (now : ℕ) (db : QualityDb) (draft : Passport)
      → find id db.market.passports ≡ some draft
      → is_listed_or_sold draft.status ≡ false
      → Carries digest db (activate id link qr now db)
  unfolding compute_passport_hash
  activate-Carries id link qr now db draft found unlisted =
      let mid : QualityDb = record db {
        market = record db.market {
          passports = modify id (identified link qr now) db.market.passports;
        };
      } in
      let here = find-modify_self id (identified link qr now) db.market.passports found in
      Carries-then digest
        (Carries-modify digest id (identified link qr now) db.anchors db draft found (λ _. refl)
          (λ _. refl)
          (AllSealed-same_document digest id (identified link qr now) db.market.passports db.anchors
            draft found refl))
        (Carries-modify digest id (activated now) db.anchors mid (identified link qr now draft) here
          (λ listed. never (sym listed ∙ unlisted)) (λ _. refl)
          (AllSealed-same_document digest id (activated now) mid.market.passports db.anchors
            (identified link qr now draft) here refl))
    where
      never : true ≡ false → (activated now draft).status ≡ draft.status
      never h = cc

  create_passport-Carries :
      (issuer : Issuer) (id : ℕ) (input : CreatePassport) (user_id organisation_id now : ℕ)
      (db : QualityDb)
      → find id db.market.passports ≡ none
      → find id db.anchors ≡ none
      → Carries digest db
          (create_passport digest simulate issuer id input user_id organisation_id now db).0
  unfolding create_passport
  create_passport-Carries issuer id input user_id organisation_id now db fresh unsealed =
      let draft = new_passport input user_id organisation_id now in
      let link = issuer.passport_public_url id in
      let drafted = Carries-draft digest id draft db fresh unsealed in
      elim (Bool-cases (is_unnamed input)) [
        | inl unnamed ↦ rw (unnamed, create_passport) (Carries-same digest db db refl)
        | inr named ↦ elim (Result-cases (issuer.qr_code_of id)) [
          | inl (e, failed) ↦ rw (named, failed, create_passport) drafted
          | inr (qr, issued) ↦
              let stored = store_draft id draft db in
              let found = find-insert_self id draft db.market.passports fresh in
              let active = activate id link qr now stored in
              let logged = log_event id EventData.commissioned user_id active in
              let row =
                find-modify_self id (activated now)
                  (modify id (identified link qr now) stored.market.passports)
                  (find-modify_self id (identified link qr now) stored.market.passports found) in
              rw (named, issued, create_passport)
                (Carries-then digest drafted (
                  Carries-then digest (activate-Carries id link qr now stored draft found refl) (
                    Carries-then digest
                      (Carries-log digest id EventData.commissioned user_id active)
                      (anchor_or_queue-Carries id (activated now (identified link qr now draft))
                        none now logged row))))
        ]
      ]

  update_passport-Carries :
      (id : ℕ) (input : UpdatePassport) (user_id organisation_id now : ℕ) (db db' : QualityDb)
      (passport : Passport)
      → update_passport digest simulate id input user_id organisation_id now db ≡ ok (db', passport)
      → Carries digest db db'
  unfolding update_passport
  update_passport-Carries id input user_id organisation_id now db db' passport h =
      let (existing, let_through, made) = >>=-eq-ok (may_edit id input organisation_id db) _ h in
      let (found, his, unlocked, free) =
        may_edit-eq-ok id input organisation_id db existing let_through in
      let updated = edited input now existing in
      let event = EventData.amended (compute_passport_hash digest id updated) in
      let amended = amend id input now db in
      let row = find-modify_self id (edited input now) db.market.passports found in
      rw (sym (ap (λ p. p.0) (ok-injective made))) (
        Carries-then digest
          (Carries-modify digest id (edited input now) (modify id (λ _. no_anchor) db.anchors) db
            existing found (λ _. refl)
            (λ inspected.
              grade_kept input.condition_grade existing.condition_grade
                (and_cases _ _ free inspected))
            (AllSealed-modify digest id (edited input now) no_anchor db.market.passports db.anchors
              existing found (inl refl)))
          (Carries-then digest (Carries-log digest id event user_id amended) (
            anchor_or_queue-Carries id updated (some now) now (log_event id event user_id amended)
              row)))

  serve_passport-Carries :
      (issuer : Issuer) (call : PassportCall) (session : Session) (now : ℕ) (db : QualityDb)
      → IsNewMaterial call db
      → Carries digest db (serve_passport digest simulate issuer call session now db).0
  unfolding serve_passport
  serve_passport-Carries issuer (PassportCall.post_passport new_id input) session now db fresh =
      elim (Result-cases (seller_organisation (create_passport_schema input) session)) [
        | inl (e, failed) ↦ rw (failed, serve_passport) (Carries-same digest db db refl)
        | inr (organisation, his) ↦
            rw (his, serve_passport)
              (create_passport-Carries issuer new_id input session.sub organisation now db fresh.0
                fresh.1)
      ]
  serve_passport-Carries issuer (PassportCall.patch_passport id input) session now db fresh =
      elim (Result-cases (seller_organisation (update_passport_schema input) session)) [
        | inl (e, failed) ↦ rw (failed, serve_passport) (Carries-same digest db db refl)
        | inr (organisation, his) ↦
            elim (Result-cases
              (update_passport digest simulate id input session.sub organisation now db)) [
                | inl (e, failed) ↦
                    rw (his, failed, serve_passport) (Carries-same digest db db refl)
                | inr ((db', passport), done) ↦
                    rw (his, done, serve_passport)
                      (update_passport-Carries id input session.sub organisation now db db' passport
                        done)
              ]
      ]

  -- Whoever asks, and whatever comes of it.
  pub handle_passport-Carries :
      (issuer : Issuer) (profile : Profile) (verified : Option Claims) (call : PassportCall)
      (now : ℕ) (db : QualityDb)
      → IsNewMaterial call db
      → Carries digest db (handle_passport digest simulate issuer profile verified call now db).0
  unfolding handle_passport
  handle_passport-Carries issuer profile verified call now db fresh =
      elim (Result-cases (
        refuse (not (is_request_allowed profile (method_of_passport call)))
          (forbidden Reason.read_only)
        >> load_session verified db.market)) [
          | inl (e, failed) ↦ rw (failed, handle_passport) (Carries-same digest db db refl)
          | inr (session, passed) ↦
              rw (passed, handle_passport) (serve_passport-Carries issuer call session now db fresh)
        ]
