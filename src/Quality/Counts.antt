-- ===== src/Quality/Counts.antt =====
-- packages/api/src/modules/quality: an inspector's report and the queries for inspections.
use trace_public.Common.{
  ◌||◌, is_id, ℕ, Bool, true, false, not, ◌&&◌, some, [], ◌∷◌, ◌≡◌, refl, is_some, Bool-cases, inl,
  inr, ==_self, ap, String, subst,
}
use trace_public.Config.{Role}
use trace_public.Errors.{ok, require-eq-ok, refuse-eq-ok, ok-injective, conflict, forbidden, Reason}
use trace_public.Store.{Passport, User}
use trace_public.Table.{Table, find, first_where, insert}
use trace_public.Quality.{QualityDb, QualityReport, CreateQualityReport, Reporter}
use trace_public.Quality.Anchors.{CanonicalDocument, reanchor_passport, simulate_passport_anchor}
use trace_public.Quality.Reports.{
  has_independent_inspection, inspects, new_report, filed_report, regrade, create_quality_report,
  inspection_source, is_seller_source, is_graded, is_draft, reports_on_every_organisation,
}
use trace_public.Quality.Queue.{inspection_conditions, inspects_any}

is_some-first_where-hit :
    {A : Type 0} (p : A → Bool) (k : ℕ) (v : A) (t : Table A)
    → p v ≡ true
    → is_some (first_where p (insert k v t)) ≡ true
unfolding first_where insert
is_some-first_where-hit p k v [] h = rw h refl
is_some-first_where-hit p k v ((j, r) ∷ t) h = elim (Bool-cases (p r)) [
  | inl hit ↦ rw hit refl
  | inr miss ↦ rw miss (is_some-first_where-hit p k v t h)
]

none_shown : (a b : Bool) → (a && b && (not true || not true)) ≡ false
none_shown true true = refl
none_shown true false = refl
none_shown false b = refl

-- Whether the grade changes or not, the report is in and the users are as they were.
abbrev Reads : QualityDb → Table QualityReport → Table User → Type 0
Reads db reports users = (db.reports ≡ reports) × (db.market.users ≡ users)

module _ (digest : CanonicalDocument → String) (simulate : Bool) (new_id : ℕ)
    (input : CreateQualityReport) (inspector : Reporter) (now : ℕ) (db : QualityDb) where
  filed_report-Reads :
      (passport : Passport)
      → Reads
          (filed_report digest simulate new_id input inspector now db passport)
          (insert new_id (new_report input inspector now) db.reports)
          db.market.users
  unfolding filed_report regrade reanchor_passport simulate_passport_anchor
  filed_report-Reads passport =
      let filed : QualityDb = record db {
        reports = insert new_id (new_report input inspector now) db.reports;
      } in
      let stands : Bool =
        is_seller_source (inspection_source (some inspector.role))
        && has_independent_inspection input.passport_id filed in
      elim (Bool-cases stands) [
        | inl held ↦ rw (held, filed_report) (refl, refl)
        | inr open_to ↦ elim (Bool-cases (is_graded passport.condition_grade input.overall_grade)) [
          | inl same ↦ rw (open_to, same, filed_report) (refl, refl)
          | inr other ↦ elim (Bool-cases simulate) [
            | inl on ↦ rw (open_to, other, on, filed_report) (refl, refl)
            | inr off ↦ rw (open_to, other, off, filed_report) (refl, refl)
          ]
        ]
      ]

  create-Reads :
      (db' : QualityDb) (report : QualityReport)
      → create_quality_report digest simulate new_id input inspector now db ≡ ok (db', report)
      → Reads db' (insert new_id (new_report input inspector now) db.reports) db.market.users
  unfolding create_quality_report
  create-Reads db' report h =
      let (passport, found, h1) =
        require-eq-ok (find input.passport_id db.market.passports) _ _ h in
      let (registered, h2) =
        refuse-eq-ok (is_draft passport.status) (conflict Reason.not_registered) _ h1 in
      let (his, h3) =
        refuse-eq-ok
          (not (reports_on_every_organisation inspector.role)
            && not (is_id inspector.organisation_id passport.organisation_id))
          (forbidden Reason.other_hubs_material) _ h2 in
      subst
        (λ d. Reads d (insert new_id (new_report input inspector now) db.reports) db.market.users)
        (ap (λ p. p.0) (ok-injective h3)) (filed_report-Reads passport)

  -- Once the report of an inspector is filed, its material has an independent inspection, and whoever
  -- asks for the materials that have none is not shown it.
  pub inspection_counts :
      (db' : QualityDb) (report : QualityReport) (asker : Reporter) (passport : Passport)
      → inspector.role ≡ Role.inspector
      → create_quality_report digest simulate new_id input inspector now db ≡ ok (db', report)
      → (has_independent_inspection input.passport_id db' ≡ true)
        × (inspection_conditions true asker db' input.passport_id passport ≡ false)
  unfolding has_independent_inspection inspection_conditions
  inspection_counts db' report asker passport role h =
      let (reports, users) = create-Reads db' report h in
      let filed = new_report input inspector now in
      let graded : inspects input.passport_id db.market.users filed ≡ true =
        rw (role, ==_self input.passport_id) refl in
      let any : inspects_any input.passport_id db.market.users filed ≡ true =
        rw (role, ==_self input.passport_id) refl in
      let listed =
        is_some-first_where-hit (inspects_any input.passport_id db.market.users) new_id filed
          db.reports any in
      (
        rw (reports, users)
            (is_some-first_where-hit (inspects input.passport_id db.market.users) new_id filed
              db.reports graded),
        rw (reports, users)
            (rw listed (
              none_shown (not (is_draft passport.status)) (
                reports_on_every_organisation asker.role
                || is_id asker.organisation_id passport.organisation_id))),
      )
