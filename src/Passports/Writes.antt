-- ===== src/Passports/Writes.antt =====
-- packages/api/src/modules/passport: what the single writes of creating and editing a material carry
-- over: the fingerprints' promise, what the marketplace relies on, and an inspected grade.
use trace_public.Common.{
  ℕ, Bool, true, none, some, ◌≡◌, ◌⊎◌, inl, inr, refl, sym, ◌∙◌, ap, subst, String, List, is_some,
  ◌==◌, ==_iff, ==_self, Bool-cases, some-injective, true_is_false,
}
use trace_public.Config.{PassportStatus}
use trace_public.Store.{Passport, EventData}
use trace_public.Table.{Table, find, insert, modify}
use trace_public.Table.Laws.{find-insert_self, find-insert_ne, is_some-find-insert}
use trace_public.Table.Search.{find-modify_self, find-modify_split, is_some-find-modify}
use trace_public.Market.Invariant.{status_of}
use trace_public.Market.Invariant.Reach.{LeavesMarket}
use trace_public.Market.Listings.{is_listed_or_sold}
use trace_public.Quality.{QualityDb, Anchor, AnchorJob}
use trace_public.Quality.Anchors.{
  CanonicalDocument, compute_passport_hash, simulate_passport_anchor, no_anchor, touch,
}
use trace_public.Quality.Grades.{grade_of}
use trace_public.Quality.Reports.{has_independent_inspection}
use trace_public.Quality.Seals.{AllSealed, AllSealed-modify}
use trace_public.Passports.Edits.{store_draft, log_event}

-- A row that an update writes keeps a status that the marketplace relies on.
statuses-modify :
    (k : ℕ) (f : Passport → Passport) (t : Table Passport) (passport : Passport)
    → find k t ≡ some passport
    → (is_listed_or_sold passport.status ≡ true → (f passport).status ≡ passport.status)
    → (id : ℕ) (status : PassportStatus) → is_listed_or_sold status ≡ true
    → status_of (find id t) ≡ some status
    → status_of (find id (modify k f t)) ≡ some status
statuses-modify k f t passport found keeps id status held h = elim (find-modify_split k id f t) [
  | inl same ↦
      let here : some passport.status ≡ some status =
        sym (ap status_of found) ∙ (ap (λ j. status_of (find j t)) same ∙ h) in
      let it : passport.status ≡ status = some-injective here in
      ap (λ j. status_of (find j (modify k f t))) (sym same)
      ∙ (ap status_of (find-modify_self k f t found)
          ∙ (ap some (keeps (ap is_listed_or_sold it ∙ held)) ∙ here))
  | inr other ↦ ap status_of other ∙ h
]

-- A new material is none that the table had.
find-insert_cases :
    {A : Type 0} (k id : ℕ) (v : A) (t : Table A)
    → find k t ≡ none
    → ((k ≡ id) × (find id (insert k v t) ≡ some v)) ⊎ (find id (insert k v t) ≡ find id t)
find-insert_cases k id v t fresh = elim (Bool-cases (k == id)) [
  | inl same ↦
      let e : k ≡ id = (==_iff k id).0 same in
      inl (e, ap (λ j. find j (insert k v t)) (sym e) ∙ find-insert_self k v t fresh)
  | inr other ↦ inr (find-insert_ne k id v t (λ e. true_is_false (sym (rw e (==_self id)) ∙ other)))
]

-- What a step of the material's module carries over.
module _ (digest : CanonicalDocument → String) where
  abbrev pub Sealed : QualityDb → Type 0
  Sealed db = AllSealed digest db.market.passports db.anchors

  -- `id` is a material that an inspector has graded, with the grade that it has in `db`.
  pub record Carries (db db' : QualityDb) : Type 0 where
    pub seals : Sealed db → Sealed db'
    pub market : LeavesMarket db.market db'.market
    pub reports : db'.reports ≡ db.reports
    pub users : db'.market.users ≡ db.market.users
    pub grades :
        (id : ℕ)
        → is_some (find id db.market.passports) ≡ true
        → has_independent_inspection id db ≡ true
        → (is_some (find id db'.market.passports) ≡ true)
          × (grade_of (find id db'.market.passports) ≡ grade_of (find id db.market.passports))

  pub inspected-carried :
      (db db' : QualityDb) (id : ℕ)
      → db'.reports ≡ db.reports
      → db'.market.users ≡ db.market.users
      → has_independent_inspection id db' ≡ has_independent_inspection id db
  unfolding has_independent_inspection
  inspected-carried db db' id same_reports same_users = rw (same_reports, same_users) refl

  pub Carries-same : (db db' : QualityDb) → db' ≡ db → Carries db db'
  Carries-same db db' same = rw same (record {
    seals = λ h. h;
    market = record { listings = refl; transactions = refl; statuses = λ id status held h. h };
    reports = refl;
    users = refl;
    grades = λ id there inspected. (there, refl);
  })

  pub Carries-then : {a b c : QualityDb} → Carries a b → Carries b c → Carries a c
  Carries-then {a} {b} {c} first second = record {
    seals = λ h. second.seals (first.seals h);
    market = record {
      listings = second.market.listings ∙ first.market.listings;
      transactions = second.market.transactions ∙ first.market.transactions;
      statuses = λ id status held h.
          second.market.statuses id status held (first.market.statuses id status held h);
    };
    reports = second.reports ∙ first.reports;
    users = second.users ∙ first.users;
    grades = λ id there inspected.
        let (there', same) = first.grades id there inspected in
        let still = inspected-carried a b id first.reports first.users ∙ inspected in
        let (there'', same') = second.grades id there' still in (there'', same' ∙ same);
  }

  -- An update of one material's row, with or without its fingerprint's.
  pub Carries-modify :
      (k : ℕ) (f : Passport → Passport) (anchors : Table Anchor) (db : QualityDb)
      (passport : Passport)
      → find k db.market.passports ≡ some passport
      → (is_listed_or_sold passport.status ≡ true → (f passport).status ≡ passport.status)
      → (has_independent_inspection k db ≡ true
          → (f passport).condition_grade ≡ passport.condition_grade)
      → (Sealed db → AllSealed digest (modify k f db.market.passports) anchors)
      → Carries db (record db {
        market = record db.market { passports = modify k f db.market.passports };
        anchors = anchors;
      })
  Carries-modify k f anchors db passport found status grade seals = record {
    seals = seals;
    market = record {
      listings = refl;
      transactions = refl;
      statuses = statuses-modify k f db.market.passports passport found status;
    };
    reports = refl;
    users = refl;
    grades = λ id there inspected. (
      is_some-find-modify k id f db.market.passports there,
      elim (find-modify_split k id f db.market.passports) [
        | inl same ↦
            let his : has_independent_inspection k db ≡ true =
              subst (λ j. has_independent_inspection j db ≡ true) (sym same) inspected in
            subst
              (λ j.
                grade_of (find j (modify k f db.market.passports))
                ≡ grade_of (find j db.market.passports))
              same
              (ap grade_of (find-modify_self k f db.market.passports found)
                ∙ (grade his ∙ sym (ap grade_of found)))
        | inr other ↦ ap grade_of other
      ],
    );
  }

  pub Carries-draft :
      (k : ℕ) (passport : Passport) (db : QualityDb)
      → find k db.market.passports ≡ none
      → find k db.anchors ≡ none
      → Carries db (store_draft k passport db)
  Carries-draft k passport db fresh unsealed = record {
    seals = λ sealed id p a e e'. elim (find-insert_cases k id passport db.market.passports fresh) [
      | inl (same, row) ↦ inl (yet_to_come id p a same e')
      | inr old ↦ elim (find-insert_cases k id no_anchor db.anchors unsealed) [
        | inl (same, row) ↦
            inl (ap (λ (r : Anchor). r.passport_hash) (some-injective (sym e' ∙ row)))
        | inr old' ↦ sealed id p a (sym old ∙ e) (sym old' ∙ e')
      ]
    ];
    market = record {
      listings = refl;
      transactions = refl;
      statuses = λ id status held h.
          elim (find-insert_cases k id passport db.market.passports fresh) [
            | inl (same, row) ↦
                absurd
                  (unlisted id status (sym (ap (λ j. find j db.market.passports) same) ∙ fresh) h)
            | inr old ↦ ap status_of old ∙ h
          ];
    };
    reports = refl;
    users = refl;
    grades = λ id there inspected. (
      is_some-find-insert k id passport db.market.passports there,
      elim (find-insert_cases k id passport db.market.passports fresh) [
        | inl (same, row) ↦ absurd (
            true_is_false
              (sym there ∙ ap is_some (sym (ap (λ j. find j db.market.passports) same) ∙ fresh)))
        | inr old ↦ ap grade_of old
      ],
    );
  }
    where
      yet_to_come :
          (id : ℕ) (p : Passport) (a : Anchor)
          → k ≡ id
          → find id (insert k no_anchor db.anchors) ≡ some a
          → a.passport_hash ≡ none
      yet_to_come id p a same e' =
          ap (λ (r : Anchor). r.passport_hash)
            (some-injective (
              sym e'
              ∙ (ap (λ j. find j (insert k no_anchor db.anchors)) (sym same)
                  ∙ find-insert_self k no_anchor db.anchors unsealed)))

      unlisted :
          (id : ℕ) (status : PassportStatus)
          → find id db.market.passports ≡ none
          → status_of (find id db.market.passports) ≡ some status
          → ⊥
      unlisted id status gone h = cc

  -- Neither an event nor a job is read by what is carried.
  pub Carries-log :
      (k : ℕ) (event_data : EventData) (actor_id : ℕ) (db : QualityDb)
      → Carries db (log_event k event_data actor_id db)
  Carries-log k event_data actor_id db = record {
    seals = λ h. h;
    market = record { listings = refl; transactions = refl; statuses = λ id status held h. h };
    reports = refl;
    users = refl;
    grades = λ id there inspected. (there, refl);
  }

  pub Carries-queue :
      (jobs : List AnchorJob) (db : QualityDb) → Carries db (record db { jobs = jobs })
  Carries-queue jobs db = record {
    seals = λ h. h;
    market = record { listings = refl; transactions = refl; statuses = λ id status held h. h };
    reports = refl;
    users = refl;
    grades = λ id there inspected. (there, refl);
  }

  pub Carries-simulate :
      (simulate : Bool) (k : ℕ) (passport : Passport) (now : ℕ) (db : QualityDb)
      → find k db.market.passports ≡ some passport
      → Carries db (simulate_passport_anchor digest simulate k passport now db)
  unfolding simulate_passport_anchor compute_passport_hash
  Carries-simulate simulate k passport now db found =
      let fresh : Anchor = record {
        passport_hash = some (compute_passport_hash digest k passport);
        tx_hash = none;
        anchored_at = some now;
      } in
      Carries-modify k (touch now) (modify k (λ _. fresh) db.anchors) db passport found (λ _. refl)
        (λ _. refl)
        (AllSealed-modify digest k (touch now) fresh db.market.passports db.anchors passport found
          (inr refl))
