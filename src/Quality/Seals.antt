-- ===== src/Quality/Seals.antt =====
-- packages/api/src/modules/quality: the materials' fingerprints, and the marketplace, after a report.
use trace_public.Common.{
  [], ◌∷◌, ◌==◌, Option-cases, ◌≢◌, ℕ, Bool, Option, none, some, ◌≡◌, ◌⊎◌, inl, inr, refl, sym, ◌∙◌,
  ap, String, some-injective, Bool-cases,
}
use trace_public.Config.{Grade}
use trace_public.Session.{Claims, Profile}
use trace_public.Store.{Passport}
use trace_public.Table.{Table, find, modify, insert}
use trace_public.Table.Laws.{find-modify_ne}
use trace_public.Table.Search.{find-modify-updated, find-modify_self, find-modify_cases, updated}
use trace_public.Market.Invariant.{IsSound, status_of}
use trace_public.Market.Invariant.Reach.{LeavesMarket, Step, Step-IsSound}
use trace_public.Quality.{QualityDb, Anchor, Reporter}
use trace_public.Quality.Anchors.{
  CanonicalDocument, compute_passport_hash, reanchor_passport, simulate_passport_anchor, touch,
}
use trace_public.Quality.Reports.{regrade, graded, new_report}
use trace_public.Quality.Routes.{QualityCall, handle_quality, reporter_of}
use trace_public.Quality.Filing.{Files, handle_quality-Files}

module _ (digest : CanonicalDocument → String) where
  -- A material's stored fingerprint is the one of its data now, or is yet to come.
  abbrev pub SealFits : ℕ → Passport → Anchor → Type 0
  SealFits id passport anchor =
      (anchor.passport_hash ≡ none)
      ⊎ (anchor.passport_hash ≡ some (compute_passport_hash digest id passport))

  abbrev pub AllSealed : Table Passport → Table Anchor → Type 0
  AllSealed passports anchors =
      (id : ℕ) (passport : Passport) (anchor : Anchor)
      → find id passports ≡ some passport
      → find id anchors ≡ some anchor
      → SealFits id passport anchor

  not_some : {a : Anchor} → none ≡ some a → ⊥
  not_some h = cc

  -- A new row of a material, and the anchor that is written with it.
  pub AllSealed-modify :
      (k : ℕ) (f : Passport → Passport) (fresh : Anchor) (passports : Table Passport)
      (anchors : Table Anchor) (passport : Passport)
      → find k passports ≡ some passport
      → SealFits k (f passport) fresh
      → AllSealed passports anchors
      → AllSealed (modify k f passports) (modify k (λ _. fresh) anchors)
  AllSealed-modify k f fresh passports anchors passport found fits sealed id p a e e' =
      elim (find-modify_cases k id f passports found e) [
        | inl (here, made) ↦
            let written : a ≡ fresh = written_anchor k fresh anchors (rw here at e') in
            rw (here, made, written) fits
        | inr (there, old) ↦ sealed id p a old (find_other k id fresh anchors there e')
      ]
    where
      written_anchor :
          (k : ℕ) (fresh : Anchor) (anchors : Table Anchor) {a : Anchor}
          → find k (modify k (λ _. fresh) anchors) ≡ some a
          → a ≡ fresh
      written_anchor k fresh anchors {a} h = elim (Option-cases (find k anchors)) [
        | inl absent ↦ absurd (
            not_some (
              sym (find-modify-updated k (λ _. fresh) anchors ∙ ap (updated (λ _. fresh)) absent)
              ∙ h))
        | inr (old, there) ↦ some-injective (sym h ∙ find-modify_self k (λ _. fresh) anchors there)
      ]

      find_other :
          (k id : ℕ) (fresh : Anchor) (anchors : Table Anchor) {a : Anchor}
          → k ≢ id
          → find id (modify k (λ _. fresh) anchors) ≡ some a
          → find id anchors ≡ some a
      find_other k id fresh anchors other h =
          sym (find-modify_ne k id (λ _. fresh) anchors other) ∙ h

  -- A row that is written with the same document.
  pub AllSealed-same_document :
      (k : ℕ) (f : Passport → Passport) (passports : Table Passport) (anchors : Table Anchor)
      (passport : Passport)
      → find k passports ≡ some passport
      → compute_passport_hash digest k (f passport) ≡ compute_passport_hash digest k passport
      → AllSealed passports anchors
      → AllSealed (modify k f passports) anchors
  AllSealed-same_document k f passports anchors passport found same sealed id p a e e' =
      elim (find-modify_cases k id f passports found e) [
        | inl (here, made) ↦ rw (here, made, same) (sealed k passport a found (rw here at e'))
        | inr (there, old) ↦ sealed id p a old e'
      ]

  -- The time of an update is not in the fingerprint.
  AllSealed-touch :
      (k now : ℕ) (passports : Table Passport) (anchors : Table Anchor) (passport : Passport)
      → find k passports ≡ some passport
      → AllSealed passports anchors
      → AllSealed (modify k (touch now) passports) anchors
  unfolding compute_passport_hash
  AllSealed-touch k now passports anchors passport found sealed =
      AllSealed-same_document k (touch now) passports anchors passport found refl sealed

  module _ (simulate : Bool) where
    regrade-AllSealed :
        (k : ℕ) (passport : Passport) (grade : Grade) (now : ℕ) (db : QualityDb)
        → find k db.market.passports ≡ some passport
        → AllSealed db.market.passports db.anchors
        → AllSealed
            (regrade digest simulate k passport grade now db).market.passports
            (regrade digest simulate k passport grade now db).anchors
    unfolding regrade reanchor_passport simulate_passport_anchor compute_passport_hash
    regrade-AllSealed k passport grade now db found sealed = elim (Bool-cases simulate) [
      | inl on ↦
          let fresh : Anchor = record {
            passport_hash = some (compute_passport_hash digest k (graded grade now passport));
            tx_hash = none;
            anchored_at = some now;
          } in
          rw on (
            AllSealed-touch k now (modify k (graded grade now) db.market.passports)
              (modify k (λ _. fresh) db.anchors) (graded grade now passport)
              (find-modify_self k (graded grade now) db.market.passports found)
              (AllSealed-modify k (graded grade now) fresh db.market.passports db.anchors passport
                found (inr refl) sealed))
      | inr off ↦
          let cleared : Anchor = record {
            passport_hash = none;
            tx_hash = none;
            anchored_at = none;
          } in
          rw off (
            AllSealed-touch k now (modify k (graded grade now) db.market.passports)
              (modify k (λ _. cleared) db.anchors) (graded grade now passport)
              (find-modify_self k (graded grade now) db.market.passports found)
              (AllSealed-modify k (graded grade now) cleared db.market.passports db.anchors passport
                found (inl refl) sealed))
    ]

    -- A new grade is no concern of the marketplace.
    status_of-modify :
        (k id : ℕ) (f : Passport → Passport) (t : Table Passport)
        → ((p : Passport) → (f p).status ≡ p.status)
        → status_of (find id (modify k f t)) ≡ status_of (find id t)
    unfolding find modify
    status_of-modify k id f [] same = refl
    status_of-modify k id f ((j, p) ∷ t) same = elim (Bool-cases (j == k)) [
      | inl here ↦ elim (Bool-cases (j == id)) [
        | inl it ↦ rw (here, it) (rw (same p) refl)
        | inr another ↦ rw (here, another) refl
      ]
      | inr there ↦ elim (Bool-cases (j == id)) [
        | inl it ↦ rw (there, it) refl
        | inr another ↦ rw (there, another) (status_of-modify k id f t same)
      ]
    ]

    regrade-LeavesMarket :
        (k : ℕ) (passport : Passport) (grade : Grade) (now : ℕ) (db : QualityDb)
        → LeavesMarket db.market (regrade digest simulate k passport grade now db).market
    unfolding regrade reanchor_passport simulate_passport_anchor
    regrade-LeavesMarket k passport grade now db =
        let kept : (id : ℕ)
            → status_of
                (find id (modify k (touch now) (modify k (graded grade now) db.market.passports)))
              ≡ status_of (find id db.market.passports) =
          λ id.
            status_of-modify k id (touch now) (modify k (graded grade now) db.market.passports)
              (λ p. refl)
            ∙ status_of-modify k id (graded grade now) db.market.passports (λ p. refl) in
        elim (Bool-cases simulate) [
          | inl on ↦ rw on (record {
            listings = refl;
            transactions = refl;
            statuses = λ id status held h. kept id ∙ h;
          })
          | inr off ↦ rw off (record {
            listings = refl;
            transactions = refl;
            statuses = λ id status held h. kept id ∙ h;
          })
        ]

    Files-keeps :
        (reporter : Reporter) (now : ℕ) (db db' : QualityDb)
        → AllSealed db.market.passports db.anchors
        → IsSound db.market
        → Files digest simulate reporter now db db'
        → AllSealed db'.market.passports db'.anchors × IsSound db'.market
    Files-keeps reporter now db db' sealed sound (Files.files_only new_id input same) =
        rw same (sealed, sound)
    Files-keeps reporter now db db' sealed sound (Files.flags k same) = rw same (sealed, sound)
    Files-keeps reporter now db db' sealed sound
          (Files.regrades new_id input passport found open_to same) =
        let filed : QualityDb = record db {
          reports = insert new_id (new_report input reporter now) db.reports;
        } in
        rw same (
          regrade-AllSealed input.passport_id passport input.overall_grade now filed found sealed,
          Step-IsSound
              (Step.elsewhere
                (regrade-LeavesMarket input.passport_id passport input.overall_grade now filed))
              sound,
        )

    -- A request of anybody that files or flags a report keeps what the materials' fingerprints promise, on
    -- a deployment that simulates the chain and on one that does not: each that is stored is the one of
    -- the material's data as it is then. It keeps the marketplace's invariant, too.
    pub seals_stay_fresh :
        (profile : Profile) (verified : Option Claims) (call : QualityCall) (now : ℕ)
        (db : QualityDb)
        → AllSealed db.market.passports db.anchors
        → IsSound db.market
        → AllSealed
            (handle_quality digest simulate profile verified call now db).0.market.passports
            (handle_quality digest simulate profile verified call now db).0.anchors
          × IsSound (handle_quality digest simulate profile verified call now db).0.market
    seals_stay_fresh profile verified call now db sealed sound =
        elim (handle_quality-Files digest simulate profile verified call now db) [
          | inl same ↦ rw same (sealed, sound)
          | inr (session, (signed_in, files)) ↦
              Files-keeps (reporter_of session) now db _ sealed sound files
        ]
