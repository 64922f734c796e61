-- ===== src/Market/Invariant/Edits.antt =====
-- Editing a lot, and putting an expired one back on sale (`updateListing`), keep the invariant.
use trace_public.Common.{
  ℕ, ◌+◌, true, false, not, none, some, ◌≡◌, inl, inr, refl, ◌∙◌, sym, ap, arith, eq_true_of_not,
  is_some, Option, ◌==◌, ◌or_else◌, Bool-cases, if◌then◌else◌,
}
use trace_public.Config.{ListingStatus}
use trace_public.Errors.{ok, ◌>>◌, require-eq-ok, refuse-eq-ok, >>=-eq-ok}
use trace_public.Store.{Listing, Passport, Db}
use trace_public.Table.{find}
use trace_public.Market.Lots.{is_live, settle_lot}
use trace_public.Market.Listings.{
  UpdateListing, update_listing_schema, is_editable, is_sold, is_expired, is_listed_or_sold,
  resized, minimum_fits, apply_changes, check_not_left_expired, check_material, check_reopen,
  update_listing,
}
use trace_public.Market.Invariant.{taken, TermsFit, IsOnlyLive, IsSound}
use trace_public.Market.Invariant.Lot.{Rest, settle_lot-eq, settled-IsSound, Expects-is_some}
use trace_public.Market.Invariant.Listings.{no_live_lot}
use trace_public.Market.Invariant.Steps.{IsSound-of_ok}

pub sound-Rest : (id : ℕ) (db : Db) → IsSound db → Rest id db
sound-Rest id db sound = record {
  lots = λ j lot ne h. sound.lots j lot h;
  terms = sound.terms;
  materials = sound.materials;
  single = sound.single;
  orders = sound.orders;
}

-- The stock that an edit leaves is the new size less what orders took.
resized-stock :
    (asked : Option ℕ) (current : Listing) (took q : ℕ)
    → took + current.quantity_available ≡ current.quantity
    → resized asked current ≡ ok q
    → took + q ≡ asked or_else current.quantity
unfolding resized
resized-stock none current took q h e = ground arith
resized-stock (some n) current took q h e = ground arith

apply_changes-TermsFit :
    (input : UpdateListing) (current : Listing) (now : ℕ)
    → update_listing_schema input now ≡ true
    → TermsFit current
    → TermsFit (apply_changes input current)
unfolding apply_changes
apply_changes-TermsFit input current now valid fit = ground arith

live_of_editable :
    (s : ListingStatus) → is_editable s ≡ true → is_expired s ≡ false → is_live s ≡ true
live_of_editable s h k = ground arith

-- What `check_reopen` finds of the material.
check_reopen-free :
    (available : ℕ) (passport : Option Passport) {x : Unit {0}}
    → check_reopen available passport ≡ ok x
    → (p : Passport) × (passport ≡ some p) × (is_listed_or_sold p.status ≡ false)
unfolding check_reopen check_material
check_reopen-free available none h = absurd (ground arith)
check_reopen-free available (some p) h = (p, refl, ground arith)

module _ (id : ℕ) (input : UpdateListing) (now : ℕ) (db : Db) (current : Listing) (q : ℕ)
    (sound : IsSound db) (valid : update_listing_schema input now ≡ true)
    (found : find id db.listings ≡ some current)
    (sized : resized input.quantity current ≡ ok q) where
  abbrev changes : Listing → Listing
  changes = apply_changes input

  edited_stock : taken id db.transactions + q ≡ (changes current).quantity
  unfolding apply_changes
  edited_stock =
      resized-stock input.quantity current (taken id db.transactions) q
        (sound.lots id current found).stock sized

  edited_terms : TermsFit (changes current)
  edited_terms = apply_changes-TermsFit input current now valid (sound.terms id current found)

  material_kept : (changes current).passport_id ≡ current.passport_id
  unfolding apply_changes
  material_kept = refl

  -- A lot that is live keeps its place.
  edited_live-keeps :
      {db' : Db} {l : Listing}
      → is_live current.status ≡ true
      → settle_lot id current q changes false now db ≡ ok (db', l)
      → IsSound db'
  edited_live-keeps live h =
      IsSound-of_ok
        (settled-IsSound id current q changes false now db (sound-Rest id db sound) found
          material_kept edited_terms edited_stock (λ dead. cc (live, dead))
          (λ l. sound.single id current found live)
          (λ l. Expects-is_some current.status _ live (sound.materials id current found)))
        (sym (settle_lot-eq id current q changes false now db found) ∙ h)

  reopened-alone :
      (p : Passport)
      → find current.passport_id db.passports ≡ some p
      → is_listed_or_sold p.status ≡ false
      → IsOnlyLive id current.passport_id db.listings
  reopened-alone p has free j other h live same =
      let dead =
        no_live_lot other.status (find other.passport_id db.passports) {p = p} (rw same has) free
          (sound.materials j other h) in
      cc (live, dead)

  -- A lot that goes back on sale finds its material free.
  reopened-keeps :
      {db' : Db} {l : Listing} (p : Passport)
      → find current.passport_id db.passports ≡ some p
      → is_listed_or_sold p.status ≡ false
      → settle_lot id current q changes true now db ≡ ok (db', l)
      → IsSound db'
  reopened-keeps p has free h =
      IsSound-of_ok
        (settled-IsSound id current q changes true now db (sound-Rest id db sound) found
          material_kept edited_terms edited_stock (λ dead. cc dead) (λ l. reopened-alone p has free)
          (λ l. ap is_some has))
        (sym (settle_lot-eq id current q changes true now db found) ∙ h)

  -- The last part of `updateListing`, for a lot that is expired or live.
  settled-keeps :
      {db' : Db} {l : Listing}
      → ((if is_expired current.status
            then check_reopen q (find current.passport_id db.passports)
            else ok tt)
          >> settle_lot id current q changes (is_expired current.status) now db)
        ≡ ok (db', l)
      → is_editable current.status ≡ true
      → IsSound db'
  settled-keeps h editable = elim (Bool-cases (is_expired current.status)) [
    | inl expired ↦
        let (x, checked, h1) =
          >>=-eq-ok (check_reopen q (find current.passport_id db.passports)) _ (rw expired at h) in
        let (p, has, free) = check_reopen-free q (find current.passport_id db.passports) checked in
        reopened-keeps p has free h1
    | inr other ↦ edited_live-keeps (live_of_editable current.status editable other) (rw other at h)
  ]

-- From a state that satisfies the invariant, an edit of a lot whose input passes the check leaves, where
-- it succeeds, one that does.
pub update_listing-keeps :
    (id : ℕ) (input : UpdateListing) (organisation_id now : ℕ) (db : Db) {db' : Db} {l : Listing}
    → update_listing_schema input now ≡ true
    → IsSound db
    → update_listing id input organisation_id now db ≡ ok (db', l)
    → IsSound db'
unfolding update_listing
update_listing-keeps id input organisation_id now db valid sound h =
    let (current, found, h1) = require-eq-ok (find id db.listings) _ _ h in
    let (_, h2) = refuse-eq-ok (not (current.organisation_id == organisation_id)) _ _ h1 in
    let (_, h3) = refuse-eq-ok (is_sold current.status) _ _ h2 in
    let (editable, h4) = refuse-eq-ok (not (is_editable current.status)) _ _ h3 in
    let (q, sized, h5) = >>=-eq-ok (resized input.quantity current) _ h4 in
    let (_, _, h6) =
      >>=-eq-ok (minimum_fits input.min_order_quantity (input.quantity or_else current.quantity)) _
        h5 in
    let (_, _, h7) = >>=-eq-ok (check_not_left_expired input current now) _ h6 in
    settled-keeps id input now db current q sound valid found sized h7 (eq_true_of_not _ editable)
