-- ===== src/Market/Invariant/Listings.antt =====
-- Creating a lot (`createListing`) and taking one off the marketplace (`cancelListing`) keep the
-- invariant.
use trace_public.Common.{
  ℕ, true, false, not, ltb, none, some, ◌≡◌, ◌≢◌, inl, inr, refl, sym, ap, ◌∙◌, arith,
  eq_true_of_not, is_some, Option, ◌==◌,
}
use trace_public.Config.{ListingStatus}
use trace_public.Errors.{ok, require-eq-ok, refuse-eq-ok, >>=-eq-ok}
use trace_public.Store.{Listing, Transaction, Passport, Db}
use trace_public.Table.{Table, AllRows, find, insert}
use trace_public.Table.Laws.{find-insert_cases, is_some-find-insert, AllRows-map, sum_by_zero}
use trace_public.Market.Lots.{is_live, open_orders, passport_status_for_lot}
use trace_public.Market.Listings.{
  CreateListing, create_listing_schema, is_listed_or_sold, new_listing, may_list, write_listing,
  create_listing, is_cancellable, cancel_listing,
}
use trace_public.Market.Invariant.{
  share_of, taken, status_of, Expects, LotFits, TermsFit, OrderFits, IsOnlyLive, IsSound,
}
use trace_public.Market.Invariant.Writes.{Expects-modify_ne, Expects-modify_self}
use trace_public.Market.Invariant.Steps.{IsSound-of_ok}
use trace_public.Market.Invariant.Retire.{retired-IsSound}

live_of_cancellable : (s : ListingStatus) → is_cancellable s ≡ true → is_live s ≡ true
live_of_cancellable s h = ground arith

zero_of_ltb : (n : ℕ) → ltb 0 n ≡ false → n ≡ 0
zero_of_ltb n h = ground arith

-- Cancelling a lot keeps the invariant.
pub cancel_listing-keeps :
    (id organisation_id now : ℕ) (db : Db) {db' : Db} {l : Listing}
    → IsSound db
    → cancel_listing id organisation_id now db ≡ ok (db', l)
    → IsSound db'
unfolding cancel_listing
cancel_listing-keeps id organisation_id now db sound h =
    let (listing, found, h1) = require-eq-ok (find id db.listings) _ _ h in
    let (_, h2) = refuse-eq-ok (not (listing.organisation_id == organisation_id)) _ _ h1 in
    let (cancellable, h3) = refuse-eq-ok (not (is_cancellable listing.status)) _ _ h2 in
    let (none_open, h4) = refuse-eq-ok (ltb 0 (open_orders id db.transactions)) _ _ h3 in
    IsSound-of_ok
      (retired-IsSound id listing ListingStatus.cancelled now db sound found
        (live_of_cancellable _ (eq_true_of_not _ cancellable)) refl (zero_of_ltb _ none_open))
      h4

-- A material that may be listed has no live lot.
pub no_live_lot :
    (s : ListingStatus) (actual : Option Passport) {p : Passport}
    → actual ≡ some p
    → is_listed_or_sold p.status ≡ false
    → Expects (passport_status_for_lot s) (status_of actual)
    → is_live s ≡ false
no_live_lot ListingStatus.active (some q) e h f = ground arith
no_live_lot ListingStatus.reserved (some q) e h f = ground arith
no_live_lot ListingStatus.sold (some q) e h f = ground arith
no_live_lot ListingStatus.expired (some q) e h f = refl
no_live_lot ListingStatus.cancelled (some q) e h f = refl
no_live_lot s none e h f = cc

-- No order is of a lot that is not there.
module _ (id : ℕ) (listings : Table Listing) (fresh : find id listings ≡ none) where
  elsewhere : (order : Transaction) → OrderFits order listings → order.listing_id ≢ id
  elsewhere order o same =
      let missing : find order.listing_id listings ≡ none = rw same fresh in
      cc (ap is_some missing, o.listing)

  taken_none :
      (t : Table Transaction) → AllRows (λ order. OrderFits order listings) t → taken id t ≡ 0
  unfolding taken
  taken_none t h =
      sum_by_zero (share_of id) t
        (AllRows-map t (λ order o. let e = elsewhere order o in ground arith) h)

module _ (id : ℕ) (input : CreateListing) (seller_id organisation_id now : ℕ) (db : Db)
    (passport : Passport) (sound : IsSound db) (valid : create_listing_schema input now ≡ true)
    (fresh : find id db.listings ≡ none)
    (found : find input.passport_id db.passports ≡ some passport)
    (free : is_listed_or_sold passport.status ≡ false) where
  abbrev listing : Listing
  listing = new_listing input seller_id organisation_id now

  abbrev created : Db
  created = (write_listing id input seller_id organisation_id now db).0

  no_live_of_material :
      (j : ℕ) (lot : Listing)
      → find j db.listings ≡ some lot
      → is_live lot.status ≡ true
      → input.passport_id ≢ lot.passport_id
  no_live_of_material j lot h live same =
      let dead =
        no_live_lot lot.status (find lot.passport_id db.passports) {p = passport}
          (rw (← same) found) free (sound.materials j lot h) in
      cc (live, dead)

  listing-LotFits : LotFits id listing db.transactions
  unfolding new_listing
  listing-LotFits = record {
    stock = omega (arith, taken_none id db.listings fresh db.transactions sound.orders);
    status = ground arith;
  }

  listing-TermsFit : TermsFit listing
  unfolding new_listing
  listing-TermsFit = ground arith

  created-single :
      (i : ℕ) (lot : Listing)
      → find i (insert id listing db.listings) ≡ some lot
      → is_live lot.status ≡ true
      → IsOnlyLive i lot.passport_id (insert id listing db.listings)
  unfolding new_listing
  created-single i lot h live j other h' live' same =
      elim (find-insert_cases id i listing db.listings h) [
        | inl (here, new) ↦ elim (find-insert_cases id j listing db.listings h') [
          | inl (here', new') ↦ here' ∙ sym here
          | inr there' ↦ absurd (no_live_of_material j other there' live' (cc (new, same)))
        ]
        | inr there ↦ elim (find-insert_cases id j listing db.listings h') [
          | inl (here', new') ↦ absurd (no_live_of_material i lot there live (cc (new', same)))
          | inr there' ↦ sound.single i lot there live j other there' live' same
        ]
      ]

  created-IsSound : IsSound created
  unfolding write_listing
  created-IsSound = record {
    lots = λ j lot h. elim (find-insert_cases id j listing db.listings h) [
      | inl (here, new) ↦ rw (here, new) listing-LotFits
      | inr there ↦ sound.lots j lot there
    ];
    terms = λ j lot h. elim (find-insert_cases id j listing db.listings h) [
      | inl (here, new) ↦ rw new listing-TermsFit
      | inr there ↦ sound.terms j lot there
    ];
    materials = λ j lot h. elim (find-insert_cases id j listing db.listings h) [
      | inl (here, new) ↦
          rw new (Expects-modify_self ListingStatus.active input.passport_id now db.passports found)
      | inr there ↦
          Expects-modify_ne lot.status lot.passport_id input.passport_id _ db.passports
            (sound.materials j lot there) (no_live_of_material j lot there)
    ];
    single = created-single;
    orders =
        AllRows-map db.transactions
          (λ order o. record {
            quantity = o.quantity;
            amount = o.amount;
            unit_price = o.unit_price;
            window = o.window;
            listing = is_some-find-insert id order.listing_id listing db.listings o.listing;
          })
          sound.orders;
  }

-- Putting a lot on sale, under a new id and with an input that passes the check, keeps the
-- invariant.
pub create_listing-keeps :
    (id : ℕ) (input : CreateListing) (seller_id organisation_id now : ℕ) (db : Db) {db' : Db}
    {l : Listing}
    → create_listing_schema input now ≡ true
    → find id db.listings ≡ none
    → IsSound db
    → create_listing id input seller_id organisation_id now db ≡ ok (db', l)
    → IsSound db'
unfolding create_listing may_list
create_listing-keeps id input seller_id organisation_id now db valid fresh sound h =
    let (passport, found, h1) = require-eq-ok (find input.passport_id db.passports) _ _ h in
    let (_, may, h2) = >>=-eq-ok (may_list passport organisation_id) _ h1 in
    let (_, m1) = refuse-eq-ok (not (passport.organisation_id == organisation_id)) _ _ may in
    let (free, _) = refuse-eq-ok (is_listed_or_sold passport.status) _ _ m1 in
    IsSound-of_ok
      (created-IsSound id input seller_id organisation_id now db passport sound valid fresh found
        free)
      h2
