-- ===== src/Market/Listed.antt =====
-- When a material can go on sale, and what an edit of a lot's size leaves.
use trace_public.Common.{
  ℕ, ◌-◌, ◌≤◌, ◌<◌, Bool, true, false, not, ◌&&◌, none, some, ◌≡◌, ◌↔◌, refl, ◌==◌, ==_iff, ==_self,
  arith, eq_true_of_not, ltb, ◌or_else◌,
}
use trace_public.Config.{ListingStatus}
use trace_public.Errors.{ok, require-eq-ok, refuse-eq-ok, >>=-eq-ok}
use trace_public.Store.{Listing, Passport, Db}
use trace_public.Table.{find}
use trace_public.Market.Lots.{
  has_passed, settle_lot, settled, settled_status, write_lot, open_orders,
}
use trace_public.Market.Listings.{
  CreateListing, may_list, is_listed_or_sold, is_decommissioned, has_no_photo, create_listing,
  write_listing, UpdateListing, resized, update_listing, check_not_left_expired, apply_changes,
  minimum_fits,
}

-- A material goes on sale exactly when it exists, belongs to the seller's organisation, is not
-- listed, reserved or sold already, is not decommissioned, and has a photo.
pub create_listing_iff :
    (id : ℕ) (input : CreateListing) (seller_id organisation_id now : ℕ) (db : Db)
    → (create_listing id input seller_id organisation_id now db
        ≡ ok (write_listing id input seller_id organisation_id now db))
      ↔ ((passport : Passport) × (find input.passport_id db.passports ≡ some passport)
          × (passport.organisation_id ≡ organisation_id)
          × (is_listed_or_sold passport.status ≡ false)
          × (is_decommissioned passport.status ≡ false)
          × (has_no_photo passport.condition_photos ≡ false))
unfolding create_listing may_list
create_listing_iff id input seller_id organisation_id now db = (
  (λ h.
      let (passport, found, h1) = require-eq-ok (find input.passport_id db.passports) _ _ h in
      let (u, may, h2) = >>=-eq-ok (may_list passport organisation_id) _ h1 in
      let (own, h3) = refuse-eq-ok (not (passport.organisation_id == organisation_id)) _ _ may in
      let (free, h4) = refuse-eq-ok (is_listed_or_sold passport.status) _ _ h3 in
      let (stands, h5) = refuse-eq-ok (is_decommissioned passport.status) _ _ h4 in
      (passport, found, (==_iff _ _).0 (eq_true_of_not _ own), free, stands, ground arith)),
  (λ (passport, found, own, free, stands, photo).
      rw (found, create_listing)
        (rw (own) (rw (==_self organisation_id) (rw free (rw stands (rw photo refl)))))),
)

and_false : (b : Bool) → (b && false) ≡ false
and_false true = refl
and_false false = refl

-- An edit by its organisation that gives a lot on sale, whose date has not passed, a size of at least
-- what its orders hold but below the lot's minimum order, and no new minimum order, is accepted, and the
-- lot that is written is smaller than its minimum order.
pub shrinks_below_minimum :
    (id : ℕ) (input : UpdateListing) (now : ℕ) (db : Db) (current : Listing) (q : ℕ)
    → find id db.listings ≡ some current
    → current.status ≡ ListingStatus.active
    → has_passed (input.expires_at or_else current.expires_at) now ≡ false
    → input.quantity ≡ some q
    → input.min_order_quantity ≡ none
    → current.quantity - current.quantity_available ≤ q
    → q < current.min_order_quantity
    → (db' : Db) × (lot : Listing) × (update_listing id input current.organisation_id now db
        ≡ ok (db', lot))
      × (lot.quantity < lot.min_order_quantity)
unfolding update_listing settle_lot check_not_left_expired
shrinks_below_minimum id input now db current q found active lasts sized unsaid holds less =
    let enough : ltb q (current.quantity - current.quantity_available) ≡ false = ground arith in
    let left = q - (current.quantity - current.quantity_available) in
    let lot =
      settled (apply_changes input current) left
        (settled_status current.status left (open_orders id db.transactions) false) in
    (
      write_lot id current lot false now db,
      lot,
      rw (found, update_listing)
          (rw (==_self current.organisation_id) (
            rw active (
              rw sized (
                rw (enough, resized)
                  (rw (unsaid, minimum_fits)
                    (rw lasts (rw (and_false _) (rw (found, settle_lot) refl)))))))),
      rw sized (rw unsaid less),
    )
