-- ===== src/Market/Browse.antt =====
-- marketplace.service.ts: which lots the public browse shows (`browseConditions`), and what the page
-- of one lot reads (`getListingById`), as far as its status and what can be ordered of it.
use trace_public.Common.{
  String, ℕ, Bool, true, false, not, ◌&&◌, ◌||◌, Option, ◌≡◌, ◌↔◌, ◌==◌, is_id, some, ap, ◌∙◌, refl,
  arith,
}
use trace_public.Config.{ListingStatus, is_active}
use trace_public.Errors.{Result, ok, ok-injective, ◌>>=◌, require, not_found, Resource}
use trace_public.Store.{Listing, Db}
use trace_public.Table.{find}
use trace_public.Market.Lots.{is_curated, listing_status_at, orderable_quantity}
use trace_public.Market.Listings.{is_future}
use trace_public.Market.Offers.{Viewer, seed_source_of, may_order}

-- A null date is in no past: `expires_at is null or expires_at > now()`.
unfoldable pub browse_conditions : Bool → ℕ → Option String → Listing → Bool
browse_conditions curated_only now seed_source listing =
    is_active listing.status
    && is_future listing.expires_at now
    && (not curated_only || is_curated seed_source)

-- What `getListingById` replaces or adds.
pub record ListingPage : Type 0 where
  pub listing : Listing
  pub status : ListingStatus
  pub orderable : ℕ

abbrev page_of : Listing → Bool → ℕ → Db → ListingPage
page_of listing keep_last_curated_unit now db = record {
  listing = listing;
  status = listing_status_at listing.status listing.expires_at now;
  orderable =
      orderable_quantity listing.quantity_available
        (seed_source_of (find listing.passport_id db.passports)) keep_last_curated_unit;
}

unfoldable pub get_listing_by_id : ℕ → Bool → ℕ → Db → Result ListingPage
get_listing_by_id id keep_last_curated_unit now db = do
  listing ← require (find id db.listings) (not_found Resource.listing)
  ok (page_of listing keep_last_curated_unit now db)

-- The browse of the whole catalogue shows a lot exactly when the lot's page, read at that time, has the
-- status active.
pub browse_conditions-iff-page :
    (now id : ℕ) (seed_source : Option String) (keep : Bool) (listing : Listing) (db : Db)
    → find id db.listings ≡ some listing
    → (browse_conditions false now seed_source listing ≡ true) ↔ (
        (page : ListingPage) × (get_listing_by_id id keep now db ≡ ok page)
        × (page.status ≡ ListingStatus.active))
unfolding browse_conditions get_listing_by_id listing_status_at
browse_conditions-iff-page now id seed_source keep listing db found = (
  (λ h. (page_of listing keep now db, rw (found, get_listing_by_id) refl, ground arith)),
  (λ (page, read, active).
      let e = ok-injective (rw (found, get_listing_by_id) at read) in
      let status = ap (λ (p : ListingPage). p.status) e ∙ active in ground (arith, status)),
)

-- A lot that the browse shows may be ordered, at that time, by a person who neither created it nor is
-- of its organisation.
pub browse_conditions-may_order :
    (now : ℕ) (curated : Bool) (seed_source : Option String) (listing : Listing) (buyer : Viewer)
    → browse_conditions curated now seed_source listing ≡ true
    → (listing.seller_id == buyer.user_id || is_id buyer.organisation_id listing.organisation_id)
      ≡ false
    → may_order listing buyer now ≡ ok tt
unfolding browse_conditions may_order
browse_conditions-may_order now curated seed_source listing buyer shown other = ground arith
