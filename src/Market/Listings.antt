-- ===== src/Market/Listings.antt =====
-- marketplace.service.ts: a seller's own lots (`createListing`, `updateListing`, `cancelListing`),
-- and the checks on their input in packages/core/src/validators/listing.schema.ts.
use text.Mathlib.Text.{◌==◌ as str_eq}
use trace_public.Common.{
  all, any, length, utf16_length, ℕ, ◌-◌, Bool, true, false, not, ◌&&◌, ◌||◌, Option, none, some,
  List, [], ◌∷◌, String, ltb, leb, ◌==◌, ◌or_else◌, if◌then◌else◌,
}
use trace_public.Config.{ListingStatus, PassportStatus, max_amount_pence, max_lot_quantity}
use trace_public.Errors.{
  Result, ok, err, ◌>>=◌, ◌>>◌, require, refuse, not_found, forbidden, validation, conflict,
  material_relisted, Resource, Reason,
}
use trace_public.Store.{Listing, Passport, ShippingOption, Db, offered_for_sale}
use trace_public.Table.{find, put, insert, modify}
use trace_public.Market.Lots.{
  listing_status_at, has_passed, open_orders, settle_lot, set_passport_status,
}

-- `CreateListingInput`.
pub record CreateListing : Type 0 where
  pub passport_id : ℕ
  pub price_pence : ℕ
  pub currency : String
  pub quantity : ℕ
  pub min_order_quantity : ℕ
  pub shipping_options : List ShippingOption
  pub expires_at : Option ℕ

-- `z.number().int().positive().max(most)`.
abbrev pub is_between_1_and : ℕ → ℕ → Bool
is_between_1_and most n = ltb 0 n && leb n most

abbrev pub is_future : Option ℕ → ℕ → Bool
is_future none now = true
is_future (some date) now = ltb now date

-- `z.number().int().positive().optional()`.
abbrev is_positive_if_given : Option ℕ → Bool
is_positive_if_given none = true
is_positive_if_given (some n) = ltb 0 n

-- `ShippingOptionSchema`; a cost is a natural number, so that it is not negative.
abbrev pub shipping_option_schema : ShippingOption → Bool
shipping_option_schema option =
    any (str_eq option.method) ("collection" ∷ "delivery" ∷ "both" ∷ [])
    && is_positive_if_given option.delivery_radius_miles
    && leb (utf16_length (option.notes or_else "")) 500

-- `z.array(ShippingOptionSchema).min(1)`.
abbrev pub shipping_options_schema : List ShippingOption → Bool
shipping_options_schema options = leb 1 (length options) && all shipping_option_schema options

abbrev shipping_options_if_given : Option (List ShippingOption) → Bool
shipping_options_if_given none = true
shipping_options_if_given (some options) = shipping_options_schema options

-- The rules of `CreateListingSchema` on a typed body.
abbrev pub create_listing_schema : CreateListing → ℕ → Bool
create_listing_schema input now =
    is_between_1_and max_amount_pence input.price_pence
    && utf16_length input.currency == 3
    && is_between_1_and max_lot_quantity input.quantity
    && is_between_1_and max_lot_quantity input.min_order_quantity
    && shipping_options_schema input.shipping_options
    && is_future input.expires_at now
    && leb input.min_order_quantity input.quantity

-- `passport.status === 'listed' || … 'reserved' || … 'sold'`.
abbrev pub is_listed_or_sold : PassportStatus → Bool
is_listed_or_sold PassportStatus.listed = true
is_listed_or_sold PassportStatus.reserved = true
is_listed_or_sold PassportStatus.sold = true
is_listed_or_sold _ = false

abbrev pub is_decommissioned : PassportStatus → Bool
is_decommissioned PassportStatus.decommissioned = true
is_decommissioned _ = false

abbrev pub has_no_photo : Option (List String) → Bool
has_no_photo none = true
has_no_photo (some []) = true
has_no_photo (some (_ ∷ _)) = false

-- The row that `createListing` inserts.
unfoldable pub new_listing : CreateListing → ℕ → ℕ → ℕ → Listing
new_listing input seller_id organisation_id now = record {
  passport_id = input.passport_id;
  organisation_id = organisation_id;
  seller_id = seller_id;
  price_pence = input.price_pence;
  currency = input.currency;
  quantity = input.quantity;
  quantity_available = input.quantity;
  min_order_quantity = input.min_order_quantity;
  shipping_options = input.shipping_options;
  status = ListingStatus.active;
  expires_at = input.expires_at;
  created_at = now;
}

-- The checks of `createListing` on the passport.
unfoldable pub may_list : Passport → ℕ → Result (Unit {0})
may_list passport organisation_id = do
  refuse (not (passport.organisation_id == organisation_id))
      (forbidden Reason.passport_of_other_organisation)
  refuse (is_listed_or_sold passport.status) (conflict Reason.already_listed_or_sold)
  refuse (is_decommissioned passport.status) (conflict Reason.decommissioned)
  refuse (has_no_photo passport.condition_photos) (conflict Reason.photo_required)

-- What `createListing` writes once its checks have passed; `id` is the new row's.
unfoldable pub write_listing : ℕ → CreateListing → ℕ → ℕ → ℕ → Db → Db × Listing
unfolding new_listing
write_listing id input seller_id organisation_id now db =
    let listing = new_listing input seller_id organisation_id now in
    (
      record db {
        listings = insert id listing db.listings;
        passports =
            modify input.passport_id (set_passport_status (some PassportStatus.listed) now)
              db.passports;
        passport_events =
            record {
              passport_id = input.passport_id;
              event_data = offered_for_sale id;
              actor_id = some seller_id;
            }
            ∷ db.passport_events;
      },
      listing,
    )

unfoldable pub create_listing : ℕ → CreateListing → ℕ → ℕ → ℕ → Db → Result (Db × Listing)
unfolding may_list write_listing
create_listing id input seller_id organisation_id now db = do
  passport ← require (find input.passport_id db.passports) (not_found Resource.passport)
  may_list passport organisation_id
  ok (write_listing id input seller_id organisation_id now db)

-- `UpdateListingInput`; `expires_at` is `none` where the field is absent, `some none` where it is
-- null.
pub record UpdateListing : Type 0 where
  pub price_pence : Option ℕ
  pub quantity : Option ℕ
  pub min_order_quantity : Option ℕ
  pub shipping_options : Option (List ShippingOption)
  pub expires_at : Option (Option ℕ)

abbrev pub optional : (ℕ → Bool) → Option ℕ → Bool
optional p none = true
optional p (some n) = p n

-- The rules of `UpdateListingSchema` on a typed body.
abbrev pub update_listing_schema : UpdateListing → ℕ → Bool
update_listing_schema input now =
    optional (is_between_1_and max_amount_pence) input.price_pence
    && optional (is_between_1_and max_lot_quantity) input.quantity
    && optional (is_between_1_and max_lot_quantity) input.min_order_quantity
    && shipping_options_if_given input.shipping_options
    && is_future (input.expires_at or_else none) now

-- `EDITABLE_LOT_STATUSES.includes(status)`.
abbrev pub is_editable : ListingStatus → Bool
is_editable ListingStatus.active = true
is_editable ListingStatus.reserved = true
is_editable ListingStatus.expired = true
is_editable _ = false

abbrev pub is_sold : ListingStatus → Bool
is_sold ListingStatus.sold = true
is_sold _ = false

abbrev pub is_expired : ListingStatus → Bool
is_expired ListingStatus.expired = true
is_expired _ = false

-- The stock after an edit of the lot size: what orders hold is kept.
unfoldable pub resized : Option ℕ → Listing → Result ℕ
resized none current = ok current.quantity_available
resized (some quantity) current =
    let committed = current.quantity - current.quantity_available in
    if ltb quantity committed
    then err (conflict (Reason.below_committed committed))
    else ok (quantity - committed)

unfoldable pub minimum_fits : Option ℕ → ℕ → Result (Unit {0})
minimum_fits none quantity = ok tt
minimum_fits (some minimum) quantity =
    refuse (ltb quantity minimum) (validation Reason.minimum_above_quantity)

-- The columns that an edit sets.
unfoldable pub apply_changes : UpdateListing → Listing → Listing
apply_changes input row = record row {
  price_pence = input.price_pence or_else row.price_pence;
  quantity = input.quantity or_else row.quantity;
  min_order_quantity = input.min_order_quantity or_else row.min_order_quantity;
  shipping_options = input.shipping_options or_else row.shipping_options;
  expires_at = input.expires_at or_else row.expires_at;
}

-- A lot that reads expired may only be edited so that it is not.
unfoldable pub check_not_left_expired : UpdateListing → Listing → ℕ → Result (Unit {0})
unfolding listing_status_at
check_not_left_expired input current now =
    refuse
      ((is_expired (listing_status_at current.status current.expires_at now)
          || is_expired current.status)
        && has_passed (input.expires_at or_else current.expires_at) now)
      (conflict Reason.still_expired)

abbrev pub is_free : PassportStatus → Bool
is_free PassportStatus.active = true
is_free _ = false

-- When the lot expired its material became free to list again: it must still be.
unfoldable pub check_material : Option Passport → Result (Unit {0})
check_material none = err material_relisted
check_material (some passport) = do
  refuse (is_decommissioned passport.status) (conflict Reason.decommissioned)
  refuse (not (is_free passport.status)) material_relisted

-- What has to hold for an expired lot to go back on sale.
unfoldable pub check_reopen : ℕ → Option Passport → Result (Unit {0})
unfolding check_material
check_reopen quantity_available passport = do
  refuse (ltb quantity_available 1) (conflict Reason.nothing_left)
  check_material passport

-- The unlocked read, whose row is checked first, and the locked one see one row here: the model
-- runs one request at a time.
unfoldable pub update_listing : ℕ → UpdateListing → ℕ → ℕ → Db → Result (Db × Listing)
unfolding resized minimum_fits apply_changes check_not_left_expired check_reopen
update_listing id input organisation_id now db = do
  current ← require (find id db.listings) (not_found Resource.listing)
  refuse (not (current.organisation_id == organisation_id))
      (forbidden Reason.listing_of_other_organisation)
  refuse (is_sold current.status) (conflict Reason.lot_sold)
  refuse (not (is_editable current.status)) (conflict (Reason.not_updatable current.status))
  quantity_available ← resized input.quantity current
  minimum_fits input.min_order_quantity (input.quantity or_else current.quantity)
  check_not_left_expired input current now
  let reopen = is_expired current.status
  (if reopen
      then check_reopen quantity_available (find current.passport_id db.passports)
      else ok tt)
  settle_lot id current quantity_available (apply_changes input) reopen now db

-- `['active', 'reserved'].includes(status)`.
abbrev pub is_cancellable : ListingStatus → Bool
is_cancellable ListingStatus.active = true
is_cancellable ListingStatus.reserved = true
is_cancellable _ = false

unfoldable pub cancel_listing : ℕ → ℕ → ℕ → Db → Result (Db × Listing)
cancel_listing id organisation_id now db = do
  listing ← require (find id db.listings) (not_found Resource.listing)
  refuse (not (listing.organisation_id == organisation_id))
      (forbidden Reason.listing_of_other_organisation)
  refuse (not (is_cancellable listing.status)) (conflict (Reason.not_cancellable listing.status))
  refuse (ltb 0 (open_orders id db.transactions))
      (conflict (Reason.has_open_orders (open_orders id db.transactions)))
  let cancelled = record listing { status = ListingStatus.cancelled }
  ok (
    record db {
      listings = put id cancelled db.listings;
      passports =
          modify listing.passport_id (set_passport_status (some PassportStatus.active) now)
            db.passports;
    },
    cancelled,
  )
