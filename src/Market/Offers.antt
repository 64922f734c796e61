-- ===== src/Market/Offers.antt =====
-- marketplace.service.ts: who looks at an order (`Viewer`, `sellsFor`) and placing one (`makeOffer`).
use trace_public.Common.{
  ℕ, ◌+◌, ◌-◌, ◌*◌, min, Bool, true, false, not, ◌&&◌, ◌||◌, Option, none, some, ◌∷◌, String, ltb,
  ◌==◌, is_id, ◌or_else◌,
}
use trace_public.Config.{
  OrderStatus, Role, is_active, max_amount_pence, max_lot_quantity, order_response_hours,
}
use trace_public.Errors.{
  Result, ok, ◌>>=◌, ◌>>◌, require, refuse, not_found, forbidden, validation, conflict, Resource,
  Reason,
}
use trace_public.Store.{Listing, Transaction, Passport, StepName, ActorSide, Db}
use trace_public.Table.{find, insert}
use trace_public.Market.Lots.{orderable_quantity, settle_lot}
use trace_public.Market.Listings.{is_between_1_and, optional}

-- The signed-in user, as far as orders are concerned.
pub record Viewer : Type 0 where
  pub user_id : ℕ
  pub role : Role
  pub organisation_id : Option ℕ

-- `SELLER_ROLES.includes(role)`.
abbrev pub is_seller_role : Role → Bool
is_seller_role Role.hub_admin = true
is_seller_role Role.hub_staff = true
is_seller_role Role.supplier = true
is_seller_role _ = false

-- Whether the viewer sells for a lot of this organisation, created by this user.
unfoldable pub sells_for : Viewer → ℕ → ℕ → Bool
sells_for viewer seller_id organisation_id =
    seller_id == viewer.user_id
    || is_id viewer.organisation_id organisation_id && is_seller_role viewer.role

-- `MakeOfferInput`.
pub record MakeOffer : Type 0 where
  pub listing_id : ℕ
  pub quantity : Option ℕ
  pub notes : Option String

-- The rule of `MakeOfferSchema` on the quantity.
abbrev pub make_offer_schema : MakeOffer → Bool
make_offer_schema input = optional (is_between_1_and max_lot_quantity) input.quantity

abbrev pub hour_ms : ℕ
hour_ms = 60 * 60 * 1000

abbrev pub response_window_ms : ℕ
response_window_ms = order_response_hours * hour_ms

-- `listing.expiresAt && listing.expiresAt < new Date()`.
abbrev pub is_before : Option ℕ → ℕ → Bool
is_before none now = false
is_before (some date) now = ltb date now

abbrev pub seed_source_of : Option Passport → Option String
seed_source_of none = none
seed_source_of (some passport) = passport.custom_attributes.seed_source

-- The checks of `makeOffer` on the lot, before any on the quantity.
unfoldable pub may_order : Listing → Viewer → ℕ → Result (Unit {0})
may_order listing buyer now = do
  refuse (not (is_active listing.status)) (conflict (Reason.not_available listing.status))
  refuse (listing.seller_id == buyer.user_id || is_id buyer.organisation_id listing.organisation_id)
      (forbidden Reason.own_listing)
  refuse (is_before listing.expires_at now) (conflict Reason.listing_expired)

-- The quantity that an order takes of a lot, `asked` or by default; or why it takes none.
unfoldable pub order_quantity : Listing → ℕ → Option ℕ → Result ℕ
order_quantity listing orderable asked = do
  let available = listing.quantity_available
  refuse (ltb orderable available && ltb orderable 1) (conflict Reason.last_one_stays)
  let quantity = asked or_else min listing.min_order_quantity orderable
  refuse (ltb orderable available && ltb orderable quantity) (conflict (Reason.up_to orderable))
  refuse (ltb available quantity) (conflict (Reason.only_left available))
  refuse (ltb quantity listing.min_order_quantity && ltb quantity orderable)
      (validation (Reason.below_minimum listing.min_order_quantity))
  refuse (ltb max_amount_pence (listing.price_pence * quantity)) (validation Reason.total_too_large)
  ok quantity

-- The row that `makeOffer` inserts.
unfoldable pub new_order : Listing → MakeOffer → ℕ → Viewer → ℕ → Transaction
new_order listing input quantity buyer now = record {
  listing_id = input.listing_id;
  buyer_id = buyer.user_id;
  seller_id = listing.seller_id;
  quantity = quantity;
  legacy_whole_lot = false;
  amount_pence = listing.price_pence * quantity;
  status = OrderStatus.pending;
  dispute_deadline = none;
  response_deadline = some (now + response_window_ms);
  notes = input.notes;
  created_at = now;
}

-- The order row, its first event, and the lot with its share taken; `id` is the new row's.
unfoldable pub write_order :
    ℕ → Listing → MakeOffer → ℕ → Viewer → ℕ → Db → Result (Db × Transaction)
unfolding new_order
write_order id listing input quantity buyer now db = do
  let order = new_order listing input quantity buyer now
  let written = record db {
    transactions = insert id order db.transactions;
    order_events =
        record {
          transaction_id = id;
          action = StepName.placed;
          from_status = none;
          to_status = OrderStatus.pending;
          actor_id = some buyer.user_id;
          actor_side = ActorSide.buyer;
          note = input.notes;
          created_at = now;
        }
        ∷ db.order_events;
  }
  (db', lot) ←
      settle_lot input.listing_id listing (listing.quantity_available - quantity) (λ row. row) false
        now written
  ok (db', order)

unfoldable pub make_offer : ℕ → MakeOffer → Viewer → Bool → ℕ → Db → Result (Db × Transaction)
unfolding may_order order_quantity write_order
make_offer id input buyer keep_last_curated_unit now db = do
  listing ← require (find input.listing_id db.listings) (not_found Resource.listing)
  may_order listing buyer now
  let seed_source = seed_source_of (find listing.passport_id db.passports)
  let orderable = orderable_quantity listing.quantity_available seed_source keep_last_curated_unit
  quantity ← order_quantity listing orderable input.quantity
  write_order id listing input quantity buyer now db
