-- ===== src/Tests/Market.antt =====
-- Requests of the marketplace, run: a lot goes on sale, a buyer orders part of it, and the parties
-- act on the order.
use trace_public.Common.{
  ℕ, ◌*◌, ◌≤◌, ◌<◌, true, false, none, some, [], ◌∷◌, ◌≡◌, ◌⊎◌, ◌↔◌, refl, arith, ◌==◌,
}
use trace_public.Config.{OrderStatus, max_amount_pence, is_platform_admin}
use trace_public.Store.{Listing, Passport, User, Db}
use trace_public.Table.{find, put, insert}
use trace_public.Errors.{ok, err, Failure, not_found, Resource}
use trace_public.Session.{Claims, Session, Profile, load_session}
use trace_public.Market.Lots.{orderable_quantity, settle_lot, seed_tag}
use trace_public.Market.Listings.{
  create_listing, write_listing, update_listing, is_listed_or_sold, is_decommissioned, has_no_photo,
}
use trace_public.Market.Offers.{make_offer, order_quantity}
use trace_public.Market.Transitions.{OrderAction, allowed_actions, timed_step, sides_of}
use trace_public.Market.Steps.{moved, asked_step, update_transaction}
use trace_public.Market.Sweep.{overdue_at}
use trace_public.Market.Orders.{sells_lot, get_transaction_by_id}
use trace_public.Market.Routes.{handle, dispatch}
use trace_public.Market.Invariant.{IsSound}
use trace_public.Market.Invariant.Reach.{Reaches, here, next, Step, Reaches-IsSound}
use trace_public.Market.Quantities.{order_quantity_iff, last_curated_unit_stays}
use trace_public.Market.Progress.{
  Among, allowed_actions-iff-update, overdue_at-iff-timed_step, closed_orders_stay,
}
use trace_public.Market.Access.{load_session_iff, get_transaction_by_id_sees}
use trace_public.Market.Listed.{create_listing_iff, shrinks_below_minimum}
use trace_public.Tests.Samples.{
  buyer, passports, users, seller_claims, buyer_claims, buyer_viewer, seller_viewer, for_sale,
  ten_please, post_lot, post_order, db_empty, db_listed, db_ordered, lot_ordered, order_placed,
  order_refused, db_refused, accept_it, shrink_to,
}

pub lot_found : find 100 db_ordered.listings ≡ some lot_ordered
unfolding handle dispatch find create_listing make_offer insert orderable_quantity settle_lot put
lot_found = refl

pub order_found : find 200 db_ordered.transactions ≡ some order_placed
unfolding handle dispatch find create_listing make_offer insert orderable_quantity settle_lot put
order_found = refl

no_lot_yet : find 100 db_empty.listings ≡ none
unfolding find
no_lot_yet = refl

listed : Reaches db_empty db_listed
listed =
    next here (Step.request Profile.self_hosted (some seller_claims) post_lot 1000 no_lot_yet refl)

pub ordered : Reaches db_empty db_ordered
ordered = next listed (Step.request Profile.self_hosted (some buyer_claims) post_order 2000 tt refl)

Reaches-IsSound_example : IsSound db_ordered
Reaches-IsSound_example = Reaches-IsSound passports users db_ordered ordered

pub db_listed-IsSound : IsSound db_listed
db_listed-IsSound = Reaches-IsSound passports users db_listed listed

in_time : timed_step order_placed 3000 ≡ none
unfolding timed_step
in_time = refl

allowed_actions-iff-update_example :
    Among OrderAction.accept
      (allowed_actions OrderStatus.pending (sides_of seller_viewer order_placed lot_ordered))
    ↔ ((update_transaction 200 accept_it seller_viewer 3000 db_ordered).1
        ≡ ok (
            moved
              (asked_step accept_it seller_viewer
                (sides_of seller_viewer order_placed lot_ordered)
                3000)
              order_placed))
allowed_actions-iff-update_example =
    allowed_actions-iff-update 200 accept_it seller_viewer 3000 db_ordered order_placed lot_ordered
      (Reaches-IsSound passports users db_ordered ordered) order_found lot_found in_time

closed_orders_stay_example :
    ((update_transaction 200 accept_it seller_viewer 3000 db_refused).0 ≡ db_refused)
    × ((e : Failure) × ((update_transaction 200 accept_it seller_viewer 3000 db_refused).1 ≡ err e))
unfolding find
closed_orders_stay_example =
    closed_orders_stay 200 accept_it seller_viewer 3000 db_refused order_refused refl refl

placed : make_offer 200 ten_please buyer_viewer false 2000 db_listed ≡ ok (db_ordered, order_placed)
unfolding handle dispatch find create_listing make_offer insert orderable_quantity settle_lot put
placed = refl

shrunk :
    (db' : Db) × (lot : Listing) × (update_listing 100 (shrink_to 25) 7 3000 db_ordered
      ≡ ok (db', lot))
    × (lot.quantity_available ≡ 15)
unfolding handle dispatch find create_listing make_offer insert orderable_quantity settle_lot put
    update_listing
shrunk = (_, _, refl, refl)

order_quantity_iff_example : (order_quantity lot_ordered 30 (some 30) ≡ ok 30) ↔ (
    (Path ℕ 30 30 ⊎ (1 ≤ 30)) × (30 ≤ 30) × ((5 ≤ 30) ⊎ (30 ≤ 30)) × (2500 * 30 ≤ max_amount_pence))
order_quantity_iff_example = order_quantity_iff lot_ordered 30 30 (omega arith)

asked_29 : order_quantity lot_ordered (orderable_quantity 30 (some seed_tag) true) (some 29) ≡ ok 29
unfolding order_quantity orderable_quantity
asked_29 = refl

last_curated_unit_stays_example : 29 < 30
last_curated_unit_stays_example =
    last_curated_unit_stays lot_ordered (some seed_tag) (some 29) 29 refl (omega arith) asked_29

overdue_at-iff-timed_step_example :
    (overdue_at 3000 order_placed ≡ false) ↔ (timed_step order_placed 3000 ≡ none)
overdue_at-iff-timed_step_example = overdue_at-iff-timed_step 3000 order_placed

create_listing_iff_example :
    (create_listing 100 for_sale 1 7 1000 db_empty
      ≡ ok (write_listing 100 for_sale 1 7 1000 db_empty))
    ↔ ((passport : Passport) × (find 10 db_empty.passports ≡ some passport)
        × (passport.organisation_id ≡ 7)
        × (is_listed_or_sold passport.status ≡ false)
        × (is_decommissioned passport.status ≡ false)
        × (has_no_photo passport.condition_photos ≡ false))
create_listing_iff_example = create_listing_iff 100 for_sale 1 7 1000 db_empty

shrinks_below_minimum_example :
    (db' : Db) × (lot : Listing) × (update_listing 100 (shrink_to 3) 7 3000 (record db_refused {
      listings = (100, record lot_ordered { quantity_available = 40 }) ∷ [];
    })
      ≡ ok (db', lot))
    × (lot.quantity < lot.min_order_quantity)
unfolding find
shrinks_below_minimum_example =
    shrinks_below_minimum 100 (shrink_to 3) 3000
      (record db_refused { listings = (100, record lot_ordered { quantity_available = 40 }) ∷ [] })
      (record lot_ordered { quantity_available = 40 }) 3 refl refl refl refl refl (omega arith)
      (omega arith)

load_session_iff_example :
    (load_session (some buyer_claims) db_empty
      ≡ ok (record { sub = 2; role = buyer.role; organisation_id = buyer.organisation_id }))
    ↔ ((claims : Claims) × (user : User) × (some buyer_claims ≡ some claims)
        × (find claims.sub db_empty.users ≡ some user)
        × (claims.tv ≡ some user.token_version)
        × (Path Session
            (record { sub = 2; role = buyer.role; organisation_id = buyer.organisation_id })
            (record {
              sub = claims.sub;
              role = user.role;
              organisation_id = user.organisation_id;
            })))
load_session_iff_example =
    load_session_iff (some buyer_claims) db_empty
      (record { sub = 2; role = buyer.role; organisation_id = buyer.organisation_id })

get_transaction_by_id_sees_example :
    (get_transaction_by_id 200 buyer_viewer db_ordered ≡ ok order_placed)
      × (Path ℕ 2 2
          ⊎ ((sells_lot buyer_viewer order_placed (find 100 db_ordered.listings) ≡ true)
              ⊎ (is_platform_admin buyer_viewer.role ≡ true)))
    ⊎ (get_transaction_by_id 200 buyer_viewer db_ordered ≡ err (not_found Resource.order))
      × ((2 == 2) ≡ false)
      × (sells_lot buyer_viewer order_placed (find 100 db_ordered.listings) ≡ false)
      × (is_platform_admin buyer_viewer.role ≡ false)
get_transaction_by_id_sees_example =
    get_transaction_by_id_sees 200 buyer_viewer db_ordered order_placed order_found
