-- ===== src/Market/Invariant/Reach.antt =====
-- The marketplace as a transition system: requests and sweeps in any order, and what the rest of the
-- platform does to materials in between.
use trace_public.Common.{ℕ, true, Option, some, [], ◌≡◌, refl, inl, inr, not}
use trace_public.Config.{ListingStatus, PassportStatus}
use trace_public.Errors.{◌>>◌, Result-cases, refuse, forbidden, Reason}
use trace_public.Store.{Listing, Passport, User, Db}
use trace_public.Table.{Table, find}
use trace_public.Session.{Claims, Profile, is_request_allowed, load_session}
use trace_public.Market.Lots.{passport_status_for_lot}
use trace_public.Market.Listings.{is_listed_or_sold}
use trace_public.Market.Sweep.{sweep_order_lifecycle}
use trace_public.Market.Routes.{Request, method_of, handle}
use trace_public.Market.Invariant.{status_of, Expects, IsSound}
use trace_public.Market.Invariant.Requests.{sweep-IsSound}
use trace_public.Market.Invariant.History.{IsFresh, dispatch-IsSound}

-- A state with these materials and users, and no lot and no order yet.
abbrev pub opening : Table Passport → Table User → Db
opening passports users = record {
  listings = [];
  transactions = [];
  order_events = [];
  passports = passports;
  passport_events = [];
  users = users;
}

nowhere : (id : ℕ) {lot : Listing} → find id [] ≡ some lot → ⊥
unfolding find
nowhere id h = cc

pub opening-IsSound :
    (passports : Table Passport) (users : Table User) → IsSound (opening passports users)
opening-IsSound passports users = record {
  lots = λ id lot h. absurd (nowhere id h);
  terms = λ id lot h. absurd (nowhere id h);
  materials = λ id lot h. absurd (nowhere id h);
  single = λ id lot h. absurd (nowhere id h);
  orders = tt;
}

-- What the other services may do between two requests: add materials, users and events, and change
-- what they like, but no lot, no order, and no status of a material that is listed, reserved or sold.
pub record LeavesMarket (db db' : Db) : Type 0 where
  pub listings : db'.listings ≡ db.listings
  pub transactions : db'.transactions ≡ db.transactions
  pub statuses :
      (id : ℕ) (status : PassportStatus)
      → is_listed_or_sold status ≡ true
      → status_of (find id db.passports) ≡ some status
      → status_of (find id db'.passports) ≡ some status

-- One step of the marketplace.
pub data Step (db db' : Db) : Type 0 where
  request :
      (profile : Profile) (verified : Option Claims) (r : Request) (now : ℕ)
      → IsFresh r db
      → db' ≡ (handle profile verified r now db).0
      → Step db db'
  sweep : (now : ℕ) → db' ≡ (sweep_order_lifecycle now db).0 → Step db db'
  elsewhere : LeavesMarket db db' → Step db db'

pub data Reaches (start : Db) : Db → Type 0 where
  here : Reaches start start
  next : {db db' : Db} → Reaches start db → Step db db' → Reaches start db'

pub handle-IsSound :
    (profile : Profile) (verified : Option Claims) (r : Request) (now : ℕ) (db : Db)
    → IsFresh r db
    → IsSound db
    → IsSound (handle profile verified r now db).0
unfolding handle
handle-IsSound profile verified r now db fresh sound =
    elim (Result-cases (
      refuse (not (is_request_allowed profile (method_of r))) (forbidden Reason.read_only)
      >> load_session verified db)) [
        | inl (e, failed) ↦ rw (failed, handle) sound
        | inr (session, passed) ↦
            rw (passed, handle) (dispatch-IsSound session now db sound r profile fresh)
      ]

Expects-kept :
    (s : ListingStatus) (id : ℕ) (db db' : Db)
    → LeavesMarket db db'
    → Expects (passport_status_for_lot s) (status_of (find id db.passports))
    → Expects (passport_status_for_lot s) (status_of (find id db'.passports))
Expects-kept ListingStatus.active id db db' same h = same.statuses id PassportStatus.listed refl h
Expects-kept ListingStatus.reserved id db db' same h =
    same.statuses id PassportStatus.reserved refl h
Expects-kept ListingStatus.sold id db db' same h = same.statuses id PassportStatus.sold refl h
Expects-kept ListingStatus.expired id db db' same h = tt
Expects-kept ListingStatus.cancelled id db db' same h = tt

elsewhere-IsSound : (db db' : Db) → LeavesMarket db db' → IsSound db → IsSound db'
elsewhere-IsSound db db' same sound = record {
  lots = λ id lot h. rw same.transactions (sound.lots id lot (rw same.listings at h));
  terms = λ id lot h. sound.terms id lot (rw same.listings at h);
  materials = λ id lot h.
      Expects-kept lot.status lot.passport_id db db' same
        (sound.materials id lot (rw same.listings at h));
  single = λ id lot h live. rw same.listings (sound.single id lot (rw same.listings at h) live);
  orders = rw (same.listings, same.transactions) sound.orders;
}

-- Every step keeps the invariant.
pub Step-IsSound : {db db' : Db} → Step db db' → IsSound db → IsSound db'
Step-IsSound {db} (request profile verified r now fresh same) sound =
    rw same (handle-IsSound profile verified r now db fresh sound)
Step-IsSound {db} (sweep now same) sound = rw same (sweep-IsSound now db sound)
Step-IsSound {db} {db'} (elsewhere same) sound = elsewhere-IsSound db db' same sound

Reaches-IsSound_from : {start db : Db} → IsSound start → Reaches start db → IsSound db
Reaches-IsSound_from sound here = sound
Reaches-IsSound_from sound (next r s) = Step-IsSound s (Reaches-IsSound_from sound r)

-- The invariant holds in every state that the marketplace reaches from one with no lots and no orders,
-- by requests of anybody, sweeps and steps of the other services, in any order. A new lot's id is one
-- that no lot has, and the other services change no lot, no order and no status of a material that is
-- listed, reserved or sold. The invariant: each lot's price, size and minimum order are in their
-- ranges; its stock is its size less what its orders hold or bought; its status follows from its
-- stock and its open orders, and no order is open on an expired or cancelled lot; its material is
-- listed, reserved or sold as the lot is; no material has two live lots; and every order is for at
-- least one unit, of a lot that exists, at a total between 1 and the largest amount that is a whole
-- number of pence a unit, with no date for reporting a problem while it is pending and with one from
-- its acceptance on, unless it is cancelled.
pub Reaches-IsSound :
    (passports : Table Passport) (users : Table User) (db : Db)
    → Reaches (opening passports users) db
    → IsSound db
Reaches-IsSound passports users db r = Reaches-IsSound_from (opening-IsSound passports users) r
