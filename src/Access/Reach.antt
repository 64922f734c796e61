-- ===== src/Access/Reach.antt =====
-- packages/api/src/modules/access-request and the marketplace as one transition system.
use trace_public.Common.{ap, ℕ, Option, some, [], ◌≡◌, inl, inr, refl}
use trace_public.Session.{Session, Claims, Profile}
use trace_public.Store.{Db, Passport, User}
use trace_public.Table.{Table, find}
use trace_public.Market.Invariant.{IsSound}
use trace_public.Market.Invariant.Reach.{opening, opening-IsSound, LeavesMarket, Step, Step-IsSound}
use trace_public.Access.{AccessDb}
use trace_public.Access.Routes.{AccessCall, handle_access}
use trace_public.Access.Moves.{Resolves, Move}
use trace_public.Access.Moves.Inversion.{handle_access-Move}
use trace_public.Access.Keeps.{Move-IsOrderly}
use trace_public.Access.Orderly.{IsOrderly}

unchanged : {market : Db} → LeavesMarket market market
unchanged = record { listings = refl; transactions = refl; statuses = λ id status held h. h }

users_only :
    {market : Db} {users : Table User} → LeavesMarket market (record market { users = users })
users_only = record { listings = refl; transactions = refl; statuses = λ id status held h. h }

pub Resolves-market :
    {db mid : AccessDb} {now new_id id : ℕ} → Resolves db now new_id mid id → mid.market ≡ db.market
Resolves-market {db} (Resolves.existing there same) = ap (λ (d : AccessDb). d.market) same
Resolves-market {db} (Resolves.created name slug free is_new same) =
    ap (λ (d : AccessDb). d.market) same

-- No move touches a lot, an order or a material.
Move-LeavesMarket :
    (session : Session) (now : ℕ) (db db' : AccessDb)
    → Move session now db db'
    → LeavesMarket db.market db'.market
Move-LeavesMarket session now db db' (Move.reads same) = rw same unchanged
Move-LeavesMarket session now db db' (Move.submits new_id input a_buyer none_open same) =
    rw same unchanged
Move-LeavesMarket session now db db' (Move.edits id input admin found open_still same) =
    rw same unchanged
Move-LeavesMarket session now db db'
      (Move.approves new_id id place input r mid admin found open_still resolved same) =
    rw (same, Resolves-market resolved) users_only
Move-LeavesMarket session now db db'
      (Move.regrants new_id id place input r mid admin found approved_still a_seller resolved
        same) =
    rw (same, Resolves-market resolved) users_only
Move-LeavesMarket session now db db'
      (Move.demotes id input r admin found approved_still buyer same) =
    rw same users_only
Move-LeavesMarket session now db db' (Move.renames id input admin found same) = rw same unchanged
Move-LeavesMarket session now db db' (Move.rejects id notes admin found open_still same) =
    rw same unchanged

-- A step of the platform: a request for access, or a step of the marketplace.
pub data PlatformStep (db db' : AccessDb) : Type 0 where
  access :
      (profile : Profile) (verified : Option Claims) (call : AccessCall) (now : ℕ)
      → db' ≡ (handle_access profile verified call now db).0
      → PlatformStep db db'
  market :
      (after : Db) → Step db.market after → db' ≡ record db { market = after } → PlatformStep db db'

pub data ReachesAccess (start : AccessDb) : AccessDb → Type 0 where
  here : ReachesAccess start start
  next :
      {db db' : AccessDb} → ReachesAccess start db → PlatformStep db db' → ReachesAccess start db'

-- No lots, no orders, no organisations and no requests yet.
abbrev pub platform_opening : Table Passport → Table User → AccessDb
platform_opening passports users = record {
  market = opening passports users;
  organisations = [];
  access_requests = [];
}

PlatformStep-keeps :
    {db db' : AccessDb}
    → PlatformStep db db'
    → IsSound db.market × IsOrderly db
    → IsSound db'.market × IsOrderly db'
PlatformStep-keeps {db} {db'} (access profile verified call now same) (sound, orderly) =
    elim (handle_access-Move profile verified call now db) [
      | inl unchanged ↦ rw (same, unchanged) (sound, orderly)
      | inr (session, signed_in, move) ↦ rw same (
        Step-IsSound (Step.elsewhere (Move-LeavesMarket session now db _ move)) sound,
        Move-IsOrderly session now db _ move orderly,
      )
    ]
PlatformStep-keeps {db} (market after step same) (sound, orderly) = rw same (
  Step-IsSound step sound,
  record { single = orderly.single; fits = orderly.fits; addresses = orderly.addresses },
)

nowhere : {A : Type 0} (id : ℕ) {r : A} → find id [] ≡ some r → ⊥
unfolding find
nowhere id h = cc

-- In every state that the platform reaches from one with no lots, orders, organisations and requests
-- for access, by requests for access of anybody and steps of the marketplace in any order: no user has
-- two pending requests, a request has a reviewer and a time exactly from its review on, only an
-- approved one has an organisation, which exists, no two organisations have the same slug, and the
-- invariant of the marketplace holds.
pub ReachesAccess-IsOrderly :
    (passports : Table Passport) (users : Table User) (db : AccessDb)
    → ReachesAccess (platform_opening passports users) db
    → IsOrderly db × IsSound db.market
ReachesAccess-IsOrderly passports users db reached =
    let (sound, orderly) = from_start reached in (orderly, sound)
  where
    from_start :
        {db : AccessDb}
        → ReachesAccess (platform_opening passports users) db
        → IsSound db.market × IsOrderly db
    from_start here = (
      opening-IsSound passports users,
      record {
        single = λ i j a b e. absurd (nowhere i e);
        fits = λ i r e. absurd (nowhere i e);
        addresses = λ i j a b e. absurd (nowhere i e);
      },
    )
    from_start (next reached step) = PlatformStep-keeps step (from_start reached)
