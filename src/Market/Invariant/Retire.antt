-- ===== src/Market/Invariant/Retire.antt =====
-- A live lot with no open order leaves the marketplace, expired or cancelled, and its material can
-- be listed again: that keeps the invariant.
use trace_public.Common.{ℕ, true, false, some, ◌≡◌, ◌≢◌, inl, inr, sym}
use trace_public.Config.{ListingStatus, PassportStatus}
use trace_public.Store.{Listing, Db}
use trace_public.Table.{AllRows, find, put, modify}
use trace_public.Table.Laws.{find-put_cases, is_some-find-put, AllRows-map}
use trace_public.Market.Lots.{is_live, open_orders, set_passport_status}
use trace_public.Market.Invariant.{LotFits, MaterialFits, OrderFits, IsOnlyLive, IsSound}
use trace_public.Market.Invariant.Writes.{Expects-modify_ne}
use trace_public.Market.Invariant.Settle.{Expects-of_not_live}
use trace_public.Market.Invariant.Lot.{StatusFits-of_dead}

module _ (id : ℕ) (listing : Listing) (status : ListingStatus) (now : ℕ) (db : Db)
    (sound : IsSound db) (found : find id db.listings ≡ some listing)
    (live : is_live listing.status ≡ true) (dead : is_live status ≡ false)
    (closed : open_orders id db.transactions ≡ 0) where
  abbrev gone : Listing
  gone = record listing { status = status }

  abbrev retired : Db
  retired = record db {
    listings = put id gone db.listings;
    passports =
        modify listing.passport_id (set_passport_status (some PassportStatus.active) now)
          db.passports;
  }

  gone-LotFits : LotFits id gone db.transactions
  gone-LotFits = record {
    stock = (sound.lots id listing found).stock;
    status = StatusFits-of_dead status listing.quantity_available _ dead closed;
  }

  other_material :
      (j : ℕ) (lot : Listing)
      → id ≢ j
      → find j db.listings ≡ some lot
      → MaterialFits lot retired.passports
  other_material j lot ne h =
      Expects-modify_ne lot.status lot.passport_id listing.passport_id _ db.passports
        (sound.materials j lot h)
        (λ l e. ne (sym (sound.single id listing found live j lot h l (sym e))))

  retired-single :
      (i : ℕ) (lot : Listing)
      → find i retired.listings ≡ some lot
      → is_live lot.status ≡ true
      → IsOnlyLive i lot.passport_id retired.listings
  retired-single i lot h l j other h' l' same = elim (find-put_cases id i gone db.listings h) [
    | inl (here, is_gone) ↦ cc (is_gone, l, dead)
    | inr (ne, there) ↦ elim (find-put_cases id j gone db.listings h') [
      | inl (here', is_gone) ↦ cc (is_gone, l', dead)
      | inr (ne', there') ↦ sound.single i lot there l j other there' l' same
    ]
  ]

  retired-orders : AllRows (λ order. OrderFits order retired.listings) db.transactions
  retired-orders =
      AllRows-map db.transactions
        (λ order o. record {
          quantity = o.quantity;
          amount = o.amount;
          unit_price = o.unit_price;
          window = o.window;
          listing = is_some-find-put id order.listing_id gone db.listings o.listing;
        })
        sound.orders

  pub retired-IsSound : IsSound retired
  retired-IsSound = record {
    lots = λ j lot h. elim (find-put_cases id j gone db.listings h) [
      | inl (here, same) ↦ rw (here, same) gone-LotFits
      | inr (ne, there) ↦ sound.lots j lot there
    ];
    terms = λ j lot h. elim (find-put_cases id j gone db.listings h) [
      | inl (here, same) ↦
          let t = sound.terms id listing found in
          rw same (record { price = t.price; size = t.size; minimum = t.minimum })
      | inr (ne, there) ↦ sound.terms j lot there
    ];
    materials = λ j lot h. elim (find-put_cases id j gone db.listings h) [
      | inl (here, same) ↦ rw same (Expects-of_not_live status _ dead)
      | inr (ne, there) ↦ other_material j lot ne there
    ];
    single = retired-single;
    orders = retired-orders;
  }
