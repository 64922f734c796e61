-- ===== src/Market/Invariant/Settle.antt =====
-- `settleLot` restores the invariant: where all holds but what ties the lot to its orders, and the
-- stock that is written makes that true, all holds afterwards.
use trace_public.Common.{
  ℕ, Bool, true, false, not, ◌&&◌, ◌||◌, Option, none, some, ◌≡◌, ◌≢◌, ◌⊎◌, ◌∙◌, inl, inr, refl,
  sym, arith, is_some, Bool-cases,
}
use trace_public.Config.{ListingStatus, PassportStatus}
use trace_public.Store.{Listing, Db}
use trace_public.Table.{AllRows, find, put, modify}
use trace_public.Table.Laws.{find-put_cases, is_some-find-put, AllRows-map}
use trace_public.Market.Lots.{
  is_live, passport_status_for_lot, same_status, set_passport_status, write_lot,
}
use trace_public.Market.Invariant.{
  LotFits, TermsFit, MaterialFits, Expects, OrderFits, IsOnlyLive, IsSound,
}
use trace_public.Market.Invariant.Writes.{Expects-modify_ne, Expects-modify_self}

-- What holds when a lot's row is about to be written.
pub record CanWrite (id : ℕ) (listing updated : Listing) (reopen : Bool) (db : Db) : Type 0 where
  pub found : find id db.listings ≡ some listing
  pub material_kept : updated.passport_id ≡ listing.passport_id
  pub live : is_live updated.status ≡ (reopen || is_live listing.status)
  pub fits : LotFits id updated db.transactions
  pub terms_fit : TermsFit updated
  pub alone : is_live updated.status ≡ true → IsOnlyLive id listing.passport_id db.listings
  pub has_material :
      is_live updated.status ≡ true → is_some (find listing.passport_id db.passports) ≡ true
  pub lots :
      (j : ℕ) (lot : Listing)
      → id ≢ j
      → find j db.listings ≡ some lot
      → LotFits j lot db.transactions
  pub terms : (j : ℕ) (lot : Listing) → find j db.listings ≡ some lot → TermsFit lot
  pub materials :
      (j : ℕ) (lot : Listing) → find j db.listings ≡ some lot → MaterialFits lot db.passports
  pub single :
      (j : ℕ) (lot : Listing)
      → find j db.listings ≡ some lot
      → is_live lot.status ≡ true
      → IsOnlyLive j lot.passport_id db.listings
  pub orders : AllRows (λ order. OrderFits order db.listings) db.transactions

module _ (id : ℕ) (listing updated : Listing) (reopen : Bool) (now : ℕ) (db : Db) where
  write_lot-listings :
      (write_lot id listing updated reopen now db).listings ≡ put id updated db.listings
  unfolding write_lot
  write_lot-listings = ground arith

  write_lot-transactions :
      (write_lot id listing updated reopen now db).transactions ≡ db.transactions
  unfolding write_lot
  write_lot-transactions = ground arith

  -- Whether `settleLot` writes the material's status.
  abbrev writes_material : Bool
  writes_material =
      (reopen || is_live listing.status)
      && (reopen || not (same_status updated.status listing.status))

  write_lot-passports_written :
      writes_material ≡ true
      → (write_lot id listing updated reopen now db).passports
        ≡ modify listing.passport_id
            (set_passport_status (passport_status_for_lot updated.status) now)
            db.passports
  unfolding write_lot
  write_lot-passports_written h = rw h

  write_lot-passports_kept :
      writes_material ≡ false
      → (write_lot id listing updated reopen now db).passports ≡ db.passports
  unfolding write_lot
  write_lot-passports_kept h = rw h

same_status-eq : (s t : ListingStatus) → same_status s t ≡ true → s ≡ t
same_status-eq s t h = ground arith

pub Expects-of_not_live :
    (s : ListingStatus) (actual : Option PassportStatus)
    → is_live s ≡ false
    → Expects (passport_status_for_lot s) actual
Expects-of_not_live ListingStatus.expired actual h = tt
Expects-of_not_live ListingStatus.cancelled actual h = tt
Expects-of_not_live ListingStatus.active actual h = cc
Expects-of_not_live ListingStatus.reserved actual h = cc
Expects-of_not_live ListingStatus.sold actual h = cc

is_some-cases {ℓ} : {A : Type ℓ} (o : Option A) → is_some o ≡ true → (a : A) × (o ≡ some a)
is_some-cases none h = cc
is_some-cases (some a) h = (a, refl)

module _ (id : ℕ) (listing updated : Listing) (reopen : Bool) (now : ℕ) (db : Db)
    (w : CanWrite id listing updated reopen db) where
  abbrev written : Db
  written = write_lot id listing updated reopen now db

  written-found :
      (j : ℕ) (lot : Listing)
      → find j written.listings ≡ some lot
      → ((j ≡ id) × (lot ≡ updated)) ⊎ ((id ≢ j) × (find j db.listings ≡ some lot))
  written-found j lot h =
      find-put_cases id j updated db.listings
        (rw (write_lot-listings id listing updated reopen now db) at h)

  own_material_written :
      writes_material id listing updated reopen now db ≡ true
      → MaterialFits updated written.passports
  own_material_written h =
      let lives : is_live updated.status ≡ true = ground (arith, w.live) in
      let (p, found) =
        is_some-cases (find listing.passport_id db.passports) (w.has_material lives) in
      rw (write_lot-passports_written id listing updated reopen now db h, w.material_kept)
        (Expects-modify_self updated.status listing.passport_id now db.passports found)

  own_material_kept :
      writes_material id listing updated reopen now db ≡ false
      → MaterialFits updated written.passports
  own_material_kept h = elim (Bool-cases (is_live updated.status)) [
    | inl lives ↦
        let same : same_status updated.status listing.status ≡ true = ground (arith, w.live) in
        rw
          (
            write_lot-passports_kept id listing updated reopen now db h,
            w.material_kept,
            same_status-eq updated.status listing.status same,
          )
          (w.materials id listing w.found)
    | inr dead ↦ Expects-of_not_live updated.status _ dead
  ]

  other_material :
      (j : ℕ) (lot : Listing)
      → id ≢ j
      → find j db.listings ≡ some lot
      → MaterialFits lot written.passports
  other_material j lot ne h = elim (Bool-cases (writes_material id listing updated reopen now db)) [
    | inl yes' ↦
        let lives : is_live updated.status ≡ true = ground (arith, w.live) in
        rw (write_lot-passports_written id listing updated reopen now db yes') (
          Expects-modify_ne lot.status lot.passport_id listing.passport_id _ db.passports
            (w.materials j lot h) (λ l e. ne (sym (w.alone lives j lot h l (sym e)))))
    | inr no' ↦
        rw (write_lot-passports_kept id listing updated reopen now db no') (w.materials j lot h)
  ]

  written-materials :
      (j : ℕ) (lot : Listing)
      → find j written.listings ≡ some lot
      → MaterialFits lot written.passports
  written-materials j lot h = elim (written-found j lot h) [
    | inl (here, same) ↦
        rw same (elim (Bool-cases (writes_material id listing updated reopen now db)) [
          | inl yes' ↦ own_material_written yes'
          | inr no' ↦ own_material_kept no'
        ])
    | inr (ne, there) ↦ other_material j lot ne there
  ]

  written-lots :
      (j : ℕ) (lot : Listing)
      → find j written.listings ≡ some lot
      → LotFits j lot written.transactions
  written-lots j lot h =
      rw (write_lot-transactions id listing updated reopen now db) (elim (written-found j lot h) [
        | inl (here, same) ↦ rw (here, same) w.fits
        | inr (ne, there) ↦ w.lots j lot ne there
      ])

  written-terms : (j : ℕ) (lot : Listing) → find j written.listings ≡ some lot → TermsFit lot
  written-terms j lot h = elim (written-found j lot h) [
    | inl (here, same) ↦ rw same w.terms_fit
    | inr (ne, there) ↦ w.terms j lot there
  ]

  updated-alone :
      (j : ℕ) (other : Listing)
      → is_live updated.status ≡ true
      → find j db.listings ≡ some other
      → is_live other.status ≡ true
      → other.passport_id ≡ updated.passport_id
      → j ≡ id
  updated-alone j other lives h live same = w.alone lives j other h live (same ∙ w.material_kept)

  written-single :
      (i : ℕ) (lot : Listing)
      → find i written.listings ≡ some lot
      → is_live lot.status ≡ true
      → IsOnlyLive i lot.passport_id written.listings
  written-single i lot h live j other h' live' same = elim (written-found i lot h) [
    | inl (here, is_updated) ↦ elim (written-found j other h') [
      | inl (here', _) ↦ here' ∙ sym here
      | inr (ne, there) ↦
          updated-alone j other (rw (← is_updated) live) there live' (rw (← is_updated) same)
          ∙ sym here
    ]
    | inr (ne, there) ↦ elim (written-found j other h') [
      | inl (here', is_updated) ↦ absurd (
          ne (
            sym (
              updated-alone i lot (rw (← is_updated) live') there live
                (rw (← is_updated) (sym same)))))
      | inr (ne', there') ↦ w.single i lot there live j other there' live' same
    ]
  ]

  written-orders : AllRows (λ order. OrderFits order written.listings) written.transactions
  written-orders =
      rw
        (
          write_lot-listings id listing updated reopen now db,
          write_lot-transactions id listing updated reopen now db,
        )
        (AllRows-map db.transactions
          (λ order o. record {
            quantity = o.quantity;
            amount = o.amount;
            unit_price = o.unit_price;
            window = o.window;
            listing = is_some-find-put id order.listing_id updated db.listings o.listing;
          })
          w.orders)

  -- After the write everything holds.
  pub write_lot-IsSound : IsSound written
  write_lot-IsSound = record {
    lots = written-lots;
    terms = written-terms;
    materials = written-materials;
    single = written-single;
    orders = written-orders;
  }
