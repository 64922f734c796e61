-- ===== src/Market/Invariant/Writes.antt =====
-- What the writes that the operations make do to the parts of the invariant.
use trace_public.Common.{ℕ, ◌+◌, true, some, if◌then◌else◌, ◌≡◌, ◌≢◌, refl}
use trace_public.Config.{ListingStatus}
use trace_public.Store.{Transaction, Passport}
use trace_public.Table.{Table, find, put, modify, insert}
use trace_public.Table.Laws.{
  find-put_self, modify-eq-put, find-modify_ne, sum_by-put, sum_by-insert,
}
use trace_public.Market.Lots.{
  is_live, holds_lot, open_orders, passport_status_for_lot, set_passport_status,
}
use trace_public.Market.Invariant.{share_of, taken, status_of, Expects}

abbrev pub opens : ℕ → Transaction → ℕ
opens lot order = if holds_lot lot order then 1 else 0

-- An order row written over another moves what its lot has taken, and how many orders are open on
-- it, by the difference of the two.
module _ (id : ℕ) (order : Transaction) (t : Table Transaction) {old : Transaction} where
  pub taken-put :
      (lot : ℕ)
      → find id t ≡ some old
      → taken lot (put id order t) + share_of lot old ≡ taken lot t + share_of lot order
  unfolding taken
  taken-put lot h = sum_by-put (share_of lot) id order t h

  pub open_orders-put :
      (lot : ℕ)
      → find id t ≡ some old
      → open_orders lot (put id order t) + opens lot old ≡ open_orders lot t + opens lot order
  unfolding open_orders
  open_orders-put lot h = sum_by-put (opens lot) id order t h

-- A new order row adds its own.
module _ (id : ℕ) (order : Transaction) (t : Table Transaction) (lot : ℕ) where
  pub taken-insert : taken lot (insert id order t) ≡ taken lot t + share_of lot order
  unfolding taken
  taken-insert = sum_by-insert (share_of lot) id order t

  pub open_orders-insert : open_orders lot (insert id order t) ≡ open_orders lot t + opens lot order
  unfolding open_orders
  open_orders-insert = sum_by-insert (opens lot) id order t

-- A change of one material leaves what the lots of the others expect.
pub Expects-modify_ne :
    (s : ListingStatus) (k p : ℕ) (f : Passport → Passport) (passports : Table Passport)
    → Expects (passport_status_for_lot s) (status_of (find k passports))
    → (is_live s ≡ true → p ≢ k)
    → Expects (passport_status_for_lot s) (status_of (find k (modify p f passports)))
Expects-modify_ne ListingStatus.active k p f t h ne = rw (find-modify_ne p k f t (ne refl)) h
Expects-modify_ne ListingStatus.reserved k p f t h ne = rw (find-modify_ne p k f t (ne refl)) h
Expects-modify_ne ListingStatus.sold k p f t h ne = rw (find-modify_ne p k f t (ne refl)) h
Expects-modify_ne ListingStatus.expired k p f t h ne = tt
Expects-modify_ne ListingStatus.cancelled k p f t h ne = tt

pub status_of-modify_self :
    (k : ℕ) (f : Passport → Passport) (t : Table Passport) {p : Passport}
    → find k t ≡ some p
    → status_of (find k (modify k f t)) ≡ some (f p).status
status_of-modify_self k f t {p} h = rw (modify-eq-put k f t h, find-put_self k (f p) t h)

-- A material whose status is written for its lot's new status is what the lot expects.
pub Expects-modify_self :
    (s : ListingStatus) (k now : ℕ) (t : Table Passport) {p : Passport}
    → find k t ≡ some p
    → Expects
        (passport_status_for_lot s)
        (status_of (find k (modify k (set_passport_status (passport_status_for_lot s) now) t)))
Expects-modify_self ListingStatus.active k now t h = status_of-modify_self k _ t h
Expects-modify_self ListingStatus.reserved k now t h = status_of-modify_self k _ t h
Expects-modify_self ListingStatus.sold k now t h = status_of-modify_self k _ t h
Expects-modify_self ListingStatus.expired k now t h = tt
Expects-modify_self ListingStatus.cancelled k now t h = tt
