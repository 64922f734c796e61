-- ===== src/DataRules.antt =====
-- packages/db/scripts/lib/invariants.ts: the checker of the marketplace's rows (`checkInvariants`). The
-- text of a violation's detail is left out. A row's id is a primary key, so a map by id reads as the
-- table does.
pub mod Faults
pub mod Rows
pub mod Sound
pub mod Complete
use text.Mathlib.Text.{◌==◌ as str_eq}
use trace_public.Common.{
  ℕ, ◌+◌, ◌*◌, ◌%◌, Bool, true, false, not, ◌&&◌, ◌||◌, Option, none, some, List, [], ◌∷◌, ◌++◌,
  String, ltb, ◌==◌, ◌or_else◌, is_some, keep, length, only_if, if◌then◌else◌, map,
}
use trace_public.Config.{
  ListingStatus, OrderStatus, PassportStatus, is_active, is_pending, is_confirmed,
  order_response_hours,
}
use trace_public.Store.{Listing, Transaction}
use trace_public.Table.{Table, find, sum_by}
use trace_public.Market.Lots.{is_live, open_orders}

-- What the checker reads of a material, with its fingerprint as it is stored and as it is now.
pub record PassportRow : Type 0 where
  pub product_name : String
  pub status : PassportStatus
  pub stored_hash : Option String
  pub computed_hash : String
  pub catalogue_key : Option String

pub data Severity : Type 0 where
  error warning : Severity

pub data Rule : Type 0 where
  stock_range stock_sum minimum_order status_stock overdue_listing stranded_order : Rule
  passport_status one_live_listing orphan_order order_quantity overdue_order order_amount : Rule
  dispute_window one_of_each stale_fingerprint : Rule

-- The row that a violation is about.
pub data Subject : Type 0 where
  listing : ℕ → Subject
  order : ℕ → Subject
  passport_named : String → Subject
  passport_unknown : ℕ → Subject
  catalogue_product : String → Subject

pub record Violation : Type 0 where
  pub severity : Severity
  pub rule : Rule
  pub subject : Subject

-- `add(severity, rule, subject, …)` under its condition.
unfoldable pub error_if : Bool → Rule → Subject → List Violation
error_if b rule subject = only_if b (record { severity = error; rule = rule; subject = subject })

unfoldable pub warning_if : Bool → Rule → Subject → List Violation
warning_if b rule subject =
    only_if b (record { severity = warning; rule = rule; subject = subject })

abbrev pub sweep_grace_ms : ℕ
sweep_grace_ms = 15 * 60 * 1000

-- `!!limit && now - limit > SWEEP_GRACE_MS`.
abbrev pub is_late : Option ℕ → ℕ → Bool
is_late none now = false
is_late (some limit) now = ltb (limit + sweep_grace_ms) now

-- A text that is there and not empty.
abbrev pub is_text : Option String → Bool
is_text none = false
is_text (some String.[]) = false
is_text (some s) = true

-- `TAKING_ORDER_STATUSES.includes(order.status)`.
abbrev pub is_taking : OrderStatus → Bool
is_taking OrderStatus.cancelled = false
is_taking _ = true

-- What the orders on a listing take of it.
unfoldable pub taken_of : ℕ → Table Transaction → ℕ
taken_of id orders =
    sum_by (λ (o : Transaction). if o.listing_id == id && is_taking o.status then o.quantity else 0)
      orders

abbrev pub is_reserved : ListingStatus → Bool
is_reserved ListingStatus.reserved = true
is_reserved _ = false

abbrev pub is_sold : ListingStatus → Bool
is_sold ListingStatus.sold = true
is_sold _ = false

-- `['cancelled', 'expired'].includes(status)`.
abbrev pub is_off_market : ListingStatus → Bool
is_off_market ListingStatus.cancelled = true
is_off_market ListingStatus.expired = true
is_off_market _ = false

-- `PASSPORT_STATUS_FOR_LISTING[status].includes(…)`; a status with no entry expects nothing.
abbrev pub is_expected : ListingStatus → PassportStatus → Bool
is_expected ListingStatus.active PassportStatus.listed = true
is_expected ListingStatus.active _ = false
is_expected ListingStatus.reserved PassportStatus.reserved = true
is_expected ListingStatus.reserved _ = false
is_expected ListingStatus.sold PassportStatus.sold = true
is_expected ListingStatus.sold PassportStatus.installed = true
is_expected ListingStatus.sold PassportStatus.decommissioned = true
is_expected ListingStatus.sold _ = false
is_expected _ _ = true

abbrev pub is_unexpected : ListingStatus → Option PassportRow → Bool
is_unexpected status none = false
is_unexpected status (some passport) = not (is_expected status passport.status)

-- The rules on the stock and the status of one listing.
unfoldable pub stock_violations : ℕ → Listing → (taken opened : ℕ) → List Violation
stock_violations id lot taken opened =
    error_if (ltb lot.quantity lot.quantity_available) stock_range (listing id)
    ++ (error_if (not (lot.quantity_available + taken == lot.quantity)) stock_sum (listing id)
        ++ (error_if (ltb lot.min_order_quantity 1 || ltb lot.quantity lot.min_order_quantity)
              minimum_order (listing id)
            ++ (error_if (is_active lot.status && lot.quantity_available == 0) status_stock
                  (listing id)
                ++ (error_if
                      (is_reserved lot.status && (not (lot.quantity_available == 0) || opened == 0))
                      status_stock (listing id)
                    ++ error_if
                        (is_sold lot.status && (not (lot.quantity_available == 0) || ltb 0 opened))
                        status_stock (listing id)))))

-- One turn of the loop over the listings.
unfoldable pub listing_violations :
    Table Transaction → Table PassportRow → ℕ → ℕ → Listing → List Violation
unfolding stock_violations
listing_violations orders passports now id lot =
    let opened = open_orders id orders in
    stock_violations id lot (taken_of id orders) opened
    ++ (warning_if (is_active lot.status && opened == 0 && is_late lot.expires_at now)
          overdue_listing (listing id)
        ++ (error_if (is_off_market lot.status && ltb 0 opened) stranded_order (listing id)
            ++ error_if (is_unexpected lot.status (find lot.passport_id passports)) passport_status
                (listing id)))

-- A loop over the rows of a table.
unfoldable pub each_row {ℓ} : {A : Type ℓ} → (ℕ → A → List Violation) → Table A → List Violation
each_row f [] = []
each_row f ((id, row) ∷ t) = f id row ++ each_row f t

-- The keys of a map, in the order of their first insertion.
unfoldable pub distinct : List ℕ → List ℕ
distinct [] = []
distinct (x ∷ xs) = x ∷ keep (λ y. not (y == x)) (distinct xs)

unfoldable pub live_materials : Table Listing → List ℕ
live_materials [] = []
live_materials ((id, lot) ∷ t) =
    let rest = live_materials t in if is_live lot.status then lot.passport_id ∷ rest else rest

-- How many live listings a material has.
unfoldable pub live_count : ℕ → Table Listing → ℕ
live_count passport_id listings =
    sum_by
      (λ (lot : Listing). if is_live lot.status && lot.passport_id == passport_id then 1 else 0)
      listings

abbrev pub name_of : Option PassportRow → ℕ → Subject
name_of none id = passport_unknown id
name_of (some passport) id = passport_named passport.product_name

unfoldable pub each_id : (ℕ → List Violation) → List ℕ → List Violation
each_id f [] = []
each_id f (x ∷ xs) = f x ++ each_id f xs

-- The loop over `liveListingsByPassport`.
unfoldable pub live_violations : Table Listing → Table PassportRow → List Violation
unfolding distinct live_materials live_count each_id
live_violations listings passports =
    each_id
      (λ id.
        error_if (ltb 1 (live_count id listings)) one_live_listing (name_of (find id passports) id))
      (distinct (live_materials listings))

-- `['confirmed', 'disputed', 'resolved', 'completed'].includes(status)`.
abbrev pub is_accepted : OrderStatus → Bool
is_accepted OrderStatus.pending = false
is_accepted OrderStatus.cancelled = false
is_accepted _ = true

-- One turn of the loop over the orders; a row always has the time it was created.
unfoldable pub order_violations : Table Listing → ℕ → ℕ → Transaction → List Violation
order_violations listings now id o =
    let response_deadline =
      o.response_deadline or_else o.created_at + order_response_hours * 60 * 60 * 1000 in
    error_if (not (is_some (find o.listing_id listings))) orphan_order (order id)
    ++ (error_if (ltb o.quantity 1) order_quantity (order id)
        ++ (warning_if (is_pending o.status && is_late (some response_deadline) now) overdue_order
              (order id)
            ++ (warning_if (is_confirmed o.status && is_late o.dispute_deadline now) overdue_order
                  (order id)
                ++ (error_if (ltb o.amount_pence 1) order_amount (order id)
                    ++ (error_if (is_accepted o.status && not (is_some o.dispute_deadline))
                          dispute_window (order id)
                        ++ (error_if
                              (not o.legacy_whole_lot
                                && is_pending o.status
                                && is_some o.dispute_deadline)
                              dispute_window (order id)
                            ++ error_if
                                (not o.legacy_whole_lot
                                  && ltb 0 o.quantity
                                  && not (o.amount_pence % o.quantity == 0))
                                order_amount (order id)))))))

-- How many curated materials a catalogue product has.
unfoldable pub curated_count : String → Table PassportRow → ℕ
curated_count key passports =
    sum_by
      (λ (p : PassportRow).
        if is_text p.catalogue_key && str_eq (p.catalogue_key or_else "") key then 1 else 0)
      passports

unfoldable pub curated_keys : List String → Table PassportRow → List String
curated_keys seen [] = []
curated_keys seen ((id, p) ∷ t) =
    let key = p.catalogue_key or_else "" in
    let fresh = is_text p.catalogue_key && length (keep (str_eq key) seen) == 0 in
    let rest = curated_keys (if fresh then key ∷ seen else seen) t in
    if fresh then key ∷ rest else rest

unfoldable pub curated_violations : Table PassportRow → List String → List Violation
unfolding curated_count
curated_violations passports [] = []
curated_violations passports (key ∷ keys) =
    warning_if (ltb 1 (curated_count key passports)) one_of_each (catalogue_product key)
    ++ curated_violations passports keys

unfoldable pub fingerprint_violations : ℕ → PassportRow → List Violation
fingerprint_violations id p =
    error_if (is_text p.stored_hash && not (str_eq (p.stored_hash or_else "") p.computed_hash))
      stale_fingerprint (passport_named p.product_name)

unfoldable pub check_invariants :
    Table Listing → Table Transaction → Table PassportRow → ℕ → List Violation
unfolding each_row listing_violations live_violations order_violations curated_keys
    curated_violations fingerprint_violations
check_invariants listings orders passports now =
    each_row (listing_violations orders passports now) listings
    ++ (live_violations listings passports
        ++ (each_row (order_violations listings now) orders
            ++ (curated_violations passports (curated_keys [] passports)
                ++ each_row fingerprint_violations passports)))
