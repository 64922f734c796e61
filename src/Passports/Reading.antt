-- ===== src/Passports/Reading.antt =====
-- passport.service.ts: what a viewer reads of a material, its lot on the marketplace, its standing on
-- the chain and its history. A search by text is left out of the list of an organisation's materials.
use trace_public.Common.{
  ℕ, Bool, true, false, not, ◌&&◌, Option, none, some, List, [], ◌∷◌, String, ◌==◌, ltb,
  if◌then◌else◌, map, keep, sort_by, is_some, length,
}
use trace_public.Config.{ListingStatus, PassportStatus, Grade, is_active}
use trace_public.Errors.{Result, ok, ◌>>=◌, require, not_found, Resource}
use trace_public.Store.{Db, Listing, Passport, PassportEvent, EventData}
use trace_public.Store.Details.{PassportDetails}
use trace_public.Table.{find}
use trace_public.Market.Lots.{is_live, has_passed}
use trace_public.Quality.{QualityDb, Anchor}
use trace_public.Quality.Reports.{is_draft}
use trace_public.Passports.{PassportViewer, load_visible_passport, sees_whole_passport, hash_of}

-- `PublicPassport`: all but who registered the material, its attributes of the seller's own and the time
-- of its last update.
pub record PublicPassport : Type 0 where
  pub id : ℕ
  pub organisation_id : ℕ
  pub gtin : Option String
  pub digital_link_uri : Option String
  pub qr_code_url : Option String
  pub details : PassportDetails
  pub condition_grade : Option Grade
  pub condition_photos : Option (List String)
  pub reuse_count : ℕ
  pub status : PassportStatus
  pub anchor : Option Anchor
  pub chain_id : Option String
  pub created_at : ℕ

unfoldable pub to_public_passport : ℕ → Passport → Option Anchor → PublicPassport
to_public_passport id passport anchor = record {
  id = id;
  organisation_id = passport.organisation_id;
  gtin = passport.gtin;
  digital_link_uri = passport.digital_link_uri;
  qr_code_url = passport.qr_code_url;
  details = passport.details;
  condition_grade = passport.condition_grade;
  condition_photos = passport.condition_photos;
  reuse_count = passport.reuse_count;
  status = passport.status;
  anchor = anchor;
  chain_id = passport.chain_id;
  created_at = passport.created_at;
}

-- `MaterialPassport | PublicPassport`.
pub data PassportView : Type 0 where
  whole : (id : ℕ) (passport : Passport) (anchor : Option Anchor) → PassportView
  in_public : PublicPassport → PassportView

abbrev pub view_of : ℕ → Passport → Option PassportViewer → QualityDb → PassportView
view_of id passport viewer db =
    let anchor = find id db.anchors in
    if sees_whole_passport passport viewer
    then PassportView.whole id passport anchor
    else PassportView.in_public (to_public_passport id passport anchor)

-- `PassportListingSummary`.
pub record PassportListingSummary : Type 0 where
  pub id : ℕ
  pub status : ListingStatus
  pub price_pence : ℕ
  pub currency : String
  pub listed_at : ℕ

-- `LISTING_PREFERENCE.indexOf(status)`, of a status that is in it.
abbrev pub preference : ListingStatus → ℕ
preference ListingStatus.active = 0
preference ListingStatus.reserved = 1
preference _ = 2

-- A lot past its date reads as expired.
abbrev pub read_at : ℕ → ℕ × Listing → ℕ × Listing
read_at now (id, lot) = (
  id,
  record lot {
    status =
        if is_active lot.status && has_passed lot.expires_at now
        then ListingStatus.expired
        else lot.status;
  },
)

abbrev pub newest_lot_first : ℕ × Listing → ℕ × Listing → Bool
newest_lot_first a b = ltb a.1.created_at b.1.created_at

abbrev pub preferred : ℕ × Listing → ℕ × Listing → Bool
preferred a b = ltb (preference b.1.status) (preference a.1.status)

abbrev pub is_candidate : ℕ × Listing → Bool
is_candidate row = is_live row.1.status

unfoldable pub candidates : ℕ → ℕ → Db → List (ℕ × Listing)
unfolding sort_by
candidates passport_id now db = sort_by preferred (
    keep is_candidate (
      map (read_at now) (
        sort_by newest_lot_first
          (keep (λ (row : ℕ × Listing). row.1.passport_id == passport_id) db.listings))))

abbrev pub summary_of_lot : ℕ × Listing → PassportListingSummary
summary_of_lot (id, lot) = record {
  id = id;
  status = lot.status;
  price_pence = lot.price_pence;
  currency = lot.currency;
  listed_at = lot.created_at;
}

abbrev pub chosen : List (ℕ × Listing) → Option PassportListingSummary
chosen [] = none
chosen (row ∷ rows) = some (summary_of_lot row)

unfoldable pub passport_listing : ℕ → ℕ → Db → Option PassportListingSummary
unfolding candidates
passport_listing passport_id now db = chosen (candidates passport_id now db)

pub record PassportPage : Type 0 where
  pub passport : PassportView
  pub listing : Option PassportListingSummary

unfoldable pub get_passport_by_id : ℕ → Option PassportViewer → ℕ → QualityDb → Result PassportPage
unfolding find load_visible_passport to_public_passport passport_listing
get_passport_by_id id viewer now db = do
  passport ← load_visible_passport id viewer db
  ok (record {
    passport = view_of id passport viewer db;
    listing = passport_listing id now db.market;
  })

-- What the chain adapter answers of a registered fingerprint: nothing where it is not known.
pub record ChainReader : Type 0 where
  pub registry_address : Option String
  pub verify_on_chain : String → ℕ → String → Option Bool

pub record Standing : Type 0 where
  pub verified : Bool
  pub onchain_verified : Option Bool

abbrev pub tx_of : Option Anchor → Option String
tx_of none = none
tx_of (some anchor) = anchor.tx_hash

abbrev pub anchored_at_of : Option Anchor → Option ℕ
anchored_at_of none = none
anchored_at_of (some anchor) = anchor.anchored_at

-- The chain is asked only of a transaction that was submitted.
abbrev pub ask_chain : ChainReader → ℕ → Option String → Option String → Option Bool
ask_chain reader id none tx = none
ask_chain reader id (some stored) none = none
ask_chain reader id (some stored) (some tx) = elim reader.registry_address [
  | none ↦ none
  | some registry ↦ reader.verify_on_chain registry id stored
]

abbrev pub standing_of : ChainReader → ℕ → Option Anchor → Standing
standing_of reader id anchor = record {
  verified = is_some (tx_of anchor) && is_some (anchored_at_of anchor);
  onchain_verified = ask_chain reader id (hash_of anchor) (tx_of anchor);
}

unfoldable pub verify_passport : ChainReader → ℕ → QualityDb → Result Standing
unfolding find
verify_passport reader id db = do
  passport ← require (find id db.market.passports) (not_found Resource.passport)
  ok (standing_of reader id (find id db.anchors))

pub record VerificationPage : Type 0 where
  pub passport : PassportView
  pub standing : Standing
  pub listing : Option PassportListingSummary

unfoldable pub get_passport_verification :
    ChainReader → ℕ → Option PassportViewer → ℕ → QualityDb → Result VerificationPage
unfolding find load_visible_passport verify_passport to_public_passport passport_listing
get_passport_verification reader id viewer now db = do
  visible ← load_visible_passport id viewer db
  standing ← verify_passport reader id db
  ok (record {
    passport = view_of id visible viewer db;
    standing = standing;
    listing = passport_listing id now db.market;
  })

-- `eventData` less the keys that are not in `PUBLIC_EVENT_DATA`.
pub data PublicEventData : Type 0 where
  commissioned offered_for_sale : PublicEventData
  amended : (fingerprint : String) → PublicEventData
  sold : (quantity : ℕ) → PublicEventData

-- `toPublicEvent`.
abbrev pub to_public_event : PassportEvent → PublicEventData
to_public_event event = elim event.event_data [
  | EventData.commissioned ↦ PublicEventData.commissioned
  | EventData.amended fingerprint ↦ PublicEventData.amended fingerprint
  | EventData.offered_for_sale listing_id ↦ PublicEventData.offered_for_sale
  | EventData.sold transaction_id buyer_id quantity amount_pence ↦ PublicEventData.sold quantity
]

pub data History : Type 0 where
  whole_events : List PassportEvent → History
  public_events : List PublicEventData → History

-- The events are kept newest first.
abbrev pub events_of_passport : ℕ → Db → List PassportEvent
events_of_passport id db = keep (λ (e : PassportEvent). e.passport_id == id) db.passport_events

unfoldable pub get_passport_history : ℕ → Option PassportViewer → QualityDb → Result History
unfolding load_visible_passport
get_passport_history id viewer db = do
  passport ← load_visible_passport id viewer db
  let events = events_of_passport id db.market
  ok (
      if sees_whole_passport passport viewer
      then History.whole_events events
      else History.public_events (map to_public_event events))

pub record PassportStats : Type 0 where
  pub total : ℕ
  pub by_status : PassportStatus → ℕ
  pub anchored : ℕ
  pub awaiting_anchor : ℕ

abbrev pub same_passport_status : PassportStatus → PassportStatus → Bool
same_passport_status PassportStatus.draft PassportStatus.draft = true
same_passport_status PassportStatus.active PassportStatus.active = true
same_passport_status PassportStatus.listed PassportStatus.listed = true
same_passport_status PassportStatus.reserved PassportStatus.reserved = true
same_passport_status PassportStatus.sold PassportStatus.sold = true
same_passport_status PassportStatus.installed PassportStatus.installed = true
same_passport_status PassportStatus.decommissioned PassportStatus.decommissioned = true
same_passport_status _ _ = false

unfoldable pub count_passports : (ℕ × Passport → Bool) → ℕ → QualityDb → ℕ
count_passports p organisation_id db = length (
    keep (λ (row : ℕ × Passport). row.1.organisation_id == organisation_id && p row)
      db.market.passports)

unfoldable pub get_passport_stats : ℕ → QualityDb → PassportStats
unfolding count_passports find
get_passport_stats organisation_id db = record {
  total = count_passports (λ row. true) organisation_id db;
  by_status = λ status.
      count_passports (λ row. same_passport_status row.1.status status) organisation_id db;
  anchored = count_passports (λ row. is_some (tx_of (find row.0 db.anchors))) organisation_id db;
  awaiting_anchor =
      count_passports
        (λ row. not (is_some (hash_of (find row.0 db.anchors))) && not (is_draft row.1.status))
        organisation_id db;
}
