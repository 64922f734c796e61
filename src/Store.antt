-- ===== src/Store.antt =====
-- packages/db/drizzle/schema.ts: the rows of the tables that the services read and write, and the
-- database as the record of its tables. A row's `id` is its key in the table; an id is a number,
-- and a time is a number of milliseconds.
pub mod Details
use trace_public.Common.{ℕ, Bool, Option, List, String}
use trace_public.Config.{ListingStatus, OrderStatus, PassportStatus, Role, Grade}
use trace_public.Store.Details.{PassportDetails, CustomAttributes}
use trace_public.Table.{Table}

pub record ShippingOption : Type 0 where
  pub method : String
  pub delivery_radius_miles : Option ℕ
  pub delivery_cost_pence : Option ℕ
  pub notes : Option String

-- `listings`.
pub record Listing : Type 0 where
  pub passport_id : ℕ
  pub organisation_id : ℕ
  pub seller_id : ℕ
  pub price_pence : ℕ
  pub currency : String
  pub quantity : ℕ
  pub quantity_available : ℕ
  pub min_order_quantity : ℕ
  pub shipping_options : List ShippingOption
  pub status : ListingStatus
  pub expires_at : Option ℕ
  pub created_at : ℕ

-- `transactions`: the orders.
pub record Transaction : Type 0 where
  pub listing_id : ℕ
  pub buyer_id : ℕ
  pub seller_id : ℕ
  pub quantity : ℕ
  pub legacy_whole_lot : Bool
  pub amount_pence : ℕ
  pub status : OrderStatus
  pub dispute_deadline : Option ℕ
  pub response_deadline : Option ℕ
  pub notes : Option String
  pub created_at : ℕ

-- What a step of an order is recorded as, in `order_events.action`.
pub data StepName : Type 0 where
  placed accept reject cancel confirm_delivery flag_dispute resolve_dispute : StepName
  lapse auto_complete : StepName

-- `order_events.actor_side`.
pub data ActorSide : Type 0 where
  buyer seller platform time_limit : ActorSide

-- `order_events`.
pub record OrderEvent : Type 0 where
  pub transaction_id : ℕ
  pub action : StepName
  pub from_status : Option OrderStatus
  pub to_status : OrderStatus
  pub actor_id : Option ℕ
  pub actor_side : ActorSide
  pub note : Option String
  pub created_at : ℕ

-- `material_passports`, without the fingerprint's columns: those are rows of a table of their own.
pub record Passport : Type 0 where
  pub organisation_id : ℕ
  pub gtin : Option String
  pub digital_link_uri : Option String
  pub qr_code_url : Option String
  pub details : PassportDetails
  pub condition_grade : Option Grade
  pub condition_photos : Option (List String)
  pub reuse_count : ℕ
  pub custom_attributes : CustomAttributes
  pub status : PassportStatus
  pub chain_id : Option String
  pub registered_by : Option ℕ
  pub created_at : ℕ
  pub updated_at : ℕ

-- The `eventData` of the passport events that are written.
pub data EventData : Type 0 where
  commissioned : EventData
  amended : (fingerprint : String) → EventData
  offered_for_sale : (listing_id : ℕ) → EventData
  sold : (transaction_id buyer_id quantity amount_pence : ℕ) → EventData

-- `passport_events`.
pub record PassportEvent : Type 0 where
  pub passport_id : ℕ
  pub event_data : EventData
  pub actor_id : Option ℕ

-- `users`.
pub record User : Type 0 where
  pub email : String
  pub password_hash : String
  pub name : String
  pub role : Role
  pub organisation_id : Option ℕ
  pub orders_seen_at : Option ℕ
  pub token_version : ℕ
  pub failed_login_count : ℕ
  pub failed_login_at : Option ℕ
  pub login_backoff_until : Option ℕ

pub record Db : Type 0 where
  pub listings : Table Listing
  pub transactions : Table Transaction
  pub order_events : List OrderEvent
  pub passports : Table Passport
  pub passport_events : List PassportEvent
  pub users : Table User
