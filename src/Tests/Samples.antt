-- ===== src/Tests/Samples.antt =====
-- A hub that sells, a buyer, a material, and the states that their first requests lead to.
use trace_public.Common.{ℕ, none, some, [], ◌∷◌, false}
use trace_public.Config.{PassportStatus, ListingStatus, OrderStatus, Role}
use trace_public.Store.{Passport, User, Listing, Transaction, ShippingOption, Db}
use trace_public.Store.Details.{PassportDetails}
use trace_public.Table.{Table}
use trace_public.Session.{Claims, Profile}
use trace_public.Market.Listings.{CreateListing, UpdateListing}
use trace_public.Market.Offers.{MakeOffer, Viewer}
use trace_public.Market.Transitions.{OrderAction}
use trace_public.Market.Steps.{UpdateTransaction}
use trace_public.Market.Routes.{Request, handle}
use trace_public.Market.Invariant.Reach.{opening}

abbrev pub timber_details : PassportDetails
timber_details = record {
  product_name = "Oak beam";
  category_l1 = "timber";
  category_l2 = none;
  unit_of_measure = none;
  serial_number = none;
  material_composition = "[]";
  dimensions = none;
  technical_specs = "{}";
  manufacturer_name = none;
  country_of_origin = none;
  production_date = none;
  gwp_total = none;
  embodied_carbon = none;
  recycled_content = none;
  epd_reference = none;
  ce_marking = false;
  declaration_of_performance = none;
  harmonised_standard = none;
  origin = none;
  previous_building_id = none;
  deconstruction_date = none;
  deconstruction_method = none;
  reclaimed_by = none;
  condition_notes = none;
  original_age = none;
  remaining_life_estimate = none;
  carbon_savings_vs_new = none;
  circularity_score = none;
  reuse_suitability = "[]";
  handling_requirements = none;
  hazardous_substances = "[]";
}

abbrev pub timber : Passport
timber = record {
  organisation_id = 7;
  gtin = none;
  digital_link_uri = none;
  qr_code_url = none;
  details = timber_details;
  condition_grade = none;
  condition_photos = some ("beam.jpg" ∷ []);
  reuse_count = 0;
  custom_attributes = record { seed_source = none; other_attributes = "{}" };
  status = PassportStatus.active;
  chain_id = none;
  registered_by = some 1;
  created_at = 0;
  updated_at = 0;
}

abbrev pub seller : User
seller = record {
  email = "hub@example.org";
  password_hash = "secret";
  name = "Hub";
  role = Role.hub_staff;
  organisation_id = some 7;
  orders_seen_at = none;
  token_version = 0;
  failed_login_count = 0;
  failed_login_at = none;
  login_backoff_until = none;
}

abbrev pub buyer : User
buyer = record {
  email = "site@example.org";
  password_hash = "word";
  name = "Site";
  role = Role.buyer;
  organisation_id = none;
  orders_seen_at = none;
  token_version = 3;
  failed_login_count = 4;
  failed_login_at = some 0;
  login_backoff_until = none;
}

abbrev pub passports : Table Passport
passports = (10, timber) ∷ []

abbrev pub users : Table User
users = (1, seller) ∷ (2, buyer) ∷ []

abbrev pub seller_claims : Claims
seller_claims = record { sub = 1; tv = some 0 }

abbrev pub buyer_claims : Claims
buyer_claims = record { sub = 2; tv = some 3 }

abbrev pub buyer_viewer : Viewer
buyer_viewer = record { user_id = 2; role = Role.buyer; organisation_id = none }

abbrev pub collection : ShippingOption
collection = record {
  method = "collection";
  delivery_radius_miles = none;
  delivery_cost_pence = none;
  notes = none;
}

abbrev pub for_sale : CreateListing
for_sale = record {
  passport_id = 10;
  price_pence = 2500;
  currency = "GBP";
  quantity = 40;
  min_order_quantity = 5;
  shipping_options = collection ∷ [];
  expires_at = none;
}

abbrev pub ten_please : MakeOffer
ten_please = record { listing_id = 100; quantity = some 10; notes = none }

abbrev pub db_empty : Db
db_empty = opening passports users

abbrev pub post_lot : Request
post_lot = Request.post_listing 100 for_sale

abbrev pub post_order : Request
post_order = Request.post_offer 200 ten_please

-- The lot is on sale.
abbrev pub db_listed : Db
db_listed = (handle Profile.self_hosted (some seller_claims) post_lot 1000 db_empty).0

-- Ten of its forty units are ordered.
abbrev pub db_ordered : Db
db_ordered = (handle Profile.self_hosted (some buyer_claims) post_order 2000 db_listed).0

-- The lot and the order that are then in the tables.
abbrev pub lot_ordered : Listing
lot_ordered = record {
  passport_id = 10;
  organisation_id = 7;
  seller_id = 1;
  price_pence = 2500;
  currency = "GBP";
  quantity = 40;
  quantity_available = 30;
  min_order_quantity = 5;
  shipping_options = collection ∷ [];
  status = ListingStatus.active;
  expires_at = none;
  created_at = 1000;
}

abbrev pub order_placed : Transaction
order_placed = record {
  listing_id = 100;
  buyer_id = 2;
  seller_id = 1;
  quantity = 10;
  legacy_whole_lot = false;
  amount_pence = 25000;
  status = OrderStatus.pending;
  dispute_deadline = none;
  response_deadline = some 259202000;
  notes = none;
  created_at = 2000;
}

-- The same order once it has been refused.
abbrev pub order_refused : Transaction
order_refused = record order_placed { status = OrderStatus.cancelled }

abbrev pub db_refused : Db
db_refused = record {
  listings = (100, lot_ordered) ∷ [];
  transactions = (200, order_refused) ∷ [];
  order_events = [];
  passports = passports;
  passport_events = [];
  users = users;
}

abbrev pub accept_it : UpdateTransaction
accept_it = record { action = OrderAction.accept; notes = none; outcome = none }

abbrev pub seller_viewer : Viewer
seller_viewer = record { user_id = 1; role = Role.hub_staff; organisation_id = some 7 }

-- An edit of the lot's size alone.
abbrev pub shrink_to : ℕ → UpdateListing
shrink_to q = record {
  price_pence = none;
  quantity = some q;
  min_order_quantity = none;
  shipping_options = none;
  expires_at = none;
}
