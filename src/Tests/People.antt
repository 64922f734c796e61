-- ===== src/Tests/People.antt =====
-- Users of each kind, and the claims of their tokens.
use trace_public.Common.{ℕ, [], ◌∷◌, none, some, Option}
use trace_public.Config.{Role}
use trace_public.Store.{User}
use trace_public.Table.{Table}
use trace_public.Session.{Claims}

abbrev person : Role → Option ℕ → User
person role organisation_id = record {
  email = "someone@example.org";
  password_hash = "secret";
  name = "Someone";
  role = role;
  organisation_id = organisation_id;
  orders_seen_at = none;
  token_version = 0;
  failed_login_count = 0;
  failed_login_at = none;
  login_backoff_until = none;
}

abbrev pub people : Table User
people =
    (2, person Role.buyer none)
    ∷ (3, person Role.platform_admin none)
    ∷ (4, person Role.inspector none)
    ∷ (5, person Role.hub_admin (some 7))
    ∷ []

abbrev pub claims_of : ℕ → Option Claims
claims_of id = some (record { sub = id; tv = some 0 })
