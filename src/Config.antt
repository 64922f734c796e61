-- ===== src/Config.antt =====
-- packages/core/src/constants/config.ts: the statuses, roles and limits that every package shares.
use trace_public.Common.{ℕ, Bool, true, false}

-- `PASSPORT_STATUSES`.
pub data PassportStatus : Type 0 where
  draft active listed reserved sold installed decommissioned : PassportStatus

-- `LISTING_STATUSES`.
pub data ListingStatus : Type 0 where
  active reserved sold expired cancelled : ListingStatus

-- `TRANSACTION_STATUSES`.
pub data OrderStatus : Type 0 where
  pending confirmed disputed resolved completed cancelled : OrderStatus

-- `USER_ROLES`.
pub data Role : Type 0 where
  platform_admin hub_admin hub_staff supplier buyer inspector : Role

-- `CONDITION_GRADES`.
pub data Grade : Type 0 where
  a b c d : Grade

-- `DISPUTE_OUTCOMES`.
pub data DisputeOutcome : Type 0 where
  sale_stands cancel_order : DisputeOutcome

-- The most a unit price or an order total may be, in pence.
abbrev pub max_amount_pence : ℕ
max_amount_pence = 2000000000

-- The most units a lot may hold.
abbrev pub max_lot_quantity : ℕ
max_lot_quantity = 1000000000

abbrev pub order_response_hours : ℕ
order_response_hours = 72

abbrev pub order_problem_window_hours : ℕ
order_problem_window_hours = 48

-- `===` on statuses, and the membership tests of the code's short lists.
abbrev pub is_active : ListingStatus → Bool
is_active ListingStatus.active = true
is_active _ = false

abbrev pub is_pending : OrderStatus → Bool
is_pending pending = true
is_pending _ = false

abbrev pub is_confirmed : OrderStatus → Bool
is_confirmed confirmed = true
is_confirmed _ = false

abbrev pub is_cancelled : OrderStatus → Bool
is_cancelled OrderStatus.cancelled = true
is_cancelled _ = false

abbrev pub is_platform_admin : Role → Bool
is_platform_admin platform_admin = true
is_platform_admin _ = false

-- Who stands behind a quality report: `InspectionSource`.
pub data InspectionSource : Type 0 where
  independent seller platform : InspectionSource
