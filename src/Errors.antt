-- ===== src/Errors.antt =====
-- packages/core/src/errors.ts: the errors that the services throw, each with the message it
-- carries as a constructor, and the HTTP status of its class.
use trace_public.Common.{ℕ, Option, none, some, Bool, true, false, ◌≡◌, refl, ◌⊎◌, inl, inr}
use trace_public.Config.{ListingStatus, OrderStatus, PassportStatus}

-- What was not found.
pub data Resource : Type 0 where
  passport listing order organisation quality_report access_request : Resource

-- The messages of the marketplace service and the access service, by what they say.
pub data Reason : Type 0 where
  passport_of_other_organisation already_listed_or_sold decommissioned photo_required : Reason
  listing_of_other_organisation lot_sold minimum_above_quantity still_expired nothing_left : Reason
  below_committed : ℕ → Reason
  not_updatable not_cancellable : ListingStatus → Reason
  has_open_orders : ℕ → Reason
  not_available : ListingStatus → Reason
  own_listing listing_expired last_one_stays : Reason
  up_to only_left below_minimum : ℕ → Reason
  total_too_large order_changed lapsed auto_completed not_your_step : Reason
  not_in_state : OrderStatus → Reason
  not_a_buyer already_pending not_pending not_approved : Reason
  other_hubs_material not_registered not_holder already_flagged : Reason
  locked : PassportStatus → Reason
  grade_is_inspected too_many_photos role_not_permitted no_organisation read_only : Reason
  invalid_body email_taken : Reason

-- `TraceError` and its subclasses; `unexpected` is a plain `Error`, which the error handler
-- answers with 500.
pub data Failure : Type 0 where
  not_found : Resource → Failure
  unauthorized : Failure
  forbidden : Reason → Failure
  validation : Reason → Failure
  conflict : Reason → Failure
  material_relisted : Failure
  too_many_requests : Option ℕ → Failure
  unexpected : Failure

-- The third argument of each constructor of the classes.
unfoldable pub status_code : Failure → ℕ
status_code (not_found r) = 404
status_code unauthorized = 401
status_code (forbidden r) = 403
status_code (validation r) = 400
status_code (conflict r) = 409
status_code material_relisted = 409
status_code (too_many_requests s) = 429
status_code unexpected = 500

-- A promise's value, or the error it is rejected with.
pub data Result {ℓ} (A : Type ℓ) : Type ℓ where
  ok : A → Result A
  err : Failure → Result A

infixl 5 ◌>>=◌ ◌>>◌
abbrev pub ◌>>=◌ {ℓ κ} : {A : Type ℓ} {B : Type κ} → Result A → (A → Result B) → Result B
ok x >>= f = f x
err e >>= f = err e

abbrev pub ◌>>◌ {ℓ} : {B : Type ℓ} → Result (Unit {0}) → Result B → Result B
m >> k = m >>= λ _. k

-- The row of a `findFirst` or a locked `select`, or the error thrown when there is none.
abbrev pub require {ℓ} : {A : Type ℓ} → Option A → Failure → Result A
require none e = err e
require (some x) e = ok x

-- `if (refused) throw e`.
abbrev pub refuse : Bool → Failure → Result (Unit {0})
refuse true e = err e
refuse false e = ok tt

pub ok-injective {ℓ} : {A : Type ℓ} {x y : A} → ok x ≡ ok y → x ≡ y
ok-injective h = cc

pub Result-cases {ℓ} :
    {A : Type ℓ} (m : Result A) → ((e : Failure) × (m ≡ err e)) ⊎ ((x : A) × (m ≡ ok x))
Result-cases (ok x) = inr (x, refl)
Result-cases (err e) = inl (e, refl)

-- What a chain that succeeds went through.
pub >>=-eq-ok {ℓ κ} :
    {A : Type ℓ} {B : Type κ} (m : Result A) (f : A → Result B) {y : B}
    → (m >>= f) ≡ ok y
    → (x : A) × (m ≡ ok x) × (f x ≡ ok y)
>>=-eq-ok (ok x) f h = (x, refl, h)
>>=-eq-ok (err e) f h = cc

pub require-eq-ok {ℓ κ} :
    {A : Type ℓ} {B : Type κ} (o : Option A) (e : Failure) (f : A → Result B) {y : B}
    → (require o e >>= f) ≡ ok y
    → (x : A) × (o ≡ some x) × (f x ≡ ok y)
require-eq-ok none e f h = cc
require-eq-ok (some x) e f h = (x, refl, h)

pub refuse-eq-ok {ℓ} :
    {B : Type ℓ} (refused : Bool) (e : Failure) (k : Result B) {y : B}
    → (refuse refused e >> k) ≡ ok y
    → (refused ≡ false) × (k ≡ ok y)
refuse-eq-ok true e k h = cc
refuse-eq-ok false e k h = (refl, h)
