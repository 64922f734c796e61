-- ===== src/Login.antt =====
-- packages/api/src/modules/auth/login-backoff.ts and auth.service.ts: signing in, with the wait that
-- an account's failures in a row bring. bcrypt is a parameter; an email is given in lower case.
pub mod Laws
pub mod Accounts
use text.Mathlib.Text.{◌==◌ as str_eq}
use trace_public.Common.{
  ℕ, ◌+◌, ◌-◌, ◌*◌, ◌/◌, ◌^◌, min, max, Bool, true, false, not, ◌&&◌, ◌||◌, Option, none, some, [],
  ◌∷◌, String, ltb, leb, ◌or_else◌, if◌then◌else◌, is_some,
}
use trace_public.Config.{Role}
use trace_public.Errors.{Result, ok, err, unauthorized, conflict, too_many_requests, Reason}
use trace_public.Store.{User, Db}
use trace_public.Table.{Table, insert, modify}

abbrev pub free_failures : ℕ
free_failures = 5

abbrev pub run_window_minutes : ℕ
run_window_minutes = 15

abbrev pub max_wait_minutes : ℕ
max_wait_minutes = 15

abbrev pub minute_ms : ℕ
minute_ms = 60 * 1000

unfoldable pub wait_minutes : ℕ → ℕ
wait_minutes failures =
    if ltb failures free_failures then 0 else min (2 ^ (failures - free_failures)) max_wait_minutes

-- `runContinues` of the statement, on the row's old values.
unfoldable pub run_continues : User → ℕ → Bool
run_continues user now = elim user.failed_login_at [
  | none ↦ false
  | some at ↦
      leb now (max at (user.login_backoff_until or_else at) + run_window_minutes * minute_ms)
]

unfoldable pub failures_after : User → ℕ → ℕ
unfolding run_continues
failures_after user now = if run_continues user now then user.failed_login_count + 1 else 1

-- The `case` that sets `loginBackoffUntil`.
unfoldable pub backoff_after : ℕ → ℕ → Option ℕ
backoff_after failures now =
    if leb free_failures failures
    then some (now + min (2 ^ (failures - free_failures)) max_wait_minutes * minute_ms)
    else none

-- The row that `recordFailedLogin` writes.
unfoldable pub failed : ℕ → User → User
unfolding failures_after backoff_after
failed now user = record user {
  failed_login_count = failures_after user now;
  failed_login_at = some now;
  login_backoff_until = backoff_after (failures_after user now) now;
}

unfoldable pub record_failed_login : ℕ → ℕ → Db → Db
unfolding failed
record_failed_login id now db = record db { users = modify id (failed now) db.users }

-- The row that `clearFailedLogins` writes.
unfoldable pub cleared : User → User
cleared user = record user {
  failed_login_count = 0;
  failed_login_at = none;
  login_backoff_until = none;
}

unfoldable pub clear_failed_logins : ℕ → Db → Db
unfolding cleared
clear_failed_logins id db = record db { users = modify id cleared db.users }

-- `findFirst({ where: eq(users.email, email) })`.
unfoldable pub find_by_email : String → Table User → Option (ℕ × User)
find_by_email email [] = none
find_by_email email ((id, user) ∷ t) =
    if str_eq user.email email then some (id, user) else find_by_email email t

-- How long the account still waits, in milliseconds.
abbrev pub wait_ms : User → ℕ → ℕ
wait_ms user now = (user.login_backoff_until or_else now) - now

-- `Math.ceil(waitMs / 1000)`.
abbrev pub ceil_seconds : ℕ → ℕ
ceil_seconds ms = (ms + 999) / 1000

-- `JwtPayload`, as `buildPayload` makes it.
pub record Payload : Type 0 where
  pub sub : ℕ
  pub email : String
  pub role : Role
  pub organisation_id : Option ℕ
  pub tv : ℕ

unfoldable pub build_payload : ℕ → User → Payload
build_payload id user = record {
  sub = id;
  email = user.email;
  role = user.role;
  organisation_id = user.organisation_id;
  tv = user.token_version;
}

-- bcrypt's `compare` and `hash`.
pub record Bcrypt : Type 0 where
  pub compare : (password hash : String) → Bool
  pub hash : String → String

module _ (bcrypt : Bcrypt) where
  -- `loginUser` once the account is known and not waiting.
  unfoldable pub check_password : ℕ → User → String → ℕ → Db → Db × Result Payload
  unfolding record_failed_login clear_failed_logins build_payload
  check_password id user password now db =
      if not (bcrypt.compare password user.password_hash)
      then (record_failed_login id now db, err unauthorized)
      else if ltb 0 user.failed_login_count || is_some user.login_backoff_until
      then (clear_failed_logins id db, ok (build_payload id user))
      else (db, ok (build_payload id user))

  -- An unknown email is compared with a dummy hash and refused whatever comes of it.
  unfoldable pub login_user : String → String → ℕ → Db → Db × Result Payload
  unfolding check_password find_by_email
  login_user email password now db = elim (find_by_email email db.users) [
    | none ↦ (db, err unauthorized)
    | some (id, user) ↦
        if ltb 0 (wait_ms user now)
        then (db, err (too_many_requests (some (ceil_seconds (wait_ms user now)))))
        else check_password id user password now db
  ]

  -- The row that `registerUser` inserts.
  unfoldable pub new_user : String → String → String → User
  new_user email password name = record {
    email = email;
    password_hash = bcrypt.hash password;
    name = name;
    role = Role.buyer;
    organisation_id = none;
    orders_seen_at = none;
    token_version = 0;
    failed_login_count = 0;
    failed_login_at = none;
    login_backoff_until = none;
  }

  -- `registerUser`; `id` is the new row's.
  unfoldable pub register_user : ℕ → String → String → String → Db → Db × Result Payload
  unfolding find_by_email build_payload new_user
  register_user id email password name db = elim (find_by_email email db.users) [
    | some row ↦ (db, err (conflict Reason.email_taken))
    | none ↦
        let user = new_user email password name in
        (record db { users = insert id user db.users }, ok (build_payload id user))
  ]
