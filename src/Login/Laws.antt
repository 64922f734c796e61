-- ===== src/Login/Laws.antt =====
-- What the login backoff promises: how long an account waits, and that failures in a row are counted.
use trace_public.Common.{
  ℕ, ◌+◌, ◌-◌, ◌*◌, ◌^◌, ◌≤◌, ◌<◌, min, true, false, Option, none, some, List, [], ◌∷◌, String, ◌≡◌,
  ◌↔◌, inl, inr, refl, ap, subst, arith, Bool-cases, some-injective, ◌==◌, ==_iff, ltb, ◌or_else◌,
  length,
}
use native.Mathlib.Nat.{pow-le-pow_right, one-le-pow}
use text.Mathlib.Text.{◌==◌ as str_eq}
use trace_public.Errors.{err, too_many_requests}
use trace_public.Store.{User, Db}
use trace_public.Table.{Table, find, modify}
use trace_public.Login.{
  wait_minutes, run_continues, failures_after, failed, minute_ms, run_window_minutes, find_by_email,
  wait_ms, ceil_seconds, Bcrypt, check_password, login_user, record_failed_login,
}

-- A failed sign-in makes the account wait as many minutes from then on as `waitMinutes` gives for the
-- number of failures that is written with it; where no end is written, that is 0.
pub failed-wait :
    (user : User) (now : ℕ)
    → ((failed now user).login_backoff_until or_else now)
      ≡ now + wait_minutes (failed now user).failed_login_count * minute_ms
unfolding failed wait_minutes
failed-wait user now = ground arith

capped_le_capped : (m n : ℕ) → m ≤ n → min (2 ^ m) 15 ≤ min (2 ^ n) 15
capped_le_capped m n h = omega (arith, pow-le-pow_right {n = 2} (omega arith) h)

-- The first four failures in a row bring no wait, each later one brings a wait of at least a minute,
-- no wait is longer than 15 minutes, and a longer run never brings a shorter wait.
pub wait_minutes_bounds :
    (m n : ℕ)
    → m ≤ n
    → (wait_minutes n ≤ 15) × ((wait_minutes n ≡ 0) ↔ (n < 5)) × (wait_minutes m ≤ wait_minutes n)
unfolding wait_minutes
wait_minutes_bounds m n h = (
  ground arith,
  ((λ e. ground (arith, one-le-pow (n - 5) 2 (omega arith))), (λ l. ground arith)),
  ground
      (arith, one-le-pow (n - 5) 2 (omega arith), capped_le_capped (m - 5) (n - 5) (omega arith)),
)

-- Failures one after another.
abbrev pub failed_at : List ℕ → User → User
failed_at [] user = user
failed_at (t ∷ ts) user = failed_at ts (failed t user)

-- Each comes at most 15 minutes after the one before it.
abbrev pub InRow : ℕ → List ℕ → Type 0
InRow before [] = Unit
InRow before (t ∷ ts) = (t ≤ before + run_window_minutes * minute_ms) × InRow t ts

failed-count :
    (user : User) (before t : ℕ)
    → user.failed_login_at ≡ some before
    → t ≤ before + run_window_minutes * minute_ms
    → (failed t user).failed_login_count ≡ user.failed_login_count + 1
unfolding failed
failed-count user before t at h = rw (at, failures_after, run_continues) (ground arith)

failed-at : (user : User) (t : ℕ) → (failed t user).failed_login_at ≡ some t
unfolding failed
failed-at user t = refl

-- For an account that has failed before, failures that each come at most 15 minutes after the one
-- before are all added to its count.
pub failed_at-count :
    (user : User) (before : ℕ) (ts : List ℕ)
    → user.failed_login_at ≡ some before
    → InRow before ts
    → (failed_at ts user).failed_login_count ≡ user.failed_login_count + length ts
failed_at-count user before [] at h = omega arith
failed_at-count user before (t ∷ ts) at (close, rest) = omega (
  arith,
  failed-count user before t at close,
  failed_at-count (failed t user) t ts (failed-at user t) rest,
)

pair-injective :
    {a b : ℕ} {x y : User}
    → Path (Option (ℕ × User)) (some (a, x)) (some (b, y))
    → (a ≡ b) × (x ≡ y)
pair-injective {a} {b} {x} {y} h =
    let e : Path (ℕ × User) (a, x) (b, y) = some-injective h in (ap (λ p. p.0) e, ap (λ p. p.1) e)

-- The row that an email finds has that email.
find_by_email-email :
    (email : String) (id : ℕ) (t : Table User) (user : User)
    → find_by_email email t ≡ some (id, user)
    → str_eq user.email email ≡ true
unfolding find_by_email
find_by_email-email email id [] user h = cc
find_by_email-email email id ((j, r) ∷ t) user h = elim (Bool-cases (str_eq r.email email)) [
  | inl hit ↦ subst (λ (u : User). str_eq u.email email ≡ true) (pair-injective (rw hit at h)).1 hit
  | inr miss ↦ find_by_email-email email id t user (rw miss at h)
]

-- The account's row is still found by its email once it has been written.
find_by_email-modify :
    (email : String) (id : ℕ) (f : User → User) (t : Table User) (user : User)
    → ((u : User) → (f u).email ≡ u.email)
    → find id t ≡ some user
    → find_by_email email t ≡ some (id, user)
    → find_by_email email (modify id f t) ≡ some (id, f user)
unfolding find_by_email find modify
find_by_email-modify email id f [] user same there h = cc
find_by_email-modify email id f ((j, r) ∷ t) user same there h = elim (Bool-cases (j == id)) [
  | inl here ↦
      let e : r ≡ user = some-injective (rw here at there) in
      let j_eq = (==_iff j id).0 here in
      let hit = find_by_email-email email id ((j, r) ∷ t) user h in
      let hit' : str_eq (f r).email email ≡ true = rw (same r) (rw e hit) in
      rw (here, find_by_email) (rw hit' (cc (e, j_eq)))
  | inr other ↦ elim (Bool-cases (str_eq r.email email)) [
    | inl hit ↦ let j_eq = (pair-injective (rw hit at h)).0 in cc (other, (==_iff j id).1 j_eq)
    | inr miss ↦
        rw other
          (rw miss (find_by_email-modify email id f t user same (rw other at there) (rw miss at h)))
  ]
]

still_waiting :
    (until : Option ℕ) (t w now : ℕ)
    → until or_else t ≡ t + w
    → t ≤ now
    → now < t + w
    → until or_else now ≡ t + w
still_waiting none t w now h le lt = omega (arith, h)
still_waiting (some e) t w now h le lt = h

-- An account that its email finds, and that is not waiting, gets a wrong password. Until the wait for
-- its new number of failures is over, every further try with that email, whatever the password, is
-- refused with the seconds that are left, rounded up, and changes nothing.
pub waits_after_failure :
    (bcrypt : Bcrypt) (email : String) (wrong password : String) (id : ℕ) (user : User) (t now : ℕ)
    (db : Db)
    → find_by_email email db.users ≡ some (id, user)
    → find id db.users ≡ some user
    → wait_ms user t ≡ 0
    → bcrypt.compare wrong user.password_hash ≡ false
    → t ≤ now
    → now < t + wait_minutes (failed t user).failed_login_count * minute_ms
    → login_user bcrypt email password now (login_user bcrypt email wrong t db).0 ≡ (
      (login_user bcrypt email wrong t db).0,
      err (
          too_many_requests (
            some (
              ceil_seconds
                (t + wait_minutes (failed t user).failed_login_count * minute_ms - now)))),
    )
unfolding login_user check_password record_failed_login
waits_after_failure bcrypt email wrong password id user t now db found there idle mistyped le
      early =
    let again = find_by_email-modify email id (failed t) db.users user (λ u. refl) there found in
    let left =
      still_waiting (failed t user).login_backoff_until t _ now (failed-wait user t) le early in
    let free : ltb 0 (wait_ms user t) ≡ false = ground arith in
    let waiting : ltb 0 (wait_ms (failed t user) now) ≡ true = rw left (ground arith) in
    let written : (login_user bcrypt email wrong t db).0 ≡ record_failed_login id t db =
      rw (found, login_user) (rw free (rw mistyped refl)) in
    rw written (rw (again, login_user) (rw waiting (rw left refl)))
