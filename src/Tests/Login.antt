-- ===== src/Tests/Login.antt =====
-- Sign-ins, run: a fifth failure in a row, and a try while the account waits.
use text.Mathlib.Text.{◌==◌ as str_eq}
use trace_public.Common.{
  true, ℕ, Option, none, ◌+◌, ◌-◌, ◌*◌, ◌≤◌, ◌<◌, some, ◌≡◌, ◌↔◌, refl, arith,
}
use trace_public.Errors.{ok, err, conflict, too_many_requests, Reason}
use trace_public.Store.{User}
use trace_public.Table.{find}
use trace_public.Login.{
  Bcrypt, wait_minutes, failed, minute_ms, find_by_email, login_user, ceil_seconds, register_user,
  build_payload, wait_ms,
}
use trace_public.Login.Laws.{wait_minutes_bounds, waits_after_failure}
use trace_public.Login.Accounts.{register_user-login, login_user_iff}
use trace_public.Tests.Samples.{buyer, db_empty}

-- A password is its own hash.
abbrev plain : Bcrypt
plain = record { compare = str_eq; hash = λ s. s }

fifth_failure_waits : (failed 60000 buyer).login_backoff_until ≡ some 120000
unfolding failed
fifth_failure_waits = refl

wait_minutes_bounds_example :
    (wait_minutes 7 ≤ 15) × ((wait_minutes 7 ≡ 0) ↔ (7 < 5)) × (wait_minutes 5 ≤ wait_minutes 7)
wait_minutes_bounds_example = wait_minutes_bounds 5 7 (omega arith)

early_try : 90000 < 60000 + wait_minutes (failed 60000 buyer).failed_login_count * minute_ms
unfolding failed wait_minutes
early_try = omega arith

found_buyer : find_by_email "site@example.org" db_empty.users ≡ some (2, buyer)
unfolding find_by_email
found_buyer = refl

there_buyer : find 2 db_empty.users ≡ some buyer
unfolding find
there_buyer = refl

waits_after_failure_example :
    login_user plain "site@example.org" "word" 90000
      (login_user plain "site@example.org" "wrong" 60000 db_empty).0
    ≡ (
      (login_user plain "site@example.org" "wrong" 60000 db_empty).0,
      err (
          too_many_requests (
            some (
              ceil_seconds (
                60000
                + wait_minutes (failed 60000 buyer).failed_login_count * minute_ms
                - 90000)))),
    )
waits_after_failure_example =
    waits_after_failure plain "site@example.org" "wrong" "word" 2 buyer 60000 90000 db_empty
      found_buyer there_buyer refl refl (omega arith) early_try

no_such_account : find_by_email "new@example.org" db_empty.users ≡ none
unfolding find_by_email
no_such_account = refl

register_user-login_example :
    (login_user plain "new@example.org" "pass" 5
        (register_user plain 3 "new@example.org" "pass" "New" db_empty).0
      ≡ register_user plain 3 "new@example.org" "pass" "New" db_empty)
    × (register_user plain 4 "new@example.org" "other" "Other"
          (register_user plain 3 "new@example.org" "pass" "New" db_empty).0
        ≡ (
          (register_user plain 3 "new@example.org" "pass" "New" db_empty).0,
          err (conflict Reason.email_taken),
        ))
register_user-login_example =
    register_user-login plain 3 4 "new@example.org" "pass" "New" "other" "Other" 5 db_empty refl
      no_such_account

login_user_iff_example :
    ((login_user plain "site@example.org" "word" 5 db_empty).1 ≡ ok (build_payload 2 buyer)) ↔ (
      (id : ℕ) × (user : User) × Path
        (Option (ℕ × User))
        (find_by_email "site@example.org" db_empty.users)
        (some (id, user))
      × (wait_ms user 5 ≡ 0)
      × (str_eq "word" user.password_hash ≡ true)
      × (build_payload 2 buyer ≡ build_payload id user))
login_user_iff_example =
    login_user_iff plain "site@example.org" "word" 5 db_empty (build_payload 2 buyer)
