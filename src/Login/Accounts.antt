-- ===== src/Login/Accounts.antt =====
-- Registering, and signing in with what was registered.
use text.Mathlib.Text.{◌==◌ as str_eq}
use text.Mathlib.TextPositions.{eq_refl}
use trace_public.Common.{
  ℕ, ◌-◌, Bool, true, false, Option, none, some, [], ◌∷◌, String, ◌≡◌, ◌↔◌, ◌∙◌, sym, ap, refl, inl,
  inr, arith, Bool-cases, Option-cases, ltb, if◌then◌else◌,
}
use trace_public.Errors.{Result, ok, err, ok-injective, conflict, Reason}
use trace_public.Store.{User, Db}
use trace_public.Table.{Table, insert}
use trace_public.Login.{
  Bcrypt, find_by_email, new_user, Payload, wait_ms, register_user, check_password, login_user,
  build_payload,
}

find_by_email-insert :
    (email : String) (id : ℕ) (user : User) (t : Table User)
    → str_eq user.email email ≡ true
    → find_by_email email t ≡ none
    → find_by_email email (insert id user t) ≡ some (id, user)
unfolding find_by_email insert
find_by_email-insert email id user [] same h = rw same refl
find_by_email-insert email id user ((j, r) ∷ t) same h = elim (Bool-cases (str_eq r.email email)) [
  | inl hit ↦ let h1 = rw hit at h in cc h1
  | inr miss ↦ rw miss (find_by_email-insert email id user t same (rw miss at h))
]

-- An email that no account has can be registered, and the account can then sign in at any time with
-- the same password and gets the session that registering gave, where bcrypt accepts a password
-- against its own hash; signing in changes nothing. Registering the email again is refused.
pub register_user-login :
    (bcrypt : Bcrypt) (id id' : ℕ) (email password name password' name' : String) (now : ℕ)
    (db : Db)
    → bcrypt.compare password (bcrypt.hash password) ≡ true
    → find_by_email email db.users ≡ none
    → (login_user bcrypt email password now (register_user bcrypt id email password name db).0
        ≡ register_user bcrypt id email password name db)
      × (register_user bcrypt id' email password' name'
            (register_user bcrypt id email password name db).0
          ≡ ((register_user bcrypt id email password name db).0, err (conflict Reason.email_taken)))
unfolding register_user login_user check_password
register_user-login bcrypt id id' email password name password' name' now db accepts free =
    let registered =
      find_by_email-insert email id (new_user bcrypt email password name) db.users (eq_refl email)
        free in
    let idle : ltb 0 (now - now) ≡ false = ground arith in
    let written : register_user bcrypt id email password name db ≡ (
      record db { users = insert id (new_user bcrypt email password name) db.users },
      ok (build_payload id (new_user bcrypt email password name)),
    ) =
      rw (free, register_user) refl in
    rw written
      (rw (registered, login_user) (rw idle (rw accepts refl)), rw (registered, register_user) refl)

abbrev answer_of : Db × Result Payload → Result Payload
answer_of (db, answer) = answer

-- Whether or not the run of failures is cleared, the answer is the session.
signed_in :
    (b : Bool) (db db' : Db) (payload : Payload)
    → answer_of (if b then (db, ok payload) else (db', ok payload)) ≡ ok payload
signed_in true db db' payload = refl
signed_in false db db' payload = refl

-- Signing in succeeds exactly for an account that the email finds, that is not waiting, and whose
-- hash accepts the password; it then gives the session of that account.
pub login_user_iff :
    (bcrypt : Bcrypt) (email password : String) (now : ℕ) (db : Db) (payload : Payload)
    → ((login_user bcrypt email password now db).1 ≡ ok payload) ↔ (
        (id : ℕ) × (user : User) × Path
          (Option (ℕ × User))
          (find_by_email email db.users)
          (some (id, user))
        × (wait_ms user now ≡ 0)
        × (bcrypt.compare password user.password_hash ≡ true)
        × (payload ≡ build_payload id user))
unfolding login_user check_password
login_user_iff bcrypt email password now db payload = (
  (λ h. elim (Option-cases (find_by_email email db.users)) [
    | inl unknown ↦ let h1 = rw (unknown, login_user) at h in cc h1
    | inr ((id, user), found) ↦
        let h1 = rw (found, login_user) at h in
        elim (Bool-cases (ltb 0 (wait_ms user now))) [
          | inl waiting ↦ let h2 = rw waiting at h1 in cc h2
          | inr free ↦
              let h2 = rw (free, check_password) at h1 in
              elim (Bool-cases (bcrypt.compare password user.password_hash)) [
                | inl accepted ↦ (
                  id,
                  user,
                  found,
                  ground (arith, free),
                  accepted,
                  sym (
                      ok-injective
                        (sym (signed_in _ _ _ (build_payload id user)) ∙ rw accepted at h2)),
                )
                | inr wrong ↦ let h3 = rw wrong at h2 in cc h3
              ]
        ]
  ]),
  (λ (id, user, found, idle, accepted, same).
      let free : ltb 0 (wait_ms user now) ≡ false = rw idle refl in
      rw (found, login_user)
        (rw (free, check_password)
          (rw accepted (signed_in _ _ _ (build_payload id user) ∙ ap ok (sym same))))),
)
