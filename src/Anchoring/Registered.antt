-- ===== src/Anchoring/Registered.antt =====
-- packages/contracts/contracts/MaterialRegistry.sol, called again and again.
use text.Mathlib.Text.{◌==◌ as str_eq}
use trace_public.Common.{
  ℕ, Bool, true, false, not, Option, none, some, String, List, [], ◌∷◌, ◌==◌, ◌≡◌, inl, inr, refl,
  Bool-cases, Option-cases, if◌then◌else◌, subst, some-injective, eq_true_of_not,
}
use trace_public.Anchoring.Registry.{
  PassportRecord, Registry, zero_hash, zero_address, grant_hub_role, register_passport, is_stranger,
  is_new, update_passport_hash, transfer_passport,
}
use trace_public.Anchoring.Index.{
  IsIndexed, with_passport-IsIndexed, with_hash-IsIndexed, with_owner-IsIndexed,
}

-- A call to the contract; `sender` is the address that signs it.
pub data RegistryCall : Type 0 where
  grant : (sender hub : String) → RegistryCall
  register : (sender : String) (id : ℕ) (hash : String) → RegistryCall
  update : (sender : String) (id : ℕ) (hash : String) → RegistryCall
  transfer : (sender : String) (id : ℕ) (new_owner : String) → RegistryCall

unfoldable pub call : RegistryCall → Registry → Option Registry
unfolding grant_hub_role register_passport update_passport_hash transfer_passport
call (RegistryCall.grant sender hub) r = grant_hub_role sender hub r
call (RegistryCall.register sender id hash) r = register_passport sender id hash r
call (RegistryCall.update sender id hash) r = update_passport_hash sender id hash r
call (RegistryCall.transfer sender id new_owner) r = transfer_passport sender id new_owner r

-- A call that reverts changes nothing.
abbrev landed : Option Registry → Registry → Registry
landed none r = r
landed (some after) r = after

unfoldable pub run_calls : List RegistryCall → Registry → Registry
unfolding call
run_calls [] r = r
run_calls (c ∷ cs) r = run_calls cs (landed (call c r) r)

-- A registry as the constructor leaves it.
abbrev pub constructed : String → Registry
constructed admin = record {
  paused = false;
  has_hub_role = λ a. false;
  has_admin_role = λ a. str_eq a admin;
  records = λ id. none;
  hash_to_id = λ hash. 0;
}

record Kept (taken : Option Registry) : Type 0 where
  kept : (after : Registry) → taken ≡ some after → IsIndexed after

none-Kept : Kept none
none-Kept = record { kept = λ after e. absurd (cc) }

some-Kept : (after : Registry) → IsIndexed after → Kept (some after)
some-Kept after indexed = record { kept = λ r e. subst IsIndexed (some-injective e) indexed }

guard-eq-some :
    (b : Bool) (x : Option Registry) {after : Registry}
    → (if b then none else x) ≡ some after
    → (b ≡ false) × (x ≡ some after)
guard-eq-some true x h = cc
guard-eq-some false x h = (refl, h)

landed-IsIndexed :
    (r : Registry) (taken : Option Registry) → IsIndexed r → Kept taken → IsIndexed (landed taken r)
landed-IsIndexed r none indexed k = indexed
landed-IsIndexed r (some after) indexed k = k.kept after refl

none_of_is_new : (o : Option PassportRecord) → not (is_new o) ≡ false → o ≡ none
none_of_is_new none h = refl
none_of_is_new (some rec) h = cc

grant-Kept : (sender hub : String) (r : Registry) → IsIndexed r → Kept (grant_hub_role sender hub r)
unfolding grant_hub_role
grant-Kept sender hub r indexed = elim (Bool-cases (r.has_admin_role sender)) [
  | inl admin ↦ rw admin (some-Kept _ (record { holder = indexed.holder; entry = indexed.entry }))
  | inr other ↦ rw other none-Kept
]

register-IsIndexed :
    (sender : String) (id : ℕ) (hash : String) (r after : Registry)
    → IsIndexed r
    → register_passport sender id hash r ≡ some after
    → IsIndexed after
unfolding register_passport
register-IsIndexed sender id hash r after indexed h =
    let (granted, h1) = guard-eq-some (not (r.has_hub_role sender)) _ h in
    let (live, h2) = guard-eq-some r.paused _ h1 in
    let (named, h3) = guard-eq-some (id == 0) _ h2 in
    let (filled, h4) = guard-eq-some (str_eq hash zero_hash) _ h3 in
    let (new, h5) = guard-eq-some (not (is_new (r.records id))) _ h4 in
    let (free, h6) = guard-eq-some (not (r.hash_to_id hash == 0)) _ h5 in
    subst IsIndexed (some-injective h6) (
      with_passport-IsIndexed r indexed id hash (eq_true_of_not _ free) sender
        (none_of_is_new (r.records id) new) named)

update-IsIndexed :
    (sender : String) (id : ℕ) (hash : String) (r after : Registry)
    → IsIndexed r
    → update_passport_hash sender id hash r ≡ some after
    → IsIndexed after
unfolding update_passport_hash
update-IsIndexed sender id hash r after indexed h =
    let (live, h1) = guard-eq-some r.paused _ h in
    elim (Option-cases (r.records id)) [
      | inl unknown ↦ absurd (let h2 = rw unknown at h1 in cc)
      | inr (was, known) ↦
          let h2 = rw known at h1 in
          let (owned, h3) = guard-eq-some (is_stranger sender was r) _ h2 in
          let (filled, h4) = guard-eq-some (str_eq hash zero_hash) _ h3 in
          let (free, h5) = guard-eq-some (not (r.hash_to_id hash == 0)) _ h4 in
          subst IsIndexed (some-injective h5)
            (with_hash-IsIndexed r indexed id hash (eq_true_of_not _ free) was known)
    ]

transfer-IsIndexed :
    (sender : String) (id : ℕ) (new_owner : String) (r after : Registry)
    → IsIndexed r
    → transfer_passport sender id new_owner r ≡ some after
    → IsIndexed after
unfolding transfer_passport
transfer-IsIndexed sender id new_owner r after indexed h =
    let (live, h1) = guard-eq-some r.paused _ h in
    let (real, h2) = guard-eq-some (str_eq new_owner zero_address) _ h1 in
    elim (Option-cases (r.records id)) [
      | inl unknown ↦ absurd (let h3 = rw unknown at h2 in cc)
      | inr (was, known) ↦
          let h3 = rw known at h2 in
          let (owned, h4) = guard-eq-some (is_stranger sender was r) _ h3 in
          subst IsIndexed (some-injective h4)
            (with_owner-IsIndexed r indexed id new_owner was known)
    ]

call-Kept : (c : RegistryCall) (r : Registry) → IsIndexed r → Kept (call c r)
unfolding call
call-Kept (RegistryCall.grant sender hub) r indexed = grant-Kept sender hub r indexed
call-Kept (RegistryCall.register sender id hash) r indexed = record {
  kept = λ after h. register-IsIndexed sender id hash r after indexed h;
}
call-Kept (RegistryCall.update sender id hash) r indexed = record {
  kept = λ after h. update-IsIndexed sender id hash r after indexed h;
}
call-Kept (RegistryCall.transfer sender id owner) r indexed = record {
  kept = λ after h. transfer-IsIndexed sender id owner r after indexed h;
}

pub run_calls-IsIndexed :
    (calls : List RegistryCall) (r : Registry) → IsIndexed r → IsIndexed (run_calls calls r)
unfolding run_calls
run_calls-IsIndexed [] r indexed = indexed
run_calls-IsIndexed (c ∷ cs) r indexed =
    run_calls-IsIndexed cs _ (landed-IsIndexed r (call c r) indexed (call-Kept c r indexed))

pub constructed-IsIndexed : (admin : String) → IsIndexed (constructed admin)
constructed-IsIndexed admin = record {
  holder = λ hash. inl refl;
  entry = λ id rec found. absurd (cc);
}
