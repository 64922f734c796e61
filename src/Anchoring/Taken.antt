-- ===== src/Anchoring/Taken.antt =====
-- packages/contracts/contracts/MaterialRegistry.sol: which calls of an anchor job the registry takes, and
-- what it then holds.
use text.Mathlib.Text.{◌==◌ as str_eq}
use text.Mathlib.TextEquality.{eq_iff}
use trace_public.Common.{ℕ, Bool, true, false, ◌&&◌, none, some, String, ◌==◌, ◌≡◌, refl, ==_self}
use trace_public.Anchoring.Registry.{
  PassportRecord, Registry, zero_hash, zero_address, with_hub_role, grant_hub_role, with_passport,
  register_passport, with_hash, update_passport_hash, with_owner, transfer_passport,
}

str_eq_self : (s : String) → str_eq s s ≡ true
str_eq_self s = (eq_iff s s).1 refl

and_false : (a : Bool) → (a && false) ≡ false
and_false true = refl
and_false false = refl

-- What no call of a job changes: the registry is not paused, and the deployer administers it.
abbrev pub IsRunning : String → Registry → Type 0
IsRunning deployer r = (r.paused ≡ false) × (r.has_admin_role deployer ≡ true)

-- The material is not registered, and its fingerprint is free.
abbrev pub IsVacant : String → ℕ → String → Registry → Type 0
IsVacant deployer id hash r =
    IsRunning deployer r × (r.records id ≡ none) × ((r.hash_to_id hash == 0) ≡ true)

-- And an address may register it.
abbrev pub IsOpen : String → ℕ → String → String → Registry → Type 0
IsOpen deployer id hash hub r = IsVacant deployer id hash r × (r.has_hub_role hub ≡ true)

-- The material is registered, by anybody, and its new fingerprint is free.
abbrev pub IsOutdated : String → ℕ → String → Registry → Type 0
IsOutdated deployer id hash r =
    IsRunning deployer r
    × ((rec : PassportRecord) × (r.records id ≡ some rec))
    × ((r.hash_to_id hash == 0) ≡ true)

-- It is registered by this owner, and its new fingerprint is free.
abbrev pub IsOwned : ℕ → String → String → Registry → Type 0
IsOwned id hash owner r =
    (r.paused ≡ false)
    × ((rec : PassportRecord) × (r.records id ≡ some rec) × (rec.owner ≡ owner))
    × ((r.hash_to_id hash == 0) ≡ true)

-- The registry holds this fingerprint of the material, as this owner's.
abbrev pub HoldsFor : ℕ → String → String → Registry → Type 0
HoldsFor id hash owner r = r.records id ≡ some (record { data_hash = hash; owner = owner })

pub grant_hub_role-taken :
    (deployer : String) (id : ℕ) (hash hub : String) (r : Registry)
    → IsVacant deployer id hash r
    → (grant_hub_role deployer hub r ≡ some (with_hub_role hub r))
      × IsOpen deployer id hash hub (with_hub_role hub r)
unfolding grant_hub_role
grant_hub_role-taken deployer id hash hub r ((live, admin), vacant, free) =
    (rw admin refl, (((live, admin), vacant, free), rw (str_eq_self hub) refl))

pub register_passport-taken :
    (deployer : String) (id : ℕ) (hash hub : String) (r : Registry)
    → (id == 0) ≡ false
    → str_eq hash zero_hash ≡ false
    → IsOpen deployer id hash hub r
    → (register_passport hub id hash r ≡ some (with_passport hub id hash r))
      × HoldsFor id hash hub (with_passport hub id hash r)
unfolding register_passport
register_passport-taken deployer id hash hub r named filled
      (((live, admin), vacant, free), granted) =
    (simp (granted, live, named, filled, vacant, free), rw (==_self id) refl)

pub transfer_passport-taken :
    (deployer : String) (id : ℕ) (hash owner : String) (r : Registry)
    → str_eq owner zero_address ≡ false
    → IsOutdated deployer id hash r
    → (after : Registry) × (transfer_passport deployer id owner r ≡ some after)
      × IsOwned id hash owner after
unfolding transfer_passport
transfer_passport-taken deployer id hash owner r real ((live, admin), (rec, found), free) = (
  with_owner id owner rec r,
  simp (live, real, found, admin, and_false),
  (live, (record rec { owner = owner }, rw (==_self id) refl, refl), free),
)

pub update_passport_hash-taken :
    (id : ℕ) (hash owner : String) (r : Registry)
    → str_eq hash zero_hash ≡ false
    → IsOwned id hash owner r
    → (after : Registry) × (update_passport_hash owner id hash r ≡ some after)
      × HoldsFor id hash owner after
unfolding update_passport_hash
update_passport_hash-taken id hash owner r filled (live, (rec, found, owned), free) = (
  with_hash id hash rec r,
  simp (live, found, owned, str_eq_self, filled, free),
  rw (==_self id, owned) refl,
)
