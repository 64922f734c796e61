-- ===== src/Anchoring/Registry.antt =====
-- packages/contracts/contracts/MaterialRegistry.sol: the contract that holds the fingerprints. An address
-- and a hash is the text of its bytes in lower case, and a call that reverts is none. A record whose
-- `registeredAt` is 0 is none; its status, times and address of data are left out, and so are the calls
-- that the worker does not make.
use text.Mathlib.Text.{◌==◌ as str_eq}
use trace_public.Common.{
  ℕ, Bool, true, false, not, ◌&&◌, Option, none, some, String, ◌==◌, if◌then◌else◌,
}

pub record PassportRecord : Type 0 where
  pub data_hash : String
  pub owner : String

pub record Registry : Type 0 where
  pub paused : Bool
  pub has_hub_role : String → Bool
  pub has_admin_role : String → Bool
  pub records : ℕ → Option PassportRecord
  -- 0 where no material has the hash.
  pub hash_to_id : String → ℕ

abbrev pub zero_hash : String
zero_hash = "0x0000000000000000000000000000000000000000000000000000000000000000"

abbrev pub zero_address : String
zero_address = "0x0000000000000000000000000000000000000000"

abbrev pub put_record : ℕ → PassportRecord → (ℕ → Option PassportRecord) → ℕ → Option PassportRecord
put_record id rec records j = if j == id then some rec else records j

abbrev pub put_hash : String → ℕ → (String → ℕ) → String → ℕ
put_hash hash id hash_to_id h = if str_eq h hash then id else hash_to_id h

abbrev pub with_hub_role : String → Registry → Registry
with_hub_role hub r = record r {
  has_hub_role = λ a. if str_eq a hub then true else r.has_hub_role a;
}

unfoldable pub grant_hub_role : String → String → Registry → Option Registry
grant_hub_role sender hub r = if r.has_admin_role sender then some (with_hub_role hub r) else none

abbrev pub with_passport : String → ℕ → String → Registry → Registry
with_passport sender id hash r = record r {
  records = put_record id (record { data_hash = hash; owner = sender }) r.records;
  hash_to_id = put_hash hash id r.hash_to_id;
}

abbrev pub is_new : Option PassportRecord → Bool
is_new none = true
is_new (some rec) = false

unfoldable pub register_passport : String → ℕ → String → Registry → Option Registry
register_passport sender id hash r =
    if not (r.has_hub_role sender)
    then none
    else if r.paused
    then none
    else if id == 0
    then none
    else if str_eq hash zero_hash
    then none
    else if not (is_new (r.records id))
    then none
    else if not (r.hash_to_id hash == 0)
    then none
    else some (with_passport sender id hash r)

-- Neither the owner nor an administrator.
abbrev pub is_stranger : String → PassportRecord → Registry → Bool
is_stranger sender rec r = not (str_eq rec.owner sender) && not (r.has_admin_role sender)

-- `delete _hashToId[oldHash]` comes before the new hash is stored.
abbrev pub with_hash : ℕ → String → PassportRecord → Registry → Registry
with_hash id hash rec r = record r {
  records = put_record id (record rec { data_hash = hash }) r.records;
  hash_to_id = put_hash hash id (put_hash rec.data_hash 0 r.hash_to_id);
}

abbrev rehash : String → ℕ → String → Registry → Option PassportRecord → Option Registry
rehash sender id hash r none = none
rehash sender id hash r (some rec) =
    if is_stranger sender rec r
    then none
    else if str_eq hash zero_hash
    then none
    else if not (r.hash_to_id hash == 0)
    then none
    else some (with_hash id hash rec r)

unfoldable pub update_passport_hash : String → ℕ → String → Registry → Option Registry
update_passport_hash sender id hash r =
    if r.paused then none else rehash sender id hash r (r.records id)

abbrev pub with_owner : ℕ → String → PassportRecord → Registry → Registry
with_owner id new_owner rec r = record r {
  records = put_record id (record rec { owner = new_owner }) r.records;
}

abbrev hand_over : String → ℕ → String → Registry → Option PassportRecord → Option Registry
hand_over sender id new_owner r none = none
hand_over sender id new_owner r (some rec) =
    if is_stranger sender rec r then none else some (with_owner id new_owner rec r)

unfoldable pub transfer_passport : String → ℕ → String → Registry → Option Registry
transfer_passport sender id new_owner r =
    if r.paused
    then none
    else if str_eq new_owner zero_address
    then none
    else hand_over sender id new_owner r (r.records id)
