-- ===== src/Access/Slugs.antt =====
-- packages/api/src/modules/access-request/access-request.service.ts: the address of an organisation
-- (`slugifyOrganisationName` and the loop that looks for a free one). A slug is the list of its
-- characters' codes.
pub mod Digits
pub mod Free
use Prim.Native.Char.{code}
use trace_public.Common.{
  ℕ, ◌+◌, ◌-◌, ◌/◌, ◌%◌, max, zero, suc, Bool, true, false, not, ◌&&◌, ◌||◌, Option, none, some,
  List, [], ◌∷◌, ◌++◌, String, ltb, leb, ◌==◌, if◌then◌else◌, length, any,
}

-- What `trim` takes away: white space and line ends.
abbrev pub is_space : ℕ → Bool
is_space c =
    (leb 9 c && leb c 13)
    || (leb 0x2000 c && leb c 0x200A)
    || any (λ d. c == d)
        (0x20 ∷ 0xA0 ∷ 0x1680 ∷ 0x2028 ∷ 0x2029 ∷ 0x202F ∷ 0x205F ∷ 0x3000 ∷ 0xFEFF ∷ [])

unfoldable pub trim_start : String → String
trim_start String.[] = String.[]
trim_start (String.◌∷◌ c s) =
    let rest = trim_start s in if is_space (code c) then rest else String.◌∷◌ c s

abbrev pub is_empty : String → Bool
is_empty String.[] = true
is_empty (String.◌∷◌ c s) = false

unfoldable pub trim_end : String → String
trim_end String.[] = String.[]
trim_end (String.◌∷◌ c s) =
    let rest = trim_end s in
    if is_space (code c) && is_empty rest then String.[] else String.◌∷◌ c rest

unfoldable pub trim : String → String
unfolding trim_start trim_end
trim s = trim_end (trim_start s)

abbrev pub Slug : Type 0
Slug = List ℕ

abbrev dash : ℕ
dash = 45

-- `toLowerCase`, as far as the letters a to z come of it: they come of A to Z, of the Kelvin sign and
-- of the dotted capital I, which becomes an i and a combining dot.
abbrev lower : ℕ → Slug
lower c =
    if leb 65 c && leb c 90
    then (c + 32) ∷ []
    else if c == 0x130
    then 105 ∷ 0x307 ∷ []
    else if c == 0x212A
    then 107 ∷ []
    else c ∷ []

unfoldable pub lowered : String → Slug
lowered String.[] = []
lowered (String.◌∷◌ c s) = lower (code c) ++ lowered s

-- `[a-z0-9]`.
abbrev is_slug_char : ℕ → Bool
is_slug_char c = (leb 97 c && leb c 122) || (leb 48 c && leb c 57)

-- `.replace(/[^a-z0-9]+/g, '-')`.
unfoldable pub dash_runs : (in_run : Bool) → Slug → Slug
dash_runs in_run [] = []
dash_runs in_run (c ∷ cs) =
    let kept = c ∷ dash_runs false cs in
    let skipped = dash_runs true cs in
    if is_slug_char c then kept else if in_run then skipped else dash ∷ skipped

-- `.replace(/^-+|-+$/g, '')`.
unfoldable pub drop_dashes : Slug → Slug
drop_dashes [] = []
drop_dashes (c ∷ cs) = let rest = drop_dashes cs in if c == dash then rest else c ∷ cs

abbrev is_nil : Slug → Bool
is_nil [] = true
is_nil (c ∷ cs) = false

unfoldable pub drop_last_dashes : Slug → Slug
drop_last_dashes [] = []
drop_last_dashes (c ∷ cs) =
    let rest = drop_last_dashes cs in if c == dash && is_nil rest then [] else c ∷ rest

-- `.replace(/-{2,}/g, '-')`.
unfoldable pub squeeze : (after_dash : Bool) → Slug → Slug
squeeze after_dash [] = []
squeeze after_dash (c ∷ cs) =
    let rest = squeeze (c == dash) cs in if after_dash && c == dash then rest else c ∷ rest

-- `.slice(0, n)`.
unfoldable pub take : ℕ → Slug → Slug
take zero cs = []
take (suc n) [] = []
take (suc n) (c ∷ cs) = c ∷ take n cs

-- "organisation".
abbrev pub or_organisation : Slug → Slug
or_organisation [] = 111 ∷ 114 ∷ 103 ∷ 97 ∷ 110 ∷ 105 ∷ 115 ∷ 97 ∷ 116 ∷ 105 ∷ 111 ∷ 110 ∷ []
or_organisation (c ∷ cs) = c ∷ cs

unfoldable pub slugify_organisation_name : String → Slug
unfolding trim lowered dash_runs drop_dashes drop_last_dashes squeeze take
slugify_organisation_name value = or_organisation (
    take 63
      (squeeze false (drop_last_dashes (drop_dashes (dash_runs false (lowered (trim value)))))))

-- `String(n)`; a number has no more digits than rounds are left.
unfoldable pub digits_in : (rounds : ℕ) → ℕ → Slug
digits_in zero n = []
digits_in (suc rounds) n =
    let front = digits_in rounds (n / 10) in
    if ltb n 10 then (n + 48) ∷ [] else front ++ ((n % 10 + 48) ∷ [])

unfoldable pub digits : ℕ → Slug
unfolding digits_in
digits n = digits_in (suc n) n

-- The slug that is tried after a taken one.
unfoldable pub candidate : Slug → ℕ → Slug
unfolding take digits
candidate base suffix =
    take (max 1 (63 - length (digits suffix) - 1)) base ++ (dash ∷ digits suffix)

abbrev pub same_slug : Slug → Slug → Bool
same_slug [] [] = true
same_slug [] (d ∷ ds) = false
same_slug (c ∷ cs) [] = false
same_slug (c ∷ cs) (d ∷ ds) = c == d && same_slug cs ds

-- A query for an organisation by its slug.
abbrev pub is_taken : Slug → List Slug → Bool
is_taken slug used = any (same_slug slug) used

-- The loop, in at most so many rounds.
unfoldable pub free_slug : (rounds : ℕ) → Slug → (suffix : ℕ) → Slug → List Slug → Option Slug
unfolding candidate
free_slug zero base suffix slug used = none
free_slug (suc rounds) base suffix slug used =
    let next = free_slug rounds base (suffix + 1) (candidate base suffix) used in
    if is_taken slug used then next else some slug

-- The loop with as many rounds as it can need.
unfoldable pub first_free_slug : Slug → List Slug → Option Slug
unfolding free_slug
first_free_slug base used = free_slug (length used + 2) base 2 base used
