-- ===== src/Table.antt =====
-- A database table as the list of its rows with their ids: what `select … where id =`,
-- `insert … returning`, `update … where id =` and `count(*)`/`sum` over a condition do to it.
pub mod Laws
pub mod Keys
pub mod Search
use trace_public.Common.{ℕ, ◌+◌, ◌≡◌, Bool, Option, none, some, List, [], ◌∷◌, ◌==◌, if◌then◌else◌}

abbrev pub Table {ℓ} : Type ℓ → Type ℓ
Table A = List (ℕ × A)

module _ {ℓ} {A : Type ℓ} where
  -- The row with this id, if there is one.
  unfoldable pub find : ℕ → Table A → Option A
  find k [] = none
  find k ((j, r) ∷ t) = if j == k then some r else find k t

  -- Writes the row with this id; no row has it, nothing changes.
  unfoldable pub put : ℕ → A → Table A → Table A
  put k v [] = []
  put k v ((j, r) ∷ t) = if j == k then (j, v) ∷ t else (j, r) ∷ put k v t

  -- A new row goes last.
  unfoldable pub insert : ℕ → A → Table A → Table A
  insert k v [] = (k, v) ∷ []
  insert k v (row ∷ t) = row ∷ insert k v t

  -- The sum of a figure over the rows.
  unfoldable pub sum_by : (A → ℕ) → Table A → ℕ
  sum_by f [] = 0
  sum_by f ((j, r) ∷ t) = f r + sum_by f t

  -- `count(*)` of the rows that satisfy a condition.
  unfoldable pub count_where : (A → Bool) → Table A → ℕ
  unfolding sum_by
  count_where p t = sum_by (λ r. if p r then 1 else 0) t

  -- `update … where id = k`, as a change of the row.
  unfoldable pub modify : ℕ → (A → A) → Table A → Table A
  modify k f [] = []
  modify k f ((j, r) ∷ t) = if j == k then (j, f r) ∷ t else (j, r) ∷ modify k f t

-- A property of every row.
abbrev pub AllRows {ℓ κ} : {A : Type ℓ} → (A → Type κ) → Table A → Type κ
AllRows P [] = Unit
AllRows P ((j, r) ∷ t) = P r × AllRows P t

-- An id is a primary key: no two rows have it.
unfoldable pub IsKeyed {ℓ} : {A : Type ℓ} → Table A → Type ℓ
unfolding find
IsKeyed [] = Unit
IsKeyed ((j, r) ∷ t) = (find j t ≡ none) × IsKeyed t

module _ {ℓ} {A : Type ℓ} where
  -- `findFirst` with a condition.
  unfoldable pub first_where : (A → Bool) → Table A → Option (ℕ × A)
  first_where p [] = none
  first_where p ((j, r) ∷ t) = let rest = first_where p t in if p r then some (j, r) else rest
