-- ===== src/Table.antt =====
-- A database table as a list of rows, with a key column: what the queries of the repositories
-- select and update by. The order of the rows is the model's; no query of the program relies on it
-- without an ORDER BY.
use parkirpintar.Common.{
  ◌≡◌, refl, Bool, List, [], ◌∷◌, Option, none, some, String, arith, ◌==◌, eq_iff, eq_refl,
  if◌then◌else◌, Option-cases, inl, inr, ℕ, zero, suc,
}
use mathlib.Core.Option

module _ {A : Type 0} where
  -- The first row that passes the test.
  unfoldable pub find : (A → Bool) → List A → Option A
  find p [] = none
  find p (a ∷ as') = if p a then some a else find p as'

  -- SELECT … WHERE, with every row that passes the test.
  unfoldable pub where_ : (A → Bool) → List A → List A
  where_ p [] = []
  where_ p (a ∷ as') = let rest = where_ p as' in if p a then a ∷ rest else rest

  -- UPDATE … SET f WHERE p
  unfoldable pub update_where : (A → Bool) → (A → A) → List A → List A
  update_where p f [] = []
  update_where p f (a ∷ rows) = (if p a then f a else a) ∷ update_where p f rows

  -- What a test finds after an update that does not change what the test says.
  pub find-update_where :
      (q p : A → Bool) (f : A → A) (keeps : (a : A) → q (f a) ≡ q a) (rows : List A)
      → find q (update_where p f rows) ≡ Option.map (λ a. if p a then f a else a) (find q rows)
  unfolding find update_where
  find-update_where q p f keeps [] = refl
  find-update_where q p f keeps (a ∷ rows) =
      ground (arith, keeps a, find-update_where q p f keeps rows)

module _ {A : Type 0} (key : A → String) where
  -- SELECT … WHERE key = k
  unfoldable pub select : String → List A → Option A
  unfolding find
  select k rows = find (λ a. key a == k) rows

  -- UPDATE … SET f WHERE key = k
  unfoldable pub update : String → (A → A) → List A → List A
  update k f [] = []
  update k f (a ∷ rows) = (if key a == k then f a else a) ∷ update k f rows

  -- DELETE … WHERE key = k
  unfoldable pub delete : String → List A → List A
  delete k [] = []
  delete k (a ∷ rows) = let rest = delete k rows in if key a == k then rest else a ∷ rest

  pub select-delete :
      (j k : String) (rows : List A)
      → select j (delete k rows) ≡ (if k == j then none else select j rows)
  unfolding select delete
  select-delete j k [] = ground arith
  select-delete j k (a ∷ rows) =
      ground (arith, select-delete j k rows, eq_iff (key a) k, eq_iff (key a) j, eq_iff k j)

  -- A row that is selected has the key.
  pub key-select : (k : String) (rows : List A) (a : A) → select k rows ≡ some a → key a ≡ k
  unfolding select
  key-select k [] a e = cc
  key-select k (b ∷ rows) a e = ground (arith, key-select k rows a, eq_iff (key b) k)

  pub select-cons :
      (j : String) (a : A) (rows : List A)
      → select j (a ∷ rows) ≡ (if key a == j then some a else select j rows)
  unfolding select
  select-cons j a rows = refl

  -- What a row is found as after an update that leaves the key alone.
  pub select-update :
      (f : A → A) (keeps : (a : A) → key (f a) ≡ key a) (j k : String) (rows : List A)
      → select j (update k f rows)
        ≡ (if k == j then Option.map f (select j rows) else select j rows)
  unfolding select update
  select-update f keeps j k [] = ground arith
  select-update f keeps j k (a ∷ rows) = ground (
    arith,
    keeps a,
    select-update f keeps j k rows,
    eq_iff (key a) k,
    eq_iff (key a) j,
    eq_iff k j,
  )

  -- An update of a key that no row has changes nothing.
  pub update_absent :
      (k : String) (f : A → A) (rows : List A) → select k rows ≡ none → update k f rows ≡ rows
  unfolding select update
  update_absent k f [] e = refl
  update_absent k f (a ∷ rows) e = ground (arith, update_absent k f rows)

  -- Where the row of an updated key comes from.
  pub updated-select :
      (f : A → A) (keeps : (a : A) → key (f a) ≡ key a) (k : String) (rows : List A) (b : A)
      → select k (update k f rows) ≡ some b
      → (a : A) × (select k rows ≡ some a) × (b ≡ f a)
  updated-select f keeps k rows b e =
      let cleared = select-update f keeps k k rows in
      elim (Option-cases (select k rows)) [
        | inl selected ↦ ground (arith, cleared, selected, eq_refl k)
        | inr (a, selected) ↦ (a, selected, ground (arith, cleared, selected, eq_refl k))
      ]

-- LIMIT
unfoldable pub take : {A : Type 0} → ℕ → List A → List A
take zero rows = []
take (suc n) [] = []
take (suc n) (a ∷ rows) = a ∷ take n rows

-- The rows that are read; the error of a reading that breaks off is not looked at.
unfoldable pub read_rows : {A : Type 0} → Option ℕ → List A → List A
unfolding take
read_rows none rows = rows
read_rows (some n) rows = take n rows

pub read_rows_nil : {A : Type 0} (cut : Option ℕ) → read_rows {A = A} cut [] ≡ []
unfolding read_rows take
read_rows_nil none = refl
read_rows_nil (some zero) = refl
read_rows_nil (some (suc n)) = refl
