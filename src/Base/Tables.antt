-- ===== src/Base/Tables.antt =====
-- What the code relies on of the database client (Prisma over PostgreSQL): a table holds rows, and
-- the client's `create`, `updateMany` and `deleteMany` change exactly the rows that their condition
-- selects. The client is not part of the repository, so a table is a parameter of every component.
use mathlib.Core.Path.{◌≡◌, refl}
use native.Mathlib.Omega.{arith}
use mathlib.Core.Bool.{Bool, not, ◌||◌}
use mathlib.Core.Option.{Option}
use mathlib.Core.List.{List, [], ◌∷◌, ◌++◌}
use Prim.Native.Nat.{ℕ}
use attenda_api.Base.Lists.{filter_by, find_by, update_by, count_by, any, any-append}

pub record Table (Row : Type 0) : Type 1 where
  pub State : Type 0
  -- The rows in the order of their creation.
  pub rows : State → List Row
  pub create : Row → State → State
  pub update_many : (Row → Bool) → (Row → Row) → State → State
  pub delete_many : (Row → Bool) → State → State
  pub rows-create : (r : Row) (s : State) → rows (create r s) ≡ rows s ++ r ∷ []
  pub rows-update_many :
      (p : Row → Bool) (f : Row → Row) (s : State)
      → rows (update_many p f s) ≡ update_by p f (rows s)
  pub rows-delete_many :
      (p : Row → Bool) (s : State) → rows (delete_many p s) ≡ filter_by (λ r. not (p r)) (rows s)

module _ {Row : Type 0} (t : Table Row) where
  open t use {State, rows}

  -- `findMany`, `findFirst` or `findUnique`, and the `count` that `updateMany` reports.
  abbrev pub find_many : (Row → Bool) → State → List Row
  find_many p s = filter_by p (rows s)

  abbrev pub find_first : (Row → Bool) → State → Option Row
  find_first p s = find_by p (rows s)

  abbrev pub count : (Row → Bool) → State → ℕ
  count p s = count_by p (rows s)

  pub any-create :
      (p : Row → Bool) (r : Row) (s : State) → any p (rows (t.create r s)) ≡ (any p (rows s) || p r)
  any-create p r s = rw (t.rows-create r s, any-append p (rows s) (r ∷ [])) (ground arith)

-- A table kept as a list, which shows that the laws can be met.
abbrev pub list_table : (Row : Type 0) → Table Row
list_table Row = record {
  State = List Row;
  rows = λ s. s;
  create = λ r s. s ++ r ∷ [];
  update_many = update_by;
  delete_many = λ p s. filter_by (λ r. not (p r)) s;
  rows-create = λ r s. refl;
  rows-update_many = λ p f s. refl;
  rows-delete_many = λ p s. refl;
}
