-- ===== src/Migrations/Operations.antt =====
-- The operations of Alembic that the revisions call, with what PostgreSQL does for them. A refused
-- statement raises an error of the database. A new table or index stands in front of the older ones, and a new column or
-- constraint behind them.
use service_of_import.Prelude.{
  ℕ, Text, text_eq, Bool, false, ◌&&◌, not, Option, List, [], ◌∷◌, ◌++◌, map, filter, any,
  if◌then◌else◌,
}
use service_of_import.Errors.{Result, ok, raised, database_error}

pub data ColumnType : Type 0 where
  big_integer text jsonb timestamp : ColumnType
  string : ℕ → ColumnType

-- `now()` and `0`
pub data Default : Type 0 where
  now zero_text : Default

pub record Column : Type 0 where
  pub name : Text
  pub type : ColumnType
  pub identity : Bool
  pub server_default : Option Default
  pub nullable : Bool

pub data Constraint : Type 0 where
  check : Text → Text → Constraint
  primary_key : Text → List Text → Constraint
  unique : Text → List Text → Constraint
  -- Its columns, the table and columns that they refer to, and ON DELETE CASCADE.
  foreign_key : Text → List Text → Text → List Text → Bool → Constraint

pub record Table : Type 0 where
  pub name : Text
  pub columns : List Column
  pub constraints : List Constraint

pub record Index : Type 0 where
  pub name : Text
  pub table : Text
  pub keys : List Text
  pub condition : Option Text

pub record Schema : Type 0 where
  pub tables : List Table
  pub indexes : List Index

abbrev pub constraint_name : Constraint → Text
constraint_name (check n e) = n
constraint_name (primary_key n cs) = n
constraint_name (unique n cs) = n
constraint_name (foreign_key n cs t ds cascade) = n

abbrev pub is_reference : Text → Constraint → Bool
is_reference t (foreign_key n cs u ds cascade) = text_eq u t
is_reference t _ = false

abbrev pub has_name : Text → Table → Bool
has_name n t = text_eq t.name n

abbrev pub index_has_name : Text → Index → Bool
index_has_name n i = text_eq i.name n

abbrev pub refers_to : Text → Table → Bool
refers_to n t = any (is_reference n) t.constraints

abbrev pub is_on : Text → Index → Bool
is_on n i = text_eq i.table n

abbrev pub checked {ℓ} : {A : Type ℓ} → Bool → A → Result A
checked b a = if b then ok a else raised database_error

unfoldable pub create_table : Table → Schema → Result Schema
create_table t s =
    checked (not (any (has_name t.name) s.tables)) (record s { tables = t ∷ s.tables })

unfoldable pub create_index : Index → Schema → Result Schema
create_index i s =
    checked (any (has_name i.table) s.tables && not (any (index_has_name i.name) s.indexes))
      (record s { indexes = i ∷ s.indexes })

-- All but the first that passes the test.
unfoldable pub without {ℓ} : {A : Type ℓ} → (A → Bool) → List A → List A
without p [] = []
without p (x ∷ xs) = let rest = without p xs in if p x then xs else x ∷ rest

unfoldable pub drop_index : Text → Schema → Result Schema
drop_index n s =
    checked (any (index_has_name n) s.indexes)
      (record s { indexes = without (index_has_name n) s.indexes })

-- A table that others refer to stays, and the indexes of one that goes go with it.
unfoldable pub drop_table : Text → Schema → Result Schema
drop_table n s =
    checked (any (has_name n) s.tables && not (any (refers_to n) (without (has_name n) s.tables)))
      (record {
        tables = without (has_name n) s.tables;
        indexes = filter (λ i. not (is_on n i)) s.indexes;
      })

abbrev pub is_column : Text → Column → Bool
is_column c x = text_eq x.name c

abbrev pub is_constraint : Text → Constraint → Bool
is_constraint c x = text_eq (constraint_name x) c

abbrev pub change_table : Text → (Table → Table) → Schema → Schema
change_table n f s = record s { tables = map (λ t. if has_name n t then f t else t) s.tables }

abbrev pub in_table : Text → (Table → Bool) → Schema → Bool
in_table n p s = any (λ t. has_name n t && p t) s.tables

unfoldable pub add_column : Text → Column → Schema → Result Schema
add_column n c s =
    checked
      (any (has_name n) s.tables && not (in_table n (λ t. any (is_column c.name) t.columns) s))
      (change_table n (λ t. record t { columns = t.columns ++ c ∷ [] }) s)

unfoldable pub drop_column : Text → Text → Schema → Result Schema
drop_column n c s =
    checked (in_table n (λ t. any (is_column c) t.columns) s)
      (change_table n (λ t. record t { columns = without (is_column c) t.columns }) s)

unfoldable pub create_check_constraint : Text → Text → Text → Schema → Result Schema
create_check_constraint c n e s =
    checked
      (any (has_name n) s.tables && not (in_table n (λ t. any (is_constraint c) t.constraints) s))
      (change_table n (λ t. record t { constraints = t.constraints ++ check c e ∷ [] }) s)

unfoldable pub drop_constraint : Text → Text → Schema → Result Schema
drop_constraint c n s =
    checked (in_table n (λ t. any (is_constraint c) t.constraints) s)
      (change_table n (λ t. record t { constraints = without (is_constraint c) t.constraints }) s)
