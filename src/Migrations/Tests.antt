-- ===== src/Migrations/Tests.antt =====
-- The revisions on a schema with the table of Alembic.
use service_of_import.Prelude.{codes, text_eq, any, false, [], ◌∷◌, ◌≡◌, refl}
use service_of_import.Errors.{ok, ◌>>=◌}
use service_of_import.Migrations.Operations.{Table, Schema, string}
use service_of_import.Migrations.{
  column, reports_table, create_initial, drop_initial, add_checksum, drop_checksum,
}
use service_of_import.Migrations.Roundtrip.{
  create_initial-drop_initial, IsApart, initial_tables, initial_indexes,
}
use service_of_import.Migrations.Checksum.{IsBefore, add_checksum-drop_checksum}

abbrev alembic_version : Table
alembic_version = record {
  name = codes "alembic_version";
  columns = column (codes "version_num") (string 32) false ∷ [];
  constraints = [];
}

abbrev bare : Schema
bare = record { tables = alembic_version ∷ []; indexes = [] }

bare-IsApart : IsApart initial_tables initial_indexes bare
unfolding any text_eq codes
bare-IsApart = (
  (
    (refl, refl, refl),
    (
      (refl, refl, refl),
      ((refl, refl, refl), ((refl, refl, refl), ((refl, refl, refl), ((refl, refl, refl), tt)))),
    ),
  ),
  (refl, (refl, (refl, (refl, (refl, tt))))),
)

create_initial-drop_initial_example : (create_initial bare >>= drop_initial) ≡ ok bare
create_initial-drop_initial_example = create_initial-drop_initial bare bare-IsApart

abbrev with_reports : Schema
with_reports = record { tables = reports_table ∷ alembic_version ∷ []; indexes = [] }

with_reports-IsBefore : IsBefore with_reports
unfolding any text_eq codes
with_reports-IsBefore = record { table = refl; no_column = refl; no_constraint = refl }

add_checksum-drop_checksum_example : (add_checksum with_reports >>= drop_checksum) ≡ ok with_reports
add_checksum-drop_checksum_example = add_checksum-drop_checksum with_reports with_reports-IsBefore
