-- ===== src/Control/Tests/Upgrades.antt =====
-- Runs of the migrations, on tables that are the list of the blocks run on them.
use microvm_terminal.Base.{
  ◌≡◌, refl, true, some, none, Option, List, [], ◌∷◌, Bytes, bytes, bytes_eq,
}
use microvm_terminal.Base.Map
use microvm_terminal.Base.Split.{split, join}
use microvm_terminal.Base.Text.{bytes-eq}
use microvm_terminal.Base.Trim.{has_prefix, trim_space, is_space, trim_left, trim_both}
use microvm_terminal.Control.Migrations.{
  Files, Statements, Database, extract_goose_up, exists, read_file, apply_one, apply_all, migrate,
  sort_strings, sorted_in, bytes_less, sql_names, up_lines,
}
use microvm_terminal.Control.Migrations.Replay.{Faithful, migrate-Faithful}

abbrev note_block : Bytes → List Bytes → Option (List Bytes)
note_block up tables = some (up ∷ tables)

abbrev two_files : Files
two_files =
    (bytes "2.sql", some (bytes "-- +goose Up\ny\n-- +goose Down\nz"))
    ∷ (bytes "doc", none)
    ∷ (bytes "1.sql", some (bytes "-- +goose Up\nx"))
    ∷ []

abbrev no_tables : Database (List Bytes)
no_tables = record { tables = []; applied = [] }

abbrev all_well : Bytes → Statements
all_well name = record { checks = true; begins = true; records = true; commits = true }

-- The commit of the second migration fails.
abbrev second_fails : Bytes → Statements
second_fails name = record {
  checks = true;
  begins = true;
  records = true;
  commits = bytes_eq name (bytes "1.sql");
}

up_block :
    extract_goose_up (bytes "a\n-- +goose Up\n -- +goose StatementBegin\nx\n\n-- +goose Down\nz")
    ≡ bytes "x\n"
unfolding extract_goose_up split join up_lines has_prefix trim_space is_space trim_left trim_both
up_block = refl

abbrev upgraded : Database (List Bytes)
upgraded = (migrate note_block two_files true all_well no_tables).0

ends_well : migrate note_block two_files true all_well no_tables ≡ (
  record { tables = bytes "y" ∷ bytes "x" ∷ []; applied = bytes "1.sql" ∷ bytes "2.sql" ∷ [] },
  none,
)
unfolding migrate sort_strings sorted_in bytes_less sql_names apply_all apply_one exists read_file
    extract_goose_up split join up_lines has_prefix trim_space is_space trim_left trim_both
    Map.lookup bytes_eq
ends_well = refl

migrate-Faithful_example :
    Faithful note_block two_files [] (migrate note_block two_files true second_fails no_tables).0
migrate-Faithful_example =
    migrate-Faithful note_block two_files [] true second_fails no_tables (refl, tt)
