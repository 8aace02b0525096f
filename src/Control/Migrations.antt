-- ===== src/Control/Migrations.antt =====
-- control-plane/internal/db/db.go: Migrate. The tables of the database are a parameter `S`, and `run`
-- is the execution of a block of SQL, none for an error; which of the other statements succeed is in
-- the record Statements, for each migration. A directory entry has no contents.
pub mod Replay
pub mod Again
use microvm_terminal.Base.{
  ℕ, ◌-◌, Bool, true, false, ◌&&◌, ◌||◌, not, Option, none, some, List, [], ◌∷◌, ◌++◌, Bytes, bytes,
  bytes_eq, length, drop, nat_eq, ltb, leb, if◌then◌else◌,
}
use microvm_terminal.Base.Map
use microvm_terminal.Base.Map.{GoMap}
use microvm_terminal.Base.Split.{split, join}
use microvm_terminal.Base.Text.{bytes-eq}
use microvm_terminal.Base.Trim.{has_prefix, trim_space}

abbrev pub starts : Bytes → Bytes → Bool
starts line mark = has_prefix (trim_space line) mark

unfoldable pub up_lines : Bool → List Bytes → List Bytes
up_lines in_up [] = []
up_lines in_up (line ∷ lines) =
    let in_it = up_lines true lines in
    let out_of_it = up_lines false lines in
    let rest = if in_up then in_it else out_of_it in
    if starts line (bytes "-- +goose Up")
    then in_it
    else if starts line (bytes "-- +goose Down")
    then out_of_it
    else if not in_up
    then rest
    else if starts line (bytes "-- +goose StatementBegin")
        || starts line (bytes "-- +goose StatementEnd")
    then rest
    else line ∷ rest

unfoldable pub extract_goose_up : Bytes → Bytes
extract_goose_up src = join b'\n' (up_lines false (split b'\n' src))

-- sort.Strings.
unfoldable pub bytes_less : Bytes → Bytes → Bool
bytes_less a [] = false
bytes_less [] (y ∷ ys) = true
bytes_less (x ∷ xs) (y ∷ ys) = ltb x y || (nat_eq x y && bytes_less xs ys)

unfoldable pub sorted_in : Bytes → List Bytes → List Bytes
sorted_in s [] = s ∷ []
sorted_in s (t ∷ ts) = let rest = sorted_in s ts in if bytes_less t s then t ∷ rest else s ∷ t ∷ ts

unfoldable pub sort_strings : List Bytes → List Bytes
sort_strings [] = []
sort_strings (s ∷ ss) = sorted_in s (sort_strings ss)

abbrev pub has_suffix : Bytes → Bytes → Bool
has_suffix s end = leb (length end) (length s) && bytes_eq (drop (length s - length end) s) end

abbrev pub is_file : Option Bytes → Bool
is_file none = false
is_file (some contents) = true

abbrev pub Files : Type 0
Files = GoMap Bytes (Option Bytes)

unfoldable pub sql_names : Files → List Bytes
sql_names [] = []
sql_names ((name, contents) ∷ more) =
    let rest = sql_names more in
    if is_file contents && has_suffix name (bytes ".sql") then name ∷ rest else rest

pub record Statements : Type 0 where
  pub checks : Bool
  pub begins : Bool
  pub records : Bool
  pub commits : Bool

pub data Error : Type 0 where
  create_failed check_failed read_failed no_up_block begin_failed : Error
  apply_failed record_failed commit_failed : Error

-- The tables, and the ids in schema_migrations.
pub record Database (S : Type 0) : Type 0 where
  pub tables : S
  pub applied : List Bytes

unfoldable pub exists : Bytes → List Bytes → Bool
exists name [] = false
exists name (id ∷ ids) = bytes_eq name id || exists name ids

abbrev pub contents_of : Option (Option Bytes) → Option Bytes
contents_of none = none
contents_of (some contents) = contents

unfoldable pub read_file : Files → Bytes → Option Bytes
read_file files name = contents_of (Map.lookup name files)

-- The end of a transaction: the row of schema_migrations and the commit.
abbrev pub recorded :
    {S : Type 0} → Database S → Database S → Bool → Bool → Database S × Option Error
recorded d d' false commits = (d, some record_failed)
recorded d d' true false = (d, some commit_failed)
recorded d d' true true = (d', none)

module _ {S : Type 0} (run : Bytes → S → Option S) where
  abbrev pub committed : Database S → Bytes → Statements → Option S → Database S × Option Error
  committed d name w none = (d, some apply_failed)
  committed d name w (some tables) =
      recorded d (record { tables = tables; applied = d.applied ++ name ∷ [] }) w.records w.commits

  abbrev pub applied_up : Database S → Bytes → Statements → Option Bytes → Database S × Option Error
  applied_up d name w none = (d, some read_failed)
  applied_up d name w (some raw) =
      if bytes_eq (trim_space (extract_goose_up raw)) []
      then (d, some no_up_block)
      else if w.begins
      then committed d name w (run (extract_goose_up raw) d.tables)
      else (d, some begin_failed)

  unfoldable pub apply_one : Files → Database S → Bytes → Statements → Database S × Option Error
  apply_one files d name w =
      if w.checks
      then (if exists name d.applied then (d, none) else applied_up d name w (read_file files name))
      else (d, some check_failed)

  abbrev pub unless_failed :
      Database S × Option Error → Database S × Option Error → Database S × Option Error
  unless_failed (d, none) rest = rest
  unless_failed (d, some e) rest = (d, some e)

  unfoldable pub apply_all :
      Files → (Bytes → Statements) → Database S → List Bytes → Database S × Option Error
  apply_all files w d [] = (d, none)
  apply_all files w d (name ∷ names) =
      unless_failed (apply_one files d name (w name))
        (apply_all files w (apply_one files d name (w name)).0 names)

  -- `creates` says that schema_migrations could be created, if it was not there.
  unfoldable pub migrate :
      Files → Bool → (Bytes → Statements) → Database S → Database S × Option Error
  migrate files creates w d =
      if creates
      then apply_all files w d (sort_strings (sql_names files))
      else (d, some create_failed)
