-- ===== src/Control/Migrations/Replay.antt =====
-- What the tables are after any number of migrations, failures included.
use microvm_terminal.Base.{
  ◌≡◌, ◌≢◌, refl, ap, ◌∙◌, Bool, true, false, Option, none, some, List, [], ◌∷◌, ◌++◌, Bytes,
  bytes_eq, if◌then◌else◌, arith, inl, inr, Bool-cases,
}
use microvm_terminal.Base.Lists.{All, Distinct}
use microvm_terminal.Base.Text.{bytes_eq_iff}
use microvm_terminal.Base.Trim.{trim_space}
use microvm_terminal.Control.Migrations.{
  Files, Statements, Database, Error, extract_goose_up, begin_failed, check_failed, recorded,
  exists, read_file, committed, applied_up, apply_one, unless_failed, apply_all, migrate,
  sort_strings, sql_names,
}

not_known : (name : Bytes) (ids : List Bytes) → exists name ids ≡ false → All (λ id. id ≢ name) ids
unfolding exists
not_known name [] h = tt
not_known name (id ∷ ids) h = (
  (λ e. absurd (ground (arith, h, e, bytes_eq_iff name id))),
  not_known name ids (ground (arith, h)),
)

All-snoc :
    (x name : Bytes) (ids : List Bytes)
    → All (λ y. x ≢ y) ids
    → x ≢ name
    → All (λ y. x ≢ y) (ids ++ name ∷ [])
All-snoc x name [] h ne = (ne, tt)
All-snoc x name (id ∷ ids) (n, h) ne = (n, All-snoc x name ids h ne)

Distinct-snoc :
    (name : Bytes) (ids : List Bytes)
    → Distinct ids
    → All (λ id. id ≢ name) ids
    → Distinct (ids ++ name ∷ [])
Distinct-snoc name [] d h = (tt, tt)
Distinct-snoc name (id ∷ ids) (first, d) (n, h) =
    (All-snoc id name ids first n, Distinct-snoc name ids d h)

module _ {S : Type 0} (run : Bytes → S → Option S) (files : Files) where
  -- The Up block of a file, run on the tables.
  abbrev run_up : Option S → Option Bytes → Option S
  run_up none raw = none
  run_up (some tables) none = none
  run_up (some tables) (some raw) = run (extract_goose_up raw) tables

  -- The Up blocks of the files, run one after the other.
  abbrev pub replayed : Option S → List Bytes → Option S
  replayed tables [] = tables
  replayed tables (name ∷ names) = replayed (run_up tables (read_file files name)) names

  replayed-snoc :
      (o : Option S) (names : List Bytes) (name : Bytes)
      → replayed o (names ++ name ∷ []) ≡ run_up (replayed o names) (read_file files name)
  replayed-snoc o [] name = refl
  replayed-snoc o (n ∷ names) name = replayed-snoc (run_up o (read_file files n)) names name

  -- The tables are what the recorded migrations make of the first ones, none of them twice.
  abbrev pub Faithful : S → Database S → Type 0
  Faithful first d = (replayed (some first) d.applied ≡ some d.tables) × Distinct d.applied

  recorded-Faithful :
      (first : S) (d d' : Database S) (records commits : Bool)
      → Faithful first d
      → Faithful first d'
      → Faithful first (recorded d d' records commits).0
  recorded-Faithful first d d' false commits old new = old
  recorded-Faithful first d d' true false old new = old
  recorded-Faithful first d d' true true old new = new

  committed-Faithful :
      (first : S) (d : Database S) (name raw : Bytes) (w : Statements) (o : Option S)
      → Faithful first d
      → exists name d.applied ≡ false
      → read_file files name ≡ some raw
      → run (extract_goose_up raw) d.tables ≡ o
      → Faithful first (committed run d name w o).0
  committed-Faithful first d name raw w none faithful new there e = faithful
  committed-Faithful first d name raw w (some tables) faithful new there e =
      recorded-Faithful first d (record { tables = tables; applied = d.applied ++ name ∷ [] })
        w.records w.commits faithful
        (
          replayed-snoc (some first) d.applied name
              ∙ ap (λ o. run_up o (read_file files name)) faithful.0
              ∙ ap (run_up (some d.tables)) there
              ∙ e,
          Distinct-snoc name d.applied faithful.1 (not_known name d.applied new),
        )

  applied_up-Faithful :
      (first : S) (d : Database S) (name : Bytes) (w : Statements) (o : Option Bytes)
      → Faithful first d
      → exists name d.applied ≡ false
      → read_file files name ≡ o
      → Faithful first (applied_up run d name w o).0
  applied_up-Faithful first d name w none faithful new there = faithful
  applied_up-Faithful first d name w (some raw) faithful new there =
      elim (Bool-cases (bytes_eq (trim_space (extract_goose_up raw)) [])) [
        | inl no_block ↦ rw no_block faithful
        | inr block ↦ rw block (begun w.begins)
      ]
    where
      done : Database S × Option Error
      done = committed run d name w (run (extract_goose_up raw) d.tables)

      begun : (b : Bool) → Faithful first (if b then done else (d, some begin_failed)).0
      begun true =
          committed-Faithful first d name raw w (run (extract_goose_up raw) d.tables) faithful new
            there refl
      begun false = faithful

  apply_one-Faithful :
      (first : S) (d : Database S) (name : Bytes) (w : Statements)
      → Faithful first d
      → Faithful first (apply_one run files d name w).0
  unfolding apply_one
  apply_one-Faithful first d name w faithful = checked w.checks
    where
      known : (b : Bool) → exists name d.applied ≡ b → Database S × Option Error
      known b e = if b then (d, none) else applied_up run d name w (read_file files name)

      known-Faithful : (b : Bool) (e : exists name d.applied ≡ b) → Faithful first (known b e).0
      known-Faithful true e = faithful
      known-Faithful false e =
          applied_up-Faithful first d name w (read_file files name) faithful e refl

      checked :
          (b : Bool)
          → Faithful first
              (if◌then◌else◌ {A = Database S × Option Error} b
                (known (exists name d.applied) refl)
                (d, some check_failed)).0
      checked true = known-Faithful (exists name d.applied) refl
      checked false = faithful

  unless_failed-Faithful :
      (first : S) (r rest : Database S × Option Error)
      → Faithful first r.0
      → Faithful first rest.0
      → Faithful first (unless_failed run r rest).0
  unless_failed-Faithful first (d, none) rest h h' = h'
  unless_failed-Faithful first (d, some e) rest h h' = h

  apply_all-Faithful :
      (first : S) (w : Bytes → Statements) (d : Database S) (names : List Bytes)
      → Faithful first d
      → Faithful first (apply_all run files w d names).0
  unfolding apply_all
  apply_all-Faithful first w d [] faithful = faithful
  apply_all-Faithful first w d (name ∷ names) faithful =
      let one = apply_one run files d name (w name) in
      let h = apply_one-Faithful first d name (w name) faithful in
      unless_failed-Faithful first one (apply_all run files w one.0 names) h
        (apply_all-Faithful first w one.0 names h)

  -- Whichever statements fail in a Migrate: if the tables were what the Up blocks of the recorded
  -- migrations make of the first tables, none of them recorded twice, then they still are.
  pub migrate-Faithful :
      (first : S) (creates : Bool) (w : Bytes → Statements) (d : Database S)
      → Faithful first d
      → Faithful first (migrate run files creates w d).0
  unfolding migrate
  migrate-Faithful first true w d faithful =
      apply_all-Faithful first w d (sort_strings (sql_names files)) faithful
  migrate-Faithful first false w d faithful = faithful
