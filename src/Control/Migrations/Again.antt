-- ===== src/Control/Migrations/Again.antt =====
-- A Migrate after one that has ended without an error.
use microvm_terminal.Base.{
  ◌≡◌, refl, Bool, true, false, Option, none, some, List, [], ◌∷◌, ◌++◌, Bytes, bytes_eq,
  if◌then◌else◌, arith, inl, inr, Bool-cases,
}
use microvm_terminal.Base.Lists.{All}
use microvm_terminal.Base.Text.{bytes_eq_iff}
use microvm_terminal.Base.Trim.{trim_space}
use microvm_terminal.Control.Migrations.{
  Files, Statements, Database, Error, extract_goose_up, no_up_block, begin_failed, check_failed,
  recorded, exists, read_file, committed, applied_up, apply_one, unless_failed, apply_all, migrate,
  sort_strings, sql_names,
}

exists-append :
    (n : Bytes) (ids more : List Bytes) → exists n ids ≡ true → exists n (ids ++ more) ≡ true
unfolding exists
exists-append n [] more h = absurd (ground (arith, h))
exists-append n (id ∷ ids) more h = ground (arith, h, exists-append n ids more)

exists-snoc : (name : Bytes) (ids : List Bytes) → exists name (ids ++ name ∷ []) ≡ true
unfolding exists
exists-snoc name [] = ground (arith, bytes_eq_iff name name)
exists-snoc name (id ∷ ids) = ground (arith, exists-snoc name ids)

module _ {S : Type 0} (run : Bytes → S → Option S) (files : Files) where
  -- What is recorded stays so, and without an error the name is.
  abbrev One : Database S → Bytes → Database S × Option Error → Type 0
  One d name r =
      ((n : Bytes) → exists n d.applied ≡ true → exists n r.0.applied ≡ true)
      × (r.1 ≡ none → exists name r.0.applied ≡ true)

  failed-One : (d : Database S) (name : Bytes) (e : Error) → One d name (d, some e)
  failed-One d name e = ((λ n h. h), (λ h. absurd (ground (arith, h))))

  recorded-One :
      (d : Database S) (name : Bytes) (tables : S) (records commits : Bool)
      → One d name (
          recorded d (record { tables = tables; applied = d.applied ++ name ∷ [] }) records commits)
  recorded-One d name tables false commits = failed-One d name _
  recorded-One d name tables true false = failed-One d name _
  recorded-One d name tables true true =
      ((λ n h. exists-append n d.applied (name ∷ []) h), (λ h. exists-snoc name d.applied))

  committed-One :
      (d : Database S) (name : Bytes) (w : Statements) (o : Option S)
      → One d name (committed run d name w o)
  committed-One d name w none = failed-One d name _
  committed-One d name w (some tables) = recorded-One d name tables w.records w.commits

  applied_up-One :
      (d : Database S) (name : Bytes) (w : Statements) (o : Option Bytes)
      → One d name (applied_up run d name w o)
  applied_up-One d name w none = failed-One d name _
  applied_up-One d name w (some raw) = blocked (bytes_eq (trim_space (extract_goose_up raw)) [])
    where
      done : Database S × Option Error
      done = committed run d name w (run (extract_goose_up raw) d.tables)

      begun : (b : Bool) → One d name (if b then done else (d, some begin_failed))
      begun true = committed-One d name w (run (extract_goose_up raw) d.tables)
      begun false = failed-One d name begin_failed

      blocked :
          (b : Bool)
          → One d name (
              if b
              then (d, some no_up_block)
              else if w.begins
              then done
              else (d, some begin_failed))
      blocked true = failed-One d name no_up_block
      blocked false = begun w.begins

  apply_one-One :
      (d : Database S) (name : Bytes) (w : Statements) → One d name (apply_one run files d name w)
  unfolding apply_one
  apply_one-One d name w = elim (Bool-cases w.checks) [
    | inr fails ↦ simp fails (failed-One d name check_failed)
    | inl checks ↦ simp checks (elim (Bool-cases (exists name d.applied)) [
      | inl known ↦ rw known ((λ n h. h), (λ h. known))
      | inr new ↦ rw new (applied_up-One d name w (read_file files name))
    ])
  ]

  -- The same for a list of names.
  abbrev Many : Database S → List Bytes → Database S × Option Error → Type 0
  Many d names r =
      ((n : Bytes) → exists n d.applied ≡ true → exists n r.0.applied ≡ true)
      × (r.1 ≡ none → All (λ n. exists n r.0.applied ≡ true) names)

  unless_failed-Many :
      (d : Database S) (name : Bytes) (names : List Bytes) (one rest : Database S × Option Error)
      → One d name one
      → Many one.0 names rest
      → Many d (name ∷ names) (unless_failed run one rest)
  unless_failed-Many d name names (d', none) rest (keeps, known) (keeps', all) =
      ((λ n h. keeps' n (keeps n h)), (λ h. (keeps' name (known refl), all h)))
  unless_failed-Many d name names (d', some e) rest (keeps, known) (keeps', all) =
      (keeps, (λ h. absurd (ground (arith, h))))

  apply_all-Many :
      (w : Bytes → Statements) (d : Database S) (names : List Bytes)
      → Many d names (apply_all run files w d names)
  unfolding apply_all
  apply_all-Many w d [] = ((λ n h. h), (λ h. tt))
  apply_all-Many w d (name ∷ names) =
      let one = apply_one run files d name (w name) in
      unless_failed-Many d name names one (apply_all run files w one.0 names)
        (apply_one-One d name (w name)) (apply_all-Many w one.0 names)

  apply_all_known :
      (w : Bytes → Statements) (d : Database S) (names : List Bytes)
      → ((name : Bytes) → (w name).checks ≡ true)
      → All (λ n. exists n d.applied ≡ true) names
      → apply_all run files w d names ≡ (d, none)
  unfolding apply_all apply_one
  apply_all_known w d [] checks all = refl
  apply_all_known w d (name ∷ names) checks (known, all) =
      rw (checks name, known) (apply_all_known w d names checks all)

  -- After a Migrate that ended without an error, another one that finds its table of ids and whose
  -- queries succeed changes nothing and ends without an error, whatever other statements would fail.
  migrate-migrate :
      (creates : Bool) (w again : Bytes → Statements) (d : Database S)
      → (migrate run files creates w d).1 ≡ none
      → ((name : Bytes) → (again name).checks ≡ true)
      → migrate run files true again (migrate run files creates w d).0
        ≡ ((migrate run files creates w d).0, none)
  unfolding migrate
  migrate-migrate false w again d ended checks = absurd (ground (arith, ended))
  migrate-migrate true w again d ended checks =
      let names = sort_strings (sql_names files) in
      apply_all_known again (apply_all run files w d names).0 names checks
        ((apply_all-Many w d names).1 ended)
