-- ===== src/Migrations.antt =====
-- The migrations of internal/db/db.go: which files of internal/db/migrations run, and in which order.
-- SQLite runs their statements, and knows whether there is a table `users`.
pub mod Laws
pub mod Order
use denizen.Prelude.{
  ℕ, zero, suc, ◌+◌, ◌-◌, ◌*◌, ◌<◌, Bool, true, false, ◌&&◌, not, Option, none, some, List, [], ◌∷◌,
  Text, text, ◌==◌, text_eq, any, find, leb, ltb, eqb, if◌then◌else◌,
}
use denizen.Prelude.Int.{ℤ, pos, negsuc, lt_int}
use denizen.Model.{Error, io_error}
use denizen.Result.{Result, ok, err}
use denizen.Exec.{Exec, pure, ◌>>=◌, ◌>>◌}
use denizen.Text.{has_suffix, before_byte}
use denizen.Repo.Items.{order_by}

pub record Migration : Type 0 where
  pub version : ℤ
  pub name : Text
  pub sql : Text

-- An entry of the embedded directory.
pub record Entry : Type 0 where
  pub name : Text
  pub is_dir : Bool
  pub content : Text

abbrev is_digit : ℕ → Bool
is_digit c = leb b'0' c && leb c b'9'

-- The value of digits behind a value.
unfoldable pub digits : ℕ → Text → Option ℕ
digits n [] = some n
digits n (c ∷ s) = let rest = digits (n * 10 + (c - b'0')) s in if is_digit c then rest else none

abbrev in_range : Option ℕ → Option ℤ
in_range none = none
in_range (some n) = if ltb n 9223372036854775808 then some (pos n) else none

abbrev negated : Option ℕ → Option ℤ
negated none = none
negated (some zero) = some (pos 0)
negated (some (suc n)) = if leb (suc n) 9223372036854775808 then some (negsuc n) else none

abbrev positive_digits : Text → Option ℕ
positive_digits [] = none
positive_digits (c ∷ s) = digits 0 (c ∷ s)

-- strconv.Atoi
unfoldable pub atoi : Text → Option ℤ
unfolding digits
atoi [] = none
atoi (c ∷ s) =
    if eqb c b'-'
    then negated (positive_digits s)
    else if eqb c b'+'
    then in_range (positive_digits s)
    else in_range (positive_digits (c ∷ s))

-- migrationVersion
unfoldable pub migration_version : Text → Result ℤ
unfolding atoi before_byte
migration_version filename = elim (before_byte b'_' filename) [
  | none ↦ err io_error
  | some prefix ↦ elim (atoi prefix) [ none ↦ err io_error | some version ↦ ok version ]
]

abbrev with_version : Entry → Result ℤ → Result (List Migration) → Result (List Migration)
with_version entry (err e) rest = err e
with_version entry (ok version) (err e) = err e
with_version entry (ok version) (ok ms) =
    ok (record { version = version; name = entry.name; sql = entry.content } ∷ ms)

-- The loop of loadMigrations
unfoldable pub read_entries : List Entry → Result (List Migration)
unfolding migration_version has_suffix
read_entries [] = ok []
read_entries (entry ∷ entries) =
    let rest = read_entries entries in
    let here = with_version entry (migration_version entry.name) rest in
    if entry.is_dir then rest else if has_suffix entry.name (text ".sql") then here else rest

-- loadMigrations
unfoldable pub load_migrations : List Entry → Result (List Migration)
unfolding read_entries order_by
load_migrations entries = elim (read_entries entries) [
  | err e ↦ err e
  | ok ms ↦ ok (order_by (λ (a : Migration) (b : Migration). lt_int a.version b.version) ms)
]

-- A row of schema_migrations.
pub record Applied : Type 0 where
  pub version : ℤ
  pub name : Text
  pub applied_at : ℤ

pub record Database (S : Type 0) : Type 0 where
  pub recorded : List Applied
  pub schema : S

-- A script of SQLite, in one transaction: none if it fails.
abbrev pub Script : Type 0 → Type 0
Script S = Text → S → Option S

abbrev pub same_version : ℤ → ℤ → Bool
same_version (pos a) (pos b) = eqb a b
same_version (negsuc a) (negsuc b) = eqb a b
same_version _ _ = false

abbrev pub is_recorded : List Applied → ℤ → Bool
is_recorded rows version = any (λ (r : Applied). same_version r.version version) rows

abbrev pub is_empty : List Applied → Bool
is_empty [] = true
is_empty (r ∷ rows) = false

abbrev pub applied : ℤ → Migration → Applied
applied now m = record { version = m.version; name = m.name; applied_at = now }

module _ {S : Type 0} (run : Script S) (has_users : S → Bool) (now : ℤ) where
  -- recordApplied
  unfoldable pub record_applied : Migration → Database S → Database S
  record_applied m db = record db { recorded = applied now m ∷ db.recorded }

  -- The first migration of a database from before there were migrations
  unfoldable pub baseline : List Migration → Database S → Database S
  unfolding record_applied
  baseline [] db = db
  baseline (m ∷ ms) db =
      if is_empty db.recorded && has_users db.schema then record_applied m db else db

  -- The body of the loop of migrate: the script and its record are one transaction.
  unfoldable pub apply_one : Migration → Exec (Database S) (Unit {0})
  apply_one m db =
      if is_recorded db.recorded m.version then (ok tt, db) else elim (run m.sql db.schema) [
        | none ↦ (err io_error, db)
        | some schema ↦ (ok tt, record { recorded = applied now m ∷ db.recorded; schema = schema })
      ]

  unfoldable pub apply_all : List Migration → Exec (Database S) (Unit {0})
  unfolding apply_one
  apply_all [] = pure tt
  apply_all (m ∷ ms) = do apply_one m; apply_all ms

  -- migrate
  unfoldable pub migrate : List Entry → Exec (Database S) (Unit {0})
  unfolding load_migrations baseline apply_all
  migrate entries db = elim (load_migrations entries) [
    | err e ↦ (err e, db)
    | ok ms ↦ apply_all ms (baseline ms db)
  ]
