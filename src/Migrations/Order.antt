-- ===== src/Migrations/Order.antt =====
-- The order of the migrations: a run is the run of the pending scripts, one after the other.
use mathlib.Core.Option.{some-injective}
use denizen.Prelude.{
  ◌≡◌, refl, arith, Bool, false, not, Option, none, some, List, [], ◌∷◌, All, select, Bool-cases,
  Option-cases, inl, inr,
}
use denizen.Prelude.Int.{ℤ}
use denizen.Model.{io_error}
use denizen.Result.{ok, err}
use denizen.Migrations.{
  Migration, Applied, Database, Script, same_version, is_recorded, applied, apply_one, apply_all,
}

-- The migrations that are not recorded.
abbrev pub pending : List Applied → List Migration → List Migration
pending rows ms = select (λ (m : Migration). not (is_recorded rows m.version)) ms

-- The specification: the scripts of all migrations, in order, up to the first that fails.
unfoldable pub run_all : {S : Type 0} → Script S → List Migration → S → Option S
run_all run [] schema = some schema
run_all run (m ∷ ms) schema = elim (run m.sql schema) [
  | none ↦ none
  | some next ↦ run_all run ms next
]

abbrev pub DistinctVersions : List Migration → Type 0
DistinctVersions [] = Unit
DistinctVersions (m ∷ ms) =
    All (λ (k : Migration). same_version m.version k.version ≡ false) ms × DistinctVersions ms

-- A record of another version changes nothing of what is pending.
pending-cons :
    (r : Applied) (rows : List Applied) (ms : List Migration)
    → All (λ (k : Migration). same_version r.version k.version ≡ false) ms
    → pending (r ∷ rows) ms ≡ pending rows ms
pending-cons r rows [] h = refl
pending-cons r rows (m ∷ ms) h = ground (arith, pending-cons r rows ms h.1)

module _ {S : Type 0} (run : Script S) (has_users : S → Bool) (now : ℤ) where
  -- The loop of migrate refines the run of the pending scripts: where that ends with a schema, the loop
  -- succeeds with the same schema, and where a script fails, the loop fails, if no two migrations have
  -- one version.
  pub apply_all-refines :
      (ms : List Migration) (db : Database S)
      → DistinctVersions ms
      → ((schema : S)
          → run_all run (pending db.recorded ms) db.schema ≡ some schema
          → ((apply_all run has_users now ms db).0 ≡ ok tt)
            × ((apply_all run has_users now ms db).1.schema ≡ schema))
        × (run_all run (pending db.recorded ms) db.schema ≡ none
            → (apply_all run has_users now ms db).0 ≡ err io_error)
  unfolding apply_all apply_one run_all
  apply_all-refines [] db distinct =
      (λ schema e. (refl, some-injective db.schema schema e), λ e. cc)
  apply_all-refines (m ∷ ms) db distinct = elim (Bool-cases (is_recorded db.recorded m.version)) [
    | inl old ↦ rw old (apply_all-refines ms db distinct.1)
    | inr new ↦ elim (Option-cases (run m.sql db.schema)) [
      | inl failed ↦ rw (new, run_all, failed) (λ schema e. cc, λ e. refl)
      | inr done ↦
          let next : Database S = record {
            recorded = applied now m ∷ db.recorded;
            schema = done.0;
          } in
          let same = pending-cons (applied now m) db.recorded ms distinct.0 in
          rw (new, run_all, done.1) (rw (← same) (apply_all-refines ms next distinct.1))
    ]
  ]
