-- ===== src/Migrations/Laws.antt =====
-- What a run of the migrations does: each runs once, in order, and a second run does nothing.
use denizen.Prelude.{
  ◌≡◌, ◌≢◌, refl, ap, arith, Bool, true, List, [], ◌∷◌, All, Bool-cases, Option-cases, inl, inr,
}
use denizen.Prelude.Int.{ℤ, pos, negsuc}
use denizen.Result.{Result, ok}
use denizen.Exec.{on_ok-eq-ok}
use denizen.Migrations.{
  Migration, Entry, load_migrations, Applied, Database, Script, same_version, is_recorded, is_empty,
  applied, record_applied, baseline, apply_one, apply_all, migrate,
}

same_version_refl : (v : ℤ) → same_version v v ≡ true
same_version_refl (pos n) = ground arith
same_version_refl (negsuc n) = ground arith

none_recorded : (rows : List Applied) (v : ℤ) → is_empty rows ≡ true → is_recorded rows v ≢ true
none_recorded [] v e h = cc
none_recorded (r ∷ rows) v e h = cc

module _ {S : Type 0} (run : Script S) (has_users : S → Bool) (now : ℤ) where
  -- What one migration does if it succeeds: its version is recorded, and none is lost.
  apply_one-recorded :
      (m : Migration) (db db' : Database S)
      → apply_one run has_users now m db ≡ (ok tt, db')
      → (is_recorded db'.recorded m.version ≡ true)
        × ((v : ℤ) → is_recorded db.recorded v ≡ true → is_recorded db'.recorded v ≡ true)
  unfolding apply_one
  apply_one-recorded m db db' h = elim (Bool-cases (is_recorded db.recorded m.version)) [
    | inl old ↦
        let same : db ≡ db' = ap (λ (r : Result (Unit {0}) × Database S). r.1) (rw old at h) in
        (rw (← same) old, λ v e. rw (← same) e)
    | inr new ↦ elim (Option-cases (run m.sql db.schema)) [
      | inl failed ↦ cc (rw (new, failed) at h)
      | inr done ↦
          let rows : applied now m ∷ db.recorded ≡ db'.recorded =
            ap (λ (r : Result (Unit {0}) × Database S). r.1.recorded) (rw (new, done.1) at h) in
          (
            rw (← rows) (rw (same_version_refl m.version) refl),
            λ v e. rw (← rows) (ground (arith, e)),
          )
    ]
  ]

  step_then :
      (m : Migration) (ms : List Migration) (db db' : Database S)
      → apply_all run has_users now (m ∷ ms) db ≡ (ok tt, db')
      → (mid : Database S) × (apply_one run has_users now m db ≡ (ok tt, mid))
        × (apply_all run has_users now ms mid ≡ (ok tt, db'))
  unfolding apply_all
  step_then m ms db db' h =
      let (_, mid, one, rest) =
        on_ok-eq-ok (apply_one run has_users now m db) (λ _. apply_all run has_users now ms) tt db'
          h in
      (mid, one, rest)

  apply_all-recorded :
      (ms : List Migration) (db db' : Database S)
      → apply_all run has_users now ms db ≡ (ok tt, db')
      → All (λ (m : Migration). is_recorded db'.recorded m.version ≡ true) ms
        × ((v : ℤ) → is_recorded db.recorded v ≡ true → is_recorded db'.recorded v ≡ true)
  unfolding apply_all
  apply_all-recorded [] db db' h =
      let same : db ≡ db' = ap (λ (r : Result (Unit {0}) × Database S). r.1) h in
      (tt, λ v e. rw (← same) e)
  apply_all-recorded (m ∷ ms) db db' h =
      let (mid, one, rest) = step_then m ms db db' h in
      let (here, kept) = apply_one-recorded m db mid one in
      let (all, kept') = apply_all-recorded ms mid db' rest in
      ((kept' m.version here, all), λ v e. kept' v (kept v e))

  -- Where all is recorded, nothing runs.
  apply_all_again :
      (ms : List Migration) (db : Database S)
      → All (λ (m : Migration). is_recorded db.recorded m.version ≡ true) ms
      → apply_all run has_users now ms db ≡ (ok tt, db)
  unfolding apply_all apply_one
  apply_all_again [] db all = refl
  apply_all_again (m ∷ ms) db all = rw all.0 (apply_all_again ms db all.1)

  baseline_again :
      (ms : List Migration) (db : Database S)
      → All (λ (m : Migration). is_recorded db.recorded m.version ≡ true) ms
      → baseline run has_users now ms db ≡ db
  unfolding baseline
  baseline_again [] db all = refl
  baseline_again (m ∷ ms) db all = elim (Bool-cases (is_empty db.recorded)) [
    | inr some_rows ↦ rw some_rows
    | inl none_yet ↦ absurd (none_recorded db.recorded m.version none_yet all.0)
  ]

baseline-recorded :
    {S : Type 0} (run : Script S) (has_users : S → Bool) (now : ℤ) (ms : List Migration)
    (db : Database S) (v : ℤ)
    → is_recorded db.recorded v ≡ true
    → is_recorded (baseline run has_users now ms db).recorded v ≡ true
unfolding baseline record_applied
baseline-recorded run has_users now [] db v e = e
baseline-recorded run has_users now (m ∷ ms) db v e = ground (arith, e)

-- After a run that succeeds each migration is recorded, with all that was recorded before, and a second
-- run succeeds and changes nothing: no script runs twice.
pub migrate_again :
    {S : Type 0} (run : Script S) (has_users : S → Bool) (now later : ℤ) (entries : List Entry)
    (ms : List Migration) (db db' : Database S)
    → load_migrations entries ≡ ok ms
    → migrate run has_users now entries db ≡ (ok tt, db')
    → All (λ (m : Migration). is_recorded db'.recorded m.version ≡ true) ms
      × ((v : ℤ) → is_recorded db.recorded v ≡ true → is_recorded db'.recorded v ≡ true)
      × (migrate run has_users later entries db' ≡ (ok tt, db'))
unfolding migrate
migrate_again run has_users now later entries ms db db' loaded h =
    let (all, kept) =
      apply_all-recorded run has_users now ms (baseline run has_users now ms db) db'
        (rw (migrate, loaded) at h) in
    (
      all,
      λ v e. kept v (baseline-recorded run has_users now ms db v e),
      rw (migrate, loaded, baseline_again run has_users later ms db' all)
          (apply_all_again run has_users later ms db' all),
    )
