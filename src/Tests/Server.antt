-- ===== src/Tests/Server.antt =====
-- The theorems on migrations and uploads, on the small drive.
use denizen.Prelude.{
  ◌≡◌, ◌≢◌, ◌⊎◌, refl, true, false, none, some, List, [], ◌∷◌, All, Text, text, text_eq, select,
  length,
}
use denizen.Prelude.Int.{ℤ, pos, ◌-ℤ◌, ◌+ℤ◌, wrap64}
use denizen.Text.{trim_space}
use denizen.Items.Access.{validate_folder, check_quota}
use denizen.Repo.Items.{get_by_id}
use denizen.Repo.Users
use denizen.Model.{forbidden, io_error}
use denizen.Result.{ok, err}
use denizen.Items.Create.Commit.{finalize_upload}
use denizen.Migrations.{
  Migration, Entry, load_migrations, Database, Script, is_recorded, apply_all, migrate,
}
use denizen.Migrations.Laws.{migrate_again}
use denizen.Migrations.Order.{pending, run_all, apply_all-refines}
use denizen.Token.{Claims}
use denizen.Uploads.{
  MetaData, meta_value, set_meta, Upload, parent_id_from_metadata, pre_create, pre_terminate,
  stored_mime_type,
}
use denizen.Uploads.Hooks.{pre_finish, upload-owner}
use denizen.Uploads.Garbage.{Staged, is_abandoned, stays, collect_garbage, collect_garbage-eq}
use denizen.Tests.{env, db, world, root}

abbrev first : Entry
first = record { name = text "0001_users.sql"; is_dir = false; content = text "users" }

abbrev second : Entry
second = record { name = text "0002_shares.sql"; is_dir = false; content = text "shares" }

abbrev migrations : List Migration
migrations =
    record { version = pos 1; name = text "0001_users.sql"; sql = text "users" }
    ∷ record { version = pos 2; name = text "0002_shares.sql"; sql = text "shares" }
    ∷ []

-- A script adds its name to the schema.
abbrev add_name : Script (List Text)
add_name sql schema = some (sql ∷ schema)

abbrev fresh : Database (List Text)
fresh = record { recorded = []; schema = [] }

abbrev migrated : Database (List Text)
migrated = record {
  recorded =
      record { version = pos 2; name = text "0002_shares.sql"; applied_at = pos 5 }
      ∷ record { version = pos 1; name = text "0001_users.sql"; applied_at = pos 5 }
      ∷ [];
  schema = text "shares" ∷ text "users" ∷ [];
}

migrate_again_example :
    All (λ (m : Migration). is_recorded migrated.recorded m.version ≡ true) migrations
    × ((v : ℤ) → is_recorded [] v ≡ true → is_recorded migrated.recorded v ≡ true)
    × (migrate add_name (λ schema. false) (pos 9) (second ∷ first ∷ []) migrated
        ≡ (ok tt, migrated))
unfolding load_migrations migrate
migrate_again_example =
    migrate_again add_name (λ schema. false) (pos 5) (pos 9) (second ∷ first ∷ []) migrations fresh
      migrated refl refl

apply_all-refines_example :
    ((schema : List Text)
      → run_all add_name (pending [] migrations) [] ≡ some schema
      → ((apply_all add_name (λ schema. false) (pos 5) migrations fresh).0 ≡ ok tt)
        × ((apply_all add_name (λ schema. false) (pos 5) migrations fresh).1.schema ≡ schema))
    × (run_all add_name (pending [] migrations) [] ≡ none
        → (apply_all add_name (λ schema. false) (pos 5) migrations fresh).0 ≡ err io_error)
apply_all-refines_example =
    apply_all-refines add_name (λ schema. false) (pos 5) migrations fresh ((refl, tt), (tt, tt))

abbrev by_name : Text → Text
by_name name = text "text/plain"

abbrev declared : MetaData
declared = (text "filename", text "b.txt") ∷ (text "parent_id", text "d") ∷ []

abbrev started : Upload
started = record { meta_data = declared; size = pos 5; size_is_deferred = false; path = none }

abbrev stamped : MetaData
stamped = (text "owner_id", text "ann") ∷ declared

abbrev finished : Upload
finished = record started { meta_data = stamped; path = some root }

abbrev ann : Claims
ann = record { user_id = text "ann"; is_admin = true }

abbrev bob : Claims
bob = record { user_id = text "bob"; is_admin = false }

upload-owner_example :
    ((bob.user_id ≡ ann.user_id)
      × (pre_finish env by_name (some bob) finished world
          ≡ finalize_upload env ann.user_id
              (parent_id_from_metadata declared)
              (meta_value declared (text "filename"))
              root
              (pos 5)
              (stored_mime_type by_name declared)
              world)
      × (pre_terminate (some bob) finished ≡ ok tt))
    ⊎ ((bob.user_id ≢ ann.user_id)
        × (pre_finish env by_name (some bob) finished world ≡ (err forbidden, world))
        × (pre_terminate (some bob) finished ≡ err forbidden))
unfolding pre_create set_meta text_eq trim_space validate_folder get_by_id check_quota
    Users.get_by_id wrap64 ◌+ℤ◌
upload-owner_example =
    upload-owner env by_name db (pos 1000) ann bob started finished stamped root world refl refl
      refl

abbrev staging : List Staged
staging =
    record { name = text "x.info"; is_dir = false; has_entries = false; mod_time = pos 1 }
    ∷ record { name = text "x"; is_dir = false; has_entries = false; mod_time = pos 1 }
    ∷ record { name = text "y.info"; is_dir = false; has_entries = false; mod_time = pos 95 }
    ∷ []

collect_garbage-eq_example :
    let abandoned = select (is_abandoned (pos 100 -ℤ pos 50)) staging in
    collect_garbage (pos 100) (pos 50) staging
    ≡ (select (stays abandoned) staging, length abandoned)
collect_garbage-eq_example = collect_garbage-eq (pos 100) (pos 50) staging
