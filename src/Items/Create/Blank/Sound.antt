-- ===== src/Items/Create/Blank/Sound.antt =====
-- CreateBlankDocument keeps the invariant of the table `items`.
use denizen.Prelude.{◌≡◌, ◌⊎◌, inl, inr, Option, [], Text, arith, length}
use denizen.Prelude.Int.{ℤ, pos}
use denizen.Model.{file, Db}
use denizen.Result.{ok, Result-cases}
use denizen.Text.{trim_space}
use denizen.Storage.{join}
use denizen.Storage.Disk as Disk
use denizen.Repo.Items.{create}
use denizen.Repo.Users.{increment_storage_used}
use denizen.Items.Content.{checksum}
use denizen.Items.Access.{validate_folder}
use denizen.Items.Names.{validate_name, unique_name}
use denizen.Items.Names.Laws.{validate_name-IsSafe, unique_name-IsSafe}
use denizen.Items.Sound.{IsSound}
use denizen.Items.Create.{Place, new_file}
use denizen.Items.Create.Sound.{created-IsSound}
use denizen.Items.Create.Template.{Template, find_blank}
use denizen.Items.Create.Blank.{make_blank, create_blank_document}
use denizen.World.{Env, World}

record IsBlank (db : Db) (caller : Text) (parent_id : Option Text) (name : Text) (place : Place)
    : Type 0 where
  valid : validate_name name ≡ ok tt
  checked : validate_folder db caller parent_id ≡ ok place.owner_id
  unique : unique_name db place.owner_id parent_id file (trim_space name) [] ≡ ok place.name

find_blank-IsBlank :
    (env : Env) (db : Db) (free : ℤ) (caller : Text) (parent_id : Option Text) (e name : Text)
    (template : Template) (place : Place)
    → find_blank env db free caller parent_id e name ≡ ok (template, place)
    → IsBlank db caller parent_id name place
unfolding find_blank
find_blank-IsBlank env db free caller parent_id e name template place h = record {
  valid = ground arith;
  checked = ground arith;
  unique = ground arith;
}

make_blank_items :
    (env : Env) (parent_id : Option Text) (template : Template) (place : Place) (w : World)
    → ((make_blank env parent_id template place w).1.db.items ≡ w.db.items)
      ⊎ ((sum : Text) × (db' : Db) × (create
              (new_file place parent_id
                (pos (length template.content))
                template.mime_type
                sum
                w.now
                (env.id w.drawn))
              w.db
            ≡ ok db')
          × ((make_blank env parent_id template place w).1.db.items ≡ db'.items))
unfolding make_blank increment_storage_used checksum
make_blank_items env parent_id template place w =
    elim (Result-cases (Disk.write_file (join place.folder place.name) template.content w.disk).0) [
      | inr failed ↦ inl (ground arith)
      | inl written ↦
          elim (Result-cases (
            Disk.read_file (join place.folder place.name)
              (Disk.write_file (join place.folder place.name) template.content w.disk).1)) [
                | inr failed ↦ inl (ground arith)
                | inl read ↦
                    elim (Result-cases (
                      create
                        (new_file place parent_id (pos (length template.content)) template.mime_type
                          (env.sha256 read.0) w.now (env.id w.drawn))
                        w.db)) [
                          | inl made ↦
                              inr
                                (env.sha256 read.0, made.0, made.1, rw (written.1, read.1, made.1))
                          | inr failed ↦ inl (ground arith)
                        ]
              ]
    ]

-- CreateBlankDocument keeps the invariant of the table `items`, whether it succeeds or fails.
pub create_blank_document-IsSound :
    (env : Env) (caller : Text) (parent_id : Option Text) (e name : Text) (w : World)
    → IsSound w.db.items
    → IsSound (create_blank_document env caller parent_id e name w).1.db.items
unfolding create_blank_document
create_blank_document-IsSound env caller parent_id e name w sound =
    elim (Result-cases (find_blank env w.db (env.free_bytes w.disk) caller parent_id e name)) [
      | inr failed ↦ rw failed.1 sound
      | inl found ↦
          let ((template, place), h) = found in
          let checked =
            find_blank-IsBlank env w.db (env.free_bytes w.disk) caller parent_id e name template
              place h in
          rw h (elim (make_blank_items env parent_id template place w) [
            | inl same ↦ rw same sound
            | inr (sum, db', made, same) ↦ rw same (
                created-IsSound w.db db'
                  (new_file place parent_id (pos (length template.content)) template.mime_type sum
                    w.now (env.id w.drawn))
                  caller place.owner_id sound checked.checked
                  (unique_name-IsSafe w.db place.owner_id parent_id file (trim_space name) []
                    place.name checked.unique (validate_name-IsSafe name checked.valid))
                  made)
          ])
    ]
