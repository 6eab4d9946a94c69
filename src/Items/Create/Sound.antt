-- ===== src/Items/Create/Sound.antt =====
-- The operations that add an item keep the invariant of the table `items`.
use denizen.Prelude.{◌≡◌, ◌⊎◌, inl, inr, Option, some, arith, Text, text_eq, Option-cases, []}
use denizen.Prelude.Int.{ℤ}
use denizen.Model.{Item, ItemType, file, folder, Db}
use denizen.Result.{ok, >>=-eq-ok, Result-cases}
use denizen.Text.{trim_space}
use denizen.Storage.{FilePath, join}
use denizen.Storage.Laws.{IsSafe}
use denizen.Storage.Disk as Disk
use denizen.Repo.Items.{row, get_by_id, create}
use denizen.Repo.Users.{increment_storage_used}
use denizen.Items.Content.{checksum, index_content-items, trigger_ocr_sweep}
use denizen.Items.Access.{get_readable, validate_folder, check_quota}
use denizen.Items.Access.Exact.{validate_folder_sound}
use denizen.Items.Names.{validate_name, unique_name}
use denizen.Items.Names.Laws.{validate_name-IsSafe, unique_name-IsSafe}
use denizen.Items.Sound.{IsSound}
use denizen.Items.Sound.Created.{IsSound-cons, create_fresh}
use denizen.Items.Create.{
  Place, find_place, new_folder, new_file, find_target, find_shortcut, new_shortcut,
}
use denizen.Items.Create.Commit.{
  make_folder, create_folder, make_file, finalize_upload, create_shortcut,
}
use denizen.World.{Env, World}

-- A row that is inserted keeps the invariant, if its folder is checked and its name is one segment.
pub created-IsSound :
    (db db' : Db) (item : Item) (caller o : Text)
    → IsSound db.items
    → validate_folder db caller item.parent_id ≡ ok o
    → IsSafe item.name
    → create item db ≡ ok db'
    → IsSound db'.items
created-IsSound db db' item caller o sound valid name made =
    let (fresh, same) = create_fresh item db db' made in
    rw same (
      IsSound-cons item db.items fresh sound
        (λ p e.
          let (q, f, isfolder, _, _) =
            validate_folder_sound db caller p o sound.forest (rw (← e) valid) in
          (q, f, isfolder))
        name)

record IsPlace (db : Db) (caller : Text) (parent_id : Option Text) (type : ItemType) (name : Text)
    (place : Place) : Type 0 where
  valid : validate_name name ≡ ok tt
  checked : validate_folder db caller parent_id ≡ ok place.owner_id
  unique : unique_name db place.owner_id parent_id type (trim_space name) [] ≡ ok place.name

find_place-IsPlace :
    (env : Env) (db : Db) (caller : Text) (parent_id : Option Text) (type : ItemType) (name : Text)
    (place : Place)
    → find_place env db caller parent_id type name ≡ ok place
    → IsPlace db caller parent_id type name place
unfolding find_place
find_place-IsPlace env db caller parent_id type name place h = record {
  valid = ground arith;
  checked = ground arith;
  unique = ground arith;
}

IsPlace-IsSafe :
    {db : Db} {caller : Text} {parent_id : Option Text} {type : ItemType} {name : Text}
    {place : Place}
    → IsPlace db caller parent_id type name place
    → IsSafe place.name
IsPlace-IsSafe {db} {caller} {parent_id} {type} {name} {place} h =
    unique_name-IsSafe db place.owner_id parent_id type (trim_space name) [] place.name h.unique
      (validate_name-IsSafe name h.valid)

-- What a creation leaves of the table: the old rows, or a row more that `create` has let in.
pub make_folder_items :
    (env : Env) (parent_id : Option Text) (place : Place) (w : World)
    → ((make_folder env parent_id place w).1.db.items ≡ w.db.items)
      ⊎ ((db' : Db) × (create (new_folder place parent_id w.now (env.id w.drawn)) w.db ≡ ok db')
          × ((make_folder env parent_id place w).1.db.items ≡ db'.items))
unfolding make_folder
make_folder_items env parent_id place w =
    elim (Result-cases (Disk.create_folder (join place.folder place.name) w.disk).0) [
      | inr failed ↦ inl (ground arith)
      | inl done ↦
          elim (Result-cases (create (new_folder place parent_id w.now (env.id w.drawn)) w.db)) [
            | inl made ↦ inr (made.0, made.1, rw (done.1, made.1))
            | inr failed ↦ inl (ground arith)
          ]
    ]

make_file_items :
    (env : Env) (parent_id : Option Text) (source_path : FilePath) (size : ℤ) (mime_type : Text)
    (place : Place) (w : World)
    → ((make_file env parent_id source_path size mime_type place w).1.db.items ≡ w.db.items)
      ⊎ ((sum : Text) × (db' : Db) × (create
              (new_file place parent_id size mime_type sum w.now (env.id w.drawn))
              w.db
            ≡ ok db')
          × ((make_file env parent_id source_path size mime_type place w).1.db.items ≡ db'.items))
unfolding make_file increment_storage_used trigger_ocr_sweep checksum
make_file_items env parent_id source_path size mime_type place w =
    elim (Result-cases (Disk.rename source_path (join place.folder place.name) w.disk).0) [
      | inr failed ↦ inl (ground arith)
      | inl moved ↦
          elim (Result-cases (
            Disk.read_file (join place.folder place.name)
              (Disk.rename source_path (join place.folder place.name) w.disk).1)) [
                | inr failed ↦ inl (ground arith)
                | inl read ↦
                    elim (Result-cases (
                      create
                        (new_file place parent_id size mime_type (env.sha256 read.0) w.now
                          (env.id w.drawn))
                        w.db)) [
                          | inl made ↦ inr (
                            env.sha256 read.0,
                            made.0,
                            made.1,
                            rw (moved.1, read.1, made.1, index_content-items),
                          )
                          | inr failed ↦ inl (ground arith)
                        ]
              ]
    ]

-- CreateFolder keeps the invariant of the table `items`, whether it succeeds or fails.
pub create_folder-IsSound :
    (env : Env) (caller : Text) (parent_id : Option Text) (name : Text) (w : World)
    → IsSound w.db.items
    → IsSound (create_folder env caller parent_id name w).1.db.items
unfolding create_folder
create_folder-IsSound env caller parent_id name w sound =
    elim (Result-cases (find_place env w.db caller parent_id folder name)) [
      | inr failed ↦ rw failed.1 sound
      | inl found ↦
          let place = found.0 in
          let checked = find_place-IsPlace env w.db caller parent_id folder name place found.1 in
          rw found.1 (elim (make_folder_items env parent_id place w) [
            | inl same ↦ rw same sound
            | inr (db', made, same) ↦ rw same (
                created-IsSound w.db db' (new_folder place parent_id w.now (env.id w.drawn)) caller
                  place.owner_id sound checked.checked (IsPlace-IsSafe checked) made)
          ])
    ]

-- FinalizeUpload keeps the invariant of the table `items`, whether it succeeds or fails.
pub finalize_upload-IsSound :
    (env : Env) (caller : Text) (parent_id : Option Text) (name : Text) (source_path : FilePath)
    (size : ℤ) (mime_type : Text) (w : World)
    → IsSound w.db.items
    → IsSound (finalize_upload env caller parent_id name source_path size mime_type w).1.db.items
unfolding finalize_upload
finalize_upload-IsSound env caller parent_id name source_path size mime_type w sound =
    elim (Result-cases (find_place env w.db caller parent_id file name)) [
      | inr failed ↦ rw failed.1 sound
      | inl found ↦
          let place = found.0 in
          let checked = find_place-IsPlace env w.db caller parent_id file name place found.1 in
          elim (Result-cases (check_quota w.db (env.free_bytes w.disk) place.owner_id size)) [
            | inr over ↦ rw (found.1, over.1) sound
            | inl fits ↦
                rw (found.1, fits.1)
                  (elim (make_file_items env parent_id source_path size mime_type place w) [
                    | inl same ↦ rw same sound
                    | inr (sum, db', made, same) ↦ rw same (
                        created-IsSound w.db db'
                          (new_file place parent_id size mime_type sum w.now (env.id w.drawn))
                          caller place.owner_id sound checked.checked (IsPlace-IsSafe checked) made)
                  ])
          ]
    ]

-- A row that a reader gets is a row of the table.
readable_row :
    (db : Db) (caller id : Text) (i : Item)
    → get_readable db caller id ≡ ok i
    → row db.items id ≡ some i
unfolding get_readable get_by_id
readable_row db caller id i h = ground arith

find_target_name :
    (db : Db) (caller target_id : Text) (i : Item)
    → IsSound db.items
    → find_target db caller target_id ≡ ok i
    → IsSafe i.name
unfolding find_target
find_target_name db caller target_id i sound h =
    let (t, read, rest) = >>=-eq-ok (get_readable db caller target_id) _ h in
    elim (Option-cases t.target_id) [
      | inl plain ↦ sound.names target_id i (readable_row db caller target_id i (ground arith))
      | inr link ↦ sound.names link.0 i (readable_row db caller link.0 i (ground arith))
    ]

record IsShortcut (db : Db) (caller target_id : Text) (parent_id : Option Text) (target : Item)
    (owner_id name : Text) : Type 0 where
  read : find_target db caller target_id ≡ ok target
  checked : validate_folder db caller parent_id ≡ ok owner_id
  unique : unique_name db owner_id parent_id target.type target.name [] ≡ ok name

find_shortcut-IsShortcut :
    (db : Db) (caller target_id : Text) (parent_id : Option Text) (target : Item)
    (owner_id name : Text)
    → find_shortcut db caller target_id parent_id ≡ ok (target, owner_id, name)
    → IsShortcut db caller target_id parent_id target owner_id name
unfolding find_shortcut
find_shortcut-IsShortcut db caller target_id parent_id target owner_id name h = record {
  read = ground arith;
  checked = ground arith;
  unique = ground arith;
}

-- CreateShortcut keeps the invariant of the table `items`, whether it succeeds or fails.
pub create_shortcut-IsSound :
    (env : Env) (caller target_id : Text) (parent_id : Option Text) (w : World)
    → IsSound w.db.items
    → IsSound (create_shortcut env caller target_id parent_id w).1.db.items
unfolding create_shortcut
create_shortcut-IsSound env caller target_id parent_id w sound =
    elim (Result-cases (find_shortcut w.db caller target_id parent_id)) [
      | inr failed ↦ rw failed.1 sound
      | inl found ↦
          let ((target, owner_id, name), e) = found in
          let item = new_shortcut target owner_id name parent_id w.now (env.id w.drawn) in
          let checked =
            find_shortcut-IsShortcut w.db caller target_id parent_id target owner_id name e in
          elim (Result-cases (create item w.db)) [
            | inr refused ↦ rw (e, refused.1) sound
            | inl made ↦
                rw (e, made.1)
                  (created-IsSound w.db made.0 item caller owner_id sound checked.checked
                    (unique_name-IsSafe w.db owner_id parent_id target.type target.name [] name
                      checked.unique
                      (find_target_name w.db caller target_id target sound checked.read))
                    made.1)
          ]
    ]
