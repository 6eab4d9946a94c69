-- ===== src/Items/Trash.antt =====
-- The trash: Delete, Restore, PermanentlyDelete and PurgeExpiredTrash of internal/service/item.go,
-- up to their first writes.
pub mod Commit
pub mod Purge
pub mod Referenced
pub mod Sound
use denizen.Prelude.{
  Bool, true, false, ◌&&◌, ◌||◌, not, Option, none, some, List, Text, ◌==◌, text_eq, select, any,
  if◌then◌else◌,
}
use denizen.Model.{Item, Db, not_found, is_null}
use denizen.Result.{Result, ok, err, ◌>>=◌, ◌>>◌, fail_if, no_row_as}
use denizen.Storage.{FilePath, join, trash_path}
use denizen.Repo.Items.{row, get_by_id, list_trash, is_active, has_id}
use denizen.Items.Access.{get_for_write}
use denizen.Items.Names.{unique_name}
use denizen.Items.Paths.{username, path_on_disk, folder_path}
use denizen.World.{Env}

abbrev delete_paths : Env → Db → Item → Result (Option (FilePath × FilePath))
delete_paths env db item = elim item.target_id [
  | some target ↦ ok none
  | none ↦ do
    name ← username db item.owner_id
    item_path ← path_on_disk env db name item
    ok (some (item_path, trash_path env.data_dir name item.id item.name))
]

-- Delete, up to its first write: the item, and its paths in the drive and in the trash. A shortcut
-- has neither.
unfoldable pub prepare_delete :
    Env → Db → Text → Text → Result (Item × Option (FilePath × FilePath))
unfolding get_for_write username
prepare_delete env db caller id = do
  item ← get_for_write db caller id
  paths ← delete_paths env db item
  ok (item, paths)

-- The item in the trash of its owner, who alone may restore it or delete it for good.
unfoldable pub get_trashed : Db → Text → Text → Result Item
unfolding get_by_id
get_trashed db owner_id id = do
  item ← no_row_as not_found (get_by_id db id)
  fail_if (not (item.owner_id == owner_id) || is_active item) not_found
  ok item

-- The folder that an item comes back to: its own if that is there and not in the trash, or the root.
unfoldable pub restore_parent : Db → Option Text → Option Text
unfolding row
restore_parent db none = none
restore_parent db (some parent_id) = elim (row db.items parent_id) [
  | none ↦ none
  | some parent ↦ if is_active parent then some parent_id else none
]

pub record RestorePlan : Type 0 where
  pub item : Item
  pub parent_id : Option Text
  pub final_name : Text
  pub paths : Option (FilePath × FilePath)

abbrev restore_paths :
    Env → Db → Text → Text → Item → Option Text → Text → Result (Option (FilePath × FilePath))
restore_paths env db owner_id name item parent_id final_name = elim item.target_id [
  | some target ↦ ok none
  | none ↦ do
    above ← folder_path env db owner_id name parent_id
    ok (some (trash_path env.data_dir name item.id item.name, join above final_name))
]

-- Restore, up to its first write
unfoldable pub prepare_restore : Env → Db → Text → Text → Result RestorePlan
unfolding get_trashed username restore_parent
prepare_restore env db owner_id id = do
  item ← get_trashed db owner_id id
  name ← username db owner_id
  final_name ←
      unique_name db owner_id (restore_parent db item.parent_id) item.type item.name item.id
  paths ← restore_paths env db owner_id name item (restore_parent db item.parent_id) final_name
  ok (record {
    item = item;
    parent_id = restore_parent db item.parent_id;
    final_name = final_name;
    paths = paths;
  })

abbrev bytes_path : Env → Db → Text → Item → Result (Option FilePath)
bytes_path env db owner_id item = elim item.target_id [
  | some target ↦ ok none
  | none ↦ do
    name ← username db owner_id
    ok (some (trash_path env.data_dir name item.id item.name))
]

-- PermanentlyDelete, up to its first write: the item, and where its bytes are
unfoldable pub prepare_purge : Env → Db → Text → Text → Result (Item × Option FilePath)
unfolding get_trashed username
prepare_purge env db owner_id id = do
  item ← get_trashed db owner_id id
  path ← bytes_path env db owner_id item
  ok (item, path)

abbrev pub lies_in : List Item → Item → Bool
lies_in items item = elim item.parent_id [ none ↦ false | some p ↦ any (has_id p) items ]

-- ListTrash: an item whose folder is in the trash too is left out.
unfoldable pub list_trash_top : Db → Text → List Item
unfolding list_trash
list_trash_top db owner_id =
    let trash = list_trash db owner_id in select (λ i. not (lies_in trash i)) trash
