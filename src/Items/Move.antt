-- ===== src/Items/Move.antt =====
-- Move and SetMimeType of internal/service/item.go. A move first reads all that it needs, then
-- renames on disk, then updates the row, and takes the rename back if the update fails.
pub mod Commit
pub mod Sound
pub mod Shortcut
use denizen.Prelude.{
  true, false, ◌&&◌, ◌||◌, not, Option, none, some, [], Text, ◌==◌, text_eq, if◌then◌else◌,
}
use denizen.Prelude.Int.{ℤ}
use denizen.Model.{Item, is_folder, Db, validation, is_null}
use denizen.Result.{Result, ok, err, ◌>>=◌, ◌>>◌, fail_if}
use denizen.Text.{trim_space}
use denizen.Storage.{FilePath, path_eq, join}
use denizen.Items.Walk.{check_not_self_or_descendant}
use denizen.Items.Access.{get_for_write, validate_folder}
use denizen.Items.Names.{validate_name, unique_name}
use denizen.Items.Paths.{username, path_on_disk, folder_path}
use denizen.World.{Env}

pub record MoveInput : Type 0 where
  pub name : Text
  pub parent_id : Option Text

-- What a move has found out before it writes: the item, its new name, and the paths to rename, of
-- which a shortcut has none.
pub record MovePlan : Type 0 where
  pub item : Item
  pub final_name : Text
  pub paths : Option (FilePath × FilePath)

-- A folder that is no shortcut may not go below itself.
check_target : Db → Item → Option Text → Result (Unit {0})
check_target db item none = ok tt
check_target db item (some parent_id) =
    if is_folder item.type && is_null item.target_id
    then check_not_self_or_descendant db item.id parent_id
    else ok tt

-- The new folder must be one that the caller may write to, in the same drive.
check_drive : Db → Text → Item → Option Text → Result (Unit {0})
check_drive db caller item none = ok tt
check_drive db caller item (some parent_id) = do
  dest_owner ← validate_folder db caller (some parent_id)
  fail_if (not (dest_owner == item.owner_id))
      (validation "cannot move an item into a different person's drive")

move_paths : Env → Db → Item → Option Text → Text → Result (Option (FilePath × FilePath))
move_paths env db item parent_id final_name = elim item.target_id [
  | some target ↦ ok none
  | none ↦ do
    name ← username db item.owner_id
    old_path ← path_on_disk env db name item
    folder ← folder_path env db item.owner_id name parent_id
    ok (some (old_path, join folder final_name))
]

-- Move, up to its first write
unfoldable pub prepare_move : Env → Db → Text → Text → MoveInput → Result MovePlan
unfolding check_target check_drive move_paths
prepare_move env db caller id input = do
  validate_name input.name
  item ← get_for_write db caller id
  check_target db item input.parent_id
  check_drive db caller item input.parent_id
  final_name ←
      unique_name db item.owner_id input.parent_id item.type (trim_space input.name) item.id
  paths ← move_paths env db item input.parent_id final_name
  ok (record { item = item; final_name = final_name; paths = paths })

-- SetMimeType, up to its write
unfoldable pub prepare_mime_type : Db → Text → Text → Text → Result Item
prepare_mime_type db caller id mime_type = do
  item ← get_for_write db caller id
  fail_if (is_folder item.type) (validation "only files have a mime type")
  fail_if (trim_space mime_type == []) (validation "mime_type is required")
  ok item
