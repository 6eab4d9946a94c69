-- ===== src/Items/Create.antt =====
-- New items: CreateFolder, CreateShortcut and FinalizeUpload of internal/service/item.go, and
-- ReplaceContent.
pub mod Sound
pub mod Replace
pub mod Commit
pub mod Template
pub mod Blank
use denizen.Prelude.{
  true, false, not, Option, none, some, [], Text, ◌==◌, text_eq, length, if◌then◌else◌,
}
use denizen.Prelude.Int.{ℤ, ◌-ℤ◌, wrap64, pos}
use denizen.Model.{Item, ItemType, file, folder, is_folder, Db, validation}
use denizen.Result.{Result, ok, err, ◌>>=◌, ◌>>◌, fail_if}
use denizen.Text.{trim_space}
use denizen.Storage.{FilePath, join, staging_root}
use denizen.Storage.Disk as Disk
use denizen.Repo.Items.{create, update_content, replaced}
use denizen.Repo.Users.{increment_storage_used}
use denizen.Repo.Index.{clear_attempt}
use denizen.Items.Access.{get_readable, get_for_write, validate_folder, check_quota}
use denizen.Items.Names.{validate_name, unique_name}
use denizen.Items.Paths.{username, path_on_disk, folder_path}
use denizen.Items.Content.{checksum, index_content, trigger_ocr_sweep}
use denizen.World.{Env, World, Service, exec_sql, exec_sql', on_disk, quietly, quiet, new_id}

-- Where a new item goes: its owner, its folder on disk, and its name there.
pub record Place : Type 0 where
  pub owner_id : Text
  pub folder : FilePath
  pub name : Text

-- The checks that CreateFolder and FinalizeUpload begin with
unfoldable pub find_place : Env → Db → Text → Option Text → ItemType → Text → Result Place
unfolding username
find_place env db caller parent_id type name = do
  validate_name name
  owner_id ← validate_folder db caller parent_id
  user ← username db owner_id
  above ← folder_path env db owner_id user parent_id
  final_name ← unique_name db owner_id parent_id type (trim_space name) []
  ok (record { owner_id = owner_id; folder = above; name = final_name })

abbrev pub new_folder : Place → Option Text → ℤ → Text → Item
new_folder place parent_id now id = record {
  id = id;
  owner_id = place.owner_id;
  parent_id = parent_id;
  name = place.name;
  type = folder;
  size_bytes = pos 0;
  mime_type = none;
  checksum = none;
  target_id = none;
  deleted_at = none;
  created_at = now;
  updated_at = now;
}

abbrev pub new_file : Place → Option Text → ℤ → Text → Text → ℤ → Text → Item
new_file place parent_id size mime_type sum now id = record {
  id = id;
  owner_id = place.owner_id;
  parent_id = parent_id;
  name = place.name;
  type = file;
  size_bytes = size;
  mime_type = if mime_type == [] then none else some mime_type;
  checksum = some sum;
  target_id = none;
  deleted_at = none;
  created_at = now;
  updated_at = now;
}

-- What a shortcut points to: no shortcut, but what that one points to.
unfoldable pub find_target : Db → Text → Text → Result Item
unfolding get_readable
find_target db caller target_id = do
  target ← get_readable db caller target_id
  elim target.target_id [ none ↦ ok target | some real_id ↦ get_readable db caller real_id ]

-- CreateShortcut, up to its write: the place has no folder on disk.
unfoldable pub find_shortcut : Db → Text → Text → Option Text → Result (Item × Text × Text)
unfolding find_target
find_shortcut db caller target_id parent_id = do
  target ← find_target db caller target_id
  owner_id ← validate_folder db caller parent_id
  name ← unique_name db owner_id parent_id target.type target.name []
  ok (target, owner_id, name)

abbrev pub new_shortcut : Item → Text → Text → Option Text → ℤ → Text → Item
new_shortcut target owner_id name parent_id now id = record {
  id = id;
  owner_id = owner_id;
  parent_id = parent_id;
  name = name;
  type = target.type;
  size_bytes = pos 0;
  mime_type = target.mime_type;
  checksum = none;
  target_id = some target.id;
  deleted_at = none;
  created_at = now;
  updated_at = now;
}

-- ReplaceContent, up to its first write: the item and its path
unfoldable pub prepare_replace : Env → Db → Text → Text → Result (Item × FilePath)
unfolding get_for_write username
prepare_replace env db caller id = do
  item ← get_for_write db caller id
  fail_if (is_folder item.type) (validation "not a file")
  name ← username db item.owner_id
  path ← path_on_disk env db name item
  ok (item, path)

-- How many bytes a file grows by, as an int64.
abbrev pub growth : Item → Text → ℤ
growth item content = wrap64 (pos (length content) -ℤ item.size_bytes)
