-- ===== src/Items/Paths.antt =====
-- The paths on disk behind an item: username, folderPath and FilePath of internal/service/item.go.
use denizen.Prelude.{not, Option, none, some, Text, ◌==◌, text_eq, if◌then◌else◌}
use denizen.Model.{Item, is_folder, Db, validation}
use denizen.Result.{Result, ok, ◌>>=◌, ◌>>◌, fail_if, no_row_as}
use denizen.Storage.{FilePath, user_files_root, trash_path}
use denizen.Repo.Items.{get_by_id, is_active}
use denizen.Repo.Users as Users
use denizen.World.{Env}
use denizen.Items.Walk.{path_of}

-- username
unfoldable pub username : Db → Text → Result Text
username db owner_id = do user ← Users.get_by_id db owner_id; ok user.username

-- pathOf, with the root of the owner's files
abbrev pub path_on_disk : Env → Db → Text → Item → Result FilePath
path_on_disk env db name item = path_of db (user_files_root env.data_dir name) item

-- folderPath
unfoldable pub folder_path : Env → Db → Text → Text → Option Text → Result FilePath
folder_path env db owner_id name none = ok (user_files_root env.data_dir name)
folder_path env db owner_id name (some parent_id) = do
  parent ← no_row_as (validation "parent folder not found") (get_by_id db parent_id)
  fail_if (not (parent.owner_id == owner_id)) (validation "parent folder not found")
  fail_if (not (is_active parent)) (validation "parent folder is in trash")
  fail_if (not (is_folder parent.type)) (validation "parent is not a folder")
  path_on_disk env db name parent

-- FilePath
unfoldable pub file_path : Env → Db → Item → Result FilePath
unfolding username
file_path env db item = do
  fail_if (is_folder item.type) (validation "not a file")
  name ← username db item.owner_id
  if is_active item
      then path_on_disk env db name item
      else ok (trash_path env.data_dir name item.id item.name)
