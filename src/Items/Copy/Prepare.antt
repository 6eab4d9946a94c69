-- ===== src/Items/Copy/Prepare.antt =====
-- The checks of Copy of internal/service/item.go, for an item that is no shortcut.
use denizen.Prelude.{Option, none, some, Text, if◌then◌else◌}
use denizen.Model.{Item, is_folder, Db}
use denizen.Result.{Result, ok, ◌>>=◌, ◌>>◌}
use denizen.Storage.{FilePath}
use denizen.Items.Walk.{check_not_self_or_descendant}
use denizen.Items.Access.{validate_folder}
use denizen.Items.Paths.{username, folder_path}
use denizen.World.{Env}

abbrev check_place : Db → Item → Option Text → Result (Unit {0})
check_place db item none = ok tt
check_place db item (some parent_id) =
    if is_folder item.type then check_not_self_or_descendant db item.id parent_id else ok tt

-- The new owner, the name of the owner of the source, and the folder on disk
unfoldable pub prepare_copy : Env → Db → Text → Item → Option Text → Result (Text × Text × FilePath)
unfolding username
prepare_copy env db caller item parent_id = do
  source_username ← username db item.owner_id
  owner_id ← validate_folder db caller parent_id
  user ← username db owner_id
  above ← folder_path env db owner_id user parent_id
  check_place db item parent_id
  ok (owner_id, source_username, above)
