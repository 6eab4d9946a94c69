-- ===== src/Items/Move/Commit.antt =====
-- Move and SetMimeType of internal/service/item.go, with their writes.
use denizen.Prelude.{Option, none, some, Text, ◌==◌, if◌then◌else◌}
use denizen.Model.{Item}
use denizen.Exec.{pure, read, ◌on_error◌, ◌>>=◌, ◌>>◌}
use denizen.Text.{trim_space}
use denizen.Storage.{FilePath, path_eq}
use denizen.Storage.Disk.{rename}
use denizen.Repo.Items.{renamed, update_name_parent, update_mime_type}
use denizen.World.{Env, World, Service, exec_sql, on_disk, quietly}
use denizen.Result.{ok}
use denizen.Items.Move.{MoveInput, MovePlan, prepare_move, prepare_mime_type}

unfoldable pub rename_paths : Option (FilePath × FilePath) → Service (Unit {0})
unfolding rename
rename_paths none = pure tt
rename_paths (some (old_path, new_path)) =
    if new_path == old_path then pure tt else on_disk (rename old_path new_path)

unfoldable pub rename_back : Option (FilePath × FilePath) → World → World
unfolding rename
rename_back none w = w
rename_back (some (old_path, new_path)) w =
    if new_path == old_path then w else quietly (rename new_path old_path) w

unfoldable pub commit_move : Text → Option Text → MovePlan → Service Item
unfolding rename_paths rename_back update_name_parent
commit_move id parent_id plan = do
  rename_paths plan.paths
  now ← read (λ (w : World). ok w.now)
  exec_sql (update_name_parent id plan.final_name parent_id now) on_error rename_back plan.paths
  pure (renamed plan.final_name parent_id now plan.item)

-- Move
unfoldable pub move : Env → Text → Text → MoveInput → Service Item
unfolding prepare_move commit_move
move env caller id input = do
  plan ← read (λ (w : World). prepare_move env w.db caller id input)
  commit_move id input.parent_id plan

-- SetMimeType
unfoldable pub set_mime_type : Text → Text → Text → Service Item
unfolding prepare_mime_type update_mime_type
set_mime_type caller id mime_type = do
  item ← read (λ (w : World). prepare_mime_type w.db caller id mime_type)
  exec_sql (update_mime_type id (trim_space mime_type))
  pure (record item { mime_type = some (trim_space mime_type) })
