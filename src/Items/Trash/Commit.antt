-- ===== src/Items/Trash/Commit.antt =====
-- Delete, Restore and PermanentlyDelete of internal/service/item.go, with their writes and the three
-- recursions over a subtree. A recursion goes as deep as there are rows; `diverges` stands for one
-- that goes deeper.
use denizen.Prelude.{ℕ, zero, suc, Option, none, some, List, [], ◌∷◌, Text, if◌then◌else◌}
use denizen.Prelude.Int.{ℤ, pos, ◌-ℤ◌, wrap64}
use denizen.Model.{Item, is_folder, diverges}
use denizen.Result.{ok}
use denizen.Exec.{pure, raise, read, ◌on_error◌, ◌>>=◌, ◌>>◌}
use denizen.Storage.{FilePath}
use denizen.Storage.Disk as Disk
use denizen.Repo.Items.{
  get_by_id, list_children, list_children_deleted, soft_delete, restore, restored, clear_deleted_at,
  hard_delete,
}
use denizen.Repo.Users.{increment_storage_used}
use denizen.Repo.Index.{remove_content}
use denizen.Items.Walk.{steps}
use denizen.Items.Trash.{RestorePlan, prepare_delete, prepare_restore, prepare_purge}
use denizen.World.{Env, World, Service, exec_sql, exec_sql', on_disk, quietly}

-- `for _, child := range children`, up to the first error
unfoldable pub each : (Item → Service (Unit {0})) → List Item → Service (Unit {0})
each f [] = pure tt
each f (i ∷ items) = f i >> each f items

-- markSubtreeDeleted
unfoldable pub mark_from : ℕ → Text → ℤ → Text → Service (Unit {0})
unfolding soft_delete list_children each
mark_from zero owner_id deleted_at id = raise diverges
mark_from (suc fuel) owner_id deleted_at id = do
  exec_sql (soft_delete id deleted_at)
  children ← read (λ (w : World). ok (list_children w.db owner_id (some id)))
  each (λ child. mark_from fuel owner_id deleted_at child.id) children

-- restoreDescendants
unfoldable pub unmark_from : ℕ → Text → ℤ → Text → Service (Unit {0})
unfolding clear_deleted_at list_children_deleted each
unmark_from zero owner_id updated_at id = raise diverges
unmark_from (suc fuel) owner_id updated_at id = do
  children ← read (λ (w : World). ok (list_children_deleted w.db owner_id (some id)))
  each
      (λ child.
        exec_sql (clear_deleted_at child.id updated_at)
        >> unmark_from fuel owner_id updated_at child.id)
      children

-- What goes with the row of a file: its text in the index, and its share of the quota.
unfoldable pub free_file : Text → Item → Service (Unit {0})
unfolding remove_content increment_storage_used
free_file owner_id item = if is_folder item.type then pure tt else do
  exec_sql' (remove_content item.id)
  exec_sql' (increment_storage_used owner_id (wrap64 (pos 0 -ℤ item.size_bytes)))

-- hardDeleteSubtreeRows
unfoldable pub purge_from : ℕ → Text → Text → Service (Unit {0})
unfolding get_by_id list_children_deleted each hard_delete free_file
purge_from zero owner_id id = raise diverges
purge_from (suc fuel) owner_id id = do
  item ← read (λ (w : World). get_by_id w.db id)
  children ← read (λ (w : World). ok (list_children_deleted w.db owner_id (some id)))
  each (λ child. purge_from fuel owner_id child.id) children
  exec_sql (hard_delete id)
  free_file owner_id item

abbrev pub rename_pair : Option (FilePath × FilePath) → Service (Unit {0})
rename_pair none = pure tt
rename_pair (some (old_path, new_path)) = on_disk (Disk.rename old_path new_path)

abbrev pub rename_pair_back : Option (FilePath × FilePath) → World → World
rename_pair_back none w = w
rename_pair_back (some (old_path, new_path)) w = quietly (Disk.rename new_path old_path) w

-- Delete, once its paths are known
unfoldable pub trash_item : Item → Option (FilePath × FilePath) → Service (Unit {0})
unfolding mark_from Disk.rename
trash_item item paths = do
  rename_pair paths
  now ← read (λ (w : World). ok w.now)
  fuel ← read (λ (w : World). ok (steps w.db.items))
  mark_from fuel item.owner_id now item.id on_error rename_pair_back paths

-- Delete
unfoldable pub delete : Env → Text → Text → Service (Unit {0})
unfolding prepare_delete trash_item
delete env caller id = do
  (item, paths) ← read (λ (w : World). prepare_delete env w.db caller id)
  trash_item item paths

-- Restore, once the bytes are back
unfoldable pub put_row_back : Text → Text → RestorePlan → Service Item
unfolding restore unmark_from Disk.rename
put_row_back owner_id id plan = do
  now ← read (λ (w : World). ok w.now)
  exec_sql (restore id plan.final_name plan.parent_id now) on_error rename_pair_back plan.paths
  fuel ← read (λ (w : World). ok (steps w.db.items))
  unmark_from fuel owner_id now plan.item.id
  pure (restored plan.final_name plan.parent_id now plan.item)

-- Restore, once it is planned
unfoldable pub put_back : Text → Text → RestorePlan → Service Item
unfolding put_row_back Disk.rename
put_back owner_id id plan = rename_pair plan.paths >> put_row_back owner_id id plan

-- Restore
unfoldable pub restore_item : Env → Text → Text → Service Item
unfolding prepare_restore put_back
restore_item env owner_id id = do
  plan ← read (λ (w : World). prepare_restore env w.db owner_id id)
  put_back owner_id id plan

abbrev remove_bytes : Option FilePath → Service (Unit {0})
remove_bytes none = pure tt
remove_bytes (some path) = on_disk (Disk.remove path)

-- PermanentlyDelete
unfoldable pub permanently_delete : Env → Text → Text → Service (Unit {0})
unfolding prepare_purge purge_from Disk.remove
permanently_delete env owner_id id = do
  (item, path) ← read (λ (w : World). prepare_purge env w.db owner_id id)
  remove_bytes path
  fuel ← read (λ (w : World). ok (steps w.db.items))
  purge_from fuel owner_id item.id
