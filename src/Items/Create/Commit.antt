-- ===== src/Items/Create/Commit.antt =====
-- CreateFolder, FinalizeUpload and CreateShortcut of internal/service/item.go, with their writes.
use denizen.Prelude.{Option, Text}
use denizen.Prelude.Int.{ℤ}
use denizen.Model.{Item, file, folder}
use denizen.Result.{Result, ok}
use denizen.Exec.{pure, read, ◌on_error◌, ◌>>=◌, ◌>>◌}
use denizen.Storage.{FilePath, join}
use denizen.Storage.Disk as Disk
use denizen.Repo.Items.{create}
use denizen.Repo.Users.{increment_storage_used}
use denizen.Items.Access.{check_quota}
use denizen.Items.Content.{checksum, index_content, trigger_ocr_sweep}
use denizen.Items.Create.{Place, find_place, new_folder, new_file, find_shortcut, new_shortcut}
use denizen.World.{Env, World, Service, exec_sql, exec_sql', on_disk, quietly, quiet, new_id}

-- CreateFolder, after its checks
unfoldable pub make_folder : Env → Option Text → Place → Service Item
unfolding create
make_folder env parent_id place = do
  on_disk (Disk.create_folder (join place.folder place.name))
  now ← read (λ (w : World). ok w.now)
  id ← new_id env
  exec_sql (create (new_folder place parent_id now id))
      on_error quietly (Disk.remove (join place.folder place.name))
  pure (new_folder place parent_id now id)

-- CreateFolder
unfoldable pub create_folder : Env → Text → Option Text → Text → Service Item
unfolding find_place make_folder
create_folder env caller parent_id name = do
  place ← read (λ (w : World). find_place env w.db caller parent_id folder name)
  make_folder env parent_id place

-- FinalizeUpload, after its checks: the upload moves to the target, and back if the row is refused.
unfoldable pub make_file : Env → Option Text → FilePath → ℤ → Text → Place → Service Item
unfolding create increment_storage_used Disk.rename index_content trigger_ocr_sweep checksum
make_file env parent_id source_path size mime_type place = do
  on_disk (Disk.rename source_path (join place.folder place.name))
  sum ←
      checksum env (join place.folder place.name)
      on_error quietly (Disk.rename (join place.folder place.name) source_path)
  now ← read (λ (w : World). ok w.now)
  id ← new_id env
  exec_sql (create (new_file place parent_id size mime_type sum now id))
      on_error quietly (Disk.rename (join place.folder place.name) source_path)
  exec_sql' (increment_storage_used place.owner_id size)
  quiet (λ w. trigger_ocr_sweep (index_content env id place.name (join place.folder place.name) w))
  pure (new_file place parent_id size mime_type sum now id)

abbrev pub quota_for : Env → Text → ℤ → World → Result (Unit {0})
quota_for env owner_id additional w = check_quota w.db (env.free_bytes w.disk) owner_id additional

-- FinalizeUpload
unfoldable pub finalize_upload :
    Env → Text → Option Text → Text → FilePath → ℤ → Text → Service Item
unfolding find_place make_file
finalize_upload env caller parent_id name source_path size mime_type = do
  place ← read (λ (w : World). find_place env w.db caller parent_id file name)
  read (quota_for env place.owner_id size)
  make_file env parent_id source_path size mime_type place

-- CreateShortcut
unfoldable pub create_shortcut : Env → Text → Text → Option Text → Service Item
unfolding find_shortcut create
create_shortcut env caller target_id parent_id = do
  (target, owner_id, name) ← read (λ (w : World). find_shortcut w.db caller target_id parent_id)
  now ← read (λ (w : World). ok w.now)
  id ← new_id env
  exec_sql (create (new_shortcut target owner_id name parent_id now id))
  pure (new_shortcut target owner_id name parent_id now id)
