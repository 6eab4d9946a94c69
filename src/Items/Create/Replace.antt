-- ===== src/Items/Create/Replace.antt =====
-- ReplaceContent of internal/service/item.go.
use denizen.Prelude.{Text}
use denizen.Prelude.Int.{pos}
use denizen.Prelude.{length}
use denizen.Model.{Item}
use denizen.Result.{ok}
use denizen.Exec.{pure, read, ◌on_error◌, ◌>>=◌, ◌>>◌}
use denizen.Storage.{FilePath, join, staging_root}
use denizen.Storage.Disk as Disk
use denizen.Repo.Items.{update_content, replaced}
use denizen.Repo.Users.{increment_storage_used}
use denizen.Repo.Index.{clear_attempt}
use denizen.Items.Access.{check_quota}
use denizen.Items.Content.{checksum, index_content, trigger_ocr_sweep}
use denizen.Items.Create.{prepare_replace, growth}
use denizen.World.{Env, World, Service, exec_sql, exec_sql', on_disk, quietly, quiet, new_id}

-- ReplaceContent, once the new bytes are staged
unfoldable pub install : Env → Text → Item → FilePath → FilePath → Text → Service Item
unfolding check_quota Disk.rename update_content increment_storage_used clear_attempt index_content
    trigger_ocr_sweep checksum
install env id item path stage content = do
  read (λ (w : World). check_quota w.db (env.free_bytes w.disk) item.owner_id (growth item content))
      on_error quietly (Disk.remove stage)
  sum ← checksum env stage on_error quietly (Disk.remove stage)
  on_disk (Disk.rename stage path) on_error quietly (Disk.remove stage)
  now ← read (λ (w : World). ok w.now)
  exec_sql (update_content id (pos (length content)) sum now)
  exec_sql' (increment_storage_used item.owner_id (growth item content))
  exec_sql' (clear_attempt item.id)
  quiet (λ w. trigger_ocr_sweep (index_content env item.id item.name path w))
  pure (replaced (pos (length content)) sum now item)

-- ReplaceContent, once the item is found
unfoldable pub stage_and_install : Env → Text → Item → FilePath → Text → Service Item
unfolding install Disk.create_folder Disk.write_file
stage_and_install env id item path content = do
  on_disk (Disk.create_folder (staging_root env.data_dir))
  stage_id ← new_id env
  on_disk (Disk.write_file (join (staging_root env.data_dir) stage_id) content)
  install env id item path (join (staging_root env.data_dir) stage_id) content

-- ReplaceContent
unfoldable pub replace_content : Env → Text → Text → Text → Service Item
unfolding prepare_replace stage_and_install
replace_content env caller id content = do
  (item, path) ← read (λ (w : World). prepare_replace env w.db caller id)
  stage_and_install env id item path content
