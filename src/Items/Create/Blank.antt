-- ===== src/Items/Create/Blank.antt =====
-- CreateBlankDocument of internal/service/item.go, with its writes.
pub mod Sound
use denizen.Prelude.{Option, Text, length}
use denizen.Prelude.Int.{pos}
use denizen.Model.{Item}
use denizen.Result.{ok}
use denizen.Exec.{pure, read, ◌on_error◌, ◌>>=◌, ◌>>◌}
use denizen.Storage.{join}
use denizen.Storage.Disk as Disk
use denizen.Repo.Items.{create}
use denizen.Repo.Users.{increment_storage_used}
use denizen.Items.Content.{checksum}
use denizen.Items.Create.{Place, new_file}
use denizen.Items.Create.Template.{Template, find_blank}
use denizen.World.{Env, World, Service, exec_sql, exec_sql', on_disk, quietly, new_id}

-- CreateBlankDocument, after its checks
unfoldable pub make_blank : Env → Option Text → Template → Place → Service Item
unfolding Disk.write_file checksum create increment_storage_used
make_blank env parent_id template place = do
  on_disk (Disk.write_file (join place.folder place.name) template.content)
  sum ←
      checksum env (join place.folder place.name)
      on_error quietly (Disk.remove (join place.folder place.name))
  now ← read (λ (w : World). ok w.now)
  id ← new_id env
  exec_sql (
        create
          (new_file place parent_id (pos (length template.content)) template.mime_type sum now id))
      on_error quietly (Disk.remove (join place.folder place.name))
  exec_sql' (increment_storage_used place.owner_id (pos (length template.content)))
  pure (new_file place parent_id (pos (length template.content)) template.mime_type sum now id)

-- CreateBlankDocument, for an extension and a name
unfoldable pub create_blank_document : Env → Text → Option Text → Text → Text → Service Item
unfolding find_blank make_blank
create_blank_document env caller parent_id e name = do
  (template, place) ←
      read (λ (w : World). find_blank env w.db (env.free_bytes w.disk) caller parent_id e name)
  make_blank env parent_id template place
