-- ===== src/Items/Copy.antt =====
-- Copy of internal/service/item.go. The recursion runs on fuel: as many steps as there are rows, and one.
pub mod Prepare
pub mod Rows
pub mod Sound
use denizen.Prelude.{
  ℕ, zero, suc, true, false, ◌&&◌, not, Option, none, some, List, [], ◌∷◌, Text, ◌==◌, text_eq,
  if◌then◌else◌,
}
use denizen.Prelude.Int.{ℤ}
use denizen.Model.{Item, ItemType, file, folder, is_folder, Db, diverges, is_null}
use denizen.Result.{Result, ok, err, Result-cases}
use denizen.Exec.{pure, raise, read, ◌on_error◌, ◌>>=◌, ◌>>◌}
use denizen.Storage.{FilePath, join}
use denizen.Storage.Disk as Disk
use denizen.Repo.Items.{create, list_children}
use denizen.Repo.Users.{increment_storage_used}
use denizen.Items.Walk.{steps}
use denizen.Items.Access.{get_readable}
use denizen.Items.Names.{unique_name}
use denizen.Items.Paths.{path_on_disk}
use denizen.Items.Create.{Place}
use denizen.Items.Create.Commit.{make_folder, create_shortcut, quota_for}
use denizen.Items.Copy.Prepare.{prepare_copy}
use denizen.World.{Env, World, Service, exec_sql, exec_sql', on_disk, quietly, new_id}

-- The row of a copied file
abbrev pub copied_file : Item → Place → Option Text → ℤ → Text → Item
copied_file item place parent_id now id = record item {
  id = id;
  owner_id = place.owner_id;
  parent_id = parent_id;
  name = place.name;
  type = file;
  target_id = none;
  deleted_at = none;
  created_at = now;
  updated_at = now;
}

-- copyRecursive for a file, at the place that it has found
unfoldable pub copy_file : Env → Text → Item → Option Text → Place → Service Item
unfolding Disk.copy_file create increment_storage_used
copy_file env source_username item parent_id place = do
  read (quota_for env place.owner_id item.size_bytes)
  source ← read (λ (w : World). path_on_disk env w.db source_username item)
  now ← read (λ (w : World). ok w.now)
  on_disk (Disk.copy_file source (join place.folder place.name))
  id ← new_id env
  exec_sql (create (copied_file item place parent_id now id))
      on_error quietly (Disk.remove (join place.folder place.name))
  exec_sql' (increment_storage_used place.owner_id item.size_bytes)
  pure (copied_file item place parent_id now id)

-- The loop over the children of a folder
unfoldable pub copy_each : (Item → Service Item) → List Item → Service (Unit {0})
copy_each again [] = pure tt
copy_each again (child ∷ children) = do _ ← again child; copy_each again children

-- copyRecursive for a folder, with the recursion for a child, a parent and a folder on disk
unfoldable pub copy_folder :
    Env → (Item → Option Text → FilePath → Service Item) → Item → Option Text → Place → Service Item
unfolding make_folder list_children copy_each
copy_folder env again item parent_id place = do
  new_item ← make_folder env parent_id place
  children ← read (λ (w : World). ok (list_children w.db item.owner_id (some item.id)))
  copy_each (λ child. again child (some new_item.id) (join place.folder place.name)) children
  pure new_item

-- The name of a copy, and where it goes
unfoldable pub place_for : Text → FilePath → Item → Option Text → World → Result Place
place_for owner_id above item parent_id w =
    elim (unique_name w.db owner_id parent_id item.type item.name []) [
      | ok name ↦ ok (record { owner_id = owner_id; folder = above; name = name })
      | err e ↦ err e
    ]

-- copyRecursive
unfoldable pub copy_from : ℕ → Env → Text → Text → Item → Option Text → FilePath → Service Item
unfolding place_for copy_folder copy_file
copy_from zero env owner_id source_username item parent_id above = raise diverges
copy_from (suc fuel) env owner_id source_username item parent_id above = do
  place ← read (place_for owner_id above item parent_id)
  elim item.type [
    | folder ↦ copy_folder env (copy_from fuel env owner_id source_username) item parent_id place
    | file ↦ copy_file env source_username item parent_id place
  ]

-- Copy of an item that is no shortcut
unfoldable pub copy_real : Env → Text → Item → Option Text → Service Item
unfolding prepare_copy copy_from
copy_real env caller item parent_id = do
  (owner_id, source_username, above) ←
      read (λ (w : World). prepare_copy env w.db caller item parent_id)
  fuel ← read (λ (w : World). ok (steps w.db.items))
  copy_from fuel env owner_id source_username item parent_id above

-- Copy of an item that is found, by its target: a copy of a shortcut is a shortcut to the same target.
unfoldable pub copy_found : Env → Text → Item → Option Text → Option Text → Service Item
unfolding create_shortcut copy_real
copy_found env caller item parent_id none = copy_real env caller item parent_id
copy_found env caller item parent_id (some target_id) =
    create_shortcut env caller target_id parent_id

-- Copy
unfoldable pub copy : Env → Text → Text → Option Text → Service Item
unfolding copy_found
copy env caller id parent_id = do
  item ← read (λ (w : World). get_readable w.db caller id)
  copy_found env caller item parent_id item.target_id
