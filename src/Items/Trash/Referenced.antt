-- ===== src/Items/Trash/Referenced.antt =====
-- An item that a share link or a shortcut refers to: PermanentlyDelete of internal/service/item.go
-- removes the bytes before the row, and the row stays.
use denizen.Prelude.{◌≡◌, ap, ◌∙◌, true, none, some, [], arith, Text}
use denizen.Model.{Item, Db, constraint}
use denizen.Result.{ok, err}
use denizen.Storage.{trash_path}
use denizen.Storage.Disk as Disk
use denizen.Repo.Items.{row, get_by_id, list_children_deleted, hard_delete, is_referenced}
use denizen.Repo.Items.Laws.{id-row, any-has_id_of_row}
use denizen.Items.Walk.{steps}
use denizen.Items.Paths.{username}
use denizen.Items.Trash.{get_trashed, prepare_purge}
use denizen.Items.Trash.Commit.{each, purge_from, permanently_delete}
use denizen.World.{Env, World}

trashed-row :
    (db : Db) (owner_id id : Text) (item : Item)
    → get_trashed db owner_id id ≡ ok item
    → row db.items id ≡ some item
unfolding get_trashed get_by_id
trashed-row db owner_id id item h = ground arith

hard_delete_referenced :
    (db : Db) (id : Text) (item : Item)
    → row db.items id ≡ some item
    → is_referenced db id ≡ true
    → hard_delete id db ≡ err constraint
unfolding hard_delete
hard_delete_referenced db id item e referenced =
    rw (any-has_id_of_row db.items id item e, referenced)

prepared :
    (env : Env) (db : Db) (owner_id id name : Text) (item : Item)
    → get_trashed db owner_id id ≡ ok item
    → item.target_id ≡ none
    → username db owner_id ≡ ok name
    → prepare_purge env db owner_id id
      ≡ ok (item, some (trash_path env.data_dir name item.id item.name))
unfolding prepare_purge
prepared env db owner_id id name item found real user = rw (found, prepare_purge, real, user)

purged_row :
    (owner_id : Text) (item : Item) (w : World)
    → row w.db.items item.id ≡ some item
    → list_children_deleted w.db owner_id (some item.id) ≡ []
    → is_referenced w.db item.id ≡ true
    → purge_from (steps w.db.items) owner_id item.id w ≡ (err constraint, w)
unfolding purge_from each get_by_id
purged_row owner_id item w e leaf referenced =
    rw (e, leaf, hard_delete_referenced w.db item.id item e referenced)

-- An item in the trash with nothing below it, which is no shortcut and to which a share link or
-- another item refers, is not deleted for good: PermanentlyDelete fails with a constraint, and the
-- tables stay, but its bytes are gone.
pub permanently_delete_referenced :
    (env : Env) (owner_id id name : Text) (item : Item) (w : World)
    → get_trashed w.db owner_id id ≡ ok item
    → item.target_id ≡ none
    → username w.db owner_id ≡ ok name
    → list_children_deleted w.db owner_id (some item.id) ≡ []
    → is_referenced w.db item.id ≡ true
    → permanently_delete env owner_id id w ≡ (
      err constraint,
      record w { disk = Disk.remove_all (trash_path env.data_dir name item.id item.name) w.disk },
    )
unfolding permanently_delete Disk.remove
permanently_delete_referenced env owner_id id name item w found real user leaf referenced =
    let e = trashed-row w.db owner_id id item found in
    let at = id-row w.db.items id item e in
    let plan = prepared env w.db owner_id id name item found real user in
    rw plan (
      purged_row owner_id item
        (record w {
          disk = Disk.remove_all (trash_path env.data_dir name item.id item.name) w.disk;
        })
        (ap (row w.db.items) at ∙ e) leaf referenced)
