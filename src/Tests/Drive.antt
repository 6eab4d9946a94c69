-- ===== src/Tests/Drive.antt =====
-- The theorems on the operations that change items, on the small drive.
use denizen.Prelude.{false, ◌≡◌, refl, none, some, [], ◌∷◌, text, text_eq, option_text_eq}
use denizen.Prelude.Int.{pos}
use denizen.Model.{Item, Db, empty_db}
use denizen.Repo.Items.{row, name_exists, update_name_parent, renamed}
use denizen.World.{World}
use denizen.Items.Sound.{IsSound}
use denizen.Items.Names.{validate_name}
use denizen.Items.Forest.{Rooted}
use denizen.Items.Move.{MoveInput}
use denizen.Items.Move.Commit.{move}
use denizen.Items.Move.Sound.{move-IsSound}
use denizen.Items.Move.Shortcut.{move_shortcut_into_itself}
use denizen.Items.Create.Commit.{create_folder}
use denizen.Items.Trash.Commit.{permanently_delete}
use denizen.Items.Trash.{get_trashed}
use denizen.Items.Trash.Referenced.{permanently_delete_referenced}
use denizen.Items.Paths.{username}
use denizen.Repo.Users as Users
use denizen.Repo.Items.{get_by_id, list_children_deleted, order_by, is_referenced}
use denizen.Storage.{trash_path}
use denizen.Storage.Disk.{remove_all}
use denizen.Model.{constraint}
use denizen.Result.{err}
use denizen.Items.Reach.{Reachable-IsSound, start, next, by_create_folder}
use denizen.Result.{ok}
use denizen.Text.{trim_space, contains_any}
use denizen.Tests.{env, ann, docs, note, old, link, db, world, db-IsSound}

abbrev empty_world : World
empty_world = record world { db = record empty_db { users = ann ∷ [] } }

Reachable-IsSound_example :
    IsSound (create_folder env (text "ann") none (text "docs") empty_world).1.db.items
Reachable-IsSound_example =
    Reachable-IsSound env (create_folder env (text "ann") none (text "docs") empty_world).1
      (next (start empty_world refl) (by_create_folder (text "ann") none (text "docs")))

abbrev to_root : MoveInput
to_root = record { name = text "b.txt"; parent_id = none }

move-IsSound_example : IsSound (move env (text "ann") (text "f") to_root world).1.db.items
unfolding row text_eq
move-IsSound_example =
    move-IsSound env (text "ann") (text "f") to_root world db-IsSound
      (λ i e isfolder. cc (refl_row i e))
  where
    refl_row : (i : Item) → row db.items (text "f") ≡ some i → some note ≡ some i
    refl_row i e = e

abbrev looped : Db
looped = record db {
  items = renamed (text "link") (some (text "s")) (pos 50) link ∷ (old ∷ note ∷ docs ∷ []);
}

move_shortcut_into_itself_example :
    ((move env
        (text "ann")
        (text "s")
        (record { name = text "link"; parent_id = some (text "s") })
        world).0
      ≡ ok (renamed (text "link") (some (text "s")) (pos 50) link))
    × (¬ Rooted
        (move env
          (text "ann")
          (text "s")
          (record { name = text "link"; parent_id = some (text "s") })
          world).1.db.items
        (text "s"))
unfolding row text_eq validate_name trim_space name_exists update_name_parent option_text_eq
    contains_any
move_shortcut_into_itself_example =
    move_shortcut_into_itself env (text "ann") (text "s") (text "d") (text "link") link world looped
      refl refl refl refl refl refl refl refl

-- A share link to the file in the trash.
abbrev linked : World
linked = record world {
  db = record db {
    shares =
        record {
          id = text "l";
          item_id = text "o";
          token_hash = text "htok";
          created_by = text "ann";
          requires_auth = false;
          expires_at = none;
          created_at = pos 0;
        }
        ∷ [];
  };
}

permanently_delete_referenced_example : permanently_delete env (text "ann") (text "o") linked ≡ (
  err constraint,
  record linked {
    disk =
        remove_all (trash_path env.data_dir (text "ann") (text "o") (text "old.txt")) linked.disk;
  },
)
unfolding get_trashed get_by_id row username Users.get_by_id list_children_deleted order_by
    is_referenced text_eq option_text_eq
permanently_delete_referenced_example =
    permanently_delete_referenced env (text "ann") (text "o") (text "ann") old linked refl refl refl
      refl refl
