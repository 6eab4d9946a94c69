-- ===== src/Items/Move/Shortcut.antt =====
-- A folder shortcut that is moved into itself: Move of internal/service/item.go checks for a cycle
-- only where the item is no shortcut.
use denizen.Prelude.{◌≡◌, refl, ap, false, none, some, List, arith, Text, text_eq}
use denizen.Prelude.Int.{ℤ}
use denizen.Model.{Item, folder, Db}
use denizen.Result.{ok}
use denizen.Text.{trim_space}
use denizen.Repo.Items.{row, get_by_id, name_exists, renamed, update_name_parent, set_row}
use denizen.Items.Forest.{Rooted, top, under}
use denizen.Items.Access.{get_for_write, validate_folder}
use denizen.Items.Names.{validate_name}
use denizen.Items.Names.Laws.{unique_name-keeps}
use denizen.Items.Sound.Kept.{row-set_row_self}
use denizen.Items.Trash.Sound.{updated_items}
use denizen.Items.Move.{prepare_move, check_target, check_drive, move_paths}
use denizen.Items.Move.Commit.{commit_move, rename_paths, rename_back, move}
use denizen.World.{Env, World}

own_get_for_write :
    (db : Db) (caller id : Text) (item : Item)
    → row db.items id ≡ some item
    → item.owner_id ≡ caller
    → item.deleted_at ≡ none
    → get_for_write db caller id ≡ ok item
unfolding get_for_write get_by_id
own_get_for_write db caller id item e own active = ground arith

own_validate_folder :
    (db : Db) (caller id : Text) (item : Item)
    → get_for_write db caller id ≡ ok item
    → item.type ≡ folder
    → validate_folder db caller (some id) ≡ ok item.owner_id
unfolding validate_folder
own_validate_folder db caller id item e isfolder = ground arith

not-Rooted_of_self :
    (items : List Item) (id : Text) (i : Item)
    → row items id ≡ some i
    → i.parent_id ≡ some id
    → {y : Text} → Rooted items y
    → y ≡ id
    → ⊥
not-Rooted_of_self items id i e self (top j f n) same = cc (ap (row items) same)
not-Rooted_of_self items id i e self (under j p f g r) same =
    not-Rooted_of_self items id i e self r (cc (ap (row items) same))

prepare_self :
    (env : Env) (db : Db) (caller id target name : Text) (item : Item)
    → row db.items id ≡ some item
    → item.owner_id ≡ caller
    → item.deleted_at ≡ none
    → item.type ≡ folder
    → item.target_id ≡ some target
    → validate_name name ≡ ok tt
    → name_exists db item.owner_id (some id) (trim_space name) item.id ≡ false
    → prepare_move env db caller id (record { name = name; parent_id = some id })
      ≡ ok (record { item = item; final_name = trim_space name; paths = none })
unfolding prepare_move check_target check_drive move_paths
prepare_self env db caller id target name item e own active isfolder link valid free =
    let writable = own_get_for_write db caller id item e own active in
    let inside = own_validate_folder db caller id item writable isfolder in
    let kept =
      unique_name-keeps db item.owner_id (some id) item.type (trim_space name) item.id free in
    ground (arith, valid, writable, inside, kept, link)

committed :
    (id name : Text) (item : Item) (w : World) (db' : Db)
    → update_name_parent id name (some id) w.now w.db ≡ ok db'
    → ((commit_move id (some id) (record { item = item; final_name = name; paths = none }) w).0
        ≡ ok (renamed name (some id) w.now item))
      × ((commit_move id
            (some id)
            (record { item = item; final_name = name; paths = none })
            w).1.db.items
          ≡ db'.items)
unfolding commit_move rename_paths rename_back
committed id name item w db' made = (rw made, rw made)

self_lost :
    (id name : Text) (item : Item) (now : ℤ) (db db' : Db)
    → row db.items id ≡ some item
    → update_name_parent id name (some id) now db ≡ ok db'
    → ¬ Rooted db'.items id
unfolding update_name_parent
self_lost id name item now db db' e made r =
    let change = renamed name (some id) now in
    let items = updated_items change id db db' item e made in
    not-Rooted_of_self (set_row change id db.items) id (change item)
      (row-set_row_self change (λ i. refl) db.items id item e) refl (rw (← items) r) refl

-- A folder shortcut that its owner moves into itself is let through, and is its own parent then: no
-- chain of parents leads from it to the root.
pub move_shortcut_into_itself :
    (env : Env) (caller id target name : Text) (item : Item) (w : World) (db' : Db)
    → row w.db.items id ≡ some item
    → item.owner_id ≡ caller
    → item.deleted_at ≡ none
    → item.type ≡ folder
    → item.target_id ≡ some target
    → validate_name name ≡ ok tt
    → name_exists w.db item.owner_id (some id) (trim_space name) item.id ≡ false
    → update_name_parent id (trim_space name) (some id) w.now w.db ≡ ok db'
    → ((move env caller id (record { name = name; parent_id = some id }) w).0
        ≡ ok (renamed (trim_space name) (some id) w.now item))
      × (¬ Rooted
          (move env caller id (record { name = name; parent_id = some id }) w).1.db.items
          id)
unfolding move
move_shortcut_into_itself env caller id target name item w db' e own active isfolder link valid free
      made =
    let plan =
      prepare_self env w.db caller id target name item e own active isfolder link valid free in
    let (result, items) = committed id (trim_space name) item w db' made in
    (
      rw plan result,
      λ r. self_lost id (trim_space name) item w.now w.db db' e made (rw (plan, items) at r),
    )
