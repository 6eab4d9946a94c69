-- ===== src/Items/Trash/Sound/Whole.antt =====
-- Delete, Restore, PermanentlyDelete and PurgeExpiredTrash keep the invariant of the table `items`.
use denizen.Prelude.{
  ◌≡◌, refl, ◌∙◌, sym, not, Option, none, some, List, [], ◌∷◌, arith, Text, text_eq, select,
  Option-cases, inl, inr, ◌⊎◌,
}
use denizen.Prelude.Int.{ℤ, ◌-ℤ◌}
use denizen.Model.{Item, Db}
use denizen.Result.{Result, ok, err, Result-cases}
use denizen.Storage.{FilePath}
use denizen.Repo.Items.{row, get_by_id, set_row, restore, restored, list_trashed_before}
use denizen.Items.Walk.{steps}
use denizen.Items.Names.{unique_name}
use denizen.Items.Names.Laws.{unique_name-IsSafe}
use denizen.Items.Forest.{top}
use denizen.Items.Sound.{IsSound}
use denizen.Items.Sound.Kept.{
  IsSound-set_row, Rooted-set_row, Rooted-set_row_same, row-set_row_self,
}
use denizen.Items.Trash.{
  RestorePlan, prepare_delete, get_trashed, restore_parent, prepare_restore, prepare_purge, lies_in,
}
use denizen.Items.Trash.Commit.{
  mark_from, unmark_from, rename_pair, rename_pair_back, trash_item, delete, put_row_back, put_back,
  restore_item, permanently_delete,
}
use denizen.Items.Trash.Purge.{Sweep, count_result, purge_each, purge_expired_trash}
use denizen.Items.Trash.Sound.{
  HasSoundItems, updated_items, mark_from-Keeps, unmark_from-Keeps, purge_from-Keeps,
}
use denizen.Storage.Disk as Disk
use denizen.Exec.Keeps.{Keeps, Keeps->>=, Keeps-on_error, on_ok-ensures}
use denizen.Exec.{pure}
use denizen.World.{Env, World}

rename_pair_back-keeps :
    (paths : Option (FilePath × FilePath)) (w : World)
    → HasSoundItems w
    → HasSoundItems (rename_pair_back paths w)
rename_pair_back-keeps none w sound = sound
rename_pair_back-keeps (some (old_path, new_path)) w sound = sound

trash_item-Keeps :
    (item : Item) (paths : Option (FilePath × FilePath))
    → Keeps HasSoundItems (trash_item item paths)
unfolding trash_item
trash_item-Keeps item none w sound =
    Keeps-on_error HasSoundItems (mark_from (steps w.db.items) item.owner_id w.now item.id)
      (rename_pair_back none) (mark_from-Keeps (steps w.db.items) item.owner_id w.now item.id)
      (rename_pair_back-keeps none) w sound
trash_item-Keeps item (some (old_path, new_path)) w sound =
    elim (Result-cases (Disk.rename old_path new_path w.disk).0) [
      | inr failed ↦ rw failed.1 sound
      | inl done ↦ rw done.1 (
          Keeps-on_error HasSoundItems (mark_from (steps w.db.items) item.owner_id w.now item.id)
            (rename_pair_back (some (old_path, new_path)))
            (mark_from-Keeps (steps w.db.items) item.owner_id w.now item.id)
            (rename_pair_back-keeps (some (old_path, new_path)))
            (record w { disk = (Disk.rename old_path new_path w.disk).1 }) sound)
    ]

-- Delete keeps the invariant of the table `items`, whether it succeeds or fails.
pub delete-IsSound :
    (env : Env) (caller id : Text) (w : World)
    → IsSound w.db.items
    → IsSound (delete env caller id w).1.db.items
unfolding delete
delete-IsSound env caller id w sound = elim (Result-cases (prepare_delete env w.db caller id)) [
  | inr failed ↦ rw failed.1 sound
  | inl planned ↦ let ((item, paths), e) = planned in rw e (trash_item-Keeps item paths w sound)
]

-- The folder that an item comes back to is none, or the one that it was in, and stands in the table.
restore_parent-cases :
    (db : Db) (parent_id : Option Text)
    → (restore_parent db parent_id ≡ none) ⊎ (restore_parent db parent_id ≡ parent_id)
unfolding restore_parent
restore_parent-cases db none = inl refl
restore_parent-cases db (some p) = ground arith

record IsRestore (db : Db) (owner_id id : Text) (plan : RestorePlan) : Type 0 where
  found : row db.items id ≡ some plan.item
  parent : plan.parent_id ≡ restore_parent db plan.item.parent_id
  unique :
      unique_name db owner_id plan.parent_id plan.item.type plan.item.name plan.item.id
      ≡ ok plan.final_name

get_trashed-row :
    (db : Db) (owner_id id : Text) (item : Item)
    → get_trashed db owner_id id ≡ ok item
    → row db.items id ≡ some item
unfolding get_trashed get_by_id
get_trashed-row db owner_id id item h = ground arith

prepare_restore-IsRestore :
    (env : Env) (db : Db) (owner_id id : Text) (plan : RestorePlan)
    → prepare_restore env db owner_id id ≡ ok plan
    → IsRestore db owner_id id plan
unfolding prepare_restore
prepare_restore-IsRestore env db owner_id id plan h = record {
  found = get_trashed-row db owner_id id plan.item (ground arith);
  parent = ground arith;
  unique = ground arith;
}

restored-IsSound :
    (db db' : Db) (owner_id id : Text) (plan : RestorePlan) (now : ℤ)
    → IsRestore db owner_id id plan
    → IsSound db.items
    → restore id plan.final_name plan.parent_id now db ≡ ok db'
    → IsSound db'.items
unfolding restore
restored-IsSound db db' owner_id id plan now h sound made =
    let change = restored plan.final_name plan.parent_id now in
    let item = plan.item in
    let item = plan.item in
    let same : db'.items ≡ set_row change id db.items =
      updated_items change id db db' item h.found made in
    rw same (
      IsSound-set_row change (λ i. refl) (λ i. refl) db.items id item h.found sound
        (λ y r. elim (restore_parent-cases db item.parent_id) [
          | inl gone ↦
              Rooted-set_row change (λ i. refl) db.items id
                (top (change item) (row-set_row_self change (λ i. refl) db.items id item h.found)
                  (h.parent ∙ gone))
                r
          | inr kept ↦
              Rooted-set_row_same change (λ i. refl) db.items id item h.found (h.parent ∙ kept) r
        ])
        (λ p q e f. elim (restore_parent-cases db item.parent_id) [
          | inl gone ↦ cc (h.parent)
          | inr kept ↦ sound.parents id p item q h.found (sym (h.parent ∙ kept) ∙ e) f
        ])
        (unique_name-IsSafe db owner_id plan.parent_id item.type item.name item.id plan.final_name
          h.unique (sound.names id item h.found)))

-- The last steps of a restore, from a state in which the row may be restored.
put_row_back_kept :
    (owner_id id : Text) (plan : RestorePlan) (w : World)
    → ((db' : Db)
        → restore id plan.final_name plan.parent_id w.now w.db ≡ ok db'
        → IsSound db'.items)
    → IsSound w.db.items
    → IsSound (put_row_back owner_id id plan w).1.db.items
unfolding put_row_back
put_row_back_kept owner_id id plan w h sound =
    elim (Result-cases (restore id plan.final_name plan.parent_id w.now w.db)) [
      | inr failed ↦ rw failed.1 (rename_pair_back-keeps plan.paths w sound)
      | inl made ↦ rw made.1 (
          Keeps->>= HasSoundItems (unmark_from (steps made.0.items) owner_id w.now plan.item.id)
            (λ _. pure (restored plan.final_name plan.parent_id w.now plan.item))
            (unmark_from-Keeps (steps made.0.items) owner_id w.now plan.item.id) (λ _ s p. p)
            (record w { db = made.0 }) (h made.0 made.1))
    ]

abbrev SameTables : World → World → Type 0
SameTables w s = (s.db ≡ w.db) × (s.now ≡ w.now)

rename_pair-SameTables :
    (paths : Option (FilePath × FilePath)) (w : World) → SameTables w (rename_pair paths w).1
rename_pair-SameTables none w = (refl, refl)
rename_pair-SameTables (some (old_path, new_path)) w = (refl, refl)

put_back_kept :
    (owner_id id : Text) (plan : RestorePlan) (w : World)
    → ((db' : Db)
        → restore id plan.final_name plan.parent_id w.now w.db ≡ ok db'
        → IsSound db'.items)
    → IsSound w.db.items
    → IsSound (put_back owner_id id plan w).1.db.items
unfolding put_back
put_back_kept owner_id id plan w h sound =
    on_ok-ensures (SameTables w) HasSoundItems (λ _. put_row_back owner_id id plan)
      (λ s same. rw same.0 sound)
      (λ _ s same.
        put_row_back_kept owner_id id plan s (λ db' made. h db' (rw (← same.0, ← same.1) made))
          (rw same.0 sound))
      (rename_pair plan.paths w) (rename_pair-SameTables plan.paths w)

-- Restore keeps the invariant of the table `items`, whether it succeeds or fails.
pub restore_item-IsSound :
    (env : Env) (owner_id id : Text) (w : World)
    → IsSound w.db.items
    → IsSound (restore_item env owner_id id w).1.db.items
unfolding restore_item
restore_item-IsSound env owner_id id w sound =
    elim (Result-cases (prepare_restore env w.db owner_id id)) [
      | inr failed ↦ rw failed.1 sound
      | inl planned ↦
          let plan = planned.0 in
          let h = prepare_restore-IsRestore env w.db owner_id id plan planned.1 in
          rw planned.1 (
            put_back_kept owner_id id plan w
              (λ db' made. restored-IsSound w.db db' owner_id id plan w.now h sound made) sound)
    ]

-- PermanentlyDelete keeps the invariant of the table `items`, whether it succeeds or fails.
pub permanently_delete-IsSound :
    (env : Env) (owner_id id : Text) (w : World)
    → IsSound w.db.items
    → IsSound (permanently_delete env owner_id id w).1.db.items
unfolding permanently_delete Disk.remove
permanently_delete-IsSound env owner_id id w sound =
    elim (Result-cases (prepare_purge env w.db owner_id id)) [
      | inr failed ↦ rw failed.1 sound
      | inl planned ↦
          let ((item, path), e) = planned in
          rw e (elim (Option-cases path) [
            | inl missing ↦
                rw missing (purge_from-Keeps (steps w.db.items) owner_id item.id w sound)
            | inr found ↦ rw found.1 (
                purge_from-Keeps (steps w.db.items) owner_id item.id
                  (record w { disk = Disk.remove_all found.0 w.disk }) sound)
          ])
    ]

after-count_result : (r : Result (Unit {0})) (s : Sweep) → (count_result r s).after ≡ s.after
unfolding count_result
after-count_result (ok _) s = refl
after-count_result (err e) s = refl

purge_each-IsSound :
    (env : Env) (items : List Item) (w : World)
    → IsSound w.db.items
    → IsSound (purge_each env items w).after.db.items
unfolding purge_each
purge_each-IsSound env [] w sound = sound
purge_each-IsSound env (i ∷ items) w sound =
    rw
      (after-count_result (permanently_delete env i.owner_id i.id w).0
        (purge_each env items (permanently_delete env i.owner_id i.id w).1))
      (purge_each-IsSound env items (permanently_delete env i.owner_id i.id w).1
        (permanently_delete-IsSound env i.owner_id i.id w sound))

-- PurgeExpiredTrash keeps the invariant of the table `items`, whatever errors it meets.
pub purge_expired_trash-IsSound :
    (env : Env) (retention : ℤ) (w : World)
    → IsSound w.db.items
    → IsSound (purge_expired_trash env retention w).after.db.items
unfolding purge_expired_trash
purge_expired_trash-IsSound env retention w sound =
    let expired = list_trashed_before w.db (w.now -ℤ retention) in
    purge_each-IsSound env (select (λ i. not (lies_in expired i)) expired) w sound
