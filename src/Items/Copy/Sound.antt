-- ===== src/Items/Copy/Sound.antt =====
-- Copy keeps the invariant of the table `items`, and no row that was there changes.
use denizen.Prelude.{
  ℕ, zero, suc, ◌≡◌, refl, ap, ◌∙◌, ◌⊎◌, inl, inr, arith, Option, none, some, List, [], ◌∷◌, Text,
  text_eq, All-select, All-imp,
}
use denizen.Model.{Item, ItemType, file, folder, Db}
use denizen.Result.{Result, ok, err, Result-cases}
use denizen.Exec.{on_ok}
use denizen.Storage.{FilePath, join}
use denizen.Storage.Laws.{IsSafe}
use denizen.Repo.Items.{row, get_by_id, list_children}
use denizen.Repo.Items.Laws.{All-order_by}
use denizen.Items.Walk.{steps}
use denizen.Items.Access.{get_readable, validate_folder}
use denizen.Items.Access.Exact.{validate_folder_sound}
use denizen.Items.Names.{unique_name}
use denizen.Items.Names.Laws.{unique_name-IsSafe}
use denizen.Items.Sound.{IsSound, HasKeys}
use denizen.Items.Create.{Place}
use denizen.Items.Create.Commit.{make_folder}
use denizen.Items.Create.Sound.{create_shortcut-IsSound}
use denizen.Items.Copy.Prepare.{prepare_copy}
use denizen.Items.Copy.{copy_each, copy_folder, place_for, copy_from, copy_real, copy_found, copy}
use denizen.Items.Copy.Rows.{
  HasSafeNames, IsCopied, HasFolder, same-IsCopied, IsCopied-trans, HasFolder-kept, Copies,
  copy_file-IsCopied, make_folder-IsCopied, ok-inj, make_folder-there,
}
use denizen.World.{Env, World, Service}

-- A step that has copied, and what follows it if it succeeds.
on_ok-IsCopied :
    {A B : Type 0} (f : A → Service B) (r : Result A × World) (before : List Item)
    → IsCopied before r.1.db.items
    → ((a : A)
        → r ≡ (ok a, r.1)
        → IsCopied before r.1.db.items
        → IsCopied r.1.db.items (f a r.1).1.db.items)
    → IsCopied before (on_ok r f).1.db.items
on_ok-IsCopied f (ok a, w) before c next = IsCopied-trans c (next a refl c)
on_ok-IsCopied f (err e, w) before c next = c

copy_each-IsCopied :
    (again : Item → Service Item) (parent_id : Option Text) (children : List Item)
    → ((child : Item) → IsSafe child.name → Copies parent_id (again child))
    → HasSafeNames children
    → Copies parent_id (copy_each again children)
unfolding copy_each
copy_each-IsCopied again parent_id [] each safe w sound names parent =
    same-IsCopied w.db.items _ refl sound names
copy_each-IsCopied again parent_id (child ∷ children) each safe w sound names parent =
    let first = each child safe.0 w sound names parent in
    on_ok-IsCopied (λ _. copy_each again children) (again child w) w.db.items first
      (λ _ _ c.
        copy_each-IsCopied again parent_id children each safe.1 _ c.sound c.names
          (HasFolder-kept c parent))

children-HasSafeNames :
    (db : Db) (owner_id : Text) (parent_id : Option Text)
    → HasSafeNames db.items
    → HasSafeNames (list_children db owner_id parent_id)
unfolding list_children
children-HasSafeNames db owner_id parent_id safe = All-order_by _ _ _ (All-select _ _ db.items safe)

copy_folder-IsCopied :
    (env : Env) (again : Item → Option Text → FilePath → Service Item) (item : Item)
    (parent_id : Option Text) (place : Place)
    → ((child : Item) (p : Option Text) (above : FilePath)
        → IsSafe child.name
        → Copies p (again child p above))
    → IsSafe place.name
    → Copies parent_id (copy_folder env again item parent_id place)
unfolding copy_folder
copy_folder-IsCopied env again item parent_id place each name w sound names parent =
    on_ok-IsCopied
      (λ new_item w'.
        on_ok
          (copy_each (λ child. again child (some new_item.id) (join place.folder place.name))
            (list_children w'.db item.owner_id (some item.id)) w')
          (λ _ w''. (ok new_item, w'')))
      (make_folder env parent_id place w) w.db.items
      (make_folder-IsCopied env parent_id place name w sound names parent)
      (λ new_item made c.
        let w' = (make_folder env parent_id place w).1 in
        on_ok-IsCopied (λ _ w''. (ok new_item, w''))
          (copy_each (λ child. again child (some new_item.id) (join place.folder place.name))
            (list_children w'.db item.owner_id (some item.id)) w')
          w'.db.items
          (copy_each-IsCopied
            (λ child. again child (some new_item.id) (join place.folder place.name))
            (some new_item.id) (list_children w'.db item.owner_id (some item.id))
            (λ child. each child (some new_item.id) (join place.folder place.name))
            (children-HasSafeNames w'.db item.owner_id (some item.id) c.names) w' c.sound c.names
            (make_folder-there env parent_id place w w' new_item made))
          (λ _ _ d. same-IsCopied _ _ refl d.sound d.names))

ItemType-cases : (t : ItemType) → (t ≡ folder) ⊎ (t ≡ file)
ItemType-cases folder = inl refl
ItemType-cases file = inr refl

place_for-free :
    (owner_id : Text) (above : FilePath) (item : Item) (parent_id : Option Text) (w : World)
    (place : Place)
    → place_for owner_id above item parent_id w ≡ ok place
    → unique_name w.db owner_id parent_id item.type item.name [] ≡ ok place.name
unfolding place_for
place_for-free owner_id above item parent_id w place h =
    elim (Result-cases (unique_name w.db owner_id parent_id item.type item.name [])) [
      | inl free ↦
          free.1
          ∙ ap (λ n. ok n) (ap (λ (p : Place). p.name) (ok-inj (rw (place_for, free.1) at h)))
      | inr taken ↦ cc (rw (place_for, taken.1) at h)
    ]

copy_from-IsCopied :
    (fuel : ℕ) (env : Env) (owner_id source_username : Text) (item : Item) (parent_id : Option Text)
    (above : FilePath)
    → IsSafe item.name
    → Copies parent_id (copy_from fuel env owner_id source_username item parent_id above)
unfolding copy_from
copy_from-IsCopied zero env owner_id source_username item parent_id above name w sound names
      parent =
    same-IsCopied w.db.items _ refl sound names
copy_from-IsCopied (suc fuel) env owner_id source_username item parent_id above name w sound names
      parent =
    elim (Result-cases (place_for owner_id above item parent_id w)) [
      | inr taken ↦ same-IsCopied w.db.items _ (rw (copy_from, taken.1)) sound names
      | inl found ↦
          let place = found.0 in
          let safe =
            unique_name-IsSafe w.db owner_id parent_id item.type item.name [] place.name
              (place_for-free owner_id above item parent_id w place found.1) name in
          elim (ItemType-cases item.type) [
            | inl isfolder ↦
                rw (copy_from, found.1, isfolder)
                  (copy_folder-IsCopied env (copy_from fuel env owner_id source_username) item
                    parent_id place
                    (λ child p above'.
                      copy_from-IsCopied fuel env owner_id source_username child p above')
                    safe w sound names parent)
            | inr isfile ↦
                rw (copy_from, found.1, isfile)
                  (copy_file-IsCopied env source_username item parent_id place safe w sound names
                    parent)
          ]
    ]

prepared_folder :
    (env : Env) (db : Db) (caller : Text) (item : Item) (parent_id : Option Text)
    (r : Text × Text × FilePath)
    → IsSound db.items
    → prepare_copy env db caller item parent_id ≡ ok r
    → HasFolder db.items parent_id
unfolding prepare_copy
prepared_folder env db caller item parent_id (owner_id, source_username, above) sound h p e =
    let checked : validate_folder db caller parent_id ≡ ok owner_id = ground arith in
    let (q, there, isfolder, _, _) =
      validate_folder_sound db caller p owner_id sound.forest (rw (← e) checked) in
    (q, there, isfolder)

HasSafeNames-of_HasKeys : (items : List Item) → IsSound items → HasKeys items → HasSafeNames items
HasSafeNames-of_HasKeys items sound keys = All-imp _ _ items (λ i e. sound.names i.id i e) keys

-- Copy of an item of the table that is no shortcut, into any folder: whether it succeeds or fails, even
-- in the middle of a folder, the items are still a forest, and each row that was there is there as it
-- was. This is if the rows have different ids.
pub copy_real-IsCopied :
    (env : Env) (caller id : Text) (item : Item) (parent_id : Option Text) (w : World)
    → IsSound w.db.items
    → HasKeys w.db.items
    → row w.db.items id ≡ some item
    → IsCopied w.db.items (copy_real env caller item parent_id w).1.db.items
unfolding copy_real
copy_real-IsCopied env caller id item parent_id w sound keys there =
    let names = HasSafeNames-of_HasKeys w.db.items sound keys in
    elim (Result-cases (prepare_copy env w.db caller item parent_id)) [
      | inr failed ↦ same-IsCopied w.db.items _ (rw failed.1) sound names
      | inl planned ↦
          let ((owner_id, source_username, above), e) = planned in
          rw e (
            copy_from-IsCopied (steps w.db.items) env owner_id source_username item parent_id above
              (sound.names id item there) w sound names
              (prepared_folder env w.db caller item parent_id (owner_id, source_username, above)
                sound e))
    ]

readable_row :
    (db : Db) (caller id : Text) (item : Item)
    → get_readable db caller id ≡ ok item
    → row db.items id ≡ some item
unfolding get_readable get_by_id
readable_row db caller id item h = ground arith

copy_found-IsSound :
    (env : Env) (caller id : Text) (item : Item) (parent_id target_id : Option Text) (w : World)
    → IsSound w.db.items
    → HasKeys w.db.items
    → row w.db.items id ≡ some item
    → IsSound (copy_found env caller item parent_id target_id w).1.db.items
unfolding copy_found
copy_found-IsSound env caller id item parent_id none w sound keys there =
    (copy_real-IsCopied env caller id item parent_id w sound keys there).sound
copy_found-IsSound env caller id item parent_id (some target_id) w sound keys there =
    create_shortcut-IsSound env caller target_id parent_id w sound

-- Copy keeps the invariant of the table `items`, whether it succeeds or fails, if the rows have
-- different ids.
pub copy-IsSound :
    (env : Env) (caller id : Text) (parent_id : Option Text) (w : World)
    → IsSound w.db.items
    → HasKeys w.db.items
    → IsSound (copy env caller id parent_id w).1.db.items
unfolding copy
copy-IsSound env caller id parent_id w sound keys =
    elim (Result-cases (get_readable w.db caller id)) [
      | inr failed ↦ rw failed.1 sound
      | inl found ↦ rw found.1 (
          copy_found-IsSound env caller id found.0 parent_id found.0.target_id w sound keys
            (readable_row w.db caller id found.0 found.1))
    ]
