-- ===== src/Items/Lists.antt =====
-- What a user sees: ListRecent, AddFavorite, RemoveFavorite, ListFavorites and ListChildren of
-- internal/service/item.go.
pub mod Star
pub mod Visible
use denizen.Prelude.{
  Bool, true, false, not, Option, none, some, List, [], ◌∷◌, Text, ◌==◌, text_eq, if◌then◌else◌,
}
use denizen.Model.{Item, is_folder, Favorite, Db, validation, not_found, is_null}
use denizen.Result.{Result, ok, err, ◌>>=◌, ◌>>◌, fail_if}
use denizen.Repo.Items as Repo
use denizen.Repo.Items.{row, is_active}
use denizen.Repo.Shares.{list_favorite_ids}
use denizen.Items.Walk.{resolve_grant}
use denizen.Items.Access.{get_including_trashed, can_edit}

-- ListRecent, with searchResultLimit
unfoldable pub list_recent : Db → Text → List Item
list_recent db caller = Repo.list_recent_files db caller 50

-- A favorite that the caller still reaches: the body of the loop of ListFavorites.
unfoldable pub reachable : Db → Text → Text → Result (Option Item)
reachable db caller id = elim (row db.items id) [
  | none ↦ ok none
  | some item ↦
      if not (is_active item)
      then ok none
      else if item.owner_id == caller
      then ok (some item)
      else do grant ← resolve_grant db item caller; ok (if is_null grant then none else some item)
]

abbrev append_some : Option Item → List Item → List Item
append_some none items = items
append_some (some item) items = item ∷ items

-- The loop of ListFavorites
unfoldable pub reachable_of : Db → Text → List Text → Result (List Item)
unfolding reachable
reachable_of db caller [] = ok []
reachable_of db caller (id ∷ ids) = do
  found ← reachable db caller id
  rest ← reachable_of db caller ids
  ok (append_some found rest)

-- ListFavorites
unfoldable pub list_favorites : Db → Text → Result (List Item)
unfolding reachable_of list_favorite_ids
list_favorites db caller = reachable_of db caller (list_favorite_ids db caller)

-- ListChildren of the service: the children, and whether the caller may change the folder
unfoldable pub list_folder : Db → Text → Option Text → Result (List Item × Bool)
unfolding get_including_trashed can_edit
list_folder db caller none = ok (Repo.list_children db caller none, true)
list_folder db caller (some parent_id) = do
  parent ← get_including_trashed db caller parent_id
  fail_if (not (is_folder parent.type)) (validation "not a folder")
  fail_if (not (is_active parent)) not_found
  may ← can_edit db caller parent
  ok (Repo.list_children db parent.owner_id (some parent_id), may)
