-- ===== src/Repo/Shares.antt =====
-- internal/repository/share.go, user_share.go and favorite.go.
use denizen.Prelude.{
  Bool, ◌&&◌, ◌||◌, not, Option, List, ◌∷◌, map, Text, ◌==◌, text_eq, contains, find, select, any,
  if◌then◌else◌,
}
use denizen.Prelude.Int.{lt_int}
use denizen.Model.{Share, SharePermission, UserShare, Favorite, Db, constraint}
use denizen.Result.{Result, ok, err, one_row}
use denizen.Repo.Items.{order_by, has_id, owner_exists}

-- ShareRepository.Create
unfoldable pub create : Share → Db → Result Db
create share db =
    if any (λ (s : Share). s.id == share.id || s.token_hash == share.token_hash) db.shares
    then err constraint
    else if any (has_id share.item_id) db.items && owner_exists db share.created_by
    then ok (record db { shares = share ∷ db.shares })
    else err constraint

-- ShareRepository.GetByID
unfoldable pub get_by_id : Db → Text → Result Share
get_by_id db id = one_row (find (λ (s : Share). s.id == id) db.shares)

-- ShareRepository.GetByTokenHash
unfoldable pub get_by_token_hash : Db → Text → Result Share
get_by_token_hash db hash = one_row (find (λ (s : Share). s.token_hash == hash) db.shares)

-- ShareRepository.ListByOwner
unfoldable pub list_by_owner : Db → Text → List Share
unfolding order_by
list_by_owner db owner_id =
    order_by (λ (a b : Share). lt_int b.created_at a.created_at)
      (select (λ (s : Share). s.created_by == owner_id) db.shares)

-- ShareRepository.Delete
unfoldable pub delete : Text → Db → Db
delete id db = record db { shares = select (λ (s : Share). not (s.id == id)) db.shares }

-- UserShareRepository.Create
unfoldable pub create_grant : UserShare → Db → Result Db
create_grant grant db =
    if any
      (λ (g : UserShare).
        g.id == grant.id || g.item_id == grant.item_id && g.shared_with_id == grant.shared_with_id)
      db.grants
    then err constraint
    else if any (has_id grant.item_id) db.items
        && owner_exists db grant.owner_id
        && owner_exists db grant.shared_with_id
    then ok (record db { grants = grant ∷ db.grants })
    else err constraint

-- UserShareRepository.GetByID
unfoldable pub get_grant : Db → Text → Result UserShare
get_grant db id = one_row (find (λ (g : UserShare). g.id == id) db.grants)

abbrev pub grants_to : Text → Text → UserShare → Bool
grants_to item_id user_id g = g.item_id == item_id && g.shared_with_id == user_id

-- UserShareRepository.FindGrant, before `scanOne`
unfoldable pub find_grant : Db → Text → Text → Option UserShare
find_grant db item_id user_id = find (grants_to item_id user_id) db.grants

abbrev granted_first : UserShare → UserShare → Bool
granted_first a b = lt_int a.created_at b.created_at

-- UserShareRepository.ListByItem
unfoldable pub list_by_item : Db → Text → List UserShare
unfolding order_by
list_by_item db item_id =
    order_by granted_first (select (λ (g : UserShare). g.item_id == item_id) db.grants)

-- UserShareRepository.ListByItems
unfoldable pub list_by_items : Db → List Text → List UserShare
unfolding order_by
list_by_items db ids =
    order_by granted_first (select (λ (g : UserShare). contains ids g.item_id) db.grants)

-- UserShareRepository.ListByOwner
unfoldable pub list_grants_by_owner : Db → Text → List UserShare
unfolding order_by
list_grants_by_owner db owner_id =
    order_by (λ a b. granted_first b a)
      (select (λ (g : UserShare). g.owner_id == owner_id) db.grants)

-- UserShareRepository.ListReceivedBy
unfoldable pub list_received_by : Db → Text → List UserShare
unfolding order_by
list_received_by db user_id =
    order_by (λ a b. granted_first b a)
      (select (λ (g : UserShare). g.shared_with_id == user_id) db.grants)

-- UserShareRepository.UpdatePermission
unfoldable pub update_permission : Text → SharePermission → Db → Db
update_permission id permission db = record db {
  grants =
      map (λ (g : UserShare). if g.id == id then record g { permission = permission } else g)
        db.grants;
}

-- UserShareRepository.Delete
unfoldable pub delete_grant : Text → Db → Db
delete_grant id db = record db { grants = select (λ (g : UserShare). not (g.id == id)) db.grants }

abbrev pub is_favorite : Text → Text → Favorite → Bool
is_favorite item_id user_id f = f.item_id == item_id && f.user_id == user_id

-- FavoriteRepository.Add: INSERT OR IGNORE passes over a row that breaks uniqueness, not one whose
-- references are missing.
unfoldable pub add_favorite : Favorite → Db → Result Db
add_favorite fav db =
    if any (λ f. f.id == fav.id || is_favorite fav.item_id fav.user_id f) db.favorites
    then ok db
    else if any (has_id fav.item_id) db.items && owner_exists db fav.user_id
    then ok (record db { favorites = fav ∷ db.favorites })
    else err constraint

-- FavoriteRepository.Remove
unfoldable pub remove_favorite : Text → Text → Db → Db
remove_favorite item_id user_id db = record db {
  favorites = select (λ f. not (is_favorite item_id user_id f)) db.favorites;
}

-- FavoriteRepository.ListItemIDs
unfoldable pub list_favorite_ids : Db → Text → List Text
unfolding order_by
list_favorite_ids db user_id =
    map (λ (f : Favorite). f.item_id)
      (order_by (λ (a b : Favorite). lt_int b.created_at a.created_at)
        (select (λ (f : Favorite). f.user_id == user_id) db.favorites))

-- FavoriteRepository.FavoritedSet, as a test on ids
unfoldable pub favorited : Db → Text → List Text → Text → Bool
favorited db user_id ids id = contains ids id && any (is_favorite id user_id) db.favorites
