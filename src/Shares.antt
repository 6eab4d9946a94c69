-- ===== src/Shares.antt =====
-- internal/service/share.go and user_share.go, up to their writes: what a link or a grant must meet.
pub mod Commit
pub mod Links
pub mod Grants
pub mod Revoked
use denizen.Prelude.{
  Bool, true, false, ◌&&◌, ◌||◌, not, Option, none, some, List, [], ◌∷◌, map, Text, text, ◌==◌,
  text_eq, if◌then◌else◌,
}
use denizen.Prelude.Int.{ℤ, lt_int}
use denizen.Model.{
  Item, User, Share, SharePermission, view, edit, UserShare, Db, not_found, unauthorized,
  validation, conflict, is_null,
}
use denizen.Result.{Result, ok, err, ◌>>=◌, ◌>>◌, fail_if, no_row_as}
use denizen.Repo.Users as Users
use denizen.Repo.Shares.{
  get_by_id, get_by_token_hash, list_by_owner, get_grant, find_grant, list_by_item,
  list_grants_by_owner, list_received_by,
}
use denizen.Items.Access.{get, get_for_share}
use denizen.World.{Env}

-- ShareService.Revoke, up to its write
unfoldable pub check_revoke : Db → Text → Text → Result Share
unfolding get_by_id
check_revoke db owner_id id = do
  share ← no_row_as not_found (get_by_id db id)
  fail_if (not (share.created_by == owner_id)) not_found
  ok share

abbrev pub is_expired : ℤ → Share → Bool
is_expired now share = elim share.expires_at [ none ↦ false | some t ↦ lt_int t now ]

-- ShareService.Resolve
unfoldable pub resolve : Env → Db → ℤ → Text → Bool → Result (Share × Item)
unfolding get_by_token_hash get_for_share
resolve env db now raw authenticated = do
  share ← no_row_as not_found (get_by_token_hash db (env.sha256 raw))
  fail_if (is_expired now share) not_found
  fail_if (share.requires_auth && not authenticated) unauthorized
  item ← get_for_share db share.item_id
  ok (share, item)

-- ShareService.ListMine
unfoldable pub list_links : Db → Text → List Share
unfolding list_by_owner
list_links db owner_id = list_by_owner db owner_id

-- ValidatePermission, and the permission that the text stands for
unfoldable pub validate_permission : Text → Result SharePermission
validate_permission permission =
    if permission == text "view"
    then ok view
    else if permission == text "edit"
    then ok edit
    else err (validation "permission must be \"view\" or \"edit\"")

abbrev check_new : Option UserShare → Result (Unit {0})
check_new none = ok tt
check_new (some grant) = err (conflict "already shared with this person")

-- UserShareService.Create, up to its write: the permission, and who gets the grant
unfoldable pub check_grant : Db → Text → Text → Text → Text → Result (SharePermission × User)
unfolding validate_permission get find_grant
check_grant db owner_id item_id shared_with_id permission = do
  level ← validate_permission permission
  item ← get db owner_id item_id
  fail_if (shared_with_id == owner_id) (validation "cannot share an item with yourself")
  target ← no_row_as (validation "that person doesn't exist") (Users.get_by_id db shared_with_id)
  fail_if target.disabled (validation "that account is disabled")
  check_new (find_grant db item_id shared_with_id)
  ok (level, target)

-- The grant that its owner, who alone may change or revoke it, refers to.
unfoldable pub get_own_grant : Db → Text → Text → Result UserShare
unfolding get_grant
get_own_grant db owner_id id = do
  grant ← no_row_as not_found (get_grant db id)
  fail_if (not (grant.owner_id == owner_id)) not_found
  ok grant

-- The name beside a grant: "?" for a user that is not found.
unfoldable pub name_of : Db → Text → Text
name_of db id = elim (Users.get_by_id db id) [ ok user ↦ user.username | err e ↦ text "?" ]

pub record GrantedShare : Type 0 where
  pub grant : UserShare
  pub shared_with_username : Text

-- withUsernames
unfoldable pub with_usernames : Db → List UserShare → List GrantedShare
unfolding name_of
with_usernames db grants =
    map (λ g. record { grant = g; shared_with_username = name_of db g.shared_with_id }) grants

-- ListForItem
unfoldable pub list_for_item : Db → Text → Text → Result (List GrantedShare)
unfolding get list_by_item with_usernames
list_for_item db owner_id item_id = do
  item ← get db owner_id item_id
  ok (with_usernames db (list_by_item db item_id))

-- UserShareService.ListMine
unfoldable pub list_mine : Db → Text → List GrantedShare
unfolding list_grants_by_owner with_usernames
list_mine db owner_id = with_usernames db (list_grants_by_owner db owner_id)

pub record ReceivedShare : Type 0 where
  pub grant : UserShare
  pub owner_username : Text

-- ListReceived
unfoldable pub list_received : Db → Text → List ReceivedShare
unfolding list_received_by name_of
list_received db user_id =
    map (λ g. record { grant = g; owner_username = name_of db g.owner_id })
      (list_received_by db user_id)
