-- ===== src/Items/Access.antt =====
-- Who may read and who may write an item: Get, GetIncludingTrashed, ResolveContentItem, CanEdit,
-- GetForWrite, getReadable, GetForShare, ValidateFolder and CheckQuota of internal/service/item.go.
pub mod Exact
use denizen.Prelude.{
  Bool, true, false, ◌&&◌, ◌||◌, not, Option, none, some, Text, ◌==◌, text_eq, if◌then◌else◌,
}
use denizen.Prelude.Int.{ℤ, ◌+ℤ◌, wrap64, lt_int}
use denizen.Model.{
  Item, is_folder, User, UserShare, is_edit, Db, not_found, forbidden, validation, quota_exceeded,
  disk_full, is_null,
}
use denizen.Result.{Result, ok, err, ◌>>=◌, ◌>>◌, fail_if, no_row_as}
use denizen.Repo.Items.{get_by_id, is_active}
use denizen.Repo.Users as Users
use denizen.Items.Walk.{resolve_grant}

-- Get
unfoldable pub get : Db → Text → Text → Result Item
get db owner_id id = do
  item ← no_row_as not_found (get_by_id db id)
  fail_if (not (item.owner_id == owner_id) || not (is_active item)) not_found
  ok item

-- What a read does with the grant: with none there is no such item.
abbrev pub seen : Item → Option UserShare → Result Item
seen item none = err not_found
seen item (some grant) = ok item

-- GetIncludingTrashed
unfoldable pub get_including_trashed : Db → Text → Text → Result Item
get_including_trashed db caller id = do
  item ← no_row_as not_found (get_by_id db id)
  if item.owner_id == caller then ok item else do
    fail_if (not (is_active item)) not_found
    grant ← resolve_grant db item caller
    seen item grant

-- ResolveContentItem
unfoldable pub resolve_content_item : Db → Text → Text → Result Item
unfolding get_including_trashed
resolve_content_item db caller id = do
  item ← get_including_trashed db caller id
  elim item.target_id [ none ↦ ok item | some target ↦ get_including_trashed db caller target ]

abbrev may_edit : Option UserShare → Bool
may_edit none = false
may_edit (some grant) = is_edit grant.permission

-- CanEdit
unfoldable pub can_edit : Db → Text → Item → Result Bool
can_edit db caller item =
    if item.owner_id == caller
    then ok true
    else do grant ← resolve_grant db item caller; ok (may_edit grant)

-- What a write does with the grant: one to view is not enough.
abbrev pub editable : Item → Option UserShare → Result Item
editable item none = err not_found
editable item (some grant) = if is_edit grant.permission then ok item else err forbidden

-- GetForWrite
unfoldable pub get_for_write : Db → Text → Text → Result Item
get_for_write db caller id = do
  item ← no_row_as not_found (get_by_id db id)
  fail_if (not (is_active item)) not_found
  if item.owner_id == caller
      then ok item
      else do grant ← resolve_grant db item caller; editable item grant

-- getReadable
unfoldable pub get_readable : Db → Text → Text → Result Item
get_readable db caller id = do
  item ← no_row_as not_found (get_by_id db id)
  fail_if (not (is_active item)) not_found
  if item.owner_id == caller
      then ok item
      else do grant ← resolve_grant db item caller; seen item grant

-- GetForShare
unfoldable pub get_for_share : Db → Text → Result Item
get_for_share db id = do
  item ← no_row_as not_found (get_by_id db id)
  fail_if (not (is_active item)) not_found
  ok item

-- ValidateFolder
unfoldable pub validate_folder : Db → Text → Option Text → Result Text
unfolding get_for_write
validate_folder db caller none = ok caller
validate_folder db caller (some parent_id) = do
  item ← get_for_write db caller parent_id
  fail_if (not (is_folder item.type)) (validation "parent is not a folder")
  ok item.owner_id

-- CheckQuota, with the free bytes of the disk
unfoldable pub check_quota : Db → ℤ → Text → ℤ → Result (Unit {0})
check_quota db free owner_id additional = do
  user ← Users.get_by_id db owner_id
  fail_if (lt_int user.quota_bytes (wrap64 (user.storage_used_bytes +ℤ additional))) quota_exceeded
  fail_if (lt_int free additional) disk_full
