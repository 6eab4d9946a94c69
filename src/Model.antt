-- ===== src/Model.antt =====
-- The rows of internal/model/model.go and internal/apperr/apperr.go, and the tables that hold them.
-- A nullable column is an `Option`; an int64 is an `ℤ`; a Go string is the list of its bytes.
use denizen.Prelude.{ℕ, String, Bool, true, false, Option, none, some, List, [], Text}
use denizen.Prelude.Int.{ℤ}

pub record User : Type 0 where
  pub id : Text
  pub username : Text
  pub password_hash : Text
  pub is_admin : Bool
  pub quota_bytes : ℤ
  pub storage_used_bytes : ℤ
  pub disabled : Bool
  pub created_at : ℤ

pub record Invite : Type 0 where
  pub id : Text
  pub code : Text
  pub created_by : Text
  pub grants_admin : Bool
  pub quota_bytes : Option ℤ
  pub expires_at : ℤ
  pub used_at : Option ℤ
  pub used_by : Option Text
  pub created_at : ℤ

pub record RefreshToken : Type 0 where
  pub id : Text
  pub user_id : Text
  pub token_hash : Text
  pub expires_at : ℤ
  pub revoked_at : Option ℤ
  pub created_at : ℤ

pub data ItemType : Type 0 where
  file folder : ItemType

abbrev pub is_folder : ItemType → Bool
is_folder folder = true
is_folder file = false

pub record Item : Type 0 where
  pub id : Text
  pub owner_id : Text
  pub parent_id : Option Text
  pub name : Text
  pub type : ItemType
  pub size_bytes : ℤ
  pub mime_type : Option Text
  pub checksum : Option Text
  pub target_id : Option Text
  pub deleted_at : Option ℤ
  pub created_at : ℤ
  pub updated_at : ℤ

pub record Share : Type 0 where
  pub id : Text
  pub item_id : Text
  pub token_hash : Text
  pub created_by : Text
  pub requires_auth : Bool
  pub expires_at : Option ℤ
  pub created_at : ℤ

pub data SharePermission : Type 0 where
  view edit : SharePermission

abbrev pub is_edit : SharePermission → Bool
is_edit edit = true
is_edit view = false

pub record UserShare : Type 0 where
  pub id : Text
  pub item_id : Text
  pub owner_id : Text
  pub shared_with_id : Text
  pub permission : SharePermission
  pub created_at : ℤ

pub record Favorite : Type 0 where
  pub id : Text
  pub item_id : Text
  pub user_id : Text
  pub created_at : ℤ

-- A row of the search index: item_content_fts.
pub record Indexed : Type 0 where
  pub item_id : Text
  pub content : Text

-- A row of ocr_queue or of ocr_attempts: an item and a time.
pub record Stamp : Type 0 where
  pub item_id : Text
  pub at : ℤ

-- The tables of internal/db/migrations.
pub record Db : Type 0 where
  pub users : List User
  pub invites : List Invite
  pub refresh_tokens : List RefreshToken
  pub items : List Item
  pub shares : List Share
  pub grants : List UserShare
  pub favorites : List Favorite
  pub index : List Indexed
  pub ocr_queue : List Stamp
  pub ocr_attempts : List Stamp

abbrev pub empty_db : Db
empty_db = record {
  users = [];
  invites = [];
  refresh_tokens = [];
  items = [];
  shares = [];
  grants = [];
  favorites = [];
  index = [];
  ocr_queue = [];
  ocr_attempts = [];
}

-- The errors that a service returns: the values of apperr, `repository.ErrNotFound`, a constraint
-- that SQLite reports, an error of the file system, and the stack that runs out in a loop or a
-- recursion with no end.
pub data Error : Type 0 where
  validation conflict : String → Error
  unauthorized forbidden not_found internal quota_exceeded disk_full : Error
  no_row constraint io_error diverges : Error

-- httpio.WriteError: an error that is no *apperr.Error becomes a 500.
unfoldable pub status : Error → ℕ
status (validation _) = 400
status (conflict _) = 409
status unauthorized = 401
status forbidden = 403
status not_found = 404
status internal = 500
status quota_exceeded = 413
status disk_full = 507
status _ = 500

abbrev pub is_null {ℓ} : {A : Type ℓ} → Option A → Bool
is_null none = true
is_null (some _) = false
