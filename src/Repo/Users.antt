-- ===== src/Repo/Users.antt =====
-- internal/repository/user.go, invite.go and refresh_token.go.
use denizen.Prelude.{
  ℕ, Bool, true, ◌&&◌, ◌||◌, Option, none, some, List, [], ◌∷◌, map, Text, ◌==◌, text_eq, find, any,
  length, if◌then◌else◌,
}
use denizen.Prelude.Int.{ℤ, ◌+ℤ◌, wrap64}
use denizen.Model.{User, Invite, RefreshToken, Db, constraint, is_null}
use denizen.Result.{Result, ok, err, one_row}

-- UserRepository.Create
unfoldable pub create : User → Db → Result Db
create user db =
    if any (λ (u : User). u.id == user.id || u.username == user.username) db.users
    then err constraint
    else ok (record db { users = user ∷ db.users })

-- UserRepository.GetByUsername
unfoldable pub get_by_username : Db → Text → Result User
get_by_username db username = one_row (find (λ (u : User). u.username == username) db.users)

-- UserRepository.GetByID
unfoldable pub get_by_id : Db → Text → Result User
get_by_id db id = one_row (find (λ (u : User). u.id == id) db.users)

-- UserRepository.CountAll
unfoldable pub count_all : Db → ℕ
count_all db = length db.users

set_user : (User → User) → Text → List User → List User
set_user change id = map (λ u. if u.id == id then change u else u)

-- UserRepository.IncrementStorageUsed. Of a sum that leaves int64 SQLite makes a REAL; here it wraps.
unfoldable pub increment_storage_used : Text → ℤ → Db → Db
unfolding set_user
increment_storage_used id delta db = record db {
  users =
      set_user (λ u. record u { storage_used_bytes = wrap64 (u.storage_used_bytes +ℤ delta) }) id
        db.users;
}

-- UserRepository.UpdateQuotaAndDisabled
unfoldable pub update_quota_and_disabled : Text → ℤ → Bool → Db → Db
unfolding set_user
update_quota_and_disabled id quota_bytes disabled db = record db {
  users = set_user (λ u. record u { quota_bytes = quota_bytes; disabled = disabled }) id db.users;
}

abbrev user_exists : Db → Option Text → Bool
user_exists db none = true
user_exists db (some id) = any (λ (u : User). u.id == id) db.users

-- InviteRepository.Create: an empty `created_by` becomes NULL.
unfoldable pub create_invite : Invite → Db → Result Db
create_invite invite db =
    if any (λ (i : Invite). i.id == invite.id || i.code == invite.code) db.invites
    then err constraint
    else if user_exists db (if invite.created_by == [] then none else some invite.created_by)
    then ok (record db { invites = invite ∷ db.invites })
    else err constraint

-- InviteRepository.GetByCode
unfoldable pub get_by_code : Db → Text → Result Invite
get_by_code db code = one_row (find (λ (i : Invite). i.code == code) db.invites)

abbrev pub is_open : Text → Invite → Bool
is_open code invite = invite.code == code && is_null invite.used_at

-- InviteRepository.MarkUsed: whether there was an open invite with that code.
unfoldable pub mark_used : Text → Text → ℤ → Db → Bool × Db
mark_used code user_id used_at db = (
  any (is_open code) db.invites,
  record db {
    invites =
        map
          (λ (i : Invite).
            if is_open code i
            then record i { used_at = some used_at; used_by = some user_id }
            else i)
          db.invites;
  },
)

-- RefreshTokenRepository.Create
unfoldable pub create_token : RefreshToken → Db → Result Db
create_token t db =
    if any (λ (r : RefreshToken). r.id == t.id) db.refresh_tokens
    then err constraint
    else if user_exists db (some t.user_id)
    then ok (record db { refresh_tokens = t ∷ db.refresh_tokens })
    else err constraint

-- RefreshTokenRepository.GetByHash
unfoldable pub get_by_hash : Db → Text → Result RefreshToken
get_by_hash db hash = one_row (find (λ (t : RefreshToken). t.token_hash == hash) db.refresh_tokens)

-- RefreshTokenRepository.Revoke
unfoldable pub revoke : Text → ℤ → Db → Db
revoke id revoked_at db = record db {
  refresh_tokens =
      map
        (λ (t : RefreshToken). if t.id == id then record t { revoked_at = some revoked_at } else t)
        db.refresh_tokens;
}
