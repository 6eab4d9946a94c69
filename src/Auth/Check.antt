-- ===== src/Auth/Check.antt =====
-- What Register, Login and Refresh of internal/service/auth.go check before they write.
use denizen.Prelude.{◌||◌, not, Text, text_eq, ltb, length}
use denizen.Prelude.Int.{ℤ, lt_int}
use denizen.Model.{
  User, Invite, RefreshToken, Db, validation, conflict, unauthorized, forbidden, no_row, is_null,
}
use denizen.Result.{Result, ok, err, ◌>>=◌, ◌>>◌, fail_if, no_row_as}
use denizen.Repo.Users.{get_by_username, get_by_code, get_by_hash}
use denizen.World.{Env}

pub record RegisterInput : Type 0 where
  pub invite_code : Text
  pub username : Text
  pub password : Text

-- `repository.ErrNotFound` is no error here, and a row that is found is a conflict.
abbrev check_free : Result User → Result (Unit {0})
check_free (err no_row) = ok tt
check_free (err e) = err e
check_free (ok user) = err (conflict "username already taken")

-- Register, up to its first write: the invite, and the hash of the password
unfoldable pub check_register : Env → Db → ℤ → RegisterInput → Result (Invite × Text)
check_register env db now input = do
  fail_if (ltb (length input.username) 3) (validation "username must be at least 3 characters")
  fail_if (ltb (length input.password) 8) (validation "password must be at least 8 characters")
  invite ← no_row_as (validation "invalid invite code") (get_by_code db input.invite_code)
  fail_if (not (is_null invite.used_at)) (validation "invite code already used")
  fail_if (lt_int invite.expires_at now) (validation "invite code expired")
  check_free (get_by_username db input.username)
  hash ← env.bcrypt input.password
  ok (invite, hash)

-- Login, up to the tokens
unfoldable pub check_login : Env → Db → Text → Text → Result User
check_login env db username password = do
  user ← no_row_as unauthorized (get_by_username db username)
  fail_if user.disabled forbidden
  fail_if (not (env.bcrypt_matches user.password_hash password)) unauthorized
  ok user

-- Refresh, up to its first write
unfoldable pub check_refresh : Env → Db → ℤ → Text → Result RefreshToken
check_refresh env db now raw = do
  token ← no_row_as unauthorized (get_by_hash db (env.sha256 raw))
  fail_if (not (is_null token.revoked_at) || lt_int token.expires_at now) unauthorized
  ok token
