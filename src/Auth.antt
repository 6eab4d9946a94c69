-- ===== src/Auth.antt =====
-- internal/service/auth.go: invites, registration, and the tokens of a session.
pub mod Check
pub mod Invites
pub mod Sessions
pub mod Bearer
use denizen.Prelude.{
  ℕ, Bool, true, false, ◌&&◌, ◌||◌, not, Option, none, some, [], Text, ◌==◌, text_eq, eqb, ltb,
  length, if◌then◌else◌,
}
use denizen.Prelude.Int.{ℤ, pos, ◌+ℤ◌, lt_int}
use denizen.Model.{User, Invite, RefreshToken, Db, Error, conflict, no_row, is_null}
use denizen.Result.{Result, ok, err}
use denizen.Exec.{Exec, pure, raise, read, ◌>>=◌, ◌>>◌}
use denizen.Auth.Check.{check_register, check_login, check_refresh, RegisterInput}
use denizen.Repo.Users.{
  create, get_by_id, count_all, create_invite, mark_used, create_token, get_by_hash, revoke,
}
use denizen.World.{Env, World, Service, exec_sql, exec_sql', quiet, new_id, new_opaque}

-- The code of a new invite, if there is no user yet.
-- EnsureBootstrapInvite
unfoldable pub ensure_bootstrap_invite : Env → ℤ → Service (Option Text)
unfolding count_all create_invite
ensure_bootstrap_invite env ttl w =
    if not (eqb (count_all w.db) 0) then pure none w else bootstrap w
  where
    bootstrap : Service (Option Text)
    bootstrap = do
      code ← new_id env
      id ← new_id env
      now ← read (λ (w : World). ok w.now)
      exec_sql (
          create_invite (record {
            id = id;
            code = code;
            created_by = [];
            grants_admin = true;
            quota_bytes = none;
            expires_at = now +ℤ ttl;
            used_at = none;
            used_by = none;
            created_at = now;
          }))
      pure (some code)

-- CreateInvite
unfoldable pub issue_invite : Env → Text → Option ℤ → ℤ → Service (Text × ℤ)
unfolding create_invite
issue_invite env created_by quota_bytes ttl = do
  code ← new_id env
  id ← new_id env
  now ← read (λ (w : World). ok w.now)
  exec_sql (
      create_invite (record {
        id = id;
        code = code;
        created_by = created_by;
        grants_admin = false;
        quota_bytes = quota_bytes;
        expires_at = now +ℤ ttl;
        used_at = none;
        used_by = none;
        created_at = now;
      }))
  pure (code, now +ℤ ttl)

abbrev pub quota_of : Env → Invite → ℤ
quota_of env invite = elim invite.quota_bytes [ none ↦ env.default_quota | some quota ↦ quota ]

abbrev pub new_user : Env → RegisterInput → Invite → Text → ℤ → Text → User
new_user env input invite hash now id = record {
  id = id;
  username = input.username;
  password_hash = hash;
  is_admin = invite.grants_admin;
  quota_bytes = quota_of env invite;
  storage_used_bytes = pos 0;
  disabled = false;
  created_at = now;
}

-- MarkUsed, as a step: whether the invite was still open
unfoldable pub redeem : Text → Text → ℤ → Service Bool
unfolding mark_used
redeem code user_id now w =
    let (open_still, db) = mark_used code user_id now w.db in (ok open_still, record w { db = db })

-- Register, once the account is there: the invite is taken, if it is still open.
unfoldable pub claim : Text → User → Service User
unfolding redeem
claim code user = do
  now ← read (λ (w : World). ok w.now)
  open_still ← redeem code user.id now
  if open_still then pure user else raise (conflict "invite code already used")

-- Register
unfoldable pub register : Env → RegisterInput → Service User
unfolding check_register create claim
register env input = do
  (invite, hash) ← read (λ (w : World). check_register env w.db w.now input)
  now ← read (λ (w : World). ok w.now)
  id ← new_id env
  exec_sql (create (new_user env input invite hash now id))
  claim invite.code (new_user env input invite hash now id)

-- Register where the step of another request runs between the creation of the user and MarkUsed
unfoldable pub register_beside : (World → World) → Env → RegisterInput → Service User
unfolding check_register create claim
register_beside other env input = do
  (invite, hash) ← read (λ (w : World). check_register env w.db w.now input)
  now ← read (λ (w : World). ok w.now)
  id ← new_id env
  exec_sql (create (new_user env input invite hash now id))
  quiet other
  claim invite.code (new_user env input invite hash now id)

pub record TokenPair : Type 0 where
  pub access_token : Text
  pub refresh_token : Text

abbrev pub new_token : Env → User → ℤ → Text → Text → RefreshToken
new_token env user now raw id = record {
  id = id;
  user_id = user.id;
  token_hash = env.sha256 raw;
  expires_at = now +ℤ env.refresh_ttl;
  revoked_at = none;
  created_at = now;
}

-- issueTokenPair
unfoldable pub issue_token_pair : Env → User → Service TokenPair
unfolding create_token
issue_token_pair env user = do
  access ← read (λ (w : World). env.access_token user.id user.is_admin w.now)
  raw ← new_opaque env
  now ← read (λ (w : World). ok w.now)
  id ← new_id env
  exec_sql (create_token (new_token env user now raw id))
  pure (record { access_token = access; refresh_token = raw })

-- Login
unfoldable pub login : Env → Text → Text → Service TokenPair
unfolding check_login issue_token_pair
login env username password = do
  user ← read (λ (w : World). check_login env w.db username password)
  issue_token_pair env user

-- Refresh
unfoldable pub refresh : Env → Text → Service TokenPair
unfolding check_refresh revoke get_by_id issue_token_pair
refresh env raw = do
  token ← read (λ (w : World). check_refresh env w.db w.now raw)
  now ← read (λ (w : World). ok w.now)
  exec_sql' (revoke token.id now)
  user ← read (λ (w : World). get_by_id w.db token.user_id)
  issue_token_pair env user

abbrev is_no_row : Error → Bool
is_no_row no_row = true
is_no_row _ = false

-- Logout
unfoldable pub logout : Env → Text → Service (Unit {0})
unfolding get_by_hash revoke
logout env raw w = elim (get_by_hash w.db (env.sha256 raw)) [
  | err e ↦ if is_no_row e then pure tt w else raise e w
  | ok token ↦
      if not (is_null token.revoked_at) then pure tt w else exec_sql' (revoke token.id w.now) w
]
