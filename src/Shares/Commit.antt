-- ===== src/Shares/Commit.antt =====
-- internal/service/share.go and user_share.go, with their writes.
use denizen.Prelude.{Bool, Option, Text}
use denizen.Prelude.Int.{ℤ}
use denizen.Model.{Share, SharePermission, UserShare}
use denizen.Result.{ok}
use denizen.Exec.{pure, read, ◌>>=◌, ◌>>◌}
use denizen.Repo.Shares.{create, delete, create_grant, update_permission, delete_grant}
use denizen.Items.Access.{get}
use denizen.Shares.{
  check_revoke, validate_permission, check_grant, get_own_grant, name_of, GrantedShare,
}
use denizen.World.{Env, World, Service, exec_sql, exec_sql', new_id, new_opaque}

pub record CreateInput : Type 0 where
  pub item_id : Text
  pub requires_auth : Bool
  pub expires_at : Option ℤ

abbrev pub new_link : Env → Text → CreateInput → Text → ℤ → Text → Share
new_link env owner_id input raw now id = record {
  id = id;
  item_id = input.item_id;
  token_hash = env.sha256 raw;
  created_by = owner_id;
  requires_auth = input.requires_auth;
  expires_at = input.expires_at;
  created_at = now;
}

-- ShareService.Create
unfoldable pub create_link : Env → Text → CreateInput → Service (Share × Text)
unfolding get create
create_link env owner_id input = do
  item ← read (λ (w : World). get w.db owner_id input.item_id)
  raw ← new_opaque env
  id ← new_id env
  now ← read (λ (w : World). ok w.now)
  exec_sql (create (new_link env owner_id input raw now id))
  pure (new_link env owner_id input raw now id, raw)

-- ShareService.Revoke
unfoldable pub revoke_link : Text → Text → Service (Unit {0})
unfolding check_revoke delete
revoke_link owner_id id = do
  share ← read (λ (w : World). check_revoke w.db owner_id id)
  exec_sql' (delete id)

abbrev pub new_grant : Text → Text → Text → SharePermission → ℤ → Text → UserShare
new_grant owner_id item_id shared_with_id permission now id = record {
  id = id;
  item_id = item_id;
  owner_id = owner_id;
  shared_with_id = shared_with_id;
  permission = permission;
  created_at = now;
}

-- UserShareService.Create
unfoldable pub share_with : Env → Text → Text → Text → Text → Service GrantedShare
unfolding check_grant create_grant
share_with env owner_id item_id shared_with_id permission = do
  (level, target) ←
      read (λ (w : World). check_grant w.db owner_id item_id shared_with_id permission)
  id ← new_id env
  now ← read (λ (w : World). ok w.now)
  exec_sql (create_grant (new_grant owner_id item_id shared_with_id level now id))
  pure (record {
    grant = new_grant owner_id item_id shared_with_id level now id;
    shared_with_username = target.username;
  })

-- UserShareService.UpdatePermission
unfoldable pub change_permission : Text → Text → Text → Service GrantedShare
unfolding validate_permission get_own_grant update_permission name_of
change_permission owner_id id permission = do
  level ← read (λ (w : World). validate_permission permission)
  grant ← read (λ (w : World). get_own_grant w.db owner_id id)
  exec_sql' (update_permission id level)
  name ← read (λ (w : World). ok (name_of w.db grant.shared_with_id))
  pure (record { grant = record grant { permission = level }; shared_with_username = name })

-- UserShareService.Revoke
unfoldable pub revoke_grant : Text → Text → Service (Unit {0})
unfolding get_own_grant delete_grant
revoke_grant owner_id id = do
  grant ← read (λ (w : World). get_own_grant w.db owner_id id)
  exec_sql' (delete_grant id)
