-- ===== src/Tests/Accounts.antt =====
-- The theorems on accounts, sessions, links and grants, on the small drive.
use denizen.Prelude.{
  ◌≡◌, ◌≢◌, ◌↔◌, refl, Bool, true, false, none, some, [], ◌∷◌, text, ◌==◌, text_eq, if◌then◌else◌,
}
use denizen.Prelude.Int.{pos, ◌+ℤ◌}
use denizen.Model.{
  no_row, UserShare, User, Share, edit, Item, Db, Error, unauthorized, forbidden, conflict,
}
use denizen.Result.{ok, err}
use denizen.Repo.Users.{
  create, get_by_username, get_by_id, get_by_code, get_by_hash, mark_used, create_token, revoke,
}
use denizen.Repo.Shares as Repo
use denizen.Repo.Items.{row}
use denizen.Repo.Items as Items
use denizen.Items.Access.{get, get_readable, get_for_write}
use denizen.Auth.Check.{RegisterInput, check_register, check_refresh}
use denizen.Auth.{
  TokenPair, new_user, new_token, register, register_beside, redeem, claim, issue_token_pair,
  refresh,
}
use denizen.Auth.Invites.{register_once, register_taken}
use denizen.Auth.Sessions.{refresh_once, refresh_of_disabled}
use denizen.Shares.{resolve, is_expired, check_grant, validate_permission, GrantedShare}
use denizen.Shares.Commit.{CreateInput, new_link, create_link, new_grant, share_with}
use denizen.Shares.Links.{resolve_iff, create_link-resolve}
use denizen.Shares.Revoked.{revoke_grant-resolve}
use denizen.Items.Walk.{resolve_grant, grant_from}
use denizen.Shares.{get_own_grant}
use denizen.Shares.Commit.{revoke_grant}
use denizen.Shares.Grants.{share_with-granted}
use denizen.Users.{UpdateInput}
use denizen.World.{World}
use denizen.Tests.{grant, db-IsSound, env, ann, note, invite, token, db, world}

abbrev carl : RegisterInput
carl = record { invite_code = text "code"; username = text "carl"; password = text "password" }

abbrev carl_user : User
carl_user = new_user env carl invite (b'$' ∷ text "password") (pos 50) (b'#' ∷ 0 ∷ [])

register_once_example :
    (e : Error) × (register env carl (register env carl world).1
      ≡ (err e, (register env carl world).1))
unfolding register check_register get_by_code get_by_username create claim redeem mark_used text_eq
register_once_example =
    register_once env carl world (register env carl world).1 carl_user refl carl
      (register env carl world).1 refl refl

-- Another registration takes the invite.
abbrev takes : World → World
takes w = (claim (text "code") ann w).1

register_taken_example :
    ((register_beside takes env carl world).0 ≡ err (conflict "invite code already used"))
    × (get_by_username db (text "carl") ≡ err no_row)
    × (get_by_id (register_beside takes env carl world).1.db (b'#' ∷ 0 ∷ []) ≡ ok carl_user)
    × (register_beside (λ v. v) env carl world ≡ register env carl world)
unfolding check_register get_by_code get_by_username get_by_id create claim redeem mark_used text_eq
register_taken_example =
    register_taken takes env carl world invite (b'$' ∷ text "password")
      (record db { users = carl_user ∷ db.users }) refl refl refl (λ id u e. e)

abbrev pair : TokenPair
pair = record { access_token = text "ann"; refresh_token = b'%' ∷ 0 ∷ [] }

refresh_once_example :
    refresh env (text "raw") (refresh env (text "raw") world).1
    ≡ (err unauthorized, (refresh env (text "raw") world).1)
unfolding refresh check_refresh get_by_hash get_by_id revoke issue_token_pair create_token text_eq
    ◌+ℤ◌
refresh_once_example =
    refresh_once env (text "raw") world (refresh env (text "raw") world).1 pair refl (λ e. cc)
      (refresh env (text "raw") world).1 refl

abbrev disabled_ann : User
disabled_ann = record ann { disabled = true }

abbrev disabled_world : World
disabled_world = record world { db = record db { users = disabled_ann ∷ [] } }

abbrev refreshed : Db
refreshed = record db {
  users = disabled_ann ∷ [];
  refresh_tokens =
      new_token env disabled_ann (pos 50) (b'%' ∷ 0 ∷ []) (b'#' ∷ 1 ∷ [])
      ∷ record token { revoked_at = some (pos 50) }
      ∷ [];
}

refresh_of_disabled_example : (refresh env (text "raw") disabled_world).0 ≡ ok pair
unfolding check_refresh get_by_hash get_by_id revoke create_token text_eq ◌+ℤ◌
refresh_of_disabled_example =
    refresh_of_disabled env (text "raw") disabled_world token disabled_ann (text "ann") refreshed
      refl refl refl refl refl

abbrev link_input : CreateInput
link_input = record { item_id = text "f"; requires_auth = true; expires_at = some (pos 60) }

abbrev share : Share
share = new_link env (text "ann") link_input (b'%' ∷ 0 ∷ []) (pos 50) (b'#' ∷ 1 ∷ [])

abbrev shared_db : Db
shared_db = record db { shares = share ∷ [] }

resolve_iff_example : (resolve env shared_db (pos 55) (b'%' ∷ 0 ∷ []) true ≡ ok (share, note)) ↔ (
    (Repo.get_by_token_hash shared_db (env.sha256 (b'%' ∷ 0 ∷ [])) ≡ ok share)
    × (is_expired (pos 55) share ≡ false)
    × ((share.requires_auth ≡ true) → true ≡ true)
    × (row shared_db.items share.item_id ≡ some note)
    × (note.deleted_at ≡ none))
resolve_iff_example = resolve_iff env shared_db (pos 55) (b'%' ∷ 0 ∷ []) true share note

create_link-resolve_example :
    (item : Item) × (row db.items (text "f") ≡ some item)
    × (item.owner_id ≡ text "ann")
    × ((authenticated : Bool)
        → (share.requires_auth ≡ true → authenticated ≡ true)
        → resolve env
            (create_link env (text "ann") link_input world).1.db
            (pos 50)
            (b'%' ∷ 0 ∷ [])
            authenticated
          ≡ ok (share, item))
unfolding create_link get Repo.create row text_eq Items.get_by_id
create_link-resolve_example =
    create_link-resolve env (text "ann") link_input world
      (create_link env (text "ann") link_input world).1 share (b'%' ∷ 0 ∷ []) refl refl

abbrev granted : GrantedShare
granted = record {
  grant = new_grant (text "ann") (text "f") (text "bob") edit (pos 50) (b'#' ∷ 0 ∷ []);
  shared_with_username = text "bob";
}

share_with-granted_example :
    (item : Item) × (row db.items (text "f") ≡ some item)
    × (item.owner_id ≡ text "ann")
    × (text "bob" ≢ text "ann")
    × (Repo.find_grant db (text "f") (text "bob") ≡ none)
    × (get_readable
          (share_with env (text "ann") (text "f") (text "bob") (text "edit") world).1.db
          (text "bob")
          (text "f")
        ≡ ok item)
    × (get_for_write
          (share_with env (text "ann") (text "f") (text "bob") (text "edit") world).1.db
          (text "bob")
          (text "f")
        ≡ (if text "edit" == text "edit" then ok item else err forbidden))
unfolding share_with check_grant validate_permission get get_by_id Repo.find_grant Repo.create_grant
    row text_eq Items.get_by_id
share_with-granted_example =
    share_with-granted env (text "ann") (text "f") (text "bob") (text "edit") world
      (share_with env (text "ann") (text "f") (text "bob") (text "edit") world).1 granted refl

abbrev stop_bob : UpdateInput
stop_bob = record { quota_bytes = some (pos 1); disabled = some true }

-- A second link to the file, and a second grant on it.
abbrev second_share : Share
second_share = record share { id = text "2"; token_hash = text "htwo" }

abbrev second_grant : UserShare
second_grant = new_grant (text "ann") (text "f") (text "bob") edit (pos 50) (text "2")

abbrev shared_world : World
shared_world = record world {
  db = record db { shares = share ∷ second_share ∷ []; grants = second_grant ∷ grant ∷ [] };
}

revoke_grant-resolve_example : grant.id ≢ second_grant.id
unfolding revoke_grant get_own_grant Repo.get_grant Repo.delete_grant resolve_grant grant_from
    Repo.find_grant row text_eq
revoke_grant-resolve_example =
    revoke_grant-resolve (text "ann") second_grant.id shared_world
      (revoke_grant (text "ann") second_grant.id shared_world).1 refl db-IsSound.forest (text "bob")
      (text "f") note grant refl refl
