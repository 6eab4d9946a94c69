-- ===== src/Shares/Revoked.antt =====
-- What is left of a link or a grant that its owner has revoked.
use denizen.Prelude.{
  ◌≡◌, ◌≢◌, Bool, not, some, List, [], ◌∷◌, arith, Text, ◌==◌, text_eq, find, select, inl, inr,
}
use denizen.Prelude.Int.{ℤ}
use denizen.Model.{Item, Share, UserShare, Db}
use denizen.Result.{ok, Result-cases}
use denizen.Repo.Shares.{delete, get_by_token_hash, find_grant, grants_to, delete_grant}
use denizen.Items.Forest.{IsForest}
use denizen.Repo.Items.{row}
use denizen.Items.Walk.{resolve_grant}
use denizen.Items.Walk.Ends.{Inherits, direct, inherited, resolve_grant-iff_Inherits}
use denizen.Shares.{resolve, check_revoke, get_own_grant}
use denizen.Shares.Commit.{revoke_link, revoke_grant}
use denizen.Shares.Links.{resolve_iff}
use denizen.World.{Env, World}

kept_share :
    (id hash : Text) (shares : List Share) (s : Share)
    → find (λ (k : Share). k.token_hash == hash) (select (λ (k : Share). not (k.id == id)) shares)
      ≡ some s
    → s.id ≢ id
kept_share id hash [] s e = cc
kept_share id hash (k ∷ shares) s e = ground (arith, kept_share id hash shares s)

deleted_share :
    (db : Db) (id hash : Text) (s : Share)
    → get_by_token_hash (delete id db) hash ≡ ok s
    → s.id ≢ id
unfolding get_by_token_hash delete
deleted_share db id hash s e = kept_share id hash db.shares s (ground (arith, e))

revoked_link_db :
    (owner_id id : Text) (w w' : World)
    → revoke_link owner_id id w ≡ (ok tt, w')
    → w'.db ≡ delete id w.db
unfolding revoke_link
revoked_link_db owner_id id w w' h = elim (Result-cases (check_revoke w.db owner_id id)) [
  | inr failed ↦ cc (rw (revoke_link, failed.1) at h)
  | inl checked ↦ ground (arith, h, checked.1)
]

-- A share that its owner has revoked opens nothing: no token leads to it.
pub revoke_link-resolve :
    (env : Env) (owner_id id : Text) (w w' : World)
    → revoke_link owner_id id w ≡ (ok tt, w')
    → (now : ℤ) (raw : Text) (authenticated : Bool) (share : Share) (item : Item)
    → resolve env w'.db now raw authenticated ≡ ok (share, item)
    → share.id ≢ id
revoke_link-resolve env owner_id id w w' h now raw authenticated share item opened =
    let (found, _, _, _, _) = (resolve_iff env w'.db now raw authenticated share item).0 opened in
    let after = revoked_link_db owner_id id w w' h in
    deleted_share w.db id (env.sha256 raw) share (rw after at found)

kept_grant :
    (id item_id user_id : Text) (grants : List UserShare) (g : UserShare)
    → find (grants_to item_id user_id) (select (λ (k : UserShare). not (k.id == id)) grants)
      ≡ some g
    → g.id ≢ id
kept_grant id item_id user_id [] g e = cc
kept_grant id item_id user_id (k ∷ grants) g e =
    ground (arith, kept_grant id item_id user_id grants g)

revoked_grant_db :
    (owner_id id : Text) (w w' : World)
    → revoke_grant owner_id id w ≡ (ok tt, w')
    → w'.db ≡ delete_grant id w.db
unfolding revoke_grant
revoked_grant_db owner_id id w w' h = elim (Result-cases (get_own_grant w.db owner_id id)) [
  | inr failed ↦ cc (rw (revoke_grant, failed.1) at h)
  | inl checked ↦ ground (arith, h, checked.1)
]

kept_Inherits :
    (db : Db) (id user_id : Text) {item : Item} {g : UserShare}
    → Inherits (delete_grant id db) user_id item g
    → g.id ≢ id
unfolding find_grant delete_grant
kept_Inherits db id user_id {item} {g} (direct e) = kept_grant id item.id user_id db.grants g e
kept_Inherits db id user_id {item} {g} (inherited p parent missing e f i) =
    kept_Inherits db id user_id i

-- A grant that its owner has revoked reaches nothing: in a forest no access of anybody to an item of
-- the table rests on it, neither on the item itself nor on a folder above.
pub revoke_grant-resolve :
    (owner_id id : Text) (w w' : World)
    → revoke_grant owner_id id w ≡ (ok tt, w')
    → IsForest w'.db.items
    → (user_id item_id : Text) (item : Item) (g : UserShare) → row w'.db.items item_id ≡ some item
    → resolve_grant w'.db item user_id ≡ ok (some g)
    → g.id ≢ id
revoke_grant-resolve owner_id id w w' h forest user_id item_id item g e found =
    let i = (resolve_grant-iff_Inherits w'.db item_id item user_id forest e g).0 found in
    let i' : Inherits (delete_grant id w.db) user_id item g =
      rw (revoked_grant_db owner_id id w w' h) at i in
    kept_Inherits w.db id user_id i'
