-- ===== src/Shares/Grants.antt =====
-- What a grant lets its recipient do.
use denizen.Prelude.{
  ◌≡◌, ◌≢◌, refl, ◌∙◌, ap, sym, Bool, none, some, List, ◌∷◌, arith, Text, text, ◌==◌, text_eq,
  if◌then◌else◌, inl, inr,
}
use denizen.Model.{Item, SharePermission, is_edit, view, UserShare, Db, forbidden}
use denizen.Result.{ok, err, Result-cases}
use denizen.Repo.Items.{row, get_by_id}
use denizen.Repo.Shares.{create_grant, find_grant}
use denizen.Items.Walk.{resolve_grant, grant_from}
use denizen.Items.Access.{get, get_readable, get_for_write}
use denizen.Shares.{check_grant, validate_permission, GrantedShare}
use denizen.Shares.Commit.{share_with}
use denizen.Repo.Items.Laws.{id-row}
use denizen.World.{Env, World}

-- What sharing an item has done if it succeeds.
record IsShared (owner_id item_id user_id permission : Text) (w w' : World) (g : UserShare)
    (item : Item) : Type 0 where
  found : get w.db owner_id item_id ≡ ok item
  level : validate_permission permission ≡ ok g.permission
  apart : user_id ≢ owner_id
  fresh : find_grant w.db item_id user_id ≡ none
  of_item : g.item_id ≡ item_id
  to_user : g.shared_with_id ≡ user_id
  grants : w'.db.grants ≡ g ∷ w.db.grants
  items : w'.db.items ≡ w.db.items

share_with-IsShared :
    (env : Env) (owner_id item_id user_id permission : Text) (w w' : World) (share : GrantedShare)
    → share_with env owner_id item_id user_id permission w ≡ (ok share, w')
    → (item : Item) × IsShared owner_id item_id user_id permission w w' share.grant item
unfolding share_with check_grant create_grant
share_with-IsShared env owner_id item_id user_id permission w w' share h =
    elim (Result-cases (get w.db owner_id item_id)) [
      | inr failed ↦ ground arith
      | inl found ↦ (
        found.0,
        record {
          found = found.1;
          level = ground arith;
          apart = ground arith;
          fresh = ground arith;
          of_item = ground arith;
          to_user = ground arith;
          grants = ground arith;
          items = ground arith;
        },
      )
    ]

own_item :
    (db : Db) (owner_id id : Text) (item : Item)
    → get db owner_id id ≡ ok item
    → (row db.items id ≡ some item) × (item.owner_id ≡ owner_id) × (item.deleted_at ≡ none)
unfolding get get_by_id
own_item db owner_id id item h = (ground arith, ground arith, ground arith)

first_grant :
    (db : Db) (g : UserShare) (grants : List UserShare)
    → db.grants ≡ g ∷ grants
    → find_grant db g.item_id g.shared_with_id ≡ some g
unfolding find_grant
first_grant db g grants e = rw e (ground arith)

direct-resolve :
    (db : Db) (item : Item) (user_id : Text) (g : UserShare)
    → find_grant db item.id user_id ≡ some g
    → resolve_grant db item user_id ≡ ok (some g)
unfolding resolve_grant grant_from
direct-resolve db item user_id g e = rw (grant_from, e)

granted_access :
    (db : Db) (user_id id : Text) (item : Item) (g : UserShare)
    → row db.items id ≡ some item
    → item.deleted_at ≡ none
    → item.owner_id ≢ user_id
    → resolve_grant db item user_id ≡ ok (some g)
    → (get_readable db user_id id ≡ ok item)
      × (get_for_write db user_id id ≡ (if is_edit g.permission then ok item else err forbidden))
unfolding get_readable get_for_write get_by_id
granted_access db user_id id item g found active other grant = (ground arith, ground arith)

level-is_edit :
    (permission : Text) (level : SharePermission)
    → validate_permission permission ≡ ok level
    → is_edit level ≡ (permission == text "edit")
unfolding validate_permission text_eq
level-is_edit permission level h = elim (text_eq.dec permission (text "view")) [
  | yes same ↦ let v : level ≡ view = ground arith in rw (v, same) refl
  | no other ↦ ground arith
]

-- Sharing an item opens it at once to the recipient, who had no grant on it and is not the owner: to
-- read, and to write if the permission is "edit"; if it is "view", a write is forbidden.
pub share_with-granted :
    (env : Env) (owner_id item_id user_id permission : Text) (w w' : World) (share : GrantedShare)
    → share_with env owner_id item_id user_id permission w ≡ (ok share, w')
    → (item : Item) × (row w.db.items item_id ≡ some item)
      × (item.owner_id ≡ owner_id)
      × (user_id ≢ owner_id)
      × (find_grant w.db item_id user_id ≡ none)
      × (get_readable w'.db user_id item_id ≡ ok item)
      × (get_for_write w'.db user_id item_id
          ≡ (if permission == text "edit" then ok item else err forbidden))
share_with-granted env owner_id item_id user_id permission w w' share h =
    let (item, s) = share_with-IsShared env owner_id item_id user_id permission w w' share h in
    let (found, own, active) = own_item w.db owner_id item_id item s.found in
    let found' : row w'.db.items item_id ≡ some item = rw s.items found in
    let same : share.grant.item_id ≡ item.id =
      s.of_item ∙ sym (id-row w.db.items item_id item found) in
    let grant : find_grant w'.db item.id user_id ≡ some share.grant =
      rw (← same, ← s.to_user) (first_grant w'.db share.grant w.db.grants s.grants) in
    let (reads, writes) =
      granted_access w'.db user_id item_id item share.grant found' active
        (λ at. s.apart (sym at ∙ own)) (direct-resolve w'.db item user_id share.grant grant) in
    (
      item,
      found,
      own,
      s.apart,
      s.fresh,
      reads,
      writes
          ∙ ap (λ (b : Bool). if b then ok item else err forbidden)
              (level-is_edit permission share.grant.permission s.level),
    )
