-- ===== src/Shares/Links.antt =====
-- Who gets through a share link.
use denizen.Prelude.{
  ◌≡◌, ◌↔◌, ap, ◌+◌, Bool, true, false, none, some, List, ◌∷◌, arith, Text, text_eq, inl, inr,
}
use denizen.Prelude.Int.{ℤ}
use denizen.Model.{Item, Share, Db}
use denizen.Result.{ok, Result-cases}
use denizen.Repo.Items.{row, get_by_id}
use denizen.Repo.Shares.{create, get_by_token_hash}
use denizen.Items.Access.{get, get_for_share}
use denizen.Shares.{resolve, is_expired}
use denizen.Shares.Commit.{CreateInput, new_link, create_link}
use denizen.World.{Env, World}

-- A link opens an item exactly if a share has the hash of its token and has not expired, the visitor
-- is signed in where the share asks for it, and the item is in the table and not in the trash.
pub resolve_iff :
    (env : Env) (db : Db) (now : ℤ) (raw : Text) (authenticated : Bool) (share : Share)
    (item : Item)
    → (resolve env db now raw authenticated ≡ ok (share, item)) ↔ (
        (get_by_token_hash db (env.sha256 raw) ≡ ok share)
        × (is_expired now share ≡ false)
        × ((share.requires_auth ≡ true) → authenticated ≡ true)
        × (row db.items share.item_id ≡ some item)
        × (item.deleted_at ≡ none))
unfolding resolve get_for_share get_by_id
resolve_iff env db now raw authenticated share item =
    (λ h. (ground arith, ground arith, ground arith, ground arith, ground arith), λ h. ground arith)

record IsLinked (env : Env) (owner_id : Text) (input : CreateInput) (w w' : World) (share : Share)
    (raw : Text) (item : Item) : Type 0 where
  found : get w.db owner_id input.item_id ≡ ok item
  made : share ≡ new_link env owner_id input raw w.now (env.id (w.drawn + 1))
  shares : w'.db.shares ≡ share ∷ w.db.shares
  items : w'.db.items ≡ w.db.items
  clock : w'.now ≡ w.now

create_link-IsLinked :
    (env : Env) (owner_id : Text) (input : CreateInput) (w w' : World) (share : Share) (raw : Text)
    → create_link env owner_id input w ≡ (ok (share, raw), w')
    → (item : Item) × IsLinked env owner_id input w w' share raw item
unfolding create_link create
create_link-IsLinked env owner_id input w w' share raw h =
    elim (Result-cases (get w.db owner_id input.item_id)) [
      | inr failed ↦ cc (rw failed.1 at h)
      | inl found ↦ (
        found.0,
        record {
          found = found.1;
          made = ground arith;
          shares = ground arith;
          items = ground arith;
          clock = ground arith;
        },
      )
    ]

own_item :
    (db : Db) (owner_id id : Text) (item : Item)
    → get db owner_id id ≡ ok item
    → (row db.items id ≡ some item) × (item.owner_id ≡ owner_id) × (item.deleted_at ≡ none)
unfolding get get_by_id
own_item db owner_id id item h = (ground arith, ground arith, ground arith)

first_by_hash :
    (db : Db) (share : Share) (shares : List Share)
    → db.shares ≡ share ∷ shares
    → get_by_token_hash db share.token_hash ≡ ok share
unfolding get_by_token_hash
first_by_hash db share shares e = rw e (ground arith)

-- A link that is made opens its item at once for a visitor who is signed in, and for one who is not
-- if the link does not ask for that, unless it is made with a time that has passed.
pub create_link-resolve :
    (env : Env) (owner_id : Text) (input : CreateInput) (w w' : World) (share : Share) (raw : Text)
    → create_link env owner_id input w ≡ (ok (share, raw), w')
    → is_expired w.now share ≡ false
    → (item : Item) × (row w.db.items input.item_id ≡ some item)
      × (item.owner_id ≡ owner_id)
      × ((authenticated : Bool)
          → (share.requires_auth ≡ true → authenticated ≡ true)
          → resolve env w'.db w'.now raw authenticated ≡ ok (share, item))
create_link-resolve env owner_id input w w' share raw h live =
    let (item, linked) = create_link-IsLinked env owner_id input w w' share raw h in
    let (found, own, active) = own_item w.db owner_id input.item_id item linked.found in
    let hash : share.token_hash ≡ env.sha256 raw = ap (λ (s : Share). s.token_hash) linked.made in
    let target : share.item_id ≡ input.item_id = ap (λ (s : Share). s.item_id) linked.made in
    (
      item,
      found,
      own,
      λ authenticated may. (resolve_iff env w'.db w'.now raw authenticated share item).1 (
        rw (← hash) (first_by_hash w'.db share w.db.shares linked.shares),
        rw linked.clock live,
        may,
        rw (linked.items, target) found,
        active,
      ),
    )
