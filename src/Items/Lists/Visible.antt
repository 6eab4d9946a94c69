-- ===== src/Items/Lists/Visible.antt =====
-- The favorites that a user sees are items that the user may read, and the list ends.
use denizen.Prelude.{
  ◌≡◌, refl, ap, ◌∙◌, false, not, Option, none, some, List, [], ◌∷◌, arith, Text, ◌==◌, text_eq,
  All, if◌then◌else◌, Option-cases, Bool-cases, inl, inr,
}
use denizen.Model.{Item, UserShare, Db, is_null}
use denizen.Result.{ok}
use denizen.Repo.Items.{row, get_by_id, is_active}
use denizen.Repo.Items.Laws.{id-row}
use denizen.Repo.Shares.{list_favorite_ids}
use denizen.Items.Forest.{IsForest}
use denizen.Items.Walk.{resolve_grant}
use denizen.Items.Walk.Ends.{resolve_grant_total}
use denizen.Items.Access.{get_readable}
use denizen.Items.Lists.{reachable, reachable_of, list_favorites}

-- The caller reads the item.
abbrev pub IsReadable : Db → Text → Item → Type 0
IsReadable db caller item = get_readable db caller item.id ≡ ok item

-- What a favorite leads to, by its row and the grant that reaches it.
reachable-row :
    (db : Db) (caller id : Text) (i : Item) (o : Option UserShare)
    → row db.items id ≡ some i
    → resolve_grant db i caller ≡ ok o
    → reachable db caller id
      ≡ ok (
          if not (is_active i)
          then none
          else if i.owner_id == caller
          then some i
          else if is_null o
          then none
          else some i)
unfolding reachable
reachable-row db caller id i o e r = rw (reachable, e) (ground (arith, r))

readable_row :
    (db : Db) (caller id : Text) (i : Item) (o : Option UserShare)
    → row db.items id ≡ some i
    → resolve_grant db i caller ≡ ok o
    → i.deleted_at ≡ none
    → ((i.owner_id == caller) ≡ false → is_null o ≡ false)
    → get_readable db caller id ≡ ok i
unfolding get_readable get_by_id
readable_row db caller id i o e r active may = ground arith

no_row-reachable :
    (db : Db) (caller id : Text) → row db.items id ≡ none → reachable db caller id ≡ ok none
unfolding reachable
no_row-reachable db caller id missing = rw (reachable, missing)

reachable_of-visible :
    (db : Db) (caller : Text) (ids : List Text)
    → IsForest db.items
    → (items : List Item) × (reachable_of db caller ids ≡ ok items)
      × All (IsReadable db caller) items
unfolding reachable_of
reachable_of-visible db caller [] forest = ([], refl, tt)
reachable_of-visible db caller (id ∷ ids) forest =
    let (rest, e, all) = reachable_of-visible db caller ids forest in
    elim (Option-cases (row db.items id)) [
      | inl missing ↦ (rest, rw (no_row-reachable db caller id missing, e), all)
      | inr found ↦
          let (i, at) = found in
          let (o, r) = resolve_grant_total db id i caller forest at in
          let here = reachable-row db caller id i o at r in
          let readable : i.deleted_at ≡ none
              → ((i.owner_id == caller) ≡ false → is_null o ≡ false)
              → IsReadable db caller i =
            λ active may.
              ap (get_readable db caller) (id-row db.items id i at)
              ∙ readable_row db caller id i o at r active may in
          elim (Option-cases i.deleted_at) [
            | inr trashed ↦ (rest, rw (here, trashed.1, e), all)
            | inl active ↦ elim (Bool-cases (i.owner_id == caller)) [
              | inl own ↦
                  (i ∷ rest, rw (here, active, own, e), (readable active (λ other. cc), all))
              | inr other ↦ elim (Option-cases o) [
                | inl unreached ↦ (rest, rw (here, active, other, unreached, e), all)
                | inr reached ↦ (
                  i ∷ rest,
                  rw (here, active, other, reached.1, e),
                  (readable active (λ _. rw reached.1 refl), all),
                )
              ]
            ]
          ]
    ]

-- In a forest the list of a user's favorites ends, and every item in it is one that the user may read
-- and that is not in the trash.
pub list_favorites-visible :
    (db : Db) (caller : Text)
    → IsForest db.items
    → (items : List Item) × (list_favorites db caller ≡ ok items) × All (IsReadable db caller) items
unfolding list_favorites
list_favorites-visible db caller forest =
    reachable_of-visible db caller (list_favorite_ids db caller) forest
