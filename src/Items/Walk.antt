-- ===== src/Items/Walk.antt =====
-- The three walks up from an item: to its path on disk (pathOf), to the nearest grant
-- (resolveGrant), and from the target of a move (checkNotSelfOrDescendant). A walk has as many
-- steps as there are rows, and one; `diverges` stands for a walk that has not ended by then.
pub mod Ends
use denizen.Prelude.{
  ℕ, zero, suc, true, false, Option, none, some, List, Text, ◌==◌, text_eq, length,
}
use denizen.Model.{Item, UserShare, Db, Error, validation, diverges}
use denizen.Result.{Result, ok, err, ◌>>=◌, one_row}
use denizen.Storage.{FilePath, join}
use denizen.Repo.Items.{row, get_by_id}
use denizen.Repo.Shares.{find_grant}

abbrev pub steps : List Item → ℕ
steps items = suc (length items)

-- pathOf, below the files root of the owner
unfoldable pub path_from : ℕ → Db → FilePath → Item → Result FilePath
unfolding get_by_id
path_from zero db root item = err diverges
path_from (suc fuel) db root item = elim item.parent_id [
  | none ↦ ok (join root item.name)
  | some parent_id ↦ do
    parent ← get_by_id db parent_id
    parent_path ← path_from fuel db root parent
    ok (join parent_path item.name)
]

unfoldable pub path_of : Db → FilePath → Item → Result FilePath
unfolding path_from
path_of db root item = path_from (steps db.items) db root item

-- resolveGrant
unfoldable pub grant_from : ℕ → Db → Text → Item → Result (Option UserShare)
unfolding row
grant_from zero db caller current = err diverges
grant_from (suc fuel) db caller current = elim (find_grant db current.id caller) [
  | some grant ↦ ok (some grant)
  | none ↦ elim current.parent_id [
    | none ↦ ok none
    | some parent_id ↦ elim (row db.items parent_id) [
      | none ↦ ok none
      | some parent ↦ grant_from fuel db caller parent
    ]
  ]
]

unfoldable pub resolve_grant : Db → Item → Text → Result (Option UserShare)
unfolding grant_from
resolve_grant db item caller = grant_from (steps db.items) db caller item

-- checkNotSelfOrDescendant
unfoldable pub check_from : ℕ → List Item → Text → Text → Result (Unit {0})
unfolding row
check_from zero items item_id current = err diverges
check_from (suc fuel) items item_id current = elim (current == item_id) [
  | true ↦ err (validation "cannot move a folder into itself or one of its own subfolders")
  | false ↦ elim (row items current) [
    | none ↦ err (validation "parent folder not found")
    | some node ↦ elim node.parent_id [
      | none ↦ ok tt
      | some parent_id ↦ check_from fuel items item_id parent_id
    ]
  ]
]

unfoldable pub check_not_self_or_descendant : Db → Text → Text → Result (Unit {0})
unfolding check_from
check_not_self_or_descendant db item_id target = check_from (steps db.items) db.items item_id target
