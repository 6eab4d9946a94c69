-- ===== src/Repo/Search.antt =====
-- The searches of internal/repository: GetByIDs, SearchByName and SearchByNameInSubtree of item.go, and
-- SearchContent of search.go.
pub mod Quoting
use denizen.Prelude.{
  ℕ, zero, suc, Bool, true, false, ◌&&◌, Option, none, some, List, [], ◌∷◌, ◌++◌, map, Text, text,
  ◌==◌, text_eq, option_text_eq, contains, select, take, length, if◌then◌else◌,
}
use denizen.Prelude.Int.{lt_int}
use denizen.Model.{Item, Indexed, Db, diverges}
use denizen.Result.{Result, ok, err, ◌>>=◌}
use denizen.Text.Fields.{fields, double, join_with}
use denizen.Repo.Items.{order_by, row, is_active}
use denizen.Repo.Like.{Like, contains_pattern}

-- What SQLite makes of texts: the ids of the rows that a MATCH expression of FTS5 finds, best rank first,
-- or its error, and whether LIKE finds a pattern in a text.
pub record Engine : Type 0 where
  pub find : List Indexed → Text → Result (List Text)
  pub like : Like

-- GetByIDs, in some order
unfoldable pub get_by_ids : Db → List Text → List Item
get_by_ids db ids = select (λ i. contains ids i.id) db.items

abbrev newest_first : List Item → List Item
newest_first items = order_by (λ a b. lt_int b.updated_at a.updated_at) items

abbrev pub name_matches : Engine → Text → Item → Bool
name_matches engine query item = engine.like (contains_pattern query) item.name

-- SearchByName
unfoldable pub search_by_name : Engine → Db → Text → Text → ℕ → List Item
unfolding order_by contains_pattern
search_by_name engine db owner_id query limit = take limit (
    newest_first
      (select (λ i. i.owner_id == owner_id && is_active i && name_matches engine query i) db.items))

-- The recursive step of SearchByNameInSubtree, for one id and for all that one step has found
unfoldable pub children_of : Db → Text → List Text
unfolding option_text_eq
children_of db id =
    map (λ (i : Item). i.id) (select (λ i. i.parent_id == some id && is_active i) db.items)

unfoldable pub next_level : Db → List Text → List Text
unfolding children_of
next_level db [] = []
next_level db (id ∷ ids) = children_of db id ++ next_level db ids

-- The ids of the subtree below those of one step, on fuel.
unfoldable pub subtree_from : ℕ → Db → List Text → Result (List Text)
unfolding next_level
subtree_from fuel db [] = ok []
subtree_from zero db (id ∷ ids) = err diverges
subtree_from (suc fuel) db (id ∷ ids) = do
  below ← subtree_from fuel db (next_level db (id ∷ ids))
  ok ((id ∷ ids) ++ below)

-- WITH RECURSIVE subtree(id): the root, and every item below it that is not in the trash
unfoldable pub subtree : Db → Text → Result (List Text)
unfolding subtree_from
subtree db root_id = subtree_from (suc (suc (length db.items))) db (root_id ∷ [])

-- JOIN subtree ON items.id = subtree.id
unfoldable pub rows_of : Db → List Text → List Item
unfolding row
rows_of db [] = []
rows_of db (id ∷ ids) =
    let rest = rows_of db ids in elim (row db.items id) [ none ↦ rest | some item ↦ item ∷ rest ]

-- The active items among the ids whose name matches, newest first
unfoldable pub newest_matches : Engine → Db → Text → ℕ → List Text → List Item
unfolding rows_of order_by contains_pattern
newest_matches engine db query limit ids =
    take limit
      (newest_first (select (λ i. is_active i && name_matches engine query i) (rows_of db ids)))

-- SearchByNameInSubtree
unfoldable pub search_by_name_in_subtree : Engine → Db → Text → Text → ℕ → Result (List Item)
unfolding subtree newest_matches
search_by_name_in_subtree engine db root_id query limit = do
  ids ← subtree db root_id
  ok (newest_matches engine db query limit ids)

-- A term in double quotes, as a prefix
unfoldable pub quote : Text → Text
unfolding double
quote term = b'"' ∷ double b'"' term ++ text "\"*"

-- sanitizeFTS5Query
unfoldable pub sanitize_fts5_query : Text → Text
unfolding fields quote join_with
sanitize_fts5_query query = join_with (text " ") (map quote (fields query))

-- SearchContent
unfoldable pub search_content : Engine → Db → Text → ℕ → Result (List Text)
unfolding sanitize_fts5_query
search_content engine db query limit =
    if sanitize_fts5_query query == []
    then ok []
    else do ids ← engine.find db.index (sanitize_fts5_query query); ok (take limit ids)
