-- ===== src/Items/Search.antt =====
-- Search of internal/service/item.go.
pub mod Results
pub mod Hits
pub mod Descent
pub mod Exact
use denizen.Prelude.{
  ℕ, Bool, true, false, ◌||◌, not, Option, none, some, List, [], ◌∷◌, ◌++◌, Text, ◌==◌, text_eq,
  any, leb, ltb, length, select, if◌then◌else◌,
}
use denizen.Model.{Item, UserShare, Db, is_null}
use denizen.Result.{Result, ok, err, ◌>>=◌}
use denizen.Text.{trim_space}
use denizen.Repo.Items.{row, has_id, is_active}
use denizen.Repo.Shares.{list_received_by}
use denizen.Repo.Search.{
  Engine, get_by_ids, search_by_name, search_by_name_in_subtree, search_content,
}
use denizen.Items.Walk.{resolve_grant}

-- searchResultLimit
abbrev pub search_result_limit : ℕ
search_result_limit = 50

abbrev pub is_full : List Item → Bool
is_full results = leb search_result_limit (length results)

-- `add` of Search. An id is in `seen` exactly if its item is among the results.
unfoldable pub add : List Item → Item → List Item
add results item =
    if any (has_id item.id) results || is_full results then results else results ++ (item ∷ [])

unfoldable pub add_all : List Item → List Item → List Item
unfolding add
add_all results [] = results
add_all results (item ∷ items) = add_all (add results item) items

-- The loop over the grants
unfoldable pub add_shared : Engine → Db → Text → List UserShare → List Item → Result (List Item)
unfolding search_by_name_in_subtree add_all
add_shared engine db query [] results = ok results
add_shared engine db query (grant ∷ grants) results = elim (is_full results) [
  | true ↦ ok results
  | false ↦ do
    matches ← search_by_name_in_subtree engine db grant.item_id query search_result_limit
    add_shared engine db query grants (add_all results matches)
]

abbrev unless_none : List Item → Item → Option UserShare → List Item
unless_none results item none = results
unless_none results item (some grant) = add results item

-- A content match whose row is there: the rest of the body of the last loop
unfoldable pub add_readable : Db → Text → Item → List Item → Result (List Item)
unfolding resolve_grant add
add_readable db caller item results =
    if not (is_active item)
    then ok results
    else if item.owner_id == caller
    then ok (add results item)
    else do grant ← resolve_grant db item caller; ok (unless_none results item grant)

-- The loop over the content matches, with the rows that GetByIDs has found
unfoldable pub add_content : Db → Text → List Item → List Text → List Item → Result (List Item)
unfolding row add_readable
add_content db caller found [] results = ok results
add_content db caller found (id ∷ ids) results = elim (is_full results) [
  | true ↦ ok results
  | false ↦ elim (row found id) [
    | none ↦ add_content db caller found ids results
    | some item ↦ do
      results' ← add_readable db caller item results
      add_content db caller found ids results'
  ]
]

-- What Search does with the content matches
unfoldable pub search_in_content : Engine → Db → Text → Text → List Item → Result (List Item)
unfolding search_content get_by_ids add_content
search_in_content engine db caller query results = do
  ids ← search_content engine db query search_result_limit
  let unresolved = select (λ id. not (any (has_id id) results)) ids
  add_content db caller (get_by_ids db unresolved) unresolved results

-- Search
unfoldable pub search_items : Engine → Db → Text → Text → Result (List Item)
unfolding trim_space search_by_name add_all list_received_by add_shared search_in_content
search_items engine db caller raw = if trim_space raw == [] then ok [] else do
  let own = add_all [] (search_by_name engine db caller (trim_space raw) search_result_limit)
  with_shared ←
      (if is_full own
        then ok own
        else add_shared engine db (trim_space raw) (list_received_by db caller) own)
  if is_full with_shared
      then ok with_shared
      else search_in_content engine db caller (trim_space raw) with_shared
