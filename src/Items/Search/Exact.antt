-- ===== src/Items/Search/Exact.antt =====
-- Search as a whole: its three sources, one after the other.
use denizen.Prelude.{
  ◌≡◌, refl, ap, ◌∙◌, arith, true, not, none, some, List, [], ◌∷◌, Text, ◌==◌, text_eq, contains,
  All, All-select, All-found, All-imp, any, select, ◌⊎◌, ◌≤◌, length, Bool-cases, if◌then◌else◌,
  Option-cases, inl, inr,
}
use denizen.Model.{Item, Db, Error}
use denizen.Result.{ok, err, Result-cases}
use denizen.Text.{trim_space}
use denizen.Repo.Items.{row, has_id}
use denizen.Repo.Items.Laws.{id-row}
use denizen.Repo.Like.{contains_pattern, like_limit}
use denizen.Repo.Shares.{list_received_by}
use denizen.Repo.Search.{Engine, get_by_ids, search_by_name, search_content}
use denizen.Items.Forest.{IsForest}
use denizen.Items.Walk.Ends.{resolve_grant_total, resolve_grant-iff_Inherits}
use denizen.Items.Access.Exact.{MayRead, owner, grantee}
use denizen.Items.Search.{
  search_result_limit, is_full, add, add_all, add_shared, add_readable, add_content,
  search_in_content, search_items,
}
use denizen.Items.Search.Results.{IsGood, add-IsGood, add_all-IsGood}
use denizen.Items.Search.Hits.{IsHit, own-IsHit, add_shared-IsGood, received-granted}
use denizen.Items.Sound.{HasKeys}

module _ (engine : Engine) (db : Db) (caller query : Text) (forest : IsForest db.items)
    (keys : HasKeys db.items) (ids : List Text)
    (searched : search_content engine db query search_result_limit ≡ ok ids) where
  add_readable-IsGood :
      (item : Item) (results : List Item)
      → row db.items item.id ≡ some item
      → contains ids item.id ≡ true
      → IsGood (IsHit engine db caller query) results
      → (items : List Item) × (add_readable db caller item results ≡ ok items)
        × IsGood (IsHit engine db caller query) items
  unfolding add_readable
  add_readable-IsGood item results there hit good =
      let (o, found) = resolve_grant_total db item.id item caller forest there in
      let readable : item.deleted_at ≡ none
          → MayRead db caller item
          → IsGood (IsHit engine db caller query) (add results item) =
        λ active may.
          add-IsGood (IsHit engine db caller query) results item good
            (record { active = active; may = may; matched = inr (ids, searched, hit) }) in
      elim (Option-cases item.deleted_at) [
        | inr trashed ↦ (results, rw trashed.1, good)
        | inl active ↦ elim (Bool-cases (item.owner_id == caller)) [
          | inl own ↦ (add results item, rw (active, own), readable active (owner (ground arith)))
          | inr other ↦ elim (Option-cases o) [
            | inl unreached ↦ (results, rw (active, other, found, unreached), good)
            | inr reached ↦ (
              add results item,
              rw (active, other, found, reached.1),
              readable active (
                  grantee reached.0 active (
                    (resolve_grant-iff_Inherits db item.id item caller forest there reached.0).0
                      (found ∙ ap ok reached.1))),
            )
          ]
        ]
      ]

  add_content-IsGood :
      (found : List Item) (unresolved : List Text) (results : List Item)
      → All (λ (i : Item). row db.items i.id ≡ some i) found
      → All (λ id. contains ids id ≡ true) unresolved
      → IsGood (IsHit engine db caller query) results
      → (items : List Item) × (add_content db caller found unresolved results ≡ ok items)
        × IsGood (IsHit engine db caller query) items
  unfolding add_content row
  add_content-IsGood found [] results there hits good = (results, refl, good)
  add_content-IsGood found (id ∷ unresolved) results there hits good =
      elim (Bool-cases (is_full results)) [
        | inl full ↦ (results, rw (add_content, full), good)
        | inr room ↦ elim (Option-cases (row found id)) [
          | inl gone ↦
              let (items, e, good') =
                add_content-IsGood found unresolved results there hits.1 good in
              (items, rw (add_content, room, gone) e, good')
          | inr item ↦
              let same = id-row found id item.0 item.1 in
              let (results', e, good') =
                add_readable-IsGood item.0 results
                  (All-found (λ (i : Item). row db.items i.id ≡ some i) (has_id id) found item.0
                    there item.1)
                  (rw same hits.0) good in
              let (items, e', good'') =
                add_content-IsGood found unresolved results' there hits.1 good' in
              (items, rw (add_content, room, item.1, e) e', good'')
        ]
      ]

contains_self : (ids : List Text) → All (λ id. contains ids id ≡ true) ids
contains_self [] = tt
contains_self (id ∷ ids) =
    (ground arith, All-imp _ _ ids (λ x h. ground (arith, h)) (contains_self ids))

module _ (engine : Engine) (db : Db) (caller : Text) (forest : IsForest db.items)
    (keys : HasKeys db.items) where
  content-IsGood :
      (query : Text) (results : List Item)
      → IsGood (IsHit engine db caller query) results
      → ((items : List Item) × (search_in_content engine db caller query results ≡ ok items)
          × IsGood (IsHit engine db caller query) items)
        ⊎ ((e : Error) × (search_content engine db query search_result_limit ≡ err e)
            × (search_in_content engine db caller query results ≡ err e))
  unfolding search_in_content get_by_ids
  content-IsGood query results good =
      elim (Result-cases (search_content engine db query search_result_limit)) [
        | inr failed ↦ inr (failed.0, failed.1, rw (search_in_content, failed.1) refl)
        | inl searched ↦
            let ids = searched.0 in
            let unresolved = select (λ id. not (any (has_id id) results)) ids in
            let (items, e, good') =
              add_content-IsGood engine db caller query forest keys ids searched.1
                (get_by_ids db unresolved) unresolved results (All-select _ _ db.items keys)
                (All-select _ _ ids (contains_self ids)) good in
            inl (items, rw (search_in_content, searched.1) e, good')
      ]

  shared-IsGood :
      (query : Text) (results : List Item)
      → IsGood (IsHit engine db caller query) results
      → (items : List Item) × ((if is_full results
            then ok results
            else add_shared engine db query (list_received_by db caller) results)
          ≡ ok items)
        × IsGood (IsHit engine db caller query) items
  shared-IsGood query results good = elim (Bool-cases (is_full results)) [
    | inl full ↦ (results, rw full refl, good)
    | inr room ↦
        let (items, e, good') =
          add_shared-IsGood engine db caller query forest keys (list_received_by db caller) results
            (received-granted db caller) good in
        (items, rw room e, good')
  ]

  -- In a forest whose rows have different ids, for a query whose pattern is not too long for LIKE:
  -- Search ends with a list of at most fifty items, none twice, or with the error of the full-text
  -- engine for the expression of the query. Each item of the list is not in the trash, may be read by
  -- the caller, and matches the query without the spaces around it: LIKE finds the pattern of the query
  -- in its name, or it is one of the content matches.
  pub search_items-IsGood :
      (raw : Text)
      → length (contains_pattern (trim_space raw)) ≤ like_limit
      → ((items : List Item) × (search_items engine db caller raw ≡ ok items)
          × IsGood (IsHit engine db caller (trim_space raw)) items)
        ⊎ ((e : Error) × (search_content engine db (trim_space raw) search_result_limit ≡ err e)
            × (search_items engine db caller raw ≡ err e))
  unfolding search_items
  search_items-IsGood raw short =
      let query = trim_space raw in
      let own = add_all [] (search_by_name engine db caller query search_result_limit) in
      let own_good =
        add_all-IsGood (IsHit engine db caller query)
          (search_by_name engine db caller query search_result_limit) []
          (record { bounded = omega arith; distinct = tt; all = tt })
          (own-IsHit engine db caller query search_result_limit) in
      let (shared, e, shared_good) = shared-IsGood query own own_good in
      elim (Bool-cases (trim_space raw == [])) [
        | inl empty ↦ inl ([], rw empty, record { bounded = omega arith; distinct = tt; all = tt })
        | inr asked ↦ elim (Bool-cases (is_full shared)) [
          | inl full ↦ inl (shared, rw (asked, e, full), shared_good)
          | inr room ↦ elim (content-IsGood query shared shared_good) [
            | inl (items, e', good) ↦ inl (items, rw (asked, e, room) e', good)
            | inr (reason, failed, e') ↦ inr (reason, failed, rw (asked, e, room) e')
          ]
        ]
      ]
