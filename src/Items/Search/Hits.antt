-- ===== src/Items/Search/Hits.antt =====
-- What Search returns: at most fifty items, none twice, each one that the caller may read and that
-- matches the query by its name or its content.
use denizen.Prelude.{
  ℕ, ◌≡◌, refl, ap, ◌∙◌, sym, arith, true, ◌&&◌, none, some, List, [], ◌∷◌, Text, ◌==◌, text_eq,
  contains, All, find, All-take, All-of_select, All-imp, All-each, Bool-cases, Option-cases, inl,
  inr, ◌⊎◌,
}
use denizen.Model.{Item, UserShare, Db}
use denizen.Result.{ok}
use denizen.Repo.Items.{row, is_active}
use denizen.Repo.Items.Laws.{id-row, All-order_by}
use denizen.Repo.Shares.{find_grant, list_received_by, grants_to}
use denizen.Repo.Search.{
  Engine, name_matches, search_by_name, rows_of, search_by_name_in_subtree, newest_matches,
  search_content,
}
use denizen.Items.Forest.{Rooted, top, under, IsForest, row_of_Rooted}
use denizen.Items.Walk.Ends.{Inherits, direct, inherited}
use denizen.Items.Access.Exact.{MayRead, owner, grantee}
use denizen.Items.Search.{search_result_limit, is_full, add_all, add_shared}
use denizen.Items.Search.Results.{IsGood, add_all-IsGood}
use denizen.Items.Sound.{HasKeys}
use denizen.Items.Search.Descent.{Below, here, step, subtree_sound}

-- An item that Search may return for a query.
pub record IsHit (engine : Engine) (db : Db) (caller query : Text) (item : Item) : Type 0 where
  pub active : item.deleted_at ≡ none
  pub may : MayRead db caller item
  pub matched :
      (name_matches engine query item ≡ true)
      ⊎ ((ids : List Text) × (search_content engine db query search_result_limit ≡ ok ids)
          × (contains ids item.id ≡ true))

module _ (engine : Engine) (db : Db) (caller query : Text) where
  own_row-IsHit :
      (item : Item)
      → (item.owner_id == caller && is_active item && name_matches engine query item) ≡ true
      → IsHit engine db caller query item
  own_row-IsHit item h = record {
    active = ground arith;
    may = owner (ground arith);
    matched = inl (ground arith);
  }

  pub own-IsHit :
      (limit : ℕ) → All (IsHit engine db caller query) (search_by_name engine db caller query limit)
  unfolding search_by_name
  own-IsHit limit = All-take (IsHit engine db caller query) limit _ (
      All-order_by (IsHit engine db caller query) _ _ (
        All-of_select (IsHit engine db caller query) _ db.items
          (All-each _ db.items own_row-IsHit)))

-- What lies below an item with a grant inherits a grant.
Below-Inherits :
    (db : Db) (caller root : Text) (g : UserShare) (id : Text) (i : Item)
    → IsForest db.items
    → find_grant db root caller ≡ some g
    → Below db root id
    → row db.items id ≡ some i
    → (k : UserShare) × Inherits db caller i k
Below-Inherits db caller root g id i forest granted here e =
    (g, direct (ap (λ x. find_grant db x caller) (id-row db.items root i e) ∙ granted))
Below-Inherits db caller root g id i forest granted (step j p at above active b) e =
    let same : j ≡ i = cc in
    elim (Option-cases (find_grant db i.id caller)) [
      | inr found ↦ (found.0, direct found.1)
      | inl missing ↦
          let (parent, there) = parent_row db j p (forest j.id j at) at above in
          let (k, inherits) = Below-Inherits db caller root g p parent forest granted b there in
          (
            k,
            inherited p parent missing (ap (λ (x : Item). x.parent_id) (sym same) ∙ above) there
                inherits,
          )
    ]
  where
    parent_row :
        (db : Db) (j : Item) (p : Text) {id : Text}
        → Rooted db.items id
        → row db.items id ≡ some j
        → j.parent_id ≡ some p
        → (parent : Item) × (row db.items p ≡ some parent)
    parent_row db j p (top k f none_above) at above = cc
    parent_row db j p (under k q f up r) at above =
        let (parent, there) = row_of_Rooted r in (parent, cc)

-- A grant that the caller has received is found for its item.
granted :
    (db : Db) (caller : Text) (grants : List UserShare)
    → All
        (λ (g : UserShare).
          (g.shared_with_id == caller) ≡ true
          → (k : UserShare) × (find (grants_to g.item_id caller) grants ≡ some k))
        grants
granted db caller [] = tt
granted db caller (g ∷ grants) = (
  λ mine. (g, ground arith),
  All-imp _ _ grants (λ h found mine. later g h (found mine)) (granted db caller grants),
)
  where
    later :
        (g h : UserShare)
        → (k : UserShare) × (find (grants_to h.item_id caller) grants ≡ some k)
        → (k : UserShare) × (find (grants_to h.item_id caller) (g ∷ grants) ≡ some k)
    later g h (k, e) = elim (Bool-cases (grants_to h.item_id caller g)) [
      | inl first ↦ (g, rw first refl)
      | inr other ↦ (k, rw other e)
    ]

pub received-granted :
    (db : Db) (caller : Text)
    → All
        (λ (g : UserShare). (k : UserShare) × (find_grant db g.item_id caller ≡ some k))
        (list_received_by db caller)
unfolding list_received_by find_grant
received-granted db caller =
    All-order_by _ _ _ (All-of_select _ _ db.grants (granted db caller db.grants))

module _ (engine : Engine) (db : Db) (caller query : Text) (forest : IsForest db.items)
    (keys : HasKeys db.items) where
  subtree_rows :
      (root : Text) (g : UserShare) (ids : List Text)
      → find_grant db root caller ≡ some g
      → All (Below db root) ids
      → All (λ i. (k : UserShare) × Inherits db caller i k) (rows_of db ids)
  unfolding rows_of
  subtree_rows root g [] found below = tt
  subtree_rows root g (id ∷ ids) found below =
      let rest = subtree_rows root g ids found below.1 in
      elim (Option-cases (row db.items id)) [
        | inl missing ↦ rw (rows_of, missing) rest
        | inr there ↦
            rw (rows_of, there.1)
              (Below-Inherits db caller root g id there.0 forest found below.0 there.1, rest)
      ]

  shared_row-IsHit :
      (item : Item)
      → (k : UserShare) × Inherits db caller item k
      → (is_active item && name_matches engine query item) ≡ true
      → IsHit engine db caller query item
  shared_row-IsHit item (k, inherits) h =
      let active : item.deleted_at ≡ none = ground arith in
      record { active = active; may = grantee k active inherits; matched = inl (ground arith) }

  -- In a forest the search of a subtree ends, and all its items may be returned.
  shared-IsHit :
      (root : Text) (g : UserShare) (limit : ℕ)
      → find_grant db root caller ≡ some g
      → (items : List Item) × (search_by_name_in_subtree engine db root query limit ≡ ok items)
        × All (IsHit engine db caller query) items
  unfolding search_by_name_in_subtree newest_matches
  shared-IsHit root g limit found =
      let (ids, e, below) = subtree_sound db root forest keys in
      (
        newest_matches engine db query limit ids,
        rw (search_by_name_in_subtree, e),
        All-take (IsHit engine db caller query) limit _ (
            All-order_by (IsHit engine db caller query) _ _ (
              All-of_select (IsHit engine db caller query) _ (rows_of db ids) (
                All-imp _ _ (rows_of db ids) shared_row-IsHit
                  (subtree_rows root g ids found below)))),
      )

  pub add_shared-IsGood :
      (grants : List UserShare) (results : List Item)
      → All (λ (g : UserShare). (k : UserShare) × (find_grant db g.item_id caller ≡ some k)) grants
      → IsGood (IsHit engine db caller query) results
      → (items : List Item) × (add_shared engine db query grants results ≡ ok items)
        × IsGood (IsHit engine db caller query) items
  unfolding add_shared
  add_shared-IsGood [] results found good = (results, refl, good)
  add_shared-IsGood (grant ∷ grants) results found good = elim (Bool-cases (is_full results)) [
    | inl full ↦ (results, rw (add_shared, full), good)
    | inr room ↦
        let (matches, e, hits) =
          shared-IsHit grant.item_id found.0.0 search_result_limit found.0.1 in
        let (items, e', good') =
          add_shared-IsGood grants (add_all results matches) found.1
            (add_all-IsGood (IsHit engine db caller query) matches results good hits) in
        (items, rw (add_shared, room, e) e', good')
  ]
