-- ===== src/Items/Shared.antt =====
-- SharedUsernames of internal/service/item.go: the names behind the grants of many items, where a name is
-- read once. The map of Go is an association list.
use mathlib.Core.Option.{some-injective}
use denizen.Prelude.{
  ◌≡◌, refl, ap, sym, ◌∙◌, arith, none, some, List, [], ◌∷◌, ◌++◌, map, Text, ◌==◌, ==_iff, text_eq,
  select, Bool-cases, Option-cases, inl, inr, if◌then◌else◌,
}
use denizen.Model.{UserShare, Db}
use denizen.Repo.Shares.{list_by_items}
use denizen.Shares.{name_of}
use denizen.Items.Scan.{Names, name_read}

-- The name of a user, read at most once, and the names read by then
unfoldable pub share_name : Db → Names → Text → Text × Names
unfolding name_read name_of
share_name db names id = elim (name_read names id) [
  | some name ↦ (name, names)
  | none ↦ (name_of db id, (id, name_of db id) ∷ names)
]

abbrev pub NameLists : Type 0
NameLists = List (Text × List Text)

-- out[id]
unfoldable pub names_at : NameLists → Text → List Text
names_at [] id = []
names_at ((key, names) ∷ out) id = let rest = names_at out id in if key == id then names else rest

-- out[id] = append(out[id], name)
unfoldable pub append_name : Text → Text → NameLists → NameLists
append_name id name [] = (id, name ∷ []) ∷ []
append_name id name ((key, names) ∷ out) =
    let rest = append_name id name out in
    if key == id then (key, names ++ name ∷ []) ∷ out else (key, names) ∷ rest

-- The loop of SharedUsernames
unfoldable pub share_names_from : Db → List UserShare → Names → NameLists → NameLists
unfolding share_name append_name
share_names_from db [] names out = out
share_names_from db (grant ∷ grants) names out =
    let (name, names') = share_name db names grant.shared_with_id in
    share_names_from db grants names' (append_name grant.item_id name out)

-- SharedUsernames
unfoldable pub shared_usernames : Db → List Text → NameLists
unfolding share_names_from
shared_usernames db item_ids = share_names_from db (list_by_items db item_ids) [] []

-- The names that were read are those of the table.
abbrev IsRead : Db → Names → Type 0
IsRead db names = (id name : Text) → name_read names id ≡ some name → name ≡ name_of db id

IsRead-cons :
    (db : Db) (names : Names) (id : Text)
    → IsRead db names
    → IsRead db ((id, name_of db id) ∷ names)
unfolding name_read
IsRead-cons db names id ok_names other name e = elim (Bool-cases (id == other)) [
  | inl same ↦
      let here : some (name_of db id) ≡ some name = rw (name_read, same) at e in
      rw (← (==_iff id other).0 same) (sym (some-injective (name_of db id) name here))
  | inr apart ↦ ok_names other name (rw (name_read, apart) at e)
]

share_name-eq :
    (db : Db) (names : Names) (id : Text)
    → IsRead db names
    → ((share_name db names id).0 ≡ name_of db id) × IsRead db (share_name db names id).1
unfolding share_name
share_name-eq db names id ok_names = elim (Option-cases (name_read names id)) [
  | inr known ↦ rw (share_name, known.1) (ok_names id known.0 known.1, ok_names)
  | inl missing ↦ rw (share_name, missing) (refl, IsRead-cons db names id ok_names)
]

names_at-append_name :
    (id name : Text) (out : NameLists) (other : Text)
    → names_at (append_name id name out) other
      ≡ (if id == other then names_at out other ++ name ∷ [] else names_at out other)
unfolding names_at append_name
names_at-append_name id name [] other = ground arith
names_at-append_name id name ((key, names) ∷ out) other =
    ground (arith, names_at-append_name id name out other)

append_assoc : (xs : List Text) (y : Text) (zs : List Text) → (xs ++ y ∷ []) ++ zs ≡ xs ++ y ∷ zs
append_assoc [] y zs = refl
append_assoc (x ∷ xs) y zs = ap (λ (r : List Text). x ∷ r) (append_assoc xs y zs)

append_nil : (xs : List Text) → xs ++ [] ≡ xs
append_nil [] = refl
append_nil (x ∷ xs) = ap (λ (r : List Text). x ∷ r) (append_nil xs)

-- The names of the users to whom an item is granted, in the order of the grants.
abbrev pub names_for : Db → List UserShare → Text → List Text
names_for db grants id =
    map (λ (g : UserShare). name_of db g.shared_with_id)
      (select (λ (g : UserShare). g.item_id == id) grants)

-- The loop, from names that were read and from any map.
names_at-share_names_from :
    (db : Db) (grants : List UserShare) (names : Names) (out : NameLists) (id : Text)
    → IsRead db names
    → names_at (share_names_from db grants names out) id ≡ names_at out id ++ names_for db grants id
unfolding share_names_from
names_at-share_names_from db [] names out id ok_names = sym (append_nil (names_at out id))
names_at-share_names_from db (grant ∷ grants) names out id ok_names =
    let (read, ok_names') = share_name-eq db names grant.shared_with_id ok_names in
    let (name, names') = share_name db names grant.shared_with_id in
    let rest =
      names_at-share_names_from db grants names' (append_name grant.item_id name out) id
        ok_names' in
    let here = names_at-append_name grant.item_id name out id in
    elim (Bool-cases (grant.item_id == id)) [
      | inr apart ↦ rw apart (rest ∙ ap (λ ns. ns ++ names_for db grants id) (rw apart at here))
      | inl same ↦ rw same (
          rest
          ∙ (ap (λ ns. ns ++ names_for db grants id) (rw same at here)
              ∙ (append_assoc (names_at out id) name (names_for db grants id)
                  ∙ ap (λ n. names_at out id ++ n ∷ names_for db grants id) read)))
    ]

-- SharedUsernames maps each item to the names behind all of its grants, in the order of the grants, as if
-- each name were read anew.
shared_usernames-names_for :
    (db : Db) (item_ids : List Text) (id : Text)
    → names_at (shared_usernames db item_ids) id ≡ names_for db (list_by_items db item_ids) id
unfolding shared_usernames names_at
shared_usernames-names_for db item_ids id =
    names_at-share_names_from db (list_by_items db item_ids) [] [] id (λ i n e. cc)
