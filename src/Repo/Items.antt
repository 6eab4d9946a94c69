-- ===== src/Repo/Items.antt =====
-- internal/repository/item.go over the table `items`: the reads, and the writes with the
-- constraints of the table (primary key, references, one active name in a folder).
pub mod Laws
use denizen.Prelude.{
  ℕ, Bool, true, false, ◌&&◌, ◌||◌, not, Option, none, some, List, [], ◌∷◌, map, Text, ◌==◌,
  text_eq, option_text_eq, ltb, leb, eqb, find, select, any, take, if◌then◌else◌,
}
use denizen.Prelude.Int.{ℤ, lt_int}
use denizen.Model.{
  Item, ItemType, file, folder, is_folder, User, Share, UserShare, Favorite, Indexed, Stamp, Db,
  is_null, constraint,
}
use denizen.Result.{Result, ok, err, one_row}

-- The order of `ORDER BY`: a stable insertion sort.
unfoldable pub insert_by {ℓ} : {A : Type ℓ} → (A → A → Bool) → A → List A → List A
insert_by before x [] = x ∷ []
insert_by before x (y ∷ ys) =
    let rest = insert_by before x ys in if before y x then y ∷ rest else x ∷ y ∷ ys

unfoldable pub order_by {ℓ} : {A : Type ℓ} → (A → A → Bool) → List A → List A
unfolding insert_by
order_by before [] = []
order_by before (x ∷ xs) = insert_by before x (order_by before xs)

-- The order of texts, byte by byte: a < b.
text_lt : Text → Text → Bool
text_lt [] [] = false
text_lt [] (d ∷ t) = true
text_lt (c ∷ s) [] = false
text_lt (c ∷ s) (d ∷ t) = let rest = text_lt s t in if eqb c d then rest else ltb c d

-- ORDER BY type DESC, name ASC
folders_first : Item → Item → Bool
unfolding text_lt
folders_first a b =
    if is_folder a.type
    then (if is_folder b.type then text_lt a.name b.name else true)
    else (if is_folder b.type then false else text_lt a.name b.name)

abbrev deleted_before : Item → Item → Bool
deleted_before a b = elim a.deleted_at [
  | none ↦ false
  | some s ↦ elim b.deleted_at [ none ↦ false | some t ↦ lt_int s t ]
]

abbrev pub is_active : Item → Bool
is_active item = is_null item.deleted_at

abbrev pub has_id : Text → Item → Bool
has_id id item = item.id == id

-- The row with an id: GetByID before `scanOne`.
unfoldable pub row : List Item → Text → Option Item
row items id = find (has_id id) items

-- GetByID
unfoldable pub get_by_id : Db → Text → Result Item
unfolding row
get_by_id db id = one_row (row db.items id)

abbrev pub is_child : Text → Option Text → Item → Bool
is_child owner_id parent_id item = item.owner_id == owner_id && item.parent_id == parent_id

-- ListChildren
unfoldable pub list_children : Db → Text → Option Text → List Item
unfolding order_by folders_first
list_children db owner_id parent_id =
    order_by folders_first (select (λ i. is_child owner_id parent_id i && is_active i) db.items)

-- ListChildrenDeleted
unfoldable pub list_children_deleted : Db → Text → Option Text → List Item
unfolding order_by text_lt
list_children_deleted db owner_id parent_id =
    order_by (λ a b. text_lt a.name b.name)
      (select (λ i. is_child owner_id parent_id i && not (is_active i)) db.items)

-- ListRecentFiles
unfoldable pub list_recent_files : Db → Text → ℕ → List Item
unfolding order_by
list_recent_files db owner_id limit = take limit (
    order_by (λ a b. lt_int b.updated_at a.updated_at)
      (select (λ i. i.owner_id == owner_id && is_active i && not (is_folder i.type)) db.items))

-- ListTrash
unfoldable pub list_trash : Db → Text → List Item
unfolding order_by
list_trash db owner_id =
    order_by (λ a b. deleted_before b a)
      (select (λ i. i.owner_id == owner_id && not (is_active i)) db.items)

abbrev pub trashed_before : ℤ → Item → Bool
trashed_before cutoff item = elim item.deleted_at [ none ↦ false | some t ↦ lt_int t cutoff ]

-- ListTrashedBefore
unfoldable pub list_trashed_before : Db → ℤ → List Item
unfolding order_by
list_trashed_before db cutoff = order_by deleted_before (select (trashed_before cutoff) db.items)

abbrev pub has_name : Text → Option Text → Text → Text → Item → Bool
has_name owner_id parent_id name exclude_id item =
    item.owner_id == owner_id
    && item.parent_id == parent_id
    && item.name == name
    && is_active item
    && not (item.id == exclude_id)

-- NameExists
unfoldable pub name_exists : Db → Text → Option Text → Text → Text → Bool
name_exists db owner_id parent_id name exclude_id =
    any (has_name owner_id parent_id name exclude_id) db.items

-- IFNULL(parent_id, '')
abbrev parent_key : Option Text → Text
parent_key none = []
parent_key (some p) = p

-- The unique index idx_items_unique_name_per_folder forbids a row beside another.
abbrev clashes : Item → Item → Bool
clashes new item =
    is_active new
    && is_active item
    && not (item.id == new.id)
    && item.owner_id == new.owner_id
    && parent_key item.parent_id == parent_key new.parent_id
    && item.name == new.name

-- A reference of a row to an item: NULL, or the id of a row. A row may refer to itself.
abbrev refers : List Item → Option Text → Bool
refers items none = true
refers items (some id) = any (has_id id) items

abbrev pub owner_exists : Db → Text → Bool
owner_exists db id = any (λ (u : User). u.id == id) db.users

-- Create
unfoldable pub create : Item → Db → Result Db
create item db =
    if any (has_id item.id) db.items
    then err constraint
    else if any (clashes item) db.items
    then err constraint
    else if owner_exists db item.owner_id
        && refers (item ∷ db.items) item.parent_id
        && refers (item ∷ db.items) item.target_id
    then ok (record db { items = item ∷ db.items })
    else err constraint

-- UPDATE items SET … WHERE id = ?
unfoldable pub set_row : (Item → Item) → Text → List Item → List Item
set_row change id = map (λ i. if i.id == id then change i else i)

-- An update of one row, which leaves its id, its owner and its target alone. With no such row it
-- changes nothing and is no error.
unfoldable pub update : (Item → Item) → Text → Db → Result Db
unfolding row set_row
update change id db = elim (row db.items id) [
  | none ↦ ok db
  | some item ↦
      if any (clashes (change item)) db.items
      then err constraint
      else if refers db.items (change item).parent_id
      then ok (record db { items = set_row change id db.items })
      else err constraint
]

abbrev pub renamed : Text → Option Text → ℤ → Item → Item
renamed name parent_id updated_at item = record item {
  name = name;
  parent_id = parent_id;
  updated_at = updated_at;
}

-- UpdateNameParent
unfoldable pub update_name_parent : Text → Text → Option Text → ℤ → Db → Result Db
unfolding update
update_name_parent id name parent_id updated_at = update (renamed name parent_id updated_at) id

-- UpdateMimeType
unfoldable pub update_mime_type : Text → Text → Db → Result Db
unfolding update
update_mime_type id mime_type = update (λ i. record i { mime_type = some mime_type }) id

abbrev pub replaced : ℤ → Text → ℤ → Item → Item
replaced size checksum updated_at item = record item {
  size_bytes = size;
  checksum = some checksum;
  updated_at = updated_at;
}

-- UpdateContent
unfoldable pub update_content : Text → ℤ → Text → ℤ → Db → Result Db
unfolding update
update_content id size checksum updated_at = update (replaced size checksum updated_at) id

abbrev pub trashed : ℤ → Item → Item
trashed deleted_at item = record item { deleted_at = some deleted_at }

-- SoftDelete
unfoldable pub soft_delete : Text → ℤ → Db → Result Db
unfolding update
soft_delete id deleted_at = update (trashed deleted_at) id

abbrev pub restored : Text → Option Text → ℤ → Item → Item
restored name parent_id updated_at item = record item {
  deleted_at = none;
  name = name;
  parent_id = parent_id;
  updated_at = updated_at;
}

-- Restore
unfoldable pub restore : Text → Text → Option Text → ℤ → Db → Result Db
unfolding update
restore id name parent_id updated_at = update (restored name parent_id updated_at) id

abbrev pub cleared : ℤ → Item → Item
cleared updated_at item = record item { deleted_at = none; updated_at = updated_at }

-- ClearDeletedAt
unfoldable pub clear_deleted_at : Text → ℤ → Db → Result Db
unfolding update
clear_deleted_at id updated_at = update (cleared updated_at) id

-- Whether a row of `items` or `shares`, which have no ON DELETE CASCADE, refers to an item.
unfoldable pub is_referenced : Db → Text → Bool
is_referenced db id =
    any (λ (i : Item). not (i.id == id) && (i.parent_id == some id || i.target_id == some id))
      db.items
    || any (λ (s : Share). s.item_id == id) db.shares

-- HardDelete: the rows of the tables with ON DELETE CASCADE go with the item.
unfoldable pub hard_delete : Text → Db → Result Db
unfolding is_referenced
hard_delete id db =
    if any (has_id id) db.items && is_referenced db id
    then err constraint
    else ok (record db {
      items = select (λ i. not (has_id id i)) db.items;
      grants = select (λ (g : UserShare). not (g.item_id == id)) db.grants;
      favorites = select (λ (f : Favorite). not (f.item_id == id)) db.favorites;
      ocr_queue = select (λ (q : Stamp). not (q.item_id == id)) db.ocr_queue;
      ocr_attempts = select (λ (q : Stamp). not (q.item_id == id)) db.ocr_attempts;
    })

-- ListAllFiles
unfoldable pub list_all_files : Db → List Item
list_all_files db =
    select (λ i. not (is_folder i.type) && is_active i && is_null i.target_id) db.items
