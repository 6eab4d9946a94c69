-- ===== src/Items/Access/Exact.antt =====
-- Reads and writes are allowed exactly for the owner, and for whom a grant on the item or on a folder
-- above it reaches.
use denizen.Prelude.{
  ◌≡◌, refl, ◌∙◌, ◌↔◌, ◌⊎◌, inl, inr, Option, none, some, arith, Text, ◌==◌, text_eq, Option-cases,
  if◌then◌else◌,
}
use denizen.Model.{Item, folder, UserShare, edit, view, Db, Error, not_found, forbidden}
use denizen.Result.{ok, err, >>=-eq-ok}
use denizen.Repo.Items.{row, get_by_id, is_active}
use denizen.Items.Forest.{IsForest}
use denizen.Items.Walk.{resolve_grant}
use denizen.Items.Walk.Ends.{Inherits, resolve_grant_total, resolve_grant-iff_Inherits}
use denizen.Items.Access.{get_including_trashed, get_for_write, validate_folder, seen, editable}

abbrev pub IsActive : Item → Type 0
IsActive item = item.deleted_at ≡ none

-- The owner reads an item in the trash too; anybody else reads what a grant reaches.
pub data MayRead (db : Db) (caller : Text) (item : Item) : Type 0 where
  owner : item.owner_id ≡ caller → MayRead db caller item
  grantee : (g : UserShare) → IsActive item → Inherits db caller item g → MayRead db caller item

pub data MayWrite (db : Db) (caller : Text) (item : Item) : Type 0 where
  owner : IsActive item → item.owner_id ≡ caller → MayWrite db caller item
  editor :
      (g : UserShare)
      → IsActive item
      → Inherits db caller item g
      → g.permission ≡ edit
      → MayWrite db caller item

module _ (db : Db) (caller id : Text) (i : Item) (o : Option UserShare)
    (e : row db.items id ≡ some i) (r : resolve_grant db i caller ≡ ok o) where
  read_row :
      get_including_trashed db caller id
      ≡ (if i.owner_id == caller then ok i else (if is_active i then seen i o else err not_found))
  unfolding get_including_trashed get_by_id
  read_row = rw (e, get_including_trashed, get_by_id) (ground arith)

  write_row : get_for_write db caller id ≡ (
      if is_active i then (if i.owner_id == caller then ok i else editable i o) else err not_found)
  unfolding get_for_write get_by_id
  write_row = rw (e, get_for_write, get_by_id) (ground arith)

no_row_read :
    (db : Db) (caller id : Text)
    → row db.items id ≡ none
    → get_including_trashed db caller id ≡ err not_found
unfolding get_including_trashed get_by_id
no_row_read db caller id e = rw (e, get_including_trashed, get_by_id)

no_row_write :
    (db : Db) (caller id : Text)
    → row db.items id ≡ none
    → get_for_write db caller id ≡ err not_found
unfolding get_for_write get_by_id
no_row_write db caller id e = rw (e, get_for_write, get_by_id)

-- What an answer that allows the access says of the row and of the grant.
read_means :
    (caller : Text) (i item : Item) (o : Option UserShare)
    → (if i.owner_id == caller then ok i else (if is_active i then seen i o else err not_found))
      ≡ ok item
    → (i ≡ item) × ((i.owner_id ≡ caller) ⊎ (IsActive i × ((g : UserShare) × (o ≡ some g))))
read_means caller i item none h = (ground arith, inl (ground arith))
read_means caller i item (some g) h = elim (text_eq.dec i.owner_id caller) [
  | yes same ↦ (ground arith, inl same)
  | no other ↦ (ground arith, inr (ground arith, (g, refl)))
]

write_means :
    (caller : Text) (i item : Item) (o : Option UserShare)
    → (if is_active i then (if i.owner_id == caller then ok i else editable i o) else err not_found)
      ≡ ok item
    → (i ≡ item)
      × IsActive i
      × ((i.owner_id ≡ caller) ⊎ ((g : UserShare) × (o ≡ some g) × (g.permission ≡ edit)))
write_means caller i item none h = (ground arith, ground arith, inl (ground arith))
write_means caller i item (some g) h = elim (text_eq.dec i.owner_id caller) [
  | yes same ↦ (ground arith, ground arith, inl same)
  | no other ↦ (ground arith, ground arith, inr (g, refl, ground arith))
]

module _ (db : Db) (forest : IsForest db.items) (caller id : Text) where
  read_sound_row :
      (i item : Item)
      → row db.items id ≡ some i
      → get_including_trashed db caller id ≡ ok item
      → (row db.items id ≡ some item) × MayRead db caller item
  read_sound_row i item e h =
      let (o, r) = resolve_grant_total db id i caller forest e in
      let (same, why) = read_means caller i item o (rw (← (read_row db caller id i o e r)) h) in
      rw (← same) (
        e,
        elim why [
          | inl own ↦ MayRead.owner own
          | inr granted ↦
              grantee granted.1.0 granted.0
                ((resolve_grant-iff_Inherits db id i caller forest e granted.1.0).0 (cc))
        ],
      )

  read_sound :
      (item : Item)
      → get_including_trashed db caller id ≡ ok item
      → (row db.items id ≡ some item) × MayRead db caller item
  read_sound item h = elim (Option-cases (row db.items id)) [
    | inl missing ↦ cc (no_row_read db caller id missing)
    | inr found ↦ read_sound_row found.0 item found.1 h
  ]

  read_complete :
      (item : Item)
      → row db.items id ≡ some item
      → MayRead db caller item
      → get_including_trashed db caller id ≡ ok item
  read_complete item e (MayRead.owner own) =
      let (o, r) = resolve_grant_total db id item caller forest e in
      read_row db caller id item o e r ∙ ground arith
  read_complete item e (grantee g active i) =
      let r = (resolve_grant-iff_Inherits db id item caller forest e g).1 i in
      read_row db caller id item (some g) e r ∙ ground arith

  -- In a forest GetIncludingTrashed returns a row exactly to the owner, and where the item is not in
  -- the trash to whom a grant on it or on a folder above it reaches.
  pub get_including_trashed_iff :
      (item : Item)
      → (get_including_trashed db caller id ≡ ok item)
        ↔ ((row db.items id ≡ some item) × MayRead db caller item)
  get_including_trashed_iff item = (read_sound item, λ h. read_complete item h.0 h.1)

  write_sound_row :
      (i item : Item)
      → row db.items id ≡ some i
      → get_for_write db caller id ≡ ok item
      → (row db.items id ≡ some item) × MayWrite db caller item
  write_sound_row i item e h =
      let (o, r) = resolve_grant_total db id i caller forest e in
      let (same, active, why) =
        write_means caller i item o (rw (← (write_row db caller id i o e r)) h) in
      rw (← same) (
        e,
        elim why [
          | inl own ↦ MayWrite.owner active own
          | inr granted ↦
              editor granted.0 active
                ((resolve_grant-iff_Inherits db id i caller forest e granted.0).0 (cc)) granted.2
        ],
      )

  write_sound :
      (item : Item)
      → get_for_write db caller id ≡ ok item
      → (row db.items id ≡ some item) × MayWrite db caller item
  write_sound item h = elim (Option-cases (row db.items id)) [
    | inl missing ↦ cc (no_row_write db caller id missing)
    | inr found ↦ write_sound_row found.0 item found.1 h
  ]

  write_complete :
      (item : Item)
      → row db.items id ≡ some item
      → MayWrite db caller item
      → get_for_write db caller id ≡ ok item
  write_complete item e (MayWrite.owner active own) =
      let (o, r) = resolve_grant_total db id item caller forest e in
      write_row db caller id item o e r ∙ ground arith
  write_complete item e (editor g active i p) =
      let r = (resolve_grant-iff_Inherits db id item caller forest e g).1 i in
      write_row db caller id item (some g) e r ∙ ground arith

  -- In a forest GetForWrite returns a row exactly if it is not in the trash, and the caller is the
  -- owner or has a grant to edit on it or on a folder above it, with none nearer.
  pub get_for_write_iff :
      (item : Item)
      → (get_for_write db caller id ≡ ok item)
        ↔ ((row db.items id ≡ some item) × MayWrite db caller item)
  get_for_write_iff item = (write_sound item, λ h. write_complete item h.0 h.1)

refusal_means :
    (caller : Text) (i : Item) (o : Option UserShare) (e : Error)
    → (if is_active i then (if i.owner_id == caller then ok i else editable i o) else err not_found)
      ≡ err e
    → (e ≡ not_found) ⊎ ((e ≡ forbidden) × ((g : UserShare) × (o ≡ some g) × (g.permission ≡ view)))
refusal_means caller i none e h = inl (ground arith)
refusal_means caller i (some g) e h = elim (Option-cases i.deleted_at) [
  | inl active ↦ inr (ground arith, (g, refl, ground arith))
  | inr trashed ↦ inl (ground arith)
]

-- In a forest GetForWrite refuses as if there were no such item, or, only to a caller whom a grant to
-- view reaches, as forbidden.
pub get_for_write_refusal :
    (db : Db) (caller id : Text) (e : Error)
    → IsForest db.items
    → get_for_write db caller id ≡ err e
    → (e ≡ not_found)
      ⊎ ((e ≡ forbidden)
          × ((item : Item) × (g : UserShare) × (row db.items id ≡ some item)
              × Inherits db caller item g
              × (g.permission ≡ view)))
get_for_write_refusal db caller id e forest h = elim (Option-cases (row db.items id)) [
  | inl missing ↦ inl (cc (no_row_write db caller id missing))
  | inr found ↦
      let (o, r) = resolve_grant_total db id found.0 caller forest found.1 in
      elim (refusal_means caller found.0 o e
        (rw (← (write_row db caller id found.0 o found.1 r)) h)) [
          | inl hidden ↦ inl hidden
          | inr shown ↦ inr (
            shown.0,
            (
              found.0,
              shown.1.0,
              found.1,
              (resolve_grant-iff_Inherits db id found.0 caller forest found.1 shown.1.0).0 (cc),
              shown.1.2,
            ),
          )
        ]
]

-- In a forest an id that ValidateFolder accepts is that of a folder that the caller may write to, and
-- the owner of the folder is returned.
pub validate_folder_sound :
    (db : Db) (caller p o : Text)
    → IsForest db.items
    → validate_folder db caller (some p) ≡ ok o
    → (q : Item) × (row db.items p ≡ some q)
      × (q.type ≡ folder)
      × (o ≡ q.owner_id)
      × MayWrite db caller q
unfolding validate_folder
validate_folder_sound db caller p o forest h =
    let (q, writable, rest) = >>=-eq-ok (get_for_write db caller p) _ h in
    let (e, may) = write_sound db forest caller p q writable in
    (q, e, ground arith, ground arith, may)
