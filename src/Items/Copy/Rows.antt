-- ===== src/Items/Copy/Rows.antt =====
-- What one row that Copy adds leaves of the table `items`.
use denizen.Prelude.{◌≡◌, sym, ap, ◌∙◌, ◌⊎◌, inl, inr, Option, some, List, ◌∷◌, Text, text_eq, All}
use denizen.Model.{Item, folder, Db}
use denizen.Result.{Result, ok, Result-cases}
use denizen.Storage.{join}
use denizen.Storage.Laws.{IsSafe}
use denizen.Storage.Disk as Disk
use denizen.Repo.Items.{row, create}
use denizen.Repo.Users.{increment_storage_used}
use denizen.Items.Paths.{path_on_disk}
use denizen.Items.Sound.{IsSound}
use denizen.Items.Sound.Created.{IsSound-cons, create_fresh, row_self, row-other}
use denizen.Items.Create.{Place, new_folder}
use denizen.Items.Create.Commit.{make_folder, quota_for}
use denizen.Items.Create.Sound.{make_folder_items}
use denizen.Items.Copy.{copied_file, copy_file}
use denizen.World.{Env, World, Service}

-- Each row, not only the first with its id, has a name that is one segment.
abbrev pub HasSafeNames : List Item → Type 0
HasSafeNames = All (λ (i : Item). IsSafe i.name)

-- What a copy leaves of the table.
pub record IsCopied (before after : List Item) : Type 0 where
  pub sound : IsSound after
  pub names : HasSafeNames after
  pub kept : (id : Text) (i : Item) → row before id ≡ some i → row after id ≡ some i

-- The new parent, if there is one, is a folder of the table.
abbrev pub HasFolder : List Item → Option Text → Type 0
HasFolder items parent_id =
    (p : Text) → parent_id ≡ some p → (q : Item) × (row items p ≡ some q) × (q.type ≡ folder)

pub same-IsCopied :
    (items after : List Item)
    → after ≡ items
    → IsSound items
    → HasSafeNames items
    → IsCopied items after
same-IsCopied items after same sound names =
    rw same (record { sound = sound; names = names; kept = λ id i e. e })

pub created-IsCopied :
    (db db' : Db) (item : Item)
    → create item db ≡ ok db'
    → HasFolder db.items item.parent_id
    → IsSafe item.name
    → IsSound db.items
    → HasSafeNames db.items
    → IsCopied db.items db'.items
created-IsCopied db db' item made parent name sound names =
    let (fresh, same) = create_fresh item db db' made in
    rw same (record {
      sound = IsSound-cons item db.items fresh sound parent name;
      names = (name, names);
      kept = row-other item db.items fresh;
    })

pub IsCopied-trans : {a b c : List Item} → IsCopied a b → IsCopied b c → IsCopied a c
IsCopied-trans f g = record {
  sound = g.sound;
  names = g.names;
  kept = λ id i e. g.kept id i (f.kept id i e);
}

pub HasFolder-kept :
    {a b : List Item} {parent_id : Option Text}
    → IsCopied a b
    → HasFolder a parent_id
    → HasFolder b parent_id
HasFolder-kept c h p e = let (q, there, isfolder) = h p e in (q, c.kept p q there, isfolder)

-- A step that copies something below a parent.
abbrev pub Copies : Option Text → {A : Type 0} → Service A → Type 0
Copies parent_id m =
    (w : World)
    → IsSound w.db.items
    → HasSafeNames w.db.items
    → HasFolder w.db.items parent_id
    → IsCopied w.db.items (m w).1.db.items

pub copy_file_items :
    (env : Env) (source_username : Text) (item : Item) (parent_id : Option Text) (place : Place)
    (w : World)
    → ((copy_file env source_username item parent_id place w).1.db.items ≡ w.db.items)
      ⊎ ((db' : Db) × (create (copied_file item place parent_id w.now (env.id w.drawn)) w.db
            ≡ ok db')
          × ((copy_file env source_username item parent_id place w).1.db.items ≡ db'.items))
unfolding copy_file increment_storage_used
copy_file_items env source_username item parent_id place w =
    elim (Result-cases (quota_for env place.owner_id item.size_bytes w)) [
      | inr over ↦ inl (rw over.1)
      | inl fits ↦ elim (Result-cases (path_on_disk env w.db source_username item)) [
        | inr lost ↦ inl (rw (fits.1, lost.1))
        | inl source ↦
            elim (Result-cases (Disk.copy_file source.0 (join place.folder place.name) w.disk).0) [
              | inr failed ↦ inl (rw (fits.1, source.1, failed.1))
              | inl copied ↦
                  elim (Result-cases
                    (create (copied_file item place parent_id w.now (env.id w.drawn)) w.db)) [
                      | inl made ↦ inr (made.0, made.1, rw (fits.1, source.1, copied.1, made.1))
                      | inr refused ↦ inl (rw (fits.1, source.1, copied.1, refused.1))
                    ]
            ]
      ]
    ]

pub copy_file-IsCopied :
    (env : Env) (source_username : Text) (item : Item) (parent_id : Option Text) (place : Place)
    → IsSafe place.name
    → Copies parent_id (copy_file env source_username item parent_id place)
copy_file-IsCopied env source_username item parent_id place name w sound names parent =
    elim (copy_file_items env source_username item parent_id place w) [
      | inl same ↦ same-IsCopied w.db.items _ same sound names
      | inr (db', made, same) ↦ rw same (
          created-IsCopied w.db db' (copied_file item place parent_id w.now (env.id w.drawn)) made
            parent name sound names)
    ]

pub make_folder-IsCopied :
    (env : Env) (parent_id : Option Text) (place : Place)
    → IsSafe place.name
    → Copies parent_id (make_folder env parent_id place)
make_folder-IsCopied env parent_id place name w sound names parent =
    elim (make_folder_items env parent_id place w) [
      | inl same ↦ same-IsCopied w.db.items _ same sound names
      | inr (db', made, same) ↦ rw same (
          created-IsCopied w.db db' (new_folder place parent_id w.now (env.id w.drawn)) made parent
            name sound names)
    ]

pub ok-inj : {A : Type 0} {a b : A} → ok a ≡ ok b → a ≡ b
ok-inj h = cc

pub some-inj : {A : Type 0} {a b : A} → some a ≡ some b → a ≡ b
some-inj h = cc

-- The folder that is made is in the table.
pub make_folder-there :
    (env : Env) (parent_id : Option Text) (place : Place) (w w' : World) (made : Item)
    → make_folder env parent_id place w ≡ (ok made, w')
    → HasFolder w'.db.items (some made.id)
unfolding make_folder
make_folder-there env parent_id place w w' made h p e =
    let item = new_folder place parent_id w.now (env.id w.drawn) in
    elim (Result-cases (Disk.create_folder (join place.folder place.name) w.disk).0) [
      | inr failed ↦ cc (rw failed.1 at h)
      | inl done ↦ elim (Result-cases (create item w.db)) [
        | inr refused ↦ cc (rw (done.1, refused.1) at h)
        | inl created ↦
            let (fresh, same) = create_fresh item w.db created.0 created.1 in
            let result = rw (done.1, created.1) at h in
            let both : item ≡ made = ok-inj (ap (λ (r : Result Item × World). r.0) result) in
            let table : w'.db.items ≡ item ∷ w.db.items =
              sym (ap (λ (r : Result Item × World). r.1.db.items) result) ∙ same in
            let at : p ≡ item.id = sym (some-inj e) ∙ ap (λ (i : Item). i.id) (sym both) in
            (
              made,
              rw (table, at) (row_self item w.db.items fresh ∙ ap some both),
              ap (λ (i : Item). i.type) (sym both),
            )
      ]
    ]
