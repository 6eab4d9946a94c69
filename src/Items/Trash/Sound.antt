-- ===== src/Items/Trash/Sound.antt =====
-- The trash keeps the invariant of the table `items`.
pub mod Whole
use denizen.Prelude.{
  ℕ, zero, suc, ◌≡◌, ◌≢◌, refl, ◌∙◌, ap, sym, true, false, not, Option, none, some, List, [], ◌∷◌,
  arith, Text, ◌==◌, text_eq, option_text_eq, ◌||◌, ◌&&◌, any, select, if◌then◌else◌, Option-cases,
  Bool-cases, inl, inr, ◌⊎◌,
}
use denizen.Prelude.Int.{ℤ}
use denizen.Model.{Item, folder, Db, is_folder}
use denizen.Result.{Result, ok, err, Result-cases}
use denizen.Exec.{Exec, pure, read, ◌>>=◌, ◌>>◌, ◌on_error◌}
use denizen.Exec.Keeps.{Keeps, Keeps->>=, Keeps-on_error}
use denizen.Repo.Items.{
  row, get_by_id, set_row, update, trashed, cleared, list_children, list_children_deleted,
  soft_delete, clear_deleted_at, hard_delete, is_referenced,
}
use denizen.Repo.Items.Laws.{
  row-without, row-without_ne, without, any-false-row, any-has_id_of_row, id-row,
}
use denizen.Items.Forest.{Rooted, top, under}
use denizen.Items.Sound.{IsSound}
use denizen.Items.Sound.Kept.{IsSound-set_row_same}
use denizen.Items.Sound.Created.{row_above}
use denizen.Repo.Users.{increment_storage_used}
use denizen.Repo.Index.{remove_content}
use denizen.Items.Trash.Commit.{each, mark_from, unmark_from, purge_from, free_file}
use denizen.World.{Env, World, Service, exec_sql, exec_sql'}

abbrev pub HasSoundItems : World → Type 0
HasSoundItems w = IsSound w.db.items

pub updated_items :
    (change : Item → Item) (id : Text) (db db' : Db) (i : Item)
    → row db.items id ≡ some i
    → update change id db ≡ ok db'
    → db'.items ≡ set_row change id db.items
unfolding update
updated_items change id db db' i e h = ground arith

pub updated-IsSound :
    (change : Item → Item) (keeps : (i : Item) → (change i).id ≡ i.id)
    (keeps_type : (i : Item) → (change i).type ≡ i.type)
    (keeps_parent : (i : Item) → (change i).parent_id ≡ i.parent_id)
    (keeps_name : (i : Item) → (change i).name ≡ i.name) (id : Text) (db db' : Db)
    → IsSound db.items
    → update change id db ≡ ok db'
    → IsSound db'.items
unfolding update
updated-IsSound change keeps keeps_type keeps_parent keeps_name id db db' sound h =
    elim (Option-cases (row db.items id)) [
      | inl missing ↦ let same : db.items ≡ db'.items = ground arith in rw (← same) sound
      | inr found ↦ rw (updated_items change id db db' found.0 found.1 h) (
          IsSound-set_row_same change keeps keeps_type db.items id found.0 found.1 sound
            (keeps_parent found.0) (keeps_name found.0))
    ]

pub exec_sql-Keeps :
    (f : Db → Result Db)
    → ((db db' : Db) → IsSound db.items → f db ≡ ok db' → IsSound db'.items)
    → Keeps HasSoundItems (exec_sql f)
exec_sql-Keeps f h w sound = elim (Result-cases (f w.db)) [
  | inl done ↦ rw (exec_sql, done.1) (h w.db done.0 sound done.1)
  | inr failed ↦ rw (exec_sql, failed.1) sound
]

each-Keeps :
    (f : Item → Service (Unit {0})) (items : List Item)
    → ((i : Item) → Keeps HasSoundItems (f i))
    → Keeps HasSoundItems (each f items)
unfolding each
each-Keeps f [] h w sound = sound
each-Keeps f (i ∷ items) h w sound =
    Keeps->>= HasSoundItems (f i) (λ _. each f items) (h i) (λ _. each-Keeps f items h) w sound

soft_delete-Keeps : (id : Text) (at : ℤ) → Keeps HasSoundItems (exec_sql (soft_delete id at))
unfolding soft_delete
soft_delete-Keeps id at =
    exec_sql-Keeps (soft_delete id at)
      (updated-IsSound (trashed at) (λ i. refl) (λ i. refl) (λ i. refl) (λ i. refl) id)

clear_deleted_at-Keeps :
    (id : Text) (at : ℤ) → Keeps HasSoundItems (exec_sql (clear_deleted_at id at))
unfolding clear_deleted_at
clear_deleted_at-Keeps id at =
    exec_sql-Keeps (clear_deleted_at id at)
      (updated-IsSound (cleared at) (λ i. refl) (λ i. refl) (λ i. refl) (λ i. refl) id)

pub mark_from-Keeps :
    (fuel : ℕ) (owner_id : Text) (at : ℤ) (id : Text)
    → Keeps HasSoundItems (mark_from fuel owner_id at id)
unfolding mark_from
mark_from-Keeps zero owner_id at id w sound = sound
mark_from-Keeps (suc fuel) owner_id at id w sound =
    let mark_all : Text → Service (Unit {0}) = λ id w.
      each (λ child. mark_from fuel owner_id at child.id) (list_children w.db owner_id (some id))
        w in
    Keeps->>= HasSoundItems (exec_sql (soft_delete id at)) (λ (_ : Unit {0}). mark_all id)
      (soft_delete-Keeps id at)
      (λ _ w sound.
        each-Keeps (λ child. mark_from fuel owner_id at child.id)
          (list_children w.db owner_id (some id))
          (λ child. mark_from-Keeps fuel owner_id at child.id) w sound)
      w sound

pub unmark_from-Keeps :
    (fuel : ℕ) (owner_id : Text) (at : ℤ) (id : Text)
    → Keeps HasSoundItems (unmark_from fuel owner_id at id)
unfolding unmark_from
unmark_from-Keeps zero owner_id at id w sound = sound
unmark_from-Keeps (suc fuel) owner_id at id w sound =
    let go : Item → Service (Unit {0}) = λ child. unmark_from fuel owner_id at child.id in
    each-Keeps (λ child. exec_sql (clear_deleted_at child.id at) >> go child)
      (list_children_deleted w.db owner_id (some id))
      (λ child.
        Keeps->>= HasSoundItems (exec_sql (clear_deleted_at child.id at)) (λ _. go child)
          (clear_deleted_at-Keeps child.id at) (λ _. unmark_from-Keeps fuel owner_id at child.id))
      w sound

-- The row of an item that no other row refers to.
module _ (items : List Item) (x : Text)
    (free : (id : Text) (i : Item) → row items id ≡ some i → id ≢ x → i.parent_id ≢ some x) where
  Rooted-without_free : {id : Text} → id ≢ x → Rooted items id → Rooted (without x items) id
  Rooted-without_free {id} other (top i e n) = top i (row-without_ne items x id other ∙ e) n
  Rooted-without_free {id} other (under i p e f r) =
      under i p (row-without_ne items x id other ∙ e) f
        (Rooted-without_free (λ at. free id i e other (rw (← at) f)) r)

  row_kept :
      (id : Text) (i : Item)
      → row (without x items) id ≡ some i
      → (id ≢ x) × (row items id ≡ some i)
  row_kept id i e = elim (text_eq.dec id x) [
    | yes at ↦ ground (arith, row-without items x id)
    | no other ↦ (other, sym (row-without_ne items x id other) ∙ e)
  ]

  IsSound-without : IsSound items → IsSound (without x items)
  IsSound-without sound = record {
    forest = λ id i e.
        let (other, e') = row_kept id i e in Rooted-without_free other (sound.forest id i e');
    parents = λ id p i q e f g. sound.parents id p i q (row_kept id i e).1 f (row_kept p q g).1;
    names = λ id i e. sound.names id i (row_kept id i e).1;
  }

unreferenced :
    (db : Db) (x : Text)
    → is_referenced db x ≡ false
    → (id : Text) (i : Item) → row db.items id ≡ some i
    → id ≢ x
    → i.parent_id ≢ some x
unfolding is_referenced
unreferenced db x h id i e other f = ground (
  arith,
  id-row db.items id i e,
  any-false-row (λ (k : Item). not (k.id == x) && (k.parent_id == some x || k.target_id == some x))
      db.items id i,
)

hard_delete-Keeps : (id : Text) → Keeps HasSoundItems (exec_sql (hard_delete id))
unfolding hard_delete
hard_delete-Keeps id = exec_sql-Keeps (hard_delete id) (λ db db' sound h.
    let same : db'.items ≡ without id db.items = ground arith in
    rw same (
      IsSound-without db.items id
        (λ y i e other f.
          let (q, g) = row_above db.items id (sound.forest y i e) e f in
          let there = any-has_id_of_row db.items id q g in
          unreferenced db id (ground arith) y i e other f)
        sound))

free_file-Keeps : (owner_id : Text) (i : Item) → Keeps HasSoundItems (free_file owner_id i)
unfolding free_file remove_content increment_storage_used
free_file-Keeps owner_id i w sound = elim (Bool-cases (is_folder i.type)) [
  | inl isfolder ↦ rw isfolder sound
  | inr isfile ↦ rw isfile sound
]

pub purge_from-Keeps :
    (fuel : ℕ) (owner_id id : Text) → Keeps HasSoundItems (purge_from fuel owner_id id)
unfolding purge_from
purge_from-Keeps zero owner_id id w sound = sound
purge_from-Keeps (suc fuel) owner_id id w sound =
    let go : Item → Service (Unit {0}) = λ child. purge_from fuel owner_id child.id in
    Keeps->>= HasSoundItems (read (λ (w : World). get_by_id w.db id))
      (λ item w.
        (each go (list_children_deleted w.db owner_id (some id))
            >> (exec_sql (hard_delete id) >> free_file owner_id item))
          w)
      (λ w sound. sound)
      (λ item w.
        Keeps->>= HasSoundItems (each go (list_children_deleted w.db owner_id (some id)))
          (λ _. exec_sql (hard_delete id) >> free_file owner_id item)
          (each-Keeps go (list_children_deleted w.db owner_id (some id))
            (λ child. purge_from-Keeps fuel owner_id child.id))
          (λ _.
            Keeps->>= HasSoundItems (exec_sql (hard_delete id)) (λ _. free_file owner_id item)
              (hard_delete-Keeps id) (λ _. free_file-Keeps owner_id item))
          w)
      w sound
