-- ===== src/Items/Move/Sound.antt =====
-- A move keeps the forest, unless it moves a folder shortcut.
use denizen.Prelude.{
  ◌≡◌, ◌≢◌, ◌⊎◌, inl, inr, refl, ◌∙◌, ap, Option, none, some, List, arith, Text, text_eq,
  Option-cases,
}
use denizen.Model.{Item, ItemType, file, folder, Db}
use denizen.Result.{ok, >>=-eq-ok, Result-cases}
use denizen.Text.{trim_space}
use denizen.Repo.Items.Laws.{id-row}
use denizen.Repo.Items.{row, set_row, renamed}
use denizen.Items.Walk.{steps, check_not_self_or_descendant}
use denizen.Items.Access.{get_for_write, validate_folder}
use denizen.Items.Names.{validate_name, unique_name}
use denizen.Items.Names.Laws.{validate_name-IsSafe, unique_name-IsSafe}
use denizen.Items.Sound.{IsSound}
use denizen.Items.Sound.Kept.{
  IsSound-set_row, Rooted-set_row, Rooted-of_check, row-set_row_ne, row-set_row_self,
}
use denizen.Items.Forest.{Rooted, top, under, row_of_Rooted}
use denizen.Items.Access.Exact.{get_for_write_iff, validate_folder_sound}
use denizen.Prelude.Int.{ℤ}
use denizen.Items.Move.{MoveInput, MovePlan, check_target, check_drive, prepare_move}
use denizen.Items.Move.Commit.{commit_move, move}
use denizen.World.{Env, World}

-- What a move has checked when it starts to write.
record IsChecked (db : Db) (caller id : Text) (input : MoveInput) (plan : MovePlan) : Type 0 where
  valid : validate_name input.name ≡ ok tt
  writable : get_for_write db caller id ≡ ok plan.item
  target : check_target db plan.item input.parent_id ≡ ok tt
  drive : check_drive db caller plan.item input.parent_id ≡ ok tt
  unique :
      unique_name db plan.item.owner_id input.parent_id plan.item.type
        (trim_space input.name)
        plan.item.id
      ≡ ok plan.final_name

prepare_move-IsChecked :
    (env : Env) (db : Db) (caller id : Text) (input : MoveInput) (plan : MovePlan)
    → prepare_move env db caller id input ≡ ok plan
    → IsChecked db caller id input plan
unfolding prepare_move
prepare_move-IsChecked env db caller id input plan h = record {
  valid = ground arith;
  writable = ground arith;
  target = ground arith;
  drive = ground arith;
  unique = ground arith;
}

commit_move_items :
    (id : Text) (parent_id : Option Text) (plan : MovePlan) (w : World)
    → ((commit_move id parent_id plan w).1.db.items ≡ w.db.items)
      ⊎ ((commit_move id parent_id plan w).1.db.items
          ≡ set_row (renamed plan.final_name parent_id w.now) id w.db.items)
unfolding commit_move
commit_move_items id parent_id plan w = ground arith

folder_apart :
    (items : List Item) {x p : Text} {i q : Item}
    → row items x ≡ some i
    → i.type ≡ file
    → row items p ≡ some q
    → q.type ≡ folder
    → p ≢ x
folder_apart items {x} {p} {i} {q} e isfile f isfolder at =
    let same : q ≡ i = cc (ap (row items) at) in cc (ap (λ (k : Item). k.type) same)

-- No chain of parents passes a file but at its start.
Rooted-of_file :
    (change : Item → Item) (keeps : (i : Item) → (change i).id ≡ i.id) (items : List Item)
    (x : Text) (i₀ : Item)
    → IsSound items
    → row items x ≡ some i₀
    → i₀.type ≡ file
    → {p : Text} (q : Item) → row items p ≡ some q
    → q.type ≡ folder
    → Rooted items p
    → Rooted (set_row change x items) p
Rooted-of_file change keeps items x i₀ sound e₀ isfile {p} q e isfolder (top j f n) =
    top j (row-set_row_ne change keeps items x p (folder_apart items e₀ isfile e isfolder) ∙ f) n
Rooted-of_file change keeps items x i₀ sound e₀ isfile {p} q e isfolder (under j p' f g r) =
    let (q', e') = row_of_Rooted r in
    under j p' (row-set_row_ne change keeps items x p (folder_apart items e₀ isfile e isfolder) ∙ f)
      g
      (Rooted-of_file change keeps items x i₀ sound e₀ isfile q' e' (sound.parents p p' j q' f g e')
        r)

-- A folder that is moved is the real folder and no shortcut to one.
abbrev pub IsNoFolderShortcut : Item → Type 0
IsNoFolderShortcut i = i.type ≡ folder → i.target_id ≡ none

type-cases : (t : ItemType) → (t ≡ file) ⊎ (t ≡ folder)
type-cases file = inl refl
type-cases folder = inr refl

drive_folder :
    (db : Db) (caller : Text) (item : Item) (p : Text)
    → check_drive db caller item (some p) ≡ ok tt
    → (o : Text) × (validate_folder db caller (some p) ≡ ok o)
unfolding check_drive
drive_folder db caller item p h =
    let (o, e, _) = >>=-eq-ok (validate_folder db caller (some p)) _ h in (o, e)

target_checked :
    (db : Db) (item : Item) (p : Text)
    → check_target db item (some p) ≡ ok tt
    → item.type ≡ folder
    → item.target_id ≡ none
    → check_not_self_or_descendant db item.id p ≡ ok tt
unfolding check_target
target_checked db item p h isfolder real = ground arith

module _ (db : Db) (caller id : Text) (input : MoveInput) (plan : MovePlan) (now : ℤ)
    (checked : IsChecked db caller id input plan) (sound : IsSound db.items) where
  abbrev change : Item → Item
  change = renamed plan.final_name input.parent_id now

  found : row db.items id ≡ some plan.item
  found = ((get_for_write_iff db sound.forest caller id plan.item).0 checked.writable).0

  -- The folder that the item moves to is a folder that exists.
  parent_folder :
      (p : Text)
      → input.parent_id ≡ some p
      → (q : Item) × (row db.items p ≡ some q) × (q.type ≡ folder)
  parent_folder p e =
      let drive : check_drive db caller plan.item (some p) ≡ ok tt = rw (← e) checked.drive in
      let (o, valid) = drive_folder db caller plan.item p drive in
      let (q, f, isfolder, _, _) = validate_folder_sound db caller p o sound.forest valid in
      (q, f, isfolder)

  Rooted-parent :
      IsNoFolderShortcut plan.item
      → (p : Text) → input.parent_id ≡ some p
      → Rooted (set_row change id db.items) p
  unfolding check_not_self_or_descendant
  Rooted-parent real p e = elim (type-cases plan.item.type) [
    | inl isfile ↦
        let (q, f, isfolder) = parent_folder p e in
        Rooted-of_file change (λ i. refl) db.items id plan.item sound found isfile q f isfolder
          (sound.forest p q f)
    | inr isfolder ↦
        let target : check_target db plan.item (some p) ≡ ok tt = rw (← e) checked.target in
        let same : plan.item.id ≡ id = id-row db.items id plan.item found in
        Rooted-of_check change (λ i. refl) db.items id (steps db.items) p
          (rw (← same) (target_checked db plan.item p target isfolder (real isfolder)))
  ]

  Rooted-item : IsNoFolderShortcut plan.item → Rooted (set_row change id db.items) id
  Rooted-item real =
      let self = row-set_row_self change (λ i. refl) db.items id plan.item found in
      elim (Option-cases input.parent_id) [
        | inl at_root ↦ top (change plan.item) self at_root
        | inr below ↦
            under (change plan.item) below.0 self below.1 (Rooted-parent real below.0 below.1)
      ]

  renamed-IsSound : IsNoFolderShortcut plan.item → IsSound (set_row change id db.items)
  renamed-IsSound real =
      IsSound-set_row change (λ i. refl) (λ i. refl) db.items id plan.item found sound
        (λ y r. Rooted-set_row change (λ i. refl) db.items id (Rooted-item real) r)
        (λ p q e f. let (q', f', isfolder) = parent_folder p e in cc)
        (unique_name-IsSafe db plan.item.owner_id input.parent_id plan.item.type
          (trim_space input.name) plan.item.id plan.final_name checked.unique
          (validate_name-IsSafe input.name checked.valid))

-- A move keeps the table `items` a forest whose parents are folders and whose names are single
-- segments of a path, whether it succeeds or fails, unless the item is a shortcut to a folder.
pub move-IsSound :
    (env : Env) (caller id : Text) (input : MoveInput) (w : World)
    → IsSound w.db.items
    → ((i : Item) → row w.db.items id ≡ some i → IsNoFolderShortcut i)
    → IsSound (move env caller id input w).1.db.items
unfolding move
move-IsSound env caller id input w sound real =
    elim (Result-cases (prepare_move env w.db caller id input)) [
      | inr failed ↦ rw failed.1 sound
      | inl planned ↦
          let plan = planned.0 in
          let checked = prepare_move-IsChecked env w.db caller id input plan planned.1 in
          rw planned.1 (elim (commit_move_items id input.parent_id plan w) [
            | inl same ↦ rw same sound
            | inr set ↦ rw set (
                renamed-IsSound w.db caller id input plan w.now checked sound
                  (real plan.item (found w.db caller id input plan w.now checked sound)))
          ])
    ]
