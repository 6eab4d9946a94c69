-- ===== src/Items/Sound.antt =====
-- The invariant of the table `items`: a forest, in which parents are folders and names are single
-- segments of a path.
pub mod Kept
pub mod Created
use denizen.Prelude.{
  zero, suc, ℕ, All, ◌≡◌, refl, ◌∙◌, Option, none, some, List, [], ◌∷◌, ◌++◌, arith, Text,
  Option-cases, inl, inr,
}
use denizen.Model.{Item, folder, Db}
use denizen.Result.{ok, err, ◌>>=◌}
use denizen.Storage.{FilePath, join}
use denizen.Storage.Laws.{IsSafe, join-IsSafe}
use denizen.Repo.Items.{row}
use denizen.Items.Walk.{path_from, path_of}
use denizen.Items.Forest.{IsForest}

pub record IsSound (items : List Item) : Type 0 where
  pub forest : IsForest items
  pub parents :
      (id p : Text) (i q : Item)
      → row items id ≡ some i
      → i.parent_id ≡ some p
      → row items p ≡ some q
      → q.type ≡ folder
  pub names : (id : Text) (i : Item) → row items id ≡ some i → IsSafe i.name

-- The id is the key of the table: the row found by the id of a row is that row.
abbrev pub HasKeys : List Item → Type 0
HasKeys items = All (λ (i : Item). row items i.id ≡ some i) items
