-- ===== src/Tests/Access.antt =====
-- The theorems on access, names, paths and the quota, on the small drive.
use denizen.Prelude.{
  List, All, ◌≡◌, ◌↔◌, ◌⊎◌, refl, false, Option, some, [], ◌∷◌, ◌++◌, Text, text, text_eq,
  option_text_eq, arith,
}
use denizen.Prelude.Int.{pos, ◌≤ℤ◌, ◌+ℤ◌}
use denizen.Model.{Item, Db, file, folder, UserShare, view, not_found, forbidden}
use denizen.Result.{ok}
use denizen.Text.{trim_space, contains_any, trim_suffix, ext, decimal}
use denizen.Storage.{user_files_root}
use denizen.Storage.Laws.{IsSafe, user_files_root-step_back}
use denizen.Repo.Items.{row, name_exists}
use denizen.Repo.Items as Items
use denizen.Repo.Users.{get_by_id}
use denizen.Repo.Shares.{find_grant}
use denizen.Items.Walk.{resolve_grant, grant_from}
use denizen.Items.Walk.Ends.{Inherits, resolve_grant_total, resolve_grant-iff_Inherits}
use denizen.Items.Access.{get_including_trashed, get_for_write, validate_folder, check_quota}
use denizen.Items.Access.Exact.{
  MayRead, MayWrite, get_including_trashed_iff, get_for_write_iff, get_for_write_refusal,
  validate_folder_sound,
}
use denizen.Items.Names.{validate_name, unique_name, unique_from, numbered}
use denizen.Items.Names.Laws.{validate_name-IsSafe, unique_name-free}
use denizen.World.{World}
use denizen.Items.Lists.{list_favorites}
use denizen.Items.Lists.Visible.{IsReadable, list_favorites-visible}
use denizen.Items.Quota.{check_quota_iff}
use denizen.Tests.{ann, note, grant, db, world, db-IsSound}

-- The file and the folder are favorites of bob's.
abbrev starred : Db
starred = record db {
  favorites =
      record { id = text "1"; item_id = text "f"; user_id = text "bob"; created_at = pos 1 }
      ∷ record { id = text "2"; item_id = text "d"; user_id = text "bob"; created_at = pos 2 }
      ∷ [];
}

abbrev starred_world : World
starred_world = record world { db = starred }

get_for_write_iff_example :
    (get_for_write db (text "ann") (text "f") ≡ ok note)
    ↔ ((row db.items (text "f") ≡ some note) × MayWrite db (text "ann") note)
get_for_write_iff_example = get_for_write_iff db db-IsSound.forest (text "ann") (text "f") note

get_including_trashed_iff_example :
    (get_including_trashed db (text "bob") (text "f") ≡ ok note)
    ↔ ((row db.items (text "f") ≡ some note) × MayRead db (text "bob") note)
get_including_trashed_iff_example =
    get_including_trashed_iff db db-IsSound.forest (text "bob") (text "f") note

get_for_write_refusal_example :
    (forbidden ≡ not_found)
    ⊎ ((forbidden ≡ forbidden)
        × ((item : Item) × (g : UserShare) × (row db.items (text "f") ≡ some item)
            × Inherits db (text "bob") item g
            × (g.permission ≡ view)))
unfolding get_for_write text_eq resolve_grant grant_from find_grant row Items.get_by_id
get_for_write_refusal_example =
    get_for_write_refusal db (text "bob") (text "f") forbidden db-IsSound.forest refl

validate_folder_sound_example :
    (q : Item) × (row db.items (text "d") ≡ some q)
    × (q.type ≡ folder)
    × (text "ann" ≡ q.owner_id)
    × MayWrite db (text "ann") q
unfolding validate_folder get_for_write text_eq row Items.get_by_id
validate_folder_sound_example =
    validate_folder_sound db (text "ann") (text "d") (text "ann") db-IsSound.forest refl

resolve_grant-iff_Inherits_example :
    (resolve_grant db note (text "bob") ≡ ok (some grant)) ↔ Inherits db (text "bob") note grant
unfolding row text_eq
resolve_grant-iff_Inherits_example =
    resolve_grant-iff_Inherits db (text "f") note (text "bob") db-IsSound.forest refl grant

resolve_grant_total_example : (o : Option UserShare) × (resolve_grant db note (text "bob") ≡ ok o)
unfolding row text_eq
resolve_grant_total_example =
    resolve_grant_total db (text "f") note (text "bob") db-IsSound.forest refl

validate_name-IsSafe_example : IsSafe (trim_space (text " a.txt "))
unfolding validate_name trim_space text_eq contains_any
validate_name-IsSafe_example = validate_name-IsSafe (text " a.txt ") refl

abbrev second : Text
second = text "a (1).txt"

unique_name-free_example : name_exists db (text "ann") (some (text "d")) second [] ≡ false
unfolding unique_name unique_from numbered name_exists text_eq option_text_eq trim_suffix ext
    decimal
unique_name-free_example =
    unique_name-free db (text "ann") (some (text "d")) file (text "a.txt") [] second refl

user_files_root-step_back_example :
    user_files_root (text "data" ∷ []) (text "x" ++ (text "/../" ++ text "alice"))
    ≡ user_files_root (text "data" ∷ []) (text "alice")
unfolding contains_any text_eq
user_files_root-step_back_example =
    user_files_root-step_back (text "data" ∷ []) (text "x") (text "alice")
      (record { nonempty = cc; not_dot = cc; not_dots = cc; no_slash = refl })

check_quota_iff_example :
    (check_quota db (pos 1000) (text "ann") (pos 97) ≡ ok tt)
    ↔ ((pos 3 +ℤ pos 97 ≤ℤ pos 100) × (pos 97 ≤ℤ pos 1000))
unfolding get_by_id text_eq ◌+ℤ◌
check_quota_iff_example =
    check_quota_iff db (pos 1000) (text "ann") (pos 97) ann refl (omega arith, omega arith)

list_favorites-visible_example :
    (items : List Item) × (list_favorites starred (text "bob") ≡ ok items)
    × All (IsReadable starred (text "bob")) items
list_favorites-visible_example = list_favorites-visible starred (text "bob") db-IsSound.forest
