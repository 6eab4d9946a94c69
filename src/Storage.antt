-- ===== src/Storage.antt =====
-- Paths and the layout of internal/storage/storage.go: where a user's files, the trash and the
-- uploads in progress live below the data directory. A path is absolute, and is the list of its
-- segments from the root, which is what `filepath.Clean` leaves of it.
pub mod Laws
pub mod Cache
pub mod Disk
use mathlib.Core.List.{foldl}
use denizen.Prelude.{
  List, [], ◌∷◌, ◌++◌, Option, none, some, Text, text, Eq, ◌==◌, text_eq, ℕ_discrete, if◌then◌else◌,
}
use denizen.Text.{split_slash}

abbrev pub FilePath : Type 0
FilePath = List Text

path_dec : Discrete FilePath
unfolding ℕ_discrete
path_dec = hlevel ℕ_discrete

instance unfoldable pub path_eq : Eq FilePath
unfolding path_dec ℕ_discrete
path_eq = record { dec = path_dec }

-- filepath.Dir
unfoldable pub dir : FilePath → FilePath
dir [] = []
dir (s ∷ []) = []
dir (s ∷ t ∷ p) = s ∷ dir (t ∷ p)

-- The rest of a path below another, if it lies below it or is the same.
unfoldable pub below : FilePath → FilePath → Option FilePath
below [] q = some q
below (s ∷ p) [] = none
below (s ∷ p) (t ∷ q) = let rest = below p q in if s == t then rest else none

-- One element of a path under `filepath.Clean`.
unfoldable pub enter : FilePath → Text → FilePath
unfolding dir
enter p s =
    if s == []
    then p
    else if s == text "."
    then p
    else if s == text ".."
    then dir p
    else p ++ s ∷ []

-- filepath.Join(p, s)
unfoldable pub join : FilePath → Text → FilePath
unfolding enter
join p s = foldl enter p (split_slash s)

-- Store.UserFilesRoot
unfoldable pub user_files_root : FilePath → Text → FilePath
user_files_root data_dir username =
    join (join (join data_dir (text "users")) username) (text "files")

-- Store.UserTrashRoot
unfoldable pub user_trash_root : FilePath → Text → FilePath
user_trash_root data_dir username =
    join (join (join data_dir (text "users")) username) (text ".trash")

-- Store.StagingRoot
unfoldable pub staging_root : FilePath → FilePath
staging_root data_dir = join (join data_dir (text "staging")) (text "uploads")

-- Store.TrashPath
unfoldable pub trash_path : FilePath → Text → Text → Text → FilePath
unfolding user_trash_root
trash_path data_dir username item_id original_name =
    join (user_trash_root data_dir username) (item_id ++ (text "_" ++ original_name))
