-- ===== src/Storage/Disk.antt =====
-- The file system below internal/storage/storage.go, and the methods of `Store` that change it.
-- A call fails for what stands on the disk, as documented for Go's `os`; that the medium fails or is
-- full is not modelled.
use denizen.Prelude.{
  Bool, true, false, Option, none, some, List, [], ◌∷◌, ◌++◌, map, Text, ◌==◌, select,
  if◌then◌else◌,
}
use denizen.Model.{io_error, is_null}
use denizen.Result.{Result, ok, err}
use denizen.Exec.{Exec, ◌>>=◌, ◌>>◌}
use denizen.Storage.{FilePath, path_eq, dir, below}

pub data Node : Type 0 where
  directory : Node
  bytes : Text → Node

abbrev pub Disk : Type 0
Disk = List (FilePath × Node)

-- os.Stat: the root is always there.
unfoldable pub stat : Disk → FilePath → Option Node
stat d [] = some directory
stat [] (s ∷ p) = none
stat ((q, n) ∷ d) (s ∷ p) = let rest = stat d (s ∷ p) in if q == s ∷ p then some n else rest

mkdir_from : Disk → FilePath → FilePath → Result Disk
unfolding stat
mkdir_from d q [] = ok d
mkdir_from d q (s ∷ rest) = elim (stat d (q ++ s ∷ [])) [
  | none ↦ mkdir_from ((q ++ s ∷ [], directory) ∷ d) (q ++ s ∷ []) rest
  | some n ↦ elim n [ directory ↦ mkdir_from d (q ++ s ∷ []) rest | bytes _ ↦ err io_error ]
]

-- os.MkdirAll
unfoldable pub mkdir_all : FilePath → Disk → Result Disk
unfolding mkdir_from
mkdir_all p d = mkdir_from d [] p

-- Where a path is after the move of the tree at one path to another.
unfoldable pub relocate : FilePath → FilePath → FilePath → FilePath
relocate old new p = elim (below old p) [ none ↦ p | some rest ↦ new ++ rest ]

unfoldable pub move_tree : FilePath → FilePath → Disk → Disk
unfolding relocate
move_tree old new = map (λ (p, n). (relocate old new p, n))

-- os.RemoveAll
unfoldable pub remove_all : FilePath → Disk → Disk
unfolding below
remove_all q = select (λ (p, n). is_null (below q p))

abbrev pub is_directory : Option Node → Bool
is_directory (some directory) = true
is_directory _ = false

-- Where nothing stands at the new path, the folder around it must be there, and must not lie below
-- the old path.
unfoldable pub rename_fresh : FilePath → FilePath → Disk → Result Disk
unfolding move_tree below stat
rename_fresh old new d =
    if is_directory (stat d (dir new))
    then (if is_null (below old new) then ok (move_tree old new d) else err io_error)
    else err io_error

-- A file replaces a file.
unfoldable pub rename_over : FilePath → FilePath → Node → Disk → Result Disk
unfolding move_tree remove_all
rename_over old new directory d = err io_error
rename_over old new (bytes _) d =
    if old == new then ok d else ok (move_tree old new (remove_all new d))

-- os.Rename
unfoldable pub os_rename : FilePath → FilePath → Disk → Result Disk
unfolding stat rename_fresh rename_over
os_rename old new d = elim (stat d old) [
  | none ↦ err io_error
  | some n ↦ elim (stat d new) [
    | none ↦ rename_fresh old new d
    | some m ↦ elim m [ directory ↦ err io_error | bytes _ ↦ rename_over old new n d ]
  ]
]

-- os.OpenFile(O_WRONLY|O_CREATE|O_EXCL), and the write
unfoldable pub write_new : FilePath → Text → Disk → Result Disk
unfolding stat
write_new p content d =
    if is_null (stat d p)
    then (if is_directory (stat d (dir p)) then ok ((p, bytes content) ∷ d) else err io_error)
    else err io_error

-- The bytes of a file: os.Open and io.Copy
unfoldable pub read_file : FilePath → Disk → Result Text
unfolding stat
read_file p d = elim (stat d p) [
  | none ↦ err io_error
  | some n ↦ elim n [ directory ↦ err io_error | bytes content ↦ ok content ]
]

-- A call that leaves the disk as it was if it fails.
unfoldable pub attempt : (Disk → Result Disk) → Exec Disk (Unit {0})
attempt f d = elim (f d) [ ok d' ↦ (ok tt, d') | err e ↦ (err e, d) ]

-- Store.CreateFolder
unfoldable pub create_folder : FilePath → Exec Disk (Unit {0})
unfolding attempt
create_folder path = attempt (mkdir_all path)

-- Store.Rename
unfoldable pub rename : FilePath → FilePath → Exec Disk (Unit {0})
unfolding attempt
rename old new = do attempt (mkdir_all (dir new)); attempt (os_rename old new)

-- Store.Remove
unfoldable pub remove : FilePath → Exec Disk (Unit {0})
remove path d = (ok tt, remove_all path d)

-- Store.CopyFile
unfoldable pub copy_file : FilePath → FilePath → Exec Disk (Unit {0})
unfolding attempt
copy_file src dst = do
  attempt (mkdir_all (dir dst))
  content ← λ d. (read_file src d, d)
  attempt (write_new dst content)

-- Store.WriteFile
unfoldable pub write_file : FilePath → Text → Exec Disk (Unit {0})
unfolding attempt
write_file path content = do attempt (mkdir_all (dir path)); attempt (write_new path content)
