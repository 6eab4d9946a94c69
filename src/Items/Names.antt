-- ===== src/Items/Names.antt =====
-- Names: validateName and uniqueName of internal/service/item.go.
pub mod Laws
use denizen.Prelude.{
  ℕ, zero, suc, ◌+◌, Bool, true, false, ◌||◌, Option, [], ◌∷◌, ◌++◌, Text, text, ◌==◌, text_eq,
  if◌then◌else◌,
}
use denizen.Text.{trim_space, contains_any, ext, trim_suffix, decimal}
use denizen.Model.{Item, ItemType, file, folder, Db, Error, validation, internal}
use denizen.Result.{Result, ok, err, ◌>>◌, fail_if}
use denizen.Repo.Items.{name_exists}

-- validateName, of a name that is trimmed
validate_trimmed : Text → Result (Unit {0})
validate_trimmed name = do
  fail_if (name == []) (validation "name is required")
  fail_if (name == text "." || name == text "..") (validation "invalid name")
  fail_if (contains_any name (b'/' ∷ 0 ∷ [])) (validation "name cannot contain '/'")
  ok tt

-- validateName
unfoldable pub validate_name : Text → Result (Unit {0})
unfolding validate_trimmed
validate_name name = validate_trimmed (trim_space name)

abbrev pub attempt_limit : ℕ
attempt_limit = 10000

-- fmt.Sprintf("%s (%d)%s", base, i, ext)
unfoldable pub numbered : Text → ℕ → Text → Text
numbered base i extension = base ++ (text " (" ++ (decimal i ++ (text ")" ++ extension)))

-- The extension of a file; a folder has none.
abbrev pub extension_of : ItemType → Text → Text
extension_of file name = ext name
extension_of folder name = []

abbrev pub base_of : ItemType → Text → Text
base_of file name = trim_suffix name (ext name)
base_of folder name = name

-- The loop of uniqueName: the attempts left, the number of the next candidate, and a candidate.
unfoldable pub unique_from : (Text → Bool) → ℕ → ℕ → Text → Text → Text → Result Text
unfolding numbered
unique_from exists zero i base extension candidate = err internal
unique_from exists (suc attempts) i base extension candidate = elim (exists candidate) [
  | true ↦ unique_from exists attempts (i + 1) base extension (numbered base i extension)
  | false ↦ ok candidate
]

abbrev pub is_taken : Db → Text → Option Text → Text → Text → Bool
is_taken db owner_id parent_id exclude_id candidate =
    name_exists db owner_id parent_id candidate exclude_id

-- uniqueName
unfoldable pub unique_name : Db → Text → Option Text → ItemType → Text → Text → Result Text
unique_name db owner_id parent_id type name exclude_id =
    unique_from (is_taken db owner_id parent_id exclude_id) attempt_limit 1 (base_of type name)
      (extension_of type name) name
