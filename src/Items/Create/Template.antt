-- ===== src/Items/Create/Template.antt =====
-- internal/blanktemplates/blanktemplates.go, and the checks of CreateBlankDocument of
-- internal/service/item.go.
use denizen.Prelude.{
  not, Option, none, some, [], ◌++◌, Text, text, ◌==◌, text_eq, length, if◌then◌else◌,
}
use denizen.Prelude.Int.{ℤ, pos}
use denizen.Model.{file, Db, validation}
use denizen.Result.{Result, ok, err, ◌>>=◌, ◌>>◌, fail_if}
use denizen.Text.{trim_space, lower, has_suffix}
use denizen.Items.Access.{validate_folder, check_quota}
use denizen.Items.Names.{validate_name, unique_name}
use denizen.Items.Paths.{username, folder_path}
use denizen.Items.Create.{Place}
use denizen.World.{Env}

-- MimeTypes
unfoldable pub mime_type_of : Text → Option Text
mime_type_of e =
    if e == text "docx"
    then some (text "application/vnd.openxmlformats-officedocument.wordprocessingml.document")
    else if e == text "xlsx"
    then some (text "application/vnd.openxmlformats-officedocument.spreadsheetml.sheet")
    else if e == text "pptx"
    then some (text "application/vnd.openxmlformats-officedocument.presentationml.presentation")
    else none

-- What a blank document is made of: its bytes and its MIME type.
pub record Template : Type 0 where
  pub content : Text
  pub mime_type : Text

-- Bytes, with the MIME type of the extension
unfoldable pub template_of : Env → Text → Result Template
unfolding mime_type_of
template_of env e = elim (mime_type_of e) [
  | none ↦ err (validation "unsupported document type")
  | some mime_type ↦ ok (record { content = env.template e; mime_type = mime_type })
]

-- CreateBlankDocument, up to its first write. The message about the extension is not spelled out. With the free bytes of the disk
unfoldable pub find_blank :
    Env → Db → ℤ → Text → Option Text → Text → Text → Result (Template × Place)
unfolding template_of username
find_blank env db free caller parent_id e name = do
  template ← template_of env e
  validate_name name
  fail_if (not (has_suffix (lower (trim_space name)) (text "." ++ e)))
      (validation "name must end with .")
  owner_id ← validate_folder db caller parent_id
  check_quota db free owner_id (pos (length template.content))
  user ← username db owner_id
  above ← folder_path env db owner_id user parent_id
  final_name ← unique_name db owner_id parent_id file (trim_space name) []
  ok (template, record { owner_id = owner_id; folder = above; name = final_name })
