-- ===== src/OnlyOffice/Config.antt =====
-- Status and Config of internal/handler/onlyoffice.go.
use denizen.Prelude.{
  ◌+◌, Bool, true, false, not, Option, none, some, [], ◌++◌, Text, text, text_eq, if◌then◌else◌,
}
use denizen.Prelude.Int.{ℤ, pos, negsuc}
use denizen.Model.{Item, Db, Error, not_found, internal, validation}
use denizen.Result.{Result, ok, err, fail_if, ◌>>=◌, ◌>>◌}
use denizen.Text.{ext, lower, without_dot, decimal}
use denizen.Repo.Items.{is_active}
use denizen.Items.Access.{resolve_content_item, can_edit}
use denizen.Token.{Issuer, new_content_token}
use denizen.OnlyOffice.{
  Client, enabled, api_js_url, document_url, callback_url, document_type, valid_editor_type,
  EditorConfig, sign,
}

-- Status: the address of the editor's script, if there is a Document Server
unfoldable pub editor_status : Client → Option Text
unfolding enabled api_js_url
editor_status client = if enabled client then some (api_js_url client) else none

-- editorMode
unfoldable pub editor_mode : Bool → Text
editor_mode true = text "edit"
editor_mode false = text "view"

-- strconv.FormatInt(_, 10)
unfoldable pub format_int : ℤ → Text
unfolding decimal
format_int (pos n) = decimal n
format_int (negsuc n) = text "-" ++ decimal (n + 1)

-- `if err != nil { return e }`
abbrev pub error_as {ℓ} : {A : Type ℓ} → Error → Result A → Result A
error_as e (ok a) = ok a
error_as e (err _) = err e

abbrev pub supported : Option Text → Result Text
supported none = err (validation "unsupported document type for OnlyOffice")
supported (some doc_type) = ok doc_type

abbrev editor_type : Text → Text
editor_type requested = if valid_editor_type requested then requested else text "desktop"

abbrev pub extension : Item → Text
extension item = without_dot (lower (ext item.name))

-- The config of Config, before it is signed
unfoldable pub unsigned : Client → Text → Text → Item → Bool → Text → Text → EditorConfig
unfolding document_url callback_url valid_editor_type editor_mode format_int ext lower without_dot
unsigned client caller requested item edit doc_type content_token = record {
  document = record {
    file_type = extension item;
    key = item.id ++ (text "-" ++ format_int item.updated_at);
    title = item.name;
    url = document_url client item.id content_token;
    permissions = record { edit = edit; download = true; print = true };
  };
  document_type = doc_type;
  editor_config = record {
    mode = editor_mode edit;
    callback_url = callback_url client item.id;
    user = record { id = caller; name = caller };
  };
  type = editor_type requested;
  width = text "100%";
  height = text "100%";
  token = [];
}

-- onlyOfficeContentTokenTTL, in seconds
abbrev pub content_token_ttl : ℤ
content_token_ttl = pos 600

-- The checks of Config: the item, whether the caller may edit it, and its editor
unfoldable pub prepare_config : Client → Db → Text → Text → Result (Item × Bool × Text)
unfolding enabled resolve_content_item can_edit document_type
prepare_config client db caller id = do
  fail_if (not (enabled client)) not_found
  item ← resolve_content_item db caller id
  fail_if (not (is_active item)) not_found
  edit ← can_edit db caller item
  doc_type ← supported (document_type (extension item))
  ok (item, edit, doc_type)

abbrev pub with_token : EditorConfig → Text → EditorConfig
with_token cfg token = record cfg { token = token }

-- The tokens of Config, after its checks
unfoldable pub issue_config :
    Issuer → Client → ℤ → Text → Text → Item × Bool × Text → Result EditorConfig
unfolding new_content_token unsigned sign
issue_config issuer client now caller requested (item, edit, doc_type) = do
  content_token ← error_as internal (new_content_token issuer now caller item.id content_token_ttl)
  token ←
      error_as internal
        (sign client (unsigned client caller requested item edit doc_type content_token))
  ok (with_token (unsigned client caller requested item edit doc_type content_token) token)

-- Config, for the id of the caller, the id in the path and the query parameter `type`
unfoldable pub config : Issuer → Client → Db → ℤ → Text → Text → Text → Result EditorConfig
unfolding prepare_config issue_config
config issuer client db now caller id requested = do
  prepared ← prepare_config client db caller id
  issue_config issuer client now caller requested prepared
