-- ===== src/OnlyOffice.antt =====
-- internal/onlyoffice/onlyoffice.go: the signed config of an editor, and the check of a callback.
pub mod Config
pub mod Document
pub mod Callback
pub mod Trust
use denizen.Prelude.{
  ℕ, eqb, Bool, true, false, ◌||◌, not, Option, none, some, List, [], ◌∷◌, ◌++◌, any, Text, text,
  ◌==◌, text_eq, if◌then◌else◌,
}
use denizen.Prelude.Int.{ℤ}
use denizen.Model.{is_null}
use denizen.Result.{Result, ok, err}
use denizen.Text.{after_prefix, lower_byte}
use denizen.Token.{Jwt, Json, null, boolean, str, object, Fields, end, field}

-- Client, and the JWT library that it calls
pub record Client : Type 0 where
  pub jwt : Jwt
  pub url : Text
  pub jwt_secret : Text
  pub document_base_url : Text

-- Enabled, of a client that is not nil
unfoldable pub enabled : Client → Bool
enabled client = not (client.url == [])

-- APIJSURL
unfoldable pub api_js_url : Client → Text
api_js_url client = client.url ++ text "/web-apps/apps/api/documents/api.js"

-- DocumentURL
unfoldable pub document_url : Client → Text → Text → Text
document_url client item_id content_token =
    client.document_base_url
    ++ (text "/api/v1/items/" ++ (item_id ++ (text "/content?token=" ++ content_token)))

-- CallbackURL
unfoldable pub callback_url : Client → Text → Text
callback_url client item_id =
    client.document_base_url ++ (text "/api/v1/items/" ++ (item_id ++ text "/onlyoffice-callback"))

-- DocumentType
unfoldable pub document_type : Text → Option Text
document_type e =
    if e == text "docx"
    then some (text "word")
    else if e == text "xlsx" || e == text "xls"
    then some (text "cell")
    else if e == text "pptx"
    then some (text "slide")
    else if e == text "pdf"
    then some (text "pdf")
    else none

-- ValidEditorType
unfoldable pub valid_editor_type : Text → Bool
valid_editor_type t = any (λ s. t == s) (text "desktop" ∷ text "mobile" ∷ text "embedded" ∷ [])

pub record Permissions : Type 0 where
  pub edit : Bool
  pub download : Bool
  pub print : Bool

pub record DocumentConfig : Type 0 where
  pub file_type : Text
  pub key : Text
  pub title : Text
  pub url : Text
  pub permissions : Permissions

pub record UserInfo : Type 0 where
  pub id : Text
  pub name : Text

pub record EditorSettings : Type 0 where
  pub mode : Text
  pub callback_url : Text
  pub user : UserInfo

pub record EditorConfig : Type 0 where
  pub document : DocumentConfig
  pub document_type : Text
  pub editor_config : EditorSettings
  pub type : Text
  pub width : Text
  pub height : Text
  pub token : Text

-- A field that is left out if it is empty.
abbrev omit_empty : Text → Text → Fields → Fields
omit_empty key s rest = if s == [] then rest else field key (str s) rest

abbrev document_json : DocumentConfig → Json
document_json d = object (
    field (text "fileType") (str d.file_type) (
      field (text "key") (str d.key) (
        field (text "title") (str d.title) (
          field (text "url") (str d.url) (
            field (text "permissions")
              (object (
                field (text "edit") (boolean d.permissions.edit) (
                  field (text "download") (boolean d.permissions.download)
                    (field (text "print") (boolean d.permissions.print) end))))
              end)))))

abbrev settings_json : EditorSettings → Json
settings_json s = object (
    field (text "mode") (str s.mode) (
      omit_empty (text "callbackUrl") s.callback_url (
        field (text "user")
          (object (field (text "id") (str s.user.id) (field (text "name") (str s.user.name) end)))
          end)))

-- The claims that a config is signed as: its JSON. The order of the keys is not the library's, which
-- sorts them; a JSON object has none.
unfoldable pub config_claims : EditorConfig → Fields
config_claims cfg = field (text "document") (document_json cfg.document) (
    field (text "documentType") (str cfg.document_type) (
      field (text "editorConfig") (settings_json cfg.editor_config) (
        field (text "type") (str cfg.type) (
          omit_empty (text "width") cfg.width
            (omit_empty (text "height") cfg.height (omit_empty (text "token") cfg.token end))))))

-- Sign
unfoldable pub sign : Client → EditorConfig → Result Text
unfolding config_claims
sign client cfg =
    if client.jwt_secret == [] then ok [] else client.jwt.sign client.jwt_secret (config_claims cfg)

-- What json.Unmarshal takes for a struct: an object, or null, which leaves the struct as it was.
abbrev pub as_object : Option Json → Option Fields
as_object (some (object fields)) = some fields
as_object (some null) = some end
as_object _ = none

-- What is left behind a letter at the front of a text, as encoding/json folds it: in either case, the long
-- s as an s, and the Kelvin sign as a k.
abbrev after_letter : ℕ → Text → Option Text
after_letter x [] = none
after_letter x (c ∷ s) =
    if eqb (lower_byte c) x
    then some s
    else if eqb x b's'
    then after_prefix (197 ∷ 191 ∷ []) (c ∷ s)
    else if eqb x b'k'
    then after_prefix (226 ∷ 132 ∷ 170 ∷ []) (c ∷ s)
    else none

-- Whether a key of an object is that of a field, which is in small letters
unfoldable pub is_named : Text → Text → Bool
unfolding after_prefix
is_named [] s = s == []
is_named (x ∷ key) s = elim (after_letter x s) [ none ↦ false | some rest ↦ is_named key rest ]

-- The values that an object has for a field
unfoldable pub values_of : Text → Fields → List Json
unfolding is_named
values_of key end = []
values_of key (field k v rest) =
    let values = values_of key rest in if is_named key k then v ∷ values else values

abbrev is_null_json : Json → Bool
is_null_json null = true
is_null_json _ = false

-- What the values of a field make of it: each one replaces what was there, and null leaves it.
unfoldable pub decode_field : {A : Type 0} → (Json → Option A) → A → List Json → Option A
decode_field read a [] = some a
decode_field read a (value ∷ values) = elim (is_null_json value) [
  | true ↦ decode_field read a values
  | false ↦ elim (read value) [ none ↦ none | some b ↦ decode_field read b values ]
]

abbrev pub text_of : Json → Option Text
text_of (str s) = some s
text_of _ = none

-- The field `token` of a body, and "" if it cannot be read.
abbrev body_token : Option Json → Text
body_token body = elim (as_object body) [
  | none ↦ []
  | some fields ↦ elim (decode_field text_of [] (values_of (text "token") fields)) [
    | none ↦ []
    | some raw ↦ raw
  ]
]

-- strings.TrimPrefix(authHeader, "Bearer ")
abbrev pub without_bearer : Text → Text
without_bearer header = elim (after_prefix (text "Bearer ") header) [
  | none ↦ header
  | some raw ↦ raw
]

-- The token that VerifyCallback looks at
unfoldable pub callback_token : Text → Option Json → Text
unfolding after_prefix decode_field values_of
callback_token header body =
    if without_bearer header == [] then body_token body else without_bearer header

-- VerifyCallback: whether there is no error. jwt.Parse checks the signature and the times.
unfoldable pub verify_callback : Client → ℤ → Text → Option Json → Bool
unfolding callback_token
verify_callback client now header body =
    if client.jwt_secret == []
    then true
    else if callback_token header body == []
    then false
    else not (is_null (client.jwt.verify client.jwt_secret now (callback_token header body)))
