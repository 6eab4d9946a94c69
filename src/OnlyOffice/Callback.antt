-- ===== src/OnlyOffice/Callback.antt =====
-- Callback of internal/handler/onlyoffice.go, and saveCallbackDocument.
use denizen.Prelude.{
  ℕ, ◌^◌, Bool, false, ◌||◌, not, Option, none, some, [], Text, text, text_eq, eqb, ltb,
  if◌then◌else◌,
}
use denizen.Prelude.Int.{ℤ, pos, negsuc}
use denizen.Model.{Item, not_found, validation, unauthorized}
use denizen.Result.{Result, ok, err}
use denizen.Exec.{read, ◌>>=◌}
use denizen.Items.Create.Replace.{replace_content}
use denizen.OnlyOffice.Document.{Fetch, saved_document}
use denizen.Token.{Json, number}
use denizen.OnlyOffice.{
  Client, enabled, as_object, decode_field, values_of, text_of, verify_callback,
}
use denizen.World.{Env, World, Service}

-- What the handler reads of the request: the segment `{id}` of the path, the header Authorization, the
-- length of the body, and the JSON value that the body holds, if it holds one.
pub record CallbackRequest : Type 0 where
  pub path_id : Text
  pub authorization : Text
  pub body_length : ℕ
  pub body : Option Json

-- onlyOfficeCallbackBody
pub record CallbackBody : Type 0 where
  pub status : ℤ
  pub url : Text

-- A number for a field of type int.
abbrev int_of : Json → Option ℤ
int_of (number (pos n)) = if ltb n 9223372036854775808 then some (pos n) else none
int_of (number (negsuc n)) = if ltb n 9223372036854775808 then some (negsuc n) else none
int_of _ = none

abbrev body_of : Option ℤ → Option Text → Result CallbackBody
body_of (some status) (some url) = ok (record { status = status; url = url })
body_of _ _ = err (validation "invalid callback body")

-- json.Unmarshal into onlyOfficeCallbackBody
unfoldable pub decode_body : Option Json → Result CallbackBody
unfolding decode_field values_of
decode_body body = elim (as_object body) [
  | none ↦ err (validation "invalid callback body")
  | some fields ↦
      body_of (decode_field int_of (pos 0) (values_of (text "status") fields))
        (decode_field text_of [] (values_of (text "url") fields))
]

-- maxOnlyOfficeCallbackBodyBytes
abbrev max_body_bytes : ℕ
max_body_bytes = 2 ^ 16

-- onlyOfficeStatusSave, onlyOfficeStatusForceSave
abbrev pub asks_to_save : ℤ → Bool
asks_to_save (pos n) = eqb n 2 || eqb n 6
asks_to_save _ = false

-- saveCallbackDocument
unfoldable pub save_callback_document : Env → Fetch → Text → Text → Service Item
unfolding saved_document replace_content
save_callback_document env fetch item_id document_url = do
  (item, content) ← read (λ (w : World). saved_document fetch w.db item_id document_url)
  replace_content env item.owner_id item_id content

-- The field `error` of the answer: 1 if the save failed
abbrev pub acknowledge : Result Item × World → Result ℕ × World
acknowledge (ok _, w) = (ok 0, w)
acknowledge (err _, w) = (ok 1, w)

-- The checks of Callback, and the body that it reads
unfoldable pub checks : Client → CallbackRequest → World → Result CallbackBody
unfolding enabled verify_callback decode_body
checks client req w =
    if not (enabled client)
    then err not_found
    else if ltb max_body_bytes req.body_length
    then err (validation "callback body too large")
    else if not (verify_callback client w.now req.authorization req.body)
    then err unauthorized
    else decode_body req.body

-- The answer of Callback to a body
unfoldable pub act : Env → Fetch → Text → CallbackBody → Service ℕ
unfolding save_callback_document
act env fetch id payload w =
    let saved = acknowledge (save_callback_document env fetch id payload.url w) in
    if asks_to_save payload.status then saved else (ok 0, w)

-- Callback
unfoldable pub callback : Env → Client → Fetch → CallbackRequest → Service ℕ
unfolding checks act
callback env client fetch req = do
  payload ← read (checks client req)
  act env fetch req.path_id payload
