-- ===== src/OnlyOffice/Document.antt =====
-- What saveCallbackDocument of internal/handler/onlyoffice.go reads: the item, and the saved document.
use denizen.Prelude.{ℕ, [], Text, ◌==◌, text_eq, eqb, if◌then◌else◌}
use denizen.Model.{Item, Db, io_error}
use denizen.Result.{Result, ok, err, fail_if, ◌>>=◌, ◌>>◌}
use denizen.Items.Access.{get_for_share}

-- The response to a GET of a URL: its status and its body. An error has no value of its own here; the
-- handler only reports that there was one.
abbrev pub Fetch : Type 0
Fetch = Text → Result (ℕ × Text)

abbrev ok_body : ℕ × Text → Result Text
ok_body (code, content) = if eqb code 200 then ok content else err io_error

-- saveCallbackDocument, up to its write
unfoldable pub saved_document : Fetch → Db → Text → Text → Result (Item × Text)
unfolding get_for_share
saved_document fetch db item_id document_url = do
  fail_if (document_url == []) io_error
  item ← get_for_share db item_id
  response ← fetch document_url
  content ← ok_body response
  ok (item, content)
