-- ===== src/Tests/Editors.antt =====
-- The theorems on the editors of a Document Server, on the small drive.
use denizen.Prelude.{◌≡◌, ◌↔◌, refl, true, false, none, some, [], ◌∷◌, text, text_eq, arith}
use denizen.Prelude.Int.{pos}
use denizen.Model.{Item, Error}
use denizen.Result.{ok, err}
use denizen.Token.{Jwt, str, number, object, field, end}
use denizen.OnlyOffice.{Client, EditorConfig, config_claims, verify_callback}
use denizen.OnlyOffice.Config.{config, unsigned, with_token}
use denizen.OnlyOffice.Document.{Fetch}
use denizen.OnlyOffice.Callback.{CallbackRequest, callback, acknowledge, decode_body}
use denizen.OnlyOffice.Trust.{IsConfigFor, config_edit_iff, config_token_saves, callback_unverified}
use denizen.Items.Access.{resolve_content_item, get_for_write, get_for_share}
use denizen.Items.Create.Replace.{replace_content}
use denizen.Tests.Tokens.{jwt_for, reading, jwt_for-ReadsBack}
use denizen.Tests.{env, docs, note, db, world, root}
use denizen.Repo.Items.{get_by_id}
use denizen.Items.Walk.{resolve_grant}
use denizen.Repo.Shares.{find_grant}
use denizen.Storage.{join}
use denizen.Storage.Disk.{bytes, directory}
use denizen.World.{World}

-- A file that bob may only view, and one of ann's that he may not see.
abbrev sheet : Item
sheet = record note { name = text "a.docx" }

abbrev private : Item
private = record note { id = text "p"; parent_id = none; name = text "p.docx" }

abbrev office : World
office = record world {
  db = record db { items = private ∷ sheet ∷ docs ∷ [] };
  disk = (join root (text "p.docx"), bytes (text "abc")) ∷ (root, directory) ∷ [];
}

-- The config that bob views the file with.
abbrev viewing : Client → EditorConfig
viewing client = unsigned client (text "bob") [] sheet false (text "word") (text "signed")

abbrev server : Jwt → Client
server jwt = record {
  jwt = jwt;
  url = text "http://office";
  jwt_secret = text "office-secret";
  document_base_url = text "http://denizen";
}

abbrev bare : Client
bare = server (jwt_for end)

abbrev client : Client
client = server (jwt_for (config_claims (viewing bare)))

abbrev shown : EditorConfig
shown = with_token (viewing bare) (text "signed")

abbrev save_request : CallbackRequest
save_request = record {
  path_id = text "p";
  authorization = text "Bearer signed";
  body_length = 40;
  body = some (
      object
        (field (text "status") (number (pos 2)) (field (text "url") (str (text "http://x")) end)));
}

abbrev fetch : Fetch
fetch url = ok (200, text "replaced")

config_edit_iff_example :
    (item : Item) × (resolve_content_item office.db (text "bob") (text "f") ≡ ok item)
    × (item.deleted_at ≡ none)
    × IsConfigFor reading client (pos 50) (text "bob") item shown
    × ((shown.editor_config.mode ≡ text "edit")
        ↔ (get_for_write office.db (text "bob") item.id ≡ ok item))
    × ((shown.document.permissions.edit ≡ true)
        ↔ (get_for_write office.db (text "bob") item.id ≡ ok item))
unfolding config text_eq get_by_id resolve_grant find_grant
config_edit_iff_example =
    config_edit_iff reading client office.db (pos 50) (text "bob") (text "f") [] shown refl

callback_unverified_example :
    (e : Error) × (callback env client fetch (record save_request { authorization = [] }) office
      ≡ (err e, office))
unfolding verify_callback text_eq
callback_unverified_example =
    callback_unverified env client fetch (record save_request { authorization = [] }) office refl

config_token_saves_example :
    callback env client fetch save_request office
    ≡ acknowledge (replace_content env (text "ann") (text "p") (text "replaced") office)
unfolding config text_eq get_by_id resolve_grant find_grant decode_body get_for_share
config_token_saves_example =
    config_token_saves env reading client fetch office.db (pos 50) (text "bob") (text "f") [] shown
      save_request office (record { status = pos 2; url = text "http://x" }) private
      (text "replaced") refl (λ e. cc)
      (jwt_for-ReadsBack (config_claims (viewing bare)) (text "office-secret")) (λ e. cc) refl
      (omega arith) refl refl (λ e. cc) refl refl
