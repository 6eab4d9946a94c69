-- ===== src/OnlyOffice/Trust.antt =====
-- What an editor's config grants, and what a callback is trusted for.
use mathlib.Core.Bool.{false≢true}
use denizen.Prelude.{
  ◌≡◌, ◌≢◌, ◌↔◌, refl, ap, sym, ◌∙◌, arith, inl, inr, ◌≤◌, Bool, true, false, Option, none, some,
  [], ◌++◌, Text, text, ◌==◌, text_eq, ◌^◌, ltb, Bool-cases, Option-cases,
}
use denizen.Prelude.Int.{ℤ}
use denizen.Text.{after_prefix}
use denizen.Model.{Item, Db, Error, not_found, validation, unauthorized}
use denizen.Result.{ok, err, >>=-eq-ok, Result-cases}
use denizen.Repo.Items.{row, get_by_id}
use denizen.Repo.Items.Laws.{id-row}
use denizen.Items.Walk.{resolve_grant}
use denizen.Items.Access.{
  get_including_trashed, resolve_content_item, can_edit, get_for_write, get_for_share,
}
use denizen.Items.Create.Replace.{replace_content}
use denizen.Token.{Jwt, Json, Fields, Issuer, new_content_token, ReadsBack, is_live, member}
use denizen.OnlyOffice.{
  Client, enabled, EditorConfig, config_claims, sign, without_bearer, callback_token,
  verify_callback, document_url, callback_url, document_type,
}
use denizen.OnlyOffice.Config.{
  config, prepare_config, issue_config, unsigned, with_token, content_token_ttl, editor_mode,
  extension, format_int,
}
use denizen.OnlyOffice.Document.{Fetch, saved_document}
use denizen.OnlyOffice.Callback.{
  CallbackRequest, CallbackBody, decode_body, asks_to_save, save_callback_document, acknowledge,
  callback,
}
use denizen.World.{Env, World}

ok-inj : {A : Type 0} {a b : A} → ok a ≡ ok b → a ≡ b
ok-inj h = cc

record IsPrepared (client : Client) (db : Db) (caller id : Text) (item : Item) (edit : Bool)
    (doc_type : Text) : Type 0 where
  found : resolve_content_item db caller id ≡ ok item
  active : item.deleted_at ≡ none
  may : can_edit db caller item ≡ ok edit
  kind : document_type (extension item) ≡ some doc_type

prepare_config-IsPrepared :
    (client : Client) (db : Db) (caller id : Text) (item : Item) (edit : Bool) (doc_type : Text)
    → prepare_config client db caller id ≡ ok (item, edit, doc_type)
    → IsPrepared client db caller id item edit doc_type
unfolding prepare_config
prepare_config-IsPrepared client db caller id item edit doc_type h = record {
  found = ground arith;
  active = ground arith;
  may = ground arith;
  kind = ground arith;
}

issue_config-IsIssued :
    (issuer : Issuer) (client : Client) (now : ℤ) (caller requested : Text) (item : Item)
    (edit : Bool) (doc_type : Text) (cfg : EditorConfig)
    → issue_config issuer client now caller requested (item, edit, doc_type) ≡ ok cfg
    → (content_token : Text) × (new_content_token issuer now caller item.id content_token_ttl
        ≡ ok content_token)
      × (sign client (unsigned client caller requested item edit doc_type content_token)
          ≡ ok cfg.token)
      × (cfg
          ≡ with_token
              (unsigned client caller requested item edit doc_type content_token)
              cfg.token)
unfolding issue_config
issue_config-IsIssued issuer client now caller requested item edit doc_type cfg h =
    elim (Result-cases (new_content_token issuer now caller item.id content_token_ttl)) [
      | inr failed ↦ cc (rw failed.1 at h)
      | inl minted ↦
          elim (Result-cases
            (sign client (unsigned client caller requested item edit doc_type minted.0))) [
              | inr failed ↦ cc (rw (minted.1, failed.1) at h)
              | inl signed ↦
                  let made = ok-inj (rw (minted.1, signed.1) at h) in
                  (minted.0, minted.1, rw (sym made) signed.1, rw (sym made) refl)
            ]
    ]

readable_row :
    (db : Db) (caller id : Text) (item : Item)
    → get_including_trashed db caller id ≡ ok item
    → row db.items id ≡ some item
unfolding get_including_trashed get_by_id
readable_row db caller id item h = ground arith

content_row :
    (db : Db) (caller id : Text) (item : Item)
    → resolve_content_item db caller id ≡ ok item
    → (real : Text) × (row db.items real ≡ some item)
unfolding resolve_content_item
content_row db caller id item h =
    let (i, found, rest) = >>=-eq-ok (get_including_trashed db caller id) _ h in
    elim (Option-cases i.target_id) [
      | inl plain ↦ (id, readable_row db caller id item (ground arith))
      | inr link ↦ (link.0, readable_row db caller link.0 item (ground arith))
    ]

-- For a row that is not in the trash, CanEdit and GetForWrite agree.
can_edit_iff :
    (db : Db) (caller : Text) (item : Item) (edit : Bool)
    → row db.items item.id ≡ some item
    → item.deleted_at ≡ none
    → can_edit db caller item ≡ ok edit
    → (edit ≡ true) ↔ (get_for_write db caller item.id ≡ ok item)
unfolding can_edit get_for_write get_by_id
can_edit_iff db caller item edit there active h =
    elim (Result-cases (resolve_grant db item caller)) [
      | inl found ↦ ground arith
      | inr failed ↦ ground arith
    ]

view_ne_edit : text "view" ≢ text "edit"
unfolding text_eq
view_ne_edit e = false≢true (ap (λ s. s == text "edit") e)

mode_iff :
    (mode : Text) (edit : Bool) (P : Type 0)
    → mode ≡ editor_mode edit
    → (edit ≡ true) ↔ P
    → (mode ≡ text "edit") ↔ P
unfolding editor_mode
mode_iff mode true P h agree = (λ _. agree.0 refl, λ _. h)
mode_iff mode false P h agree = (λ e. absurd (view_ne_edit (sym h ∙ e)), λ p. cc (agree.1 p))

edit_iff : (shown edit : Bool) (P : Type 0) → shown ≡ edit → (edit ≡ true) ↔ P → (shown ≡ true) ↔ P
edit_iff shown edit P same agree = rw same agree

-- A config for an item, to one user: the Document Server gets its bytes from its address with a token for
-- it and for that user, and saves to its address; the key changes with its last change.
pub record IsConfigFor (issuer : Issuer) (client : Client) (now : ℤ) (caller : Text) (item : Item)
    (cfg : EditorConfig) : Type 0 where
  pub content_token : Text
  pub minted : new_content_token issuer now caller item.id content_token_ttl ≡ ok content_token
  pub url : cfg.document.url ≡ document_url client item.id content_token
  pub save_url : cfg.editor_config.callback_url ≡ callback_url client item.id
  pub key : cfg.document.key ≡ item.id ++ (text "-" ++ format_int item.updated_at)
  pub title : cfg.document.title ≡ item.name
  pub file_type : cfg.document.file_type ≡ extension item
  pub kind : document_type (extension item) ≡ some cfg.document_type
  pub user : cfg.editor_config.user.id ≡ caller
  pub signed : sign client (with_token cfg []) ≡ ok cfg.token

issued-IsConfigFor :
    (issuer : Issuer) (client : Client) (now : ℤ) (caller requested : Text) (item : Item)
    (edit : Bool) (doc_type content_token : Text) (cfg : EditorConfig)
    → document_type (extension item) ≡ some doc_type
    → new_content_token issuer now caller item.id content_token_ttl ≡ ok content_token
    → sign client (unsigned client caller requested item edit doc_type content_token) ≡ ok cfg.token
    → cfg ≡ with_token (unsigned client caller requested item edit doc_type content_token) cfg.token
    → IsConfigFor issuer client now caller item cfg
unfolding unsigned
issued-IsConfigFor issuer client now caller requested item edit doc_type content_token cfg kind
      minted signed same =
    record {
      content_token = content_token;
      minted = minted;
      url = ap (λ (c : EditorConfig). c.document.url) same;
      save_url = ap (λ (c : EditorConfig). c.editor_config.callback_url) same;
      key = ap (λ (c : EditorConfig). c.document.key) same;
      title = ap (λ (c : EditorConfig). c.document.title) same;
      file_type = ap (λ (c : EditorConfig). c.document.file_type) same;
      kind = kind ∙ ap (λ (c : EditorConfig). some c.document_type) (sym same);
      user = ap (λ (c : EditorConfig). c.editor_config.user.id) same;
      signed = ap (λ (c : EditorConfig). sign client (with_token c [])) same ∙ signed;
    }

-- Config is for the real item behind the id, which is not in the trash: its key, its title and its type
-- are those of that item, the Document Server gets the bytes from the address of that item, with a
-- content token for it and for the caller, and saves to the address of that item, and all this is what
-- the token of the config signs. It offers to edit exactly if GetForWrite lets the caller write the
-- item.
pub config_edit_iff :
    (issuer : Issuer) (client : Client) (db : Db) (now : ℤ) (caller id requested : Text)
    (cfg : EditorConfig)
    → config issuer client db now caller id requested ≡ ok cfg
    → (item : Item) × (resolve_content_item db caller id ≡ ok item)
      × (item.deleted_at ≡ none)
      × IsConfigFor issuer client now caller item cfg
      × ((cfg.editor_config.mode ≡ text "edit") ↔ (get_for_write db caller item.id ≡ ok item))
      × ((cfg.document.permissions.edit ≡ true) ↔ (get_for_write db caller item.id ≡ ok item))
unfolding config unsigned
config_edit_iff issuer client db now caller id requested cfg h =
    let ((item, edit, doc_type), prepared, h) =
      >>=-eq-ok (prepare_config client db caller id) _ h in
    let checked = prepare_config-IsPrepared client db caller id item edit doc_type prepared in
    let (content_token, minted, signed, same) =
      issue_config-IsIssued issuer client now caller requested item edit doc_type cfg h in
    let (real, there) = content_row db caller id item checked.found in
    let agree =
      can_edit_iff db caller item edit (rw (id-row db.items real item there) there) checked.active
        checked.may in
    (
      item,
      checked.found,
      checked.active,
      issued-IsConfigFor issuer client now caller requested item edit doc_type content_token cfg
          checked.kind minted signed same,
      mode_iff cfg.editor_config.mode edit (get_for_write db caller item.id ≡ ok item)
          (ap (λ (c : EditorConfig). c.editor_config.mode) same) agree,
      edit_iff cfg.document.permissions.edit edit (get_for_write db caller item.id ≡ ok item)
          (ap (λ (c : EditorConfig). c.document.permissions.edit) same) agree,
    )

verifies :
    (client : Client) (now : ℤ) (header : Text) (body : Option Json) (raw : Text) (claims : Fields)
    → without_bearer header ≡ raw
    → raw ≢ []
    → client.jwt.verify client.jwt_secret now raw ≡ some claims
    → verify_callback client now header body ≡ true
unfolding verify_callback callback_token
verifies client now header body raw claims sent filled law = ground arith

-- A config never expires as a token.
config_claims-is_live :
    (client : Client) (caller requested : Text) (item : Item) (edit : Bool)
    (doc_type content_token : Text) (now : ℤ)
    → is_live now
        (config_claims (unsigned client caller requested item edit doc_type content_token))
      ≡ true
unfolding is_live config_claims unsigned member text_eq
config_claims-is_live client caller requested item edit doc_type content_token now = refl

saved :
    (env : Env) (client : Client) (fetch : Fetch) (req : CallbackRequest) (w : World)
    (payload : CallbackBody)
    → enabled client ≡ true
    → req.body_length ≤ 2 ^ 16
    → verify_callback client w.now req.authorization req.body ≡ true
    → decode_body req.body ≡ ok payload
    → asks_to_save payload.status ≡ true
    → callback env client fetch req w
      ≡ acknowledge (save_callback_document env fetch req.path_id payload.url w)
unfolding callback
saved env client fetch req w payload on short verified decoded save =
    let within : ltb (2 ^ 16) req.body_length ≡ false = ground arith in
    rw (on, within, verified, decoded, save)

save-replaces :
    (env : Env) (fetch : Fetch) (id url : Text) (w : World) (item : Item) (content : Text)
    → url ≢ []
    → get_for_share w.db id ≡ ok item
    → fetch url ≡ ok (200, content)
    → save_callback_document env fetch id url w ≡ replace_content env item.owner_id id content w
unfolding save_callback_document saved_document
save-replaces env fetch id url w item content given found fetched = ground (arith, found, fetched)

ReadsBack-same :
    (jwt : Jwt) (secret : Text) (a b : EditorConfig)
    → a ≡ b
    → ReadsBack jwt secret (config_claims a)
    → ReadsBack jwt secret (config_claims b)
ReadsBack-same jwt secret a b e law = rw (← e) law

-- Callback changes nothing for a request that VerifyCallback does not accept, and answers with an
-- error.
pub callback_unverified :
    (env : Env) (client : Client) (fetch : Fetch) (req : CallbackRequest) (w : World)
    → verify_callback client w.now req.authorization req.body ≡ false
    → (e : Error) × (callback env client fetch req w ≡ (err e, w))
unfolding callback
callback_unverified env client fetch req w refused = elim (Bool-cases (enabled client)) [
  | inr off ↦ (not_found, rw off)
  | inl on ↦ elim (Bool-cases (ltb (2 ^ 16) req.body_length)) [
    | inl long ↦ (validation "callback body too large", rw (on, long))
    | inr short ↦ (unauthorized, rw (on, short, refused))
  ]
]

-- Anybody who gets a config, whether to view or to edit, has a token that Callback accepts as the
-- Document Server's, at any later time and for any item that is not in the trash: what Callback does is
-- ReplaceContent of that item by the bytes behind the URL in the body, in the name of its owner, and
-- its answer is 0 if that succeeds and 1 if it fails. This is if there is a secret, if the JWT library
-- reads back what it signs, and if the request is of a form that Callback takes.
pub config_token_saves :
    (env : Env) (issuer : Issuer) (client : Client) (fetch : Fetch) (db : Db) (now : ℤ)
    (caller id requested : Text) (cfg : EditorConfig) (req : CallbackRequest) (w : World)
    (payload : CallbackBody) (item : Item) (content : Text)
    → config issuer client db now caller id requested ≡ ok cfg
    → client.jwt_secret ≢ []
    → ReadsBack client.jwt client.jwt_secret (config_claims (with_token cfg []))
    → cfg.token ≢ []
    → req.authorization ≡ text "Bearer " ++ cfg.token
    → req.body_length ≤ 2 ^ 16
    → decode_body req.body ≡ ok payload
    → asks_to_save payload.status ≡ true
    → payload.url ≢ []
    → get_for_share w.db req.path_id ≡ ok item
    → fetch payload.url ≡ ok (200, content)
    → callback env client fetch req w
      ≡ acknowledge (replace_content env item.owner_id req.path_id content w)
unfolding config sign prepare_config after_prefix
config_token_saves env issuer client fetch db now caller id requested cfg req w payload item content
      made secret law filled sent short decoded save given found fetched =
    let ((i, edit, doc_type), prepared, h) =
      >>=-eq-ok (prepare_config client db caller id) _ made in
    let (content_token, minted, signed, same) =
      issue_config-IsIssued issuer client now caller requested i edit doc_type cfg h in
    let on : enabled client ≡ true = ground arith in
    let read =
      ReadsBack-same client.jwt client.jwt_secret _ _ (ap (λ c. with_token c []) same) law cfg.token
        (ground arith) w.now
        (config_claims-is_live client caller requested i edit doc_type content_token w.now) in
    let accepted =
      verifies client w.now req.authorization req.body cfg.token _ (rw sent refl) filled read in
    rw (
      saved env client fetch req w payload on short accepted decoded save,
      save-replaces env fetch req.path_id payload.url w item content given found fetched,
    )
