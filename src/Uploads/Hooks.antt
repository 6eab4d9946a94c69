-- ===== src/Uploads/Hooks.antt =====
-- preFinish of internal/upload/upload.go, and what the stamp of the owner is good for.
use denizen.Prelude.{
  ◌≡◌, ◌≢◌, ◌⊎◌, refl, ◌∙◌, sym, arith, inl, inr, false, not, Option, some, [], ◌∷◌, Text, text,
  ◌==◌, text_eq, select, Bool-cases, if◌then◌else◌,
}
use denizen.Prelude.Int.{ℤ}
use denizen.Model.{Item, Db, forbidden}
use denizen.Result.{ok, err}
use denizen.Exec.{read, ◌>>=◌}
use denizen.Storage.{FilePath}
use denizen.Items.Create.Commit.{finalize_upload}
use denizen.Token.{Claims}
use denizen.Uploads.{
  MetaData, meta_value, set_meta, Upload, parent_id_from_metadata, pre_create, check_owner,
  pre_terminate, stored_mime_type, prepare_finish,
}
use denizen.World.{Env, World, Service}

-- preFinish, with the MIME type that the standard library has for the extension of a name
unfoldable pub pre_finish : Env → (Text → Text) → Option Claims → Upload → Service Item
unfolding prepare_finish
pre_finish env by_name context upload = do
  (user_id, path) ← read (λ (w : World). prepare_finish context upload)
  finalize_upload env user_id (parent_id_from_metadata upload.meta_data)
      (meta_value upload.meta_data (text "filename")) path upload.size
      (stored_mime_type by_name upload.meta_data)

-- The metadata of an upload: what the client has declared, with the stamp of the caller.
pre_create-meta :
    (db : Db) (free : ℤ) (claims : Claims) (upload : Upload) (meta : MetaData)
    → pre_create db free (some claims) upload ≡ ok meta
    → meta ≡ set_meta (text "owner_id") claims.user_id upload.meta_data
unfolding pre_create
pre_create-meta db free claims upload meta h = ground arith

set_meta_same :
    (key value : Text) (meta : MetaData) → meta_value (set_meta key value meta) key ≡ value
unfolding set_meta meta_value
set_meta_same key value meta = ground arith

removed_other :
    (key other : Text) (meta : MetaData)
    → (key == other) ≡ false
    → meta_value (select (λ (k, v). not (k == key)) meta) other ≡ meta_value meta other
unfolding meta_value
removed_other key other [] h = refl
removed_other key other ((k, v) ∷ meta) h =
    let rest = removed_other key other meta h in
    elim (Bool-cases (k == key)) [
      | inr kept ↦ rw (kept, meta_value, rest) refl
      | inl gone ↦ rw (gone, meta_value, rest) (ground arith)
    ]

set_meta_other :
    (key value other : Text) (meta : MetaData)
    → (key == other) ≡ false
    → meta_value (set_meta key value meta) other ≡ meta_value meta other
unfolding set_meta meta_value
set_meta_other key value other meta h = rw h (removed_other key other meta h)

check_owner-eq :
    (user_id : Text) (claims : Claims) (upload : Upload)
    → meta_value upload.meta_data (text "owner_id") ≡ user_id
    → check_owner (some claims) upload
      ≡ (if user_id == claims.user_id then ok claims else err forbidden)
unfolding check_owner
check_owner-eq user_id claims upload stamp = rw stamp (ground arith)

if_same :
    (user_id : Text) (claims : Claims)
    → user_id ≡ claims.user_id
    → (if user_id == claims.user_id then ok claims else err forbidden) ≡ ok claims
if_same user_id claims same = ground arith

if_other :
    (user_id : Text) (claims : Claims)
    → user_id ≢ claims.user_id
    → (if user_id == claims.user_id then ok claims else err forbidden) ≡ err forbidden
if_other user_id claims other = ground arith

-- What the client has declared is not changed by the stamp.
module _ (meta : MetaData) (user_id : Text) (stamped : MetaData)
    (same : stamped ≡ set_meta (text "owner_id") user_id meta) where
  declared_name : meta_value stamped (text "filename") ≡ meta_value meta (text "filename")
  unfolding text_eq
  declared_name = rw same (set_meta_other (text "owner_id") user_id (text "filename") meta refl)

  declared_parent : parent_id_from_metadata stamped ≡ parent_id_from_metadata meta
  unfolding parent_id_from_metadata text_eq
  declared_parent = rw (same, set_meta_other (text "owner_id") user_id (text "parent_id") meta refl)

  declared_type :
      (by_name : Text → Text) → stored_mime_type by_name stamped ≡ stored_mime_type by_name meta
  unfolding stored_mime_type text_eq
  declared_type by_name = rw (
    same,
    set_meta_other (text "owner_id") user_id (text "filename") meta refl,
    set_meta_other (text "owner_id") user_id (text "filetype") meta refl,
  )

-- An upload that was started by one user: only that user can finish or cancel it. To anybody else both
-- are forbidden and change nothing, whatever owner the client has declared. For the user who finishes
-- it, preFinish is FinalizeUpload, as that user, of the staged bytes, with the name, the folder and the
-- type that were declared at the start.
pub upload-owner :
    (env : Env) (by_name : Text → Text) (db : Db) (free : ℤ) (starter claims : Claims)
    (upload finished : Upload) (meta : MetaData) (path : FilePath) (w : World)
    → pre_create db free (some starter) upload ≡ ok meta
    → finished.meta_data ≡ meta
    → finished.path ≡ some path
    → ((claims.user_id ≡ starter.user_id)
        × (pre_finish env by_name (some claims) finished w
            ≡ finalize_upload env starter.user_id
                (parent_id_from_metadata upload.meta_data)
                (meta_value upload.meta_data (text "filename"))
                path
                finished.size
                (stored_mime_type by_name upload.meta_data)
                w)
        × (pre_terminate (some claims) finished ≡ ok tt))
      ⊎ ((claims.user_id ≢ starter.user_id)
          × (pre_finish env by_name (some claims) finished w ≡ (err forbidden, w))
          × (pre_terminate (some claims) finished ≡ err forbidden))
unfolding pre_finish pre_terminate prepare_finish
upload-owner env by_name db free starter claims upload finished meta path w started kept there =
    let stamped = kept ∙ pre_create-meta db free starter upload meta started in
    let owner : meta_value finished.meta_data (text "owner_id") ≡ starter.user_id =
      rw stamped (set_meta_same (text "owner_id") starter.user_id upload.meta_data) in
    let checked = check_owner-eq starter.user_id claims finished owner in
    elim (text_eq.dec starter.user_id claims.user_id) [
      | yes same ↦
          let passes : check_owner (some claims) finished ≡ ok claims =
            checked ∙ if_same starter.user_id claims same in
          inl (
            sym same,
            rw (passes, there)
                (rw (
                  sym same,
                  declared_parent upload.meta_data starter.user_id finished.meta_data stamped,
                  declared_name upload.meta_data starter.user_id finished.meta_data stamped,
                  declared_type upload.meta_data starter.user_id finished.meta_data stamped by_name,
                )),
            rw passes,
          )
      | no other ↦
          let fails : check_owner (some claims) finished ≡ err forbidden =
            checked ∙ if_other starter.user_id claims other in
          inr (λ e. other (sym e), rw fails, rw fails)
    ]
