-- ===== src/Uploads.antt =====
-- The hooks of internal/upload/upload.go, which the tus library calls at the start, at the end and at the
-- cancellation of an upload. The library keeps the metadata that the first hook returns.
pub mod Hooks
pub mod Garbage
use denizen.Prelude.{
  Bool, true, false, ◌&&◌, not, Option, none, some, List, [], ◌∷◌, map, Text, text, ◌==◌, text_eq,
  select, if◌then◌else◌,
}
use denizen.Prelude.Int.{ℤ}
use denizen.Model.{Db, Error, validation, unauthorized, forbidden, internal}
use denizen.Result.{Result, ok, err, fail_if, ◌>>=◌, ◌>>◌}
use denizen.Text.{trim_space}
use denizen.Storage.{FilePath}
use denizen.Items.Access.{validate_folder, check_quota}
use denizen.Token.{Claims}

-- handler.MetaData: a map
abbrev pub MetaData : Type 0
MetaData = List (Text × Text)

-- meta[key], which is "" for a key that is not there
unfoldable pub meta_value : MetaData → Text → Text
meta_value [] key = []
meta_value ((k, v) ∷ meta) key = let rest = meta_value meta key in if k == key then v else rest

-- meta[key] = value
unfoldable pub set_meta : Text → Text → MetaData → MetaData
set_meta key value meta = (key, value) ∷ select (λ (k, v). not (k == key)) meta

-- The part of handler.FileInfo that the hooks read. The path is where the bytes are staged.
pub record Upload : Type 0 where
  pub meta_data : MetaData
  pub size : ℤ
  pub size_is_deferred : Bool
  pub path : Option FilePath

-- parentIDFromMetadata
unfoldable pub parent_id_from_metadata : MetaData → Option Text
unfolding meta_value
parent_id_from_metadata meta =
    let v = trim_space (meta_value meta (text "parent_id")) in if v == [] then none else some v

-- The claims in the context of the request, or the error of unauthorizedTusError
abbrev pub claims_of : Option Claims → Result Claims
claims_of none = err unauthorized
claims_of (some claims) = ok claims

abbrev quota_unless_deferred : Db → ℤ → Text → Upload → Result (Unit {0})
quota_unless_deferred db free owner_id upload =
    if upload.size_is_deferred then ok tt else check_quota db free owner_id upload.size

-- preCreate: the metadata that the upload has from then on. The error is one that toTusError turns into
-- a response with the same status, and that of missing metadata has the status 400.
unfoldable pub pre_create : Db → ℤ → Option Claims → Upload → Result MetaData
unfolding parent_id_from_metadata set_meta meta_value
pre_create db free context upload = do
  claims ← claims_of context
  fail_if (trim_space (meta_value upload.meta_data (text "filename")) == [])
      (validation "filename metadata is required")
  target_owner_id ← validate_folder db claims.user_id (parent_id_from_metadata upload.meta_data)
  quota_unless_deferred db free target_owner_id upload
  ok (set_meta (text "owner_id") claims.user_id upload.meta_data)

-- The check that preFinish and preTerminate begin with: the caller is who has started the upload.
unfoldable pub check_owner : Option Claims → Upload → Result Claims
unfolding meta_value
check_owner context upload = do
  claims ← claims_of context
  fail_if (not (meta_value upload.meta_data (text "owner_id") == claims.user_id)) forbidden
  ok claims

-- preTerminate
unfoldable pub pre_terminate : Option Claims → Upload → Result (Unit {0})
unfolding check_owner
pre_terminate context upload = do _ ← check_owner context upload; ok tt

abbrev staged : Option FilePath → Result FilePath
staged none = err internal
staged (some path) = ok path

-- The MIME type that preFinish passes on
unfoldable pub stored_mime_type : (Text → Text) → MetaData → Text
unfolding meta_value
stored_mime_type by_name meta =
    let declared = meta_value meta (text "filetype") in
    if declared == [] then by_name (meta_value meta (text "filename")) else declared

-- preFinish, up to FinalizeUpload: the caller and the path of the bytes
unfoldable pub prepare_finish : Option Claims → Upload → Result (Text × FilePath)
unfolding check_owner
prepare_finish context upload = do
  claims ← check_owner context upload
  path ← staged upload.path
  ok (claims.user_id, path)
