-- ===== src/Middleware.antt =====
-- internal/middleware/auth.go: who a request comes from.
pub mod Laws
use denizen.Prelude.{
  Bool, true, false, ◌&&◌, Option, none, some, [], Text, text, ◌==◌, text_eq, if◌then◌else◌,
}
use denizen.Prelude.Int.{ℤ}
use denizen.Model.{unauthorized, forbidden, is_null}
use denizen.Result.{Result, ok, err}
use denizen.Text.{after_prefix}
use denizen.Token.{Claims, ContentClaims, Issuer, parse_access_token, parse_content_token}

-- What the middleware reads of a request: the header Authorization, the query parameter `token`, and
-- the segment `{id}` of the path.
pub record Request : Type 0 where
  pub authorization : Text
  pub query_token : Text
  pub path_id : Text

-- parseBearer
unfoldable pub parse_bearer : Issuer → ℤ → Request → Option Claims
unfolding after_prefix parse_access_token
parse_bearer issuer now req = elim (after_prefix (text "Bearer ") req.authorization) [
  | none ↦ none
  | some raw ↦ parse_access_token issuer now raw
]

-- The claims that the wrapped handler sees, or the error that the request ends with.
-- RequireAuth
unfoldable pub require_auth : Issuer → ℤ → Request → Result Claims
unfolding parse_bearer
require_auth issuer now req = elim (parse_bearer issuer now req) [
  | none ↦ err unauthorized
  | some claims ↦ ok claims
]

-- RequireAuthOrContentToken
unfoldable pub require_auth_or_content_token : Issuer → ℤ → Request → Result Claims
unfolding parse_bearer parse_content_token
require_auth_or_content_token issuer now req = elim (parse_bearer issuer now req) [
  | some claims ↦ ok claims
  | none ↦
      if req.query_token == []
      then err unauthorized
      else elim (parse_content_token issuer now req.query_token) [
        | none ↦ err unauthorized
        | some claims ↦
            if claims.item_id == req.path_id
            then ok (record { user_id = claims.user_id; is_admin = false })
            else err unauthorized
      ]
]

-- RequireAdmin, on the claims in the context
unfoldable pub require_admin : Option Claims → Result (Unit {0})
require_admin none = err forbidden
require_admin (some claims) = if claims.is_admin then ok tt else err forbidden

-- IsAuthenticated
unfoldable pub is_authenticated : Issuer → ℤ → Request → Bool
unfolding parse_bearer
is_authenticated issuer now req = elim (parse_bearer issuer now req) [
  | none ↦ false
  | some _ ↦ true
]
