-- ===== src/Tests/Tokens.antt =====
-- The theorems on tokens, the middleware and the editors, on the small drive.
use denizen.Prelude.{
  ◌≡◌, ◌≢◌, ◌⊎◌, ◌↔◌, ◌∷◌, refl, true, false, none, some, [], Text, text, text_eq, if◌then◌else◌,
}
use denizen.Prelude.Int.{pos, ◌+ℤ◌}
use denizen.Model.{User, unauthorized}
use denizen.Result.{ok, err}
use denizen.Token.{
  Jwt, Claims, Issuer, Fields, access_claims, content_claims, is_live, ReadsBack, ContentClaims,
  parse_content_token, new_content_token, new_access_token,
}
use denizen.Middleware.{Request, parse_bearer, require_auth, require_auth_or_content_token}
use denizen.Middleware.Laws.{
  content_token-opens, require_auth_or_content_token_iff, content_token_as_bearer,
}
use denizen.Auth.{TokenPair, login, issue_token_pair}
use denizen.Auth.Check.{check_login}
use denizen.Auth.Bearer.{login-authorizes}
use denizen.Repo.Users.{get_by_username, create_token}
use denizen.Text.{after_prefix}
use denizen.World.{Env}
use denizen.Tests.{env, ann, world}

-- A library that signs every token as one word, and reads it as the claims that it is made for.
abbrev pub jwt_for : Fields → Jwt
jwt_for claims = record {
  sign = λ secret c. ok (text "signed");
  verify = λ secret now raw. if is_live now claims then some claims else none;
}

pub jwt_for-ReadsBack : (claims : Fields) (secret : Text) → ReadsBack (jwt_for claims) secret claims
jwt_for-ReadsBack claims secret raw made now live = rw live

abbrev pub reading : Issuer
reading = record {
  jwt = jwt_for (content_claims (text "ann") (text "f") (pos 50) (pos 600));
  secret = text "secret";
}

abbrev bearer : Request
bearer = record { authorization = text "Bearer signed"; query_token = []; path_id = text "d" }

content_token_as_bearer_example :
    require_auth reading (pos 60) bearer ≡ ok (record { user_id = text "ann"; is_admin = false })
unfolding new_content_token ◌+ℤ◌
content_token_as_bearer_example =
    content_token_as_bearer reading (text "ann") (text "f") (pos 50) (pos 600) (pos 60)
      (text "signed") bearer
      (jwt_for-ReadsBack (content_claims (text "ann") (text "f") (pos 50) (pos 600))
        (text "secret"))
      refl refl refl

-- The token in the query, for another item and for its own.
abbrev in_query : Text → Request
in_query id = record { authorization = []; query_token = text "signed"; path_id = id }

content_token-opens_example :
    ((text "f" ≡ text "f")
      × (require_auth_or_content_token reading (pos 60) (in_query (text "f"))
          ≡ ok (record { user_id = text "ann"; is_admin = false })))
    ⊎ ((text "f" ≢ text "f")
        × (require_auth_or_content_token reading (pos 60) (in_query (text "f")) ≡ err unauthorized))
unfolding new_content_token ◌+ℤ◌ parse_bearer after_prefix
content_token-opens_example =
    content_token-opens reading (text "ann") (text "f") (pos 50) (pos 600) (pos 60) (text "signed")
      (in_query (text "f"))
      (jwt_for-ReadsBack (content_claims (text "ann") (text "f") (pos 50) (pos 600))
        (text "secret"))
      refl refl (λ e. cc) refl refl

abbrev ann_claims : Claims
ann_claims = record { user_id = text "ann"; is_admin = false }

require_auth_or_content_token_iff_example :
    (require_auth_or_content_token reading (pos 60) bearer ≡ ok ann_claims) ↔ (
      (require_auth reading (pos 60) bearer ≡ ok ann_claims)
      ⊎ ((require_auth reading (pos 60) bearer ≡ err unauthorized)
          × (bearer.query_token ≢ [])
          × (c : ContentClaims) × (parse_content_token reading (pos 60) [] ≡ some c)
          × (c.item_id ≡ text "d")
          × (ann_claims ≡ record { user_id = c.user_id; is_admin = false })))
require_auth_or_content_token_iff_example =
    require_auth_or_content_token_iff reading (pos 60) bearer ann_claims

abbrev sessions : Issuer
sessions = record {
  jwt = jwt_for (access_claims (text "ann") true (pos 50) (pos 900));
  secret = text "secret";
}

abbrev signing_env : Env
signing_env = record env {
  access_token = λ id admin now. new_access_token sessions now id admin (pos 900);
}

abbrev ann_pair : TokenPair
ann_pair = record { access_token = text "signed"; refresh_token = b'%' ∷ 0 ∷ [] }

user_is : (user : User) → get_by_username world.db (text "ann") ≡ ok user → ann ≡ user
unfolding get_by_username text_eq
user_is user found = cc

signing-ReadsBack :
    (user : User)
    → get_by_username world.db (text "ann") ≡ ok user
    → ReadsBack sessions.jwt sessions.secret
        (access_claims user.id user.is_admin world.now (pos 900))
signing-ReadsBack user found =
    rw (← user_is user found)
      (jwt_for-ReadsBack (access_claims ann.id ann.is_admin (pos 50) (pos 900)) (text "secret"))

login-authorizes_example :
    (user : User) × (get_by_username world.db (text "ann") ≡ ok user)
    × (user.disabled ≡ false)
    × (require_auth sessions (pos 60) bearer
        ≡ ok (record { user_id = user.id; is_admin = user.is_admin }))
unfolding ◌+ℤ◌ login check_login get_by_username issue_token_pair create_token text_eq
    new_access_token
login-authorizes_example =
    login-authorizes signing_env sessions (pos 900) (text "ann") (text "password") world
      (login signing_env (text "ann") (text "password") world).1 ann_pair (pos 60) bearer
      (λ id admin now. refl) signing-ReadsBack refl refl refl
