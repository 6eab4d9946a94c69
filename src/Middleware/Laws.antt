-- ===== src/Middleware/Laws.antt =====
-- What a token opens: an access token every route until it expires, a content token the content of
-- its item, and more than that.
use denizen.Prelude.{
  ◌≡◌, ◌≢◌, ◌↔◌, ◌⊎◌, inl, inr, refl, arith, Bool, true, false, none, some, [], ◌++◌, Text, text,
  text_eq, Option-cases,
}
use denizen.Prelude.Int.{ℤ, ◌+ℤ◌, lt_int}
use denizen.Model.{unauthorized}
use denizen.Result.{ok, err}
use denizen.Token.{
  Claims, ContentClaims, Issuer, ReadsBack, is_live, member, access_claims, content_claims,
  new_access_token, new_content_token, parse_access_token, parse_content_token, decode_claims,
  decode_content_claims,
}
use denizen.Middleware.{Request, parse_bearer, require_auth, require_auth_or_content_token}

access-is_live :
    (user_id : Text) (is_admin : Bool) (now ttl later : ℤ)
    → is_live later (access_claims user_id is_admin now ttl) ≡ lt_int later (now +ℤ ttl)
unfolding is_live member text_eq
access-is_live user_id is_admin now ttl later = refl

content-is_live :
    (user_id item_id : Text) (now ttl later : ℤ)
    → is_live later (content_claims user_id item_id now ttl) ≡ lt_int later (now +ℤ ttl)
unfolding is_live member text_eq
content-is_live user_id item_id now ttl later = refl

-- With an access token as its bearer, a request passes RequireAuth as the user that the token was made
-- for, an admin or not as the token says, until the token expires, if the JWT library reads back what
-- it signs.
pub access_token-authorizes :
    (issuer : Issuer) (user_id : Text) (is_admin : Bool) (now ttl later : ℤ) (raw : Text)
    (req : Request)
    → ReadsBack issuer.jwt issuer.secret (access_claims user_id is_admin now ttl)
    → new_access_token issuer now user_id is_admin ttl ≡ ok raw
    → req.authorization ≡ text "Bearer " ++ raw
    → lt_int later (now +ℤ ttl) ≡ true
    → require_auth issuer later req ≡ ok (record { user_id = user_id; is_admin = is_admin })
unfolding require_auth parse_bearer parse_access_token new_access_token decode_claims member text_eq
access_token-authorizes issuer user_id is_admin now ttl later raw req law made sent live =
    rw (sent, law raw made later (rw (access-is_live user_id is_admin now ttl later) live))

parsed_content :
    (issuer : Issuer) (user_id item_id : Text) (now ttl later : ℤ) (raw : Text)
    → ReadsBack issuer.jwt issuer.secret (content_claims user_id item_id now ttl)
    → new_content_token issuer now user_id item_id ttl ≡ ok raw
    → lt_int later (now +ℤ ttl) ≡ true
    → parse_content_token issuer later raw ≡ some (record { user_id = user_id; item_id = item_id })
unfolding parse_content_token new_content_token decode_content_claims member text_eq
parsed_content issuer user_id item_id now ttl later raw law made live = rw (
  parse_content_token,
  law raw made later (rw (content-is_live user_id item_id now ttl later) live),
)

-- With the content token of an item in its query, and no bearer that is accepted, a request passes
-- RequireAuthOrContentToken as the user of the token, never as an admin, where the path names that
-- item, and is refused where it names another, until the token expires, if the JWT library reads back
-- what it signs and the token is not empty.
pub content_token-opens :
    (issuer : Issuer) (user_id item_id : Text) (now ttl later : ℤ) (raw : Text) (req : Request)
    → ReadsBack issuer.jwt issuer.secret (content_claims user_id item_id now ttl)
    → new_content_token issuer now user_id item_id ttl ≡ ok raw
    → req.query_token ≡ raw
    → raw ≢ []
    → parse_bearer issuer later req ≡ none
    → lt_int later (now +ℤ ttl) ≡ true
    → ((item_id ≡ req.path_id)
        × (require_auth_or_content_token issuer later req
            ≡ ok (record { user_id = user_id; is_admin = false })))
      ⊎ ((item_id ≢ req.path_id)
          × (require_auth_or_content_token issuer later req ≡ err unauthorized))
unfolding require_auth_or_content_token
content_token-opens issuer user_id item_id now ttl later raw req law made sent filled no_bearer
      live =
    let parsed = parsed_content issuer user_id item_id now ttl later raw law made live in
    ground (arith, parsed, no_bearer, sent, filled)

-- RequireAuthOrContentToken lets a request through exactly if RequireAuth does, with the same claims,
-- or if its query has a content token that can be parsed for the item of the path; then the claims are
-- those of its user, and not of an admin.
pub require_auth_or_content_token_iff :
    (issuer : Issuer) (now : ℤ) (req : Request) (claims : Claims)
    → (require_auth_or_content_token issuer now req ≡ ok claims) ↔ (
        (require_auth issuer now req ≡ ok claims)
        ⊎ ((require_auth issuer now req ≡ err unauthorized)
            × (req.query_token ≢ [])
            × (c : ContentClaims) × (parse_content_token issuer now req.query_token ≡ some c)
            × (c.item_id ≡ req.path_id)
            × (claims ≡ record { user_id = c.user_id; is_admin = false })))
unfolding require_auth_or_content_token require_auth
require_auth_or_content_token_iff issuer now req claims =
    elim (Option-cases (parse_bearer issuer now req)) [
      | inr bearer ↦ rw bearer.1 (ground arith)
      | inl absent ↦ elim (Option-cases (parse_content_token issuer now req.query_token)) [
        | inl bad ↦ ground arith
        | inr good ↦ ground arith
      ]
    ]

-- A content token is a bearer token too: RequireAuth accepts it on every route, as its user, until it
-- expires, if the JWT library reads back what it signs.
pub content_token_as_bearer :
    (issuer : Issuer) (user_id item_id : Text) (now ttl later : ℤ) (raw : Text) (req : Request)
    → ReadsBack issuer.jwt issuer.secret (content_claims user_id item_id now ttl)
    → new_content_token issuer now user_id item_id ttl ≡ ok raw
    → req.authorization ≡ text "Bearer " ++ raw
    → lt_int later (now +ℤ ttl) ≡ true
    → require_auth issuer later req ≡ ok (record { user_id = user_id; is_admin = false })
unfolding require_auth parse_bearer parse_access_token new_content_token decode_claims member
    text_eq
content_token_as_bearer issuer user_id item_id now ttl later raw req law made sent live =
    rw (sent, law raw made later (rw (content-is_live user_id item_id now ttl later) live))
