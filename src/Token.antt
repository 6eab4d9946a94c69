-- ===== src/Token.antt =====
-- internal/token/token.go: access tokens and content tokens. The JWT library signs the claims, a JSON
-- object, and reads them back.
use denizen.Prelude.{
  ◌≡◌, Bool, true, false, ◌&&◌, not, Option, none, some, [], Text, text, ◌==◌, text_eq,
  if◌then◌else◌,
}
use denizen.Prelude.Int.{ℤ, ◌+ℤ◌, lt_int}
use denizen.Result.{Result, ok}

mutual
  pub data Json : Type 0 where
    null : Json
    boolean : Bool → Json
    number : ℤ → Json
    str : Text → Json
    object : Fields → Json

  pub data Fields : Type 0 where
    end : Fields
    field : Text → Json → Fields → Fields

-- The value of a key: the last one, if there are several.
unfoldable pub member : Text → Fields → Option Json
member key end = none
member key (field k v rest) = elim (member key rest) [
  | none ↦ if k == key then some v else none
  | some later ↦ some later
]

-- What encoding/json puts in a field of type string or bool: the zero value for a key that is missing
-- or null, an error for a value of another type.
abbrev pub as_text : Option Json → Option Text
as_text none = some []
as_text (some null) = some []
as_text (some (str s)) = some s
as_text (some _) = none

abbrev pub as_bool : Option Json → Option Bool
as_bool none = some false
as_bool (some null) = some false
as_bool (some (boolean b)) = some b
as_bool (some _) = none

-- The JWT library: SignedString with HS256, and ParseWithClaims with a key function that takes no
-- method but HMAC. The second yields the claims of a token whose signature and times hold.
pub record Jwt : Type 0 where
  pub sign : Text → Fields → Result Text
  pub verify : Text → ℤ → Text → Option Fields

abbrev passed : Option Json → ℤ → Bool
passed none now = true
passed (some (number t)) now = not (lt_int now t)
passed (some _) now = false

abbrev ahead : Option Json → ℤ → Bool
ahead none now = true
ahead (some (number t)) now = lt_int now t
ahead (some _) now = false

-- The times that the library checks: `exp` lies ahead, `nbf` does not.
unfoldable pub is_live : ℤ → Fields → Bool
unfolding member
is_live now claims =
    passed (member (text "nbf") claims) now && ahead (member (text "exp") claims) now

-- What the library documents of a token with these claims: it can be read back as long as they are
-- live.
abbrev pub ReadsBack : Jwt → Text → Fields → Type 0
ReadsBack jwt secret claims =
    (raw : Text)
    → jwt.sign secret claims ≡ ok raw
    → (now : ℤ) → is_live now claims ≡ true
    → jwt.verify secret now raw ≡ some claims

-- The part of Claims that is not the registered times.
pub record Claims : Type 0 where
  pub user_id : Text
  pub is_admin : Bool

pub record ContentClaims : Type 0 where
  pub user_id : Text
  pub item_id : Text

pub record Issuer : Type 0 where
  pub jwt : Jwt
  pub secret : Text

abbrev times : ℤ → ℤ → Fields
times now ttl = field (text "exp") (number (now +ℤ ttl)) (field (text "iat") (number now) end)

-- The claims of NewAccessToken
abbrev pub access_claims : Text → Bool → ℤ → ℤ → Fields
access_claims user_id is_admin now ttl =
    field (text "sub") (str user_id) (field (text "is_admin") (boolean is_admin) (times now ttl))

-- NewAccessToken
unfoldable pub new_access_token : Issuer → ℤ → Text → Bool → ℤ → Result Text
new_access_token issuer now user_id is_admin ttl =
    issuer.jwt.sign issuer.secret (access_claims user_id is_admin now ttl)

-- The decoding of claims into Claims
unfoldable pub decode_claims : Fields → Option Claims
unfolding member
decode_claims claims = elim (as_text (member (text "sub") claims)) [
  | none ↦ none
  | some user_id ↦ elim (as_bool (member (text "is_admin") claims)) [
    | none ↦ none
    | some is_admin ↦ some (record { user_id = user_id; is_admin = is_admin })
  ]
]

-- ParseAccessToken
unfoldable pub parse_access_token : Issuer → ℤ → Text → Option Claims
unfolding decode_claims
parse_access_token issuer now raw = elim (issuer.jwt.verify issuer.secret now raw) [
  | none ↦ none
  | some claims ↦ decode_claims claims
]

-- The claims of NewContentToken
abbrev pub content_claims : Text → Text → ℤ → ℤ → Fields
content_claims user_id item_id now ttl =
    field (text "sub") (str user_id) (field (text "item_id") (str item_id) (times now ttl))

-- NewContentToken
unfoldable pub new_content_token : Issuer → ℤ → Text → Text → ℤ → Result Text
new_content_token issuer now user_id item_id ttl =
    issuer.jwt.sign issuer.secret (content_claims user_id item_id now ttl)

-- The decoding of claims into ContentClaims
unfoldable pub decode_content_claims : Fields → Option ContentClaims
unfolding member
decode_content_claims claims = elim (as_text (member (text "sub") claims)) [
  | none ↦ none
  | some user_id ↦ elim (as_text (member (text "item_id") claims)) [
    | none ↦ none
    | some item_id ↦ some (record { user_id = user_id; item_id = item_id })
  ]
]

-- ParseContentToken
unfoldable pub parse_content_token : Issuer → ℤ → Text → Option ContentClaims
unfolding decode_content_claims
parse_content_token issuer now raw = elim (issuer.jwt.verify issuer.secret now raw) [
  | none ↦ none
  | some claims ↦ decode_content_claims claims
]
