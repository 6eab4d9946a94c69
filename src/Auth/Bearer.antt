-- ===== src/Auth/Bearer.antt =====
-- A session from Login to a request: internal/service/auth.go, internal/token/token.go and
-- internal/middleware/auth.go together.
use denizen.Prelude.{◌≡◌, Bool, true, false, ◌++◌, Text, text, inl, inr, ◌∙◌, sym}
use denizen.Prelude.Int.{ℤ, lt_int, ◌+ℤ◌}
use denizen.Model.{User}
use denizen.Result.{ok, Result-cases}
use denizen.Repo.Users.{get_by_username}
use denizen.Auth.Check.{check_login}
use denizen.Auth.{TokenPair, login}
use denizen.Auth.Sessions.{issue_token_pair-IsIssued, check_login-ok}
use denizen.Token.{Issuer, ReadsBack, access_claims, new_access_token}
use denizen.Middleware.{Request, require_auth}
use denizen.Middleware.Laws.{access_token-authorizes}
use denizen.World.{Env, World}

-- What AuthService has from its Issuer: it signs access tokens with a lifetime.
abbrev pub IssuedBy : Env → Issuer → ℤ → Type 0
IssuedBy env issuer ttl =
    (user_id : Text) (is_admin : Bool) (now : ℤ)
    → env.access_token user_id is_admin now ≡ new_access_token issuer now user_id is_admin ttl

-- After a login that succeeds, a request with the access token as its bearer passes RequireAuth as the
-- user of that name, who is not disabled, and as an admin exactly if the user was one at the login,
-- until the token expires, if the JWT library reads back what it signs for that user.
pub login-authorizes :
    (env : Env) (issuer : Issuer) (ttl : ℤ) (username password : Text) (w w' : World)
    (pair : TokenPair) (later : ℤ) (req : Request)
    → IssuedBy env issuer ttl
    → ((user : User)
        → get_by_username w.db username ≡ ok user
        → ReadsBack issuer.jwt issuer.secret (access_claims user.id user.is_admin w.now ttl))
    → login env username password w ≡ (ok pair, w')
    → req.authorization ≡ text "Bearer " ++ pair.access_token
    → lt_int later (w.now +ℤ ttl) ≡ true
    → (user : User) × (get_by_username w.db username ≡ ok user)
      × (user.disabled ≡ false)
      × (require_auth issuer later req
          ≡ ok (record { user_id = user.id; is_admin = user.is_admin }))
unfolding login
login-authorizes env issuer ttl username password w w' pair later req same law h sent live =
    elim (Result-cases (check_login env w.db username password)) [
      | inr failed ↦ cc (rw failed.1 at h)
      | inl checked ↦
          let (user, passed) = checked in
          let issued = issue_token_pair-IsIssued env user w w' pair (rw passed at h) in
          let (found, enabled, _) = check_login-ok env w.db username password user passed in
          (
            user,
            found,
            enabled,
            access_token-authorizes issuer user.id user.is_admin w.now ttl later pair.access_token
                req (law user found) (sym (same user.id user.is_admin w.now) ∙ issued.access) sent
                live,
          )
    ]
