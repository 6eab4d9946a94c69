-- ===== src/Auth/Sessions.antt =====
-- Sessions: what Login, Refresh and Logout do to refresh tokens.
use denizen.Prelude.{
  ◌≡◌, ◌≢◌, refl, ◌∙◌, true, false, some, List, [], ◌∷◌, arith, Text, ◌==◌, text_eq, find, map,
  if◌then◌else◌, Option-cases, inl, inr, ◌+◌,
}
use denizen.Prelude.Int.{ℤ, lt_int, ◌+ℤ◌}
use denizen.Model.{User, RefreshToken, Db, Error, unauthorized, no_row}
use denizen.Result.{ok, err, Result-cases}
use denizen.Repo.Users.{get_by_id, get_by_username, create_token, get_by_hash, revoke}
use denizen.Auth.Check.{check_login, check_refresh}
use denizen.Auth.{TokenPair, new_token, issue_token_pair, login, refresh, logout}
use denizen.World.{Env, World}

-- What issueTokenPair has done if it succeeds.
pub record IsIssued (env : Env) (user : User) (w w' : World) (pair : TokenPair) : Type 0 where
  pub raw : pair.refresh_token ≡ env.opaque w.drawn
  pub access : env.access_token user.id user.is_admin w.now ≡ ok pair.access_token
  pub tokens :
      w'.db.refresh_tokens
      ≡ new_token env user w.now (env.opaque w.drawn) (env.id (w.drawn + 1)) ∷ w.db.refresh_tokens
  pub clock : w'.now ≡ w.now

pub issue_token_pair-IsIssued :
    (env : Env) (user : User) (w w' : World) (pair : TokenPair)
    → issue_token_pair env user w ≡ (ok pair, w')
    → IsIssued env user w w' pair
unfolding issue_token_pair create_token
issue_token_pair-IsIssued env user w w' pair h = record {
  raw = ground arith;
  access = ground arith;
  tokens = ground arith;
  clock = ground arith;
}

-- The token of a pair is good for a refresh: it leads to a token of the user that is not revoked.
issued-refreshable :
    (env : Env) (user : User) (w w' : World) (pair : TokenPair)
    → IsIssued env user w w' pair
    → lt_int (w.now +ℤ env.refresh_ttl) w.now ≡ false
    → (t : RefreshToken) × (check_refresh env w'.db w'.now pair.refresh_token ≡ ok t)
      × (t.user_id ≡ user.id)
unfolding check_refresh get_by_hash
issued-refreshable env user w w' pair h live = (
  new_token env user w.now (env.opaque w.drawn) (env.id (w.drawn + 1)),
  rw (h.raw, h.tokens, h.clock) (ground (arith, live)),
  refl,
)

pub check_login-ok :
    (env : Env) (db : Db) (username password : Text) (user : User)
    → check_login env db username password ≡ ok user
    → (get_by_username db username ≡ ok user)
      × (user.disabled ≡ false)
      × (env.bcrypt_matches user.password_hash password ≡ true)
unfolding check_login
check_login-ok env db username password user h = (ground arith, ground arith, ground arith)

-- A login that succeeds is of a user who is not disabled and whose password matches, and hands out a
-- refresh token that Refresh accepts as that user's, if tokens live for a time that is not negative.
login-refreshable :
    (env : Env) (username password : Text) (w w' : World) (pair : TokenPair)
    → login env username password w ≡ (ok pair, w')
    → lt_int (w.now +ℤ env.refresh_ttl) w.now ≡ false
    → (user : User) × (get_by_username w.db username ≡ ok user)
      × (user.disabled ≡ false)
      × (env.bcrypt_matches user.password_hash password ≡ true)
      × (t : RefreshToken) × (check_refresh env w'.db w'.now pair.refresh_token ≡ ok t)
      × (t.user_id ≡ user.id)
unfolding login
login-refreshable env username password w w' pair h live =
    elim (Result-cases (check_login env w.db username password)) [
      | inr failed ↦ cc (rw failed.1 at h)
      | inl checked ↦
          let issued = issue_token_pair-IsIssued env checked.0 w w' pair (rw checked.1 at h) in
          let (found, enabled, matches) =
            check_login-ok env w.db username password checked.0 checked.1 in
          let (t, fresh, same) = issued-refreshable env checked.0 w w' pair issued live in
          (checked.0, found, enabled, matches, t, fresh, same)
    ]

hash-found :
    (hash : Text) (tokens : List RefreshToken) (t : RefreshToken)
    → find (λ (k : RefreshToken). k.token_hash == hash) tokens ≡ some t
    → t.token_hash ≡ hash
hash-found hash [] t e = cc
hash-found hash (k ∷ tokens) t e = ground (arith, hash-found hash tokens t)

-- The first token with a hash is revoked by its id.
revoked-found :
    (hash : Text) (at : ℤ) (tokens : List RefreshToken) (t : RefreshToken)
    → find (λ (k : RefreshToken). k.token_hash == hash) tokens ≡ some t
    → find
        (λ (k : RefreshToken). k.token_hash == hash)
        (map
          (λ (k : RefreshToken). if k.id == t.id then record k { revoked_at = some at } else k)
          tokens)
      ≡ some (record t { revoked_at = some at })
revoked-found hash at [] t e = cc
revoked-found hash at (k ∷ tokens) t e = ground (arith, revoked-found hash at tokens t)

-- A token that is revoked is refused from then on.
revoke-refused :
    (env : Env) (db : Db) (raw : Text) (t : RefreshToken) (at now : ℤ)
    → get_by_hash db (env.sha256 raw) ≡ ok t
    → check_refresh env (revoke t.id at db) now raw ≡ err unauthorized
unfolding check_refresh get_by_hash revoke
revoke-refused env db raw t at now e =
    let found : find (λ (k : RefreshToken). k.token_hash == env.sha256 raw) db.refresh_tokens
        ≡ some t =
      ground arith in
    rw (revoked-found (env.sha256 raw) at db.refresh_tokens t found)

-- A token with another hash changes nothing for the first.
other-refused :
    (env : Env) (db db' : Db) (raw : Text) (now : ℤ) (t : RefreshToken)
    → t.token_hash ≢ env.sha256 raw
    → db'.refresh_tokens ≡ t ∷ db.refresh_tokens
    → check_refresh env db now raw ≡ err unauthorized
    → check_refresh env db' now raw ≡ err unauthorized
unfolding check_refresh get_by_hash
other-refused env db db' raw now t other e h = rw e (ground (arith, h, other))

check_refresh-found :
    (env : Env) (db : Db) (now : ℤ) (raw : Text) (t : RefreshToken)
    → check_refresh env db now raw ≡ ok t
    → get_by_hash db (env.sha256 raw) ≡ ok t
unfolding check_refresh
check_refresh-found env db now raw t h = ground arith

-- A refresh token works once: after a refresh that succeeds, the same token is refused as
-- unauthorized at any later time, from any state with the same refresh tokens, if the new token has
-- another hash.
pub refresh_once :
    (env : Env) (raw : Text) (w w' : World) (pair : TokenPair)
    → refresh env raw w ≡ (ok pair, w')
    → env.sha256 (env.opaque w.drawn) ≢ env.sha256 raw
    → (later : World) → later.db.refresh_tokens ≡ w'.db.refresh_tokens
    → refresh env raw later ≡ (err unauthorized, later)
unfolding refresh
refresh_once env raw w w' pair h other later kept =
    elim (Result-cases (check_refresh env w.db w.now raw)) [
      | inr failed ↦ cc (rw failed.1 at h)
      | inl checked ↦
          let t = checked.0 in
          let db = revoke t.id w.now w.db in
          elim (Result-cases (get_by_id db t.user_id)) [
            | inr missing ↦ cc (rw (checked.1, missing.1) at h)
            | inl user ↦
                let issued =
                  issue_token_pair-IsIssued env user.0 (record w { db = db }) w' pair
                    (rw (checked.1, user.1) at h) in
                let gone =
                  revoke-refused env w.db raw t w.now later.now
                    (check_refresh-found env w.db w.now raw t checked.1) in
                let refused =
                  other-refused env db later.db raw later.now
                    (new_token env user.0 w.now (env.opaque w.drawn) (env.id (w.drawn + 1))) other
                    (kept ∙ issued.tokens) gone in
                rw refused
          ]
    ]

missing-no_row :
    (db : Db) (hash : Text) (e : Error)
    → get_by_hash db hash ≡ err e
    → get_by_hash db hash ≡ err no_row
unfolding get_by_hash
missing-no_row db hash e h = ground arith

missing-refused :
    (env : Env) (db : Db) (raw : Text) (now : ℤ)
    → get_by_hash db (env.sha256 raw) ≡ err no_row
    → check_refresh env db now raw ≡ err unauthorized
unfolding check_refresh
missing-refused env db raw now h = rw h

spent-refused :
    (env : Env) (db : Db) (raw : Text) (now : ℤ) (t : RefreshToken) (at : ℤ)
    → get_by_hash db (env.sha256 raw) ≡ ok t
    → t.revoked_at ≡ some at
    → check_refresh env db now raw ≡ err unauthorized
unfolding check_refresh
spent-refused env db raw now t at h spent = rw (h, spent)

-- Logout never fails, and after it Refresh refuses the token as unauthorized at any time.
logout_refused :
    (env : Env) (raw : Text) (w : World)
    → ((logout env raw w).0 ≡ ok tt)
      × ((now : ℤ) → check_refresh env (logout env raw w).1.db now raw ≡ err unauthorized)
unfolding logout
logout_refused env raw w = elim (Result-cases (get_by_hash w.db (env.sha256 raw))) [
  | inr missing ↦
      let gone = missing-no_row w.db (env.sha256 raw) missing.0 missing.1 in
      (rw (logout, gone), λ now. rw (logout, gone) (missing-refused env w.db raw now gone))
  | inl found ↦ elim (Option-cases found.0.revoked_at) [
    | inl live ↦ (
      rw (logout, found.1, live),
      λ now. rw (logout, found.1, live) (revoke-refused env w.db raw found.0 w.now now found.1),
    )
    | inr spent ↦ (
      rw (logout, found.1, spent.1),
      λ now.
          rw (logout, found.1, spent.1)
            (spent-refused env w.db raw now found.0 spent.0 found.1 spent.1),
    )
  ]
]

-- Revoking a token leaves the users.
after-revoke :
    (id : Text) (at : ℤ) (db : Db) (user_id : Text)
    → get_by_id (revoke id at db) user_id ≡ get_by_id db user_id
unfolding get_by_id revoke
after-revoke id at db user_id = refl

-- Refresh does not ask whether the user is disabled: a disabled user whose token is live gets a new
-- pair, if the access token can be signed and the row of the new token can be stored.
pub refresh_of_disabled :
    (env : Env) (raw : Text) (w : World) (t : RefreshToken) (user : User) (access : Text) (db' : Db)
    → check_refresh env w.db w.now raw ≡ ok t
    → get_by_id w.db t.user_id ≡ ok user
    → user.disabled ≡ true
    → env.access_token user.id user.is_admin w.now ≡ ok access
    → create_token
        (new_token env user w.now (env.opaque w.drawn) (env.id (w.drawn + 1)))
        (revoke t.id w.now w.db)
      ≡ ok db'
    → (refresh env raw w).0
      ≡ ok (record { access_token = access; refresh_token = env.opaque w.drawn })
unfolding refresh issue_token_pair
refresh_of_disabled env raw w t user access db' live found disabled signed stored =
    rw (live, after-revoke t.id w.now w.db t.user_id ∙ found, signed, stored)
