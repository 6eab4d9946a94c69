-- ===== src/Auth/Invites.antt =====
-- An invite makes one account.
use denizen.Prelude.{
  ◌≡◌, ◌≢◌, refl, ◌≤◌, false, none, some, List, [], ◌∷◌, arith, Text, ◌==◌, ==_refl, text_eq, find,
  any, map, length, ◌+◌, ◌∙◌, if◌then◌else◌, inl, inr,
}
use denizen.Prelude.Int.{ℤ, lt_int}
use denizen.Model.{User, Invite, Db, Error, conflict, is_null, no_row}
use denizen.Result.{ok, err, Result-cases}
use denizen.Repo.Users.{create, get_by_id, get_by_code, get_by_username, mark_used, is_open}
use denizen.Auth.Check.{RegisterInput, check_register}
use denizen.Auth.{new_user, redeem, claim, register, register_beside}
use denizen.World.{Env, World}

-- What a registration has checked when it starts to write.
pub record IsRegistration (env : Env) (db : Db) (now : ℤ) (input : RegisterInput) (invite : Invite)
    (hash : Text) : Type 0 where
  pub username : 3 ≤ length input.username
  pub password : 8 ≤ length input.password
  pub invited : get_by_code db input.invite_code ≡ ok invite
  pub unused : invite.used_at ≡ none
  pub in_time : lt_int invite.expires_at now ≡ false
  pub hashed : env.bcrypt input.password ≡ ok hash
  pub free : get_by_username db input.username ≡ err no_row

check_register-IsRegistration :
    (env : Env) (db : Db) (now : ℤ) (input : RegisterInput) (invite : Invite) (hash : Text)
    → check_register env db now input ≡ ok (invite, hash)
    → IsRegistration env db now input invite hash
unfolding check_register
check_register-IsRegistration env db now input invite hash h = record {
  username = ground arith;
  password = ground arith;
  invited = ground arith;
  unused = ground arith;
  in_time = ground arith;
  hashed = ground arith;
  free = ground arith;
}

-- Once the invites with a code are marked, none of them is open.
marked-closed :
    (code user_id : Text) (at : ℤ) (invites : List Invite)
    → any (is_open code) (
        map
          (λ (i : Invite).
            if is_open code i then record i { used_at = some at; used_by = some user_id } else i)
          invites)
      ≡ false
marked-closed code user_id at [] = refl
marked-closed code user_id at (i ∷ invites) = ground (arith, marked-closed code user_id at invites)

closed-found :
    (code : Text) (invites : List Invite) (i : Invite)
    → any (is_open code) invites ≡ false
    → find (λ (k : Invite). k.code == code) invites ≡ some i
    → is_null i.used_at ≡ false
closed-found code [] i closed e = cc
closed-found code (k ∷ invites) i closed e = ground (arith, closed-found code invites i)

code-found :
    (code : Text) (invites : List Invite) (i : Invite)
    → find (λ (k : Invite). k.code == code) invites ≡ some i
    → i.code ≡ code
code-found code [] i e = cc
code-found code (k ∷ invites) i e = ground (arith, code-found code invites i)

-- No open invite has the code: a registration with it is refused.
closed-refused :
    (env : Env) (db : Db) (now : ℤ) (input : RegisterInput)
    → any (is_open input.invite_code) db.invites ≡ false
    → (e : Error) × (check_register env db now input ≡ err e)
unfolding get_by_code
closed-refused env db now input closed = elim (Result-cases (check_register env db now input)) [
  | inr failed ↦ failed
  | inl passed ↦
      let ((invite, hash), e) = passed in
      let h = check_register-IsRegistration env db now input invite hash e in
      absurd
        (still_used input.invite_code db.invites invite closed (ground (arith, h.invited)) h.unused)
]
  where
    still_used :
        (code : Text) (invites : List Invite) (i : Invite)
        → any (is_open code) invites ≡ false
        → find (λ (k : Invite). k.code == code) invites ≡ some i
        → i.used_at ≢ none
    still_used code invites i closed found unused = ground (arith, closed-found code invites i)

-- What a registration that succeeds has done.
pub record IsRegistered (env : Env) (input : RegisterInput) (w w' : World) (user : User)
    : Type 0 where
  pub invite : Invite
  pub hash : Text
  pub checked : IsRegistration env w.db w.now input invite hash
  pub account : user ≡ new_user env input invite hash w.now (env.id w.drawn)
  pub users : w'.db.users ≡ user ∷ w.db.users
  pub closed : any (is_open input.invite_code) w'.db.invites ≡ false

created_users : (user : User) (db db' : Db) → create user db ≡ ok db' → db'.users ≡ user ∷ db.users
unfolding create
created_users user db db' h = ground arith

claim_inversion :
    (code : Text) (user user' : User) (w w' : World)
    → claim code user w ≡ (ok user', w')
    → (user' ≡ user) × (w'.db.users ≡ w.db.users) × (w'.db ≡ (mark_used code user.id w.now w.db).1)
unfolding claim redeem mark_used
claim_inversion code user user' w w' h = ground arith

-- The last step of a registration.
claimed :
    (env : Env) (input : RegisterInput) (w w' : World) (user : User) (invite : Invite) (hash : Text)
    → IsRegistration env w.db w.now input invite hash
    → (db' : Db) → create (new_user env input invite hash w.now (env.id w.drawn)) w.db ≡ ok db'
    → claim invite.code
        (new_user env input invite hash w.now (env.id w.drawn))
        (record w { db = db'; drawn = w.drawn + 1 })
      ≡ (ok user, w')
    → IsRegistered env input w w' user
unfolding mark_used get_by_code
claimed env input w w' user invite hash checked db' made h =
    let user₀ = new_user env input invite hash w.now (env.id w.drawn) in
    let (same, users, after) =
      claim_inversion invite.code user₀ user (record w { db = db'; drawn = w.drawn + 1 }) w' h in
    let code : invite.code ≡ input.invite_code =
      code-found input.invite_code w.db.invites invite (ground (arith, checked.invited)) in
    record {
      invite = invite;
      hash = hash;
      checked = checked;
      account = same;
      users = users ∙ (rw same (created_users user₀ w.db db' made));
      closed = rw (after, ← code) (marked-closed invite.code user₀.id w.now db'.invites);
    }

-- A registration that succeeds had an unused invite in time, a name of three bytes or more that was
-- free, and a password of eight or more. It adds one user, with the rights and the quota of the
-- invite, and leaves no open invite with the code.
pub register-IsRegistered :
    (env : Env) (input : RegisterInput) (w w' : World) (user : User)
    → register env input w ≡ (ok user, w')
    → IsRegistered env input w w' user
unfolding register
register-IsRegistered env input w w' user h =
    elim (Result-cases (check_register env w.db w.now input)) [
      | inr failed ↦ cc (rw (failed.1) at h)
      | inl checked ↦
          let ((invite, hash), e) = checked in
          elim (Result-cases
            (create (new_user env input invite hash w.now (env.id w.drawn)) w.db)) [
              | inr refused ↦ cc (rw (e, refused.1) at h)
              | inl made ↦
                  claimed env input w w' user invite hash
                    (check_register-IsRegistration env w.db w.now input invite hash e) made.0 made.1
                    (rw (e, made.1) at h)
            ]
    ]

-- An invite makes one account: after a registration that succeeds, another one with the same code is
-- refused, from any later state with the same invites.
pub register_once :
    (env : Env) (input : RegisterInput) (w w' : World) (user : User)
    → register env input w ≡ (ok user, w')
    → (again : RegisterInput) (later : World) → again.invite_code ≡ input.invite_code
    → later.db.invites ≡ w'.db.invites
    → (e : Error) × (register env again later ≡ (err e, later))
unfolding register
register_once env input w w' user h again later same kept =
    let done = register-IsRegistered env input w w' user h in
    let (e, refused) = closed-refused env later.db later.now again (rw (same, kept) done.closed) in
    (e, rw refused)

claim_refused :
    (code : Text) (user : User) (w : World)
    → any (is_open code) w.db.invites ≡ false
    → ((claim code user w).0 ≡ err (conflict "invite code already used"))
      × ((claim code user w).1.db.users ≡ w.db.users)
unfolding claim redeem mark_used
claim_refused code user w closed = (ground arith, ground arith)

created-found :
    (user : User) (db db' : Db) → create user db ≡ ok db' → get_by_id db' user.id ≡ ok user
unfolding get_by_id
created-found user db db' made =
    let front = created_users user db db' made in rw front (rw (==_refl user.id) refl)

get_by_id-same :
    (db db' : Db) (id : Text) → db'.users ≡ db.users → get_by_id db' id ≡ get_by_id db id
unfolding get_by_id
get_by_id-same db db' id same = rw same refl

-- The other request keeps the rows of users that it finds.
abbrev pub KeepsUsers : (World → World) → World → Type 0
KeepsUsers other w =
    (id : Text) (u : User) → get_by_id w.db id ≡ ok u → get_by_id (other w).db id ≡ ok u

-- A registration that has passed its checks and has created its user, beside a request that takes the
-- invite before MarkUsed and keeps the users: it is refused as a conflict, but the account of the new
-- user, under a name that nobody had before, stays. With nothing beside it the registration is Register.
pub register_taken :
    (other : World → World) (env : Env) (input : RegisterInput) (w : World) (invite : Invite)
    (hash : Text) (db' : Db)
    → check_register env w.db w.now input ≡ ok (invite, hash)
    → create (new_user env input invite hash w.now (env.id w.drawn)) w.db ≡ ok db'
    → any (is_open invite.code) (other (record w { db = db'; drawn = w.drawn + 1 })).db.invites
      ≡ false
    → KeepsUsers other (record w { db = db'; drawn = w.drawn + 1 })
    → ((register_beside other env input w).0 ≡ err (conflict "invite code already used"))
      × (get_by_username w.db input.username ≡ err no_row)
      × (get_by_id (register_beside other env input w).1.db (env.id w.drawn)
          ≡ ok (new_user env input invite hash w.now (env.id w.drawn)))
      × (register_beside (λ v. v) env input w ≡ register env input w)
unfolding register_beside register
register_taken other env input w invite hash db' passed made closed keeps =
    let user = new_user env input invite hash w.now (env.id w.drawn) in
    let between = other (record w { db = db'; drawn = w.drawn + 1 }) in
    let (refused, same) = claim_refused invite.code user between closed in
    let stays = keeps user.id user (created-found user w.db db' made) in
    let checked = check_register-IsRegistration env w.db w.now input invite hash passed in
    (
      rw (register_beside, passed, made) refused,
      checked.free,
      rw (register_beside, passed, made)
          (get_by_id-same between.db (claim invite.code user between).1.db user.id same ∙ stays),
      refl,
    )
