-- ===== src/Users/Laws.antt =====
-- What an administrator's edit of a user does.
use denizen.Prelude.{
  ◌≡◌, ◌≢◌, refl, ◌∙◌, Bool, false, some, List, [], ◌∷◌, map, find, arith, Text, ◌==◌, text_eq,
  if◌then◌else◌, inl, inr,
}
use denizen.Prelude.Int.{ℤ, pos, lt_int}
use denizen.Model.{User, Db}
use denizen.Result.{ok, Result-cases}
use denizen.Repo.Users.{get_by_id, update_quota_and_disabled}
use denizen.Users.{get_user, UpdateInput, or_kept, updated_user, prepare_update, update_user}
use denizen.World.{World}

find-map_user :
    (change : User → User) (keeps : (u : User) → (change u).id ≡ u.id) (id y : Text)
    (users : List User) (u : User)
    → find (λ (k : User). k.id == y) users ≡ some u
    → find (λ (k : User). k.id == y) (map (λ (k : User). if k.id == id then change k else k) users)
      ≡ some (if y == id then change u else u)
find-map_user change keeps id y [] u e = cc
find-map_user change keeps id y (k ∷ users) u e =
    ground (arith, find-map_user change keeps id y users u, keeps k)

prepare_update-ok :
    (db : Db) (id : Text) (input : UpdateInput) (user : User)
    → prepare_update db id input ≡ ok user
    → (old : User) × (get_by_id db id ≡ ok old) × (user ≡ updated_user input old)
unfolding prepare_update get_user
prepare_update-ok db id input user h = elim (Result-cases (get_by_id db id)) [
  | inr failed ↦ absurd (ground (arith, h))
  | inl found ↦ (found.0, found.1, ground arith)
]

after_update :
    (db : Db) (id y : Text) (quota : ℤ) (disabled : Bool) (old : User)
    → get_by_id db y ≡ ok old
    → get_by_id (update_quota_and_disabled id quota disabled db) y
      ≡ ok (if y == id then record old { quota_bytes = quota; disabled = disabled } else old)
unfolding get_by_id update_quota_and_disabled
after_update db id y quota disabled old e =
    let found : find (λ (k : User). k.id == y) db.users ≡ some old = ground arith in
    rw (
      find-map_user (λ u. record u { quota_bytes = quota; disabled = disabled }) (λ u. refl) id y
        db.users old found)

stored_after :
    (db : Db) (id : Text) (input : UpdateInput) (old : User)
    → get_by_id db id ≡ ok old
    → get_user
        (update_quota_and_disabled id
          (updated_user input old).quota_bytes
          (updated_user input old).disabled
          db)
        id
      ≡ ok (updated_user input old)
unfolding get_user
stored_after db id input old e =
    rw
      (after_update db id id (or_kept input.quota_bytes old.quota_bytes)
        (or_kept input.disabled old.disabled) old e)
      (ground arith)

other_after :
    (db : Db) (id y : Text) (quota : ℤ) (disabled : Bool) (other : User)
    → y ≢ id
    → get_by_id db y ≡ ok other
    → get_by_id (update_quota_and_disabled id quota disabled db) y ≡ ok other
other_after db id y quota disabled other apart e =
    ground (arith, after_update db id y quota disabled other e, apart)

quota_checked :
    (db : Db) (id : Text) (input : UpdateInput) (user : User) (q : ℤ)
    → prepare_update db id input ≡ ok user
    → input.quota_bytes ≡ some q
    → lt_int q (pos 0) ≡ false
unfolding prepare_update
quota_checked db id input user q h e = ground arith

-- What an edit that succeeds has done.
pub record IsUpdated (id : Text) (input : UpdateInput) (w w' : World) (user : User) : Type 0 where
  pub old : User
  pub found : get_by_id w.db id ≡ ok old
  pub new : user ≡ updated_user input old
  pub stored : get_user w'.db id ≡ ok user
  pub others :
      (y : Text) (other : User)
      → y ≢ id
      → get_by_id w.db y ≡ ok other
      → get_by_id w'.db y ≡ ok other
  pub quota : (q : ℤ) → input.quota_bytes ≡ some q → lt_int q (pos 0) ≡ false

-- An edit that succeeds returns the user with the fields that were sent and the others as they were,
-- with a new quota that is not negative; a later Get returns the same, and the other users stay.
pub update_user-IsUpdated :
    (id : Text) (input : UpdateInput) (w w' : World) (user : User)
    → update_user id input w ≡ (ok user, w')
    → IsUpdated id input w w' user
unfolding update_user get_user
update_user-IsUpdated id input w w' user h = elim (Result-cases (prepare_update w.db id input)) [
  | inr failed ↦ cc (rw (update_user, failed.1) at h)
  | inl planned ↦
      let (old, found, new) = prepare_update-ok w.db id input planned.0 planned.1 in
      let after : w'.db
          ≡ update_quota_and_disabled id planned.0.quota_bytes planned.0.disabled w.db =
        ground (arith, planned.1) in
      let same : user ≡ planned.0 = ground (arith, planned.1) in
      record {
        old = old;
        found = found;
        new = same ∙ new;
        stored = rw (after, same, new) (stored_after w.db id input old found);
        others = λ y other apart e.
            rw after (other_after w.db id y planned.0.quota_bytes planned.0.disabled other apart e);
        quota = λ q e. quota_checked w.db id input planned.0 q planned.1 e;
      }
]
