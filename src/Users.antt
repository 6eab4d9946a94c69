-- ===== src/Users.antt =====
-- internal/service/user.go: Get and Update.
pub mod Laws
use denizen.Prelude.{Bool, Option, none, some, Text}
use denizen.Prelude.Int.{ℤ, pos, lt_int}
use denizen.Model.{User, Db, not_found, validation}
use denizen.Result.{Result, ok, err, ◌>>=◌, ◌>>◌, fail_if, no_row_as}
use denizen.Repo.Users.{get_by_id, update_quota_and_disabled}
use denizen.World.{World, Service}

-- UserService.Get
unfoldable pub get_user : Db → Text → Result User
unfolding get_by_id
get_user db id = no_row_as not_found (get_by_id db id)

pub record UpdateInput : Type 0 where
  pub quota_bytes : Option ℤ
  pub disabled : Option Bool

-- A field that is not sent stays.
abbrev pub or_kept {ℓ} : {A : Type ℓ} → Option A → A → A
or_kept none old = old
or_kept (some new) old = new

abbrev check_new_quota : Option ℤ → Result (Unit {0})
check_new_quota none = ok tt
check_new_quota (some quota) =
    fail_if (lt_int quota (pos 0)) (validation "quota_bytes cannot be negative")

abbrev pub updated_user : UpdateInput → User → User
updated_user input user = record user {
  quota_bytes = or_kept input.quota_bytes user.quota_bytes;
  disabled = or_kept input.disabled user.disabled;
}

-- UserService.Update, up to its write
unfoldable pub prepare_update : Db → Text → UpdateInput → Result User
unfolding get_user
prepare_update db id input = do
  user ← get_user db id
  check_new_quota input.quota_bytes
  ok (updated_user input user)

-- UserService.Update
unfoldable pub update_user : Text → UpdateInput → Service User
unfolding prepare_update update_quota_and_disabled
update_user id input w = elim (prepare_update w.db id input) [
  | err e ↦ (err e, w)
  | ok user ↦
      (ok user, record w { db = update_quota_and_disabled id user.quota_bytes user.disabled w.db })
]
