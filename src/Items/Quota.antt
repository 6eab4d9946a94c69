-- ===== src/Items/Quota.antt =====
-- The quota: CheckQuota of internal/service/item.go.
use denizen.Prelude.{◌≡◌, ◌↔◌, Text, arith}
use denizen.Prelude.Int.{ℤ, ◌+ℤ◌, ◌≤ℤ◌, IsInt64, wrap64-eq_of_IsInt64}
use denizen.Model.{User, Db}
use denizen.Result.{ok}
use denizen.Repo.Users.{get_by_id}
use denizen.Items.Access.{check_quota}

-- CheckQuota accepts a change of the storage of a user exactly if the sum with what is used is within
-- the quota and the change within the free space of the disk, where the sum does not leave int64. So
-- it refuses a change that frees space, too, if more than the quota is still used after it.
pub check_quota_iff :
    (db : Db) (free : ℤ) (owner_id : Text) (additional : ℤ) (user : User)
    → get_by_id db owner_id ≡ ok user
    → IsInt64 (user.storage_used_bytes +ℤ additional)
    → (check_quota db free owner_id additional ≡ ok tt)
      ↔ ((user.storage_used_bytes +ℤ additional ≤ℤ user.quota_bytes) × (additional ≤ℤ free))
unfolding check_quota
check_quota_iff db free owner_id additional user found fits =
    let sum = wrap64-eq_of_IsInt64 (user.storage_used_bytes +ℤ additional) fits in
    (λ h. ground (arith, sum, found), λ h. ground (arith, sum, found))
