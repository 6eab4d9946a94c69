-- ===== src/Items/Trash/Purge.antt =====
-- PurgeExpiredTrash of internal/service/item.go.
use denizen.Prelude.{ℕ, ◌+◌, List, [], ◌∷◌, select, not}
use denizen.Prelude.Int.{ℤ, ◌-ℤ◌}
use denizen.Model.{Item, Error}
use denizen.Result.{Result, ok, err}
use denizen.Repo.Items.{list_trashed_before}
use denizen.Items.Trash.{lies_in}
use denizen.Items.Trash.Commit.{permanently_delete}
use denizen.World.{Env, World}

-- How many items were purged, and the errors of the others.
pub record Sweep : Type 0 where
  pub purged : ℕ
  pub errors : List Error
  pub after : World

unfoldable pub count_result : Result (Unit {0}) → Sweep → Sweep
count_result (ok _) s = record s { purged = s.purged + 1 }
count_result (err e) s = record s { errors = e ∷ s.errors }

-- The loop of PurgeExpiredTrash: an error does not end it.
unfoldable pub purge_each : Env → List Item → World → Sweep
unfolding permanently_delete count_result
purge_each env [] w = record { purged = 0; errors = []; after = w }
purge_each env (item ∷ items) w =
    let (r, w') = permanently_delete env item.owner_id item.id w in
    count_result r (purge_each env items w')

-- PurgeExpiredTrash, for a retention in seconds
unfoldable pub purge_expired_trash : Env → ℤ → World → Sweep
unfolding purge_each list_trashed_before
purge_expired_trash env retention w =
    let expired = list_trashed_before w.db (w.now -ℤ retention) in
    purge_each env (select (λ i. not (lies_in expired i)) expired) w
