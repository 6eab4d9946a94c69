-- ===== src/Items/Lists/Star.antt =====
-- AddFavorite and RemoveFavorite of internal/service/item.go.
use denizen.Prelude.{
  ◌≡◌, refl, false, ◌&&◌, not, List, [], ◌∷◌, arith, Text, ◌==◌, text_eq, any, select,
}
use denizen.Model.{Favorite}
use denizen.Result.{ok}
use denizen.Exec.{read, ◌>>=◌}
use denizen.Repo.Shares.{add_favorite, remove_favorite, favorited, is_favorite}
use denizen.Items.Access.{get_readable}
use denizen.World.{Env, World, Service, exec_sql, exec_sql', new_id}

-- AddFavorite
unfoldable pub star : Env → Text → Text → Service (Unit {0})
unfolding get_readable add_favorite
star env caller id = do
  item ← read (λ (w : World). get_readable w.db caller id)
  star_id ← new_id env
  now ← read (λ (w : World). ok w.now)
  exec_sql (
      add_favorite (record { id = star_id; item_id = item.id; user_id = caller; created_at = now }))

-- RemoveFavorite
unfoldable pub unstar : Text → Text → Service (Unit {0})
unfolding remove_favorite
unstar caller id = exec_sql' (remove_favorite id caller)

removed-favorites :
    (id caller : Text) (favorites : List Favorite)
    → any (is_favorite id caller) (select (λ f. not (is_favorite id caller f)) favorites) ≡ false
removed-favorites id caller [] = refl
removed-favorites id caller (f ∷ favorites) = ground (arith, removed-favorites id caller favorites)

other-favorites :
    (id caller item other : Text)
    → (other == caller && item == id) ≡ false
    → (favorites : List Favorite)
    → any (is_favorite item other) (select (λ f. not (is_favorite id caller f)) favorites)
      ≡ any (is_favorite item other) favorites
other-favorites id caller item other apart [] = refl
other-favorites id caller item other apart (f ∷ favorites) =
    ground (arith, apart, other-favorites id caller item other apart favorites)

-- An item that a user takes the star off is no favorite of the user's, whether it was one before or
-- not; the stars of other users and on other items stay.
pub unstar_exact :
    (caller id : Text) (w : World)
    → (favorited (unstar caller id w).1.db caller (id ∷ []) id ≡ false)
      × ((other item : Text)
          → (other == caller && item == id) ≡ false
          → any (is_favorite item other) (unstar caller id w).1.db.favorites
            ≡ any (is_favorite item other) w.db.favorites)
unfolding unstar remove_favorite favorited
unstar_exact caller id w = (
  ground (arith, removed-favorites id caller w.db.favorites),
  λ other item apart. other-favorites id caller item other apart w.db.favorites,
)
