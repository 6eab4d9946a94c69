-- ===== src/Exec/Keeps.antt =====
-- Properties of the state that a step keeps, whether it succeeds or fails.
use denizen.Result.{Result, ok, err}
use denizen.Exec.{Exec, on_ok, undo_with, ◌>>=◌, ◌on_error◌}

abbrev pub Keeps {ℓ κ} : {S A : Type ℓ} → (S → Type κ) → Exec S A → Type (ℓ ⊔ κ)
Keeps P m = (s : _) → P s → P (m s).1

module _ {ℓ κ} {S : Type ℓ} (P : S → Type κ) where
  on_ok-keeps :
      {A B : Type ℓ} (f : A → Exec S B)
      → ((a : A) → Keeps P (f a))
      → (r : Result A × S) → P r.1
      → P (on_ok r f).1
  on_ok-keeps f k (ok a, t) q = k a t q
  on_ok-keeps f k (err e, t) q = q

  pub Keeps->>= :
      {A B : Type ℓ} (m : Exec S A) (f : A → Exec S B)
      → Keeps P m
      → ((a : A) → Keeps P (f a))
      → Keeps P (m >>= f)
  Keeps->>= m f h k s p = on_ok-keeps f k (m s) (h s p)

  undo_with-keeps :
      {A : Type ℓ} (undo : S → S)
      → ((s : S) → P s → P (undo s))
      → (r : Result A × S) → P r.1
      → P (undo_with r undo).1
  undo_with-keeps undo k (ok a, t) q = q
  undo_with-keeps undo k (err e, t) q = k t q

  pub Keeps-on_error :
      {A : Type ℓ} (m : Exec S A) (undo : S → S)
      → Keeps P m
      → ((s : S) → P s → P (undo s))
      → Keeps P (m on_error undo)
  Keeps-on_error m undo h k s p = undo_with-keeps undo k (m s) (h s p)

-- A step and what follows, where the step establishes a property that the rest starts from.
pub on_ok-ensures {ℓ κ} :
    {S A B : Type ℓ} (Q P : S → Type κ) (f : A → Exec S B)
    → ((s : S) → Q s → P s)
    → ((a : A) (s : S) → Q s → P (f a s).1)
    → (r : Result A × S) → Q r.1
    → P (on_ok r f).1
on_ok-ensures Q P f weak k (ok a, t) q = k a t q
on_ok-ensures Q P f weak k (err e, t) q = weak t q
