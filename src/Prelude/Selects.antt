-- ===== src/Prelude/Selects.antt =====
-- Selections from a list, one after the other, and what is still found in them.
use mathlib.Core.Path.{◌≡◌, refl}
use mathlib.Core.Logic.{inl, inr}
use mathlib.Core.Bool.{Bool, true, ◌&&◌}
use mathlib.Core.List.{List, [], ◌∷◌}
use native.Mathlib.Omega.{arith}
use denizen.Prelude.Tests.{Bool-cases}
use denizen.Prelude.Lists.{select, any}

module _ {ℓ} {A : Type ℓ} where
  pub select-select :
      (p q : A → Bool) (xs : List A) → select p (select q xs) ≡ select (λ x. q x && p x) xs
  select-select p q [] = refl
  select-select p q (x ∷ xs) = ground (arith, select-select p q xs)

  pub select_same :
      (p q : A → Bool) (xs : List A) → ((x : A) → p x ≡ q x) → select p xs ≡ select q xs
  select_same p q [] h = refl
  select_same p q (x ∷ xs) h = rw (h x, select_same p q xs h) refl

  pub select_all : (p : A → Bool) (xs : List A) → ((x : A) → p x ≡ true) → select p xs ≡ xs
  select_all p [] h = refl
  select_all p (x ∷ xs) h = rw (h x, select_all p xs h) refl

  -- What is found is found among what passes a test that it passes.
  pub any-select :
      (p q : A → Bool) (xs : List A)
      → ((x : A) → p x ≡ true → q x ≡ true)
      → any p xs ≡ true
      → any p (select q xs) ≡ true
  any-select p q [] h e = e
  any-select p q (x ∷ xs) h e = elim (Bool-cases (p x)) [
    | inl here ↦ rw (h x here, here) refl
    | inr there ↦
        let later = any-select p q xs h (rw there at e) in
        elim (Bool-cases (q x)) [ inl kept ↦ rw (kept, there) later | inr gone ↦ rw gone later ]
  ]
