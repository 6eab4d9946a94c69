-- ===== src/Exec.antt =====
-- Code that changes a state and may fail. What was written before an error stays written, so the
-- state comes back beside the error too.
pub mod Keeps
use denizen.Prelude.{◌≡◌, refl}
use denizen.Model.{Error}
use denizen.Result.{Result, ok, err}

abbrev pub Exec {ℓ} : Type ℓ → Type ℓ → Type ℓ
Exec S A = S → Result A × S

module _ {ℓ} {S A : Type ℓ} where
  abbrev pub pure : A → Exec S A
  pure a s = (ok a, s)

  abbrev pub raise : Error → Exec S A
  raise e s = (err e, s)

  -- A step that reads the state and writes nothing.
  abbrev pub read : (S → Result A) → Exec S A
  read f s = (f s, s)

  -- `if err := m(); err != nil { undo(); return err }`: the error of `undo` is dropped.
  abbrev pub undo_with : Result A × S → (S → S) → Result A × S
  undo_with (ok a, s) undo = (ok a, s)
  undo_with (err e, s) undo = (err e, undo s)

  infixl 6 ◌on_error◌
  abbrev pub ◌on_error◌ : Exec S A → (S → S) → Exec S A
  ◌on_error◌ m undo s = undo_with (m s) undo

-- Goes on with the rest if the step before succeeded.
abbrev pub on_ok {ℓ} : {S A B : Type ℓ} → Result A × S → (A → Exec S B) → Result B × S
on_ok (ok a, s) f = f a s
on_ok (err e, s) f = (err e, s)

infixl 5 ◌>>=◌ ◌>>◌
abbrev pub ◌>>=◌ {ℓ} : {S A B : Type ℓ} → Exec S A → (A → Exec S B) → Exec S B
◌>>=◌ m f s = on_ok (m s) f

abbrev pub ◌>>◌ {ℓ} : {S B : Type ℓ} → Exec S (Unit {ℓ}) → Exec S B → Exec S B
m >> k = m >>= λ _. k

-- What ran before a success has succeeded.
pub on_ok-eq-ok :
    {S A B : Type 0} (r : Result A × S) (f : A → Exec S B) (b : B) (s' : S)
    → on_ok r f ≡ (ok b, s')
    → (a : A) × (mid : S) × (r ≡ (ok a, mid)) × (f a mid ≡ (ok b, s'))
on_ok-eq-ok (ok a, mid) f b s' h = (a, mid, refl, h)
on_ok-eq-ok (err e, mid) f b s' h = cc
