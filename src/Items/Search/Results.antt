-- ===== src/Items/Search/Results.antt =====
-- The list of results that Search builds: at most fifty items, none twice.
use denizen.Prelude.{
  ◌≤◌, ◌≡◌, refl, arith, Bool, false, ◌||◌, List, [], ◌∷◌, ◌++◌, text_eq, All, All-append, any,
  length, length-append, Bool-cases, inl, inr,
}
use denizen.Model.{Item}
use denizen.Repo.Items.{has_id}
use denizen.Items.Search.{is_full, add, add_all}

-- No two items of the list have one id.
abbrev pub Distinct : List Item → Type 0
Distinct [] = Unit
Distinct (x ∷ xs) = (any (has_id x.id) xs ≡ false) × Distinct xs

pub record IsGood (P : Item → Type 0) (results : List Item) : Type 0 where
  pub bounded : length results ≤ 50
  pub distinct : Distinct results
  pub all : All P results

any-append :
    {A : Type 0} (p : A → Bool) (xs ys : List A) → any p (xs ++ ys) ≡ (any p xs || any p ys)
any-append p [] ys = refl
any-append p (x ∷ xs) ys = ground (arith, any-append p xs ys)

Distinct-append :
    (xs : List Item) (y : Item)
    → Distinct xs
    → any (has_id y.id) xs ≡ false
    → Distinct (xs ++ (y ∷ []))
Distinct-append [] y h k = (refl, tt)
Distinct-append (x ∷ xs) y h k = (
  rw (any-append (has_id x.id) xs (y ∷ [])) (ground (arith, h)),
  Distinct-append xs y h.1 (ground arith),
)

room :
    (results : List Item) (item : Item)
    → is_full results ≡ false
    → length (results ++ (item ∷ [])) ≤ 50
room results item h = rw (length-append results (item ∷ [])) (ground arith)

pub add-IsGood :
    (P : Item → Type 0) (results : List Item) (item : Item)
    → IsGood P results
    → P item
    → IsGood P (add results item)
unfolding add
add-IsGood P results item good holds =
    elim (Bool-cases (any (has_id item.id) results || is_full results)) [
      | inl skip ↦ rw skip good
      | inr fresh ↦ rw fresh (record {
        bounded = room results item (ground arith);
        distinct = Distinct-append results item good.distinct (ground arith);
        all = All-append P results (item ∷ []) good.all (holds, tt);
      })
    ]

pub add_all-IsGood :
    (P : Item → Type 0) (items results : List Item)
    → IsGood P results
    → All P items
    → IsGood P (add_all results items)
unfolding add_all
add_all-IsGood P [] results good h = good
add_all-IsGood P (item ∷ items) results good h =
    add_all-IsGood P items (add results item) (add-IsGood P results item good h.0) h.1
