-- ===== src/Storage/Laws.antt =====
-- Laws of paths: a safe name is one more segment, and a path that is built of safe names stays below
-- its start.
use denizen.Prelude.{◌≡◌, refl, ap, ◌∙◌, ◌≢◌, false, [], ◌∷◌, ◌++◌, arith, Text, text, text_eq}
use denizen.Text.{contains_any, split_slash}
use mathlib.Core.List.{foldl}
use denizen.Text.Laws.{split_slash_of_no_slash, split_slash-append}
use denizen.Storage.{FilePath, dir, enter, join, user_files_root}

-- One path segment: not empty, not "." or "..", and with no slash.
pub record IsSafe (s : Text) : Type 0 where
  pub nonempty : s ≢ []
  pub not_dot : s ≢ text "."
  pub not_dots : s ≢ text ".."
  pub no_slash : contains_any s (b'/' ∷ []) ≡ false

-- A safe name is one more segment.
pub join-IsSafe : (p : FilePath) (s : Text) → IsSafe s → join p s ≡ p ++ s ∷ []
unfolding join
join-IsSafe p s h =
    rw (split_slash_of_no_slash s h.no_slash) (ground (arith, h.nonempty, h.not_dot, h.not_dots))

dir-append : (p : FilePath) (s : Text) → dir (p ++ s ∷ []) ≡ p
unfolding dir
dir-append [] s = refl
dir-append (t ∷ []) s = refl
dir-append (t ∷ u ∷ p) s = ap (λ (q : FilePath). t ∷ q) (dir-append (u ∷ p) s)

enter-IsSafe : (p : FilePath) (s : Text) → IsSafe s → enter p s ≡ p ++ s ∷ []
unfolding enter
enter-IsSafe p s h = ground (arith, h.nonempty, h.not_dot, h.not_dots)

enter-dots : (p : FilePath) → enter p (text "..") ≡ dir p
unfolding enter
enter-dots p = ground arith

-- A safe name, and a step back: the path is that of the rest.
pub join-step_back :
    (p : FilePath) (x u : Text) → IsSafe x → join p (x ++ (text "/../" ++ u)) ≡ join p u
unfolding join
join-step_back p x u h =
    let parts : split_slash (x ++ (text "/../" ++ u)) ≡ x ∷ text ".." ∷ split_slash u =
      split_slash-append x (text "../" ++ u) h.no_slash
      ∙ ap (λ (q : FilePath). x ∷ q)
          (split_slash-append (text "..") u (unfold contains_any in refl)) in
    let back : enter (enter p x) (text "..") ≡ p =
      ap (λ (q : FilePath). enter q (text "..")) (enter-IsSafe p x h)
      ∙ enter-dots (p ++ x ∷ [])
      ∙ dir-append p x in
    ap (foldl enter p) parts ∙ ap (λ (q : FilePath). foldl enter q (split_slash u)) back

-- A username that is a safe name, a step back, and another username has the files root of that other
-- one.
pub user_files_root-step_back :
    (data_dir : FilePath) (x username : Text)
    → IsSafe x
    → user_files_root data_dir (x ++ (text "/../" ++ username)) ≡ user_files_root data_dir username
unfolding user_files_root
user_files_root-step_back data_dir x username h =
    ap (λ (p : FilePath). join p (text "files"))
      (join-step_back (join data_dir (text "users")) x username h)
