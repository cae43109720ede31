-- ===== src/Env/Disk/Path.antt =====
-- `Path` of pathlib, as env/workspace.py uses it.
use evalstack.Prelude.{
  ◌≡◌, refl, String, Bool, true, false, ◌&&◌, List, [], ◌∷◌, map, str_eq, eq_iff, arith,
}

abbrev pub FilePath : Type 0
FilePath = List String

-- `Path.parents`: the proper beginnings of a path.
unfoldable pub parents : FilePath → List FilePath
parents [] = []
parents (part ∷ rest) = [] ∷ map (λ p. part ∷ p) (parents rest)

-- `Path.parent`
unfoldable pub parent : FilePath → FilePath
parent [] = []
parent (part ∷ []) = []
parent (part ∷ p ∷ rest) = part ∷ parent (p ∷ rest)

unfoldable pub path_eq : FilePath → FilePath → Bool
path_eq [] [] = true
path_eq (x ∷ xs) (y ∷ ys) = str_eq x y && path_eq xs ys
path_eq _ _ = false

pub path_eq_sound : (xs ys : FilePath) → path_eq xs ys ≡ true → xs ≡ ys
unfolding path_eq
path_eq_sound [] [] h = refl
path_eq_sound [] (y ∷ ys) h = absurd (ground arith)
path_eq_sound (x ∷ xs) [] h = absurd (ground arith)
path_eq_sound (x ∷ xs) (y ∷ ys) h = ground (arith, eq_iff x y, path_eq_sound xs ys)

pub path_eq_refl : (xs : FilePath) → path_eq xs xs ≡ true
unfolding path_eq
path_eq_refl [] = refl
path_eq_refl (x ∷ xs) = ground (arith, eq_iff x x, path_eq_refl xs)
