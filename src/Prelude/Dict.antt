-- ===== src/Prelude/Dict.antt =====
-- Python's `dict` with text keys, as an association list in the order of insertion.
use mathlib.Core.List.{List, [], ◌∷◌}
use mathlib.Core.Path.{◌≡◌, refl}
use mathlib.Core.Option.{Option, none, some}
use Prim.Native.String.{String}
use native.Mathlib.Omega.{arith}
use text.Mathlib.Text.{◌==◌ as str_eq}
use text.Mathlib.TextEquality.{eq_iff}
use evalstack.Prelude.Tests.{if◌then◌else◌}
use evalstack.Prelude.Sort.{str_leb, str_leb_refl, insert_sorted, sort}

abbrev pub Dict {ℓ} : Type ℓ → Type ℓ
Dict V = List (String × V)

abbrev pub or_default {ℓ} : {V : Type ℓ} → V → Option V → V
or_default d none = d
or_default d (some v) = v

module _ {ℓ} {V : Type ℓ} where
  -- `d.get(key)`
  unfoldable pub get : String → Dict V → Option V
  get key [] = none
  get key ((k, v) ∷ rest) = if str_eq k key then some v else get key rest

  -- `d[key] = f(d.get(key, default))`
  unfoldable pub update : String → V → (V → V) → Dict V → Dict V
  update key d f [] = (key, f d) ∷ []
  update key d f ((k, v) ∷ rest) =
      if str_eq k key then (k, f v) ∷ rest else (k, v) ∷ update key d f rest

  -- `dict(sorted(d.items()))`, where the keys differ
  unfoldable pub sort_keys : Dict V → Dict V
  sort_keys = sort (λ a b. str_leb a.0 b.0)

  pub get-update :
      (key : String) (d : V) (f : V → V) (j : String) (m : Dict V)
      → get j (update key d f m)
        ≡ (if str_eq key j then some (f (or_default d (get key m))) else get j m)
  unfolding get update
  get-update key d f j [] = ground arith
  get-update key d f j ((k, v) ∷ rest) =
      ground (arith, get-update key d f j rest, eq_iff k key, eq_iff k j, eq_iff key j, eq_iff k k)

  get-insert_sorted :
      (key : String) (v : V) (j : String) (m : Dict V)
      → get j (insert_sorted (λ a b. str_leb a.0 b.0) (key, v) m)
        ≡ (if str_eq key j then some v else get j m)
  unfolding get insert_sorted
  get-insert_sorted key v j [] = refl
  get-insert_sorted key v j ((k, w) ∷ rest) = ground (
    arith,
    get-insert_sorted key v j rest,
    eq_iff k j,
    eq_iff key j,
    eq_iff k key,
    str_leb_refl key,
  )

  -- Sorting by key changes no entry.
  pub get-sort_keys : (j : String) (m : Dict V) → get j (sort_keys m) ≡ get j m
  unfolding get sort_keys sort
  get-sort_keys j [] = refl
  get-sort_keys j ((k, v) ∷ rest) =
      ground (arith, get-insert_sorted k v j (sort_keys rest), get-sort_keys j rest)
