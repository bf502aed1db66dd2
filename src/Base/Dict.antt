-- ===== src/Base/Dict.antt =====
-- Python's `dict` with string keys, as an association list in insertion order: a key that is set
-- again keeps its place, as in Python.
use Prim.Native.String.{String}
use mathlib.Core.Path.{◌≡◌, refl, ◌∙◌}
use mathlib.Core.Logic.{inl, inr}
use mathlib.Core.Bool.{Bool, true, false, ◌||◌}
use mathlib.Core.Option.{Option, none, some}
use mathlib.Core.List.{List, [], ◌∷◌}
use native.Mathlib.Omega.{arith}
use text.Mathlib.Text.{◌==◌}
use text.Mathlib.TextEquality.{eq_iff}
use text.Mathlib.TextPositions.{eq_refl}
use fastgeoapi.Base.Tests.{if◌then◌else◌, All, Bool-cases}

abbrev pub Dict {ℓ} : Type ℓ → Type ℓ
Dict V = List (String × V)

module _ {ℓ} {V : Type ℓ} where
  -- d.get(k)
  unfoldable pub get : String → Dict V → Option V
  get k [] = none
  get k ((j, v) ∷ d) = if j == k then some v else get k d

  -- d[k] = v
  unfoldable pub put : String → V → Dict V → Dict V
  put k v [] = (k, v) ∷ []
  put k v ((j, w) ∷ d) = if j == k then (j, v) ∷ d else (j, w) ∷ put k v d

  pub get-put :
      (k j : String) (v : V) (d : Dict V) → get j (put k v d) ≡ (if k == j then some v else get j d)
  unfolding get put
  get-put k j v [] = refl
  get-put k j v ((i, w) ∷ d) = ground (arith, eq_iff k j, eq_iff i k, eq_iff i j, get-put k j v d)

  pub get-put_self : (k : String) (v : V) (d : Dict V) → get k (put k v d) ≡ some v
  get-put_self k v d = simp (get-put, eq_refl)

-- k in ks
abbrev pub is_listed : String → List String → Bool
is_listed k [] = false
is_listed k (j ∷ js) = j == k || is_listed k js

module _ {ℓ} {V : Type ℓ} where
  -- A key that has the value already is set to it without effect.
  pub put-get : (k : String) (v : V) (d : Dict V) → get k d ≡ some v → put k v d ≡ d
  unfolding get put
  put-get k v [] h = cc
  put-get k v ((j, w) ∷ d) h = elim (Bool-cases (j == k)) [
    | inl same ↦ ground (arith, same)
    | inr other ↦ ground (arith, other, put-get k v d)
  ]

  -- The same value under each of the keys.
  unfoldable pub put_all : List String → V → Dict V → Dict V
  put_all [] v d = d
  put_all (k ∷ ks) v d = put_all ks v (put k v d)

  pub put_all-get :
      (ks : List String) (j : String) (v : V) (d : Dict V)
      → get j (put_all ks v d) ≡ (if is_listed j ks then some v else get j d)
  unfolding put_all
  put_all-get [] j v d = refl
  put_all-get (k ∷ ks) j v d = ground (arith, put_all-get ks j v (put k v d), get-put k j v d)

  put_all-bound :
      (ks : List String) (v : V) (d : Dict V) → All (λ k. get k d ≡ some v) ks → put_all ks v d ≡ d
  unfolding put_all
  put_all-bound [] v d h = refl
  put_all-bound (k ∷ ks) v d (there, h) = rw (put-get k v d there) (put_all-bound ks v d h)

  put_all-All :
      (ks all : List String) (v : V) (d : Dict V)
      → All (λ k. is_listed k all ≡ true) ks
      → All (λ k. get k (put_all all v d) ≡ some v) ks
  put_all-All [] all v d h = tt
  put_all-All (k ∷ ks) all v d (i, h) =
      (put_all-get all k v d ∙ rw i refl, put_all-All ks all v d h)

  -- Setting them again changes nothing.
  pub put_all_twice :
      (ks : List String) (v : V) (d : Dict V)
      → All (λ k. is_listed k ks ≡ true) ks
      → put_all ks v (put_all ks v d) ≡ put_all ks v d
  put_all_twice ks v d h = put_all-bound ks v (put_all ks v d) (put_all-All ks ks v d h)
