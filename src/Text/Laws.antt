-- ===== src/Text/Laws.antt =====
-- Laws of the methods of `str`.
use Prim.Native.String.{[], ◌∷◌}
use text.Mathlib.TextLemmas.{cons-append}
use fastgeoapi.Base.{String, ◌<>◌, ◌≡◌, refl, true, arith}
use fastgeoapi.Text.{starts_with}

pub starts_with_nil : (s : String) → starts_with s "" ≡ true
unfolding starts_with
starts_with_nil s = refl

-- A text starts with each of its beginnings.
pub starts_with-append : (s t : String) → starts_with (s <> t) s ≡ true
unfolding starts_with
starts_with-append [] t = refl
starts_with-append (c ∷ s) t = rw cons-append (ground (arith, starts_with-append s t))
