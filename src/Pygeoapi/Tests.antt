-- ===== src/Pygeoapi/Tests.antt =====
-- Modules of which one has the wrapper already.
use fastgeoapi.Base.{String, ◌≡◌, refl, inl, inr, some, [], ◌∷◌, ok}
use fastgeoapi.Base.Dict as Dict
use fastgeoapi.Base.Dict.{Dict}
use fastgeoapi.Pygeoapi.{Binding, upstream, wrapper, foreign, patch_validate_datetime_overflow}
use fastgeoapi.Pygeoapi.Patches.{IsConsumer, IsPatched, patch_validate_datetime_overflow-IsPatched}

abbrev bindings : Dict Binding
bindings =
    ("pygeoapi.api", wrapper)
    ∷ ("pygeoapi.api.itemtypes", upstream)
    ∷ ("pygeoapi.api.maps", foreign "f")
    ∷ ("pygeoapi.api.environmental_data_retrieval", upstream)
    ∷ ("other", foreign "f")
    ∷ []

bound : (name : String) → IsConsumer name → (b : Binding) × (Dict.get name bindings ≡ some b)
unfolding Dict.get
bound name (inl e) = (wrapper, rw e refl)
bound name (inr (inl e)) = (upstream, rw e refl)
bound name (inr (inr (inl e))) = (foreign "f", rw e refl)
bound name (inr (inr (inr e))) = (upstream, rw e refl)

patch_validate_datetime_overflow-IsPatched_example :
    (after : Dict Binding) × (patch_validate_datetime_overflow bindings ≡ ok after)
    × ((name : String) → IsPatched bindings after name)
    × (patch_validate_datetime_overflow after ≡ ok after)
patch_validate_datetime_overflow-IsPatched_example =
    patch_validate_datetime_overflow-IsPatched bindings bound
