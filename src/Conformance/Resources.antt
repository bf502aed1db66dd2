-- ===== src/Conformance/Resources.antt =====
-- Which classes the configured resources bring.
use fastgeoapi.Base.{String, ◌≡◌, ◌⊎◌, inl, inr, refl, List, [], ◌∷◌, ◌++◌, ok, arith, >>=-eq-ok}
use fastgeoapi.Base.Dict.{Dict}
use fastgeoapi.Base.Errors.{◌>>=◌}
use fastgeoapi.Json.{Value, Fields, field, end}
use fastgeoapi.Text.Order.{IsIn, IsIn-append}
use fastgeoapi.Conformance.{
  ApiModule, ResourceConfig, from_config_dict, resource_classes, all_classes,
}

-- The resource is configured under the name.
abbrev pub IsResource : String → Value → Fields → Type 0
IsResource name config end = ⊥
IsResource name config (field n c resources) =
    ((n ≡ name) × (c ≡ config)) ⊎ IsResource name config resources

module _ (apis : Dict ApiModule) (itemtypes : ApiModule) (z : String) where
  -- A resource of this configuration brings the class.
  abbrev pub Brings : String → Value → Type 0
  Brings name config =
      (resource : ResourceConfig) × (from_config_dict name config ≡ ok resource)
      × (classes : List String) × (resource_classes apis itemtypes resource ≡ ok classes)
      × IsIn z classes

  all_classes_parts :
      (name : String) (config : Value) (resources : Fields) (classes : List String)
      → all_classes apis itemtypes (field name config resources) ≡ ok classes
      → (resource : ResourceConfig) × (from_config_dict name config ≡ ok resource)
        × (own : List String) × (resource_classes apis itemtypes resource ≡ ok own)
        × (more : List String) × (all_classes apis itemtypes resources ≡ ok more)
        × (own ++ more ≡ classes)
  unfolding all_classes
  all_classes_parts name config resources classes h =
      let (resource, made, rest) =
        >>=-eq-ok (from_config_dict name config)
          (λ resource. resource_classes apis itemtypes resource >>= λ own.
            all_classes apis itemtypes resources >>= λ more. ok (own ++ more))
          h in
      let (own, found, rest') =
        >>=-eq-ok (resource_classes apis itemtypes resource)
          (λ own. all_classes apis itemtypes resources >>= λ more. ok (own ++ more)) rest in
      let (more, others, last) =
        >>=-eq-ok (all_classes apis itemtypes resources) (λ more. ok (own ++ more)) rest' in
      (resource, made, own, found, more, others, ground arith)

  pub all_classes_sound :
      (resources : Fields) (classes : List String)
      → all_classes apis itemtypes resources ≡ ok classes
      → IsIn z classes
      → (name : String) × (config : Value) × IsResource name config resources × Brings name config
  unfolding all_classes
  all_classes_sound end [] h z_in = elim z_in [ ]
  all_classes_sound end (c ∷ cs) h z_in = absurd (ground arith)
  all_classes_sound (field name config resources) classes h z_in =
      let (resource, made, own, found, more, others, e) =
        all_classes_parts name config resources classes h in
      elim ((IsIn-append z own more).0 (rw e z_in)) [
        | inl here ↦ (name, config, inl (refl, refl), (resource, made, own, found, here))
        | inr there ↦
            let (n, c, r, b) = all_classes_sound resources more others there in (n, c, inr r, b)
      ]

  pub all_classes_complete :
      (resources : Fields) (classes : List String) (name : String) (config : Value)
      → all_classes apis itemtypes resources ≡ ok classes
      → IsResource name config resources
      → Brings name config
      → IsIn z classes
  unfolding all_classes
  all_classes_complete end classes name config h r b = elim r [ ]
  all_classes_complete (field n c resources) classes name config h r b =
      let (resource, made, own, found, more, others, e) =
        all_classes_parts n c resources classes h in
      let (resource', made', own', found', here) = b in
      rw (← e) (
        (IsIn-append z own more).1 (elim r [
          | inl (same_name, same_config) ↦ let same : own' ≡ own = cc in inl (rw (← same) here)
          | inr later ↦ inr (all_classes_complete resources more name config others later b)
        ]))

module _ (apis : Dict ApiModule) (itemtypes : ApiModule) where
  -- Each resource can be read, and the classes that it brings can be looked up.
  abbrev pub AreReadable : Fields → Type 0
  AreReadable end = Unit
  AreReadable (field name config resources) =
      (resource : ResourceConfig) × (classes : List String) × (from_config_dict name config
        ≡ ok resource)
      × (resource_classes apis itemtypes resource ≡ ok classes)
      × AreReadable resources

  pub all_classes-ok :
      (resources : Fields)
      → AreReadable resources
      → (classes : List String) × (all_classes apis itemtypes resources ≡ ok classes)
  unfolding all_classes
  all_classes-ok end h = ([], refl)
  all_classes-ok (field name config resources) (resource, own, made, found, h) =
      let (more, others) = all_classes-ok resources h in
      (own ++ more, rw (made, found, others) refl)
