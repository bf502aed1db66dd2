-- ===== src/Conformance/Classes.antt =====
-- Which classes are advertised, and in which order.
use fastgeoapi.Base.{
  String, ◌≡◌, ◌↔◌, ◌⊎◌, inl, inr, refl, Bool, true, false, some, List, [], ◌∷◌, ◌++◌, ok, arith,
  >>=-eq-ok,
}
use fastgeoapi.Base.Dict
use fastgeoapi.Base.Dict.{Dict}
use fastgeoapi.Base.Errors.{◌>>=◌}
use fastgeoapi.Json.{Value, Fields}
use fastgeoapi.Text.Order.{
  IsIn, Ascends, sorted_set, IsIn-sorted_set, sorted_set-Ascends, Ascends-unique, IsIn-append,
}
use fastgeoapi.Conformance.{
  ApiModule, Pygeoapi, all_classes, item, module_classes, pubsub_classes, build_conformance_list,
}
use fastgeoapi.Conformance.Resources.{IsResource, Brings, all_classes_sound, all_classes_complete}

-- The class is of the module that is looked up under the key.
abbrev pub OfModule : Pygeoapi → ApiModule → String → String → Type 0
OfModule pygeoapi itemtypes key z =
    (classes : List String) × (module_classes pygeoapi.all_apis itemtypes key ≡ ok classes)
    × IsIn z classes

-- Why a class is advertised: pygeoapi always has it, a configured resource brings it, or PubSub does.
abbrev pub IsAdvertised : Pygeoapi → ApiModule → Fields → Bool → String → Type 0
IsAdvertised pygeoapi itemtypes resources has_pubsub z =
    IsIn z pygeoapi.conformance_classes
    ⊎ ((name : String) × (config : Value) × IsResource name config resources
        × Brings pygeoapi.all_apis itemtypes z name config)
    ⊎ ((has_pubsub ≡ true) × OfModule pygeoapi itemtypes "pubsub" z)

module _ (pygeoapi : Pygeoapi) (itemtypes : ApiModule) (z : String) where
  pubsub_iff :
      (has_pubsub : Bool) (pubsub : List String)
      → pubsub_classes pygeoapi.all_apis itemtypes has_pubsub ≡ ok pubsub
      → IsIn z pubsub ↔ ((has_pubsub ≡ true) × OfModule pygeoapi itemtypes "pubsub" z)
  unfolding pubsub_classes
  pubsub_iff true pubsub h = (
    λ z_in. (refl, (pubsub, h, z_in)),
    λ (yes_pubsub, (classes, found, z_in)). let same : classes ≡ pubsub = cc in rw (← same) z_in,
  )
  pubsub_iff false [] h = (λ z_in. elim z_in [ ], λ (no_pubsub, found). cc)
  pubsub_iff false (c ∷ cs) h = absurd (ground arith)

  advertised :
      (resources : Fields) (has_pubsub : Bool) (classes pubsub : List String)
      → all_classes pygeoapi.all_apis itemtypes resources ≡ ok classes
      → pubsub_classes pygeoapi.all_apis itemtypes has_pubsub ≡ ok pubsub
      → IsIn z (sorted_set (pygeoapi.conformance_classes ++ (classes ++ pubsub)))
        ↔ IsAdvertised pygeoapi itemtypes resources has_pubsub z
  advertised resources has_pubsub classes pubsub h k =
      let base = pygeoapi.conformance_classes in
      let sorted = IsIn-sorted_set z (base ++ (classes ++ pubsub)) in
      let outer = IsIn-append z base (classes ++ pubsub) in
      let inner = IsIn-append z classes pubsub in
      let last = pubsub_iff has_pubsub pubsub k in
      (
        λ z_in. elim (outer.0 (sorted.0 z_in)) [
          | inl b ↦ inl b
          | inr r ↦ elim (inner.0 r) [
            | inl c ↦
                inr (inl (all_classes_sound pygeoapi.all_apis itemtypes z resources classes h c))
            | inr p ↦ inr (inr (last.0 p))
          ]
        ],
        λ why. sorted.1 (
            outer.1 (elim why [
              | inl b ↦ inl b
              | inr r ↦ elim r [
                | inl (name, config, there, brings) ↦ inr (
                    inner.1 (
                      inl (
                        all_classes_complete pygeoapi.all_apis itemtypes z resources classes name
                          config h there brings)))
                | inr p ↦ inr (inner.1 (inr (last.1 p)))
              ]
            ])),
      )

moved :
    (pygeoapi : Pygeoapi) (itemtypes : ApiModule) (resources resources' : Fields)
    (has_pubsub : Bool) (z : String)
    → ((name : String) (config : Value)
        → IsResource name config resources
        → IsResource name config resources')
    → IsAdvertised pygeoapi itemtypes resources has_pubsub z
    → IsAdvertised pygeoapi itemtypes resources' has_pubsub z
moved pygeoapi itemtypes resources resources' has_pubsub z same (inl b) = inl b
moved pygeoapi itemtypes resources resources' has_pubsub z same
      (inr (inl (name, config, there, brings))) =
    inr (inl (name, config, same name config there, brings))
moved pygeoapi itemtypes resources resources' has_pubsub z same (inr (inr p)) = inr (inr p)

build_parts :
    (pygeoapi : Pygeoapi) (resources : Fields) (has_pubsub : Bool) (result : List String)
    → build_conformance_list pygeoapi resources has_pubsub ≡ ok result
    → (itemtypes : ApiModule) × (item (Dict.get "itemtypes" pygeoapi.all_apis) ≡ ok itemtypes)
      × (classes : List String) × (all_classes pygeoapi.all_apis itemtypes resources ≡ ok classes)
      × (pubsub : List String) × (pubsub_classes pygeoapi.all_apis itemtypes has_pubsub ≡ ok pubsub)
      × (sorted_set (pygeoapi.conformance_classes ++ (classes ++ pubsub)) ≡ result)
unfolding build_conformance_list
build_parts pygeoapi resources has_pubsub result h =
    let base = pygeoapi.conformance_classes in
    let apis = pygeoapi.all_apis in
    let (itemtypes, found, rest) =
      >>=-eq-ok (item (Dict.get "itemtypes" apis))
        (λ itemtypes. all_classes apis itemtypes resources >>= λ classes.
          pubsub_classes apis itemtypes has_pubsub >>= λ pubsub.
          ok (sorted_set (base ++ (classes ++ pubsub))))
        h in
    let (classes, all, rest') =
      >>=-eq-ok (all_classes apis itemtypes resources)
        (λ classes. pubsub_classes apis itemtypes has_pubsub >>= λ pubsub.
          ok (sorted_set (base ++ (classes ++ pubsub))))
        rest in
    let (pubsub, more, last) =
      >>=-eq-ok (pubsub_classes apis itemtypes has_pubsub)
        (λ pubsub. ok (sorted_set (base ++ (classes ++ pubsub)))) rest' in
    (itemtypes, found, classes, all, pubsub, more, ground arith)

-- The advertised classes ascend, so that none is there twice, and they are exactly those that
-- pygeoapi always has, that a configured resource brings, or that PubSub brings where it is
-- configured.
pub build_conformance_list_iff :
    (pygeoapi : Pygeoapi) (resources : Fields) (has_pubsub : Bool) (result : List String)
    → build_conformance_list pygeoapi resources has_pubsub ≡ ok result
    → Ascends result
      × (itemtypes : ApiModule) × (Dict.get "itemtypes" pygeoapi.all_apis ≡ some itemtypes)
      × ((z : String) → IsIn z result ↔ IsAdvertised pygeoapi itemtypes resources has_pubsub z)
unfolding item
build_conformance_list_iff pygeoapi resources has_pubsub result h =
    let (itemtypes, found, classes, all, pubsub, more, e) =
      build_parts pygeoapi resources has_pubsub result h in
    (
      rw (← e) (sorted_set-Ascends (pygeoapi.conformance_classes ++ (classes ++ pubsub))),
      itemtypes,
      ground arith,
      λ z. rw (← e) (advertised pygeoapi itemtypes z resources has_pubsub classes pubsub all more),
    )

-- Two configurations that have the same resources, in whatever order and however often, are
-- answered by the same list.
pub build_conformance_list-same :
    (pygeoapi : Pygeoapi) (resources resources' : Fields) (has_pubsub : Bool)
    (result result' : List String)
    → ((name : String) (config : Value)
        → IsResource name config resources ↔ IsResource name config resources')
    → build_conformance_list pygeoapi resources has_pubsub ≡ ok result
    → build_conformance_list pygeoapi resources' has_pubsub ≡ ok result'
    → result ≡ result'
build_conformance_list-same pygeoapi resources resources' has_pubsub result result' same h k =
    let (ascends, itemtypes, found, why) =
      build_conformance_list_iff pygeoapi resources has_pubsub result h in
    let (ascends', itemtypes', found', why') =
      build_conformance_list_iff pygeoapi resources' has_pubsub result' k in
    let e : itemtypes' ≡ itemtypes = cc in
    Ascends-unique result result' ascends ascends' (λ z. (
      λ z_in. (why' z).1 (
          rw e (
            moved pygeoapi itemtypes resources resources' has_pubsub z (λ n c. (same n c).0)
              ((why z).0 z_in))),
      λ z_in. (why z).1 (
          moved pygeoapi itemtypes resources' resources has_pubsub z (λ n c. (same n c).1)
            (rw (← e) ((why' z).0 z_in))),
    ))
