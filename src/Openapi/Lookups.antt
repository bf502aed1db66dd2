-- ===== src/Openapi/Lookups.antt =====
-- What the document says of the paths and of the schemes.
use fastgeoapi.Base.{
  String, ◌≡◌, refl, true, false, Option, none, some, List, [], ◌∷◌, ◌++◌, ok, arith, eq_iff,
  eq_refl, >>=-eq-ok,
}
use fastgeoapi.Base.Dict
use fastgeoapi.Base.Dict.{Dict}
use fastgeoapi.Json
use fastgeoapi.Json.{Value, Fields, field, end}
use fastgeoapi.App.Modes.{SecurityScheme}
use fastgeoapi.Openapi.{
  Operation, PathItem, OpenApi, contains, secure, secure_options, secure_item, secured_paths,
  augment_paths, on_some, or_paths, augment_components, dumped_schemes, augment_content,
}

-- The operation is there after as before, with the scheme as its one requirement.
abbrev pub Demands : String → Option Operation → Option Operation → Type 0
Demands key none after = after ≡ none
Demands key (some before) after =
    (operation : Operation) × (after ≡ some operation)
    × (operation.security ≡ some (key ∷ []))
    × (operation.rest ≡ before.rest)

-- The path has the scheme at its four operations, and is the same elsewhere.
pub record IsSecured (key : String) (before after : PathItem) : Type 0 where
  pub at_get : Demands key before.get_operation after.get_operation
  pub at_post : Demands key before.post_operation after.post_operation
  pub at_options : Demands key before.options_operation after.options_operation
  pub at_delete : Demands key before.delete_operation after.delete_operation
  pub elsewhere : after.other_operations ≡ before.other_operations

on_some-secure :
    (key : String) (before : Option Operation) → Demands key before (on_some (secure key) before)
unfolding secure on_some
on_some-secure key none = refl
on_some-secure key (some operation) = (secure key operation, refl, refl, refl)

on_some-secure_options :
    (key : String) (before : Option Operation)
    → Demands key before (on_some (secure_options key) before)
unfolding secure_options on_some
on_some-secure_options key none = refl
on_some-secure_options key (some operation) = (secure_options key operation, refl, refl, refl)

secure_item-IsSecured : (key : String) (item : PathItem) → IsSecured key item (secure_item key item)
unfolding secure_item
secure_item-IsSecured key item = record {
  at_get = on_some-secure key item.get_operation;
  at_post = on_some-secure key item.post_operation;
  at_options = on_some-secure_options key item.options_operation;
  at_delete = on_some-secure key item.delete_operation;
  elsewhere = refl;
}

get-secured_paths :
    (key path : String) (paths : Dict PathItem) (item : PathItem)
    → Dict.get path paths ≡ some item
    → contains "openapi" path ≡ false
    → Dict.get path (secured_paths key paths) ≡ some (secure_item key item)
unfolding Dict.get secured_paths
get-secured_paths key path [] item h plain = absurd (ground arith)
get-secured_paths key path ((p, i) ∷ paths) item h plain =
    ground (arith, eq_iff p path, get-secured_paths key path paths item)

none-secured_paths :
    (key path : String) (paths : Dict PathItem)
    → contains "openapi" path ≡ true
    → Dict.get path (secured_paths key paths) ≡ none
unfolding Dict.get secured_paths
none-secured_paths key path [] hidden = refl
none-secured_paths key path ((p, i) ∷ paths) hidden =
    ground (arith, eq_iff p path, none-secured_paths key path paths hidden)

or_paths-get :
    (paths : Option (Dict PathItem)) (path : String) (secured : Dict PathItem) (item : PathItem)
    → Dict.get path secured ≡ some item
    → or_paths paths secured ≡ some secured
unfolding or_paths Dict.get
or_paths-get paths path [] item h = absurd (ground arith)
or_paths-get paths path (p ∷ secured) item h = refl

module _ (model_dump : SecurityScheme → Value) (key : String) (schemes : List SecurityScheme)
    (openapi content : OpenApi) where
  content_paths :
      augment_content model_dump key schemes openapi ≡ ok content
      → content.paths ≡ augment_paths key openapi.paths
  unfolding augment_content
  content_paths h =
      let (fixed, done, last) =
        >>=-eq-ok (augment_components model_dump key schemes openapi.components)
          (λ fixed.
            ok
              (record openapi { components = some fixed; paths = augment_paths key openapi.paths }))
          h in
      ground arith

  paths_secured :
      (paths : Dict PathItem) (path : String) (item : PathItem)
      → augment_content model_dump key schemes openapi ≡ ok content
      → openapi.paths ≡ some paths
      → Dict.get path (secured_paths key paths) ≡ some item
      → content.paths ≡ some (secured_paths key paths)
  unfolding augment_paths
  paths_secured paths path item h p e =
      rw (content_paths h, p) (or_paths-get (some paths) path (secured_paths key paths) item e)

-- In the augmented document every path whose key does not contain "openapi" has the scheme as the
-- one requirement of its get, post, options and delete operations, and its other operations are
-- as they were.
pub augment_content-IsSecured :
    (model_dump : SecurityScheme → Value) (key : String) (schemes : List SecurityScheme)
    (openapi content : OpenApi) (paths : Dict PathItem) (path : String) (item : PathItem)
    → augment_content model_dump key schemes openapi ≡ ok content
    → openapi.paths ≡ some paths
    → Dict.get path paths ≡ some item
    → contains "openapi" path ≡ false
    → (secured : Dict PathItem) × (after : PathItem) × (content.paths ≡ some secured)
      × (Dict.get path secured ≡ some after)
      × IsSecured key item after
unfolding augment_paths
augment_content-IsSecured model_dump key schemes openapi content paths path item h p there plain =
    let e = get-secured_paths key path paths item there plain in
    (
      secured_paths key paths,
      secure_item key item,
      paths_secured model_dump key schemes openapi content paths path (secure_item key item) h p e,
      e,
      secure_item-IsSecured key item,
    )

-- Where one path is secured, a path whose key contains "openapi" is no longer in the document.
pub augment_content_drops :
    (model_dump : SecurityScheme → Value) (key : String) (schemes : List SecurityScheme)
    (openapi content : OpenApi) (paths : Dict PathItem) (path other : String) (item : PathItem)
    → augment_content model_dump key schemes openapi ≡ ok content
    → openapi.paths ≡ some paths
    → Dict.get path paths ≡ some item
    → contains "openapi" path ≡ false
    → contains "openapi" other ≡ true
    → (secured : Dict PathItem) × (content.paths ≡ some secured) × (Dict.get other secured ≡ none)
unfolding augment_paths
augment_content_drops model_dump key schemes openapi content paths path other item h p there plain
      hidden =
    let e = get-secured_paths key path paths item there plain in
    (
      secured_paths key paths,
      paths_secured model_dump key schemes openapi content paths path (secure_item key item) h p e,
      none-secured_paths key other paths hidden,
    )

dumped_again :
    (model_dump : SecurityScheme → Value) (key : String) (schemes : List SecurityScheme)
    (scheme : SecurityScheme) (v : Value)
    → dumped_schemes model_dump key (schemes ++ scheme ∷ []) (field key v end)
      ≡ field key (model_dump scheme) end
unfolding dumped_schemes Json.put
dumped_again model_dump key [] scheme v = rw (eq_refl key) refl
dumped_again model_dump key (s ∷ schemes) scheme v =
    rw (dumped_schemes, eq_refl key) (dumped_again model_dump key schemes scheme (model_dump s))

-- Of several schemes the document has the last one only, since all of them go under one key.
pub dumped_schemes_last :
    (model_dump : SecurityScheme → Value) (key : String) (schemes : List SecurityScheme)
    (scheme : SecurityScheme)
    → dumped_schemes model_dump key (schemes ++ scheme ∷ []) end ≡ field key (model_dump scheme) end
unfolding dumped_schemes Json.put
dumped_schemes_last model_dump key [] scheme = refl
dumped_schemes_last model_dump key (s ∷ schemes) scheme =
    dumped_again model_dump key schemes scheme (model_dump s)
