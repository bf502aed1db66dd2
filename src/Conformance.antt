-- ===== src/Conformance.antt =====
-- app/pygeoapi/api/conformance.py: the conformance classes that the server advertises. pygeoapi's
-- modules of classes are a parameter; a module that has no list of a name raises AttributeError.
pub mod Answers
pub mod Classes
pub mod Page
pub mod Resources
mod Tests
use fastgeoapi.Base.{
  String, Bool, true, false, Option, none, some, List, [], ◌∷◌, ◌++◌, Result, ok, err, key_error,
  type_error, attribute_error, ◌==◌, if◌then◌else◌,
}
use fastgeoapi.Base.Dict
use fastgeoapi.Base.Dict.{Dict}
use fastgeoapi.Base.Errors.{◌>>=◌}
use fastgeoapi.Json
use fastgeoapi.Json.{Value, null, bool, num, str, obj, arr, Fields, field, end, Items, cons, nil}
use fastgeoapi.Text.Order.{sorted_set}

-- GenericConformance and FeatureRecordConformance of app/interfaces/conformance.py: the lists that
-- a module of pygeoapi may have.
pub record ApiModule : Type 0 where
  pub conformance_classes : Option (List String)
  pub conformance_classes_features : Option (List String)
  pub conformance_classes_records : Option (List String)

-- CONFORMANCE_CLASSES and all_apis() of pygeoapi.api
pub record Pygeoapi : Type 0 where
  pub conformance_classes : List String
  pub all_apis : Dict ApiModule

pub record ResourceConfig : Type 0 where
  pub name : String
  pub resource_type : Value
  pub provider_types : List Value

-- d.get(k, default)
get_or : String → Value → Option Value → Value
get_or k default none = default
get_or k default (some v) = v

-- p.get("type", "")
unfoldable pub type_of : Value → Result Value
unfolding get_or
type_of (obj fs) = ok (get_or "type" (str "") (Json.get "type" fs))
type_of _ = err attribute_error

types_of : Items → Result (List Value)
unfolding type_of
types_of nil = ok []
types_of (cons p ps) = do type ← type_of p; types ← types_of ps; ok (type ∷ types)

-- The generator over the providers: a dict is iterated by its keys, which are texts without `get`.
unfoldable pub provider_types_of : Value → Result (List Value)
unfolding types_of
provider_types_of (arr ps) = types_of ps
provider_types_of (obj end) = ok []
provider_types_of (obj (field k v fs)) = err attribute_error
provider_types_of (str s) = if s == "" then ok [] else err attribute_error
provider_types_of _ = err type_error

unfoldable pub from_config_dict : String → Value → Result ResourceConfig
unfolding get_or provider_types_of
from_config_dict name (obj config) = do
  provider_types ← provider_types_of (get_or "providers" (arr nil) (Json.get "providers" config))
  ok (record {
    name = name;
    resource_type = get_or "type" (str "") (Json.get "type" config);
    provider_types = provider_types;
  })
from_config_dict name _ = err attribute_error

-- module.CONFORMANCE_CLASSES and the like
attribute : Option (List String) → Result (List String)
attribute none = err attribute_error
attribute (some classes) = ok classes

-- apis_dict[key]
item : Option ApiModule → Result ApiModule
item none = err key_error
item (some api) = ok api

-- if provider_type in apis_dict: …
own_classes : Option ApiModule → Result (List String)
unfolding attribute
own_classes none = ok []
own_classes (some api) = attribute api.conformance_classes

item_classes : ApiModule → String → Result (List String)
unfolding attribute
item_classes itemtypes provider_type =
    if provider_type == "feature"
    then attribute itemtypes.conformance_classes_features
    else if provider_type == "record"
    then attribute itemtypes.conformance_classes_records
    else ok []

-- A type that is a dict or a list cannot be looked up in a dict.
unfoldable pub get_provider_conformance : Value → Dict ApiModule → ApiModule → Result (List String)
unfolding own_classes item_classes
get_provider_conformance (str provider_type) apis_dict itemtypes_module = do
  classes ← own_classes (Dict.get provider_type apis_dict)
  more ← item_classes itemtypes_module provider_type
  ok (classes ++ more)
get_provider_conformance (obj fs) apis_dict itemtypes_module = err type_error
get_provider_conformance (arr vs) apis_dict itemtypes_module = err type_error
get_provider_conformance _ apis_dict itemtypes_module = ok []

module _ (apis_dict : Dict ApiModule) (itemtypes_module : ApiModule) where
  -- the loop over the provider types
  unfoldable pub provider_classes : List Value → Result (List String)
  unfolding get_provider_conformance
  provider_classes [] = ok []
  provider_classes (provider_type ∷ provider_types) = do
    classes ← get_provider_conformance provider_type apis_dict itemtypes_module
    more ← provider_classes provider_types
    ok (classes ++ more)

  -- apis_dict[key].CONFORMANCE_CLASSES
  unfoldable pub module_classes : String → Result (List String)
  unfolding item attribute
  module_classes key = do api ← item (Dict.get key apis_dict); attribute api.conformance_classes

  is_process : Value → Bool
  is_process (str s) = s == "process"
  is_process _ = false

  -- The classes that one resource adds to the set.
  unfoldable pub resource_classes : ResourceConfig → Result (List String)
  unfolding is_process provider_classes module_classes
  resource_classes resource =
      if is_process resource.resource_type
      then module_classes "process"
      else provider_classes resource.provider_types

  -- The loop over the resources. The set is a list here, in any order and with repetitions.
  unfoldable pub all_classes : Fields → Result (List String)
  unfolding resource_classes from_config_dict
  all_classes end = ok []
  all_classes (field name config resources) = do
    resource ← from_config_dict name config
    classes ← resource_classes resource
    more ← all_classes resources
    ok (classes ++ more)

  unfoldable pub pubsub_classes : Bool → Result (List String)
  unfolding module_classes
  pubsub_classes has_pubsub = if has_pubsub then module_classes "pubsub" else ok []

unfoldable pub build_conformance_list : Pygeoapi → Fields → Bool → Result (List String)
unfolding item all_classes pubsub_classes sorted_set
build_conformance_list pygeoapi resources has_pubsub = do
  itemtypes_module ← item (Dict.get "itemtypes" pygeoapi.all_apis)
  classes ← all_classes pygeoapi.all_apis itemtypes_module resources
  pubsub ← pubsub_classes pygeoapi.all_apis itemtypes_module has_pubsub
  ok (sorted_set (pygeoapi.conformance_classes ++ (classes ++ pubsub)))
