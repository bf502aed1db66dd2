-- ===== src/Openapi/Generation.antt =====
-- `generate_openapi_document` of app/pygeoapi/openapi.py, around the function of pygeoapi of the
-- same name. The readers and writers of JSON and YAML are parameters.
pub mod Corrected
mod Tests
use fastgeoapi.Base.{String, Result, ok, err, attribute_error, ◌==◌, if◌then◌else◌}
use fastgeoapi.Base.Errors.{◌>>=◌}
use fastgeoapi.Json.{Value, obj}
use fastgeoapi.Openapi.{fix_queryables_response_schema}

-- A reader and a writer of documents: `json.loads` and `json.dumps` with `default=str`, or
-- `yaml.safe_load` and `yaml.safe_dump` with `sort_keys=False`.
pub record Codec : Type 0 where
  pub load : String → Result Value
  pub dump : Value → Result String

-- The function changes a dict and raises for what has no `get`.
unfoldable pub fix_document : Value → Result Value
fix_document (obj doc) = do fixed ← fix_queryables_response_schema doc; ok (obj fixed)
fix_document _ = err attribute_error

unfoldable pub corrected : Codec → String → Result String
unfolding fix_document
corrected codec raw = do doc ← codec.load raw; fixed ← fix_document doc; codec.dump fixed

abbrev pub codec_of : Codec → Codec → String → Codec
codec_of json yaml output_format = if output_format == "json" then json else yaml

unfoldable pub generate_openapi_document :
    (String → String → Result String) → Codec → Codec → String → String → Result String
unfolding corrected
generate_openapi_document upstream json yaml cfg_file output_format = do
  raw ← upstream cfg_file output_format
  corrected (codec_of json yaml output_format) raw
