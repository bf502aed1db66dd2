-- ===== src/App/Generator.antt =====
-- `ensure_openapi_file_exists` of app/utils/openapi_generator.py, over the files by their paths.
pub mod Failures
use fastgeoapi.Base.{
  String, Bool, ◌||◌, Option, none, some, Result, ok, err, pygeoapi_env_error, ◌==◌, if◌then◌else◌,
}
use fastgeoapi.Base.Dict
use fastgeoapi.Base.Dict.{Dict}

-- The settings that the function copies into the environment and reads from there.
pub record Paths : Type 0 where
  pub pygeoapi_config : String
  pub pygeoapi_openapi : String

-- `in_cwd` is `Path.cwd() / path`, and `generate` what `generate_openapi_document` comes to for the
-- configuration at a path.
pub record Generation : Type 0 where
  pub in_cwd : String → String
  pub generate : String → Result String

-- The file is open for writing and is closed on both ways out.
unfoldable pub write_file : String → Result String → Dict String → Result String × Dict String
write_file path (ok content) files = (ok path, Dict.put path content files)
write_file path (err e) files = (err e, files)

unfoldable pub generate_file :
    Generation → Paths → Option String → Dict String → Result String × Dict String
unfolding write_file
generate_file generation cfg (some content) files =
    (ok (generation.in_cwd cfg.pygeoapi_openapi), files)
generate_file generation cfg none files =
    let path = generation.in_cwd cfg.pygeoapi_openapi in
    write_file path (generation.generate (generation.in_cwd cfg.pygeoapi_config))
      (Dict.put path "" files)

unfoldable pub ensure_openapi_file_exists :
    Generation → Paths → Dict String → Result String × Dict String
unfolding generate_file
ensure_openapi_file_exists generation cfg files =
    if cfg.pygeoapi_config == "" || cfg.pygeoapi_openapi == ""
    then (err pygeoapi_env_error, files)
    else generate_file generation cfg (Dict.get (generation.in_cwd cfg.pygeoapi_openapi) files)
        files
