-- ===== src/App/Command.antt =====
-- The commands of app/cli.py. `openapi` writes the OpenAPI document with its security sections to the
-- JSON file beside the file of the settings, over the files by their paths; `run` starts uvicorn.
pub mod Truncated
mod Tests
use fastgeoapi.Base.{
  ℕ, String, Bool, true, false, ◌||◌, Option, none, some, List, Result, ok, err, Exception,
  pygeoapi_env_error, locale_error, unbound_local_error, ◌==◌, if◌then◌else◌,
}
use fastgeoapi.Base.Dict
use fastgeoapi.Base.Dict.{Dict}
use fastgeoapi.Base.Errors.{◌>>=◌}
use fastgeoapi.App.Config.{Config}
use fastgeoapi.App.Modes.{SecurityScheme, cli_security_schemes}
use fastgeoapi.App.Generator.{Paths, Generation}
use fastgeoapi.App.Startup.{startup_error}

-- What the command uses besides: `with_suffix(".json")`, pygeoapi's `generate_openapi_document` for
-- JSON, and `augment_security` with `model_dump_json`.
pub record Commands : Type 0 where
  pub generation : Generation
  pub with_json_suffix : String → String
  pub enrich : String → List SecurityScheme → Result String
  -- `open(mode="w")` of a path, and for a path and a text the exception of the write, if it fails, with
  -- what it leaves in the file
  pub open_file : String → Result (Unit {0})
  pub write_failure : String → String → Option (Exception × String)

unfoldable pub json_path : Commands → Paths → String
json_path commands paths =
    commands.with_json_suffix (commands.generation.in_cwd paths.pygeoapi_openapi)

-- generate_openapi_document(pygeoapi_conf, output_format="json")
unfoldable pub generated_openapi : Commands → Paths → Result String
generated_openapi commands paths =
    commands.generation.generate (commands.generation.in_cwd paths.pygeoapi_config)

-- The text that is written while the file is open.
unfoldable pub enriched_openapi : Commands → Paths → Config → Result String
unfolding cli_security_schemes generated_openapi
enriched_openapi commands paths cfg = do
  oapi_content ← generated_openapi commands paths
  security_schemes ← cli_security_schemes cfg
  commands.enrich oapi_content security_schemes

-- The `except` clauses. That of LocaleError prints the generated text, which is unbound where the
-- generation itself raised it.
unfoldable pub command_error : Result String → Exception → Exception
unfolding startup_error
command_error (err raised) locale_error = unbound_local_error
command_error generated e = startup_error e

-- What an exception within the `try` leaves the command as.
unfoldable pub raised : Result String → Result (Unit {0}) → Result (Unit {0})
unfolding command_error
raised generated (ok done) = ok done
raised generated (err e) = err (command_error generated e)

-- What becomes of the text: it is written, or the write fails and leaves some text.
finish_write :
    String
    → Result String
    → String
    → Option (Exception × String)
    → Dict String
    → Result (Unit {0}) × Dict String
unfolding raised
finish_write path generated text none files = (ok tt, Dict.put path text files)
finish_write path generated text (some (e, left)) files =
    (raised generated (err e), Dict.put path left files)

module _ (commands : Commands) where
  -- The file is emptied when it is opened, and keeps nothing of a text that is not written.
  unfoldable pub write_enriched :
      String → Result String → Result String → Dict String → Result (Unit {0}) × Dict String
  unfolding finish_write
  write_enriched path generated (ok text) files =
      finish_write path generated text (commands.write_failure path text) files
  write_enriched path generated (err e) files = (raised generated (err e), Dict.put path "" files)

  -- Where the file cannot be opened, no text was generated.
  unfoldable pub after_open :
      Result (Unit {0}) → Paths → Config → Dict String → Result (Unit {0}) × Dict String
  unfolding write_enriched
  after_open (err e) paths cfg files = (raised (err e) (err e), files)
  after_open (ok opened) paths cfg files =
      write_enriched (json_path commands paths) (generated_openapi commands paths)
        (enriched_openapi commands paths cfg) files

  unfoldable pub openapi : Paths → Config → Dict String → Result (Unit {0}) × Dict String
  unfolding after_open
  openapi paths cfg files =
      if paths.pygeoapi_config == "" || paths.pygeoapi_openapi == ""
      then (err pygeoapi_env_error, files)
      else after_open (commands.open_file (json_path commands paths)) paths cfg files

-- The arguments of uvicorn.run.
pub record ServerRun : Type 0 where
  pub app : String
  pub host : String
  pub port : ℕ
  pub reload : Bool
  pub workers : ℕ

-- The `run` command, whose options have defaults.
unfoldable pub run : (host : String) (port : ℕ) (reload : Bool) (workers : ℕ) → ServerRun
run host port reload workers = record {
  app = "app.main:app";
  host = host;
  port = port;
  reload = reload;
  workers = if reload then 1 else workers;
}

unfoldable pub default_run : ServerRun
unfolding run
default_run = run "0.0.0.0" 5000 false 1
