-- ===== src/Logging.antt =====
-- app/config/logging.py with the models of app/schemas/logging.py: the sinks of loguru and the
-- handlers of the standard library as a state, and what the interceptor makes of a record.
pub mod Sinks
mod Tests
use fastgeoapi.Base.{
  ℕ, suc, ◌+◌, String, Bool, true, false, Option, none, some, List, [], ◌∷◌, Result, ok, err,
  attribute_error, value_error, nat_eq, ◌==◌, if◌then◌else◌,
}
use fastgeoapi.Base.Dict
use fastgeoapi.Base.Dict.{Dict}
use fastgeoapi.Base.Errors.{◌>>=◌}

-- LoggingBase
pub record LoggingBase : Type 0 where
  pub path : String
  pub level : String
  pub enqueue : Bool
  pub retention : String
  pub rotation : String
  pub format : String

pub data Target : Type 0 where
  stdout : Target
  file : (path rotation retention : String) → Target

-- What `logger.add` is given; backtraces are always on.
pub record Sink : Type 0 where
  pub target : Target
  pub enqueue : Bool
  pub level : String
  pub format : String

pub data Handler : Type 0 where
  intercept_handler : Handler
  other_handler : String → Handler

-- loguru's sinks, the handlers of the root logger, and those of the named loggers
pub record LoggingState : Type 0 where
  pub sinks : List Sink
  pub root_handlers : List Handler
  pub handlers : Dict (List Handler)

-- logging.basicConfig(handlers=[InterceptHandler()], level=0)
basic_config : List Handler → List Handler
basic_config [] = intercept_handler ∷ []
basic_config (h ∷ hs) = h ∷ hs

-- The named loggers whose handlers are replaced.
abbrev pub intercepted : List String
intercepted = "uvicorn.access" ∷ "uvicorn" ∷ "uvicorn.error" ∷ "fastapi" ∷ []

-- `upper` is the method of texts of this name.
module _ (upper : String → String) where
  unfoldable pub sinks_of : LoggingBase → List Sink
  sinks_of config =
      (record {
        target = stdout;
        enqueue = config.enqueue;
        level = upper config.level;
        format = config.format;
      })
      ∷ (record {
        target = file config.path config.rotation config.retention;
        enqueue = config.enqueue;
        level = upper config.level;
        format = config.format;
      })
      ∷ []

  -- `logger.remove()` takes every sink away.
  unfoldable pub customize_logging : LoggingBase → LoggingState → LoggingState
  unfolding sinks_of basic_config
  customize_logging config s = record {
    sinks = sinks_of config;
    root_handlers = basic_config s.root_handlers;
    handlers = Dict.put_all intercepted (intercept_handler ∷ []) s.handlers;
  }

  -- The settings that `create_logger` reads, and the path of the file that it puts together.
  unfoldable pub create_logger :
      (String → String → String)
      → (log_path log_filename : String) → LoggingBase
      → LoggingState
      → LoggingState
  unfolding customize_logging
  create_logger join log_path log_filename cfg s =
      customize_logging (record cfg { path = join log_path log_filename }) s

-- loglevel_mapping.get(levelno, "INFO")
unfoldable pub loglevel_mapping : ℕ → String
loglevel_mapping levelno =
    if nat_eq levelno 50
    then "CRITICAL"
    else if nat_eq levelno 40
    then "ERROR"
    else if nat_eq levelno 30
    then "WARNING"
    else if nat_eq levelno 20
    then "INFO"
    else if nat_eq levelno 10
    then "DEBUG"
    else if nat_eq levelno 0
    then "NOTSET"
    else "INFO"

-- try: logger.level(record.levelname).name
unfoldable pub level_name : Result String → ℕ → Result String
unfolding loglevel_mapping
level_name (ok name) levelno = ok name
level_name (err attribute_error) levelno = ok (loglevel_mapping levelno)
level_name (err value_error) levelno = ok (loglevel_mapping levelno)
level_name (err e) levelno = err e

-- The walk up the frames, given by the names of their files, the innermost first. Past the last one
-- there is no frame to ask.
unfoldable pub caller_depth : String → List String → ℕ → Result ℕ
caller_depth logging_file [] depth = err attribute_error
caller_depth logging_file (filename ∷ frames) depth =
    let further = caller_depth logging_file frames (depth + 1) in
    if filename == logging_file then further else ok depth

-- The level and the depth that InterceptHandler.emit logs a record at.
unfoldable pub emit : String → List String → Result String → ℕ → Result (String × ℕ)
unfolding level_name caller_depth
emit logging_file frames level levelno = do
  name ← level_name level levelno
  depth ← caller_depth logging_file frames 2
  ok (name, depth)
