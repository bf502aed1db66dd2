-- ===== src/App/Command/Truncated.antt =====
-- What the command leaves in the file, and what it raises.
use fastgeoapi.Base.{String, ◌≡◌, ◌⊎◌, Option, none, Result, some, ok, err, Exception}
use fastgeoapi.Base.Dict
use fastgeoapi.Base.Dict.{Dict}
use fastgeoapi.App.Config.{Config}
use fastgeoapi.App.Generator.{Paths}
use fastgeoapi.App.Command.{Commands, json_path, generated_openapi, command_error, enriched_openapi}

-- What the command comes to once the file is open, and what the file holds then.
abbrev pub IsWritten : Commands → Paths → Config → Result (Unit {0}) → Option String → Type 0
IsWritten commands paths cfg outcome held =
    let generated = generated_openapi commands paths in
    ((text : String) × (enriched_openapi commands paths cfg ≡ ok text)
      × (((commands.write_failure (json_path commands paths) text ≡ none)
            × (outcome ≡ ok tt)
            × (held ≡ some text))
          ⊎ ((e : Exception) × (left : String) × (commands.write_failure (json_path commands paths)
                  text
                ≡ some (e, left))
              × (outcome ≡ err (command_error generated e))
              × (held ≡ some left))))
    ⊎ ((e : Exception) × (enriched_openapi commands paths cfg ≡ err e)
        × (outcome ≡ err (command_error generated e))
        × (held ≡ some ""))
