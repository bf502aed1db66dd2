-- ===== src/App/Command/Tests.antt =====
-- A command whose generation raises, over a file with a document.
use fastgeoapi.Base.{none, String, ◌<>◌, [], ◌∷◌, ok}
use fastgeoapi.Base.Dict
use fastgeoapi.Base.Dict.{Dict}
use fastgeoapi.App.Tests.{failing}
use fastgeoapi.App.Command.{Commands}

abbrev commands : Commands
commands = record {
  generation = failing;
  with_json_suffix = λ path. path <> ".json";
  enrich = λ text schemes. ok text;
  open_file = λ path. ok tt;
  write_failure = λ path text. none;
}

abbrev old_files : Dict String
old_files = ("/srv/openapi.yml.json", "{}") ∷ []
