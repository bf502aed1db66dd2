-- ===== src/Docker/Tests.antt =====
-- A build on the branch `main` for which the image can be pulled.
use fastgeoapi.Base.{String, ◌≡◌, ◌⊎◌, refl, true, none, some, [], ◌∷◌, ok, err, abort_error}
use fastgeoapi.Base.Exec.{◌>>=◌}
use fastgeoapi.Text.{replace}
use fastgeoapi.Docker.{Host, Options, Log, build_image, build_command}
use fastgeoapi.Docker.Caches.{IsBuilt, build_image-IsBuilt}

abbrev host : Host
host = record {
  git_command = some "git";
  docker_command = some "docker";
  split = λ command. ok (command ∷ []);
  run = λ log args. ok (record { succeeded = true; stdout = "main" });
  strip = λ text. text;
  dockerfile = "Dockerfile";
}

abbrev options : Options
options = record {
  base_image_name = "geo";
  build_context_path = ".";
  default_git_branch = some "main";
  docker_platform = "linux/amd64";
  use_cache = true;
}

-- The commands of the build.
abbrev commands : Log
commands =
    ("git rev-parse --abbrev-ref HEAD" ∷ [])
    ∷ ("git rev-parse --short HEAD" ∷ [])
    ∷ ("docker pull geo:main" ∷ [])
    ∷ ("docker pull geo:main" ∷ [])
    ∷ (build_command host options "docker" "main" "main" ("geo:main" ∷ "geo:main" ∷ []) ∷ [])
    ∷ []

built : build_image host options [] ≡ (ok "main", commands)
unfolding build_image replace ◌>>=◌
built = refl

build_image-IsBuilt_example :
    ((out : String) (log : Log)
      → build_image host options [] ≡ (ok out, log)
      → (docker : String) × (some "docker" ≡ some docker) × IsBuilt host options docker log)
    × ((host.git_command ≡ none) ⊎ (host.docker_command ≡ none)
        → build_image host options [] ≡ (err abort_error, []))
build_image-IsBuilt_example = build_image-IsBuilt host options
