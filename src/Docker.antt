-- ===== src/Docker.antt =====
-- scripts/docker/build.py: the command that builds the image. The processes that it runs are kept
-- in the order in which they were run, and what each comes to is a parameter.
pub mod Caches
mod Processes
mod Tests
use fastgeoapi.Base.{
  String, ◌<>◌, Bool, true, false, Option, none, some, List, [], ◌∷◌, ◌++◌, Result, ok, err,
  Exception, called_process_error, abort_error, if◌then◌else◌,
}
use fastgeoapi.Base.Exec.{Exec, pure, raise, lift, ◌>>=◌, ◌>>◌}
use fastgeoapi.Text.{replace}

-- What a process that was started comes to.
pub record CompletedProcess : Type 0 where
  pub succeeded : Bool
  pub stdout : String

-- The processes that were run.
abbrev pub Log : Type 0
Log = List (List String)

-- shutil.which for the two commands, shlex.split, subprocess.run after the processes so far, the
-- method `strip` of texts, and the path of the Dockerfile.
pub record Host : Type 0 where
  pub git_command : Option String
  pub docker_command : Option String
  pub split : String → Result (List String)
  pub run : Log → List String → Result CompletedProcess
  pub strip : String → String
  pub dockerfile : String

pub record Options : Type 0 where
  pub base_image_name : String
  pub build_context_path : String
  pub default_git_branch : Option String
  pub docker_platform : String
  pub use_cache : Bool

unfoldable pub sanitize_git_branch_name : String → String
sanitize_git_branch_name original = replace "/" "-" original

unfoldable pub image_of : String → String → String
unfolding sanitize_git_branch_name
image_of base_image_name branch = base_image_name <> (":" <> sanitize_git_branch_name branch)

-- for cache_image in possible_docker_caches
unfoldable pub with_caches : List String → String → String
with_caches [] build_command = build_command
with_caches (image ∷ images) build_command =
    with_caches images
      (build_command <> (" --build-arg 'BUILDKIT_INLINE_CACHE=1'" <> (" --cache-from " <> image)))

-- The command without what concerns the caches.
unfoldable pub base_command : Host → Options → String → String → String → String
unfolding sanitize_git_branch_name
base_command host options docker branch commit =
    docker
    <> (" buildx build --platform "
        <> (options.docker_platform
            <> (" --tag '"
                <> (image_of options.base_image_name branch
                    <> ("' --tag '"
                        <> (options.base_image_name
                            <> (":"
                                <> (commit
                                    <> ("' --file "
                                        <> (host.dockerfile
                                            <> (" --label git-commit="
                                                <> (commit
                                                    <> (" --label git-branch="
                                                        <> branch)))))))))))))

unfoldable pub build_command : Host → Options → String → String → String → List String → String
unfolding base_command with_caches
build_command host options docker branch commit caches =
    (if options.use_cache
      then with_caches caches (base_command host options docker branch commit)
      else base_command host options docker branch commit <> " --no-cache")
    <> (" " <> options.build_context_path)

module _ (host : Host) where
  -- process_result.check_returncode()
  check_returncode : CompletedProcess → Result String
  check_returncode process =
      if process.succeeded then ok process.stdout else err called_process_error

  -- A process is run once its arguments are split.
  unfoldable pub run_process : List String → Exec Log String
  unfolding check_returncode
  run_process args log = (
    (elim (host.run log args) [ err e ↦ err e | ok process ↦ check_returncode process ]),
    log ++ args ∷ [],
  )

  -- `_run_external_command`, which checks the return code in every call.
  unfoldable pub run_external_command : String → Exec Log String
  unfolding run_process
  run_external_command command = do args ← lift (host.split command); run_process args

  -- with capture_output
  unfoldable pub captured : String → Exec Log String
  unfolding run_external_command
  captured command = do stdout ← run_external_command command; pure (host.strip stdout)

  -- try: docker pull, except CalledProcessError: …, else: append
  pulled : String → Result String → Result (List String)
  pulled image (ok stdout) = ok (image ∷ [])
  pulled image (err called_process_error) = ok []
  pulled image (err e) = err e

  unfoldable pub pull : String → String → Exec Log (List String)
  unfolding pulled run_external_command
  pull docker image log =
      let (result, log') = run_external_command (docker <> (" pull " <> image)) log in
      (pulled image result, log')

  -- for possible_cache_base in …
  unfoldable pub pull_all : String → List String → Exec Log (List String)
  unfolding pull
  pull_all docker [] = pure []
  pull_all docker (image ∷ images) = do
    caches ← pull docker image
    more ← pull_all docker images
    pure (caches ++ more)

  default_branch : String → Option String → Exec Log String
  unfolding captured
  default_branch git (some branch) = pure branch
  default_branch git none = captured (git <> " rev-parse --abbrev-ref origin/HEAD")

  module _ (options : Options) where
    unfoldable pub pull_and_build : String → String → String → String → Exec Log String
    unfolding pull_all image_of build_command run_external_command
    pull_and_build docker default branch commit = do
      caches ←
          pull_all docker (
            image_of options.base_image_name branch ∷ image_of options.base_image_name default ∷ [])
      run_external_command (build_command host options docker branch commit caches)

    unfoldable pub build_with : String → String → Exec Log String
    unfolding default_branch captured pull_and_build
    build_with git docker = do
      default ← default_branch git options.default_git_branch
      branch ← captured (git <> " rev-parse --abbrev-ref HEAD")
      commit ← captured (git <> " rev-parse --short HEAD")
      pull_and_build docker default branch commit

    with_docker : String → Option String → Exec Log String
    unfolding build_with
    with_docker git none = raise abort_error
    with_docker git (some docker) = build_with git docker

    with_git : Option String → Exec Log String
    unfolding with_docker
    with_git none = raise abort_error
    with_git (some git) = with_docker git host.docker_command

    unfoldable pub build_image : Exec Log String
    unfolding with_git
    build_image = with_git host.git_command
