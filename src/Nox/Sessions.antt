-- ===== src/Nox/Sessions.antt =====
-- The sessions, one function each.
use fastgeoapi.Base.{
  String, Bool, true, false, ◌&&◌, Option, none, some, List, [], ◌∷◌, ◌++◌, ◌==◌, if◌then◌else◌,
}
use fastgeoapi.Base.Exec.{pure, ◌>>◌}
use fastgeoapi.Nox.Hooks.{activate_virtualenv_in_precommit_hooks}
use fastgeoapi.Nox.Session.{
  Action, install, run, warn, notify, rmtree, Session, Nox, or_args, finally, act, install_project,
}

-- The packages that three sessions have in common.
abbrev pub server_packages : List String
server_packages = "pytest-iam" ∷ "canaille[sqlite]" ∷ "joserfc>=1.6,<1.7" ∷ "faker" ∷ []

abbrev pub docs_packages : List String
docs_packages =
    "mkdocs" ∷ "mkdocs-material" ∷ "mkdocs-material-extras" ∷ "mkdocs-material-extensions"
    ∷ "mkdocs-swagger-ui-tag" ∷ "mkdocs-typer" ∷ "mkdocstrings[python]"
    ∷ "mkdocs-include-markdown-plugin" ∷ "termynal" ∷ []

-- args and args[0] == "install"
unfoldable pub asks_install : List String → Bool
asks_install [] = false
asks_install (arg ∷ args) = arg == "install"

-- not session.posargs
unfoldable pub asks_combine : List String → Bool
asks_combine [] = true
asks_combine (arg ∷ args) = false

module _ (session : Session) where
  skip : Nox
  unfolding pure
  skip = pure tt

  activate_hooks : Nox
  unfolding activate_virtualenv_in_precommit_hooks
  activate_hooks s =
      let (outcome, hooks) =
        activate_virtualenv_in_precommit_hooks session.virtualenv session.has_hookdir s.hooks in
      (outcome, record s { hooks = hooks })

  unfoldable pub precommit : Nox
  unfolding or_args act activate_hooks skip asks_install
  precommit =
      let args = or_args session.posargs ("run" ∷ "--all-files" ∷ "--show-diff-on-failure" ∷ []) in
      act session (install ("ruff" ∷ "pre-commit" ∷ "pre-commit-hooks" ∷ []))
      >> act session (run ("pre-commit" ∷ "clean" ∷ []) [])
      >> act session (run ("pre-commit" ∷ args) [])
      >> (if asks_install args then activate_hooks else skip)

  -- The key of the scan, or a warning that there is none.
  safety_options : Option String → List String
  safety_options none = []
  safety_options (some key) = "--key" ∷ key ∷ []

  warn_without : Option String → Nox
  unfolding act skip
  warn_without none = act session warn
  warn_without (some key) = skip

  unfoldable pub safety : Nox
  unfolding install_project act safety_options warn_without
  safety =
      let key = session.checkout.getenv "SAFETY_API_KEY" in
      install_project session
      >> act session (install ("safety>=3.8,<4" ∷ "typer>=0.16,<0.26" ∷ []))
      >> warn_without key
      >> act session (
          run ("safety" ∷ (safety_options key ++ "scan" ∷ "--output" ∷ "screen" ∷ []))
            (("NLTK_DISABLE_IMPORT_SECURITY", "1") ∷ []))

  unfoldable pub bandit : Nox
  unfolding or_args act
  bandit =
      act session (install ("bandit" ∷ []))
      >> act session (run ("bandit" ∷ or_args session.posargs ("-r" ∷ "app" ∷ "-v" ∷ [])) [])

  unfoldable pub ty : Nox
  unfolding or_args install_project act
  ty =
      install_project session
      >> act session
          (install ("ty" ∷ "pytest" ∷ "schemathesis>=4.0" ∷ "pytest-asyncio" ∷ server_packages))
      >> act session (run ("ty" ∷ or_args session.posargs ("check" ∷ "app" ∷ "tests" ∷ [])) [])

  unfoldable pub notify_coverage : Nox
  unfolding act skip
  notify_coverage = if session.interactive then act session (notify "coverage") else skip

  unfoldable pub prepare_tests : Nox
  unfolding install_project act
  prepare_tests =
      install_project session
      >> act session (
          install (
            "coverage[toml]" ∷ "pytest" ∷ "pygments" ∷ "schemathesis>=4.0" ∷ "pytest-asyncio"
            ∷ server_packages))

  abbrev pub run_tests : Action
  run_tests = run ("coverage" ∷ "run" ∷ "--parallel" ∷ "-m" ∷ "pytest" ∷ session.posargs) []

  unfoldable pub tests : Nox
  unfolding prepare_tests act finally notify_coverage
  tests = prepare_tests >> finally (act session run_tests) notify_coverage

  combine : Nox
  unfolding act skip asks_combine
  combine =
      if asks_combine session.posargs && session.has_coverage_files
      then act session (run ("coverage" ∷ "combine" ∷ []) [])
      else skip

  unfoldable pub coverage : Nox
  unfolding or_args act combine
  coverage =
      act session (install ("coverage[toml]" ∷ []))
      >> combine
      >> act session (run ("coverage" ∷ or_args session.posargs ("report" ∷ [])) [])

  unfoldable pub typeguard : Nox
  unfolding install_project act
  typeguard =
      install_project session
      >> act session (
          install (
            "pytest" ∷ "typeguard" ∷ "pygments" ∷ "schemathesis>=4.0" ∷ "pytest-asyncio"
            ∷ server_packages))
      >> act session (run ("pytest" ∷ "--typeguard-packages=app" ∷ session.posargs) [])

  xdoctest_args : List String → Option String → List String
  xdoctest_args [] none = "--modname=app" ∷ "--command=all" ∷ []
  xdoctest_args [] (some color) = "--modname=app" ∷ "--command=all" ∷ "--colored=1" ∷ []
  xdoctest_args (arg ∷ args) color = "app" ∷ arg ∷ args

  unfoldable pub xdoctest : Nox
  unfolding install_project act xdoctest_args
  xdoctest =
      install_project session
      >> act session (install ("xdoctest[colors]" ∷ []))
      >> act session (
          run
            ("python"
              ∷ "-m"
              ∷ "xdoctest"
              ∷ xdoctest_args session.posargs (session.checkout.getenv "FORCE_COLOR"))
            [])

  remove_site : Nox
  unfolding act skip
  remove_site = if session.has_site then act session (rmtree "docs_build/site") else skip

  -- The two documentation sessions differ in the command and its arguments.
  mkdocs : String → List String → Nox
  unfolding install_project act remove_site
  mkdocs command args =
      install_project session
      >> act session (install docs_packages)
      >> remove_site
      >> act session (run ("python" ∷ "-m" ∷ "mkdocs" ∷ command ∷ args) [])

  unfoldable pub docs_build : Nox
  unfolding or_args mkdocs
  docs_build = mkdocs "build" (or_args session.posargs ("--config-file" ∷ "mkdocs.yml" ∷ []))

  unfoldable pub docs : Nox
  unfolding mkdocs
  docs = mkdocs "serve" session.posargs
