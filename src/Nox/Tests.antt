-- ===== src/Nox/Tests.antt =====
-- Sessions on develop and elsewhere, and git hooks, at concrete inputs.
use fastgeoapi.Base.{
  String, ◌≡◌, ◌≢◌, ◌⊎◌, refl, true, false, Option, none, some, List, [], ◌∷◌, ◌++◌, ◌<>◌, ok, err,
  Exception, called_process_error, ◌==◌, if◌then◌else◌,
}
use fastgeoapi.Base.Dict as Dict
use fastgeoapi.Base.Dict.{Dict}
use fastgeoapi.Nox.Branch.{Checkout}
use fastgeoapi.Nox.Hooks.{Hook, Virtualenv, activate_virtualenv_in_precommit_hooks}
use fastgeoapi.Nox.Session.{install, run_install, notify, NoxState, Session, install_project}
use fastgeoapi.Nox.Sessions.{prepare_tests, run_tests, tests}
use fastgeoapi.Nox.Installs.{IsDevelop, install_project-IsDevelop, tests-notifies}
use fastgeoapi.Nox.Patched.{IsActivated, activate_virtualenv_in_precommit_hooks-IsActivated}

-- A pull request from develop, on a detached HEAD.
abbrev github : String → Option String
github name = if name == "GITHUB_HEAD_REF" then some "develop" else none

abbrev request : Checkout
request = record { git_branch = ok "HEAD"; strip = λ text. text; getenv = github }

-- A text of up to two lines.
abbrev two_lines : String → List String
two_lines text =
    if text == "#!/usr/bin/env python\nimport /env/bin"
    then "#!/usr/bin/env python" ∷ "import /env/bin" ∷ []
    else text ∷ []

abbrev environment : Virtualenv
environment = record {
  location = some "/env";
  bin = "/env/bin";
  repr = λ text. "'" <> (text <> "'");
  splitlines = two_lines;
  lower = λ text. text;
  ignores_case = false;
}

abbrev session : Session
session = record {
  posargs = [];
  interactive = true;
  virtualenv = environment;
  virtualenv_location = "/env";
  perform = λ s action. ok tt;
  checkout = request;
  has_hookdir = true;
  has_coverage_files = false;
  has_site = false;
}

abbrev python_hook : Hook
python_hook = record { is_file = true; text = "#!/usr/bin/env python\nimport /env/bin" }

abbrev start : NoxState
start = record { actions = []; hooks = ("pre-commit", python_hook) ∷ [] }

install_project-IsDevelop_example :
    let locked = run_install ("uv" ∷ "sync" ∷ []) (("UV_PROJECT_ENVIRONMENT", "/env") ∷ []) in
    let released = install ("." ∷ []) in
    (IsDevelop request
      × (install_project session start
          ≡ (session.perform start locked, record start { actions = [] ++ locked ∷ [] })))
    ⊎ (¬ IsDevelop request
        × (install_project session start
            ≡ (session.perform start released, record start { actions = [] ++ released ∷ [] })))
    ⊎ ((e : Exception) × (request.git_branch ≡ err e)
        × (e ≢ called_process_error)
        × (install_project session start ≡ (err e, start)))
install_project-IsDevelop_example = install_project-IsDevelop session start

tests-notifies_example :
    let t = (prepare_tests session start).1 in
    ((e : Exception) × ((prepare_tests session start).0 ≡ err e)
      × (tests session start ≡ (err e, t)))
    ⊎ (((prepare_tests session start).0 ≡ ok tt)
        × ((tests session start).1 ≡ record t {
          actions = (t.actions ++ run_tests session ∷ []) ++ notify "coverage" ∷ [];
        })
        × (session.perform
                (record t { actions = t.actions ++ run_tests session ∷ [] })
                (notify "coverage")
              ≡ ok tt
            → (tests session start).0 ≡ session.perform t (run_tests session)))
tests-notifies_example = tests-notifies session start refl

activate_virtualenv_in_precommit_hooks-IsActivated_example :
    let left = activate_virtualenv_in_precommit_hooks environment true start.hooks in
    (left.0 ≡ ok tt)
    × ((result : Hook) × (Dict.get "pre-commit" left.1 ≡ some result)
        × IsActivated environment "/env" "pre-commit" python_hook result)
unfolding Dict.get
activate_virtualenv_in_precommit_hooks-IsActivated_example =
    activate_virtualenv_in_precommit_hooks-IsActivated environment "/env" "pre-commit" start.hooks
      python_hook refl ((λ candidate. λ e. cc), tt) refl
