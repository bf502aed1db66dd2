-- ===== src/Nox/Session.antt =====
-- What a session does: the commands that it runs, in their order. Whether one succeeds may depend on
-- those before it, and is a parameter.
use fastgeoapi.Base.{String, Bool, true, false, List, [], ◌∷◌, ◌++◌, Result, ok, err}
use fastgeoapi.Base.Dict.{Dict}
use fastgeoapi.Base.Exec.{Exec, lift, ◌>>=◌}
use fastgeoapi.Nox.Branch.{Checkout, is_develop_branch}
use fastgeoapi.Nox.Hooks.{Hook, Virtualenv}

-- session.install, session.run, session.run_install, session.warn, session.notify, shutil.rmtree
pub data Action : Type 0 where
  install : (packages : List String) → Action
  run run_install : (command : List String) (env : Dict String) → Action
  warn : Action
  notify : (session : String) → Action
  rmtree : (path : String) → Action

pub record NoxState : Type 0 where
  pub actions : List Action
  pub hooks : Dict Hook

-- A session of nox, and what it finds in the directory of the project.
pub record Session : Type 0 where
  pub posargs : List String
  pub interactive : Bool
  pub virtualenv : Virtualenv
  pub virtualenv_location : String
  pub perform : NoxState → Action → Result (Unit {0})
  pub checkout : Checkout
  pub has_hookdir : Bool
  pub has_coverage_files : Bool
  pub has_site : Bool

abbrev pub Nox : Type 0
Nox = Exec NoxState (Unit {0})

-- session.posargs or default
unfoldable pub or_args : List String → List String → List String
or_args [] default = default
or_args (arg ∷ args) default = arg ∷ args

-- try: m, finally: f. An exception of `f` takes the place of the one that was on its way.
unfoldable pub after : Result (Unit {0}) → Result (Unit {0}) → Result (Unit {0})
after outcome (ok done) = outcome
after outcome (err e) = err e

unfoldable pub finally : Nox → Nox → Nox
unfolding after
finally m f s = let (outcome, t) = m s in let (last, u) = f t in (after outcome last, u)

module _ (session : Session) where
  unfoldable pub act : Action → Nox
  act action s = (session.perform s action, record s { actions = s.actions ++ action ∷ [] })

  unfoldable pub project_action : Bool → Action
  project_action true =
      run_install ("uv" ∷ "sync" ∷ [])
        (("UV_PROJECT_ENVIRONMENT", session.virtualenv_location) ∷ [])
  project_action false = install ("." ∷ [])

  unfoldable pub install_project : Nox
  unfolding act project_action
  install_project = do
    develop ← lift (is_develop_branch session.checkout)
    act (project_action develop)
