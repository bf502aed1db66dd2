-- ===== src/Docker/Caches.antt =====
-- The caches that the build names were pulled.
use fastgeoapi.Base.{
  String, ◌<>◌, ◌≡◌, refl, sym, ap, ◌∙◌, Option, none, some, List, [], ◌∷◌, ◌++◌, ok, err,
  Exception, abort_error, arith, All, Result-cases, ◌⊎◌, inl, inr,
}
use fastgeoapi.Base.Exec.{pure, raise, ◌>>=◌}
use fastgeoapi.Base.Exec.Rules.{bind-ok}
use fastgeoapi.Docker.{
  Host, Options, Log, run_external_command, captured, pulled, pull, pull_all, default_branch,
  build_command, pull_and_build, build_with, build_image, with_docker, with_git, image_of,
}
use fastgeoapi.Docker.Processes.{
  append_nil, Extends, Extends-trans, Succeeded, later, run_external_command-ok,
  run_external_command-Extends,
}

module _ (host : Host) where
  -- Each image was pulled.
  pub ArePulled : String → Log → List String → Type 0
  ArePulled docker log = All (λ image. Succeeded host (docker <> (" pull " <> image)) log)

  ArePulled-later :
      (docker : String) (log more : Log) (images : List String)
      → ArePulled docker log images
      → ArePulled docker (log ++ more) images
  unfolding ArePulled
  ArePulled-later docker log more [] h = tt
  ArePulled-later docker log more (image ∷ images) (s, h) = (
    later host (docker <> (" pull " <> image)) log more s,
    ArePulled-later docker log more images h,
  )

  ArePulled-append :
      (docker : String) (log : Log) (xs ys : List String)
      → ArePulled docker log xs
      → ArePulled docker log ys
      → ArePulled docker log (xs ++ ys)
  unfolding ArePulled
  ArePulled-append docker log [] ys hx hy = hy
  ArePulled-append docker log (x ∷ xs) ys (s, hx) hy = (s, ArePulled-append docker log xs ys hx hy)

  pulled-err :
      (image : String) (e : Exception) (caches : List String)
      → pulled host image (err e) ≡ ok caches
      → caches ≡ []
  unfolding pulled
  pulled-err image e caches h = ground arith

  pull-ok :
      (docker image : String) (log : Log) (caches : List String)
      → (pull host docker image log).0 ≡ ok caches
      → ArePulled docker (pull host docker image log).1 caches
        × Extends log (pull host docker image log).1
  unfolding pull pulled ArePulled
  pull-ok docker image log caches h =
      let command = docker <> (" pull " <> image) in
      let grows = run_external_command-Extends host command log in
      elim (Result-cases (run_external_command host command log).0) [
        | inl (out, returned) ↦
            let (s, _, _) =
              run_external_command-ok host command log (run_external_command host command log).1 out
                (ap (λ r. (r, (run_external_command host command log).1)) returned) in
            let e : image ∷ [] ≡ caches = ground arith in (rw (← e) (s, tt), grows)
        | inr (e, raised) ↦
            let none_left = pulled-err image e caches (rw raised at h) in (rw none_left tt, grows)
      ]

  pull_all-ok :
      (docker : String) (images : List String) (log log' : Log) (caches : List String)
      → pull_all host docker images log ≡ (ok caches, log')
      → ArePulled docker log' caches × Extends log log'
  unfolding pull_all pure Extends ArePulled
  pull_all-ok docker [] log log' caches h =
      let e : [] ≡ caches = ground arith in
      let same : log ≡ log' = ap (λ r. r.1) h in
      (rw (← e) tt, ([], sym same ∙ sym (append_nil log)))
  pull_all-ok docker (image ∷ images) log log' caches h =
      let (first, got, rest) =
        bind-ok (pull host docker image)
          (λ first. pull_all host docker images >>= λ more. pure (first ++ more)) log log' caches
          h in
      let t = (pull host docker image log).1 in
      let (more, others, last) =
        bind-ok (pull_all host docker images) (λ more. pure (first ++ more)) t log' caches rest in
      let end = (pull_all host docker images t).1 in
      let here = pull-ok docker image log first got in
      let there = pull_all-ok docker images t end more (ap (λ r. (r, end)) others) in
      let e : first ++ more ≡ caches = ground arith in
      let same : end ≡ log' = ap (λ r. r.1) last in
      let (grown, grows) = there.1 in
      let kept : ArePulled docker end first =
        rw grows (ArePulled-later docker t grown first here.0) in
      (
        rw (← e, ← same) (ArePulled-append docker end first more kept there.0),
        rw (← same) (Extends-trans log t end here.1 there.1),
      )

  -- The build was the last process, and its caches were pulled before it.
  pub IsBuilt : Options → String → Log → Type 0
  IsBuilt options docker log =
      (branch commit : String) × (caches : List String) × (build : Succeeded host
        (build_command host options docker branch commit caches) log)
      × (build.after ≡ [])
      × ArePulled docker build.before caches

  pull_and_build-IsBuilt :
      (options : Options) (docker default branch commit : String) (log log' : Log) (out : String)
      → pull_and_build host options docker default branch commit log ≡ (ok out, log')
      → IsBuilt options docker log'
  unfolding pull_and_build IsBuilt
  pull_and_build-IsBuilt options docker default branch commit log log' out h =
      let images =
        image_of options.base_image_name branch ∷ image_of options.base_image_name default ∷ [] in
      let (caches, got, rest) =
        bind-ok (pull_all host docker images)
          (λ caches.
            run_external_command host (build_command host options docker branch commit caches))
          log log' out h in
      let t = (pull_all host docker images log).1 in
      let (build, first, last) =
        run_external_command-ok host (build_command host options docker branch commit caches) t log'
          out rest in
      let pulls = pull_all-ok docker images log t caches (ap (λ r. (r, t)) got) in
      (branch, commit, caches, build, last, rw first pulls.0)

  build_with-IsBuilt :
      (options : Options) (git docker : String) (log log' : Log) (out : String)
      → build_with host options git docker log ≡ (ok out, log')
      → IsBuilt options docker log'
  unfolding build_with
  build_with-IsBuilt options git docker log log' out h =
      let branch_of = captured host (git <> " rev-parse --abbrev-ref HEAD") in
      let commit_of = captured host (git <> " rev-parse --short HEAD") in
      let (default, _, rest) =
        bind-ok (default_branch host git options.default_git_branch)
          (λ default. branch_of >>= λ branch.
            commit_of >>= λ commit. pull_and_build host options docker default branch commit)
          log log' out h in
      let t = (default_branch host git options.default_git_branch log).1 in
      let (branch, _, rest') =
        bind-ok branch_of
          (λ branch.
            commit_of >>= λ commit. pull_and_build host options docker default branch commit)
          t log' out rest in
      let (commit, _, last) =
        bind-ok commit_of (λ commit. pull_and_build host options docker default branch commit)
          (branch_of t).1 log' out rest' in
      pull_and_build-IsBuilt options docker default branch commit (commit_of (branch_of t).1).1 log'
        out last

  with_docker-IsBuilt :
      (options : Options) (git : String) (found : Option String) (log log' : Log) (out : String)
      → with_docker host options git found log ≡ (ok out, log')
      → (docker : String) × (found ≡ some docker) × IsBuilt options docker log'
  unfolding with_docker raise
  with_docker-IsBuilt options git none log log' out h = cc
  with_docker-IsBuilt options git (some docker) log log' out h =
      (docker, refl, build_with-IsBuilt options git docker log log' out h)

  with_git-IsBuilt :
      (options : Options) (found : Option String) (log log' : Log) (out : String)
      → with_git host options found log ≡ (ok out, log')
      → (docker : String) × (host.docker_command ≡ some docker) × IsBuilt options docker log'
  unfolding with_git raise
  with_git-IsBuilt options none log log' out h = cc
  with_git-IsBuilt options (some git) log log' out h =
      with_docker-IsBuilt options git host.docker_command log log' out h

  with_git-missing :
      (options : Options) (found : Option String) (log : Log)
      → (found ≡ none) ⊎ (host.docker_command ≡ none)
      → with_git host options found log ≡ (err abort_error, log)
  unfolding with_git with_docker raise
  with_git-missing options none log h = refl
  with_git-missing options (some git) log (inl absent) = cc
  with_git-missing options (some git) log (inr absent) = rw absent refl

  -- Where the script returns, both commands are there, the last process that it ran is the build of
  -- the image, which succeeded, and every image that the build may take as a cache was pulled
  -- before it by a process that succeeded. Where one of the two commands is missing, it aborts and
  -- no process is run.
  pub build_image-IsBuilt :
      (options : Options)
      → ((out : String) (log : Log)
          → build_image host options [] ≡ (ok out, log)
          → (docker : String) × (host.docker_command ≡ some docker) × IsBuilt options docker log)
        × ((host.git_command ≡ none) ⊎ (host.docker_command ≡ none)
            → build_image host options [] ≡ (err abort_error, []))
  unfolding build_image
  build_image-IsBuilt options = (
    λ out log h. with_git-IsBuilt options host.git_command [] log out h,
    λ missing. with_git-missing options host.git_command [] missing,
  )
