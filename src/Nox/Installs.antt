-- ===== src/Nox/Installs.antt =====
-- How a session installs the program, and how the tests end.
use fastgeoapi.Base.{
  String, ◌≡◌, ◌≢◌, ◌⊎◌, ◌↔◌, inl, inr, refl, ap, true, false, Option, none, some, [], ◌∷◌, ◌++◌,
  Result, ok, err, Exception, called_process_error, arith, eq_iff, Bool-cases, Result-cases, ◌∙◌,
  ◌==◌,
}
use fastgeoapi.Base.Exec.{lift, ◌>>=◌, ◌>>◌}
use fastgeoapi.Nox.Branch.{
  Checkout, or_empty, detached_branch, branch_of, current_branch, get_current_branch, is_develop,
  is_develop_branch,
}
use fastgeoapi.Nox.Session.{
  install, run_install, notify, NoxState, Session, Nox, after, finally, act, project_action,
  install_project,
}
use fastgeoapi.Nox.Sessions.{prepare_tests, run_tests, notify_coverage, tests}

-- On a detached HEAD: a pull request from develop or into main.
abbrev pub IsDevelopRequest : Checkout → Type 0
IsDevelopRequest checkout =
    (checkout.getenv "GITHUB_HEAD_REF" ≡ some "develop")
    ⊎ (checkout.getenv "GITHUB_BASE_REF" ≡ some "main")

-- git names the branch develop, or no branch for such a request.
abbrev pub IsDevelop : Checkout → Type 0
IsDevelop checkout =
    (stdout : String) × (checkout.git_branch ≡ ok stdout)
    × ((checkout.strip stdout ≡ "develop")
        ⊎ ((checkout.strip stdout ≡ "HEAD") × IsDevelopRequest checkout))

or_empty_iff :
    (o : Option String) (text : String)
    → ("" == text) ≡ false
    → ((or_empty o == text) ≡ true) ↔ (o ≡ some text)
unfolding or_empty
or_empty_iff none text h = (λ e. absurd (ground (arith, h, e)), λ e. cc)
or_empty_iff (some t) text h =
    (λ e. ap some ((eq_iff t text).0 e), λ e. (eq_iff t text).1 (ground arith))

detached_branch_iff :
    (checkout : Checkout)
    → ((detached_branch checkout == "develop") ≡ true) ↔ IsDevelopRequest checkout
unfolding detached_branch
detached_branch_iff checkout =
    let head = or_empty_iff (checkout.getenv "GITHUB_HEAD_REF") "develop" refl in
    let base = or_empty_iff (checkout.getenv "GITHUB_BASE_REF") "main" refl in
    elim (Bool-cases (or_empty (checkout.getenv "GITHUB_HEAD_REF") == "develop")) [
      | inl from_develop ↦ rw from_develop (λ e. inl (head.0 from_develop), λ e. refl)
      | inr other_head ↦
          elim (Bool-cases (or_empty (checkout.getenv "GITHUB_BASE_REF") == "main")) [
            | inl into_main ↦ rw (other_head, into_main) (λ e. inr (base.0 into_main), λ e. refl)
            | inr other_base ↦
                rw (other_head, other_base)
                  (
                    λ e. cc,
                    λ e. elim e [
                      | inl from ↦ let yes_head = head.1 from in cc
                      | inr into ↦ let yes_base = base.1 into in cc
                    ],
                  )
          ]
    ]

branch_of_iff :
    (checkout : Checkout) (branch : String)
    → ((branch_of checkout branch == "develop") ≡ true)
      ↔ ((branch ≡ "develop") ⊎ ((branch ≡ "HEAD") × IsDevelopRequest checkout))
unfolding branch_of
branch_of_iff checkout branch = elim (Bool-cases (branch == "HEAD")) [
  | inl detached ↦
      let is_head = (eq_iff branch "HEAD").0 detached in
      rw detached (
        λ e. inr (is_head, (detached_branch_iff checkout).0 e),
        λ e. elim e [
          | inl named ↦ let wrong : ("develop" == "HEAD") ≡ true = rw named at detached in cc
          | inr (_, request) ↦ (detached_branch_iff checkout).1 request
        ],
      )
  | inr attached ↦ rw attached (
    λ e. inl ((eq_iff branch "develop").0 e),
    λ e. elim e [
      | inl named ↦ (eq_iff branch "develop").1 named
      | inr (is_head, _) ↦ absurd (ground (arith, attached, (eq_iff branch "HEAD").1 is_head))
    ],
  )
]

no_branch :
    (checkout : Checkout) (e : Exception) → is_develop (current_branch checkout (err e)) ≢ ok true
unfolding is_develop current_branch
no_branch checkout e h = ground arith

is_develop_branch-err :
    (checkout : Checkout) (e : Exception)
    → is_develop_branch checkout ≡ err e
    → (checkout.git_branch ≡ err e) × (e ≢ called_process_error)
unfolding is_develop_branch is_develop get_current_branch current_branch
is_develop_branch-err checkout e h = ground arith

is_develop_branch_iff :
    (checkout : Checkout) → (is_develop_branch checkout ≡ ok true) ↔ IsDevelop checkout
unfolding is_develop_branch is_develop get_current_branch current_branch
is_develop_branch_iff checkout = elim (Result-cases checkout.git_branch) [
  | inl (stdout, printed) ↦
      let named = branch_of_iff checkout (checkout.strip stdout) in
      rw printed (
        λ h. (stdout, refl, named.0 (ground arith)),
        λ (out, same, why).
            let e : stdout ≡ out = ground arith in ap ok (named.1 (rw (← e) at why)),
      )
  | inr (e, failed) ↦ rw failed (λ h. absurd (no_branch checkout e h), λ (out, same, why). cc)
]

-- On develop, as `IsDevelop` describes it, the program is installed from the lock file and nothing
-- else is; elsewhere it is installed as a release, and either way the command decides how this ends.
-- Only where git cannot be started, the session ends with that exception before it did anything.
pub install_project-IsDevelop :
    (session : Session) (s : NoxState)
    → let locked =
        run_install
          ("uv" ∷ "sync" ∷ [])
          (("UV_PROJECT_ENVIRONMENT", session.virtualenv_location) ∷ []) in
      let released = install ("." ∷ []) in
      (IsDevelop session.checkout
        × (install_project session s
            ≡ (session.perform s locked, record s { actions = s.actions ++ locked ∷ [] })))
      ⊎ (¬ IsDevelop session.checkout
          × (install_project session s
              ≡ (session.perform s released, record s { actions = s.actions ++ released ∷ [] })))
      ⊎ ((e : Exception) × (session.checkout.git_branch ≡ err e)
          × (e ≢ called_process_error)
          × (install_project session s ≡ (err e, s)))
unfolding install_project lift ◌>>=◌ act project_action
install_project-IsDevelop session s =
    let develop = is_develop_branch_iff session.checkout in
    elim (Result-cases (is_develop_branch session.checkout)) [
      | inl (true, found) ↦ rw found (inl (develop.0 found, refl))
      | inl (false, found) ↦
          rw found (inr (inl (λ h. absurd (ground (arith, found, develop.1 h)), refl)))
      | inr (e, raised) ↦
          let (same, other) = is_develop_branch-err session.checkout e raised in
          rw raised (inr (inr (e, same, other, refl)))
    ]

sequenced_cases :
    (m k : Nox) (s : NoxState)
    → ((e : Exception) × ((m s).0 ≡ err e) × ((m >> k) s ≡ (err e, (m s).1)))
      ⊎ (((m s).0 ≡ ok tt) × ((m >> k) s ≡ k ((m s).1)))
unfolding ◌>>=◌ ◌>>◌
sequenced_cases m k s = elim (Result-cases ((m s).0)) [
  | inl (tt, done) ↦ rw done (inr (refl, refl))
  | inr (e, raised) ↦ rw raised (inl (e, refl, refl))
]

tests_eq :
    (session : Session) (s : NoxState)
    → tests session s
      ≡ (prepare_tests session
            >> finally (act session (run_tests session)) (notify_coverage session))
          s
unfolding tests
tests_eq session s = refl

after_ok : (outcome last : Result (Unit {0})) → last ≡ ok tt → after outcome last ≡ outcome
unfolding after
after_ok outcome (ok tt) h = refl
after_ok outcome (err e) h = absurd (ground (arith, h))

finally-notifies :
    (session : Session) (t : NoxState)
    → session.interactive ≡ true
    → let report = finally (act session (run_tests session)) (notify_coverage session) t in
      (report.1
        ≡ record t { actions = (t.actions ++ run_tests session ∷ []) ++ notify "coverage" ∷ [] })
      × (session.perform
              (record t { actions = t.actions ++ run_tests session ∷ [] })
              (notify "coverage")
            ≡ ok tt
          → report.0 ≡ session.perform t (run_tests session))
unfolding finally notify_coverage act
finally-notifies session t interactive =
    rw interactive (refl, λ asked. after_ok (session.perform t (run_tests session)) _ asked)

-- Where the session is interactive, the coverage report is asked for after the tests, whether or not
-- they pass, and the tests decide how the session ends if the report can be asked for: only where the
-- preparation fails are the tests not run.
pub tests-notifies :
    (session : Session) (s : NoxState)
    → session.interactive ≡ true
    → let t = (prepare_tests session s).1 in
      ((e : Exception) × ((prepare_tests session s).0 ≡ err e) × (tests session s ≡ (err e, t)))
      ⊎ (((prepare_tests session s).0 ≡ ok tt)
          × ((tests session s).1 ≡ record t {
            actions = (t.actions ++ run_tests session ∷ []) ++ notify "coverage" ∷ [];
          })
          × (session.perform
                  (record t { actions = t.actions ++ run_tests session ∷ [] })
                  (notify "coverage")
                ≡ ok tt
              → (tests session s).0 ≡ session.perform t (run_tests session)))
tests-notifies session s interactive =
    elim (sequenced_cases (prepare_tests session)
      (finally (act session (run_tests session)) (notify_coverage session)) s) [
        | inl (e, raised, stopped) ↦ inl (e, raised, tests_eq session s ∙ stopped)
        | inr (prepared, continued) ↦
            let (actions, outcome) =
              finally-notifies session ((prepare_tests session s).1) interactive in
            inr (
              prepared,
              rw (tests_eq session s, continued) actions,
              rw (tests_eq session s, continued) outcome,
            )
      ]
