-- ===== src/Docker/Processes.antt =====
-- What the processes of the script leave in the log.
use fastgeoapi.Base.{
  String, ◌≡◌, refl, sym, ap, ◌∙◌, true, List, [], ◌∷◌, ◌++◌, ok, arith, Result-cases, Bool-cases,
  inl, inr,
}
use fastgeoapi.Base.Exec.{lift, ◌>>=◌}
use fastgeoapi.Base.Exec.Rules.{bind-ok}
use fastgeoapi.Docker.{
  Host, Log, CompletedProcess, run_external_command, run_process, check_returncode,
}

pub append_nil : (xs : Log) → xs ++ [] ≡ xs
append_nil [] = refl
append_nil (x ∷ xs) = ap (λ l. x ∷ l) (append_nil xs)

append_assoc : (xs ys zs : Log) → (xs ++ ys) ++ zs ≡ xs ++ (ys ++ zs)
append_assoc [] ys zs = refl
append_assoc (x ∷ xs) ys zs = ap (λ l. x ∷ l) (append_assoc xs ys zs)

unfoldable pub Extends : Log → Log → Type 0
Extends log log' = (more : Log) × (log' ≡ log ++ more)

pub Extends-trans : (a b c : Log) → Extends a b → Extends b c → Extends a c
unfolding Extends
Extends-trans a b c (more, e) (most, e') =
    (more ++ most, e' ∙ ap (λ l. l ++ most) e ∙ append_assoc a more most)

module _ (host : Host) where
  -- The command was run among the processes of the log, and it succeeded.
  pub record Succeeded (command : String) (log : Log) : Type 0 where
    pub before : Log
    pub args : List String
    pub after : Log
    pub process : CompletedProcess
    pub split : host.split command ≡ ok args
    pub ran : host.run before args ≡ ok process
    pub succeeded : process.succeeded ≡ true
    pub logged : log ≡ before ++ args ∷ after

  pub later :
      (command : String) (log more : Log) → Succeeded command log → Succeeded command (log ++ more)
  later command log more s = record {
    before = s.before;
    args = s.args;
    after = s.after ++ more;
    process = s.process;
    split = s.split;
    ran = s.ran;
    succeeded = s.succeeded;
    logged = ap (λ l. l ++ more) s.logged ∙ append_assoc s.before (s.args ∷ s.after) more;
  }

  run_process-ok :
      (args : List String) (log : Log) (out : String)
      → (run_process host args log).0 ≡ ok out
      → (process : CompletedProcess) × (host.run log args ≡ ok process) × (process.succeeded ≡ true)
  unfolding run_process check_returncode
  run_process-ok args log out h = elim (Result-cases (host.run log args)) [
    | inl (process, ran) ↦ elim (Bool-cases process.succeeded) [
      | inl fine ↦ (process, ran, fine)
      | inr failed ↦ absurd (ground arith)
    ]
    | inr (e, raised) ↦ absurd (ground arith)
  ]

  pub run_external_command-ok :
      (command : String) (log log' : Log) (out : String)
      → run_external_command host command log ≡ (ok out, log')
      → (s : Succeeded command log') × (s.before ≡ log) × (s.after ≡ [])
  unfolding run_external_command run_process lift
  run_external_command-ok command log log' out h =
      let (args, split, rest) =
        bind-ok (lift (host.split command)) (run_process host) log log' out h in
      let (process, ran, fine) = run_process-ok args log out (ap (λ r. r.0) rest) in
      (
        record {
          before = log;
          args = args;
          after = [];
          process = process;
          split = split;
          ran = ran;
          succeeded = fine;
          logged = sym (ap (λ r. r.1) rest);
        },
        refl,
        refl,
      )

  pub run_external_command-Extends :
      (command : String) (log : Log) → Extends log (run_external_command host command log).1
  unfolding run_external_command run_process lift ◌>>=◌ Extends
  run_external_command-Extends command log = elim (Result-cases (host.split command)) [
    | inl (args, split) ↦ rw split (args ∷ [], refl)
    | inr (e, failed) ↦ rw failed ([], sym (append_nil log))
  ]
