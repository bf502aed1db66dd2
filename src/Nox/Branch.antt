-- ===== src/Nox/Branch.antt =====
-- Which branch a session takes itself to be on.
use fastgeoapi.Base.{
  String, Bool, ◌||◌, Option, none, some, Result, ok, err, called_process_error, ◌==◌,
  if◌then◌else◌,
}

-- What `git rev-parse --abbrev-ref HEAD` comes to, the method `strip` of texts, and the variables of
-- the environment.
pub record Checkout : Type 0 where
  pub git_branch : Result String
  pub strip : String → String
  pub getenv : String → Option String

-- os.environ.get(name, "")
unfoldable pub or_empty : Option String → String
or_empty none = ""
or_empty (some text) = text

-- A detached HEAD, on which GitHub's variables decide.
unfoldable pub detached_branch : Checkout → String
unfolding or_empty
detached_branch checkout =
    if or_empty (checkout.getenv "GITHUB_HEAD_REF") == "develop"
      || or_empty (checkout.getenv "GITHUB_BASE_REF") == "main"
    then "develop"
    else "main"

unfoldable pub branch_of : Checkout → String → String
unfolding detached_branch
branch_of checkout branch = if branch == "HEAD" then detached_branch checkout else branch

unfoldable pub current_branch : Checkout → Result String → Result String
unfolding branch_of
current_branch checkout (ok stdout) = ok (branch_of checkout (checkout.strip stdout))
current_branch checkout (err called_process_error) = ok "main"
current_branch checkout (err e) = err e

unfoldable pub get_current_branch : Checkout → Result String
unfolding current_branch
get_current_branch checkout = current_branch checkout checkout.git_branch

unfoldable pub is_develop : Result String → Result Bool
is_develop (ok branch) = ok (branch == "develop")
is_develop (err e) = err e

unfoldable pub is_develop_branch : Checkout → Result Bool
unfolding is_develop get_current_branch
is_develop_branch checkout = is_develop (get_current_branch checkout)
