-- ===== src/Nox/Hooks.antt =====
-- `activate_virtualenv_in_precommit_hooks`: the git hooks as a dict from their names.
use Prim.Native.String as NativeString
use fastgeoapi.Base.{
  String, ◌<>◌, Bool, true, false, not, ◌&&◌, ◌||◌, Option, none, some, List, [], ◌∷◌, Result, ok,
  err, index_error, if◌then◌else◌,
}
use fastgeoapi.Base.Dict.{Dict}
use fastgeoapi.Text.{starts_with, ends_with}
use fastgeoapi.Openapi.{contains}

-- An entry of the directory of hooks.
pub record Hook : Type 0 where
  pub is_file : Bool
  pub text : String

-- The virtual environment of a session, and Python's texts: `repr`, `splitlines` and `lower`, and
-- whether paths are compared without their case.
pub record Virtualenv : Type 0 where
  pub location : Option String
  pub bin : String
  pub repr : String → String
  pub splitlines : String → List String
  pub lower : String → String
  pub ignores_case : Bool

drop_last : String → String
drop_last NativeString.[] = NativeString.[]
drop_last (NativeString.◌∷◌ c NativeString.[]) = NativeString.[]
drop_last (NativeString.◌∷◌ c s) = NativeString.◌∷◌ c (drop_last s)

drop_first : String → String
drop_first NativeString.[] = NativeString.[]
drop_first (NativeString.◌∷◌ c s) = s

-- "\n".join(lines)
unfoldable pub join_lines : List String → String
join_lines [] = ""
join_lines (line ∷ []) = line
join_lines (line ∷ lines) = line <> ("\n" <> join_lines lines)

-- lines[0].startswith("#!") and "python" in lines[0].lower()
unfoldable pub first_is_python : Virtualenv → List String → Result Bool
first_is_python venv [] = err index_error
first_is_python venv (line ∷ lines) =
    ok (starts_with line "#!" && contains "python" (venv.lower line))

-- lines.insert(1, header)
unfoldable pub insert_second : String → List String → List String
insert_second header [] = header ∷ []
insert_second header (line ∷ lines) = line ∷ header ∷ lines

module _ (venv : Virtualenv) where
  bindir : String
  unfolding drop_first drop_last
  bindir = drop_last (drop_first (venv.repr venv.bin))

  unfoldable pub mentions_bindir : String → Bool
  unfolding bindir
  mentions_bindir text =
      venv.ignores_case && contains (venv.lower bindir) (venv.lower text) || contains bindir text

  -- The lines that activate the environment.
  unfoldable pub header : String → String
  header location =
      "import os\nos.environ[\"VIRTUAL_ENV\"] = "
      <> (venv.repr location
          <> ("\nos.environ[\"PATH\"] = os.pathsep.join((\n    "
              <> (venv.repr venv.bin <> ",\n    os.environ.get(\"PATH\", \"\"),\n))\n")))

  -- Whether the loop goes on to the lines of a hook.
  unfoldable pub is_candidate : String → Hook → Bool
  unfolding mentions_bindir
  is_candidate name hook =
      not (ends_with name ".sample") && hook.is_file && mentions_bindir hook.text

  -- Whether the loop comes to the insertion for a hook.
  unfoldable pub is_patched : String → Hook → Result Bool
  unfolding is_candidate first_is_python
  is_patched name hook =
      if is_candidate name hook then first_is_python venv (venv.splitlines hook.text) else ok false

  unfoldable pub patch_text : String → String → String
  unfolding header insert_second join_lines
  patch_text location text = join_lines (insert_second (header location) (venv.splitlines text))

  unfoldable pub patched : String → Hook → Bool → Hook
  unfolding patch_text
  patched location hook true = record hook { text = patch_text location hook.text }
  patched location hook false = hook

  -- One turn of the loop, before what it does with the hooks that come after.
  unfoldable pub patch_hook :
      String
      → String
      → Hook
      → Dict Hook
      → Result Bool
      → Result (Unit {0}) × Dict Hook
      → Result (Unit {0}) × Dict Hook
  unfolding patched
  patch_hook location name hook hooks (ok is_python) (outcome, rest) =
      (outcome, (name, patched location hook is_python) ∷ rest)
  patch_hook location name hook hooks (err e) (outcome, rest) = (err e, (name, hook) ∷ hooks)

  -- the loop over the directory, which stops where a hook raises
  unfoldable pub patch_hooks : String → Dict Hook → Result (Unit {0}) × Dict Hook
  unfolding is_patched patch_hook
  patch_hooks location [] = (ok tt, [])
  patch_hooks location ((name, hook) ∷ hooks) =
      let rest = patch_hooks location hooks in
      patch_hook location name hook hooks (is_patched name hook) rest

  unfoldable pub in_hookdir : Option String → Bool → Dict Hook → Result (Unit {0}) × Dict Hook
  unfolding patch_hooks
  in_hookdir none is_dir hooks = (ok tt, hooks)
  in_hookdir (some location) is_dir hooks =
      if is_dir then patch_hooks location hooks else (ok tt, hooks)

  -- `is_dir` says whether there is a directory of hooks.
  unfoldable pub activate_virtualenv_in_precommit_hooks :
      Bool → Dict Hook → Result (Unit {0}) × Dict Hook
  unfolding in_hookdir
  activate_virtualenv_in_precommit_hooks is_dir hooks = in_hookdir venv.location is_dir hooks
