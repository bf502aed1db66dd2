-- ===== src/Nox/Patched.antt =====
-- What the session for pre-commit leaves of the git hooks.
use fastgeoapi.Base.Dict as Dict
use fastgeoapi.Base.{
  String, ◌<>◌, ◌≡◌, ◌≢◌, ◌⊎◌, inl, inr, refl, Bool, true, false, ◌&&◌, some, List, [], ◌∷◌, arith,
  ok, All, Bool-cases, ◌∙◌, eq_iff, ◌==◌,
}
use fastgeoapi.Base.Dict.{Dict}
use fastgeoapi.Text.{starts_with}
use fastgeoapi.Openapi.{contains}
use fastgeoapi.Nox.Hooks.{
  Hook, Virtualenv, join_lines, first_is_python, insert_second, header, is_candidate, is_patched,
  patch_text, patched, patch_hook, patch_hooks, in_hookdir, activate_virtualenv_in_precommit_hooks,
}

-- A hook that the loop reads the lines of has one.
abbrev pub HasLine : Virtualenv → String × Hook → Type 0
HasLine venv (name, hook) = is_candidate venv name hook ≡ true → venv.splitlines hook.text ≢ []

-- The header stands behind the first line, and the lines after it follow; `is_patched` says whether
-- it is inserted.
abbrev pub IsInserted : Virtualenv → String → Hook → Hook → Type 0
IsInserted venv location hook result =
    (first : String) × (rest : List String) × (venv.splitlines hook.text ≡ first ∷ rest)
    × (starts_with first "#!" ≡ true)
    × (result ≡ record hook { text = first <> ("\n" <> join_lines (header venv location ∷ rest)) })

first_is_python-cases :
    (venv : Virtualenv) (lines : List String)
    → lines ≢ []
    → (first_is_python venv lines ≡ ok false)
      ⊎ ((first_is_python venv lines ≡ ok true)
          × ((first : String) × (rest : List String) × (lines ≡ first ∷ rest)
              × (starts_with first "#!" ≡ true)))
unfolding first_is_python
first_is_python-cases venv [] h = absurd (h refl)
first_is_python-cases venv (line ∷ lines) h =
    elim (Bool-cases (starts_with line "#!" && contains "python" (venv.lower line))) [
      | inl python ↦ rw python (inr (refl, (line, lines, refl, ground (arith, python))))
      | inr other ↦ rw other (inl refl)
    ]

inserted :
    (venv : Virtualenv) (location : String) (hook : Hook) (first : String) (rest : List String)
    → venv.splitlines hook.text ≡ first ∷ rest
    → patched venv location hook true
      ≡ record hook { text = first <> ("\n" <> join_lines (header venv location ∷ rest)) }
unfolding patched patch_text insert_second join_lines
inserted venv location hook first rest h = rw h refl

-- How the loop leaves a hook.
abbrev pub IsActivated : Virtualenv → String → String → Hook → Hook → Type 0
IsActivated venv location name hook result =
    ((is_patched venv name hook ≡ ok false) × (result ≡ hook))
    ⊎ ((is_patched venv name hook ≡ ok true) × IsInserted venv location hook result)

patched_false :
    (venv : Virtualenv) (location : String) (hook : Hook) → patched venv location hook false ≡ hook
unfolding patched
patched_false venv location hook = refl

is_patched-candidate :
    (venv : Virtualenv) (name : String) (hook : Hook)
    → is_candidate venv name hook ≡ true
    → is_patched venv name hook ≡ first_is_python venv (venv.splitlines hook.text)
unfolding is_patched
is_patched-candidate venv name hook h = rw h refl

is_patched-other :
    (venv : Virtualenv) (name : String) (hook : Hook)
    → is_candidate venv name hook ≡ false
    → is_patched venv name hook ≡ ok false
unfolding is_patched
is_patched-other venv name hook h = rw h refl

patched-IsActivated :
    (venv : Virtualenv) (location name : String) (hook : Hook)
    → HasLine venv (name, hook)
    → (is_python : Bool) × (is_patched venv name hook ≡ ok is_python)
      × IsActivated venv location name hook (patched venv location hook is_python)
patched-IsActivated venv location name hook h = elim (Bool-cases (is_candidate venv name hook)) [
  | inl candidate ↦
      let same = is_patched-candidate venv name hook candidate in
      elim (first_is_python-cases venv (venv.splitlines hook.text) (h candidate)) [
        | inl other ↦ (false, same ∙ other, inl (same ∙ other, patched_false venv location hook))
        | inr (python, (first, rest, lines, shebang)) ↦ (
          true,
          same ∙ python,
          inr (
            same ∙ python,
            (first, rest, lines, shebang, inserted venv location hook first rest lines),
          ),
        )
      ]
  | inr other ↦
      let none_left = is_patched-other venv name hook other in
      (false, none_left, inl (none_left, patched_false venv location hook))
]

patch_hooks-step :
    (venv : Virtualenv) (location name : String) (hook : Hook) (hooks : Dict Hook)
    (is_python : Bool)
    → is_patched venv name hook ≡ ok is_python
    → patch_hooks venv location ((name, hook) ∷ hooks) ≡ (
      (patch_hooks venv location hooks).0,
      (name, patched venv location hook is_python) ∷ (patch_hooks venv location hooks).1,
    )
unfolding patch_hooks patch_hook
patch_hooks-step venv location name hook hooks is_python h = rw h refl

patch_hooks-ok :
    (venv : Virtualenv) (location : String) (hooks : Dict Hook)
    → All (HasLine venv) hooks
    → (patch_hooks venv location hooks).0 ≡ ok tt
unfolding patch_hooks
patch_hooks-ok venv location [] h = refl
patch_hooks-ok venv location ((name, hook) ∷ hooks) (line, h) =
    let (is_python, found, activated) = patched-IsActivated venv location name hook line in
    rw (patch_hooks-step venv location name hook hooks is_python found)
      (patch_hooks-ok venv location hooks h)

patch_hooks-get :
    (venv : Virtualenv) (location name : String) (hooks : Dict Hook) (hook : Hook)
    → All (HasLine venv) hooks
    → Dict.get name hooks ≡ some hook
    → (result : Hook) × (Dict.get name (patch_hooks venv location hooks).1 ≡ some result)
      × IsActivated venv location name hook result
unfolding Dict.get
patch_hooks-get venv location name [] hook h found = absurd (ground (arith, found))
patch_hooks-get venv location name ((other, first) ∷ hooks) hook (line, h) found =
    let (is_python, patches, activated) = patched-IsActivated venv location other first line in
    let step = patch_hooks-step venv location other first hooks is_python patches in
    elim (Bool-cases (other == name)) [
      | inl same ↦
          let names : other ≡ name = (eq_iff other name).0 same in
          let hooks_agree : first ≡ hook = ground (arith, same, found) in
          (
            patched venv location first is_python,
            rw (step, same) refl,
            rw (← names, ← hooks_agree) activated,
          )
      | inr differs ↦
          let later : Dict.get name hooks ≡ some hook = ground (arith, differs, found) in
          let (result, there, left) = patch_hooks-get venv location name hooks hook h later in
          (result, rw (step, differs) there, left)
    ]

-- Where the session has an environment and there is a directory of hooks, of which none that the loop
-- reads is empty, the activation comes to its end, and a hook is as it was or has the header right
-- behind its first line, which starts with #!, and all its other lines after it.
pub activate_virtualenv_in_precommit_hooks-IsActivated :
    (venv : Virtualenv) (location name : String) (hooks : Dict Hook) (hook : Hook)
    → venv.location ≡ some location
    → All (HasLine venv) hooks
    → Dict.get name hooks ≡ some hook
    → ((activate_virtualenv_in_precommit_hooks venv true hooks).0 ≡ ok tt)
      × ((result : Hook) × (Dict.get name (activate_virtualenv_in_precommit_hooks venv true hooks).1
            ≡ some result)
          × IsActivated venv location name hook result)
unfolding activate_virtualenv_in_precommit_hooks in_hookdir
activate_virtualenv_in_precommit_hooks-IsActivated venv location name hooks hook environment h
      found =
    rw environment
      (patch_hooks-ok venv location hooks h, patch_hooks-get venv location name hooks hook h found)
