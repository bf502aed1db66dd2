-- ===== src/Auth/Jwks/Algs.antt =====
-- Which key sets name one algorithm, and what becomes of the audience.
use fastgeoapi.Base.{
  String, ◌≡◌, ◌≢◌, ◌↔◌, ◌⊎◌, inl, inr, refl, ap, ◌∙◌, true, Option, none, some, List, [], ◌∷◌, ok,
  arith, All, Bool-cases, Option-cases, eq_iff, eq_refl, ◌==◌,
}
use fastgeoapi.Json
use fastgeoapi.Json.{Value, null, bool, num, str, arr, obj, Items, nil, cons, Fields}
use fastgeoapi.Auth.Jwks.{
  is_listed, distinct_algs, only_alg, with_audience, any_equals, is_some, is_in,
}

-- A key names this algorithm.
abbrev pub IsNamed : String → List (Option String) → Type 0
IsNamed alg [] = ⊥
IsNamed alg (named ∷ algs) = (named ≡ some alg) ⊎ IsNamed alg algs

-- The keys name this algorithm and no other one, and it is no empty name.
abbrev pub IsOnlyAlg : String → List (Option String) → Type 0
IsOnlyAlg alg algs =
    (alg ≢ "") × IsNamed alg algs × All (λ named. (named ≡ none) ⊎ (named ≡ some alg)) algs

unnamed :
    (alg : String) (algs : List (Option String))
    → distinct_algs algs ≡ []
    → All (λ named. (named ≡ none) ⊎ (named ≡ some alg)) algs
unfolding distinct_algs is_listed
unnamed alg [] h = tt
unnamed alg (none ∷ algs) h = (inl refl, unnamed alg algs h)
unnamed alg (some named ∷ algs) h = elim (Bool-cases (is_listed named (distinct_algs algs))) [
  | inl listed ↦
      let none_left : distinct_algs algs ≡ [] = rw listed at h in
      absurd (ground (arith, rw none_left at listed))
  | inr fresh ↦ absurd (ground (arith, rw fresh at h))
]

distinct_algs-one :
    (alg : String) (algs : List (Option String))
    → distinct_algs algs ≡ alg ∷ []
    → IsNamed alg algs × All (λ named. (named ≡ none) ⊎ (named ≡ some alg)) algs
unfolding distinct_algs is_listed
distinct_algs-one alg [] h = absurd (ground (arith, h))
distinct_algs-one alg (none ∷ algs) h =
    let (named, others) = distinct_algs-one alg algs h in (inr named, (inl refl, others))
distinct_algs-one alg (some named ∷ algs) h =
    elim (Bool-cases (is_listed named (distinct_algs algs))) [
      | inl listed ↦
          let only : distinct_algs algs ≡ alg ∷ [] = rw listed at h in
          let (there, others) = distinct_algs-one alg algs only in
          let same : named ≡ alg = ground (arith, eq_iff alg named, rw only at listed) in
          (inl (ap some same), (inr (ap some same), others))
      | inr fresh ↦
          let (same, rest) : (named ≡ alg) × (distinct_algs algs ≡ []) =
            ground (arith, rw fresh at h) in
          (inl (ap some same), (inr (ap some same), unnamed alg algs rest))
    ]

module _ (alg : String) where
  one_at_most :
      (algs : List (Option String))
      → All (λ named. (named ≡ none) ⊎ (named ≡ some alg)) algs
      → ((distinct_algs algs ≡ []) × ¬ IsNamed alg algs) ⊎ (distinct_algs algs ≡ alg ∷ [])
  unfolding distinct_algs is_listed
  one_at_most [] h = inl (refl, λ named. named)
  one_at_most (none ∷ algs) (h, others) = elim (one_at_most algs others) [
    | inl (empty, missing) ↦
        inl (empty, λ named. elim named [ inl wrong ↦ cc | inr later ↦ missing later ])
    | inr one ↦ inr one
  ]
  one_at_most (some named ∷ algs) (h, others) =
      let same : named ≡ alg = elim h [
        | inl wrong ↦ absurd (ground (arith, wrong))
        | inr e ↦ ground (arith, e)
      ] in
      elim (one_at_most algs others) [
        | inl (empty, missing) ↦ inr (rw (empty, same) refl)
        | inr one ↦ inr (rw (one, same, eq_refl alg) refl)
      ]

-- `only_alg` is what the code makes of the names.
pub only_alg-IsOnlyAlg :
    (alg : String) (algs : List (Option String))
    → (only_alg (distinct_algs algs) ≡ ok alg) ↔ IsOnlyAlg alg algs
unfolding only_alg
only_alg-IsOnlyAlg alg algs = (only_alg_sound (distinct_algs algs) refl, only_alg_complete)
  where
    only_alg_sound :
        (names : List String)
        → distinct_algs algs ≡ names
        → only_alg names ≡ ok alg
        → IsOnlyAlg alg algs
    only_alg_sound [] e h = absurd (ground (arith, h))
    only_alg_sound (name ∷ []) e h = elim (Bool-cases (name == "")) [
      | inl empty ↦ absurd (ground (arith, rw empty at h))
      | inr given ↦
          let same : name ≡ alg = ground (arith, rw given at h) in
          let (named, others) = distinct_algs-one alg algs (e ∙ ap (λ n. n ∷ []) same) in
          (λ blank. ground (arith, given, (eq_iff name "").1 (same ∙ blank)), named, others)
    ]
    only_alg_sound (name ∷ other ∷ more) e h = absurd (ground (arith, h))

    only_alg_complete : IsOnlyAlg alg algs → only_alg (distinct_algs algs) ≡ ok alg
    only_alg_complete (given, named, others) = elim (one_at_most alg algs others) [
      | inl (empty, missing) ↦ absurd (missing named)
      | inr one ↦ elim (Bool-cases (alg == "")) [
        | inl blank ↦ absurd (given ((eq_iff alg "").0 blank))
        | inr fine ↦ rw (one, fine) refl
      ]
    ]

-- The audience is the one of the token, or its `client_id` where it has none.
abbrev pub IsFilled : Fields → Fields → Type 0
IsFilled decoded claims =
    ((client_id : Value) × (Json.get "aud" decoded ≡ none)
      × (Json.get "client_id" decoded ≡ some client_id)
      × (claims ≡ Json.put "aud" client_id decoded))
    ⊎ (((Json.get "aud" decoded ≢ none) ⊎ (Json.get "client_id" decoded ≡ none))
        × (claims ≡ decoded))

pub with_audience-IsFilled :
    (decoded claims : Fields) → (claims ≡ with_audience decoded) ↔ IsFilled decoded claims
unfolding with_audience
with_audience-IsFilled decoded claims = elim (Option-cases (Json.get "client_id" decoded)) [
  | inl absent ↦ rw absent (
    λ h. inr (inr refl, h),
    λ h. elim h [ inl (id, free, there, same) ↦ cc | inr (why, same) ↦ same ],
  )
  | inr (id, there) ↦ elim (Option-cases (Json.get "aud" decoded)) [
    | inl free ↦
        rw (there, free)
          (
            λ h. inl (id, refl, refl, h),
            λ h. elim h [
              | inl (other, same_free, same_id, same) ↦ ground (arith, same_id, same)
              | inr (why, same) ↦ elim why [ inl wrong ↦ absurd (wrong refl) | inr wrong ↦ cc ]
            ],
          )
    | inr (aud, held) ↦
        rw (there, held)
          (
            λ h. inr (inl (λ wrong. ground (arith, wrong)), h),
            λ h. elim h [ inl (other, wrong, rest, same) ↦ cc | inr (why, same) ↦ same ],
          )
  ]
]

-- A list of values has this text.
abbrev pub IsAmong : String → Items → Type 0
IsAmong text nil = ⊥
IsAmong text (cons v vs) = (v ≡ str text) ⊎ IsAmong text vs

-- The audience is the text, or a list that has it, or a dict that has it for a key.
abbrev pub IsAudience : String → Value → Type 0
IsAudience text (str s) = s ≡ text
IsAudience text (arr vs) = IsAmong text vs
IsAudience text (obj fs) = Json.get text fs ≢ none
IsAudience text _ = ⊥

skip_first :
    (text : String) (v : Value) (vs : Items)
    → v ≢ str text
    → (any_equals text vs ≡ true) ↔ IsAmong text vs
    → (any_equals text vs ≡ true) ↔ ((v ≡ str text) ⊎ IsAmong text vs)
skip_first text v vs other later = (
  λ h. inr (later.0 h),
  λ h. elim h [ inl same ↦ absurd (other same) | inr there ↦ later.1 there ],
)

any_equals_lem : (text : String) (vs : Items) → (any_equals text vs ≡ true) ↔ IsAmong text vs
unfolding any_equals
any_equals_lem text nil = (λ h. absurd (ground (arith, h)), λ h. elim h [ ])
any_equals_lem text (cons (str s) vs) =
    let later = any_equals_lem text vs in
    elim (Bool-cases (s == text)) [
      | inl same ↦ (λ h. inl (ap str ((eq_iff s text).0 same)), λ h. rw same refl)
      | inr other ↦ rw other (
        λ h. inr (later.0 h),
        λ h. elim h [
          | inl e ↦
              let wrong : s ≡ text = ground arith in
              absurd (ground (arith, other, (eq_iff s text).1 wrong))
          | inr there ↦ later.1 there
        ],
      )
    ]
any_equals_lem text (cons null vs) = skip_first text null vs (λ e. cc) (any_equals_lem text vs)
any_equals_lem text (cons (bool b) vs) =
    skip_first text (bool b) vs (λ e. cc) (any_equals_lem text vs)
any_equals_lem text (cons (num n) vs) =
    skip_first text (num n) vs (λ e. cc) (any_equals_lem text vs)
any_equals_lem text (cons (arr ws) vs) =
    skip_first text (arr ws) vs (λ e. cc) (any_equals_lem text vs)
any_equals_lem text (cons (obj fs) vs) =
    skip_first text (obj fs) vs (λ e. cc) (any_equals_lem text vs)

pub is_in-IsAudience :
    (text : String) (aud : Value) → (is_in text aud ≡ ok true) ↔ IsAudience text aud
unfolding is_in is_some
is_in-IsAudience text (str s) =
    (λ h. (eq_iff s text).0 (ground (arith, h)), λ h. ap ok ((eq_iff s text).1 h))
is_in-IsAudience text (arr vs) =
    let among = any_equals_lem text vs in (λ h. among.0 (ground (arith, h)), λ h. ap ok (among.1 h))
is_in-IsAudience text (obj fs) = elim (Option-cases (Json.get text fs)) [
  | inl missing ↦ rw missing (λ h. absurd (ground (arith, h)), λ h. absurd (h refl))
  | inr (v, there) ↦ rw there (λ h wrong. absurd (ground (arith, wrong)), λ h. refl)
]
is_in-IsAudience text null = (λ h. absurd (ground (arith, h)), λ h. elim h [ ])
is_in-IsAudience text (bool b) = (λ h. absurd (ground (arith, h)), λ h. elim h [ ])
is_in-IsAudience text (num n) = (λ h. absurd (ground (arith, h)), λ h. elim h [ ])
