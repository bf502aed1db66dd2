-- ===== src/Middleware/Oauth2/Gate.antt =====
-- Which requests pass the OAuth2 layer.
use fastgeoapi.Base.{
  ap, sym, ◌∙◌, assertion_error, String, ◌≡◌, refl, Bool, true, false, List, [], ◌∷◌, ◌↔◌, ◌⊎◌, inl,
  inr, Result, ok, err, oauth2_error, unbound_local_error, eq_iff, arith, Bool-cases, >>=-eq-ok,
  ◌==◌,
}
use fastgeoapi.Json.{Fields}
use fastgeoapi.Middleware.Scope.{ScopeType-cases, Scope, http, websocket, lifespan}
use fastgeoapi.Middleware.Oauth2.{
  UserInfo, user_info, redirect, other, Authentication, Variable, unbound, holds, forwarded, Login,
  login, conclude, should_skip_endpoint, at_type, for_request, oauth2_middleware,
}

-- One of the authentications returns a dict, and each before it returns something else or raises
-- Oauth2Error.
pub data LogsIn (request : Scope) : List Authentication → Type 0 where
  now :
      {auth : Authentication} {auths : List Authentication} (claims : Fields)
      → auth.authenticate request ≡ ok (user_info claims)
      → LogsIn request (auth ∷ auths)
  after_redirect :
      {auth : Authentication} {auths : List Authentication} (location : String)
      → auth.authenticate request ≡ ok (redirect location)
      → LogsIn request auths
      → LogsIn request (auth ∷ auths)
  after_other :
      {auth : Authentication} {auths : List Authentication}
      → auth.authenticate request ≡ ok other
      → LogsIn request auths
      → LogsIn request (auth ∷ auths)
  after_refusal :
      {auth : Authentication} {auths : List Authentication} (message : String)
      → auth.authenticate request ≡ err (oauth2_error message)
      → LogsIn request auths
      → LogsIn request (auth ∷ auths)

-- The loop ends in success with a dict in the variable.
abbrev Succeeds : Result Login → Type 0
Succeeds r =
    (claims : Fields) × (r ≡ ok (record { successful = true; variable = holds (user_info claims) }))

login_complete :
    {request : Scope} {auths : List Authentication} (variable : Variable)
    → LogsIn request auths
    → Succeeds (login request auths variable)
unfolding login
login_complete variable (now claims e) = (claims, rw e)
login_complete variable (after_redirect location e l) = rw e (login_complete _ l)
login_complete variable (after_other e l) = rw e (login_complete _ l)
login_complete variable (after_refusal message e l) = rw e (login_complete _ l)

module _ (request : Scope) (auth : Authentication) (auths : List Authentication) (l : Login) where
  login_step :
      (variable : Variable) (r : Result UserInfo)
      → auth.authenticate request ≡ r
      → ((before : Variable) → login request auths before ≡ ok l → LogsIn request auths)
      → login request (auth ∷ auths) variable ≡ ok l
      → LogsIn request (auth ∷ auths)
  unfolding login
  login_step variable (ok (user_info claims)) e rest h = now claims e
  login_step variable (ok (redirect location)) e rest h =
      after_redirect location e (rest (holds (redirect location)) (rw (e, login) at h))
  login_step variable (ok other) e rest h = after_other e (rest (holds other) (rw (e, login) at h))
  login_step variable (err (oauth2_error message)) e rest h =
      after_refusal message e (rest _ (rw (e, login) at h))
  login_step variable (err x) e rest h = let h' = rw (e, login) at h in cc

login_sound :
    (request : Scope) (auths : List Authentication) (variable : Variable) (l : Login)
    → l.successful ≡ true
    → login request auths variable ≡ ok l
    → LogsIn request auths
unfolding login
login_sound request [] variable l s h = absurd (ground arith)
login_sound request (auth ∷ auths) variable l s h =
    login_step request auth auths l variable (auth.authenticate request) refl
      (λ before. login_sound request auths before l s) h

conclude_sound : (l : Login) → conclude l ≡ ok forwarded → l.successful ≡ true
unfolding conclude
conclude_sound l h = ground arith

-- What passes: the events of the application's life, and those HTTP requests that are exempt or log in.
abbrev pub Passes : (String → String → Bool) → List String → List Authentication → Scope → Type 0
Passes re_match skip_endpoints auths scope =
    (scope.type ≡ lifespan)
    ⊎ ((scope.type ≡ http)
        × ((scope.method ≡ "OPTIONS")
            ⊎ (should_skip_endpoint re_match scope.path skip_endpoints ≡ true)
            ⊎ LogsIn scope auths))

module _ (re_match : String → String → Bool) (skips : List String)
    (auths : List Authentication) where
  request_sound :
      (scope : Scope)
      → for_request re_match skips auths scope ≡ ok forwarded
      → (scope.method ≡ "OPTIONS")
        ⊎ (should_skip_endpoint re_match scope.path skips ≡ true)
        ⊎ LogsIn scope auths
  unfolding for_request
  request_sound scope h = elim (Bool-cases (scope.method == "OPTIONS")) [
    | inl options ↦ inl ((eq_iff scope.method "OPTIONS").0 options)
    | inr method ↦ elim (Bool-cases (should_skip_endpoint re_match scope.path skips)) [
      | inl skip ↦ inr (inl skip)
      | inr no_skip ↦
          let (l, ended, done) =
            >>=-eq-ok (login scope auths unbound) conclude (rw (method, no_skip) at h) in
          inr (inr (login_sound scope auths unbound l (conclude_sound l done) ended))
    ]
  ]

  request_complete :
      (scope : Scope)
      → (scope.method ≡ "OPTIONS")
        ⊎ (should_skip_endpoint re_match scope.path skips ≡ true)
        ⊎ LogsIn scope auths
      → for_request re_match skips auths scope ≡ ok forwarded
  unfolding for_request conclude
  request_complete scope (inl options) = ground (arith, eq_iff scope.method "OPTIONS")
  request_complete scope (inr (inl skip)) = ground arith
  request_complete scope (inr (inr l)) =
      let (claims, e) = login_complete unbound l in ground (arith, e)

  -- By the type of the scope.
  pub oauth2_middleware-request :
      (scope : Scope)
      → scope.type ≡ http
      → oauth2_middleware re_match skips auths scope ≡ for_request re_match skips auths scope
  unfolding oauth2_middleware at_type
  oauth2_middleware-request scope request =
      ap (λ t. at_type re_match skips auths t (for_request re_match skips auths scope)) request

  pub oauth2_middleware-websocket :
      (scope : Scope)
      → scope.type ≡ websocket
      → oauth2_middleware re_match skips auths scope ≡ err assertion_error
  unfolding oauth2_middleware at_type
  oauth2_middleware-websocket scope socket =
      ap (λ t. at_type re_match skips auths t (for_request re_match skips auths scope)) socket

  oauth2_middleware-lifespan :
      (scope : Scope)
      → scope.type ≡ lifespan
      → oauth2_middleware re_match skips auths scope ≡ ok forwarded
  unfolding oauth2_middleware at_type
  oauth2_middleware-lifespan scope life =
      ap (λ t. at_type re_match skips auths t (for_request re_match skips auths scope)) life

-- The inner application is called exactly for lifespan events and for those HTTP requests that are
-- OPTIONS requests, have a path that a skip pattern matches, or for which one of the authentications
-- returns a dict while each before it returned something else or raised Oauth2Error. Every other
-- request is answered in its place or ends in an exception, as each websocket does.
pub oauth2_middleware_iff :
    (re_match : String → String → Bool) (skips : List String) (auths : List Authentication)
    (scope : Scope)
    → (oauth2_middleware re_match skips auths scope ≡ ok forwarded)
      ↔ Passes re_match skips auths scope
oauth2_middleware_iff re_match skips auths scope = elim (ScopeType-cases scope.type) [
  | inl life ↦ (λ h. inl life, λ h. oauth2_middleware-lifespan re_match skips auths scope life)
  | inr (inl socket) ↦
      let raised = oauth2_middleware-websocket re_match skips auths scope socket in
      (
        λ h. absurd (ground (arith, h, raised)),
        λ h. elim h [
          | inl life ↦ absurd (ground (arith, life, socket))
          | inr (request, passes) ↦ absurd (ground (arith, request, socket))
        ],
      )
  | inr (inr request) ↦
      let same = oauth2_middleware-request re_match skips auths scope request in
      (
        λ h. inr (request, request_sound re_match skips auths scope (sym same ∙ h)),
        λ h. elim h [
          | inl life ↦ absurd (ground (arith, life, request))
          | inr (_, passes) ↦ same ∙ request_complete re_match skips auths scope passes
        ],
      )
]

-- With no authentication configured, each HTTP request that is not exempt ends in UnboundLocalError,
-- since the variable that the code tests after the loop was never set.
pub oauth2_middleware_no_authentication :
    (re_match : String → String → Bool) (skips : List String) (scope : Scope)
    → scope.type ≡ http
    → (scope.method == "OPTIONS") ≡ false
    → should_skip_endpoint re_match scope.path skips ≡ false
    → oauth2_middleware re_match skips [] scope ≡ err unbound_local_error
unfolding for_request login conclude
oauth2_middleware_no_authentication re_match skips scope request method skip =
    oauth2_middleware-request re_match skips [] scope request ∙ rw (method, skip) refl
