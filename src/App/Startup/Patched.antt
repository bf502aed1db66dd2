-- ===== src/App/Startup/Patched.antt =====
-- What the patches change.
use fastgeoapi.Base.{
  String, ◌≡◌, ◌≢◌, ◌⊎◌, inl, inr, refl, sym, ◌∙◌, true, false, List, [], ◌∷◌, map, Result, ok, err,
  arith, eq_iff, Bool-cases, Exception, os_error, locale_error, ◌==◌,
}
use fastgeoapi.App.McpServer.{Route}
use fastgeoapi.App.Startup.{
  PygeoapiApp, PygeoapiSubApp, patch_route, patched_app, build_pygeoapi_subapp, startup_error,
}

startup_error-kinds :
    (e : Exception) → (startup_error e ≢ os_error) × (startup_error e ≢ locale_error)
unfolding startup_error
startup_error-kinds e = ground arith

-- Only the two paths get another endpoint.
abbrev pub IsPatch : Route → Route → Type 0
IsPatch before after =
    (after ≡ before)
    ⊎ ((before.path ≡ "/conformance") × (after.endpoint ≡ "patched_conformance"))
    ⊎ ((before.path ≡ "/jobs/{job_id}/results") × (after.endpoint ≡ "patched_get_job_result"))

-- The same routes in the same order, each patched or as it was.
abbrev pub ArePatches : List Route → List Route → Type 0
ArePatches [] [] = Unit
ArePatches (r ∷ rs) (p ∷ ps) = (IsPatch r p × (p.path ≡ r.path)) × ArePatches rs ps
ArePatches _ _ = ⊥

path_cases :
    (route : Route)
    → ((route.path == "/conformance") ≡ true)
      ⊎ (((route.path == "/conformance") ≡ false)
          × ((route.path == "/jobs/{job_id}/results") ≡ true))
      ⊎ (((route.path == "/conformance") ≡ false)
          × ((route.path == "/jobs/{job_id}/results") ≡ false))
path_cases route = elim (Bool-cases (route.path == "/conformance")) [
  | inl yes_conformance ↦ inl yes_conformance
  | inr other ↦ elim (Bool-cases (route.path == "/jobs/{job_id}/results")) [
    | inl results ↦ inr (inl (other, results))
    | inr plain ↦ inr (inr (other, plain))
  ]
]

module _ (new_route : String → String → Route)
    (of_path : (path endpoint : String) → (new_route path endpoint).path ≡ path)
    (of_endpoint : (path endpoint : String) → (new_route path endpoint).endpoint ≡ endpoint) where
  patch_route-IsPatch :
      (route : Route)
      → IsPatch route (patch_route new_route route)
        × ((patch_route new_route route).path ≡ route.path)
  unfolding patch_route
  patch_route-IsPatch route = elim (path_cases route) [
    | inl c ↦
        let e = (eq_iff route.path "/conformance").0 c in
        rw c (
          inr (inl (e, of_endpoint "/conformance" "patched_conformance")),
          of_path "/conformance" "patched_conformance" ∙ sym e,
        )
    | inr (inl (other, results)) ↦
        let e = (eq_iff route.path "/jobs/{job_id}/results").0 results in
        rw (other, results)
          (
            inr (inr (e, of_endpoint "/jobs/{job_id}/results" "patched_get_job_result")),
            of_path "/jobs/{job_id}/results" "patched_get_job_result" ∙ sym e,
          )
    | inr (inr (other, plain)) ↦ rw (other, plain) (inl refl, refl)
  ]

  map-ArePatches : (routes : List Route) → ArePatches routes (map (patch_route new_route) routes)
  map-ArePatches [] = tt
  map-ArePatches (route ∷ routes) = (patch_route-IsPatch route, map-ArePatches routes)

-- Where pygeoapi's application can be imported, the sub-application has its static route and its
-- routes in their order and under their paths, and only the two patched paths have another
-- endpoint. Where the import raises, the start raises the translated exception, which is neither
-- an OSError other than FileNotFoundError nor a LocaleError. The hypotheses are what Starlette's
-- constructor of a route does with a path and an endpoint.
pub build_pygeoapi_subapp-ArePatches :
    (new_route : String → String → Route) (import_app : Result PygeoapiApp)
    → ((path endpoint : String) → (new_route path endpoint).path ≡ path)
    → ((path endpoint : String) → (new_route path endpoint).endpoint ≡ endpoint)
    → ((app : PygeoapiApp) × (sub : PygeoapiSubApp) × (import_app ≡ ok app)
        × (build_pygeoapi_subapp new_route import_app ≡ ok sub)
        × (sub.static_route ≡ app.static_route)
        × ArePatches app.api_routes sub.routes)
      ⊎ ((e : Exception) × (import_app ≡ err e)
          × (build_pygeoapi_subapp new_route import_app ≡ err (startup_error e))
          × (startup_error e ≢ os_error)
          × (startup_error e ≢ locale_error))
unfolding build_pygeoapi_subapp
build_pygeoapi_subapp-ArePatches new_route (ok app) of_path of_endpoint = inl (
  app,
  patched_app new_route app,
  refl,
  refl,
  refl,
  map-ArePatches new_route of_path of_endpoint app.api_routes,
)
build_pygeoapi_subapp-ArePatches new_route (err e) of_path of_endpoint =
    inr (e, refl, refl, (startup_error-kinds e).0, (startup_error-kinds e).1)
