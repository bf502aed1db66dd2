-- ===== src/App/Lifespan/Cleanup.antt =====
-- The client is closed once, whatever happens while the server runs.
use fastgeoapi.Base.{
  ℕ, suc, ◌≡◌, ◌⊎◌, inl, inr, refl, Bool, true, false, List, [], ◌∷◌, err, Exception, Result-cases,
  if◌then◌else◌,
}
use fastgeoapi.App.Lifespan.{
  AsyncHttpClient, ClosesClient, Event, mcp_started, served, client_closed, mcp_stopped, Lifetime,
  combined_lifespan,
}

-- How often the server ran, and how often the client was closed.
unfoldable pub runs : List Event → ℕ
runs [] = 0
runs (served ∷ events) = suc (runs events)
runs (_ ∷ events) = runs events

unfoldable pub closings : List Event → ℕ
closings [] = 0
closings (client_closed ∷ events) = suc (closings events)
closings (_ ∷ events) = closings events

-- What the lifespan comes to: either the MCP application does not start, and then the server does
-- not run and the client is not touched, or the server runs once, the client is closed once, after
-- it and before the MCP application stops, and is closed in the end.
pub combined_lifespan-closes :
    (client : AsyncHttpClient) (around : Lifetime client) (has_lifespan : Bool) (s : client.State)
    → ClosesClient client
    → let outcome = combined_lifespan client around has_lifespan s in
      ((has_lifespan ≡ true)
        × (e : Exception) × (around.enter ≡ err e)
        × (outcome.events ≡ [])
        × (outcome.state ≡ s)
        × (outcome.result ≡ err e))
      ⊎ ((outcome.events ≡ (
            if has_lifespan
            then mcp_started ∷ served ∷ client_closed ∷ mcp_stopped ∷ []
            else served ∷ client_closed ∷ []))
          × (runs outcome.events ≡ 1)
          × (closings outcome.events ≡ 1)
          × (client.is_closed outcome.state ≡ true))
unfolding combined_lifespan runs closings
combined_lifespan-closes client around false s law =
    inr (refl, refl, refl, law.closes (around.run s).1)
combined_lifespan-closes client around true s law = elim (Result-cases around.enter) [
  | inl (done, started) ↦ rw started (inr (refl, refl, refl, law.closes (around.run s).1))
  | inr (e, failed) ↦ rw failed (inl (refl, e, refl, refl, refl, refl))
]
