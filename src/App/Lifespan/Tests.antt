-- ===== src/App/Lifespan/Tests.antt =====
-- A server that fails while it runs, within an MCP application that starts.
use fastgeoapi.Base.{ℕ, ◌≡◌, ◌⊎◌, refl, Bool, true, false, [], ◌∷◌, ok, err, Exception, os_error}
use fastgeoapi.App.Lifespan.{
  AsyncHttpClient, ClosesClient, mcp_started, served, client_closed, mcp_stopped, Lifetime,
  combined_lifespan,
}
use fastgeoapi.App.Lifespan.Cleanup.{runs, closings, combined_lifespan-closes}

-- a client that is a flag
abbrev flag : AsyncHttpClient
flag = record {
  State = Bool;
  Response = ℕ;
  headers = λ closed. [];
  get = λ url. λ options. λ closed. (ok 200, closed);
  post = λ url. λ content. λ options. λ closed. (ok 200, closed);
  put = λ url. λ content. λ options. λ closed. (ok 200, closed);
  delete = λ url. λ options. λ closed. (ok 200, closed);
  request = λ method. λ url. λ content. λ options. λ closed. (ok 200, closed);
  is_closed = λ closed. closed;
  aclose = λ closed. (ok tt, true);
}

abbrev failing_run : Lifetime flag
failing_run = record {
  enter = ok tt;
  leave = λ outcome. outcome;
  run = λ closed. (err os_error, closed);
}

flag_closes : ClosesClient flag
flag_closes = record { closes = λ closed. refl }

combined_lifespan-closes_example :
    let outcome = combined_lifespan flag failing_run true false in
    ((true ≡ true)
      × (e : Exception) × (failing_run.enter ≡ err e)
      × (outcome.events ≡ [])
      × (outcome.state ≡ false)
      × (outcome.result ≡ err e))
    ⊎ ((outcome.events ≡ mcp_started ∷ served ∷ client_closed ∷ mcp_stopped ∷ [])
        × (runs outcome.events ≡ 1)
        × (closings outcome.events ≡ 1)
        × (outcome.state ≡ true))
combined_lifespan-closes_example = combined_lifespan-closes flag failing_run true false flag_closes
