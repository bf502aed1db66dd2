-- ===== src/App/Lifespan.antt =====
-- `combined_lifespan` of app/main.py: the lifespan of the MCP application around the run of the
-- server, and the client that is closed at the end. Each part is a result and a change of the
-- client's state; what happened is kept as a list of events. A server comes with a client, so that the
-- test for None is passed.
pub mod Cleanup
mod Tests
use fastgeoapi.Base.{
  ℕ, String, Bool, true, false, Option, none, some, List, [], ◌∷◌, ◌++◌, Result, ok, err, Exception,
  ◌≡◌, if◌then◌else◌,
}
use fastgeoapi.Base.Dict.{Dict}
use fastgeoapi.Json.{Value, Fields}

-- The keyword arguments of a request: the query and the headers, and those of the client itself.
pub record RequestOptions : Type 0 where
  pub params : Option Fields
  pub headers : Option (Dict String)
  pub kwargs : Fields

-- content, data and json
pub record RequestBody : Type 0 where
  pub content : Option String
  pub form : Option Fields
  pub json : Option Value

-- AsyncHTTPClient of app/interfaces/http_client.py. A request may raise, and may use up something of
-- the client; `aclose` closes it and releases all resources.
pub record AsyncHttpClient : Type 1 where
  pub State : Type 0
  pub Response : Type 0
  pub headers : State → Dict String
  pub get : (url : String) → RequestOptions → State → Result Response × State
  pub post : (url : String) → RequestBody → RequestOptions → State → Result Response × State
  pub put : (url : String) → RequestBody → RequestOptions → State → Result Response × State
  pub delete : (url : String) → RequestOptions → State → Result Response × State
  pub request :
      (method url : String) → RequestBody → RequestOptions → State → Result Response × State
  pub is_closed : State → Bool
  pub aclose : State → Result (Unit {0}) × State

-- What closes is closed; a client that is closed stays so.
pub record ClosesClient (client : AsyncHttpClient) : Type 0 where
  pub closes : (s : client.State) → client.is_closed (client.aclose s).1 ≡ true

pub data Event : Type 0 where
  mcp_started served client_closed mcp_stopped : Event

-- The lifespan of the MCP application: whether it starts, and what its end makes of the result of
-- its body. `run` is the server between the start and the end, with what it does to the client.
pub record Lifetime (client : AsyncHttpClient) : Type 0 where
  pub enter : Result (Unit {0})
  pub leave : Result (Unit {0}) → Result (Unit {0})
  pub run : client.State → Result (Unit {0}) × client.State

pub record Ending (client : AsyncHttpClient) : Type 0 where
  pub result : Result (Unit {0})
  pub state : client.State
  pub events : List Event

-- An exception in a `finally` block takes the place of the one that was on its way.
unfoldable pub after_finally : Result (Unit {0}) → Result (Unit {0}) → Result (Unit {0})
after_finally before (ok done) = before
after_finally before (err e) = err e

module _ (client : AsyncHttpClient) (around : Lifetime client) where
  -- try: yield, finally: await mcp_api_client.aclose()
  unfoldable pub serve_and_close : client.State → Ending client
  unfolding after_finally
  serve_and_close s =
      let (outcome, used) = around.run s in
      let (closing, closed) = client.aclose used in
      record {
        result = after_finally outcome closing;
        state = closed;
        events = served ∷ client_closed ∷ [];
      }

  -- async with mcp_app.lifespan(app): …
  unfoldable pub within_mcp : client.State → Result (Unit {0}) → Ending client
  unfolding serve_and_close
  within_mcp s (err e) = record { result = err e; state = s; events = [] }
  within_mcp s (ok started) =
      let inner = serve_and_close s in
      record {
        result = around.leave inner.result;
        state = inner.state;
        events = mcp_started ∷ (inner.events ++ mcp_stopped ∷ []);
      }

  -- `has_lifespan` is the test of `mcp_app.lifespan`.
  unfoldable pub combined_lifespan : Bool → client.State → Ending client
  unfolding within_mcp serve_and_close
  combined_lifespan has_lifespan s =
      if has_lifespan then within_mcp s around.enter else serve_and_close s
