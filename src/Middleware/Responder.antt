-- ===== src/Middleware/Responder.antt =====
-- app/middleware/pygeoapi.py. The responder is an object that lives for one request; its field
-- `initial_message` is a state that is handed on from message to message.
pub mod Streams
use fastgeoapi.Base.{
  ℕ, String, ◌<>◌, Bool, true, false, ◌&&◌, Option, none, some, List, [], ◌∷◌, ◌++◌, Result, ok,
  err, key_error, ◌==◌, if◌then◌else◌,
}
use fastgeoapi.Base.Errors.{◌>>=◌}
use fastgeoapi.Middleware.Scope.{Scope, is_http}
use fastgeoapi.Openapi.{contains}

-- A message of the inner application, or the empty dict. `body` of a start is what the responder
-- writes into it.
pub data Message : Type 0 where
  empty : Message
  start : (status : ℕ) (headers : List (String × String)) (body : Option String) → Message
  body : (text : String) (more_body : Bool) → Message
  other : (type : String) → Message

-- `set_header` is the assignment to MutableHeaders, `content_length` the text of the length of a
-- body, and `augment_security` the text that the function of this name and `model_dump_json` come
-- to for a body.
pub record Rendering : Type 0 where
  pub set_header : String → String → List (String × String) → List (String × String)
  pub content_length : String → String
  pub augment_security : String → Result String

-- One request: `initial_message`, which is empty at first, and what was sent so far.
pub record Responder : Type 0 where
  pub initial_message : Message
  pub sent : List Message

-- routes_with_openapi
unfoldable pub is_openapi_route : String → Scope → Bool
is_openapi_route context scope = is_http scope && (scope.path == context <> "/openapi")

module _ (rendering : Rendering) where
  -- The start with the new length, and the new body in it. The empty message has no headers.
  unfoldable pub with_length : String → Message → Result Message
  with_length binary_body (start status headers old) = ok (
      start status
        (rendering.set_header "content-length" (rendering.content_length binary_body) headers)
        (some binary_body))
  with_length binary_body _ = err key_error

  -- await self.send(self.initial_message); await self.send(message)
  unfoldable pub send_both : Message → Message → Responder → Responder
  send_both initial message r = record {
    initial_message = initial;
    sent = r.sent ++ initial ∷ message ∷ [];
  }

  unfoldable pub send_json : String → Bool → Responder → Result Responder
  unfolding with_length send_both
  send_json initial_body more_body r = do
    binary_body ← rendering.augment_security initial_body
    initial ← with_length binary_body r.initial_message
    ok (send_both initial (body binary_body more_body) r)

  unfoldable pub send_with_security : Message → Responder → Result Responder
  unfolding send_both send_json contains
  send_with_security (start status headers old) r =
      ok (record r { initial_message = start status headers old })
  send_with_security (body text more_body) r =
      if contains "<!-- HTML" text
      then ok (send_both r.initial_message (body text more_body) r)
      else send_json text more_body r
  send_with_security message r = ok r

  -- the messages of the inner application, in their order
  unfoldable pub respond_all : List Message → Responder → Result Responder
  unfolding send_with_security
  respond_all [] r = ok r
  respond_all (message ∷ messages) r = do
    after ← send_with_security message r
    respond_all messages after

abbrev pub fresh : Responder
fresh = record { initial_message = empty; sent = [] }
