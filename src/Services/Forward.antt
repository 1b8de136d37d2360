-- ===== src/Services/Forward.antt =====
-- The requests that the gateway and the routing service pass on, and what becomes of the answer.
use new_zone_reference.Prelude.{ℕ, String, Option, none, some}
use new_zone_reference.Js.{Value, str, obj, end, field}
use new_zone_reference.Services.Http.{Response, reply, error}

-- What comes of a request: a status with the JSON of the body, if the body is JSON; an error of the
-- connection, with its message; or an error of the call itself, such as for a path with a blank.
pub data Answer : Type 0 where
  replied : ℕ → Option Value → Answer
  failed : String → Answer
  rejected : Answer

-- `{ status, body }`; `none` is the error of the call. The two texts are those of a body that is no
-- JSON and of a connection that fails.
unfoldable pub result_of : String → String → Answer → Option (ℕ × Value)
result_of no_json no_connection (replied status (some v)) = some (status, v)
result_of no_json no_connection (replied status none) = some (status, error no_json)
result_of no_json no_connection (failed detail) =
    some (500, obj (field "error" (str no_connection) (field "detail" (str detail) end)))
result_of no_json no_connection rejected = none

-- `res.writeHead(result.status); res.end(JSON.stringify(result.body))`, and the reply in the `catch`.
unfoldable pub relay : Response → Option (ℕ × Value) → Response
relay caught none = caught
relay caught (some (status, v)) = reply status v
