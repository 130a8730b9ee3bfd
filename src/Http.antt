-- ===== src/Http.antt =====
-- The parts of HTTP that the middlewares read and write: methods, status codes, header maps,
-- requests with their extensions, responses. A header name is held in lower case, as the `http`
-- crate holds it.
use Prim.Native.String.{String}
use relaykey_backend.Base.{ℕ, List, [], ◌∷◌, Option, none, some, if◌then◌else◌}
use relaykey_backend.Text.{Text, text_eq}

pub data Method : Type 0 where
  get head options post put patch delete connect trace : Method
  extension : Text → Method

abbrev pub Headers : Type 0
Headers = List (Text × Text)

-- `headers.get(name)`: the first value.
unfoldable pub get_header : Text → Headers → Option Text
get_header name [] = none
get_header name ((n, v) ∷ hs) = if text_eq n name then some v else get_header name hs

pub data Body : Type 0 where
  empty : Body
  plain : String → Body
  -- The JSON object of a blocked request, by its code.
  blocked : Text → Body
  -- The JSON object of the payment instructions: type, amount, currency, facilitator, recipient.
  instructions : Text → Text → Text → Text → Text → Body
  stream : Text → Body

pub record Response : Type 0 where
  pub status : ℕ
  pub headers : Headers
  pub body : Body

-- `(status, "message").into_response()`.
abbrev pub respond : ℕ → String → Response
respond code message = record { status = code; headers = []; body = plain message }
