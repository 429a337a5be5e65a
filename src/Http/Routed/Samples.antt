-- ===== src/Http/Routed/Samples.antt =====
-- A server with a router, and a batch for it: data of the tests.
use harpy.Prelude.{◌≡◌, refl, String, true, List, [], ◌∷◌, Option, none, arith}
use harpy.Prelude.Text.{codes}
use harpy.Go.{Context, Any, any_value, Bytes, GoError, no_error}
use harpy.Request.{Request, validate_server_side}
use harpy.Request.Set.{validate_set_server_side, validate_requests}
use harpy.Response.{Response, success, failure, as_received}
use harpy.Router
use harpy.Router.{UntypedHandler, Router, lookup}
use harpy.Exchange.Many.Run.{Schedule}
use harpy.Http.Reader.{HttpRequest}
use harpy.Samples.{sample_json, input, call_request, notify_request, background}

abbrev pub handler : UntypedHandler
handler ctx req = (any_value 1, no_error)

abbrev pub router : Router
router = record { routes = ("Get", handler) ∷ [] }

abbrev pub unchecked : Any → Option GoError
unchecked result = none

abbrev pub no_logger : Option (String → String)
no_logger = none

abbrev pub parsed : String → String × GoError
parsed text = (text, no_error)

abbrev pub encoded : Response → Bytes × GoError
encoded res = (codes "{}", no_error)

abbrev pub batch : List Request
batch = call_request ∷ notify_request ∷ []

-- Five turns of the call, with the notification in between.
abbrev pub schedule : Schedule
schedule =
    (0, background)
    ∷ (1, background)
    ∷ (0, background)
    ∷ (0, background)
    ∷ (0, background)
    ∷ (1, background)
    ∷ (0, background)
    ∷ []

pub batch_valid :
    validate_set_server_side sample_json (record { requests = batch; is_batch = true }) ≡ none
unfolding validate_set_server_side validate_requests validate_server_side
batch_valid = refl

pub steady :
    (ctx : Context) (req : Request)
    → Router.call sample_json unchecked router ctx req
      ≡ Router.call sample_json unchecked router background req
unfolding Router.call lookup
steady ctx req = ground arith

-- The text of a response: its message, if it is an error.
abbrev pub spoken : Response → Bytes × GoError
spoken (success res) = (codes "ok", no_error)
spoken (failure res) = (codes res.error.message, no_error)

pub spoken-hides : (res : Response) → spoken (as_received res) ≡ spoken res
spoken-hides (success res) = refl
spoken-hides (failure res) = refl

abbrev pub post : HttpRequest
post = record { method = "POST"; content_type = "application/json"; body = input "[]" }
