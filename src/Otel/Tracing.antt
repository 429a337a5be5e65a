-- ===== src/Otel/Tracing.antt =====
-- middleware/otelharpy/tracing.go: `Tracing`.
pub mod Laws
mod Tests
use Prim.Native.Char.{code}
use Prim.Native.String
use harpy.Prelude.{
  Bool, true, false, not, String, ◌<>◌, str_eq, List, [], ◌∷◌, none, some, ◌==◌, if◌then◌else◌,
}
use harpy.Prelude.Text.{codes}
use harpy.Go.{Bytes, raw_bytes, Context, GoError, error_text, is_nil, Outcome, returns, panics}
use harpy.Request.{Request, is_notification, equal_fold}
use harpy.Response.{Response, success, failure}
use harpy.Otel.{
  KeyValue, rpc_jsonrpc_request_id, bytes_value, common_attributes, request_attributes,
  error_response_attributes,
}
use harpy.Go.Run.{Run}

-- What the middleware does with spans and their tracer, in the methods' order.
pub data SpanEvent : Type 0 where
  span_started : String → SpanEvent
  name_set : String → SpanEvent
  attributes_set : List KeyValue → SpanEvent
  status_error : String → SpanEvent
  status_ok : SpanEvent
  error_recorded : GoError → SpanEvent
  span_ended : SpanEvent

-- The exchanger behind the middleware, and the context that `Tracer.Start` makes for a span's name.
pub record Next : Type 0 where
  pub call : Context → Request → Outcome Response
  pub notify : Context → Request → Outcome GoError
  pub start : Context → String → Context

-- The field `initialized` says that `once` has run.
pub record Tracing : Type 0 where
  pub service_name : String
  pub create_new_span : Bool
  pub initialized : Bool
  pub span_name_prefix : String
  pub attributes : List KeyValue

-- `Tracing.init`
unfoldable pub init : Tracing → Tracing
unfolding common_attributes
init t = if t.initialized then t else record t {
  initialized = true;
  attributes = common_attributes t.service_name;
  span_name_prefix =
      if str_eq t.service_name "" then t.span_name_prefix else (t.service_name <> "/");
}

-- `strings.Trim` with a cut set of one byte, first at the left end and then at the right end.
unfoldable pub trim_left : Bytes → Bytes
trim_left [] = []
trim_left (b ∷ rest) = if b == b'"' then trim_left rest else b ∷ rest

unfoldable pub trim_right : Bytes → Bytes
trim_right [] = []
trim_right (b ∷ rest) = elim (trim_right rest) [
  | [] ↦ if b == b'"' then [] else b ∷ []
  | c ∷ more ↦ b ∷ c ∷ more
]

unfoldable pub sanitize_request_id : Request → Bytes
unfolding equal_fold trim_left trim_right
sanitize_request_id req =
    if equal_fold (raw_bytes req.id) (codes "null")
    then []
    else trim_right (trim_left (raw_bytes req.id))

-- `strings.ReplaceAll` of "/" by "-"
unfoldable pub sanitize_method_name : String → String
sanitize_method_name String.[] = ""
sanitize_method_name (String.◌∷◌ c s) =
    let rest = sanitize_method_name s in
    if code c == b'/' then String.◌∷◌ "-" rest else String.◌∷◌ c rest

-- The function that `Tracing.Call` hands to `withSpan`, from what the next exchanger comes to.
abbrev describe_response : Outcome Response → Run SpanEvent Response
describe_response (panics message) tr = (panics message, tr)
describe_response (returns (success res)) tr = (returns (success res), status_ok ∷ tr)
describe_response (returns (failure res)) tr =
    let described = attributes_set (error_response_attributes res) ∷ tr in
    (
      returns (failure res),
      if is_nil res.server_error
          then status_error res.error.message ∷ described
          else error_recorded res.server_error
            ∷ status_error (error_text res.server_error)
            ∷ described,
    )

-- The same for `Tracing.Notify`.
abbrev describe_result : Outcome GoError → Run SpanEvent GoError
describe_result (panics message) tr = (panics message, tr)
describe_result (returns err) tr = (
  returns err,
  if not (is_nil err)
      then error_recorded err ∷ status_error (error_text err) ∷ tr
      else status_ok ∷ tr,
)

module _ (next : Next) where
  -- `withSpan`, with the state behind `init`. A deferred call ends a new span, whatever `fn` does.
  with_span :
      {A : Type 0} → Tracing → Context → Request → (Context → Run SpanEvent A) → Run SpanEvent A
  with_span t ctx req fn tr =
      let name = t.span_name_prefix <> sanitize_method_name req.method in
      let opened = if t.create_new_span then span_started name else name_set name in
      let inner = if t.create_new_span then Next.start next ctx name else ctx in
      let described =
        attributes_set (request_attributes req) ∷ attributes_set t.attributes ∷ opened ∷ tr in
      let identified =
        if not (is_notification req)
        then attributes_set ((rpc_jsonrpc_request_id, bytes_value (sanitize_request_id req)) ∷ [])
          ∷ described
        else described in
      let (o, after) = fn inner identified in
      (o, if t.create_new_span then span_ended ∷ after else after)

  -- `Tracing.Call`; the state behind it is `init t`.
  unfoldable pub call : Tracing → Context → Request → Run SpanEvent Response
  unfolding with_span
  call t ctx req =
      with_span (init t) ctx req (λ inner. describe_response (Next.call next inner req))

  -- `Tracing.Notify`; the state behind it is `init t`.
  unfoldable pub notify : Tracing → Context → Request → Run SpanEvent GoError
  unfolding with_span
  notify t ctx req =
      with_span (init t) ctx req (λ inner. describe_result (Next.notify next inner req))
