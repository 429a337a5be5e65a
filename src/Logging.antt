-- ===== src/Logging.antt =====
-- logging.go: `structuredExchangeLogger`, the attributes of each log entry.
pub mod Laws
pub mod Agreement
mod Tests
use harpy.Prelude.{
  Bool, not, String, str_eq, List, [], ◌∷◌, ◌++◌, Option, none, some, length, if◌then◌else◌,
}
use harpy.Prelude.Int.{ℤ, pos}
use harpy.ErrorCode.{code_text}
use harpy.Error.{Error, error_message, to_error, unwrap}
use harpy.Go.{RawMessage, raw_bytes, GoError, error_text, is_nil}
use harpy.Request.{Request}
use harpy.Response.{Response, success, failure, ErrorResponse}
use harpy.Exchange.Events.{
  Event, logged_error, logged_writer_error, logged_notification, logged_call, Trace,
}

-- The functions that make the attributes; the logging package gives their type.
pub record StructuredExchangeLogger (Attr : Type 0) : Type 0 where
  pub int : String → ℤ → Attr
  pub string : String → String → Attr

-- The functions `Int` and `String` of the packages zap and slog, with their types of attributes.
pub record AttributePackage (Attr : Type 0) : Type 0 where
  pub make_int : String → ℤ → Attr
  pub make_string : String → String → Attr

-- The logger's target is the sink of the entries, and so no part of the record.
unfoldable pub new_zap_exchange_logger :
    {Field : Type 0} → AttributePackage Field → StructuredExchangeLogger Field
new_zap_exchange_logger zap = record { int = zap.make_int; string = zap.make_string }

-- Here the type of attributes is `any`: the two functions convert what slog makes.
unfoldable pub new_slog_exchange_logger :
    {Attr AnyAttr : Type 0}
    → (Attr → AnyAttr)
    → AttributePackage Attr
    → StructuredExchangeLogger AnyAttr
new_slog_exchange_logger convert slog = record {
  int = λ n v. convert (slog.make_int n v);
  string = λ n v. convert (slog.make_string n v);
}

-- A call of one of the two methods of `Target`.
pub data Entry (Attr : Type 0) : Type 0 where
  info : String → List Attr → Entry Attr
  error : String → List Attr → Entry Attr

-- `len` of a raw message
abbrev pub size : RawMessage → ℤ
size b = pos (length (raw_bytes b))

-- The argument `span` is the trace ID of the span in the context, if that is recording.
module _ {Attr : Type 0} (l : StructuredExchangeLogger Attr) (span : Option String) where
  open l use {int, string}

  abbrev trace_attrs : List Attr
  trace_attrs = elim span [ none ↦ [] | some id ↦ string "trace_id" id ∷ [] ]

  -- The attribute about an error that stands behind another, if there is one.
  abbrev cause_attrs : GoError → List Attr
  cause_attrs err = if not (is_nil err) then string "caused_by" (error_text err) ∷ [] else []

  -- The attribute about a message that is not the description of the code.
  abbrev message_attrs : ErrorResponse → List Attr
  message_attrs res =
      if not (str_eq res.error.message (code_text res.error.code))
      then string "responded_with" res.error.message ∷ []
      else []

  abbrev code_attrs : ErrorResponse → List Attr
  code_attrs res = int "error_code" res.error.code ∷ string "error" (code_text res.error.code) ∷ []

  abbrev request_attrs : Request → List Attr
  request_attrs req =
      string "method" req.method ∷ int "param_size" (size req.parameters) ∷ trace_attrs

  unfoldable pub log_error : ErrorResponse → Entry Attr
  log_error res =
      error "error"
        (code_attrs res ++ (trace_attrs ++ (cause_attrs res.server_error ++ message_attrs res)))

  unfoldable pub log_writer_error : GoError → Entry Attr
  log_writer_error err =
      error "unable to write JSON-RPC response" (string "error" (error_text err) ∷ trace_attrs)

  -- The three cases of the type switch: nil, an `Error`, and any other error.
  unfoldable pub log_notification : Request → GoError → Entry Attr
  unfolding error_message unwrap
  log_notification req err =
      if is_nil err then info "notify" (request_attrs req) else elim (to_error err) [
        | some e ↦ error "notify" (
            request_attrs req
            ++ (int "error_code" e.code
                ∷ string "error" (error_message e)
                ∷ cause_attrs (unwrap e)))
        | none ↦ error "notify" (request_attrs req ++ string "error" (error_text err) ∷ [])
      ]

  unfoldable pub log_call : Request → Response → Entry Attr
  log_call req (success res) =
      info "call" (request_attrs req ++ int "result_size" (size res.result) ∷ [])
  log_call req (failure res) =
      error "call" (
        request_attrs req
        ++ (code_attrs res ++ (cause_attrs res.server_error ++ message_attrs res)))
