-- ===== src/Logging/Tests.antt =====
-- Log entries with attributes as pairs of a name and a value, and the theorems about them.
use harpy.Prelude.{◌≡◌, refl, ◌⊎◌, inl, inr, String, [], ◌∷◌, none, some}
use harpy.Prelude.Int.{ℤ, pos}
use harpy.Prelude.Text.{codes}
use harpy.Go.{plain, error_text}
use harpy.Request.{Request}
use harpy.Response.{Response, success}
use harpy.Logging.{
  StructuredExchangeLogger, AttributePackage, error, log_writer_error, log_call, log_notification,
  new_zap_exchange_logger,
}
use harpy.Logging.Laws.{log_call_confidential}
use harpy.Samples.{call_request, notify_request, success_response}

abbrev Field : Type 0
Field = String × (ℤ ⊎ String)

abbrev pairs : StructuredExchangeLogger Field
pairs = record { int = λ n v. (n, inl v); string = λ n v. (n, inr v) }

notification_failed :
    log_notification pairs (some "7f") notify_request (plain "boom")
    ≡ error "notify" (
        ("method", inr "Get")
        ∷ ("param_size", inl (pos 3))
        ∷ ("trace_id", inr "7f")
        ∷ ("error", inr "boom")
        ∷ [])
unfolding log_notification error_text
notification_failed = refl

-- A request for the same method with other parameters and another ID.
abbrev other_request : Request
other_request = record call_request { id = some (codes "22"); parameters = some (codes "{ }") }

abbrev other_response : Response
other_response =
    success
      (record { version = "2.0"; request_id = some (codes "22"); result = some (codes "123") })

log_call_confidential_example :
    log_call pairs none call_request success_response
    ≡ log_call pairs none other_request other_response
log_call_confidential_example =
    log_call_confidential pairs none call_request other_request success_response other_response refl
      refl refl

-- A logger whose attributes are pairs, as zap and as slog.
abbrev pair_package : AttributePackage Field
pair_package = record { make_int = λ n v. (n, inl v); make_string = λ n v. (n, inr v) }

zap_entry :
    log_writer_error (new_zap_exchange_logger pair_package) none (plain "boom")
    ≡ error "unable to write JSON-RPC response" (("error", inr "boom") ∷ [])
unfolding log_writer_error new_zap_exchange_logger error_text
zap_entry = refl
