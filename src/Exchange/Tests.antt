-- ===== src/Exchange/Tests.antt =====
-- Tests of exchanges, and the theorems about exchanges at concrete data.
use harpy.Prelude.{◌≡◌, refl, ◌≢◌, ◌⊎◌, true, false, List, [], ◌∷◌, none, some}
use harpy.ErrorCode.{parse_error_code}
use harpy.Error.{Error, as_error, to_error}
use harpy.Go.{GoError, no_error, no_data, plain, syntax_error, error_text}
use harpy.Request.{Request, is_notification, validate_server_side}
use harpy.Request.Set.{RequestSet, zero_set, validate_requests, validate_set_server_side}
use harpy.Response.{new_error_response}
use harpy.Exchange.{same_error, exchange}
use harpy.Exchange.Events.{
  WriterCall, write_error, write_batched, close_writer, called, notified, logged_error,
  logged_notification, logged_call, Trace, Environment, M, pure,
}
use harpy.Exchange.Laws.{
  read_failure_response, after_write, finish, exchange_notification, exchange_call,
  exchange_invalid, exchange_unreadable,
}
use harpy.Samples.{
  sample_json, call_request, notify_request, bad_request, one, success_response, background,
}

-- A writer whose response writes fail, and which can be closed.
abbrev failing_write : Trace → WriterCall → GoError
failing_write tr close_writer = no_error
failing_write tr _ = plain "broken pipe"

abbrev reading : RequestSet × GoError → Environment
reading r = record {
  context = background;
  logger_failure = no_error;
  read = r;
  call = λ tr ctx req. success_response;
  notify = λ tr ctx req. plain "not found";
  write = failing_write;
}

abbrev no_many : List Request → M GoError
no_many reqs = pure no_error

call_valid : validate_set_server_side sample_json (one call_request true) ≡ none
unfolding validate_set_server_side validate_requests validate_server_side
call_valid = refl

call_is_call : is_notification call_request ≡ false
unfolding is_notification
call_is_call = refl

exchange_call_example :
    let env = reading (one call_request true, no_error) in
    let answered : Trace =
      logged_call call_request success_response ∷ called call_request success_response ∷ [] in
    exchange sample_json env no_many []
    ≡ finish sample_json env no_many
        (plain "broken pipe")
        (after_write sample_json env no_many (write_batched success_response) answered)
exchange_call_example =
    exchange_call sample_json (reading (one call_request true, no_error)) no_many refl call_request
      true [] refl call_valid call_is_call

notify_valid : validate_set_server_side sample_json (one notify_request false) ≡ none
unfolding validate_set_server_side validate_requests validate_server_side
notify_valid = refl

notify_is_notification : is_notification notify_request ≡ true
unfolding is_notification
notify_is_notification = refl

exchange_notification_example :
    let env = reading (one notify_request false, no_error) in
    exchange sample_json env no_many []
    ≡ finish sample_json env no_many no_error (
        logged_notification notify_request (plain "not found")
        ∷ notified notify_request (plain "not found")
        ∷ [])
exchange_notification_example =
    exchange_notification sample_json (reading (one notify_request false, no_error)) no_many refl
      notify_request false [] refl notify_valid notify_is_notification

abbrev parse_failure : Error
parse_failure = record {
  code = parse_error_code;
  message = "invalid character";
  error_data = no_data;
  is_server_side = true;
  cause = syntax_error "invalid character";
}

bad_invalid : validate_set_server_side sample_json (one bad_request false) ≡ some parse_failure
unfolding validate_set_server_side validate_requests validate_server_side error_text
bad_invalid = refl

exchange_invalid_example :
    let env = reading (one bad_request false, no_error) in
    let res = new_error_response sample_json none (as_error parse_failure) in
    exchange sample_json env no_many []
    ≡ finish sample_json env no_many
        (plain "broken pipe")
        (after_write sample_json env no_many (write_error res) (logged_error res ∷ []))
exchange_invalid_example =
    exchange_invalid sample_json (reading (one bad_request false, no_error)) no_many refl []
      {e = parse_failure} refl bad_invalid

abbrev unread : Environment
unread = reading (zero_set, plain "connection reset")

exchange_unreadable_example :
    ((same_error (plain "connection reset") no_error ≡ true)
      × (exchange sample_json unread no_many []
          ≡ finish sample_json unread no_many (plain "connection reset") []))
    ⊎ ((same_error (plain "connection reset") no_error ≡ false)
          × (to_error (plain "connection reset") ≢ none)
          × (let res = new_error_response sample_json none (plain "connection reset") in
              exchange sample_json unread no_many []
              ≡ finish sample_json unread no_many (plain "broken pipe") (
                  after_write sample_json unread no_many (write_error res) (logged_error res ∷ [])))
        ⊎ (same_error (plain "connection reset") no_error ≡ false)
          × (to_error (plain "connection reset") ≡ none)
          × (exchange sample_json unread no_many []
              ≡ finish sample_json unread no_many (plain "connection reset") (
                  after_write sample_json unread no_many
                    (write_error (read_failure_response (plain "connection reset")))
                    (logged_error (read_failure_response (plain "connection reset")) ∷ []))))
exchange_unreadable_example = exchange_unreadable sample_json unread no_many refl [] (λ e. cc)
