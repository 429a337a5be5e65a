-- ===== src/Exchange/Laws.antt =====
-- exchange.go: what an exchange comes to, by what is read.
use harpy.Prelude.{
  ◌≡◌, ◌≢◌, ◌⊎◌, Bool, true, false, List, [], ◌∷◌, none, some, arith, if◌then◌else◌,
}
use harpy.ErrorCode.{internal_error_code}
use harpy.Error.{Error, as_error, to_error}
use harpy.Go.{GoError, no_error, is_nil, Outcome, returns, Json}
use harpy.Request.{Request, is_notification}
use harpy.Request.Set.{validate_set_server_side}
use harpy.Request.Set.Laws.{validate_set_server_side_error}
use harpy.Response.{ErrorResponse, new_error_response}
use harpy.Response.Laws.{new_native_error_response_lem}
use harpy.Exchange.{same_error, exchange}
use harpy.Exchange.Events.{
  WriterCall, write_error, write_unbatched, write_batched, close_writer, wrote, called, notified,
  logged_error, logged_writer_error, logged_notification, logged_call, Trace, Environment, M,
}

-- The response to a client whose request could not be read.
abbrev pub read_failure_response : GoError → ErrorResponse
read_failure_response err = record {
  version = "2.0";
  request_id = none;
  error = record {
    code = internal_error_code;
    message = "unable to read JSON-RPC request";
    info_data = none;
  };
  server_error = err;
}

module _ (json : Json) (env : Environment) (many : List Request → M GoError) where
  open env use {context, logger_failure, read, call, notify, write}

  -- A call of the writer, and the log entry about it if it fails.
  abbrev pub after_write : WriterCall → Trace → Trace
  after_write op tr =
      let err = write tr op in
      if is_nil err then wrote op err ∷ tr else logged_writer_error err ∷ wrote op err ∷ tr

  -- An exchange that ends with an error, or without one: the writer is closed, and its error is the
  -- result if there is no earlier one.
  abbrev pub finish : GoError → Trace → Outcome GoError × Trace
  finish err tr =
      (returns (if is_nil err then write tr close_writer else err), after_write close_writer tr)

  module _ (logged : logger_failure ≡ no_error) where
    -- A valid set of one notification, batch or not, in an exchange with a logger: the exchanger is
    -- notified and the result is logged. No response is written, and the error of the notification
    -- is not returned: all that the writer sees is that it is closed.
    pub exchange_notification :
        (req : Request) (is_batch : Bool) (tr : Trace)
        → read ≡ (record { requests = req ∷ []; is_batch = is_batch }, no_error)
        → validate_set_server_side json read.0 ≡ none
        → is_notification req ≡ true
        → let err = notify tr context req in
          exchange json env many tr
          ≡ finish no_error (logged_notification req err ∷ notified req err ∷ tr)
    unfolding exchange
    exchange_notification req is_batch tr r v n = ground arith

    -- A valid set of one call, in an exchange with a logger: the exchanger is called once, the
    -- response is logged and then written once, as part of a batch or on its own like the request,
    -- and the writer is closed. The result is the error of that write, or else that of closing.
    pub exchange_call :
        (req : Request) (is_batch : Bool) (tr : Trace)
        → read ≡ (record { requests = req ∷ []; is_batch = is_batch }, no_error)
        → validate_set_server_side json read.0 ≡ none
        → is_notification req ≡ false
        → let res = call tr context req in
          let op = if is_batch then write_batched res else write_unbatched res in
          let answered = logged_call req res ∷ called req res ∷ tr in
          exchange json env many tr ≡ finish (write answered op) (after_write op answered)
    unfolding exchange
    exchange_call req is_batch tr r v n = ground arith

    -- A set that is read and is not valid, in an exchange with a logger: the exchanger is not used,
    -- and the writer gets one error response without an ID, built from the error of validation,
    -- before it is closed. The result is the error of that write, or else that of closing.
    pub exchange_invalid :
        (tr : Trace) {e : Error}
        → read.1 ≡ no_error
        → validate_set_server_side json read.0 ≡ some e
        → let res = new_error_response json none (as_error e) in
          let op = write_error res in
          exchange json env many tr
          ≡ finish (write (logged_error res ∷ tr) op) (after_write op (logged_error res ∷ tr))
    unfolding exchange
    exchange_invalid tr {e} r v = ground (
      arith,
      validate_set_server_side_error json read.0 {e = e},
      new_native_error_response_lem json none e,
    )

    -- A set that cannot be read, in an exchange with a logger: the exchanger is not used. If the
    -- error is that of the context, nothing is written and the error is the result. If it is an
    -- error of this package, the writer gets the response to it, and the result is the error of
    -- that write, or else that of closing. Any other error is the result, and the client is told
    -- "unable to read JSON-RPC request".
    pub exchange_unreadable :
        (tr : Trace)
        → read.1 ≢ no_error
        → ((same_error read.1 context.err ≡ true) × (exchange json env many tr ≡ finish read.1 tr))
          ⊎ ((same_error read.1 context.err ≡ false)
                × (to_error read.1 ≢ none)
                × (let res = new_error_response json none read.1 in
                    exchange json env many tr
                    ≡ finish
                        (write (logged_error res ∷ tr) (write_error res))
                        (after_write (write_error res) (logged_error res ∷ tr)))
              ⊎ (same_error read.1 context.err ≡ false)
                × (to_error read.1 ≡ none)
                × (exchange json env many tr
                    ≡ finish read.1 (
                        after_write
                          (write_error (read_failure_response read.1))
                          (logged_error (read_failure_response read.1) ∷ tr))))
    unfolding exchange new_error_response
    exchange_unreadable tr r = ground arith
